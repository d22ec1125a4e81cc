-- ===== src/FatClient/Chunks.antt =====
-- The chunks of a list are short, and the list is all of them.
use smallgod.Prelude.{
  ℕ, zero, suc, ◌≤◌, ◌<◌, ◌≡◌, refl, ap, ◌∙◌, List, [], ◌∷◌, ◌++◌, length, take, drop, All, arith,
}
use smallgod.FatClient.{chunks, chunks_of}

module _ {ℓ} {A : Type ℓ} where
  abbrev pub concat : List (List A) → List A
  concat [] = []
  concat (xs ∷ xss) = xs ++ concat xss

  take-drop : (n : ℕ) (xs : List A) → take n xs ++ drop n xs ≡ xs
  take-drop zero xs = refl
  take-drop (suc n) [] = refl
  take-drop (suc n) (x ∷ xs) = ap (λ ys. x ∷ ys) (take-drop n xs)

  length-take-le : (n : ℕ) (xs : List A) → length (take n xs) ≤ n
  length-take-le zero xs = omega arith
  length-take-le (suc n) [] = omega arith
  length-take-le (suc n) (x ∷ xs) = omega (arith, length-take-le n xs)

  length-drop-le : (n : ℕ) (xs : List A) → length (drop n xs) ≤ length xs
  length-drop-le zero xs = omega arith
  length-drop-le (suc n) [] = omega arith
  length-drop-le (suc n) (x ∷ xs) = omega (arith, length-drop-le n xs)

  concat-chunks_of :
      (fuel n : ℕ) (xs : List A) → length xs ≤ fuel → concat (chunks_of fuel (suc n) xs) ≡ xs
  unfolding chunks_of
  concat-chunks_of zero n [] le = refl
  concat-chunks_of zero n (x ∷ xs) le = absurd (omega arith)
  concat-chunks_of (suc fuel) n [] le = refl
  concat-chunks_of (suc fuel) n (x ∷ xs) le =
      ap (λ ys. (x ∷ take n xs) ++ ys)
        (concat-chunks_of fuel n (drop n xs) (omega (arith, length-drop-le n xs)))
      ∙ ap (λ ys. x ∷ ys) (take-drop n xs)

  pub concat-chunks : (n : ℕ) (xs : List A) → 0 < n → concat (chunks n xs) ≡ xs
  unfolding chunks
  concat-chunks zero xs h = absurd (omega arith)
  concat-chunks (suc n) xs h = concat-chunks_of (length xs) n xs (omega arith)

  chunks_of-le : (fuel n : ℕ) (xs : List A) → All (λ ys. length ys ≤ n) (chunks_of fuel n xs)
  unfolding chunks_of
  chunks_of-le zero n xs = tt
  chunks_of-le (suc fuel) n [] = tt
  chunks_of-le (suc fuel) n (x ∷ xs) =
      (length-take-le n (x ∷ xs), chunks_of-le fuel n (drop n (x ∷ xs)))

  pub chunks-le : (n : ℕ) (xs : List A) → All (λ ys. length ys ≤ n) (chunks n xs)
  unfolding chunks
  chunks-le n xs = chunks_of-le (length xs) n xs

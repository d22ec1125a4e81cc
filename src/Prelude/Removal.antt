-- ===== src/Prelude/Removal.antt =====
-- `swap_remove` of the first element that a test accepts.
use Prim.Native.Nat.{ℕ, zero, suc}
use mathlib.Core.Path.{◌≡◌, sym, subst}
use mathlib.Core.Logic.{◌⊎◌, inl, inr}
use mathlib.Core.Bool.{Bool, true}
use mathlib.Core.List.{List, [], ◌∷◌, Memᴰ}
use mathlib.Core.Option.{Option, none, some}
use native.Mathlib.Omega.{arith}
use smallgod.Prelude.Tests.{Option-cases, Bool-cases}
use smallgod.Prelude.Lists.{get_elem?, position, set, pop}

module _ {ℓ} {A : Type ℓ} where
  -- `v.swap_remove(i)`: what is left; the code removes in range only, and the last element takes
  -- the place.
  abbrev swap_remove : ℕ → List A → List A
  swap_remove i xs = elim (pop xs).1 [ none ↦ xs | some last ↦ set (pop xs).0 i last ]

  -- The first element that a test accepts, with what its `swap_remove` leaves.
  unfoldable pub find_swap_remove : (A → Bool) → List A → Option (A × List A)
  find_swap_remove p xs = elim (position p xs) [
    | none ↦ none
    | some i ↦ elim (get_elem? xs i) [ none ↦ none | some x ↦ some (x, swap_remove i xs) ]
  ]

  get_elem?-mem : (xs : List A) (i : ℕ) (x : A) → get_elem? xs i ≡ some x → Memᴰ x xs
  get_elem?-mem [] i x e = absurd (ground arith)
  get_elem?-mem (y ∷ ys) zero x e = Memᴰ.head (ground arith)
  get_elem?-mem (y ∷ ys) (suc i) x e = Memᴰ.tail (get_elem?-mem ys i x e)

  get_elem?-position :
      (p : A → Bool) (xs : List A) (i : ℕ) (x : A)
      → position p xs ≡ some i
      → get_elem? xs i ≡ some x
      → p x ≡ true
  get_elem?-position p [] i x found e = absurd (ground arith)
  get_elem?-position p (y ∷ ys) i x found e = elim (Bool-cases (p y)) [
    | inl holds ↦ ground arith
    | inr fails ↦ elim (Option-cases (position p ys)) [
      | inl none_found ↦ absurd (ground arith)
      | inr (j, found') ↦
          let next : i ≡ suc j = ground arith in get_elem?-position p ys j x found' (ground arith)
    ]
  ]

  mem-pop : (xs : List A) (x : A) → Memᴰ x (pop xs).0 → Memᴰ x xs
  mem-pop [] x m = m
  mem-pop (y ∷ []) x m = elim m [ ]
  mem-pop (y ∷ z ∷ zs) x (Memᴰ.head e) = Memᴰ.head e
  mem-pop (y ∷ z ∷ zs) x (Memᴰ.tail m) = Memᴰ.tail (mem-pop (z ∷ zs) x m)

  pop-mem : (xs : List A) (x : A) → (pop xs).1 ≡ some x → Memᴰ x xs
  pop-mem [] x e = absurd (ground arith)
  pop-mem (y ∷ []) x e = Memᴰ.head (ground arith)
  pop-mem (y ∷ z ∷ zs) x e = Memᴰ.tail (pop-mem (z ∷ zs) x e)

  mem-set : (xs : List A) (i : ℕ) (v x : A) → Memᴰ x (set xs i v) → (x ≡ v) ⊎ Memᴰ x xs
  mem-set [] i v x m = inr m
  mem-set (y ∷ ys) zero v x (Memᴰ.head e) = inl e
  mem-set (y ∷ ys) zero v x (Memᴰ.tail m) = inr (Memᴰ.tail m)
  mem-set (y ∷ ys) (suc i) v x (Memᴰ.head e) = inr (Memᴰ.head e)
  mem-set (y ∷ ys) (suc i) v x (Memᴰ.tail m) = elim (mem-set ys i v x m) [
    | inl e ↦ inl e
    | inr m' ↦ inr (Memᴰ.tail m')
  ]

  mem-swap_remove : (i : ℕ) (xs : List A) (x : A) → Memᴰ x (swap_remove i xs) → Memᴰ x xs
  mem-swap_remove i xs x m = elim (Option-cases (pop xs).1) [
    | inl e ↦ subst (Memᴰ x) (ground arith) m
    | inr (last, e) ↦ elim (mem-set (pop xs).0 i last x (subst (Memᴰ x) (ground arith) m)) [
      | inl same ↦ subst (λ y. Memᴰ y xs) (sym same) (pop-mem xs last e)
      | inr m' ↦ mem-pop xs x m'
    ]
  ]

  pub find_swap_remove-some :
      (p : A → Bool) (xs : List A) (x : A) (rest : List A)
      → find_swap_remove p xs ≡ some (x, rest)
      → (p x ≡ true) × Memᴰ x xs × ((y : A) → Memᴰ y rest → Memᴰ y xs)
  unfolding find_swap_remove
  find_swap_remove-some p xs x rest e = elim (Option-cases (position p xs)) [
    | inl none_found ↦ absurd (ground arith)
    | inr (i, found) ↦ elim (Option-cases (get_elem? xs i)) [
      | inl outside ↦ absurd (ground arith)
      | inr (z, at) ↦
          let same : z ≡ x = ground arith in
          let left : swap_remove i xs ≡ rest = ground arith in
          (
            get_elem?-position p xs i x found (ground arith),
            get_elem?-mem xs i x (ground arith),
            λ y m. mem-swap_remove i xs y (subst (Memᴰ y) (sym left) m),
          )
    ]
  ]

-- ===== src/Network/Distinct.antt =====
-- Lists without repetition, by a key of their elements, and membership in their parts.
use mathlib.Core.List.{Memᴰ}
use mathlib.Core.List.Memᴰ
use smallgod.Prelude.{
  ◌⊎◌, length, ◌+◌, ◌≤◌, ◌≡◌, refl, sym, ap, ◌∙◌, subst, Bool, true, false, ite, List, [], ◌∷◌,
  ◌++◌, map, filter, any, Bool-cases, inl, inr, arith,
}

-- No element stands twice.
abbrev pub IsDistinct {ℓ} : {A : Type ℓ} → List A → Type ℓ
IsDistinct [] = Unit
IsDistinct (x ∷ xs) = (Memᴰ x xs → ⊥) × IsDistinct xs

module _ {ℓ} {A : Type ℓ} where
  pub mem-filter :
      (p : A → Bool) (xs : List A) (x : A) → Memᴰ x (filter p xs) → Memᴰ x xs × (p x ≡ true)
  mem-filter p [] x m = elim m [ ]
  mem-filter p (y ∷ ys) x m = elim (Bool-cases (p y)) [
    | inr fails ↦
        let e : filter p (y ∷ ys) ≡ filter p ys = ground arith in
        let (m', holds) = mem-filter p ys x (subst (Memᴰ x) e m) in (Memᴰ.tail m', holds)
    | inl here ↦
        let e : filter p (y ∷ ys) ≡ y ∷ filter p ys = ground arith in
        elim (subst (Memᴰ x) e m) [
          | Memᴰ.head e' ↦ (Memᴰ.head e', ap p e' ∙ here)
          | Memᴰ.tail m' ↦ let (m'', holds) = mem-filter p ys x m' in (Memᴰ.tail m'', holds)
        ]
  ]

  pub any-mem :
      (dec : Discrete A) (x : A) (xs : List A)
      → any (λ y. ite (dec y x) true false) xs ≡ true
      → Memᴰ x xs
  any-mem dec x [] e = absurd (ground arith)
  any-mem dec x (y ∷ ys) e = elim (dec y x) [
    | yes same ↦ Memᴰ.head (sym same)
    | no other ↦ Memᴰ.tail (any-mem dec x ys (ground arith))
  ]

  pub append-IsDistinct :
      (xs ys : List A)
      → IsDistinct xs
      → IsDistinct ys
      → ((x : A) → Memᴰ x xs → Memᴰ x ys → ⊥)
      → IsDistinct (xs ++ ys)
  append-IsDistinct [] ys dx dy apart = dy
  append-IsDistinct (x ∷ xs) ys (fresh, dx) dy apart = (
    λ m. elim (Memᴰ.append_cases xs m) [ inl mx ↦ fresh mx | inr my ↦ apart x (Memᴰ.head refl) my ],
    append-IsDistinct xs ys dx dy (λ y my. apart y (Memᴰ.tail my)),
  )

module _ {ℓ κ} {A : Type ℓ} {B : Type κ} (f : A → B) where
  pub map-mem : (xs : List A) (x : A) → Memᴰ x xs → Memᴰ (f x) (map f xs)
  map-mem [] x m = elim m [ ]
  map-mem (y ∷ ys) x (Memᴰ.head e) = Memᴰ.head (ap f e)
  map-mem (y ∷ ys) x (Memᴰ.tail m) = Memᴰ.tail (map-mem ys x m)

  pub mem-map : (xs : List A) (b : B) → Memᴰ b (map f xs) → (x : A) × Memᴰ x xs × (b ≡ f x)
  mem-map [] b m = elim m [ ]
  mem-map (y ∷ ys) b (Memᴰ.head e) = (y, Memᴰ.head refl, e)
  mem-map (y ∷ ys) b (Memᴰ.tail m) = let (x, mx, e) = mem-map ys b m in (x, Memᴰ.tail mx, e)

  -- Elements with the same key are the same one.
  pub eq_of_key :
      (xs : List A) (a b : A) → IsDistinct (map f xs) → Memᴰ a xs → Memᴰ b xs → f a ≡ f b → a ≡ b
  eq_of_key [] a b d ma mb e = elim ma [ ]
  eq_of_key (x ∷ xs) a b (fresh, d) (Memᴰ.head ea) (Memᴰ.head eb) e = ea ∙ sym eb
  eq_of_key (x ∷ xs) a b (fresh, d) (Memᴰ.head ea) (Memᴰ.tail mb) e =
      absurd (fresh (subst (λ z. Memᴰ z (map f xs)) (sym e ∙ ap f ea) (map-mem xs b mb)))
  eq_of_key (x ∷ xs) a b (fresh, d) (Memᴰ.tail ma) (Memᴰ.head eb) e =
      absurd (fresh (subst (λ z. Memᴰ z (map f xs)) (e ∙ ap f eb) (map-mem xs a ma)))
  eq_of_key (x ∷ xs) a b (fresh, d) (Memᴰ.tail ma) (Memᴰ.tail mb) e = eq_of_key xs a b d ma mb e

  pub filter-IsDistinct :
      (p : A → Bool) (xs : List A) → IsDistinct (map f xs) → IsDistinct (map f (filter p xs))
  filter-IsDistinct p [] d = tt
  filter-IsDistinct p (x ∷ xs) (fresh, d) = elim (Bool-cases (p x)) [
    | inr fails ↦
        let e : filter p (x ∷ xs) ≡ filter p xs = ground arith in
        subst (λ z. IsDistinct (map f z)) (sym e) (filter-IsDistinct p xs d)
    | inl holds ↦
        let e : filter p (x ∷ xs) ≡ x ∷ filter p xs = ground arith in
        subst (λ z. IsDistinct (map f z)) (sym e)
          (
            λ m.
                let (y, my, same) = mem-map (filter p xs) (f x) m in
                fresh (
                  subst (λ z. Memᴰ z (map f xs)) (sym same)
                    (map-mem xs y (mem-filter p xs y my).0)),
            filter-IsDistinct p xs d,
          )
  ]

module _ {ℓ} {A : Type ℓ} where
  -- A list without one of its elements.
  without :
      (ys : List A) (x : A)
      → Memᴰ x ys
      → (rest : List A) × (length ys ≡ length rest + 1)
        × ((z : A) → Memᴰ z ys → (z ≡ x) ⊎ Memᴰ z rest)
  without [] x m = elim m [ ]
  without (y ∷ ys) x (Memᴰ.head e) =
      (ys, omega arith, λ z m. elim m [ Memᴰ.head e' ↦ inl (e' ∙ sym e) | Memᴰ.tail m' ↦ inr m' ])
  without (y ∷ ys) x (Memᴰ.tail m) =
      let (rest, shorter, others) = without ys x m in
      (
        y ∷ rest,
        omega (arith, shorter),
        λ z mz. elim mz [
          | Memᴰ.head e ↦ inr (Memᴰ.head e)
          | Memᴰ.tail m' ↦ elim (others z m') [ inl e ↦ inl e | inr m'' ↦ inr (Memᴰ.tail m'') ]
        ],
      )

  -- Different elements of a list are no more than it has.
  pub length-le :
      (xs ys : List A) → IsDistinct xs → ((x : A) → Memᴰ x xs → Memᴰ x ys) → length xs ≤ length ys
  length-le [] ys d among = omega arith
  length-le (x ∷ xs) ys (fresh, d) among =
      let (rest, shorter, others) = without ys x (among x (Memᴰ.head refl)) in
      let among' : (z : A) → Memᴰ z xs → Memᴰ z rest = λ z mz.
        elim (others z (among z (Memᴰ.tail mz))) [
          | inl e ↦ absurd (fresh (subst (λ w. Memᴰ w xs) e mz))
          | inr m' ↦ m'
        ] in
      omega (arith, shorter, length-le xs rest d among')

  -- Different elements of a list that are as many as it has are all of them.
  pub covers :
      (xs ys : List A)
      → IsDistinct xs
      → ((x : A) → Memᴰ x xs → Memᴰ x ys)
      → length ys ≤ length xs
      → (y : A) → Memᴰ y ys
      → Memᴰ y xs
  covers [] [] d among le y m = m
  covers [] (z ∷ ys) d among le y m = absurd (omega arith)
  covers (x ∷ xs) ys (fresh, d) among le y m =
      let (rest, shorter, others) = without ys x (among x (Memᴰ.head refl)) in
      let among' : (z : A) → Memᴰ z xs → Memᴰ z rest = λ z mz.
        elim (others z (among z (Memᴰ.tail mz))) [
          | inl e ↦ absurd (fresh (subst (λ w. Memᴰ w xs) e mz))
          | inr m' ↦ m'
        ] in
      elim (others y m) [
        | inl e ↦ Memᴰ.head e
        | inr m' ↦ Memᴰ.tail (covers xs rest d among' (omega arith) y m')
      ]

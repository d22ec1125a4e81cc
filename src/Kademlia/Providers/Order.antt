-- ===== src/Kademlia/Providers/Order.antt =====
-- The list of a key stays sorted by distance, within its bound, and holds a provider once.
use smallgod.Prelude.{
  ℕ, zero, suc, ◌≤◌, ◌≡◌, ◌≢◌, Bool, true, false, none, some, List, [], ◌∷◌, ◌++◌, ltb, All, sym,
  ◌∙◌, position, set, insert_at, remove_at, pop, arith,
}

-- Every element is related to each that stands behind it.
abbrev pub Pairwise : {A : Type 0} → (A → A → Type 0) → List A → Type 0
Pairwise R [] = Unit
Pairwise R (x ∷ xs) = All (R x) xs × Pairwise R xs

module _ {A : Type 0} (P : A → Type 0) where
  All-insert_at : (i : ℕ) (a : A) (xs : List A) → P a → All P xs → All P (insert_at i a xs)
  All-insert_at zero a xs h k = (h, k)
  All-insert_at (suc i) a [] h k = (h, tt)
  All-insert_at (suc i) a (x ∷ xs) h k = (k.0, All-insert_at i a xs h k.1)

  All-append_one : (a : A) (xs : List A) → P a → All P xs → All P (xs ++ a ∷ [])
  All-append_one a [] h k = (h, tt)
  All-append_one a (x ∷ xs) h k = (k.0, All-append_one a xs h k.1)

  All-pop : (xs : List A) → All P xs → All P (pop xs).0
  All-pop [] k = tt
  All-pop (x ∷ []) k = tt
  All-pop (x ∷ y ∷ xs) k = (k.0, All-pop (y ∷ xs) k.1)

  All-set : (i : ℕ) (a : A) (xs : List A) → P a → All P xs → All P (set xs i a)
  All-set i a [] h k = tt
  All-set zero a (x ∷ xs) h k = (h, k.1)
  All-set (suc i) a (x ∷ xs) h k = (k.0, All-set i a xs h k.1)

  All-remove_at : (i : ℕ) (xs : List A) → All P xs → All P (remove_at i xs)
  All-remove_at i [] k = tt
  All-remove_at zero (x ∷ xs) k = k.1
  All-remove_at (suc i) (x ∷ xs) k = (k.0, All-remove_at i xs k.1)

  -- What the test of `position` says of the elements, if it finds none.
  pub All-of_none :
      (p : A → Bool) (xs : List A) → ((x : A) → p x ≡ false → P x) → position p xs ≡ none → All P xs
  All-of_none p [] h e = tt
  All-of_none p (x ∷ xs) h e = (h x (ground arith), All-of_none p xs h (ground arith))

  -- The element that `position` finds satisfies the test, and what holds of all.
  All-found :
      (p : A → Bool) (i : ℕ) (xs : List A)
      → position p xs ≡ some i
      → All P xs
      → (x : A) × (p x ≡ true) × P x
  All-found p i [] e k = cc
  All-found p zero (x ∷ xs) e k = (x, ground arith, k.0)
  All-found p (suc i) (x ∷ xs) e k = All-found p i xs (ground arith) k.1

module _ {A : Type 0} (R : A → A → Type 0) where
  pub Pairwise-append_one :
      (a : A) (xs : List A) → All (λ x. R x a) xs → Pairwise R xs → Pairwise R (xs ++ a ∷ [])
  Pairwise-append_one a [] h s = (tt, tt)
  Pairwise-append_one a (x ∷ xs) h s =
      (All-append_one (R x) a xs h.0 s.0, Pairwise-append_one a xs h.1 s.1)

  pub Pairwise-pop : (xs : List A) → Pairwise R xs → Pairwise R (pop xs).0
  Pairwise-pop [] s = tt
  Pairwise-pop (x ∷ []) s = tt
  Pairwise-pop (x ∷ y ∷ xs) s = (All-pop (R x) (y ∷ xs) s.0, Pairwise-pop (y ∷ xs) s.1)

  pub Pairwise-remove_at : (i : ℕ) (xs : List A) → Pairwise R xs → Pairwise R (remove_at i xs)
  Pairwise-remove_at i [] s = tt
  Pairwise-remove_at zero (x ∷ xs) s = s.1
  Pairwise-remove_at (suc i) (x ∷ xs) s =
      (All-remove_at (R x) i xs s.0, Pairwise-remove_at i xs s.1)

module _ {A : Type 0} (f : A → ℕ) where
  abbrev pub IsNearer : A → A → Type 0
  IsNearer a b = f a ≤ f b

  All-le_trans : (a b : ℕ) (xs : List A) → a ≤ b → All (λ y. b ≤ f y) xs → All (λ y. a ≤ f y) xs
  All-le_trans a b [] h k = tt
  All-le_trans a b (x ∷ xs) h k = (omega arith, All-le_trans a b xs h k.1)

  pub insert_at-sorted :
      (i : ℕ) (a : A) (xs : List A)
      → position (λ x. ltb (f a) (f x)) xs ≡ some i
      → Pairwise IsNearer xs
      → Pairwise IsNearer (insert_at i a xs)
  insert_at-sorted i a [] e s = cc
  insert_at-sorted zero a (x ∷ xs) e s =
      ((ground arith, All-le_trans (f a) (f x) xs (ground arith) s.0), s)
  insert_at-sorted (suc i) a (x ∷ xs) e s = (
    All-insert_at (IsNearer x) i a xs (ground arith) s.0,
    insert_at-sorted i a xs (ground arith) s.1,
  )

  -- A write in place of an element with the same value.
  pub set-sorted :
      (p : A → Bool) (i : ℕ) (a : A) (xs : List A)
      → ((x : A) → p x ≡ true → f x ≡ f a)
      → position p xs ≡ some i
      → Pairwise IsNearer xs
      → Pairwise IsNearer (set xs i a)
  set-sorted p i a [] h e s = tt
  set-sorted p zero a (x ∷ xs) h e s =
      (All-le_trans (f a) (f x) xs (omega (arith, h x (ground arith))) s.0, s.1)
  set-sorted p (suc i) a (x ∷ xs) h e s =
      let e' : position p xs ≡ some i = ground arith in
      let (y, found, near) = All-found (IsNearer x) p i xs e' s.0 in
      (All-set (IsNearer x) i a xs (omega (arith, h y found)) s.0, set-sorted p i a xs h e' s.1)

module _ {A B : Type 0} (g : A → B) where
  abbrev pub IsOther : A → A → Type 0
  IsOther a b = g a ≢ g b

  pub insert_at-distinct :
      (i : ℕ) (a : A) (xs : List A)
      → All (IsOther a) xs
      → Pairwise IsOther xs
      → Pairwise IsOther (insert_at i a xs)
  insert_at-distinct zero a xs h s = (h, s)
  insert_at-distinct (suc i) a [] h s = (tt, tt)
  insert_at-distinct (suc i) a (x ∷ xs) h s =
      (All-insert_at (IsOther x) i a xs (λ e. h.0 (sym e)) s.0, insert_at-distinct i a xs h.1 s.1)

  All-same : (a b : A) (xs : List A) → g a ≡ g b → All (IsOther a) xs → All (IsOther b) xs
  All-same a b [] e h = tt
  All-same a b (x ∷ xs) e h = (λ q. h.0 (e ∙ q), All-same a b xs e h.1)

  pub set-distinct :
      (p : A → Bool) (i : ℕ) (a : A) (xs : List A)
      → ((x : A) → p x ≡ true → g x ≡ g a)
      → position p xs ≡ some i
      → Pairwise IsOther xs
      → Pairwise IsOther (set xs i a)
  set-distinct p i a [] h e s = tt
  set-distinct p zero a (x ∷ xs) h e s = (All-same x a xs (h x (ground arith)) s.0, s.1)
  set-distinct p (suc i) a (x ∷ xs) h e s =
      let e' : position p xs ≡ some i = ground arith in
      let (y, found, other) = All-found (IsOther x) p i xs e' s.0 in
      (
        All-set (IsOther x) i a xs (λ q. other (q ∙ sym (h y found))) s.0,
        set-distinct p i a xs h e' s.1,
      )

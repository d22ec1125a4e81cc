-- ===== src/Prelude/Results.antt =====
-- The outcome of a fallible operation: a value, an error that the code returns, or a panic
-- (`unwrap`, `expect`, `assert!`, an index out of range).
use mathlib.Core.Path.{◌≡◌, refl}
use mathlib.Core.Logic.{◌⊎◌, inl, inr}
use mathlib.Core.Option.{Option, none, some}

pub data Result {ℓ κ} (Err : Type ℓ) (Val : Type κ) : Type (ℓ ⊔ κ) where
  panic : Result Err Val
  err : Err → Result Err Val
  ok : Val → Result Err Val

-- The `?` operator.
module _ {ℓ κ μ} {Err : Type ℓ} {Val : Type κ} {Next : Type μ} where
  infixl 5 ◌>>=◌
  abbrev pub ◌>>=◌ : Result Err Val → (Val → Result Err Next) → Result Err Next
  panic >>= next = panic
  err why >>= next = err why
  ok x >>= next = next x

  pub >>=-eq-ok :
      (r : Result Err Val) (next : Val → Result Err Next) {y : Next}
      → (r >>= next) ≡ ok y
      → (x : Val) × (r ≡ ok x) × (next x ≡ ok y)
  >>=-eq-ok panic next h = cc
  >>=-eq-ok (err why) next h = cc
  >>=-eq-ok (ok x) next h = (x, refl, h)

-- `ok_or`
abbrev pub ok_or {ℓ κ} : {Err : Type ℓ} {Val : Type κ} → Err → Option Val → Result Err Val
ok_or why none = err why
ok_or why (some x) = ok x

pub Result-cases {ℓ κ} :
    {Err : Type ℓ} {Val : Type κ} (r : Result Err Val)
    → ((x : Val) × (r ≡ ok x)) ⊎ ((why : Err) × (r ≡ err why)) ⊎ (r ≡ panic)
Result-cases panic = inr (inr refl)
Result-cases (err why) = inr (inl (why, refl))
Result-cases (ok x) = inl (x, refl)

pub ok_or-eq-ok {ℓ κ} :
    {Err : Type ℓ} {Val : Type κ} (why : Err) (o : Option Val) {x : Val}
    → ok_or why o ≡ ok x
    → o ≡ some x
ok_or-eq-ok why none h = cc
ok_or-eq-ok why (some y) h = cc

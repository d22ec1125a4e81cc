-- ===== src/Prelude/Text/RoundTrip.antt =====
-- A printed number is read back, also behind others, between separators.
use Prim.Native.Nat.{ℕ, zero, suc, ◌+◌, ◌-◌, ◌*◌, ◌/◌, ◌%◌, ◌≤◌, ◌<◌}
use mathlib.Core.Path.{◌≡◌, refl, ap, ◌∙◌, sym, subst}
use mathlib.Core.List.{List, [], ◌∷◌, ◌++◌}
use mathlib.Core.Option.{none, some}
use mathlib.Core.Logic.{◌≢◌, inl, inr}
use native.Mathlib.Omega.{arith}
use native.Mathlib.Decide.{dec_lt}
use smallgod.Prelude.Tests.{Option-cases}
use smallgod.Prelude.Lists.{All}
use smallgod.Prelude.Text.{Bytes, split, scan, parse, parse_all, digits, print}

-- A decimal digit.
abbrev pub IsDigit : ℕ → Type 0
IsDigit c = (b'0' ≤ c) × (c ≤ b'9')

scan-digits :
    (largest fuel n : ℕ) (out : Bytes)
    → n < fuel
    → n ≤ largest
    → scan largest 0 (digits fuel n out) ≡ scan largest n out
unfolding scan digits
scan-digits largest zero n out h le = absurd (omega arith)
scan-digits largest (suc fuel) n out h le = elim (dec_lt n 10) [
  | yes small ↦ ground arith
  | no large ↦
      let ih =
        scan-digits largest fuel (n / 10) ((b'0' + n % 10) ∷ out) (omega arith) (omega arith) in
      ground arith
]

digits-IsDigit : (fuel n : ℕ) (out : Bytes) → All IsDigit out → All IsDigit (digits fuel n out)
unfolding digits
digits-IsDigit zero n out all = all
digits-IsDigit (suc fuel) n out all =
    let ih =
      digits-IsDigit fuel (n / 10) ((b'0' + n % 10) ∷ out) ((omega arith, omega arith), all) in
    elim (dec_lt n 10) [
      | yes small ↦
          let e : digits (suc fuel) n out ≡ (b'0' + n) ∷ out = ground arith in
          subst (All IsDigit) (sym e) ((omega arith, omega arith), all)
      | no large ↦
          let e : digits (suc fuel) n out ≡ digits fuel (n / 10) ((b'0' + n % 10) ∷ out) =
            ground arith in
          subst (All IsDigit) (sym e) ih
    ]

-- What is read is not above the largest number.
scan-le :
    (largest n : ℕ) (s : Bytes) {m : ℕ} → n ≤ largest → scan largest n s ≡ some m → m ≤ largest
unfolding scan
scan-le largest n [] le e = grind arith
scan-le largest n (c ∷ s) {m} le e =
    let ih = scan-le largest (n * 10 + (c - b'0')) s {m = m} in ground arith

pub parse-le : (largest : ℕ) (s : Bytes) {m : ℕ} → parse largest s ≡ some m → m ≤ largest
unfolding parse
parse-le largest [] e = cc
parse-le largest (c ∷ []) {m} e = let h = scan-le largest 0 (c ∷ []) {m = m} in ground arith
parse-le largest (c ∷ d ∷ s) {m} e =
    let h = scan-le largest 0 (c ∷ d ∷ s) {m = m} in
    let g = scan-le largest 0 (d ∷ s) {m = m} in ground arith

-- Digits in front of a text that is not empty do not make it empty.
digits-cons :
    (fuel n c : ℕ) (out : Bytes) → (d : ℕ) × (s : Bytes) × (digits fuel n (c ∷ out) ≡ d ∷ s)
unfolding digits
digits-cons zero n c out = (c, out, refl)
digits-cons (suc fuel) n c out =
    let (d, s, e) = digits-cons fuel (n / 10) (b'0' + n % 10) (c ∷ out) in
    elim (dec_lt n 10) [
      | yes small ↦ (b'0' + n, c ∷ out, ground arith)
      | no large ↦ (d, s, ground arith)
    ]

print-cons : (n : ℕ) → (d : ℕ) × (s : Bytes) × (print n ≡ d ∷ s)
unfolding print digits
print-cons n =
    let (d, s, e) = digits-cons n (n / 10) (b'0' + n % 10) [] in
    elim (dec_lt n 10) [
      | yes small ↦ (b'0' + n, [], ground arith)
      | no large ↦ (d, s, ground arith)
    ]

-- Digits are read without a sign.
parse-scan :
    (largest c : ℕ) (s : Bytes) → IsDigit c → parse largest (c ∷ s) ≡ scan largest 0 (c ∷ s)
unfolding parse
parse-scan largest c s digit = ground arith

print-IsDigit : (n : ℕ) → All IsDigit (print n)
unfolding print
print-IsDigit n = digits-IsDigit (suc n) n [] tt

pub parse-print : (largest n : ℕ) → n ≤ largest → parse largest (print n) ≡ some n
unfolding print scan
parse-print largest n le =
    let (d, s, e) = print-cons n in
    let digit = (subst (All IsDigit) e (print-IsDigit n)).0 in
    ap (parse largest) e
    ∙ parse-scan largest d s digit
    ∙ ap (scan largest 0) (sym e)
    ∙ scan-digits largest (suc n) n [] (omega arith) le

-- A text without separators, alone and in front of one.
pub split-alone : (sep : ℕ) (a : Bytes) → All (λ c. c ≢ sep) a → split sep a ≡ a ∷ []
unfolding split
split-alone sep [] all = refl
split-alone sep (c ∷ a) (ne, all) = let ih = split-alone sep a all in grind arith

pub split-++ :
    (sep : ℕ) (a b : Bytes) → All (λ c. c ≢ sep) a → split sep (a ++ sep ∷ b) ≡ a ∷ split sep b
unfolding split
split-++ sep [] b all = ground arith
split-++ sep (c ∷ a) b (ne, all) = let ih = split-++ sep a b all in grind arith

All-map {ℓ κ μ} :
    {A : Type ℓ} {P : A → Type κ} {Q : A → Type μ}
    → ((x : A) → P x → Q x)
    → (xs : List A) → All P xs
    → All Q xs
All-map f [] all = tt
All-map f (x ∷ xs) (p, ps) = (f x p, All-map f xs ps)

pub print-≤ : (n : ℕ) → All (λ c. c ≤ b'9') (print n)
print-≤ n = All-map (λ c (low, high). high) (print n) (print-IsDigit n)

-- Printed numbers hold no separator that is not a digit.
pub print-≢ : (sep n : ℕ) → ¬ IsDigit sep → All (λ c. c ≢ sep) (print n)
print-≢ sep n other =
    All-map (λ c digit e. other (subst IsDigit e digit)) (print n) (print-IsDigit n)

pub parse_all-[] : (largest : ℕ) → parse_all largest [] ≡ some []
unfolding parse_all
parse_all-[] largest = refl

pub parse_all-split-[] : (largest sep : ℕ) → parse_all largest (split sep []) ≡ none
unfolding parse_all parse split
parse_all-split-[] largest sep = refl

pub parse_all-∷ :
    (largest : ℕ) (s : Bytes) (ss : List Bytes) {n : ℕ} {ns : List ℕ}
    → parse largest s ≡ some n
    → parse_all largest ss ≡ some ns
    → parse_all largest (s ∷ ss) ≡ some (n ∷ ns)
unfolding parse_all
parse_all-∷ largest s ss e es = cc

pub parse_all-le :
    (largest : ℕ) (ss : List Bytes) (ns : List ℕ)
    → parse_all largest ss ≡ some ns
    → All (λ n. n ≤ largest) ns
unfolding parse_all
parse_all-le largest [] ns e = let same : [] ≡ ns = cc in subst (All (λ n. n ≤ largest)) same tt
parse_all-le largest (s ∷ ss) ns e = elim (Option-cases (parse largest s)) [
  | inl bad ↦ absurd (ground arith)
  | inr (n, good) ↦ elim (Option-cases (parse_all largest ss)) [
    | inl bad ↦ absurd (ground arith)
    | inr (rest, goods) ↦
        let same : n ∷ rest ≡ ns = grind arith in
        subst (All (λ x. x ≤ largest)) same
          (parse-le largest s good, parse_all-le largest ss rest goods)
  ]
]

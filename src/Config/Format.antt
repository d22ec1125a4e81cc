-- ===== src/Config/Format.antt =====
-- A partition that is written is read back, and one that is read is within its bounds.
use smallgod.Prelude.{
  ℕ, ◌≤◌, ◌<◌, ◌≡◌, refl, ap, ◌∙◌, sym, false, some, List, [], ◌∷◌, ◌++◌, map, All, All-append, ok,
  inl, inr, Option-cases, arith,
}
use smallgod.Prelude.Text.{starts_with, Bytes, split, parse_all, print}
use smallgod.Prelude.Text.RoundTrip.{
  parse-print, split-++, split-alone, print-≢, print-≤, parse_all-∷, parse_all-[], parse_all-le,
  parse_all-split-[],
}
use smallgod.Config.{
  Partition, parse, serialize, deserialize, string, from_numbers, to_ascii_lowercase, contains_word,
  none_word, u8_max,
}

-- The first part is one of at least one and of at most 255.
abbrev pub IsValid : Partition → Type 0
IsValid p = (0 < p.number) × (p.number ≤ p.fraction) × (p.fraction ≤ u8_max)

from_numbers-IsValid :
    (ns : List ℕ) (p : Partition)
    → All (λ n. n ≤ u8_max) ns
    → from_numbers (some ns) ≡ ok p
    → IsValid p
unfolding from_numbers
from_numbers-IsValid [] p all e = cc
from_numbers-IsValid (n ∷ []) p all e = cc
from_numbers-IsValid (n ∷ f ∷ []) p (h, (g, end)) e = ground arith
from_numbers-IsValid (n ∷ f ∷ x ∷ rest) p all e = cc

-- What `parse` accepts has a number from 1 to the fraction, and a fraction of at most 255.
pub parse-IsValid : (value : Bytes) (p : Partition) → parse value ≡ ok p → IsValid p
unfolding parse from_numbers
parse-IsValid value p e = elim (Option-cases (parse_all u8_max (split b'/' value))) [
  | inl bad ↦ absurd (ground arith)
  | inr (ns, good) ↦
      from_numbers-IsValid ns p (parse_all-le u8_max (split b'/' value) ns good)
        (ap from_numbers (sym good) ∙ e)
]

from_numbers-pair :
    (p : Partition) → IsValid p → from_numbers (some (p.number ∷ p.fraction ∷ [])) ≡ ok p
unfolding from_numbers
from_numbers-pair p (h, g, i) = ground arith

abbrev text : Partition → Bytes
text p = print p.number ++ b'/' ∷ print p.fraction

parse-text : (p : Partition) → IsValid p → parse (text p) ≡ ok p
unfolding parse
parse-text p (h, g, i) =
    let n = p.number in
    let f = p.fraction in
    let slash = λ (m : ℕ). print-≢ b'/' m (λ k. omega arith) in
    let parts =
      split-++ b'/' (print n) (print f) (slash n)
      ∙ ap (λ ps. print n ∷ ps) (split-alone b'/' (print f) (slash f)) in
    ap (λ ps. from_numbers (parse_all u8_max ps)) parts
    ∙ ap from_numbers (
        parse_all-∷ u8_max _ _ (parse-print u8_max n (omega arith))
          (parse_all-∷ u8_max _ _ (parse-print u8_max f i) (parse_all-[] u8_max)))
    ∙ from_numbers-pair p (h, g, i)

-- No byte of a printed partition is above the digit 9.
text-≤ : (p : Partition) → All (λ c. c ≤ b'9') (text p)
text-≤ p =
    All-append (λ c. c ≤ b'9') (print p.number) (b'/' ∷ print p.fraction) (print-≤ p.number)
      (omega arith, print-≤ p.fraction)

contains-none :
    (s : Bytes) → All (λ c. c ≤ b'9') s → contains_word none_word (map to_ascii_lowercase s) ≡ false
unfolding contains_word to_ascii_lowercase starts_with
contains-none [] all = refl
contains-none (c ∷ s) (le, all) = let ih = contains-none s all in ground arith

deserialize-parse :
    (s : Bytes) (p : Partition)
    → parse s ≡ ok p
    → contains_word none_word (map to_ascii_lowercase s) ≡ false
    → deserialize s ≡ ok (some p)
unfolding deserialize parse from_numbers parse_all
deserialize-parse [] p e free =
    let bad = ap from_numbers (sym (parse_all-split-[] u8_max b'/')) ∙ e in cc
deserialize-parse (c ∷ s) p e free = grind arith

-- A partition of which neither number is 0, the first is at most the second and the second is at
-- most 255 is read back as it was written.
pub deserialize-serialize :
    (p : Partition)
    → IsValid p
    → (s : Bytes) × (serialize (some p) ≡ string s) × (deserialize s ≡ ok (some p))
unfolding serialize
deserialize-serialize p valid = (
  text p,
  refl,
  deserialize-parse (text p) p (parse-text p valid) (contains-none (text p) (text-≤ p)),
)

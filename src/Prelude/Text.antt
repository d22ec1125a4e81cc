-- ===== src/Prelude/Text.antt =====
-- Bytes of text: `str::split`, `str::parse` of an unsigned number, and its print.
pub mod RoundTrip
use Prim.Native.Nat.{ℕ, zero, suc, ◌+◌, ◌-◌, ◌*◌, ◌/◌, ◌%◌}
use mathlib.Core.Bool.{Bool, true, false, ◌&&◌, ◌||◌}
use mathlib.Core.List.{List, [], ◌∷◌, map}
use mathlib.Core.Option.{Option, none, some}
use smallgod.Prelude.Tests.{ltb, leb, ◌==◌, if◌then◌else◌}

abbrev pub Bytes : Type 0
Bytes = List ℕ

-- `str::starts_with`
unfoldable pub starts_with : Bytes → Bytes → Bool
starts_with [] text = true
starts_with (c ∷ prefix) [] = false
starts_with (c ∷ prefix) (x ∷ text) = c == x && starts_with prefix text

-- `split`: the parts between the separators, of which there is always one.
unfoldable pub split : ℕ → Bytes → List Bytes
split sep [] = [] ∷ []
split sep (c ∷ s) =
    let rest = split sep s in
    if c == sep
    then [] ∷ rest
    else elim rest [ [] ↦ (c ∷ []) ∷ [] | part ∷ parts ↦ (c ∷ part) ∷ parts ]

-- The digits of a number up to a largest one, behind those that gave `n`.
unfoldable pub scan : ℕ → ℕ → Bytes → Option ℕ
scan largest n [] = some n
scan largest n (c ∷ s) =
    if ltb c b'0' || ltb b'9' c
    then none
    else if ltb largest (n * 10 + (c - b'0'))
    then none
    else scan largest (n * 10 + (c - b'0')) s

-- `str::parse` of an unsigned integer: a plus sign is allowed, and no digits are an error.
unfoldable pub parse : ℕ → Bytes → Option ℕ
unfolding scan
parse largest [] = none
parse largest (c ∷ s) =
    if c == b'+'
    then elim s [ [] ↦ none | d ∷ ds ↦ scan largest 0 (d ∷ ds) ]
    else scan largest 0 (c ∷ s)

-- `.map(str::parse).collect::<Result<Vec<_>, _>>()`
unfoldable pub parse_all : ℕ → List Bytes → Option (List ℕ)
unfolding parse
parse_all largest [] = some []
parse_all largest (s ∷ ss) = elim (parse largest s) [
  | none ↦ none
  | some n ↦ elim (parse_all largest ss) [ none ↦ none | some ns ↦ some (n ∷ ns) ]
]

-- The digits of a number in front of a text, by as many divisions as it has digits at most.
unfoldable pub digits : ℕ → ℕ → Bytes → Bytes
digits zero n out = out
digits (suc fuel) n out =
    let rest = digits fuel (n / 10) ((b'0' + n % 10) ∷ out) in
    if ltb n 10 then (b'0' + n) ∷ out else rest

-- The print of a number in decimal.
unfoldable pub print : ℕ → Bytes
unfolding digits
print n = digits (suc n) n []

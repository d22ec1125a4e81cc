-- ===== src/Config.antt =====
-- src/types.rs, `block_matrix_partition_format`: the share of a block's matrix that a fat client
-- fetches, as it is written in the configuration.
mod Format
mod Tests
use smallgod.Prelude.{
  ℕ, ◌+◌, Bool, true, false, ◌||◌, ◌&&◌, Option, none, some, List, [], ◌∷◌, ◌++◌, map, ltb, leb,
  ◌==◌, if◌then◌else◌, Result, ok, err, ◌>>=◌,
}
use smallgod.Prelude.Text.{starts_with, Bytes, split, parse_all, print}

-- `kate_recovery::matrix::Partition`
pub record Partition : Type 0 where
  pub number : ℕ
  pub fraction : ℕ

pub data FormatError : Type 0 where
  not_a_number zero_part invalid_partition invalid_parameter : FormatError

-- `u8::MAX`
abbrev pub u8_max : ℕ
u8_max = 255

-- The match on the parsed numbers.
from_numbers : Option (List ℕ) → Result FormatError Partition
from_numbers none = err not_a_number
from_numbers (some (n ∷ f ∷ [])) =
    if n == 0 || f == 0
    then err zero_part
    else if ltb f n
    then err invalid_partition
    else ok (record { number = n; fraction = f })
from_numbers (some _) = err invalid_parameter

-- `parse`
unfoldable pub parse : Bytes → Result FormatError Partition
unfolding from_numbers
parse value = from_numbers (parse_all u8_max (split b'/' value))

-- What the serializer writes: a string, or nothing.
pub data Written : Type 0 where
  string : Bytes → Written
  nothing : Written

-- `serialize`
unfoldable pub serialize : Option Partition → Written
serialize (some p) = string (print p.number ++ b'/' ∷ print p.fraction)
serialize none = nothing

-- `to_ascii_lowercase` of a byte
to_ascii_lowercase : ℕ → ℕ
to_ascii_lowercase c = if leb b'A' c && leb c b'Z' then c + 32 else c

-- `str::contains`
contains_word : Bytes → Bytes → Bool
unfolding starts_with
contains_word word [] = starts_with word []
contains_word word (d ∷ s) = starts_with word (d ∷ s) || contains_word word s

abbrev none_word : Bytes
none_word = b'n' ∷ b'o' ∷ b'n' ∷ b'e' ∷ []

-- `deserialize`, of a string
unfoldable pub deserialize : Bytes → Result FormatError (Option Partition)
unfolding contains_word to_ascii_lowercase parse
deserialize [] = ok none
deserialize (c ∷ value) =
    let parsed = parse (c ∷ value) >>= (λ p. ok (some p)) in
    if contains_word none_word (map to_ascii_lowercase (c ∷ value)) then ok none else parsed

-- ===== src/Config/Tests.antt =====
-- The third of ten parts.
use smallgod.Prelude.{◌≡◌, refl, some, [], ◌∷◌, ok, err, arith}
use smallgod.Prelude.Text.{Bytes, split, parse_all}
use smallgod.Config.{Partition, parse, serialize, deserialize, string, invalid_partition}
use smallgod.Config.Format.{IsValid, parse-IsValid, deserialize-serialize}

abbrev third : Partition
third = record { number = 3; fraction = 10 }

abbrev third_text : Bytes
third_text = b'3' ∷ b'/' ∷ b'1' ∷ b'0' ∷ []

parse-third : parse third_text ≡ ok third
unfolding parse parse_all split
parse-third = refl

parse_reversed : parse (b'3' ∷ b'/' ∷ b'2' ∷ []) ≡ err invalid_partition
unfolding parse parse_all split
parse_reversed = refl

-- The witnesses of the properties of the format.
parse-IsValid_example : IsValid third
parse-IsValid_example = parse-IsValid third_text third parse-third

deserialize-serialize_example :
    (s : Bytes) × (serialize (some third) ≡ string s) × (deserialize s ≡ ok (some third))
deserialize-serialize_example = deserialize-serialize third (omega arith, omega arith, omega arith)

-- ===== src/EventLoop/Keys.antt =====
-- src/network/p2p/event_loop.rs: the block, row and column that the key of a DHT record names.
use smallgod.Prelude.{ℕ, ◌≤◌, ◌≡◌, ap, ◌∙◌, Option, none, some, List, [], ◌∷◌, ◌++◌, arith}
use smallgod.Prelude.Text.{Bytes, split, parse, parse_all, print}
use smallgod.Prelude.Text.RoundTrip.{
  parse-print, split-++, split-alone, print-≢, parse_all-∷, parse_all-[],
}

pub data DhtKey : Type 0 where
  cell : ℕ → ℕ → ℕ → DhtKey
  row : ℕ → ℕ → DhtKey

-- `u32::MAX`
abbrev pub u32_max : ℕ
u32_max = 4294967295

-- The numbers between the colons of a key.
from_numbers : Option (List ℕ) → Option DhtKey
from_numbers (some (block_num ∷ row_num ∷ [])) = some (row block_num row_num)
from_numbers (some (block_num ∷ row_num ∷ col_num ∷ [])) = some (cell block_num row_num col_num)
from_numbers _ = none

-- `<DHTKey as TryFrom<RecordKey>>::try_from`; `none` is an error. A byte that is not ASCII is an
-- error of `parse` as it can be one of `from_utf8`.
unfoldable pub try_from : Bytes → Option DhtKey
unfolding from_numbers
try_from key = from_numbers (parse_all u32_max (split b':' key))

split-print : (n : ℕ) (s : Bytes) → split b':' (print n ++ b':' ∷ s) ≡ print n ∷ split b':' s
split-print n s = split-++ b':' (print n) s (print-≢ b':' n (λ h. omega arith))

split-print_alone : (n : ℕ) → split b':' (print n) ≡ print n ∷ []
split-print_alone n = split-alone b':' (print n) (print-≢ b':' n (λ h. omega arith))

parse-print32 : (n : ℕ) → n ≤ u32_max → parse u32_max (print n) ≡ some n
parse-print32 = parse-print u32_max

pub try_from-row :
    (block r : ℕ)
    → block ≤ u32_max
    → r ≤ u32_max
    → try_from (print block ++ b':' ∷ print r) ≡ some (row block r)
unfolding try_from
try_from-row block r b≤ r≤ =
    let parts = split-print block (print r) ∙ ap (λ ps. print block ∷ ps) (split-print_alone r) in
    ap (λ ps. from_numbers (parse_all u32_max ps)) parts
    ∙ ap from_numbers (
        parse_all-∷ u32_max _ _ (parse-print32 block b≤)
          (parse_all-∷ u32_max _ _ (parse-print32 r r≤) (parse_all-[] u32_max)))

pub try_from-cell :
    (block r c : ℕ)
    → block ≤ u32_max
    → r ≤ u32_max
    → c ≤ u32_max
    → try_from (print block ++ b':' ∷ (print r ++ b':' ∷ print c)) ≡ some (cell block r c)
unfolding try_from
try_from-cell block r c b≤ r≤ c≤ =
    let parts =
      split-print block (print r ++ b':' ∷ print c)
      ∙ ap (λ ps. print block ∷ ps)
          (split-print r (print c) ∙ ap (λ ps. print r ∷ ps) (split-print_alone c)) in
    ap (λ ps. from_numbers (parse_all u32_max ps)) parts
    ∙ ap from_numbers (
        parse_all-∷ u32_max _ _ (parse-print32 block b≤) (
          parse_all-∷ u32_max _ _ (parse-print32 r r≤)
            (parse_all-∷ u32_max _ _ (parse-print32 c c≤) (parse_all-[] u32_max))))

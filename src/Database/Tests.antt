-- ===== src/Database/Tests.antt =====
-- Numbers of one byte as values.
use smallgod.Prelude.{ℕ, ◌≡◌, refl, Option, none, some, [], ◌∷◌, ok, ite, arith}
use smallgod.Prelude.Maps
use smallgod.Prelude.Text.{Bytes}
use smallgod.Database.{block_header, verified_cell_count, rocks_key, handle, put, get, delete}
use smallgod.Database.Keys.{IsKey}
use smallgod.Database.Sample.{place_discrete, rocks, store}
use smallgod.Database.Stored.{Key_discrete, get-put}

abbrev encode : ℕ → Bytes
encode n = n ∷ []

abbrev decode : Bytes → Option ℕ
decode (n ∷ []) = some n
decode _ = none

-- The count of block 7, and then its header.
abbrev counted : rocks.Db
counted = Maps.insert place_discrete (rocks_key (verified_cell_count 7)) (encode 3) []

put_header :
    put rocks encode decode (block_header 7) 5 counted
    ≡ ok (Maps.insert place_discrete (rocks_key (block_header 7)) (encode 5) counted)
unfolding put handle rocks_key
put_header = refl

get-put_example :
    get rocks encode decode
      (verified_cell_count 7)
      (Maps.insert place_discrete (rocks_key (block_header 7)) (encode 5) counted)
    ≡ ite
        (Key_discrete (verified_cell_count 7) (block_header 7))
        (ok (some 5))
        (get rocks encode decode (verified_cell_count 7) counted)
unfolding IsKey
get-put_example =
    get-put rocks encode decode store (block_header 7) (verified_cell_count 7) (omega arith)
      (omega arith) counted 5 refl put_header

delete_count :
    delete rocks (verified_cell_count 7) counted
    ≡ ok (Maps.remove place_discrete (rocks_key (verified_cell_count 7)) counted)
unfolding delete handle rocks_key
delete_count = refl

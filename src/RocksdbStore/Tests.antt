-- ===== src/RocksdbStore/Tests.antt =====
-- A record of peer 7 that expires three seconds after it is put, and that is read a minute later.
use smallgod.Prelude.{
  ℕ, ◌*◌, ◌<◌, ◌≡◌, refl, ap, Option, none, some, [], ◌∷◌, ◌++◌, length, take, drop, false, ok,
  arith, ◌∙◌,
}
use smallgod.Prelude.Text.{Bytes}
use smallgod.Prelude.Maps
use smallgod.Database.Sample.{place_discrete, rocks, store}
use smallgod.RocksdbStore.{
  KadRecord, Library, KadEntry, second, keep, put_record, put_checked, to_stored, stored_ttl,
  ttl_of, publisher_bytes, get, filter, is_expired,
}
use smallgod.RocksdbStore.Expiry.{IsCodec, filter-keep, get-put_record, reread}

abbrev peer_from : Bytes → Option ℕ
peer_from (p ∷ []) = some p
peer_from _ = none

abbrev encode_record : KadRecord → Bytes
encode_record r = r.ttl ∷ length r.publisher ∷ r.publisher ++ r.value

abbrev decode_record : Bytes → Option KadRecord
decode_record (t ∷ n ∷ rest) =
    some (record { value = drop n rest; publisher = take n rest; ttl = t })
decode_record _ = none

take-append : (xs ys : Bytes) → take (length xs) (xs ++ ys) ≡ xs
take-append [] ys = refl
take-append (x ∷ xs) ys = ap (λ zs. x ∷ zs) (take-append xs ys)

drop-append : (xs ys : Bytes) → drop (length xs) (xs ++ ys) ≡ ys
drop-append [] ys = refl
drop-append (x ∷ xs) ys = drop-append xs ys

abbrev library : Library
library = record {
  rocks = rocks;
  kademlia_store_cf = b'k' ∷ [];
  PeerId = ℕ;
  peer_to_bytes = λ p. p ∷ [];
  peer_from_bytes = peer_from;
  encode = encode_record;
  decode = decode_record;
}

codec : IsCodec library
codec = record {
  peers = λ p. refl;
  peer_bytes = λ p. (p, [], refl);
  records = λ r.
      ap
        (λ v. some (record {
          value = v;
          publisher = take (length r.publisher) (r.publisher ++ r.value);
          ttl = r.ttl;
        }))
        (drop-append r.publisher r.value)
      ∙ ap (λ p. some (record { value = r.value; publisher = p; ttl = r.ttl }))
          (take-append r.publisher r.value);
}

abbrev entry : KadEntry library
entry = record { key = 1 ∷ []; value = 5 ∷ 6 ∷ []; publisher = some 7; expires = some (4 * second) }

abbrev written : rocks.Db
written = Maps.insert place_discrete (some (b'k' ∷ []), 1 ∷ []) (3 ∷ 1 ∷ 7 ∷ 5 ∷ 6 ∷ []) []

put_entry : put_record library second 10 entry [] ≡ ok written
unfolding put_record put_checked to_stored stored_ttl ttl_of publisher_bytes
put_entry = refl

filter-keep_example :
    filter library
      (60 * second)
      (61 * second)
      (1 ∷ [])
      (encode_record (to_stored library second entry))
    ≡ ok keep
filter-keep_example =
    filter-keep library codec second (60 * second) (61 * second) entry (omega arith)

get-put_record_example :
    (2 < 10)
    × (get library (60 * second) (1 ∷ []) written
        ≡ ok (some (reread library codec second (60 * second) entry)))
    × (is_expired library (60 * second) (reread library codec second (60 * second) entry).expires
        ≡ false)
get-put_record_example =
    get-put_record library codec second (60 * second) 10 entry [] store put_entry

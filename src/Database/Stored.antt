-- ===== src/Database/Stored.antt =====
-- The database is a map from keys to values: what is read behind a `put` and behind a `delete`.
use smallgod.Prelude.{
  ◌≡◌, ◌≢◌, refl, sym, ap, ◌∙◌, subst, Option, none, some, Result, ok, ◌>>=◌, >>=-eq-ok,
  ok_or-eq-ok, ite, ℕ_discrete, arith,
}
use smallgod.Prelude.Text.{Bytes}
use smallgod.Database.{
  Key, RocksKey, rocks_key, DbError, operation_failed, Rocks, handle, put, get, delete,
  decode_found,
}
use smallgod.Database.Keys.{IsKey, rocks_key-inj}

pub Key_discrete : Discrete Key
Key_discrete = hlevel ℕ_discrete

module _ (rocks : Rocks) where
  -- What the code relies on: RocksDB keeps what is put at a place, until it is deleted, and an
  -- operation at a place changes no other.
  pub record IsStore : Type 0 where
    pub put_same :
        (p : RocksKey) (bytes : Bytes) (db : rocks.Db) {db' : rocks.Db}
        → rocks.put_at p.0 p.1 bytes db ≡ some db'
        → rocks.get_at p.0 p.1 db' ≡ some (some bytes)
    pub put_other :
        (p q : RocksKey) (bytes : Bytes) (db : rocks.Db) {db' : rocks.Db}
        → rocks.put_at p.0 p.1 bytes db ≡ some db'
        → q ≢ p
        → rocks.get_at q.0 q.1 db' ≡ rocks.get_at q.0 q.1 db
    pub delete_same :
        (p : RocksKey) (db : rocks.Db) {db' : rocks.Db}
        → rocks.delete_at p.0 p.1 db ≡ some db'
        → rocks.get_at p.0 p.1 db' ≡ some none
    pub delete_other :
        (p q : RocksKey) (db : rocks.Db) {db' : rocks.Db}
        → rocks.delete_at p.0 p.1 db ≡ some db'
        → q ≢ p
        → rocks.get_at q.0 q.1 db' ≡ rocks.get_at q.0 q.1 db

  module _ {V : Type 0} (encode : V → Bytes) (decode : Bytes → Option V) where
    read_place :
        (k : Key) (db : rocks.Db)
        → handle rocks (rocks_key k).0 ≡ ok tt
        → get rocks encode decode k db
          ≡ decode_found rocks encode decode (rocks.get_at (rocks_key k).0 (rocks_key k).1 db)
    unfolding get
    read_place k db opened =
        ap
          (λ r. r >>= λ _.
            decode_found rocks encode decode (rocks.get_at (rocks_key k).0 (rocks_key k).1 db))
          opened

    read_same :
        (j : Key) (db db' : rocks.Db)
        → rocks.get_at (rocks_key j).0 (rocks_key j).1 db'
          ≡ rocks.get_at (rocks_key j).0 (rocks_key j).1 db
        → get rocks encode decode j db' ≡ get rocks encode decode j db
    unfolding get
    read_same j db db' e =
        ap (λ found. handle rocks (rocks_key j).0 >>= λ _. decode_found rocks encode decode found) e

    decode_found-encode :
        (v : V)
        → decode (encode v) ≡ some v
        → decode_found rocks encode decode (some (some (encode v))) ≡ ok (some v)
    unfolding decode_found
    decode_found-encode v e = ground (arith, e)

    decode_found-none : decode_found rocks encode decode (some none) ≡ ok none
    unfolding decode_found
    decode_found-none = refl

    written :
        (k j : Key) (d : Dec (j ≡ k)) (db db' : rocks.Db) (now : Result DbError (Option V))
        → IsKey k
        → IsKey j
        → get rocks encode decode k db' ≡ now
        → ((q : RocksKey) → q ≢ rocks_key k → rocks.get_at q.0 q.1 db' ≡ rocks.get_at q.0 q.1 db)
        → get rocks encode decode j db' ≡ ite d now (get rocks encode decode j db)
    written k j (yes same) db db' now hk hj here others =
        subst (λ x. get rocks encode decode x db' ≡ now) (sym same) here
    written k j (no apart) db db' now hk hj here others =
        read_same j db db' (others (rocks_key j) (λ e. apart (rocks_key-inj j k hj hk e)))

    module _ (store : IsStore) (k j : Key) (hk : IsKey k) (hj : IsKey j) (db : rocks.Db) where
      -- Behind a `put` that succeeds, the key has the value, which decoding gives back from its encoding,
      -- and any other key has what it had.
      pub get-put :
          (v : V) {db' : rocks.Db}
          → decode (encode v) ≡ some v
          → put rocks encode decode k v db ≡ ok db'
          → get rocks encode decode j db'
            ≡ ite (Key_discrete j k) (ok (some v)) (get rocks encode decode j db)
      unfolding put
      get-put v {db'} coded e =
          let (u, opened, rest) = >>=-eq-ok (handle rocks (rocks_key k).0) _ e in
          let placed = ok_or-eq-ok operation_failed _ rest in
          written k j (Key_discrete j k) db db' (ok (some v)) hk hj
            (read_place k db' opened
              ∙ ap (decode_found rocks encode decode)
                  (store.put_same (rocks_key k) (encode v) db placed)
              ∙ decode_found-encode v coded)
            (λ q apart. store.put_other (rocks_key k) q (encode v) db placed apart)

      -- Behind a `delete` that succeeds, the key has no value, and any other key has what it had.
      pub get-delete :
          {db' : rocks.Db}
          → delete rocks k db ≡ ok db'
          → get rocks encode decode j db'
            ≡ ite (Key_discrete j k) (ok none) (get rocks encode decode j db)
      unfolding delete
      get-delete {db'} e =
          let (u, opened, rest) = >>=-eq-ok (handle rocks (rocks_key k).0) _ e in
          let gone = ok_or-eq-ok operation_failed _ rest in
          written k j (Key_discrete j k) db db' (ok none) hk hj
            (read_place k db' opened
              ∙ ap (decode_found rocks encode decode) (store.delete_same (rocks_key k) db gone)
              ∙ decode_found-none)
            (λ q apart. store.delete_other (rocks_key k) q db gone apart)

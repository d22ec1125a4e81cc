-- ===== src/RocksdbStore/Expiry.antt =====
-- What becomes of the expiry of a record in the store.
use smallgod.Prelude.{
  ℕ, ◌+◌, ◌*◌, ◌≤◌, ◌<◌, ◌≡◌, refl, sym, ap, ◌∙◌, subst, Bool, true, false, Option, none, some, ◌∷◌,
  leb, ltb, if◌then◌else◌, length, ok, ◌>>=◌, ok_or-eq-ok, Bool-cases, inl, inr, arith,
}
use smallgod.Prelude.Text.{Bytes}
use smallgod.Database.Stored.{IsStore}
use smallgod.RocksdbStore.{
  value_too_large, keep, KadRecord, second, stored_ttl, restored_expiry, Library, KadEntry,
  publisher_bytes, to_stored, read_publisher, from_stored, into_kad_record, decoded_record,
  put_checked, read_found, get, put_record, is_expired, decide, filter,
}

module _ (l : Library) where
  -- What the code relies on: peers and stored records are decoded from their encodings, and the bytes
  -- of a peer are not empty.
  pub record IsCodec : Type 0 where
    pub peers : (p : l.PeerId) → l.peer_from_bytes (l.peer_to_bytes p) ≡ some p
    pub peer_bytes : (p : l.PeerId) → (b : ℕ) × (bytes : Bytes) × (l.peer_to_bytes p ≡ b ∷ bytes)
    pub records : (r : KadRecord) → l.decode (l.encode r) ≡ some r

  restored_expiry-later :
      (created now ttl : ℕ) → created ≤ now → is_expired l created (restored_expiry now ttl) ≡ false
  unfolding is_expired restored_expiry
  restored_expiry-later created now ttl le = elim (Bool-cases (ltb 0 ttl)) [
    | inl some_left ↦
        subst (λ b. is_expired l created (if b then some (now + ttl * second) else none) ≡ false)
          (sym some_left) (let positive : 0 < ttl = ground arith in ground arith)
    | inr none_left ↦
        subst (λ b. is_expired l created (if b then some (now + ttl * second) else none) ≡ false)
          (sym none_left) refl
  ]

  module _ (codec : IsCodec) where
    -- The record as it is read: the time that it had left counts from the reading.
    abbrev pub reread : ℕ → ℕ → KadEntry l → KadEntry l
    reread put_at read_at r = record r {
      expires = restored_expiry read_at (stored_ttl put_at r.expires);
    }

    read_bytes :
        (p : l.PeerId) (b : ℕ) (bytes : Bytes)
        → l.peer_from_bytes (b ∷ bytes) ≡ some p
        → read_publisher l (b ∷ bytes) ≡ ok (some p)
    unfolding read_publisher
    read_bytes p b bytes e = ground (arith, e)

    read_publisher-bytes :
        (publisher : Option l.PeerId)
        → read_publisher l (publisher_bytes l publisher) ≡ ok publisher
    unfolding publisher_bytes read_publisher
    read_publisher-bytes none = refl
    read_publisher-bytes (some p) =
        let (b, bytes, shape) = codec.peer_bytes p in
        ap (read_publisher l) shape
        ∙ read_bytes p b bytes (ap l.peer_from_bytes (sym shape) ∙ codec.peers p)

    into_kad_record-stored :
        (put_at read_at : ℕ) (r : KadEntry l)
        → into_kad_record l read_at r.key (l.encode (to_stored l put_at r))
          ≡ ok (reread put_at read_at r)
    unfolding into_kad_record decoded_record from_stored to_stored
    into_kad_record-stored put_at read_at r =
        ap (decoded_record l read_at r.key) (codec.records (to_stored l put_at r))
        ∙ ap
            (λ publisher.
              publisher >>= λ p. ok (record (reread put_at read_at r) { publisher = p }))
            (read_publisher-bytes r.publisher)

    -- Whenever the compaction filter sees a record that was put, however long it has expired, it keeps it:
    -- the expiry is counted from the filter's own time.
    pub filter-keep :
        (put_at created now : ℕ) (r : KadEntry l)
        → created ≤ now
        → filter l created now r.key (l.encode (to_stored l put_at r)) ≡ ok keep
    unfolding filter decide
    filter-keep put_at created now r le =
        rw
          (
            into_kad_record-stored put_at now r,
            restored_expiry-later created now (stored_ttl put_at r.expires) le,
          )
          refl

    read_found-stored :
        (put_at read_at : ℕ) (r : KadEntry l)
        → read_found l read_at r.key (some (some (l.encode (to_stored l put_at r))))
          ≡ ok (some (reread put_at read_at r))
    unfolding read_found
    read_found-stored put_at read_at r = rw (into_kad_record-stored put_at read_at r) refl

    put_checked-ok :
        (has is_large : Bool) (placed : Option l.rocks.Db) {db' : l.rocks.Db}
        → put_checked l has is_large placed ≡ ok db'
        → (has ≡ true) × (is_large ≡ false) × (placed ≡ some db')
    unfolding put_checked
    put_checked-ok false is_large placed e = cc
    put_checked-ok true true placed e = cc
    put_checked-ok true false placed e = (refl, refl, ok_or-eq-ok value_too_large placed e)

    -- What `put` needs to succeed.
    put_record-ok :
        (put_at max : ℕ) (r : KadEntry l) (db : l.rocks.Db) {db' : l.rocks.Db}
        → put_record l put_at max r db ≡ ok db'
        → (l.rocks.has_column_family l.kademlia_store_cf ≡ true)
          × (length r.value < max)
          × (l.rocks.put_at (some l.kademlia_store_cf) r.key (l.encode (to_stored l put_at r)) db
              ≡ some db')
    unfolding put_record
    put_record-ok put_at max r db e =
        let (has, fits, placed) =
          put_checked-ok (l.rocks.has_column_family l.kademlia_store_cf) (leb max (length r.value))
            _ e in
        (has, ground arith, placed)

    -- A record that was put is shorter than the largest size and is read with its key, value and
    -- publisher at any time, its expiry counted from the reading, so that it is never read as expired.
    pub get-put_record :
        (put_at read_at max : ℕ) (r : KadEntry l) (db : l.rocks.Db) {db' : l.rocks.Db}
        → IsStore l.rocks
        → put_record l put_at max r db ≡ ok db'
        → (length r.value < max)
          × (get l read_at r.key db' ≡ ok (some (reread put_at read_at r)))
          × (is_expired l read_at (reread put_at read_at r).expires ≡ false)
    unfolding get
    get-put_record put_at read_at max r db store e =
        let (has, short, placed) = put_record-ok put_at max r db e in
        (
          short,
          rw
              (
                has,
                store.put_same (some l.kademlia_store_cf, r.key) (l.encode (to_stored l put_at r))
                    db placed,
                read_found-stored put_at read_at r,
              )
              refl,
          restored_expiry-later read_at read_at (stored_ttl put_at r.expires) (omega arith),
        )

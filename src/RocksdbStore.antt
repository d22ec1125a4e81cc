-- ===== src/RocksdbStore.antt =====
-- src/network/p2p/kad_rocksdb_store.rs: the Kademlia store on RocksDB. A record is stored with the time
-- that it has left, in seconds; times are nanoseconds.
mod Expiry
mod Tests
use smallgod.Prelude.{
  ℕ, ◌+◌, ◌-◌, ◌*◌, ◌/◌, ◌%◌, ◌^◌, Bool, true, false, Option, none, some, List, [], ◌∷◌, leb, ltb,
  ◌==◌, if◌then◌else◌, length, Result, ok, err, panic, ◌>>=◌, ok_or,
}
use smallgod.Prelude.Text.{Bytes}
use smallgod.Database.{Rocks}

pub data StoreError : Type 0 where
  value_too_large : StoreError

pub data CompactionDecision : Type 0 where
  remove keep : CompactionDecision

-- `KadRecord`
pub record KadRecord : Type 0 where
  pub value : Bytes
  pub publisher : Bytes
  pub ttl : ℕ

abbrev pub second : ℕ
second = 1000000000

abbrev at_least : ℕ → ℕ → ℕ
at_least low n = if ltb n low then low else n

-- `ttl`: the difference of two times is zero where it would be negative.
pub ttl_of : ℕ → ℕ → ℕ
ttl_of now expires = at_least second (expires - now) / second % 2 ^ 32

pub stored_ttl : ℕ → Option ℕ → ℕ
unfolding ttl_of
stored_ttl now none = 0
stored_ttl now (some expires) = ttl_of now expires

pub restored_expiry : ℕ → ℕ → Option ℕ
restored_expiry now ttl = if ltb 0 ttl then some (now + ttl * second) else none

-- The peers and their bytes, the SCALE encoding of `KadRecord`, and RocksDB with the name of the
-- store's column family. `none` of the last three is a failure.
pub record Library : Type 1 where
  pub rocks : Rocks
  pub kademlia_store_cf : Bytes
  pub PeerId : Type 0
  pub peer_to_bytes : PeerId → Bytes
  pub peer_from_bytes : Bytes → Option PeerId
  pub encode : KadRecord → Bytes
  pub decode : Bytes → Option KadRecord

module _ (l : Library) where
  -- `kad::Record`
  pub record KadEntry : Type 0 where
    pub key : Bytes
    pub value : Bytes
    pub publisher : Option l.PeerId
    pub expires : Option ℕ

  pub publisher_bytes : Option l.PeerId → Bytes
  publisher_bytes none = []
  publisher_bytes (some peer) = l.peer_to_bytes peer

  -- `From<kad::Record> for Entry`, of the record
  pub to_stored : ℕ → KadEntry → KadRecord
  unfolding publisher_bytes stored_ttl
  to_stored now r = record {
    value = r.value;
    publisher = publisher_bytes r.publisher;
    ttl = stored_ttl now r.expires;
  }

  -- `expect` of bytes that are no peer panics.
  pub read_publisher : Bytes → Result StoreError (Option l.PeerId)
  read_publisher [] = ok none
  read_publisher (b ∷ bytes) = elim (l.peer_from_bytes (b ∷ bytes)) [
    | none ↦ panic
    | some peer ↦ ok (some peer)
  ]

  pub from_stored : ℕ → Bytes → KadRecord → Result StoreError KadEntry
  unfolding read_publisher restored_expiry
  from_stored now key r = read_publisher r.publisher >>= λ publisher. ok (record {
    key = key;
    value = r.value;
    publisher = publisher;
    expires = restored_expiry now r.ttl;
  })

  -- `into_kad_record`, whose `expect` panics
  pub decoded_record : ℕ → Bytes → Option KadRecord → Result StoreError KadEntry
  unfolding from_stored
  decoded_record now key none = panic
  decoded_record now key (some r) = from_stored now key r

  pub into_kad_record : ℕ → Bytes → Bytes → Result StoreError KadEntry
  unfolding decoded_record
  into_kad_record now key value = decoded_record now key (l.decode value)

  -- `get`, of what the database has for the key
  pub read_found : ℕ → Bytes → Option (Option Bytes) → Result StoreError (Option KadEntry)
  unfolding into_kad_record
  read_found now key none = ok none
  read_found now key (some none) = ok none
  read_found now key (some (some value)) = into_kad_record now key value >>= λ r. ok (some r)

  pub get : ℕ → Bytes → l.rocks.Db → Result StoreError (Option KadEntry)
  unfolding read_found
  get now key db =
      if l.rocks.has_column_family l.kademlia_store_cf
      then read_found now key (l.rocks.get_at (some l.kademlia_store_cf) key db)
      else ok none

  -- `put`, where there is the column family and where the value is too large
  pub put_checked : Bool → Bool → Option l.rocks.Db → Result StoreError l.rocks.Db
  put_checked false is_large placed = err value_too_large
  put_checked true true placed = err value_too_large
  put_checked true false placed = ok_or value_too_large placed

  pub put_record : ℕ → ℕ → KadEntry → l.rocks.Db → Result StoreError l.rocks.Db
  unfolding to_stored put_checked
  put_record now max_value_bytes r db =
      put_checked (l.rocks.has_column_family l.kademlia_store_cf)
        (leb max_value_bytes (length r.value))
        (l.rocks.put_at (some l.kademlia_store_cf) r.key (l.encode (to_stored now r)) db)

  -- `remove`: an error is only logged.
  pub keep_on_error : l.rocks.Db → Option l.rocks.Db → l.rocks.Db
  keep_on_error db none = db
  keep_on_error db (some db') = db'

  pub remove_record : Bytes → l.rocks.Db → l.rocks.Db
  unfolding keep_on_error
  remove_record key db =
      if l.rocks.has_column_family l.kademlia_store_cf
      then keep_on_error db (l.rocks.delete_at (some l.kademlia_store_cf) key db)
      else db

  -- `is_expired` of libp2p: the time is not before the expiry.
  pub is_expired : ℕ → Option ℕ → Bool
  is_expired now none = false
  is_expired now (some expires) = leb expires now

  -- The compaction filter: `created` is the time of the filter's creation, and `now` that of the
  -- decoding.
  pub decide : ℕ → Result StoreError KadEntry → Result StoreError CompactionDecision
  unfolding is_expired
  decide created r = r >>= λ entry. ok (if is_expired created entry.expires then remove else keep)

  pub filter : ℕ → ℕ → Bytes → Bytes → Result StoreError CompactionDecision
  unfolding decide into_kad_record
  filter created now key value = decide created (into_kad_record now key value)

-- ===== src/Database.antt =====
-- src/data.rs: the keys of the database; src/data/rocks_db.rs: where they are in RocksDB, and what is
-- put, read and deleted there.
mod Keys
pub mod Stored
pub mod Sample
mod Tests
use smallgod.Prelude.{
  ℕ, ◌/◌, ◌%◌, ◌^◌, Bool, true, false, Option, none, some, List, [], ◌∷◌, ◌++◌, if◌then◌else◌,
  Result, ok, err, ◌>>=◌, ok_or,
}
use smallgod.Prelude.Text.{Bytes, print}

pub data Key : Type 0 where
  app_data : ℕ → ℕ → Key
  block_header verified_cell_count : ℕ → Key
  finality_sync_checkpoint : Key

-- The names of the column families
abbrev confidence_factor_cf : Bytes
confidence_factor_cf =
    b'a' ∷ b'v' ∷ b'a' ∷ b'i' ∷ b'l' ∷ b'_' ∷ b'l' ∷ b'i' ∷ b'g' ∷ b'h' ∷ b't' ∷ b'_' ∷ b'c' ∷ b'o'
    ∷ b'n' ∷ b'f' ∷ b'i' ∷ b'd' ∷ b'e' ∷ b'n' ∷ b'c' ∷ b'e' ∷ b'_' ∷ b'f' ∷ b'a' ∷ b'c' ∷ b't'
    ∷ b'o' ∷ b'r' ∷ b'_' ∷ b'c' ∷ b'f' ∷ []

abbrev block_header_cf : Bytes
block_header_cf =
    b'a' ∷ b'v' ∷ b'a' ∷ b'i' ∷ b'l' ∷ b'_' ∷ b'l' ∷ b'i' ∷ b'g' ∷ b'h' ∷ b't' ∷ b'_' ∷ b'b' ∷ b'l'
    ∷ b'o' ∷ b'c' ∷ b'k' ∷ b'_' ∷ b'h' ∷ b'e' ∷ b'a' ∷ b'd' ∷ b'e' ∷ b'r' ∷ b'_' ∷ b'c' ∷ b'f' ∷ []

abbrev app_data_cf : Bytes
app_data_cf =
    b'a' ∷ b'v' ∷ b'a' ∷ b'i' ∷ b'l' ∷ b'_' ∷ b'l' ∷ b'i' ∷ b'g' ∷ b'h' ∷ b't' ∷ b'_' ∷ b'a' ∷ b'p'
    ∷ b'p' ∷ b'_' ∷ b'd' ∷ b'a' ∷ b't' ∷ b'a' ∷ b'_' ∷ b'c' ∷ b'f' ∷ []

abbrev state_cf : Bytes
state_cf =
    b'a' ∷ b'v' ∷ b'a' ∷ b'i' ∷ b'l' ∷ b'_' ∷ b'l' ∷ b'i' ∷ b'g' ∷ b'h' ∷ b't' ∷ b'_' ∷ b's' ∷ b't'
    ∷ b'a' ∷ b't' ∷ b'e' ∷ b'_' ∷ b'c' ∷ b'f' ∷ []

abbrev finality_sync_checkpoint_key : Bytes
finality_sync_checkpoint_key =
    b'f' ∷ b'i' ∷ b'n' ∷ b'a' ∷ b'l' ∷ b'i' ∷ b't' ∷ b'y' ∷ b'_' ∷ b's' ∷ b'y' ∷ b'n' ∷ b'c' ∷ b'_'
    ∷ b'c' ∷ b'h' ∷ b'e' ∷ b'c' ∷ b'k' ∷ b'p' ∷ b'o' ∷ b'i' ∷ b'n' ∷ b't' ∷ []

-- `u32::to_be_bytes`
pub to_be_bytes : ℕ → Bytes
to_be_bytes n = n / 2 ^ 24 % 256 ∷ n / 2 ^ 16 % 256 ∷ n / 2 ^ 8 % 256 ∷ n % 256 ∷ []

-- `RocksKey`: the column family, and the key in it
abbrev pub RocksKey : Type 0
RocksKey = Option Bytes × Bytes

pub rocks_key : Key → RocksKey
unfolding to_be_bytes
rocks_key (app_data app_id n) = (some app_data_cf, print app_id ++ b':' ∷ print n)
rocks_key (block_header n) = (some block_header_cf, to_be_bytes n)
rocks_key (verified_cell_count n) = (some confidence_factor_cf, to_be_bytes n)
rocks_key finality_sync_checkpoint = (some state_cf, finality_sync_checkpoint_key)

pub data DbError : Type 0 where
  no_column_family operation_failed not_decoded : DbError

-- RocksDB: `none` is an operation that fails. Without a column family an operation is on the default
-- partition.
pub record Rocks : Type 1 where
  pub Db : Type 0
  pub has_column_family : Bytes → Bool
  pub put_at : Option Bytes → Bytes → Bytes → Db → Option Db
  pub get_at : Option Bytes → Bytes → Db → Option (Option Bytes)
  pub delete_at : Option Bytes → Bytes → Db → Option Db

module _ (rocks : Rocks) where
  -- `cf_handle`, where the key has a column family
  pub handle : Option Bytes → Result DbError (Unit {0})
  handle none = ok tt
  handle (some cf) = if rocks.has_column_family cf then ok tt else err no_column_family

  pub delete : Key → rocks.Db → Result DbError rocks.Db
  unfolding handle rocks_key
  delete key db = handle (rocks_key key).0 >>= λ _.
      ok_or operation_failed (rocks.delete_at (rocks_key key).0 (rocks_key key).1 db)

  -- Values of a type with its SCALE encoding
  module _ {V : Type 0} (encode : V → Bytes) (decode : Bytes → Option V) where
    pub put : Key → V → rocks.Db → Result DbError rocks.Db
    unfolding handle rocks_key
    put key value db = handle (rocks_key key).0 >>= λ _.
        ok_or operation_failed (rocks.put_at (rocks_key key).0 (rocks_key key).1 (encode value) db)

    -- `transpose` of the decoded value
    pub decode_found : Option (Option Bytes) → Result DbError (Option V)
    decode_found none = err operation_failed
    decode_found (some none) = ok none
    decode_found (some (some bytes)) = elim (decode bytes) [
      | none ↦ err not_decoded
      | some value ↦ ok (some value)
    ]

    pub get : Key → rocks.Db → Result DbError (Option V)
    unfolding handle rocks_key decode_found
    get key db = handle (rocks_key key).0 >>= λ _.
        decode_found (rocks.get_at (rocks_key key).0 (rocks_key key).1 db)

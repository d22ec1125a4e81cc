-- ===== src/ClientState.antt =====
-- src/types.rs: the ranges of processed blocks, and the state that the clients share.
pub mod Ranges
mod Tests
use smallgod.Prelude.{ℕ, Bool, false, ◌&&◌, leb, Option, none, some}

pub record BlockRange : Type 0 where
  pub first : ℕ
  pub last : ℕ

-- `BlockRange::init` and `BlockRange::contains`
unfoldable pub init_range : ℕ → BlockRange
init_range last = record { first = last; last = last }

unfoldable pub range_contains : ℕ → BlockRange → Bool
range_contains n r = leb r.first n && leb n r.last

-- `State`, without the node that the RPC client is connected to
pub record State : Type 0 where
  pub synced : Option Bool
  pub latest : ℕ
  pub header_verified : Option BlockRange
  pub confidence_achieved : Option BlockRange
  pub data_verified : Option BlockRange
  pub sync_latest : Option ℕ
  pub sync_header_verified : Option BlockRange
  pub sync_confidence_achieved : Option BlockRange
  pub sync_data_verified : Option BlockRange
  pub finality_synced : Bool

-- `impl OptionBlockRange for Option<BlockRange>`
unfoldable pub set_block : ℕ → Option BlockRange → Option BlockRange
unfolding init_range
set_block n (some r) = some (record r { last = n })
set_block n none = some (init_range n)

unfoldable pub first_block : Option BlockRange → Option ℕ
first_block none = none
first_block (some r) = some r.first

pub last_block : Option BlockRange → Option ℕ
last_block none = none
last_block (some r) = some r.last

unfoldable pub contains : ℕ → Option BlockRange → Bool
unfolding range_contains
contains n none = false
contains n (some r) = range_contains n r

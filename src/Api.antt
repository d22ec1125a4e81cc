-- ===== src/Api.antt =====
-- src/api/v2/types.rs: the status of a block that the HTTP API reports.
mod Progress
mod V1
mod Messages
mod Delivery
mod Subscribers
mod Blocks
mod Fields
mod Answers
mod Sockets
mod Requests
mod Tests
use smallgod.Prelude.{ℕ, ◌≤◌, ◌≡◌, Bool, true, false, Option, none, some, ltb, ◌==◌, if◌then◌else◌}
use smallgod.ClientState.{BlockRange, State, first_block, contains}

pub data BlockStatus : Type 0 where
  unavailable pending verifying_header verifying_confidence verifying_data incomplete finished :
      BlockStatus

pub unwrap_or : ℕ → Option ℕ → ℕ
unwrap_or n none = n
unwrap_or n (some m) = m

-- The status by what is achieved: the data, the confidence, the header, and whether the block is the
-- latest one.
pub status_of : Bool → Bool → Bool → Bool → BlockStatus
status_of has_data has_confidence has_header is_latest =
    if has_data
    then finished
    else if has_confidence
    then verifying_data
    else if has_header
    then verifying_confidence
    else if is_latest
    then verifying_header
    else pending

is_sync_latest : ℕ → Option ℕ → Bool
is_sync_latest n none = false
is_sync_latest n (some latest) = n == latest

-- The blocks behind the first one, and the others.
pub sync_status : State → ℕ → BlockStatus
unfolding status_of is_sync_latest
sync_status s n =
    status_of (contains n s.sync_data_verified) (contains n s.sync_confidence_achieved)
      (contains n s.sync_header_verified) (is_sync_latest n s.sync_latest)

pub head_status : State → ℕ → BlockStatus
unfolding status_of
head_status s n =
    status_of (contains n s.data_verified) (contains n s.confidence_achieved)
      (contains n s.header_verified) (s.latest == n)

-- The checks in front, where `first` is the first block that the client sees from its start on.
pub reported : Option ℕ → ℕ → ℕ → ℕ → Bool → BlockStatus → BlockStatus → Option BlockStatus
unfolding unwrap_or
reported sync_start_block latest first block_number has_extension sync head =
    if ltb latest block_number
    then none
    else if ltb block_number (unwrap_or first sync_start_block)
    then some unavailable
    else if has_extension
    then (if ltb block_number first then some sync else some head)
    else some incomplete

-- `block_status`, for a header that has an extension or has none
pub block_status : Option ℕ → State → ℕ → Bool → Option BlockStatus
unfolding unwrap_or sync_status head_status reported
block_status sync_start_block s block_number has_extension =
    reported sync_start_block s.latest (unwrap_or s.latest (first_block s.header_verified))
      block_number has_extension (sync_status s block_number) (head_status s block_number)

-- What runs at concrete inputs unfolds.
pub api_methods : Unit {0}
unfolding unwrap_or status_of is_sync_latest sync_status head_status reported block_status
    first_block
api_methods = tt

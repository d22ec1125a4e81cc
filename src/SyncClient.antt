-- ===== src/SyncClient.antt =====
-- src/sync_client.rs: the loop that samples the blocks behind the latest one.
pub mod Sampled
mod Ranges
mod Tests
use smallgod.Prelude.{
  ℕ, zero, suc, ◌+◌, ◌-◌, ◌^◌, Bool, true, false, Option, none, some, List, [], ◌∷◌, ◌++◌, ltb, leb,
  if◌then◌else◌, length, Result, ok, err, panic,
}
use smallgod.ClientState.{State, set_block}
use smallgod.Network.{Kate, FetchError, fetch_verified}
use smallgod.LightClient.{LightClient, Put, block_header, verified_cell_count}

pub data SyncError : Type 0 where
  invalid_dimensions invalid_commitments invalid_count invalid_lookup not_stored no_header :
      SyncError
  not_fetched : FetchError → SyncError

module _ (k : Kate) (c : LightClient k) where
  -- `types::BlockVerified`, without the application lookup and the hash
  pub record BlockVerified : Type 0 where
    pub block_num : ℕ
    pub extension : Option (k.Dimensions × List k.Commitment)
    pub confidence : Option c.Confidence

  -- What else the client calls: the database by what was stored, the node, the application lookup
  -- of a header (`none` is an invalid one, `some true` an empty one), and the configuration. The
  -- header's other fields, the network and the random positions are those of `LightClient`.
  pub record SyncClient : Type 0 where
    pub get_block_header : List (Put c.Header) → ℕ → Option (Option c.Header)
    pub is_confidence_stored : List (Put c.Header) → ℕ → Option Bool
    pub accepts : List (Put c.Header) → Put c.Header → Bool
    pub request_header : ℕ → Option c.Header
    pub app_lookup_is_empty : c.Extension → Option Bool
    pub is_last_step : Bool

  -- The shared state, what was stored, and the messages to the app client.
  pub record Sync : Type 0 where
    pub state : State
    pub stored : List (Put c.Header)
    pub sent : List BlockVerified

  abbrev pub synced_header : ℕ → Sync → Sync
  synced_header n s = record s {
    state = record s.state {
      sync_latest = some n;
      sync_header_verified = set_block n s.state.sync_header_verified;
    };
  }

  abbrev pub achieved : ℕ → Sync → Sync
  achieved n s = record s {
    state = record s.state {
      sync_confidence_achieved = set_block n s.state.sync_confidence_achieved;
    };
  }

  module _ (client : SyncClient) where
    -- `BlockVerified::try_from`
    pub block_verified : c.Header → Option c.Confidence → Result SyncError BlockVerified
    block_verified h confidence =
        let block : BlockVerified = record {
          block_num = c.number h;
          extension = none;
          confidence = confidence;
        } in
        elim (c.extract_kate h) [
          | none ↦ ok block
          | some extension ↦ elim (client.app_lookup_is_empty extension) [
            | none ↦ err invalid_lookup
            | some true ↦ ok block
            | some false ↦ elim (c.dimensions extension) [
              | none ↦ err invalid_dimensions
              | some d ↦ elim (c.commitments extension) [
                | none ↦ err invalid_commitments
                | some commitments ↦ ok (record block { extension = some (d, commitments) })
              ]
            ]
          ]
        ]

    -- `Client::get_header_by_block_number`
    pub get_header : ℕ → Sync → Sync × Option c.Header
    get_header n s = elim (client.get_block_header s.stored n) [
      | none ↦ (s, none)
      | some (some h) ↦ (s, some h)
      | some none ↦ elim (client.request_header n) [
        | none ↦ (s, none)
        | some h ↦
            if client.accepts s.stored (block_header n h)
            then (record s { stored = s.stored ++ block_header n h ∷ [] }, some h)
            else (s, none)
      ]
    ]

    -- The part of `process_block` behind the sampling.
    pub store_and_send : c.Header → ℕ → Sync → Sync × Result SyncError (Unit {0})
    unfolding block_verified
    store_and_send h verified s =
        let count = verified_cell_count (c.number h) verified in
        let s' = record s { stored = s.stored ++ count ∷ [] } in
        if leb (2 ^ 32) verified
        then (s, err invalid_count)
        else (if client.accepts s.stored count
            then elim (block_verified h (some (c.calculate_confidence verified))) [
              | err e ↦ (s', err e)
              | panic ↦ (s', panic)
              | ok message ↦ (record s' { sent = s.sent ++ message ∷ [] }, ok tt)
            ]
            else (s, err not_stored))

    pub process_block : c.Header → Sync → Sync × Result SyncError (Unit {0})
    unfolding store_and_send
    process_block h s = elim (c.extract_kate h) [
      | none ↦ (s, ok tt)
      | some extension ↦ elim (c.dimensions extension) [
        | none ↦ (s, err invalid_dimensions)
        | some d ↦ elim (c.commitments extension) [
          | none ↦ (s, err invalid_commitments)
          | some commitments ↦
              let positions = c.random_cells d in
              elim (fetch_verified k (c.network (c.number h)) c.disable_rpc d commitments
                positions) [
                  | err e ↦ (s, err (not_fetched e))
                  | panic ↦ (s, panic)
                  | ok f ↦
                      if ltb (length f.fetched) (length positions)
                      then (s, ok tt)
                      else store_and_send h (length f.fetched) s
                ]
        ]
      ]
    ]

    -- The body of the loop; `none` is a panic.
    pub run_block : ℕ → Sync → Option Sync
    unfolding process_block get_header
    run_block n s = elim (client.is_confidence_stored s.stored n) [
      | none ↦ some s
      | some true ↦ some s
      | some false ↦ elim (get_header n s).1 [
        | none ↦ some (get_header n s).0
        | some h ↦
            let s' = synced_header n (get_header n s).0 in
            elim (process_block h s').1 [
              | err _ ↦ some (process_block h s').0
              | panic ↦ none
              | ok _ ↦ some (achieved n (process_block h s').0)
            ]
      ]
    ]

    -- The blocks of a range, by its size and its first number.
    pub run_range : ℕ → ℕ → Sync → Option Sync
    run_range zero n s = some s
    run_range (suc i) n s = elim (run_block n s) [ none ↦ none | some t ↦ run_range i (n + 1) t ]

    -- `run`, for a range from a block up to, but not with, another one.
    pub run : ℕ → ℕ → Sync → Option Sync
    unfolding run_block run_range
    run start end s = if leb end start then some s else elim (run_range (end - start) start s) [
      | none ↦ none
      | some t ↦
          if client.is_last_step
          then some (record t { state = record t.state { synced = some true } })
          else some t
    ]

-- The functions of this file, for a run of the loop.
unfoldable pub methods : Unit {0}
unfolding block_verified get_header store_and_send process_block run_block run_range run
methods = tt

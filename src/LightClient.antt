-- ===== src/LightClient.antt =====
-- src/light_client.rs: `process_block`, which samples cells of a finalized block.
pub mod Sampled
mod Tests
use smallgod.Prelude.{
  ℕ, ◌%◌, ◌^◌, Bool, true, false, Option, none, some, List, [], ◌∷◌, ◌++◌, ltb, leb, if◌then◌else◌,
  length, Result, ok, err, panic,
}
use smallgod.ClientState.{State, set_block}
use smallgod.Network.{Kate, Network, FetchError, fetch_verified}

-- `light_client::Client` and what it calls: the database (`stores` by what was stored before), the
-- network, the configuration, the generator of random positions, the confidence in floating point,
-- and the fields of a header that kate_recovery parses.
pub record LightClient (k : Kate) : Type 1 where
  pub Header : Type 0
  pub number : Header → ℕ
  pub Extension : Type 0
  -- `extract_kate`
  pub extract_kate : Header → Option Extension
  -- `Dimensions::new`, and the number of columns
  pub dimensions : Extension → Option k.Dimensions
  pub cols : k.Dimensions → ℕ
  -- `commitments::from_slice`
  pub commitments : Extension → Option (List k.Commitment)
  -- `generate_random_cells(dimensions, cell_count_for_confidence(cfg.confidence))`
  pub random_cells : k.Dimensions → List k.Position
  pub Confidence : Type 0
  pub calculate_confidence : ℕ → Confidence
  -- the network for the requests about a block
  pub network : ℕ → Network k
  pub disable_rpc : Bool

-- A `put` of the database.
pub data Put (Header : Type 0) : Type 0 where
  block_header : ℕ → Header → Put Header
  verified_cell_count : ℕ → ℕ → Put Header

pub data ProcessError : Type 0 where
  not_stored invalid_commitments : ProcessError
  not_fetched : FetchError → ProcessError

module _ (k : Kate) (c : LightClient k) where
  -- The shared state and the database.
  pub record Store : Type 0 where
    pub state : State
    pub stored : List (Put c.Header)

  abbrev pub Outcome : Type 0
  Outcome = Store × Result ProcessError (Option c.Confidence)

  -- Whether a `put` succeeds may depend on what was stored before.
  abbrev pub Accepts : Type 0
  Accepts = List (Put c.Header) → Put c.Header → Bool

  abbrev pub achieved : ℕ → Store → Store
  achieved n s = record s {
    state = record s.state { confidence_achieved = set_block n s.state.confidence_achieved };
  }

  abbrev pub add : Put c.Header → Store → Store
  add p s = record s { stored = s.stored ++ p ∷ [] }

  module _ (accepts : Accepts) where
    -- A block without an extension.
    pub skip_block : c.Header → Store → Outcome
    skip_block h s =
        let s' = achieved (c.number h) s in
        let put = block_header (c.number h) h in
        if accepts s'.stored put then (add put s', ok none) else (s', err not_stored)

    -- The part behind the sampling, for the number of verified cells.
    pub store_confidence : c.Header → ℕ → Store → Outcome
    store_confidence h verified s =
        let count = verified_cell_count (c.number h) (verified % 2 ^ 32) in
        let put = block_header (c.number h) h in
        let s' = achieved (c.number h) (add count s) in
        if accepts s.stored count
        then (if accepts s'.stored put
            then (add put s', ok (some (c.calculate_confidence (verified % 2 ^ 32))))
            else (s', err not_stored))
        else (s, err not_stored)

    -- The sampling of a block with commitments and dimensions of more than two columns.
    pub sample_block : c.Header → k.Dimensions → List k.Commitment → Store → Outcome
    unfolding store_confidence
    sample_block h d commitments s =
        let positions = c.random_cells d in
        elim (fetch_verified k (c.network (c.number h)) c.disable_rpc d commitments positions) [
          | err e ↦ (s, err (not_fetched e))
          | panic ↦ (s, panic)
          | ok f ↦
              if ltb (length f.fetched) (length positions)
              then (s, ok none)
              else store_confidence h (length f.fetched) s
        ]

    pub process_block : c.Header → Store → Outcome
    unfolding sample_block skip_block
    process_block h s = elim (c.extract_kate h) [
      | none ↦ skip_block h s
      | some extension ↦ elim (c.dimensions extension) [
        | none ↦ (s, ok none)
        | some d ↦ if leb (c.cols d) 2 then (s, ok none) else elim (c.commitments extension) [
          | none ↦ (s, err invalid_commitments)
          | some commitments ↦ sample_block h d commitments s
        ]
      ]
    ]

-- The functions of this file, for a run of the client.
unfoldable pub methods : Unit {0}
unfolding skip_block store_confidence sample_block process_block
methods = tt

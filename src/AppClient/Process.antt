-- ===== src/AppClient/Process.antt =====
-- `process_block` and `run` of src/app_client.rs.
use smallgod.Prelude.{
  ℕ, ◌+◌, ◌*◌, Bool, true, false, not, ◌&&◌, Option, none, some, List, [], ◌∷◌, ◌++◌, filter,
  length, replicate, ltb, leb, ◌==◌, if◌then◌else◌, Result, ok, err, panic, ok_or, ◌>>=◌,
}
use smallgod.ClientState.{State, set_block}
use smallgod.Network.{Kate}
use smallgod.AppClient.Cells.{CellError, DataCell, data_cells_from_rows}
use smallgod.AppClient.{
  App, AppError, missing_extension, not_verifiable, too_many_missing, not_decoded, not_stored,
  cell_error, Row, is_member, merge_rows, fill_rows, Extension, Block, fetch_rows_from_dht,
  get_kate_rows, reconstruct_rows_from_dht,
}

-- The range of the blocks to sync: its first block, and the one behind its last.
pub record SyncRange : Type 0 where
  pub start : ℕ
  pub end : ℕ

abbrev pub in_range : ℕ → SyncRange → Bool
in_range n r = leb r.start n && ltb n r.end

-- `sync_range.last() == Some(n)`
abbrev pub is_last : ℕ → SyncRange → Bool
is_last n r = ltb r.start r.end && n + 1 == r.end

-- `set_data_verified_state`
unfoldable pub set_data_verified_state : SyncRange → ℕ → State → State
set_data_verified_state r n s =
    let s' =
      (if in_range n r
        then record s { sync_data_verified = set_block n s.sync_data_verified }
        else record s { data_verified = set_block n s.data_verified }) in
    elim s'.synced [
      | some false ↦ if is_last n r then record s' { synced = some true } else s'
      | _ ↦ s'
    ]

-- `wrap_err` on the error of the cells
abbrev pub lift_cells : Result CellError (List DataCell) → Result AppError (List DataCell)
lift_cells (ok cells) = ok cells
lift_cells (err x) = err (cell_error x)
lift_cells panic = panic

module _ (k : Kate) (a : App k) where
  -- The rows of an application that are verified, and the indexes of those that are missing.
  pub record Verified : Type 0 where
    pub dht_rows : List (Option Row)
    pub rpc_rows : List (Option Row)
    pub dht_verified : List ℕ
    pub rpc_verified : List ℕ
    pub missing : List ℕ

  -- The node's rows, unless it is not to be asked.
  unfoldable pub fetch_rows_from_rpc :
      ℕ → k.Dimensions → List ℕ → ℕ → Result AppError (List (Option Row))
  fetch_rows_from_rpc n d missing count =
      if a.disable_rpc then ok (replicate count none) else get_kate_rows k a n d missing

  -- The first half of `process_block`.
  unfoldable pub verified_rows : ℕ → Extension k a → Result AppError Verified
  unfolding fetch_rows_from_rpc
  verified_rows n e = do
    dht_rows ← fetch_rows_from_dht k a n e.dimensions (a.app_specific_rows e.lookup e.dimensions)
    dht ← ok_or not_verifiable (a.verify_equality e.commitments dht_rows e.lookup e.dimensions)
    rpc_rows ← fetch_rows_from_rpc n e.dimensions dht.1 (length dht_rows)
    rpc ← ok_or not_verifiable (a.verify_equality e.commitments rpc_rows e.lookup e.dimensions)
    ok (record {
      dht_rows = dht_rows;
      rpc_rows = rpc_rows;
      dht_verified = dht.0;
      rpc_verified = rpc.0;
      missing = filter (λ i. not (is_member i dht.0)) rpc.1;
    })

  abbrev pub merged : Extension k a → Verified → List (Option Row)
  merged e v =
      merge_rows (v.dht_verified ++ v.rpc_verified) 0 (a.extended_rows e.dimensions) v.dht_rows
        v.rpc_rows

  -- The second half, up to the decoded data.
  unfoldable pub app_data : ℕ → Extension k a → Verified → Result AppError a.AppData
  app_data n e v =
      if ltb a.threshold (length v.missing * a.width e.dimensions)
      then err too_many_missing
      else (do
        reconstructed ← reconstruct_rows_from_dht k a n e.dimensions e.commitments v.missing
        rows ← fill_rows reconstructed (merged e v)
        cells ← lift_cells (data_cells_from_rows rows)
        ok_or not_decoded (a.decode_app_extrinsics e.lookup e.dimensions cells))

  abbrev pub Stored : Type 0
  Stored = List (ℕ × a.AppData)

  -- What is stored then, and the data.
  unfoldable pub process_block : Block k a → Stored → Stored × Result AppError a.AppData
  unfolding verified_rows app_data
  process_block b stored = elim b.extension [
    | none ↦ (stored, err missing_extension)
    | some e ↦ elim (verified_rows b.block_num e >>= app_data b.block_num e) [
      | err x ↦ (stored, err x)
      | panic ↦ (stored, panic)
      | ok found ↦
          if a.stores stored (b.block_num, found)
          then (stored ++ (b.block_num, found) ∷ [], ok found)
          else (stored, err not_stored)
    ]
  ]

  -- The state, what was stored, and the messages about verified data.
  pub record Run : Type 0 where
    pub state : State
    pub stored : Stored
    pub sent : List (ℕ × a.AppData)

  -- What ends the loop: a shutdown that it triggers, or a panic.
  pub data Ended : Type 0 where
    shut_down panicked : Ended

  -- A round of the loop for a received block; `none` goes on.
  unfoldable pub run_block : SyncRange → Block k a → Run → Run × Option Ended
  unfolding process_block
  run_block r b s =
      let verified : Run → Run =
        λ t. record t { state = set_data_verified_state r b.block_num t.state } in
      elim b.extension [
        | none ↦ (verified s, none)
        | some e ↦
            if not (a.has_app e.lookup)
            then (verified s, none)
            else elim (process_block b s.stored).1 [
              | err _ ↦ (record s { stored = (process_block b s.stored).0 }, some shut_down)
              | panic ↦ (record s { stored = (process_block b s.stored).0 }, some panicked)
              | ok found ↦
                  let t = verified (record s { stored = (process_block b s.stored).0 }) in
                  if a.has_receivers b.block_num
                  then (record t { sent = t.sent ++ (b.block_num, found) ∷ [] }, none)
                  else (t, some shut_down)
            ]
      ]

  -- The loop over the blocks that are received until the channel is closed, which ends it too.
  unfoldable pub run : SyncRange → List (Block k a) → Run → Run × Ended
  unfolding run_block
  run r [] s = (s, shut_down)
  run r (b ∷ bs) s = elim (run_block r b s).1 [
    | none ↦ run r bs (run_block r b s).0
    | some why ↦ ((run_block r b s).0, why)
  ]

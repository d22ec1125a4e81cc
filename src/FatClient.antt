-- ===== src/FatClient.antt =====
-- src/fat_client.rs: `process_block`, which fetches the cells of a partition from a node and inserts
-- them and their rows into the DHT, and `run`.
mod Chunks
mod Effects
mod Batches
mod Inserted
mod Tests
use smallgod.Prelude.{
  ℕ, zero, suc, ◌+◌, Bool, true, false, not, ◌||◌, Option, none, some, List, [], ◌∷◌, ◌++◌, map,
  filter, any, ltb, leb, ◌==◌, if◌then◌else◌, length, take, drop, Result, ok, err, panic,
}
use smallgod.Network.{Kate, Cell, FetchError, request_kate_proof}
use smallgod.LightClient.{LightClient}
use smallgod.SyncClient.{SyncClient, BlockVerified, block_verified}

-- As many chunks as there are elements, at most.
chunks_of {ℓ} : {A : Type ℓ} → ℕ → ℕ → List A → List (List A)
chunks_of zero n xs = []
chunks_of (suc fuel) n [] = []
chunks_of (suc fuel) n (x ∷ xs) = take n (x ∷ xs) ∷ chunks_of fuel n (drop n (x ∷ xs))

-- `chunks` of a slice, for a size that is not zero
unfoldable pub chunks {ℓ} : {A : Type ℓ} → ℕ → List A → List (List A)
unfolding chunks_of
chunks n xs = chunks_of (length xs) n xs

pub data FatError : Type 0 where
  not_stored not_fetched : FatError

module _ (k : Kate) (c : LightClient k) (client : SyncClient k c) where
  pub record FatClient : Type 1 where
    -- `iter_extended_partition_positions` of the configured partition
    pub partition_positions : k.Dimensions → List k.Position
    pub is_extended : k.Position → Bool
    pub Row : Type 0
    -- `kate_recovery::data::rows`
    pub rows : k.Dimensions → List (Cell k) → List (ℕ × Row)
    pub max_cells_per_rpc : ℕ
    pub query_proof_rpc_parallel_tasks : ℕ
    -- Whether the database stores the header, and whether the message has a receiver
    pub stores : c.Header → Bool
    pub has_receivers : ℕ → Bool

  module _ (f : FatClient) where
    -- What is sent to the node, to the DHT, to the database and to the application client. The errors
    -- of the DHT are only logged.
    pub data Effect : Type 0 where
      put_header : c.Header → Effect
      get_kate_proof : ℕ → List k.Position → Effect
      insert_cells : ℕ → List (Cell k) → Effect
      insert_rows : ℕ → List (ℕ × f.Row) → Effect
      block_sent : BlockVerified k c → Effect
      shutdown_triggered : FatError → Effect

    abbrev pub BatchOutcome : Type 0
    BatchOutcome = List Effect × Result FatError (List (Cell k))

    -- The loop over the results of a batch: an error ends it behind the cells inserted so far.
    pub insert_results : ℕ → List (Result FetchError (List (Cell k))) → List (Cell k) → BatchOutcome
    insert_results b [] fetched = ([], ok fetched)
    insert_results b (panic ∷ results) fetched = ([], panic)
    insert_results b (err e ∷ results) fetched = ([], err not_fetched)
    insert_results b (ok cells ∷ results) fetched =
        let (effects, result) = insert_results b results (fetched ++ cells) in
        (insert_cells b cells ∷ effects, result)

    -- The requests of a batch, all of which are sent before the first result is read.
    pub requests : ℕ → List (List k.Position) → List Effect
    requests b batch = map (get_kate_proof b) batch

    pub is_panic : Result FetchError (List (Cell k)) → Bool
    is_panic panic = true
    is_panic (err e) = false
    is_panic (ok cells) = false

    -- `join_all` ends before the loop over the results: where a request of the batch panics, none of
    -- them is read.
    pub insert_joined :
        Bool → ℕ → List (Result FetchError (List (Cell k))) → List (Cell k) → BatchOutcome
    unfolding insert_results
    insert_joined true b results fetched = ([], panic)
    insert_joined false b results fetched = insert_results b results fetched

    pub fetch_batch : ℕ → List (List k.Position) → List (Cell k) → BatchOutcome
    unfolding insert_joined is_panic requests
    fetch_batch b batch fetched =
        let results = map (request_kate_proof k (c.network b)) batch in
        let (effects, result) = insert_joined (any is_panic results) b results fetched in
        (requests b batch ++ effects, result)

    -- What comes next takes what was fetched, unless there is an error.
    pub and_then : BatchOutcome → (List (Cell k) → BatchOutcome) → BatchOutcome
    and_then (effects, panic) next = (effects, panic)
    and_then (effects, err e) next = (effects, err e)
    and_then (effects, ok fetched) next = (effects ++ (next fetched).0, (next fetched).1)

    pub fetch_batches : ℕ → List (List (List k.Position)) → List (Cell k) → BatchOutcome
    unfolding fetch_batch and_then
    fetch_batches b [] fetched = ([], ok fetched)
    fetch_batches b (batch ∷ batches) fetched =
        and_then (fetch_batch b batch fetched) (λ fetched'. fetch_batches b batches fetched')

    -- The rows of the cells that are not extended, where the cells are as many as a row at least.
    pub insert_data_rows : ℕ → k.Dimensions → List (Cell k) → List Effect
    insert_data_rows b d fetched =
        if leb (c.cols d) (length fetched)
        then insert_rows b (f.rows d (filter (λ cell. not (f.is_extended cell.position)) fetched))
          ∷ []
        else []

    pub insert_rest : ℕ → k.Dimensions → BatchOutcome → List Effect × Result FatError (Unit {0})
    unfolding insert_data_rows
    insert_rest b d (effects, panic) = (effects, panic)
    insert_rest b d (effects, err e) = (effects, err e)
    insert_rest b d (effects, ok fetched) = (effects ++ insert_data_rows b d fetched, ok tt)

    -- The partition of a block, in batches of requests. `chunks` panics for a size of zero.
    pub upload_partition : ℕ → k.Dimensions → List Effect × Result FatError (Unit {0})
    unfolding chunks fetch_batches insert_rest
    upload_partition b d =
        let batches =
          chunks f.query_proof_rpc_parallel_tasks
            (chunks f.max_cells_per_rpc (f.partition_positions d)) in
        if f.max_cells_per_rpc == 0 || f.query_proof_rpc_parallel_tasks == 0
        then ([], panic)
        else insert_rest b d (fetch_batches b batches [])

    -- `process_block`: the header's extension, its dimensions, and the rest.
    pub process_matrix : c.Header → Option k.Dimensions → List Effect × Result FatError (Unit {0})
    unfolding upload_partition
    process_matrix h none = ([], ok tt)
    process_matrix h (some d) =
        let (effects, result) = upload_partition (c.number h) d in
        if leb (c.cols d) 2
        then ([], ok tt)
        else if f.stores h
        then (put_header h ∷ effects, result)
        else ([], err not_stored)

    pub process_extension : c.Header → Option c.Extension → List Effect × Result FatError (Unit {0})
    unfolding process_matrix
    process_extension h none = ([], ok tt)
    process_extension h (some extension) = process_matrix h (c.dimensions extension)

    pub process_block : c.Header → List Effect × Result FatError (Unit {0})
    unfolding process_extension
    process_block h = process_extension h (c.extract_kate h)

    -- `run`, on the headers that are received; a panic ends the task.
    pub send_block : c.Header → List Effect
    send_block h = elim (block_verified k c client h none) [
      | ok message ↦ if f.has_receivers (c.number h) then block_sent message ∷ [] else []
      | _ ↦ []
    ]

    pub run : List c.Header → List Effect
    unfolding process_block send_block
    run [] = []
    run (h ∷ hs) = elim (process_block h).1 [
      | panic ↦ (process_block h).0
      | err e ↦ (process_block h).0 ++ shutdown_triggered e ∷ []
      | ok _ ↦ let rest = run hs in (process_block h).0 ++ send_block h ++ rest
    ]

-- What runs at concrete inputs unfolds.
unfoldable pub methods : Unit {0}
unfolding chunks insert_results is_panic insert_joined requests fetch_batch and_then fetch_batches
    insert_data_rows insert_rest upload_partition process_matrix process_extension process_block
    send_block run
methods = tt

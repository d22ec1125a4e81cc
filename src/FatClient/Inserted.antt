-- ===== src/FatClient/Inserted.antt =====
-- What `process_block` requests from the node and inserts into the DHT.
use smallgod.Prelude.{
  ℕ, ◌<◌, ◌≡◌, refl, ap, ◌∙◌, sym, true, not, ◌||◌, some, List, [], ◌∷◌, ◌++◌, filter, length, leb,
  ◌==◌, if◌then◌else◌, Result, ok, err, arith,
}
use smallgod.Network.{Kate, Cell, request_kate_proof}
use smallgod.LightClient.{LightClient}
use smallgod.SyncClient.{SyncClient}
use smallgod.FatClient.{
  FatClient, FatError, put_header, chunks, fetch_batches, insert_rest, insert_data_rows,
  upload_partition, process_matrix, process_extension, process_block, not_stored,
}
use smallgod.FatClient.Chunks.{concat, concat-chunks}
use smallgod.FatClient.Effects.{
  Effects, gather, positions_in, cells_in, rows_in, requested, inserted_cells, inserted_rows, ++-[],
  if_false, requested-++, inserted_cells-++, inserted_rows-++,
}
use smallgod.FatClient.Batches.{fetch_batches-IsPart, fetch_batches-answered}

module _ (k : Kate) (c : LightClient k) (client : SyncClient k c) (f : FatClient k c client) where
  -- The batches of a partition, for sizes that are not zero.
  batches_of : k.Dimensions → List (List (List k.Position))
  batches_of d =
      chunks f.query_proof_rpc_parallel_tasks (chunks f.max_cells_per_rpc (f.partition_positions d))

  concat-batches_of :
      (d : k.Dimensions)
      → 0 < f.max_cells_per_rpc
      → 0 < f.query_proof_rpc_parallel_tasks
      → concat (concat (batches_of d)) ≡ f.partition_positions d
  unfolding batches_of
  concat-batches_of d cells tasks =
      ap concat (concat-chunks f.query_proof_rpc_parallel_tasks _ tasks)
      ∙ concat-chunks f.max_cells_per_rpc (f.partition_positions d) cells

  -- The rows that belong to the cells that are inserted, if they are as many as a row at least.
  pub rows_of : k.Dimensions → List (Cell k) → List (List (ℕ × f.Row))
  rows_of d cells =
      if leb (c.cols d) (length cells)
      then f.rows d (filter (λ cell. not (f.is_extended cell.position)) cells) ∷ []
      else []

  inserted_rows-rest :
      (b : ℕ) (d : k.Dimensions) (cells : List (Cell k))
      → inserted_rows k c client f (insert_data_rows k c client f b d cells) ≡ rows_of d cells
  unfolding insert_data_rows inserted_rows rows_of gather rows_in
  inserted_rows-rest b d cells = ground arith

  requested-rest :
      (b : ℕ) (d : k.Dimensions) (cells : List (Cell k))
      → requested k c client f (insert_data_rows k c client f b d cells) ≡ []
  unfolding insert_data_rows requested gather positions_in
  requested-rest b d cells = ground arith

  inserted_cells-rest :
      (b : ℕ) (d : k.Dimensions) (cells : List (Cell k))
      → inserted_cells k c client f (insert_data_rows k c client f b d cells) ≡ []
  unfolding insert_data_rows inserted_cells gather cells_in
  inserted_cells-rest b d cells = ground arith

  upload_partition-fetched :
      (b : ℕ) (d : k.Dimensions) (fetched : List (Cell k))
      → 0 < f.max_cells_per_rpc
      → 0 < f.query_proof_rpc_parallel_tasks
      → let (es, r) = fetch_batches k c client f b (batches_of d) [] in
        r ≡ ok fetched
        → upload_partition k c client f b d
          ≡ (es ++ insert_data_rows k c client f b d fetched, ok tt)
  unfolding upload_partition insert_rest batches_of
  upload_partition-fetched b d fetched cells tasks e =
      let es = (fetch_batches k c client f b (batches_of d) []).0 in
      if_false (f.max_cells_per_rpc == 0 || f.query_proof_rpc_parallel_tasks == 0) _ _
        (ground arith)
      ∙ ap (λ r. insert_rest k c client f b d (es, r)) e

  upload_partition-answered :
      (b : ℕ) (d : k.Dimensions)
      → 0 < f.max_cells_per_rpc
      → 0 < f.query_proof_rpc_parallel_tasks
      → ((ps : List k.Position)
          → (cells : List (Cell k)) × (request_kate_proof k (c.network b) ps ≡ ok cells))
      → (es : Effects k c client f) × (upload_partition k c client f b d ≡ (es, ok tt))
        × (requested k c client f es ≡ f.partition_positions d)
        × (inserted_rows k c client f es ≡ rows_of d (inserted_cells k c client f es))
  upload_partition-answered b d cells tasks answers =
      let (fetched, e) = fetch_batches-answered k c client f b (batches_of d) [] answers in
      let part = fetch_batches-IsPart k c client f b (batches_of d) [] in
      let (asked, have) = part.all_fetched fetched e in
      let first = (fetch_batches k c client f b (batches_of d) []).0 in
      let rest = insert_data_rows k c client f b d fetched in
      let inserted =
        inserted_cells-++ k c client f first rest
        ∙ ap (λ x. inserted_cells k c client f first ++ x) (inserted_cells-rest b d fetched)
        ∙ ++-[] (inserted_cells k c client f first)
        ∙ sym have in
      (
        first ++ rest,
        upload_partition-fetched b d fetched cells tasks e,
        requested-++ k c client f first rest
            ∙ ap (λ x. requested k c client f first ++ x) (requested-rest b d fetched)
            ∙ ++-[] (requested k c client f first)
            ∙ asked
            ∙ concat-batches_of d cells tasks,
        inserted_rows-++ k c client f first rest
            ∙ ap (λ x. x ++ inserted_rows k c client f rest) part.no_rows
            ∙ inserted_rows-rest b d fetched
            ∙ ap (rows_of d) (sym inserted),
      )

  stored-requested :
      (h : c.Header) (es : Effects k c client f)
      → requested k c client f (put_header h ∷ es) ≡ requested k c client f es
  unfolding requested gather positions_in
  stored-requested h es = refl

  -- For a header whose matrix has more than two columns, if the header is stored, the sizes of the
  -- batches are not zero, and the node answers every request about the block, then `process_block`
  -- ends without an error. It requests the positions of the partition, each as often as it is in the
  -- partition and in this order, and inserts the rows of the cells that it inserted, less those of
  -- extended positions, if these cells are as many as a row at least, and no rows otherwise.
  pub process_block-inserted_rows :
      (h : c.Header) (extension : c.Extension) (d : k.Dimensions)
      → c.extract_kate h ≡ some extension
      → c.dimensions extension ≡ some d
      → 2 < c.cols d
      → f.stores h ≡ true
      → 0 < f.max_cells_per_rpc
      → 0 < f.query_proof_rpc_parallel_tasks
      → ((ps : List k.Position)
          → (cells : List (Cell k)) × (request_kate_proof k (c.network (c.number h)) ps ≡ ok cells))
      → (es : Effects k c client f) × (process_block k c client f h ≡ (es, ok tt))
        × (requested k c client f es ≡ f.partition_positions d)
        × (inserted_rows k c client f es ≡ rows_of d (inserted_cells k c client f es))
  unfolding process_block process_extension process_matrix requested inserted_rows inserted_cells
      gather positions_in cells_in rows_in
  process_block-inserted_rows h extension d has_extension has_dimensions wide stored cells tasks
        answers =
      let (es, e, asked, inserted) = upload_partition-answered (c.number h) d cells tasks answers in
      let uploaded = upload_partition k c client f (c.number h) d in
      let put : Effects k c client f × Result FatError (Unit {0}) =
        (put_header h ∷ uploaded.0, uploaded.1) in
      let bad : Effects k c client f × Result FatError (Unit {0}) = ([], err not_stored) in
      (
        put_header h ∷ es,
        ap (process_extension k c client f h) has_extension
            ∙ ap (process_matrix k c client f h) has_dimensions
            ∙ if_false (leb (c.cols d) 2) _ (if f.stores h then put else bad) (ground arith)
            ∙ ap (λ b. if b then put else bad) stored
            ∙ ap (λ u. (put_header h ∷ u.0, u.1)) e,
        asked,
        inserted,
      )

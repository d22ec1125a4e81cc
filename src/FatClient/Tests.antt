-- ===== src/FatClient/Tests.antt =====
-- A partition of five positions, the last of which is extended, in requests of two positions and
-- batches of two requests.
use smallgod.Prelude.{
  ℕ, ◌+◌, ◌≡◌, refl, ap, true, false, some, none, List, [], ◌∷◌, map, ltb, if◌then◌else◌, ok, ◌>>=◌,
  arith,
}
use smallgod.Network
use smallgod.Network.{Cell, request_kate_proof, zip_cells}
use smallgod.Network.Sample.{kate, net}
use smallgod.LightClient.{LightClient}
use smallgod.SyncClient.{SyncClient}
use smallgod.FatClient.{
  FatClient, Effect, process_block, methods, put_header, get_kate_proof, insert_cells, insert_rows,
}
use smallgod.FatClient.Effects.{requested, inserted_cells, inserted_rows}
use smallgod.FatClient.Inserted.{rows_of, process_block-inserted_rows}

abbrev light : LightClient kate
light = record {
  Header = ℕ;
  number = λ h. h;
  Extension = Unit;
  extract_kate = λ h. some tt;
  dimensions = λ e. some tt;
  cols = λ d. 4;
  commitments = λ e. some (100 ∷ 200 ∷ []);
  random_cells = λ d. [];
  Confidence = ℕ;
  calculate_confidence = λ n. n;
  network = λ n. net;
  disable_rpc = false;
}

abbrev client : SyncClient kate light
client = record {
  get_block_header = λ stored n. some none;
  is_confidence_stored = λ stored n. some false;
  accepts = λ stored put. true;
  request_header = λ n. some n;
  app_lookup_is_empty = λ e. some false;
  is_last_step = true;
}

abbrev fat : FatClient kate light client
fat = record {
  partition_positions = λ d. 0 ∷ 1 ∷ 2 ∷ 3 ∷ 10 ∷ [];
  is_extended = λ p. if ltb p 10 then false else true;
  Row = List ℕ;
  rows = λ d cells. (0, map (λ cell. cell.content) cells) ∷ [];
  max_cells_per_rpc = 2;
  query_proof_rpc_parallel_tasks = 2;
  stores = λ h. true;
  has_receivers = λ n. true;
}

abbrev cell_at : ℕ → Cell kate
cell_at p = record { position = p; content = if ltb p 10 then 100 + p else 200 + p }

zip_cells_lem :
    (ps : List ℕ)
    → zip_cells kate ps (map (λ p. if ltb p 10 then 100 + p else 200 + p) ps) ≡ ok (map cell_at ps)
unfolding Network.methods
zip_cells_lem [] = refl
zip_cells_lem (p ∷ ps) = ap (λ r. r >>= (λ cells. ok (cell_at p ∷ cells))) (zip_cells_lem ps)

answered : (ps : List ℕ) → (cells : List (Cell kate)) × (request_kate_proof kate net ps ≡ ok cells)
unfolding Network.methods
answered ps = (map cell_at ps, zip_cells_lem ps)

abbrev effects : List (Effect kate light client fat)
effects =
    put_header 7
    ∷ get_kate_proof 7 (0 ∷ 1 ∷ [])
    ∷ get_kate_proof 7 (2 ∷ 3 ∷ [])
    ∷ insert_cells 7 (cell_at 0 ∷ cell_at 1 ∷ [])
    ∷ insert_cells 7 (cell_at 2 ∷ cell_at 3 ∷ [])
    ∷ get_kate_proof 7 (10 ∷ [])
    ∷ insert_cells 7 (cell_at 10 ∷ [])
    ∷ insert_rows 7 ((0, 100 ∷ 101 ∷ 102 ∷ 103 ∷ []) ∷ [])
    ∷ []

processed : process_block kate light client fat 7 ≡ (effects, ok tt)
unfolding methods Network.methods
processed = refl

-- The witness.
process_block-inserted_rows_example :
    (es : List (Effect kate light client fat)) × (process_block kate light client fat 7
      ≡ (es, ok tt))
    × (requested kate light client fat es ≡ 0 ∷ 1 ∷ 2 ∷ 3 ∷ 10 ∷ [])
    × (inserted_rows kate light client fat es
        ≡ rows_of kate light client fat tt (inserted_cells kate light client fat es))
process_block-inserted_rows_example =
    process_block-inserted_rows kate light client fat 7 tt tt refl refl (omega arith) refl
      (omega arith) (omega arith) answered

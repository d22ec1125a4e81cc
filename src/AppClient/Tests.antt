-- ===== src/AppClient/Tests.antt =====
-- A block of two rows of one cell each, which are all an application's: the DHT has a wrong copy of
-- the first, the node a right one, and the second is reconstructed.
use smallgod.Prelude.{
  ℕ, ◌+◌, ◌*◌, ◌≡◌, ◌⊎◌, refl, Bool, true, false, Option, none, some, List, [], ◌∷◌, ◌++◌, ◌==◌,
  ltb, if◌then◌else◌, ok, arith, length, ℕ_discrete, replicate, map, filter, not,
}
use smallgod.Prelude.Maps.{get}
use smallgod.ClientState.{set_block}
use smallgod.Network
use smallgod.Network.Sample.{kate, net}
use smallgod.AppClient.{App, Row, Extension, Block, methods, is_member, reconstruct_rows_from_dht}
use smallgod.AppClient.Cells.{
  DataCell, data_cells_from_row, data_cells_from_row-flat_data, flat_data, data_cells_from_rows,
  rows_from, cells_from, chunks_exact, new_data_cell,
}
use smallgod.AppClient.Process.{
  SyncRange, set_data_verified_state, verified_rows, app_data, process_block, run_block, run,
  fetch_rows_from_rpc, Verified, Run,
}
use smallgod.AppClient.Rows.{IsWhole, reconstruct_rows_from_dht-IsWhole}
use smallgod.AppClient.Data.{IsDecoded, process_block-IsDecoded}
use smallgod.AppClient.Progress.{IsDelivered, run-IsDelivered}

program : Unit {0}
unfolding methods Network.methods ℕ_discrete set_block get flat_data data_cells_from_row
    data_cells_from_rows rows_from cells_from chunks_exact new_data_cell verified_rows app_data
    process_block run_block run fetch_rows_from_rpc set_data_verified_state
program = tt

abbrev full : ℕ → Row
full b = replicate 32 b

-- A row is right if its bytes are its index.
abbrev is_right : ℕ → Option Row → Bool
is_right i (some (b ∷ bytes)) = b == i
is_right i r = false

abbrev right_rows : ℕ → List (Option Row) → List ℕ
right_rows i [] = []
right_rows i (r ∷ rs) = if is_right i r then i ∷ right_rows (i + 1) rs else right_rows (i + 1) rs

-- The column of a cell is 0. The decoded data are the rows of the cells with their sizes.
abbrev app : App kate
app = record {
  col = λ p. 0;
  cell_data = λ c. full c;
  extended_rows = λ d. 2;
  width = λ d. 1;
  extended_rows_positions = λ d rows. map (λ i. i * 9 + 3) rows;
  columns_positions = λ d ps. 3 ∷ [];
  reconstruct_columns = λ d cells. some ((0, full 1 ∷ []) ∷ []);
  Lookup = Unit;
  app_specific_rows = λ l d. 0 ∷ 1 ∷ [];
  has_app = λ l. true;
  verify_equality = λ cs rows l d.
      some (right_rows 0 rows, filter (λ i. not (is_member i (right_rows 0 rows))) (0 ∷ 1 ∷ []));
  AppData = List ℕ;
  decode_app_extrinsics = λ l d cells. some (map (λ c. c.row * 100 + length c.bytes) cells);
  network = λ n. net;
  get_row_record = λ n i. if i == 0 then some (full 9) else none;
  request_kate_rows = λ n rows. some (full 0 ∷ []);
  stores = λ stored x. true;
  has_receivers = λ n. ltb n 9;
  disable_rpc = false;
  threshold = 4;
}

abbrev extension : Extension kate app
extension = record { dimensions = tt; lookup = tt; commitments = 100 ∷ 200 ∷ [] }

abbrev block : ℕ → Block kate app
block n = record { block_num = n; extension = some extension }

abbrev range : SyncRange
range = record { start = 3; end = 8 }

abbrev start : Run kate app
start = record {
  state = record {
    synced = some false;
    latest = 9;
    header_verified = none;
    confidence_achieved = none;
    data_verified = none;
    sync_latest = none;
    sync_header_verified = none;
    sync_confidence_achieved = none;
    sync_data_verified = none;
    finality_synced = true;
  };
  stored = [];
  sent = [];
}

abbrev decoded : List ℕ
decoded = 32 ∷ 132 ∷ []

abbrev stored : List (ℕ × List ℕ)
stored = (7, decoded) ∷ []

processed : process_block kate app (block 7) [] ≡ (stored, ok decoded)
unfolding program
processed = refl

process_block-IsDecoded_example :
    (e : Extension kate app) × (v : Verified kate app) × (some extension ≡ some e)
    × (verified_rows kate app 7 e ≡ ok v)
    × IsDecoded kate app 7 e v decoded
    × (stored ≡ [] ++ stored)
process_block-IsDecoded_example =
    process_block-IsDecoded kate app (block 7) [] stored decoded processed

-- The loop ends at the second block, to which no one listens.
run-IsDelivered_example :
    IsDelivered kate app start (run kate app range (block 7 ∷ block 9 ∷ block 10 ∷ []) start).0
run-IsDelivered_example = run-IsDelivered kate app range (block 7 ∷ block 9 ∷ block 10 ∷ []) start

ended :
    (run kate app range (block 7 ∷ block 9 ∷ block 10 ∷ []) start).0.stored
    ≡ (7, decoded) ∷ (9, decoded) ∷ []
unfolding program
ended = refl

abbrev rebuilt : List (ℕ × Row)
rebuilt = (1, full 1) ∷ []

reconstructed : reconstruct_rows_from_dht kate app 7 tt (100 ∷ 200 ∷ []) (1 ∷ []) ≡ ok rebuilt
unfolding program
reconstructed = refl

reconstruct_rows_from_dht-IsWhole_example :
    IsWhole kate app tt rebuilt
    × (((rebuilt ≡ []) × (app.extended_rows_positions tt (1 ∷ []) ≡ []))
        ⊎ (map (λ r. r.0) rebuilt ≡ 1 ∷ []))
reconstruct_rows_from_dht-IsWhole_example =
    reconstruct_rows_from_dht-IsWhole kate app 7 tt (100 ∷ 200 ∷ []) (1 ∷ []) rebuilt reconstructed

data_cells_from_row-flat_data_example :
    (cells : List DataCell) × (data_cells_from_row 5 (full 1 ++ full 2) ≡ ok cells)
    × (length cells ≡ 2)
    × (flat_data cells ≡ full 1 ++ full 2)
data_cells_from_row-flat_data_example =
    data_cells_from_row-flat_data 5 2 (full 1 ++ full 2) (omega arith) refl (omega arith)

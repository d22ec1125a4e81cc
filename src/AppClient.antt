-- ===== src/AppClient.antt =====
-- src/app_client.rs: the rows of an application in a block, from the DHT, from a node, or from
-- reconstructed columns; and the rows that src/network/p2p/client.rs fetches.
pub mod Cells
pub mod Process
pub mod Rows
pub mod Merge
pub mod Data
pub mod Progress
mod Tests
use smallgod.Prelude.{
  ℕ, zero, suc, ◌+◌, ◌-◌, ◌*◌, ◌/◌, Bool, true, false, not, ◌&&◌, ◌||◌, Option, none, some, List,
  [], ◌∷◌, ◌++◌, map, filter, any, length, get_elem?, replicate, set, ltb, leb, ◌==◌, if◌then◌else◌,
  ℕ_discrete, Result, ok, err, panic, ok_or, ◌>>=◌,
}
use smallgod.Prelude.Maps.{HashMap, get}
use smallgod.ClientState.{State, set_block}
use smallgod.Network.{Kate, Cell, Network, FetchError, fetch_verified_from_dht}
use smallgod.AppClient.Cells.{
  DataCell, CellError, not_found, chunk_size, flat_data, data_cells_from_rows,
}

abbrev pub Row : Type 0
Row = List ℕ

-- `kate_recovery::config::EXTENSION_FACTOR`
abbrev extension_factor : ℕ
extension_factor = 2

-- What the client takes from kate_recovery and avail_core, its calls to the network and the
-- database, and its configuration, for its application id.
pub record App (k : Kate) : Type 1 where
  pub col : k.Position → ℕ
  -- the data of a cell, without its proof
  pub cell_data : k.Content → List ℕ
  pub extended_rows : k.Dimensions → ℕ
  pub width : k.Dimensions → ℕ
  pub extended_rows_positions : k.Dimensions → List ℕ → List k.Position
  pub columns_positions : k.Dimensions → List k.Position → List k.Position
  pub reconstruct_columns : k.Dimensions → List (Cell k) → Option (HashMap ℕ (List (List ℕ)))
  pub Lookup : Type 0
  pub app_specific_rows : Lookup → k.Dimensions → List ℕ
  -- `lookup.range_of(app_id).is_some()`
  pub has_app : Lookup → Bool
  -- `commitments::verify_equality`: the verified rows and the missing ones
  pub verify_equality :
      List k.Commitment → List (Option Row) → Lookup → k.Dimensions → Option (List ℕ × List ℕ)
  pub AppData : Type 0
  pub decode_app_extrinsics : Lookup → k.Dimensions → List DataCell → Option AppData
  pub network : ℕ → Network k
  -- the record of a row of a block in the DHT
  pub get_row_record : ℕ → ℕ → Option Row
  pub request_kate_rows : ℕ → List ℕ → Option (List Row)
  -- `Key::AppData(app_id, block)`, by what was stored before
  pub stores : List (ℕ × AppData) → ℕ × AppData → Bool
  pub has_receivers : ℕ → Bool
  pub disable_rpc : Bool
  pub threshold : ℕ

pub data AppError : Type 0 where
  missing_extension not_verifiable no_rpc_rows too_many_missing : AppError
  not_fetched : FetchError → AppError
  no_columns wrong_row_size not_decoded not_stored : AppError
  cell_error : CellError → AppError

module _ {A : Type 0} where
  -- `rows[i] = Some(row)` for each pair; an index out of range panics.
  unfoldable pub fill_rows : List (ℕ × A) → List (Option A) → Result AppError (List (Option A))
  fill_rows [] rows = ok rows
  fill_rows ((i, row) ∷ more) rows =
      if ltb i (length rows) then fill_rows more (set rows i (some row)) else panic

  -- `zip`
  abbrev pub zip : List ℕ → List A → List (ℕ × A)
  zip [] ys = []
  zip (x ∷ xs) [] = []
  zip (x ∷ xs) (y ∷ ys) = (x, y) ∷ zip xs ys

abbrev pub is_member : ℕ → List ℕ → Bool
is_member i xs = any (λ x. x == i) xs

-- The order of positions by row and column, and `sort_by`, which is stable.
abbrev pub cell_leb : DataCell → DataCell → Bool
cell_leb a b = ltb a.row b.row || (a.row == b.row && leb a.col b.col)

pub insert_cell : DataCell → List DataCell → List DataCell
insert_cell c [] = c ∷ []
insert_cell c (d ∷ ds) = if cell_leb c d then c ∷ d ∷ ds else d ∷ insert_cell c ds

unfoldable pub sort_cells : List DataCell → List DataCell
unfolding insert_cell
sort_cells [] = []
sort_cells (c ∷ cs) = insert_cell c (sort_cells cs)

-- The rows, by their index: a row from the DHT, or else from the node, if its index is verified.
unfoldable pub merge_rows :
    List ℕ → ℕ → ℕ → List (Option Row) → List (Option Row) → List (Option Row)
merge_rows verified i zero dht rpc = []
merge_rows verified i (suc n) [] rpc = []
merge_rows verified i (suc n) (d ∷ dht) [] = []
merge_rows verified i (suc n) (d ∷ dht) (r ∷ rpc) =
    elim d [
      | some row ↦ if is_member i verified then some row else none
      | none ↦ elim r [ none ↦ none | some row ↦ if is_member i verified then some row else none ]
    ]
    ∷ merge_rows verified (i + 1) n dht rpc

module _ (k : Kate) (a : App k) where
  -- `types::Extension`, and what is read of `BlockVerified`
  pub record Extension : Type 0 where
    pub dimensions : k.Dimensions
    pub lookup : a.Lookup
    pub commitments : List k.Commitment

  pub record Block : Type 0 where
    pub block_num : ℕ
    pub extension : Option Extension

  -- `p2p::Client::fetch_rows_from_dht`, chunk by chunk in order
  pub found_rows : ℕ → List ℕ → List (ℕ × Row)
  found_rows n [] = []
  found_rows n (i ∷ is) = elim (a.get_row_record n i) [
    | none ↦ found_rows n is
    | some row ↦ (i, row) ∷ found_rows n is
  ]

  pub fetch_rows_from_dht : ℕ → k.Dimensions → List ℕ → Result AppError (List (Option Row))
  unfolding found_rows fill_rows
  fetch_rows_from_dht n d indexes =
      fill_rows (found_rows n indexes) (replicate (a.extended_rows d) none)

  -- `AppClient::get_kate_rows`
  pub get_kate_rows : ℕ → k.Dimensions → List ℕ → Result AppError (List (Option Row))
  unfolding fill_rows
  get_kate_rows n d rows = ok_or no_rpc_rows (a.request_kate_rows n rows) >>= λ answer.
      fill_rows (zip rows answer) (replicate (a.extended_rows d) none)

  -- A cell of a reconstructed column, which is not extended.
  pub data_cell : HashMap ℕ (List (List ℕ)) → k.Position → Result AppError DataCell
  data_cell columns p = elim (get ℕ_discrete (a.col p) columns) [
    | none ↦ err (cell_error not_found)
    | some column ↦ elim (get_elem? column (k.row p / extension_factor)) [
      | none ↦ err (cell_error not_found)
      | some bytes ↦ ok (record { row = k.row p; col = a.col p; bytes = bytes })
    ]
  ]

  pub reconstructed_cells :
      HashMap ℕ (List (List ℕ)) → List k.Position → Result AppError (List DataCell)
  unfolding data_cell
  reconstructed_cells columns [] = ok []
  reconstructed_cells columns (p ∷ ps) =
      data_cell columns p >>= λ cell. reconstructed_cells columns ps >>= λ cells. ok (cell ∷ cells)

  abbrev pub into_data_cell : Cell k → DataCell
  into_data_cell c = record {
    row = k.row c.position;
    col = a.col c.position;
    bytes = a.cell_data c.content;
  }

  -- The data of the cells of each row, which must be a whole row.
  pub rows_of_cells : k.Dimensions → List DataCell → List ℕ → Result AppError (List (ℕ × Row))
  unfolding flat_data
  rows_of_cells d cells [] = ok []
  rows_of_cells d cells (row ∷ rows) =
      let bytes = flat_data (filter (λ c. c.row == row) cells) in
      (if length bytes == a.width d * chunk_size then ok (row, bytes) else err wrong_row_size)
      >>= λ r. rows_of_cells d cells rows >>= λ rs. ok (r ∷ rs)

  -- `fetch_verified` of this file, which is that of the network from the DHT
  pub fetch_cells :
      ℕ
      → k.Dimensions
      → List k.Commitment
      → List k.Position
      → Result AppError (List (Cell k) × List k.Position)
  fetch_cells n d commitments ps = elim (fetch_verified_from_dht k (a.network n) d commitments ps) [
    | ok r ↦ ok r
    | err e ↦ err (not_fetched e)
    | panic ↦ panic
  ]

  pub reconstruct_rows_from_dht :
      ℕ → k.Dimensions → List k.Commitment → List ℕ → Result AppError (List (ℕ × Row))
  unfolding fetch_cells reconstructed_cells sort_cells rows_of_cells
  reconstruct_rows_from_dht n d commitments missing_rows =
      elim (a.extended_rows_positions d missing_rows) [
        | [] ↦ ok []
        | p ∷ ps ↦ fetch_cells n d commitments (p ∷ ps) >>= λ first.
            fetch_cells n d commitments (a.columns_positions d first.1) >>= λ second.
            ok_or no_columns (a.reconstruct_columns d second.0) >>= λ columns.
            reconstructed_cells columns first.1 >>= λ cells.
            rows_of_cells d (sort_cells (map into_data_cell first.0 ++ cells)) missing_rows
      ]

-- The functions of this file, for a run of the client.
methods : Unit {0}
unfolding fill_rows insert_cell sort_cells merge_rows found_rows fetch_rows_from_dht get_kate_rows
    data_cell reconstructed_cells rows_of_cells fetch_cells reconstruct_rows_from_dht
methods = tt

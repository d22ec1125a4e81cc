-- ===== src/AppClient/Cells.antt =====
-- The data cells of src/app_client.rs: a row of bytes as cells of a fixed size, and back.
use smallgod.Prelude.{
  ℕ, zero, suc, ◌+◌, ◌*◌, ◌/◌, ◌^◌, ◌≤◌, ◌<◌, ◌≡◌, refl, ap, ◌∙◌, Option, none, some, List, [], ◌∷◌,
  ◌++◌, length, take, drop, leb, if◌then◌else◌, Result, ok, err, ◌>>=◌, >>=-eq-ok, arith,
}

-- `kate_recovery::data::DataCell` with its position
pub record DataCell : Type 0 where
  pub row : ℕ
  pub col : ℕ
  pub bytes : List ℕ

pub data CellError : Type 0 where
  row_too_large col_too_large not_found : CellError

-- `kate_recovery::config::CHUNK_SIZE`
abbrev pub chunk_size : ℕ
chunk_size = 32

-- `.flat_map(|cell| cell.data)`
unfoldable pub flat_data : List DataCell → List ℕ
flat_data [] = []
flat_data (c ∷ cs) = c.bytes ++ flat_data cs

-- As many chunks of `chunk_size` bytes, from the front.
chunks : ℕ → List ℕ → List (List ℕ)
chunks zero bytes = []
chunks (suc n) bytes = take chunk_size bytes ∷ chunks n (drop chunk_size bytes)

-- `.chunks_exact(CHUNK_SIZE)`: what is left over at the end is not in a chunk
unfoldable pub chunks_exact : List ℕ → List (List ℕ)
unfolding chunks
chunks_exact bytes = chunks (length bytes / chunk_size) bytes

-- The conversions of the row to 32 and of the column to 16 bits may fail.
unfoldable pub new_data_cell : ℕ → ℕ → List ℕ → Result CellError DataCell
new_data_cell row col bytes =
    if leb (2 ^ 32) row
    then err row_too_large
    else if leb (2 ^ 16) col
    then err col_too_large
    else ok (record { row = row; col = col; bytes = bytes })

-- The chunks from a column on, as cells of a row.
unfoldable pub cells_from : ℕ → ℕ → List (List ℕ) → Result CellError (List DataCell)
unfolding new_data_cell
cells_from row col [] = ok []
cells_from row col (chunk ∷ rest) = new_data_cell row col chunk >>= λ cell.
    cells_from row (col + 1) rest >>= λ cells. ok (cell ∷ cells)

unfoldable pub data_cells_from_row : ℕ → List ℕ → Result CellError (List DataCell)
unfolding chunks_exact cells_from
data_cells_from_row row bytes = cells_from row 0 (chunks_exact bytes)

-- The rows that are there, from an index on.
unfoldable pub rows_from : ℕ → List (Option (List ℕ)) → Result CellError (List DataCell)
unfolding data_cells_from_row
rows_from i [] = ok []
rows_from i (none ∷ rows) = rows_from (i + 1) rows
rows_from i (some bytes ∷ rows) =
    data_cells_from_row i bytes >>= λ cells. rows_from (i + 1) rows >>= λ more. ok (cells ++ more)

unfoldable pub data_cells_from_rows : List (Option (List ℕ)) → Result CellError (List DataCell)
unfolding rows_from
data_cells_from_rows rows = rows_from 0 rows

take-drop : (n : ℕ) (xs : List ℕ) → take n xs ++ drop n xs ≡ xs
take-drop zero xs = refl
take-drop (suc n) [] = refl
take-drop (suc n) (x ∷ xs) = ap (λ ys. x ∷ ys) (take-drop n xs)

length-drop : (n : ℕ) (xs : List ℕ) → n ≤ length xs → length (drop n xs) + n ≡ length xs
length-drop zero xs h = omega arith
length-drop (suc n) [] h = absurd (omega arith)
length-drop (suc n) (x ∷ xs) h = omega (arith, length-drop n xs (omega arith))

-- The bytes of chunks, one after the other.
abbrev concat : List (List ℕ) → List ℕ
concat [] = []
concat (xs ∷ xss) = xs ++ concat xss

concat-chunks :
    (n : ℕ) (bytes : List ℕ) → length bytes ≡ n * chunk_size → concat (chunks n bytes) ≡ bytes
unfolding chunks
concat-chunks zero [] h = refl
concat-chunks zero (x ∷ xs) h = absurd (omega arith)
concat-chunks (suc n) bytes h =
    let shorter = length-drop chunk_size bytes (omega arith) in
    ap (λ ys. take chunk_size bytes ++ ys) (concat-chunks n (drop chunk_size bytes) (omega arith))
    ∙ take-drop chunk_size bytes

flat_data-cells_from :
    (row col : ℕ) (xss : List (List ℕ)) (cells : List DataCell)
    → cells_from row col xss ≡ ok cells
    → flat_data cells ≡ concat xss
unfolding cells_from flat_data new_data_cell
flat_data-cells_from row col [] cells e = ground arith
flat_data-cells_from row col (xs ∷ xss) cells e =
    let (cell, made, e') = >>=-eq-ok (new_data_cell row col xs) _ e in
    let (more, rest, e'') = >>=-eq-ok (cells_from row (col + 1) xss) _ e' in
    let ih = flat_data-cells_from row (col + 1) xss more rest in
    let same : cell.bytes ≡ xs = ground arith in
    let split : cells ≡ cell ∷ more = ground arith in
    ap flat_data split ∙ ap (λ d. d ++ flat_data more) same ∙ ap (λ ys. xs ++ ys) ih

cells_from-ok :
    (row col : ℕ) (xss : List (List ℕ))
    → row < 2 ^ 32
    → col + length xss ≤ 2 ^ 16
    → (cells : List DataCell) × (cells_from row col xss ≡ ok cells) × (length cells ≡ length xss)
unfolding cells_from new_data_cell
cells_from-ok row col [] small fits = ([], refl, refl)
cells_from-ok row col (xs ∷ xss) small fits =
    let (cells, made, counted) = cells_from-ok row (col + 1) xss small (omega arith) in
    (record { row = row; col = col; bytes = xs } ∷ cells, ground arith, omega (arith, counted))

length-chunks : (n : ℕ) (bytes : List ℕ) → length (chunks n bytes) ≡ n
unfolding chunks
length-chunks zero bytes = refl
length-chunks (suc n) bytes = omega (arith, length-chunks n (drop chunk_size bytes))

-- A row with an index of 32 bits, of whole chunks, no more than columns have 16-bit numbers, is
-- taken apart into a cell for each chunk, and the data of the cells, one after the other, is the
-- row again.
pub data_cells_from_row-flat_data :
    (row n : ℕ) (bytes : List ℕ)
    → row < 2 ^ 32
    → length bytes ≡ n * chunk_size
    → n ≤ 2 ^ 16
    → (cells : List DataCell) × (data_cells_from_row row bytes ≡ ok cells)
      × (length cells ≡ n)
      × (flat_data cells ≡ bytes)
unfolding data_cells_from_row chunks_exact
data_cells_from_row-flat_data row n bytes small whole fits =
    let count : length bytes / chunk_size ≡ n = omega arith in
    let sized = length-chunks n bytes in
    let (cells, made, counted) = cells_from-ok row 0 (chunks n bytes) small (omega arith) in
    (
      cells,
      ap (λ k. cells_from row 0 (chunks k bytes)) count ∙ made,
      omega arith,
      flat_data-cells_from row 0 (chunks n bytes) cells made ∙ concat-chunks n bytes whole,
    )

-- ===== src/RandomCells.antt =====
-- src/network/rpc.rs: `generate_random_cells`, the positions of a block that are sampled. The random
-- numbers are a stream of positions, of which each draw takes the next one.
mod Drawn
mod Tests
use smallgod.Prelude.{
  ℕ, zero, suc, ◌+◌, ◌%◌, ◌^◌, Bool, true, false, ◌&&◌, Option, none, some, List, [], ◌∷◌, any, ltb,
  ◌==◌, if◌then◌else◌, length,
}

pub record Position : Type 0 where
  pub row : ℕ
  pub col : ℕ

-- `Dimensions` of kate_recovery: what the code reads of them.
pub record Dimensions : Type 0 where
  pub cols : ℕ
  pub extended_rows : ℕ
  pub extended_size : ℕ

abbrev pub u16_mod : ℕ
u16_mod = 2 ^ 16

pub is_same : Position → Position → Bool
is_same p q = p.row == q.row && p.col == q.col

-- `insert` of a set that is kept as a list without repetition
pub insert_position : Position → List Position → List Position
unfolding is_same
insert_position p indices = if any (λ q. is_same p q) indices then indices else p ∷ indices

-- The while loop, from the draw `i`; without fuel it is not done.
pub draw_positions : (ℕ → Position) → ℕ → ℕ → ℕ → List Position → Option (List Position)
unfolding insert_position
draw_positions draws zero i count indices = none
draw_positions draws (suc fuel) i count indices =
    let rest = draw_positions draws fuel (i + 1) count (insert_position (draws i) indices) in
    if ltb (length indices % u16_mod) (count % u16_mod) then rest else some indices

pub cells_to_draw : Dimensions → ℕ → ℕ
cells_to_draw dimensions cell_count =
    if ltb dimensions.extended_size cell_count then dimensions.extended_size else cell_count

pub generate_random_cells : (ℕ → Position) → ℕ → Dimensions → ℕ → Option (List Position)
unfolding draw_positions cells_to_draw
generate_random_cells draws fuel dimensions cell_count =
    draw_positions draws fuel 0 (cells_to_draw dimensions cell_count) []

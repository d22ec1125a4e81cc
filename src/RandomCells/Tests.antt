-- ===== src/RandomCells/Tests.antt =====
-- Draws that run over the cells of a matrix of two rows and two columns, each cell twice.
use smallgod.Prelude.{ℕ, ◌<◌, ◌/◌, ◌%◌, ◌≡◌, refl, some, List, [], ◌∷◌, length, arith}
use smallgod.RandomCells.{
  Position, Dimensions, insert_position, draw_positions, cells_to_draw, generate_random_cells,
  is_same,
}
use smallgod.RandomCells.Drawn.{drawn, IsSample, generate_random_cells-IsSample}

abbrev draws : ℕ → Position
draws i = record { row = i / 4 % 2; col = i / 2 % 2 }

abbrev matrix : Dimensions
matrix = record { cols = 2; extended_rows = 2; extended_size = 4 }

draws-inside : (i : ℕ) → ((draws i).row < 2) × ((draws i).col < 2)
draws-inside i = (omega arith, omega arith)

random_three :
    generate_random_cells draws 7 matrix 3
    ≡ some (
        record { row = 1; col = 0 }
        ∷ record { row = 0; col = 1 }
        ∷ record { row = 0; col = 0 }
        ∷ [])
unfolding generate_random_cells draw_positions insert_position is_same cells_to_draw
random_three = refl

generate_random_cells-IsSample_example :
    (cells : List Position) × (generate_random_cells draws 7 matrix 3 ≡ some cells)
    × IsSample matrix 3 cells
    × (length cells ≡ 3)
unfolding cells_to_draw drawn insert_position is_same
generate_random_cells-IsSample_example =
    generate_random_cells-IsSample draws 6 matrix 3 draws-inside (omega arith) (omega arith)

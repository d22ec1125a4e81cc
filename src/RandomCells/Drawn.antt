-- ===== src/RandomCells/Drawn.antt =====
-- The positions that are drawn: how many, where, and when the loop ends.
use mathlib.Core.List.{Memᴰ}
use smallgod.Prelude.{
  ℕ, zero, suc, ◌+◌, ◌%◌, ◌≤◌, ◌<◌, ◌≡◌, refl, sym, subst, true, false, Option, some, List, [], ◌∷◌,
  All, any, ltb, if◌then◌else◌, length, arith, Bool-cases, inl, inr, min,
}
use smallgod.Network.Distinct.{IsDistinct}
use smallgod.RandomCells.{
  Position, Dimensions, u16_mod, is_same, insert_position, draw_positions, cells_to_draw,
  generate_random_cells,
}

is_same_refl : (p : Position) → is_same p p ≡ true
unfolding is_same
is_same_refl p = ground arith

-- The set behind a number of draws.
unfoldable pub drawn : (ℕ → Position) → ℕ → ℕ → List Position → List Position
drawn draws zero i indices = indices
drawn draws (suc n) i indices = drawn draws n (i + 1) (insert_position (draws i) indices)

-- What the loop keeps: different positions, each within the matrix, and at most as many as wanted.
pub record IsSample (d : Dimensions) (count : ℕ) (indices : List Position) : Type 0 where
  pub distinct : IsDistinct indices
  within : All (λ (p : Position). (p.row < d.extended_rows) × (p.col < d.cols)) indices
  pub bounded : length indices ≤ count

mem-any : (p : Position) (ps : List Position) → Memᴰ p ps → any (λ q. is_same p q) ps ≡ true
mem-any p [] m = elim m [ ]
mem-any p (q ∷ ps) (Memᴰ.head e) =
    let same : is_same p q ≡ true = subst (λ x. is_same p x ≡ true) e (is_same_refl p) in
    ground arith
mem-any p (q ∷ ps) (Memᴰ.tail m) = ground (arith, mem-any p ps m)

length-insert_position :
    (p : Position) (indices : List Position)
    → length (insert_position p indices) ≤ length indices + 1
unfolding insert_position
length-insert_position p indices = ground arith

insert_position-IsSample :
    (d : Dimensions) (count : ℕ) (p : Position) (indices : List Position)
    → (p.row < d.extended_rows) × (p.col < d.cols)
    → length indices < count
    → IsSample d count indices
    → IsSample d count (insert_position p indices)
unfolding insert_position
insert_position-IsSample d count p indices inside more h =
    elim (Bool-cases (any (λ q. is_same p q) indices)) [
      | inl old ↦ subst (λ b. IsSample d count (if b then indices else p ∷ indices)) (sym old) h
      | inr new ↦
          subst (λ b. IsSample d count (if b then indices else p ∷ indices)) (sym new)
            (record {
              distinct = (λ m. absurd (let found = mem-any p indices m in cc), h.distinct);
              within = (inside, h.within);
              bounded = omega (arith, more);
            })
    ]

short_of :
    (n count : ℕ)
    → n ≤ count
    → count < u16_mod
    → ltb (n % u16_mod) (count % u16_mod) ≡ true
    → n < count
short_of n count le small e = ground arith

reached :
    (n count : ℕ)
    → n ≤ count
    → count < u16_mod
    → ltb (n % u16_mod) (count % u16_mod) ≡ false
    → n ≡ count
reached n count le small e = ground arith

module _ (draws : ℕ → Position) (d : Dimensions) (count : ℕ) where
  abbrev Inside : Type 0
  Inside = (i : ℕ) → ((draws i).row < d.extended_rows) × ((draws i).col < d.cols)

  abbrev IsDone : Option (List Position) → Type 0
  IsDone r =
      (cells : List Position) × (r ≡ some cells) × IsSample d count cells × (length cells ≡ count)

  draw_positions-IsDone :
      (fuel i : ℕ) (indices : List Position)
      → Inside
      → count < u16_mod
      → IsSample d count indices
      → count ≤ length (drawn draws fuel i indices)
      → IsDone (draw_positions draws (suc fuel) i count indices)
  unfolding draw_positions drawn
  draw_positions-IsDone zero i indices inside small h enough =
      elim (Bool-cases (ltb (length indices % u16_mod) (count % u16_mod))) [
        | inl going ↦ absurd (
            let short = short_of (length indices) count h.bounded small going in
            omega (arith, short, enough))
        | inr stop ↦ (indices, ground arith, h, reached (length indices) count h.bounded small stop)
      ]
  draw_positions-IsDone (suc fuel) i indices inside small h enough =
      let rest =
        draw_positions draws (suc fuel) (i + 1) count (insert_position (draws i) indices) in
      elim (Bool-cases (ltb (length indices % u16_mod) (count % u16_mod))) [
        | inl going ↦
            let short = short_of (length indices) count h.bounded small going in
            subst (λ b. IsDone (if b then rest else some indices)) (sym going)
              (draw_positions-IsDone fuel (i + 1) (insert_position (draws i) indices) inside small
                (insert_position-IsSample d count (draws i) indices (inside i) short h) enough)
        | inr stop ↦
            subst (λ b. IsDone (if b then rest else some indices)) (sym stop)
              (indices, refl, h, reached (length indices) count h.bounded small stop)
      ]

cells_to_draw-min :
    (d : Dimensions) (cell_count : ℕ) → cells_to_draw d cell_count ≡ min d.extended_size cell_count
unfolding cells_to_draw
cells_to_draw-min d cell_count = ground arith

-- If every draw is within the matrix, and fewer than 2^16 cells are wanted, the loop ends as soon as
-- the draws have given as many different positions as there are cells to draw, the smaller one of the
-- size of the matrix and the count. It returns exactly so many different positions within the matrix.
pub generate_random_cells-IsSample :
    (draws : ℕ → Position) (fuel : ℕ) (d : Dimensions) (cell_count : ℕ)
    → ((i : ℕ) → ((draws i).row < d.extended_rows) × ((draws i).col < d.cols))
    → cells_to_draw d cell_count < u16_mod
    → cells_to_draw d cell_count ≤ length (drawn draws fuel 0 [])
    → (cells : List Position) × (generate_random_cells draws (suc fuel) d cell_count ≡ some cells)
      × IsSample d (min d.extended_size cell_count) cells
      × (length cells ≡ min d.extended_size cell_count)
unfolding generate_random_cells
generate_random_cells-IsSample draws fuel d cell_count inside small enough =
    subst
      (λ n.
        (cells : List Position) × (generate_random_cells draws (suc fuel) d cell_count ≡ some cells)
        × IsSample d n cells
        × (length cells ≡ n))
      (cells_to_draw-min d cell_count)
      (draw_positions-IsDone draws d (cells_to_draw d cell_count) fuel 0 [] inside small
        (record { distinct = tt; within = tt; bounded = omega arith }) enough)

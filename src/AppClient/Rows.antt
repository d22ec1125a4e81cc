-- ===== src/AppClient/Rows.antt =====
-- The rows that are reconstructed from the DHT, and rows that are put at their indexes.
use mathlib.Core.List.{Memᴰ}
use smallgod.Prelude.{
  ℕ, zero, suc, ◌*◌, ◌≡◌, refl, sym, ap, ◌∙◌, subst, ◌⊎◌, inl, inr, Option, some, List, [], ◌∷◌,
  ◌++◌, map, All, filter, length, get_elem?, set, length-set, ltb, ◌==◌, if◌then◌else◌, ok, err,
  ◌>>=◌, >>=-eq-ok, arith, ok_or, Bool-cases, List-cases,
}
use smallgod.Network.{Kate}
use smallgod.AppClient.Cells.{DataCell, chunk_size, flat_data}
use smallgod.AppClient.{
  App, Row, fill_rows, rows_of_cells, reconstructed_cells, fetch_cells, sort_cells, into_data_cell,
  reconstruct_rows_from_dht, wrong_row_size, no_columns,
}

module _ {A : Type 0} where
  get_elem?-set :
      (xs : List (Option A)) (i j : ℕ) (v w : Option A)
      → get_elem? (set xs i v) j ≡ some w
      → ((j ≡ i) × (w ≡ v)) ⊎ (get_elem? xs j ≡ some w)
  get_elem?-set [] i j v w e = inr e
  get_elem?-set (x ∷ xs) zero zero v w e = inl (refl, ground arith)
  get_elem?-set (x ∷ xs) zero (suc j) v w e = inr e
  get_elem?-set (x ∷ xs) (suc i) zero v w e = inr e
  get_elem?-set (x ∷ xs) (suc i) (suc j) v w e = elim (get_elem?-set xs i j v w e) [
    | inl (same, is_v) ↦ inl (ap suc same, is_v)
    | inr old ↦ inr old
  ]

  -- A row of the result is one of the pairs, or was there before.
  pub fill_rows-ok :
      (pairs : List (ℕ × A)) (rows rows' : List (Option A))
      → fill_rows pairs rows ≡ ok rows'
      → (length rows' ≡ length rows)
        × ((j : ℕ) (row : A)
            → get_elem? rows' j ≡ some (some row)
            → Memᴰ (j, row) pairs ⊎ (get_elem? rows j ≡ some (some row)))
  unfolding fill_rows
  fill_rows-ok [] rows rows' e =
      let same : rows ≡ rows' = ground arith in
      (
        ap length (sym same),
        λ j row found. inr (subst (λ x. get_elem? x j ≡ some (some row)) (sym same) found),
      )
  fill_rows-ok ((i, r) ∷ more) rows rows' e = elim (Bool-cases (ltb i (length rows))) [
    | inr outside ↦ absurd (ground arith)
    | inl inside ↦
        let (sized, found) = fill_rows-ok more (set rows i (some r)) rows' (ground arith) in
        (
          sized ∙ length-set rows i (some r),
          λ j row there. elim (found j row there) [
            | inl m ↦ inl (Memᴰ.tail m)
            | inr old ↦ elim (get_elem?-set rows i j (some r) (some row) old) [
              | inr older ↦ inr older
              | inl (same, is_r) ↦
                  let value : row ≡ r = ground arith in inl (Memᴰ.head (λ t. (same t, value t)))
            ]
          ],
        )
  ]

module _ (k : Kate) (a : App k) where
  -- Rows of whole cells, one for each index.
  abbrev pub IsWhole : k.Dimensions → List (ℕ × Row) → Type 0
  IsWhole d rows = All (λ r. length r.1 ≡ a.width d * chunk_size) rows

  rows_of_cells-IsWhole :
      (d : k.Dimensions) (cells : List DataCell) (indexes : List ℕ) (rows : List (ℕ × Row))
      → rows_of_cells k a d cells indexes ≡ ok rows
      → (map (λ r. r.0) rows ≡ indexes) × IsWhole d rows
  unfolding rows_of_cells
  rows_of_cells-IsWhole d cells [] rows e =
      let empty : rows ≡ [] = ground arith in
      (ap (map (λ r. r.0)) empty, subst (IsWhole d) (sym empty) tt)
  rows_of_cells-IsWhole d cells (i ∷ is) rows e =
      let bytes = flat_data (filter (λ c. c.row == i) cells) in
      let (r, sized, e') =
        >>=-eq-ok
          (if length bytes == a.width d * chunk_size then ok (i, bytes) else err wrong_row_size) _
          e in
      let (rs, rest, e'') = >>=-eq-ok (rows_of_cells k a d cells is) _ e' in
      let (named, whole) = rows_of_cells-IsWhole d cells is rs rest in
      let split : rows ≡ r ∷ rs = ground arith in
      elim (Bool-cases (length bytes == a.width d * chunk_size)) [
        | inr wrong ↦ absurd (ground arith)
        | inl right ↦
            let is_r : r ≡ (i, bytes) = ground arith in
            let size_r : length r.1 ≡ a.width d * chunk_size =
              ap (λ x. length x.1) is_r ∙ ground arith in
            (
              ap (map (λ x. x.0)) split
                  ∙ ap (λ x. x ∷ map (λ y. y.0) rs) (ap (λ x. x.0) is_r)
                  ∙ ap (λ x. i ∷ x) named,
              subst (IsWhole d) (sym split) (size_r, whole),
            )
      ]

  -- If the reconstruction succeeds, its rows are whole, and there is none, because no cell was
  -- missing, or one for each missing row, in their order.
  pub reconstruct_rows_from_dht-IsWhole :
      (n : ℕ) (d : k.Dimensions) (commitments : List k.Commitment) (missing : List ℕ)
      (rows : List (ℕ × Row))
      → reconstruct_rows_from_dht k a n d commitments missing ≡ ok rows
      → IsWhole d rows
        × (((rows ≡ []) × (a.extended_rows_positions d missing ≡ []))
            ⊎ (map (λ r. r.0) rows ≡ missing))
  unfolding reconstruct_rows_from_dht
  reconstruct_rows_from_dht-IsWhole n d commitments missing rows e =
      elim (List-cases (a.extended_rows_positions d missing)) [
        | inl complete ↦
            let empty : rows ≡ [] = ground arith in
            (subst (IsWhole d) (sym empty) tt, inl (empty, complete))
        | inr (p, ps, some_cells) ↦
            let e1 : (fetch_cells k a n d commitments (p ∷ ps) >>= λ first.
            fetch_cells k a n d commitments (a.columns_positions d first.1) >>= λ second.
            ok_or no_columns (a.reconstruct_columns d second.0) >>= λ columns.
            reconstructed_cells k a columns first.1 >>= λ cells.
            rows_of_cells k a d (sort_cells (map (into_data_cell k a) first.0 ++ cells)) missing)
                ≡ ok rows =
              ground arith in
            let (first, _, e2) = >>=-eq-ok (fetch_cells k a n d commitments (p ∷ ps)) _ e1 in
            let (second, _, e3) =
              >>=-eq-ok (fetch_cells k a n d commitments (a.columns_positions d first.1)) _ e2 in
            let (columns, _, e4) =
              >>=-eq-ok (ok_or no_columns (a.reconstruct_columns d second.0)) _ e3 in
            let (cells, _, e5) = >>=-eq-ok (reconstructed_cells k a columns first.1) _ e4 in
            let (named, whole) =
              rows_of_cells-IsWhole d (sort_cells (map (into_data_cell k a) first.0 ++ cells))
                missing rows e5 in
            (whole, inr named)
      ]

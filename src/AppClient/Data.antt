-- ===== src/AppClient/Data.antt =====
-- What the data that `process_block` stores is made of.
use mathlib.Core.List.{Memᴰ}
use smallgod.Prelude.{
  ℕ, ◌+◌, ◌*◌, ◌≤◌, ◌≡◌, ap, ◌∙◌, ◌⊎◌, inl, inr, true, Option, none, some, List, [], ◌∷◌, ◌++◌,
  length, get_elem?, ltb, Result, ok, err, panic, ◌>>=◌, >>=-eq-ok, arith, ok_or, ok_or-eq-ok,
  Bool-cases, Option-cases, Result-cases,
}
use smallgod.Network.{Kate}
use smallgod.AppClient.Cells.{DataCell, CellError, data_cells_from_rows}
use smallgod.AppClient.{
  App, Row, is_member, Extension, Block, fill_rows, reconstruct_rows_from_dht, not_decoded,
}
use smallgod.AppClient.Process.{
  Verified, lift_cells, verified_rows, merged, app_data, Stored, process_block,
}
use smallgod.AppClient.Rows.{IsWhole, reconstruct_rows_from_dht-IsWhole, fill_rows-ok}
use smallgod.AppClient.Merge.{get_elem?-merge_rows}

lift_cells-ok :
    (r : Result CellError (List DataCell)) (cells : List DataCell)
    → lift_cells r ≡ ok cells
    → r ≡ ok cells
lift_cells-ok (ok cs) cells h = cc
lift_cells-ok (err x) cells h = cc
lift_cells-ok panic cells h = cc

module _ (k : Kate) (a : App k) where
  -- Where a row comes from: it was reconstructed, or its index is verified, and it is the row of
  -- the DHT, or that of the node if the DHT has none.
  abbrev pub IsFrom : Verified k a → List (ℕ × Row) → ℕ → Row → Type 0
  IsFrom v reconstructed i row =
      Memᴰ (i, row) reconstructed
      ⊎ ((is_member i (v.dht_verified ++ v.rpc_verified) ≡ true)
          × ((get_elem? v.dht_rows i ≡ some (some row))
              ⊎ ((get_elem? v.dht_rows i ≡ some none)
                  × (get_elem? v.rpc_rows i ≡ some (some row)))))

  at_index :
      (verified : List ℕ) {P : Type 0} (i : ℕ)
      → (is_member (0 + i) verified ≡ true) × P
      → (is_member i verified ≡ true) × P
  at_index verified i (m, p) = (ground arith, p)

  -- The data of a block are decoded from such rows, of which not too many cells were missing.
  pub record IsDecoded (n : ℕ) (e : Extension k a) (v : Verified k a) (found : a.AppData)
      : Type 0 where
    pub rows : List (Option Row)
    pub reconstructed : List (ℕ × Row)
    pub cells : List DataCell
    pub few_missing : length v.missing * a.width e.dimensions ≤ a.threshold
    pub rebuilt :
        reconstruct_rows_from_dht k a n e.dimensions e.commitments v.missing ≡ ok reconstructed
    pub whole : IsWhole k a e.dimensions reconstructed
    pub from :
        (i : ℕ) (row : Row) → get_elem? rows i ≡ some (some row) → IsFrom v reconstructed i row
    pub parsed : data_cells_from_rows rows ≡ ok cells
    pub decoded : a.decode_app_extrinsics e.lookup e.dimensions cells ≡ some found

  app_data-IsDecoded :
      (n : ℕ) (e : Extension k a) (v : Verified k a) (x : a.AppData)
      → app_data k a n e v ≡ ok x
      → IsDecoded n e v x
  unfolding app_data
  app_data-IsDecoded n e v x h =
      elim (Bool-cases (ltb a.threshold (length v.missing * a.width e.dimensions))) [
        | inl many ↦ absurd (ground arith)
        | inr few ↦
            let h1 : (reconstruct_rows_from_dht k a n e.dimensions e.commitments v.missing
                  >>= λ reconstructed. fill_rows reconstructed (merged k a e v) >>= λ rows.
                      lift_cells (data_cells_from_rows rows) >>= λ cells.
                      ok_or not_decoded (a.decode_app_extrinsics e.lookup e.dimensions cells))
                ≡ ok x =
              ground arith in
            let (reconstructed, made, h2) =
              >>=-eq-ok (reconstruct_rows_from_dht k a n e.dimensions e.commitments v.missing) _
                h1 in
            let (rows, filled, h3) = >>=-eq-ok (fill_rows reconstructed (merged k a e v)) _ h2 in
            let (cells, parsed, h4) = >>=-eq-ok (lift_cells (data_cells_from_rows rows)) _ h3 in
            let (whole, _) =
              reconstruct_rows_from_dht-IsWhole k a n e.dimensions e.commitments v.missing
                reconstructed made in
            let (_, placed) = fill_rows-ok reconstructed (merged k a e v) rows filled in
            record {
              rows = rows;
              reconstructed = reconstructed;
              cells = cells;
              few_missing = ground arith;
              rebuilt = made;
              whole = whole;
              from = λ i row there. elim (placed i row there) [
                | inl m ↦ inl m
                | inr old ↦ inr (
                    at_index (v.dht_verified ++ v.rpc_verified) i (
                      get_elem?-merge_rows (v.dht_verified ++ v.rpc_verified) 0
                        (a.extended_rows e.dimensions) i v.dht_rows v.rpc_rows row old))
              ];
              parsed = lift_cells-ok (data_cells_from_rows rows) cells parsed;
              decoded =
                  ok_or-eq-ok not_decoded (a.decode_app_extrinsics e.lookup e.dimensions cells) h4;
            }
      ]

  -- If `process_block` succeeds, the block has an extension, its rows were fetched, and the data are
  -- decoded from rows each of which is one that `reconstruct_rows_from_dht` gave for the missing rows
  -- of this block, as a whole row, or stands at a verified index and is the row of the DHT, or that of
  -- the node where the DHT has none; the cells of the missing rows are no more than the threshold; and
  -- the data are what it stores for the block, and nothing else.
  pub process_block-IsDecoded :
      (b : Block k a) (stored stored' : Stored k a) (x : a.AppData)
      → process_block k a b stored ≡ (stored', ok x)
      → (e : Extension k a) × (v : Verified k a) × (b.extension ≡ some e)
        × (verified_rows k a b.block_num e ≡ ok v)
        × IsDecoded b.block_num e v x
        × (stored' ≡ stored ++ (b.block_num, x) ∷ [])
  unfolding process_block
  process_block-IsDecoded b stored stored' x h = elim (Option-cases b.extension) [
    | inl missing ↦ absurd (ground arith)
    | inr (e, given) ↦
        elim (Result-cases (verified_rows k a b.block_num e >>= app_data k a b.block_num e)) [
          | inr (inl (why, failed)) ↦ absurd (ground arith)
          | inr (inr panicked) ↦ absurd (ground arith)
          | inl (y, made) ↦ elim (Bool-cases (a.stores stored (b.block_num, y))) [
            | inr refused ↦ absurd (ground arith)
            | inl accepted ↦
                let same : y ≡ x = ground arith in
                let (v, fetched, h') = >>=-eq-ok (verified_rows k a b.block_num e) _ made in
                (
                  e,
                  v,
                  given,
                  fetched,
                  app_data-IsDecoded b.block_num e v x (h' ∙ ap ok same),
                  ground arith,
                )
          ]
        ]
  ]

-- ===== src/LightClient/Sampled.antt =====
-- What a confidence of the light client stands for.
use mathlib.Core.List.{Memᴰ}
use smallgod.Prelude.{
  ℕ, ◌%◌, ◌^◌, ◌≡◌, ◌≤◌, refl, sym, subst, true, some, List, [], ◌∷◌, leb, length, map, ok, arith,
  Option-cases, Bool-cases, Result-cases, inl, inr,
}
use smallgod.Network.{Kate, Cell, Fetched, fetch_verified}
use smallgod.Network.Distinct.{IsDistinct, covers, length-le, mem-map}
use smallgod.Network.Verified.{IsComplete, IsChecked, positions_of}
use smallgod.Network.Fetch.{fetch_verified-IsFetched}
use smallgod.LightClient.{
  LightClient, block_header, verified_cell_count, Store, Accepts, achieved, add, skip_block,
  store_confidence, sample_block, process_block,
}

length-map : {A B : Type 0} (f : A → B) (xs : List A) → length (map f xs) ≡ length xs
length-map f [] = refl
length-map f (x ∷ xs) = omega (arith, length-map f xs)

module _ (k : Kate) (c : LightClient k) where
  -- For the random positions of a block there is a fetched cell each, which was checked against the
  -- commitment of its row.
  abbrev pub IsSampled : k.Dimensions → List k.Commitment → Type 0
  IsSampled d commitments =
      (p : k.Position)
      → Memᴰ p (c.random_cells d)
      → (cell : Cell k) × (cell.position ≡ p) × IsChecked k d commitments true cell

  -- As many verified cells as there are positions are cells of all positions.
  pub fetched-IsSampled :
      (n : ℕ) (d : k.Dimensions) (commitments : List k.Commitment) (f : Fetched k)
      → IsComplete k (c.network n)
      → IsDistinct (c.random_cells d)
      → fetch_verified k (c.network n) c.disable_rpc d commitments (c.random_cells d) ≡ ok f
      → length (c.random_cells d) ≤ length f.fetched
      → IsSampled d commitments × (length f.fetched ≡ length (c.random_cells d))
  fetched-IsSampled n d commitments f complete distinct fetched enough =
      let all =
        fetch_verified-IsFetched k (c.network n) d commitments c.disable_rpc (c.random_cells d) f
          complete distinct fetched in
      let sizes = length-map (λ cell. cell.position) f.fetched in
      let no_more : length (positions_of k f.fetched) ≤ length (c.random_cells d) =
        length-le (positions_of k f.fetched) (c.random_cells d) all.cells_distinct all.cells_in in
      (
        λ p m.
            let mp =
              covers (positions_of k f.fetched) (c.random_cells d) all.cells_distinct all.cells_in
                (omega arith) p m in
            let (cell, mc, named) = mem-map (λ cell. cell.position) f.fetched p mp in
            (cell, sym named, all.checked cell mc),
        omega (arith, sizes, no_more, enough),
      )

module _ (k : Kate) (c : LightClient k) (accepts : Accepts k c) where
  -- The count is stored, the block is set as achieved, the header is stored, and the confidence is that
  -- of the count.
  abbrev pub StoresCount : c.Header → ℕ → Store k c → Store k c → c.Confidence → Type 0
  StoresCount h verified s t x =
      (t
        ≡ add k c (block_header (c.number h) h) (
            achieved k c (c.number h)
              (add k c (verified_cell_count (c.number h) (verified % 2 ^ 32)) s)))
      × (x ≡ c.calculate_confidence (verified % 2 ^ 32))

  store_confidence-some :
      (h : c.Header) (verified : ℕ) (s t : Store k c) (x : c.Confidence)
      → store_confidence k c accepts h verified s ≡ (t, ok (some x))
      → StoresCount h verified s t x
  unfolding store_confidence
  store_confidence-some h verified s t x e = (ground arith, ground arith)

  sample_block-IsSampled :
      (h : c.Header) (d : k.Dimensions) (commitments : List k.Commitment) (s t : Store k c)
      (x : c.Confidence)
      → IsComplete k (c.network (c.number h))
      → IsDistinct (c.random_cells d)
      → sample_block k c accepts h d commitments s ≡ (t, ok (some x))
      → IsSampled k c d commitments
        × (store_confidence k c accepts h (length (c.random_cells d)) s ≡ (t, ok (some x)))
  unfolding sample_block
  sample_block-IsSampled h d commitments s t x complete distinct e =
      elim (Result-cases (
        fetch_verified k (c.network (c.number h)) c.disable_rpc d commitments (c.random_cells d))) [
          | inr (inl (why, failed)) ↦ absurd (ground arith)
          | inr (inr panicked) ↦ absurd (ground arith)
          | inl (f, fetched) ↦
              let enough : length (c.random_cells d) ≤ length f.fetched = ground arith in
              let (sampled, count) =
                fetched-IsSampled k c (c.number h) d commitments f complete distinct fetched
                  enough in
              let stored : store_confidence k c accepts h (length f.fetched) s ≡ (t, ok (some x)) =
                ground arith in
              (
                sampled,
                subst (λ v. store_confidence k c accepts h v s ≡ (t, ok (some x))) count stored,
              )
        ]

  -- If the verifications complete in any order, each once, and the random positions are different
  -- ones: `process_block` gives a confidence only for a block with an extension, dimensions of more
  -- than two columns and commitments, if for every random position a cell was fetched and checked
  -- against the commitment of its row; it then has set the block in the range of achieved
  -- confidence, and stored the number of the random positions, as a u32, and the header, and the
  -- confidence is the one of that number.
  pub process_block-IsSampled :
      (h : c.Header) (s t : Store k c) (x : c.Confidence)
      → IsComplete k (c.network (c.number h))
      → ((d : k.Dimensions) → IsDistinct (c.random_cells d))
      → process_block k c accepts h s ≡ (t, ok (some x))
      → (extension : c.Extension) × (d : k.Dimensions) × (commitments : List k.Commitment)
        × (c.extract_kate h ≡ some extension)
        × (c.dimensions extension ≡ some d)
        × (c.commitments extension ≡ some commitments)
        × (3 ≤ c.cols d)
        × IsSampled k c d commitments
        × StoresCount h (length (c.random_cells d)) s t x
  unfolding process_block skip_block
  process_block-IsSampled h s t x complete distinct e = elim (Option-cases (c.extract_kate h)) [
    | inl no_extension ↦ absurd (ground arith)
    | inr (extension, given) ↦ elim (Option-cases (c.dimensions extension)) [
      | inl invalid ↦ absurd (ground arith)
      | inr (d, valid) ↦ elim (Bool-cases (leb (c.cols d) 2)) [
        | inl narrow ↦ absurd (ground arith)
        | inr wide ↦ elim (Option-cases (c.commitments extension)) [
          | inl malformed ↦ absurd (ground arith)
          | inr (commitments, parsed) ↦
              let (sampled, stored) =
                sample_block-IsSampled h d commitments s t x complete (distinct d) (ground arith) in
              (
                extension,
                d,
                commitments,
                given,
                valid,
                parsed,
                ground arith,
                sampled,
                store_confidence-some h (length (c.random_cells d)) s t x stored,
              )
        ]
      ]
    ]
  ]

-- ===== src/CrawlClient/Rates.antt =====
-- What a crawl measures, and in which mode.
use smallgod.Prelude.{
  ℕ, zero, suc, ◌+◌, ◌≤◌, ◌≡◌, refl, ap, sym, ◌∙◌, Option, none, some, List, [], ◌∷◌, ◌++◌, All,
  All-append, length, arith,
}
use smallgod.CrawlClient.{
  CrawlMode, rows, cells, both, every_second, range, count_some, Crawler, Effect, fetched_cells,
  fetched_rows, cells_success_rate, rows_success_rate, crawl_cells, crawl_rows, cells_or_both,
  crawl_block, run,
}

length-range : (i n : ℕ) → length (range i n) ≡ n
unfolding range
length-range i zero = refl
length-range i (suc n) = ap suc (length-range (i + 1) n)

count_some-le {ℓ} : {A : Type ℓ} (xs : List (Option A)) → count_some xs ≤ length xs
unfolding count_some
count_some-le [] = omega arith
count_some-le (none ∷ xs) = omega (arith, count_some-le xs)
count_some-le (some x ∷ xs) = omega (arith, count_some-le xs)

-- The number of every second element depends on the length only.
length-every_second {ℓ κ} :
    {A : Type ℓ} {B : Type κ} (xs : List A) (ys : List B)
    → length xs ≡ length ys
    → length (every_second xs) ≡ length (every_second ys)
unfolding every_second
length-every_second [] [] e = refl
length-every_second (x ∷ []) (y ∷ []) e = refl
length-every_second (x ∷ x' ∷ xs) (y ∷ y' ∷ ys) e =
    ap suc (length-every_second xs ys (omega (arith, e)))
length-every_second [] (y ∷ ys) e = absurd (omega (arith, e))
length-every_second (x ∷ xs) [] e = absurd (omega (arith, e))
length-every_second (x ∷ []) (y ∷ y' ∷ ys) e = absurd (omega (arith, e))
length-every_second (x ∷ x' ∷ xs) (y ∷ []) e = absurd (omega (arith, e))

module _ (c : Crawler) where
  -- What the p2p client returns: at most one cell for each position, and one entry for each row of
  -- the extended matrix.
  pub record IsFetching : Type 0 where
    pub at_most :
        (n : ℕ) (positions : List c.Position)
        → length (c.fetch_cells_from_dht n positions) ≤ length positions
    pub one_each :
        (n : ℕ) (d : c.Dimensions) (indexes : List ℕ)
        → length (c.fetch_rows_from_dht n d indexes) ≡ c.extended_rows d

  -- A rate is at most one.
  pub IsRate : Effect c → Type 0
  IsRate (fetched_cells n positions) = Unit
  IsRate (fetched_rows n indexes) = Unit
  IsRate (cells_success_rate found total) = found ≤ total
  IsRate (rows_success_rate found total) = found ≤ total

  module _ (fetching : IsFetching) where
    crawl_rows-IsRate : (n : ℕ) (d : c.Dimensions) → All IsRate (crawl_rows c n d)
    unfolding crawl_rows IsRate
    crawl_rows-IsRate n d =
        let indexes = every_second (range 0 (c.extended_rows d)) in
        let answer = c.fetch_rows_from_dht n d indexes in
        let same =
          length-every_second answer (range 0 (c.extended_rows d))
            (fetching.one_each n d indexes ∙ sym (length-range 0 (c.extended_rows d))) in
        (tt, (omega (arith, count_some-le (every_second answer), same), tt))

    crawl_block-IsRate :
        (mode : CrawlMode) (block : Option (ℕ × Option c.Dimensions))
        → All IsRate (crawl_block c mode block)
    unfolding crawl_block cells_or_both crawl_cells IsRate
    crawl_block-IsRate mode none = tt
    crawl_block-IsRate mode (some (n, none)) = tt
    crawl_block-IsRate rows (some (n, some d)) = tt
    crawl_block-IsRate cells (some (n, some d)) =
        (tt, (fetching.at_most n (c.partition_positions d), crawl_rows-IsRate n d))
    crawl_block-IsRate both (some (n, some d)) =
        (tt, (fetching.at_most n (c.partition_positions d), crawl_rows-IsRate n d))

    -- If the DHT returns at most the cells that are asked for, and an entry for each row of the extended
    -- matrix, no success rate that is measured is above one.
    pub run-IsRate : (mode : CrawlMode) (headers : List c.Header) → All IsRate (run c mode headers)
    unfolding run
    run-IsRate mode [] = tt
    run-IsRate mode (header ∷ headers) =
        All-append IsRate (crawl_block c mode (c.block_verified header)) (run c mode headers)
          (crawl_block-IsRate mode (c.block_verified header)) (run-IsRate mode headers)

  -- The blocks whose cells, and whose rows, are fetched.
  pub cells_of : List (Effect c) → List ℕ
  cells_of [] = []
  cells_of (fetched_cells n positions ∷ es) = n ∷ cells_of es
  cells_of (fetched_rows n indexes ∷ es) = cells_of es
  cells_of (cells_success_rate found total ∷ es) = cells_of es
  cells_of (rows_success_rate found total ∷ es) = cells_of es

  pub rows_of : List (Effect c) → List ℕ
  rows_of [] = []
  rows_of (fetched_rows n indexes ∷ es) = n ∷ rows_of es
  rows_of (fetched_cells n positions ∷ es) = rows_of es
  rows_of (cells_success_rate found total ∷ es) = rows_of es
  rows_of (rows_success_rate found total ∷ es) = rows_of es

  -- The blocks of the valid headers that have an extension.
  number_of : Option (ℕ × Option c.Dimensions) → List ℕ
  number_of (some (n, some d)) = n ∷ []
  number_of (some (n, none)) = []
  number_of none = []

  pub with_extension : List c.Header → List ℕ
  unfolding number_of
  with_extension [] = []
  with_extension (header ∷ headers) = number_of (c.block_verified header) ++ with_extension headers

  crawl_block-modes :
      (block : Option (ℕ × Option c.Dimensions))
      → (crawl_block c rows block ≡ []) × (crawl_block c both block ≡ crawl_block c cells block)
  unfolding crawl_block cells_or_both
  crawl_block-modes none = (refl, refl)
  crawl_block-modes (some (n, none)) = (refl, refl)
  crawl_block-modes (some (n, some d)) = (refl, refl)

  crawl_block-fetched :
      (block : Option (ℕ × Option c.Dimensions)) (es : List (Effect c))
      → (cells_of (crawl_block c cells block ++ es) ≡ number_of block ++ cells_of es)
        × (rows_of (crawl_block c cells block ++ es) ≡ number_of block ++ rows_of es)
  unfolding crawl_block cells_or_both crawl_cells crawl_rows cells_of rows_of number_of
  crawl_block-fetched none es = (refl, refl)
  crawl_block-fetched (some (n, none)) es = (refl, refl)
  crawl_block-fetched (some (n, some d)) es = (refl, refl)

  -- In the mode for rows nothing is fetched. In the mode for cells the cells are fetched of every block
  -- whose header is valid and has an extension, in the order of the headers, and the rows are fetched
  -- of exactly these blocks too; and the mode for both does the same as the mode for cells.
  pub run-modes :
      (headers : List c.Header)
      → (run c rows headers ≡ [])
        × (cells_of (run c cells headers) ≡ with_extension headers)
        × (rows_of (run c cells headers) ≡ with_extension headers)
        × (run c both headers ≡ run c cells headers)
  unfolding run with_extension cells_of rows_of
  run-modes [] = (refl, refl, refl, refl)
  run-modes (header ∷ headers) =
      let block = c.block_verified header in
      let (nothing, same) = crawl_block-modes block in
      let (of_cells, of_rows) = crawl_block-fetched block (run c cells headers) in
      let (nothing', of_cells', of_rows', same') = run-modes headers in
      (
        rw (nothing, nothing') refl,
        of_cells ∙ ap (λ ns. number_of block ++ ns) of_cells',
        of_rows ∙ ap (λ ns. number_of block ++ ns) of_rows',
        rw (same, same') refl,
      )

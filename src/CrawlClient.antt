-- ===== src/CrawlClient.antt =====
-- src/crawl_client.rs: `run`, which fetches the cells and the rows of each block from the DHT to measure
-- how many of them are found.
mod Rates
mod Tests
use smallgod.Prelude.{
  ℕ, zero, suc, ◌+◌, Bool, true, false, Option, none, some, List, [], ◌∷◌, ◌++◌, length,
  if◌then◌else◌,
}

pub data CrawlMode : Type 0 where
  rows cells both : CrawlMode

-- `step_by(2)`
pub every_second {ℓ} : {A : Type ℓ} → List A → List A
every_second [] = []
every_second (x ∷ []) = x ∷ []
every_second (x ∷ y ∷ xs) = x ∷ every_second xs

-- `i..i + n`
pub range : ℕ → ℕ → List ℕ
range i zero = []
range i (suc n) = i ∷ range (i + 1) n

-- `flatten().count()`
pub count_some {ℓ} : {A : Type ℓ} → List (Option A) → ℕ
count_some [] = 0
count_some (none ∷ xs) = count_some xs
count_some (some x ∷ xs) = suc (count_some xs)

-- `BlockVerified::try_from` of a header, which is `none` where it fails, with the dimensions of the
-- extension; the positions of the configured partition; and the fetches of the p2p client.
pub record Crawler : Type 1 where
  pub Header : Type 0
  pub Dimensions : Type 0
  pub Position : Type 0
  pub Content : Type 0
  pub block_verified : Header → Option (ℕ × Option Dimensions)
  pub partition_positions : Dimensions → List Position
  pub extended_rows : Dimensions → ℕ
  pub fetch_cells_from_dht : ℕ → List Position → List Content
  pub fetch_rows_from_dht : ℕ → Dimensions → List ℕ → List (Option Content)

module _ (c : Crawler) where
  -- What is fetched, and the success rate, as the count that was found of the total.
  pub data Effect : Type 0 where
    fetched_cells : ℕ → List c.Position → Effect
    fetched_rows : ℕ → List ℕ → Effect
    cells_success_rate rows_success_rate : ℕ → ℕ → Effect

  pub crawl_cells : ℕ → c.Dimensions → List Effect
  crawl_cells n d =
      let positions = c.partition_positions d in
      fetched_cells n positions
      ∷ cells_success_rate (length (c.fetch_cells_from_dht n positions)) (length positions)
      ∷ []

  pub crawl_rows : ℕ → c.Dimensions → List Effect
  unfolding every_second range count_some
  crawl_rows n d =
      let indexes = every_second (range 0 (c.extended_rows d)) in
      fetched_rows n indexes
      ∷ rows_success_rate (count_some (every_second (c.fetch_rows_from_dht n d indexes)))
          (length indexes)
      ∷ []

  -- `matches!(mode, CrawlMode::Cells | CrawlMode::Both)`, the condition of both parts
  pub cells_or_both : CrawlMode → Bool
  cells_or_both rows = false
  cells_or_both cells = true
  cells_or_both both = true

  -- A header that is not valid, or has no extension, is skipped.
  pub crawl_block : CrawlMode → Option (ℕ × Option c.Dimensions) → List Effect
  unfolding cells_or_both crawl_cells crawl_rows
  crawl_block mode none = []
  crawl_block mode (some (n, none)) = []
  crawl_block mode (some (n, some d)) =
      (if cells_or_both mode then crawl_cells n d else [])
      ++ (if cells_or_both mode then crawl_rows n d else [])

  -- The loop, on the headers that are received
  pub run : CrawlMode → List c.Header → List Effect
  unfolding crawl_block
  run mode [] = []
  run mode (header ∷ headers) = crawl_block mode (c.block_verified header) ++ run mode headers

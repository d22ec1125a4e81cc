-- ===== src/CrawlClient/Tests.antt =====
-- A matrix of four extended rows; the DHT has the first cell of a partition of two, and row 2.
use smallgod.Prelude.{ℕ, ◌≤◌, ◌≡◌, refl, none, some, List, [], ◌∷◌, arith, length}
use smallgod.CrawlClient.{
  rows, cells, both, every_second, range, count_some, Crawler, fetched_cells, fetched_rows,
  cells_success_rate, rows_success_rate, crawl_cells, crawl_rows, cells_or_both, crawl_block, run,
}
use smallgod.CrawlClient.Rates.{IsFetching, cells_of, rows_of, with_extension, run-modes}

abbrev first_only : List ℕ → List ℕ
first_only [] = []
first_only (p ∷ ps) = p ∷ []

abbrev crawler : Crawler
crawler = record {
  Header = ℕ;
  Dimensions = Unit;
  Position = ℕ;
  Content = ℕ;
  block_verified = λ n. some (n, some tt);
  partition_positions = λ d. 10 ∷ 11 ∷ [];
  extended_rows = λ d. 4;
  fetch_cells_from_dht = λ n positions. first_only positions;
  fetch_rows_from_dht = λ n d indexes. none ∷ none ∷ some 7 ∷ none ∷ [];
}

first_only-le : (ps : List ℕ) → length (first_only ps) ≤ length ps
first_only-le [] = omega arith
first_only-le (p ∷ ps) = omega arith

fetching : IsFetching crawler
fetching = record {
  at_most = λ n positions. first_only-le positions;
  one_each = λ n d indexes. refl;
}

crawl_cells_mode :
    run crawler cells (5 ∷ [])
    ≡ fetched_cells 5 (10 ∷ 11 ∷ [])
      ∷ cells_success_rate 1 2
      ∷ fetched_rows 5 (0 ∷ 2 ∷ [])
      ∷ rows_success_rate 1 2
      ∷ []
unfolding run crawl_block cells_or_both crawl_cells crawl_rows every_second range count_some
crawl_cells_mode = refl

run-modes_example :
    (run crawler rows (5 ∷ 6 ∷ []) ≡ [])
    × (cells_of crawler (run crawler cells (5 ∷ 6 ∷ [])) ≡ with_extension crawler (5 ∷ 6 ∷ []))
    × (rows_of crawler (run crawler cells (5 ∷ 6 ∷ [])) ≡ with_extension crawler (5 ∷ 6 ∷ []))
    × (run crawler both (5 ∷ 6 ∷ []) ≡ run crawler cells (5 ∷ 6 ∷ []))
run-modes_example = run-modes crawler (5 ∷ 6 ∷ [])

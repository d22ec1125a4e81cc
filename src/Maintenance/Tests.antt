-- ===== src/Maintenance/Tests.antt =====
-- Pruning at every second block and flushing at every third one.
use smallgod.Prelude.{◌≡◌, refl, true, [], ◌∷◌, arith, not, ◌==◌}
use smallgod.Maintenance.{
  Maintenance, flushed, shrunk, shutdown_triggered, block, run, handle, after_block, process_block,
  prune, at_multiples, try_effect, and_then,
}
use smallgod.Maintenance.Run.{blocks, count, is_pruned, is_flushed, is_shutdown, run-prunes}

abbrev maintenance : Maintenance
maintenance = record {
  pruning_interval = 2;
  telemetry_flush_interval = 3;
  is_memory_store = true;
  shrinks = λ n. not (n == 9);
  has_map_size = λ n. true;
  counts = λ n. true;
  lists_peers = λ n. true;
}

-- The map cannot be shrunk for block 9: the metrics are flushed, and the shutdown is triggered.
run_fails : run maintenance (block 9 ∷ block 10 ∷ []) ≡ flushed ∷ shrunk ∷ shutdown_triggered ∷ []
unfolding run handle after_block process_block prune at_multiples try_effect and_then
run_fails = refl

run-prunes_example :
    (count is_pruned (run maintenance (blocks maintenance (4 ∷ 5 ∷ 6 ∷ []))) ≡ 2)
    × (count is_flushed (run maintenance (blocks maintenance (4 ∷ 5 ∷ 6 ∷ []))) ≡ 1)
    × (count is_shutdown (run maintenance (blocks maintenance (4 ∷ 5 ∷ 6 ∷ []))) ≡ 0)
run-prunes_example = run-prunes maintenance refl (omega arith) (omega arith) (4 ∷ 5 ∷ 6 ∷ []) (
  record { shrinks = refl; has_map_size = refl; counts = refl; lists_peers = refl },
  (
    record { shrinks = refl; has_map_size = refl; counts = refl; lists_peers = refl },
    (record { shrinks = refl; has_map_size = refl; counts = refl; lists_peers = refl }, tt),
  ),
)

-- ===== src/Maintenance.antt =====
-- src/maintenance.rs: what is done for each verified block, and the loop that ends with the first error.
mod Run
mod Tests
use smallgod.Prelude.{
  ℕ, ◌%◌, Bool, true, false, List, [], ◌∷◌, ◌++◌, ◌==◌, if◌then◌else◌, Result, ok, err, panic,
}

-- What is done, and sent to the p2p client.
pub data Effect : Type 0 where
  pruned flushed shrunk map_size_read entries_counted peers_listed metrics_recorded : Effect
  shutdown_triggered : Effect

pub data MaintenanceError : Type 0 where
  not_shrunk no_map_size no_count no_peers no_block : MaintenanceError

-- The configuration; whether the store is the one in memory; and which calls of the p2p client
-- succeed for a block. The results of pruning and flushing are only logged.
pub record Maintenance : Type 0 where
  pub pruning_interval : ℕ
  pub telemetry_flush_interval : ℕ
  pub is_memory_store : Bool
  pub shrinks : ℕ → Bool
  pub has_map_size : ℕ → Bool
  pub counts : ℕ → Bool
  pub lists_peers : ℕ → Bool

abbrev pub Done : Type 0
Done = List Effect × Result MaintenanceError (Unit {0})

-- The rest of the function.
pub and_then : Done → Done → Done
and_then (effects, panic) rest = (effects, panic)
and_then (effects, err why) rest = (effects, err why)
and_then (effects, ok u) rest = (effects ++ rest.0, rest.1)

-- An action at every block whose number is a multiple: the remainder by zero panics.
pub at_multiples : ℕ → Effect → ℕ → Done
at_multiples interval effect n =
    if interval == 0
    then ([], panic)
    else if n % interval == 0
    then (effect ∷ [], ok tt)
    else ([], ok tt)

pub try_effect : Bool → Effect → MaintenanceError → Done
try_effect true effect why = (effect ∷ [], ok tt)
try_effect false effect why = (effect ∷ [], err why)

module _ (m : Maintenance) where
  pub prune : ℕ → Done
  unfolding at_multiples
  prune n = if m.is_memory_store then at_multiples m.pruning_interval pruned n else ([], ok tt)

  pub process_block : ℕ → Done
  unfolding and_then at_multiples try_effect prune
  process_block n = and_then (prune n) (
      and_then (at_multiples m.telemetry_flush_interval flushed n) (
        and_then (try_effect (m.shrinks n) shrunk not_shrunk) (
          and_then (try_effect (m.has_map_size n) map_size_read no_map_size) (
            and_then (try_effect (m.counts n) entries_counted no_count) (
              and_then (try_effect (m.lists_peers n) peers_listed no_peers)
                (metrics_recorded ∷ [], ok tt))))))

  -- What is received: a block, or an error of the channel.
  pub data Received : Type 0 where
    block : ℕ → Received
    receive_failed : Received

  pub handle : Received → Done
  unfolding process_block
  handle (block n) = process_block n
  handle receive_failed = ([], err no_block)

  pub after_block : Done → List Effect → List Effect
  after_block (effects, panic) rest = effects
  after_block (effects, err why) rest = effects ++ shutdown_triggered ∷ []
  after_block (effects, ok u) rest = effects ++ rest

  -- `run`; a panic ends the task.
  pub run : List Received → List Effect
  unfolding handle after_block
  run [] = []
  run (x ∷ xs) = after_block (handle x) (run xs)

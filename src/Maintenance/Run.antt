-- ===== src/Maintenance/Run.antt =====
-- How often the maintenance prunes and flushes, and when it triggers the shutdown.
use smallgod.Prelude.{
  ℕ, ◌+◌, ◌%◌, ◌<◌, ◌≡◌, refl, ap, Bool, true, false, List, [], ◌∷◌, ◌++◌, All, ◌==◌, if◌then◌else◌,
  ok, arith,
}
use smallgod.Maintenance.{
  Effect, pruned, flushed, shrunk, map_size_read, entries_counted, peers_listed, metrics_recorded,
  shutdown_triggered, Maintenance, and_then, at_multiples, try_effect, prune, process_block,
  Received, block, handle, after_block, run,
}

-- How often an effect stands in a list, by a test.
abbrev pub count : (Effect → Bool) → List Effect → ℕ
count p [] = 0
count p (e ∷ es) = if p e then count p es + 1 else count p es

pub is_pruned : Effect → Bool
is_pruned pruned = true
is_pruned _ = false

pub is_flushed : Effect → Bool
is_flushed flushed = true
is_flushed _ = false

pub is_shutdown : Effect → Bool
is_shutdown shutdown_triggered = true
is_shutdown _ = false

-- How many of the numbers are multiples.
abbrev pub multiples : ℕ → List ℕ → ℕ
multiples interval [] = 0
multiples interval (n ∷ ns) =
    if n % interval == 0 then multiples interval ns + 1 else multiples interval ns

count-append :
    (p : Effect → Bool) (xs ys : List Effect) → count p (xs ++ ys) ≡ count p xs + count p ys
count-append p [] ys = omega arith
count-append p (x ∷ xs) ys = ground (arith, count-append p xs ys)

at_multiples-ok :
    (interval : ℕ) (effect : Effect) (n : ℕ)
    → 0 < interval
    → at_multiples interval effect n ≡ ((if n % interval == 0 then effect ∷ [] else []), ok tt)
unfolding at_multiples
at_multiples-ok interval effect n positive = ground arith

module _ (m : Maintenance) where
  -- Blocks that are received, and no errors of the channel
  abbrev pub blocks : List ℕ → List (Received m)
  blocks [] = []
  blocks (n ∷ ns) = block n ∷ blocks ns

  -- All calls of the p2p client succeed for the block.
  pub record Succeeds (n : ℕ) : Type 0 where
    pub shrinks : m.shrinks n ≡ true
    pub has_map_size : m.has_map_size n ≡ true
    pub counts : m.counts n ≡ true
    pub lists_peers : m.lists_peers n ≡ true

  module _ (memory : m.is_memory_store ≡ true) (prunes : 0 < m.pruning_interval)
      (flushes : 0 < m.telemetry_flush_interval) where
    abbrev maintained : ℕ → List Effect
    maintained n =
        (if n % m.pruning_interval == 0 then pruned ∷ [] else [])
        ++ ((if n % m.telemetry_flush_interval == 0 then flushed ∷ [] else [])
            ++ shrunk ∷ map_size_read ∷ entries_counted ∷ peers_listed ∷ metrics_recorded ∷ [])

    process_block-ok : (n : ℕ) → Succeeds n → process_block m n ≡ (maintained n, ok tt)
    unfolding process_block prune and_then try_effect
    process_block-ok n h =
        rw
          (
            memory,
            at_multiples-ok m.pruning_interval pruned n prunes,
            at_multiples-ok m.telemetry_flush_interval flushed n flushes,
            h.shrinks,
            h.has_map_size,
            h.counts,
            h.lists_peers,
          )
          refl

    count-maintained :
        (n : ℕ)
        → (count is_pruned (maintained n) ≡ (if n % m.pruning_interval == 0 then 1 else 0))
          × (count is_flushed (maintained n)
              ≡ (if n % m.telemetry_flush_interval == 0 then 1 else 0))
          × (count is_shutdown (maintained n) ≡ 0)
    unfolding is_pruned is_flushed is_shutdown
    count-maintained n = (ground arith, ground arith, ground arith)

    run-maintained :
        (n : ℕ) (ns : List ℕ)
        → Succeeds n
        → run m (blocks (n ∷ ns)) ≡ maintained n ++ run m (blocks ns)
    unfolding run handle after_block
    run-maintained n ns h =
        ap (λ done. after_block m done (run m (blocks ns))) (process_block-ok n h)

    -- If the store is the one in memory, the intervals are not zero, and the calls of the p2p client
    -- succeed for all blocks that are received, the store is pruned and the metrics are flushed exactly
    -- as often as there are multiples of the intervals among the blocks, and no shutdown is triggered.
    pub run-prunes :
        (ns : List ℕ)
        → All Succeeds ns
        → (count is_pruned (run m (blocks ns)) ≡ multiples m.pruning_interval ns)
          × (count is_flushed (run m (blocks ns)) ≡ multiples m.telemetry_flush_interval ns)
          × (count is_shutdown (run m (blocks ns)) ≡ 0)
    unfolding run
    run-prunes [] h = (refl, refl, refl)
    run-prunes (n ∷ ns) (h, hs) =
        let rest = run m (blocks ns) in
        let (p, f, s) = count-maintained n in
        let (ps, fs, ss) = run-prunes ns hs in
        rw
          (
            run-maintained n ns h,
            count-append is_pruned (maintained n) rest,
            count-append is_flushed (maintained n) rest,
            count-append is_shutdown (maintained n) rest,
            p,
            f,
            s,
            ps,
            fs,
            ss,
          )
          (ground arith, ground arith, omega arith)

-- ===== src/EventLoop/Loop.antt =====
-- The loop keeps the counts of the blocks.
use smallgod.Prelude.{
  ℕ, ◌+◌, ◌<◌, ◌≡◌, refl, ap, ◌∙◌, subst, Bool, Option, none, some, List, [], ◌∷◌, arith,
  ℕ_discrete, if_elim,
}
use smallgod.Prelude.Maps.{get}
use smallgod.Prelude.Text.{Bytes}
use smallgod.EventLoop.{Libp2p, bootstrap, BlockStat, EventLoop, usize_modulus}
use smallgod.EventLoop.Pending.{Laws}
use smallgod.EventLoop.Counted.{BlockCounted, pending_puts, Counted-start}
use smallgod.EventLoop.Events.{bootstrapped, handle_event, handle_periodic_bootstraps}
use smallgod.EventLoop.Handlers.{handle_event-IsCounted}
use smallgod.EventLoop.Kept.{IsCounted, IsCounted-le, call-IsCounted}
use smallgod.EventLoop.Commands.{
  run_command, handle_command, Input, event, command, bootstrap_tick, end, disconnect_all,
  disconnect_peers, new, run,
}
use smallgod.EventLoop.Accepted.{IsFaithful, puts, puts_by, run_command-Keeps, finish-Keeps}

module _ (n : Libp2p) (laws : Laws n) where
  disconnect_all-IsCounted :
      (bound : ℕ) (peers : List n.PeerId) (l : EventLoop n)
      → IsCounted n laws bound l
      → IsCounted n laws bound (disconnect_all n peers l)
  unfolding disconnect_all
  disconnect_all-IsCounted bound [] l c = c
  disconnect_all-IsCounted bound (peer ∷ peers) l c =
      disconnect_all-IsCounted bound peers _ (call-IsCounted n laws bound _ l c)

  bootstrapped-IsCounted :
      (bound : ℕ) (o : Option (n.QueryId × n.Swarm)) (l : EventLoop n)
      → n.start bootstrap l.swarm ≡ o
      → IsCounted n laws bound l
      → IsCounted n laws bound (bootstrapped n o l)
  unfolding bootstrapped IsCounted
  bootstrapped-IsCounted bound none l e c = c
  bootstrapped-IsCounted bound (some (id, s')) l e c = Counted-start n laws bootstrap e c

  tick-IsCounted :
      (bound : ℕ) (l : EventLoop n)
      → IsCounted n laws bound l
      → IsCounted n laws bound (handle_periodic_bootstraps n l)
  unfolding handle_periodic_bootstraps
  tick-IsCounted bound l c =
      if_elim (IsCounted n laws bound) l.is_startup_done (bootstrapped-IsCounted bound _ l refl c) c

  run-IsCounted :
      (bound : ℕ) (inputs : List (Input n)) (l : EventLoop n)
      → bound + puts n laws inputs < usize_modulus
      → IsFaithful n laws inputs l
      → IsCounted n laws bound l
      → (l' : EventLoop n) × (run n inputs l ≡ some l')
        × IsCounted n laws (bound + puts n laws inputs) l'
  unfolding run handle_command
  run-IsCounted bound [] l small f c =
      (l, refl, IsCounted-le n laws bound (bound + 0) l (omega arith) c)
  run-IsCounted bound (event r e ∷ inputs) l small (a, f) c =
      run-IsCounted bound inputs (handle_event n r e l) small f
        (handle_event-IsCounted n laws bound r e l (omega arith) a c)
  run-IsCounted bound (command cmd ∷ inputs) l small (a, f) c =
      let next = bound + puts_by n laws cmd in
      let more = IsCounted-le n laws bound next l (omega arith) c in
      let keeps = run_command-Keeps n laws bound next cmd l (omega arith) (omega arith) a c more in
      let (l1, done, c1) = finish-Keeps n laws next cmd (run_command n cmd l) keeps in
      let f1 = subst (λ o. elim o [ none ↦ Unit | some l' ↦ IsFaithful n laws inputs l' ]) done f in
      let (l2, rest, c2) = run-IsCounted next inputs l1 (omega arith) f1 c1 in
      (
        l2,
        ap (λ o. elim o [ none ↦ none | some l' ↦ run n inputs l' ]) done ∙ rest,
        subst (λ b. IsCounted n laws b l2) (omega arith) c2,
      )
  run-IsCounted bound (bootstrap_tick ∷ inputs) l small f c =
      run-IsCounted bound inputs (handle_periodic_bootstraps n l) small f (tick-IsCounted bound l c)
  run-IsCounted bound (end ∷ inputs) l small f c = (
    disconnect_peers n l,
    refl,
    IsCounted-le n laws bound (bound + puts n laws inputs) _ (omega arith)
        (disconnect_all-IsCounted bound (n.connected_peers l.swarm) l c),
  )

  IsCounted-new :
      (random_peer : n.PeerId) (swarm : n.Swarm) (relays : List (n.PeerId × n.Multiaddr))
      (protocol : Bytes) (is_fat_client : Bool) (ttl : ℕ)
      → IsCounted n laws 0 (new n random_peer swarm relays protocol is_fat_client ttl)
  unfolding IsCounted new get
  IsCounted-new random_peer swarm relays protocol is_fat_client ttl = record {
    is_map = tt;
    is_issued = λ id ch h. cc;
    is_counted = λ b. refl;
  }

  -- The counts of a block of which `pending` operations are pending: `total_count` is the sum of the
  -- other three, and those that remain are the pending ones. A block that is not monitored has none.
  abbrev pub MatchesPending : ℕ → Option BlockStat → Type 0
  MatchesPending pending none = pending ≡ 0
  MatchesPending pending (some s) =
      (s.total_count ≡ s.remaining_counter + s.success_counter + s.error_counter)
      × (s.remaining_counter ≡ pending)

  BlockCounted-MatchesPending :
      (bound pending : ℕ) (o : Option BlockStat)
      → BlockCounted bound 0 pending o
      → MatchesPending pending o
  BlockCounted-MatchesPending bound pending none h = omega arith
  BlockCounted-MatchesPending bound pending (some s) (sum, left, le) = (sum, omega arith)

  -- From a new event loop on, if the local store accepts the records that the run puts, which are fewer
  -- than 2^64, each in the command of the block that its key names, and libp2p gives every query an id
  -- that no query had before and answers it as the query it is, then the loop handles all inputs and, of every block
  -- that it monitors, `total_count` is the sum of the other three counters, and `remaining_counter`
  -- is the number of PUT operations of the block that are pending; of other blocks none is pending.
  pub run-MatchesPending :
      (random_peer : n.PeerId) (swarm : n.Swarm) (relays : List (n.PeerId × n.Multiaddr))
      (protocol : Bytes) (is_fat_client : Bool) (ttl : ℕ) (inputs : List (Input n))
      → puts n laws inputs < usize_modulus
      → IsFaithful n laws inputs (new n random_peer swarm relays protocol is_fat_client ttl)
      → (l : EventLoop n) × (run n inputs
            (new n random_peer swarm relays protocol is_fat_client ttl)
          ≡ some l)
        × ((b : ℕ)
            → MatchesPending
                (pending_puts n laws b l.swarm l.pending_kad_queries)
                (get ℕ_discrete b l.active_blocks))
  unfolding IsCounted
  run-MatchesPending random_peer swarm relays protocol is_fat_client ttl inputs small f =
      let start = IsCounted-new random_peer swarm relays protocol is_fat_client ttl in
      let (l, returns, c) = run-IsCounted 0 inputs _ (omega arith) f start in
      (
        l,
        returns,
        λ b. BlockCounted-MatchesPending _ _ (get ℕ_discrete b l.active_blocks) (c.is_counted b),
      )

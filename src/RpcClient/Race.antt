-- ===== src/RpcClient/Race.antt =====
-- The end of `with_retries` where several calls run at a time on clones of one client: the connection
-- is written under its own lock, and the node of the state under another, so that the writes of two
-- calls interleave.
use mathlib.Core.List.{Memᴰ}
use smallgod.Prelude.{ℕ, zero, suc, ◌≡◌, refl, List, [], ◌∷◌, All, ok}
use smallgod.RpcClient.{Node, Rpc, returned}
use smallgod.RpcClient.Retry.{Client, switch_node}

module _ (rpc : Rpc) where
  abbrev Pair : Type 0
  Pair = rpc.Connection × Node

  -- What a call has left to write.
  pub data Update : Type 0 where
    write_both : rpc.Connection → Node → Update
    write_node : Node → Update
    written : Update

  pub advance : Update → Client rpc → Update × Client rpc
  advance (write_both client node) s = (write_node node, record s { subxt_client = client })
  advance (write_node node) s = (written, record s { connected_node = node })
  advance written s = (written, s)

  -- The call at an index goes on.
  advance_at : ℕ → List Update → Client rpc → List Update × Client rpc
  unfolding advance
  advance_at i [] s = ([], s)
  advance_at zero (u ∷ us) s = ((advance u s).0 ∷ us, (advance u s).1)
  advance_at (suc i) (u ∷ us) s = (u ∷ (advance_at i us s).0, (advance_at i us s).1)

  pub run_schedule : List ℕ → List Update → Client rpc → List Update × Client rpc
  unfolding advance_at
  run_schedule [] us s = (us, s)
  run_schedule (i ∷ schedule) us s =
      run_schedule schedule (advance_at i us s).0 (advance_at i us s).1

  -- The connection is that of one of the pairs, and the node that of one of them, maybe another.
  pub record IsOfPairs (pairs : List Pair) (s : Client rpc) : Type 0 where
    connection_of : (p : Pair) × Memᴰ p pairs × (p.0 ≡ s.subxt_client)
    node_of : (p : Pair) × Memᴰ p pairs × (p.1 ≡ s.connected_node)

  unfoldable IsPending : List Pair → Update → Type 0
  IsPending pairs (write_both client node) = Memᴰ (client, node) pairs
  IsPending pairs (write_node node) = (client : rpc.Connection) × Memᴰ (client, node) pairs
  IsPending pairs written = Unit

  advance-IsPending :
      (pairs : List Pair) (u : Update) (s : Client rpc)
      → IsPending pairs u
      → IsOfPairs pairs s
      → IsPending pairs (advance u s).0 × IsOfPairs pairs (advance u s).1
  unfolding advance IsPending
  advance-IsPending pairs (write_both client node) s h given =
      ((client, h), record { connection_of = ((client, node), h, refl); node_of = given.node_of })
  advance-IsPending pairs (write_node node) s (client, h) given =
      (tt, record { connection_of = given.connection_of; node_of = ((client, node), h, refl) })
  advance-IsPending pairs written s h given = (tt, given)

  advance_at-IsPending :
      (pairs : List Pair) (i : ℕ) (us : List Update) (s : Client rpc)
      → All (IsPending pairs) us
      → IsOfPairs pairs s
      → All (IsPending pairs) (advance_at i us s).0 × IsOfPairs pairs (advance_at i us s).1
  unfolding advance_at
  advance_at-IsPending pairs i [] s h given = (tt, given)
  advance_at-IsPending pairs zero (u ∷ us) s (h, hs) given =
      let (h', given') = advance-IsPending pairs u s h given in ((h', hs), given')
  advance_at-IsPending pairs (suc i) (u ∷ us) s (h, hs) given =
      let (hs', given') = advance_at-IsPending pairs i us s hs given in ((h, hs'), given')

  run_schedule-IsOfPairs :
      (pairs : List Pair) (schedule : List ℕ) (us : List Update) (s : Client rpc)
      → All (IsPending pairs) us
      → IsOfPairs pairs s
      → IsOfPairs pairs (run_schedule schedule us s).1
  unfolding run_schedule
  run_schedule-IsOfPairs pairs [] us s h given = given
  run_schedule-IsOfPairs pairs (i ∷ schedule) us s h given =
      let (h', given') = advance_at-IsPending pairs i us s h given in
      run_schedule-IsOfPairs pairs schedule _ _ h' given'

  -- The writes of one call alone are what `with_retries` does to the client.
  switch_node-run_schedule :
      {A : Type 0} (s : Client rpc) (client : rpc.Connection) (node : Node) (a : A) (w : rpc.World)
      → (switch_node rpc s (returned (ok (client, node, a)), w)).1
        ≡ (run_schedule (0 ∷ 0 ∷ []) (write_both client node ∷ []) s).1
  unfolding switch_node run_schedule advance_at advance
  switch_node-run_schedule s client node a w = refl

  -- Two calls that switch the node at the same time: in every interleaving the connection and the
  -- node are each the old one or one of the two new ones, but there is an interleaving behind which,
  -- with both calls done, the connection is that of the second and the node is that of the first.
  pub concurrent_switches :
      (s : Client rpc) (c d : rpc.Connection) (m n : Node)
      → ((schedule : List ℕ)
          → IsOfPairs
              ((s.subxt_client, s.connected_node) ∷ (c, m) ∷ (d, n) ∷ [])
              (run_schedule schedule (write_both c m ∷ write_both d n ∷ []) s).1)
        × ((schedule : List ℕ) × (run_schedule schedule (write_both c m ∷ write_both d n ∷ []) s
              ≡ (written ∷ written ∷ [], record s { subxt_client = d; connected_node = m })))
  unfolding run_schedule advance_at advance IsPending
  concurrent_switches s c d m n = (
    λ schedule.
        run_schedule-IsOfPairs _ schedule _ s
          (Memᴰ.tail (Memᴰ.head refl), (Memᴰ.tail (Memᴰ.tail (Memᴰ.head refl)), tt))
          (record {
            connection_of = ((s.subxt_client, s.connected_node), Memᴰ.head refl, refl);
            node_of = ((s.subxt_client, s.connected_node), Memᴰ.head refl, refl);
          }),
    (0 ∷ 1 ∷ 1 ∷ 0 ∷ [], refl),
  )

-- ===== src/RpcClient/Retries.antt =====
-- `with_retries` and `Client::new`: what a call returns, and when the client changes its node.
use mathlib.Core.List.{Memᴰ}
use smallgod.Prelude.{
  ◌<◌, ◌≡◌, ◌≢◌, refl, sym, ap, ◌∙◌, ite, subst, ◌⊎◌, inl, inr, List, [], ◌∷◌, Result, ok, err,
  panic, length, leb, if◌then◌else◌, arith, Bool-cases,
}
use smallgod.Prelude.Text.{Bytes}
use smallgod.RpcClient.{
  Node, RpcError, Rpc, Ended, halted, returned, Action, expected_system_version, bytes_discrete,
  other_hosts, shuffle, try_connect_and_execute,
}
use smallgod.RpcClient.Retry.{
  Client, switch_node, retry_elsewhere, after_current, with_retries, connect_any, client_of,
  new_client,
}
use smallgod.RpcClient.Connect.{IsServing, try_connect_and_execute-IsRun}

module _ (rpc : Rpc) where
  -- What the code relies on: a shuffled list has no other nodes, and what a `Retry` ends with is the
  -- result of an attempt.
  pub record IsLibrary : Type 1 where
    pub kept :
        (ns : List Node) (w : rpc.World) (n : Node) → Memᴰ n (rpc.shuffled ns w).0 → Memᴰ n ns
    pub attempted :
        {A : Type 0} (action : Action rpc A) (w : rpc.World) (r : Result RpcError A)
        → (rpc.retried action w).0 ≡ returned r
        → (w1 : rpc.World) × ((action w1).0 ≡ r)

  -- The client's connection serves the node that the state names, which is one of the configured.
  pub record IsConnected (s : Client rpc) : Type 0 where
    pub serving :
        IsServing rpc expected_system_version s.expected_genesis_hash s.subxt_client
          s.connected_node
    pub configured : (n : Node) × Memᴰ n s.nodes × (s.connected_node.host ≡ n.host)

  -- The host is not the current one, unless there is a single node.
  abbrev IsElsewhere : List Node → Bytes → Bytes → Type 0
  IsElsewhere nodes current host = (length nodes < 2) ⊎ (host ≢ current)

  -- The attempts ended without a result, and by a shutdown or a panic.
  unfoldable pub IsNotOk : {A : Type 0} → Ended A → Type 0
  IsNotOk (returned (ok a)) = ⊥
  IsNotOk _ = Unit

  unfoldable pub IsStopped : {A : Type 0} → Ended A → Type 0
  IsStopped (halted why) = Unit
  IsStopped (returned panic) = Unit
  IsStopped _ = ⊥

  -- What a call comes to, by how the attempts on the current connection end and how those on the
  -- other nodes would: a result of the current connection; a result of a connection to another host,
  -- which becomes the current one; or no result, where the attempts on the current connection gave
  -- none and were stopped, or those on the other nodes gave none. Then the client stays as it is.
  module _ {A : Type 0} (f : rpc.Connection → Action rpc A) where
    -- The attempts on the other nodes
    abbrev pub ended_elsewhere : Client rpc → rpc.World → Ended (rpc.Connection × Node × A)
    ended_elsewhere s w =
        let (order, w1) = shuffle rpc s.nodes s.connected_node.host w in
        (rpc.retried
          (try_connect_and_execute rpc expected_system_version s.expected_genesis_hash f order)
          w1).0

    pub data IsAnswered (s : Client rpc) (here : Ended A)
        (other : Ended (rpc.Connection × Node × A)) : Result RpcError A → Client rpc → Type 0 where
      stayed :
          (w : rpc.World) {a : A} → (f s.subxt_client w).0 ≡ ok a → IsAnswered s here other (ok a) s
      switched :
          (w : rpc.World) {a : A} {client : rpc.Connection} {node : Node}
          → IsConnected (record s { subxt_client = client; connected_node = node })
          → IsElsewhere s.nodes s.connected_node.host node.host
          → (f client w).0 ≡ ok a
          → IsAnswered s here other
              (ok a)
              (record s { subxt_client = client; connected_node = node })
      failed_with :
          (why : RpcError)
          → IsNotOk here
          → IsStopped here ⊎ IsNotOk other
          → IsAnswered s here other (err why) s
      panicked : IsNotOk here → IsStopped here ⊎ IsNotOk other → IsAnswered s here other panic s

  kept_if :
      (host : Bytes) (x n : Node) (rest : List Node) (d : Dec (x.host ≡ host))
      → Memᴰ n (ite d rest (x ∷ rest))
      → Memᴰ n rest ⊎ ((n ≡ x) × (x.host ≢ host))
  kept_if host x n rest (yes same) m = inl m
  kept_if host x n rest (no apart) (Memᴰ.head same) = inr (same, apart)
  kept_if host x n rest (no apart) (Memᴰ.tail m) = inl m

  other_hosts-mem :
      (host : Bytes) (ns : List Node) (n : Node)
      → Memᴰ n (other_hosts rpc host ns)
      → Memᴰ n ns × (n.host ≢ host)
  unfolding other_hosts
  other_hosts-mem host [] n m = elim m [ ]
  other_hosts-mem host (x ∷ ns) n m = elim (kept_if host x n _ (bytes_discrete x.host host) m) [
    | inl later ↦ let (found, apart) = other_hosts-mem host ns n later in (Memᴰ.tail found, apart)
    | inr (same, apart) ↦ (Memᴰ.head same, λ e. apart (ap (λ y. y.host) (sym same) ∙ e))
  ]

  module _ (library : IsLibrary) where
    shuffle-mem :
        (nodes : List Node) (current : Bytes) (w : rpc.World) (n : Node)
        → Memᴰ n (shuffle rpc nodes current w).0
        → Memᴰ n nodes × IsElsewhere nodes current n.host
    unfolding shuffle
    shuffle-mem nodes current w n m =
        let order = rpc.shuffled (other_hosts rpc current nodes) w in
        elim (Bool-cases (leb (length nodes) 1)) [
          | inl single ↦ (
            subst (Memᴰ n) (ap (λ b. (if b then (nodes, w) else order).0) single) m,
            inl (ground arith),
          )
          | inr several ↦
              let m' = subst (Memᴰ n) (ap (λ b. (if b then (nodes, w) else order).0) several) m in
              let (found, apart) = other_hosts-mem current nodes n (library.kept _ w n m') in
              (found, inr apart)
        ]

    module _ {A : Type 0} (f : rpc.Connection → Action rpc A) (s : Client rpc) where
      abbrev attempt : List Node → Action rpc (rpc.Connection × Node × A)
      attempt = try_connect_and_execute rpc expected_system_version s.expected_genesis_hash f

      switch_node-IsAnswered :
          (here : Ended A) (order : List Node) (ended : Ended (rpc.Connection × Node × A))
          (w : rpc.World)
          → IsNotOk here
          → ((n : Node)
              → Memᴰ n order
              → Memᴰ n s.nodes × IsElsewhere s.nodes s.connected_node.host n.host)
          → ((r : Result RpcError (rpc.Connection × Node × A))
              → ended ≡ returned r
              → (w1 : rpc.World) × ((attempt order w1).0 ≡ r))
          → IsAnswered f s here ended
              (switch_node rpc s (ended, w)).0
              (switch_node rpc s (ended, w)).1
      unfolding switch_node IsNotOk
      switch_node-IsAnswered here order (halted why) w failed others ran =
          failed_with _ failed (inr tt)
      switch_node-IsAnswered here order (returned panic) w failed others ran =
          panicked failed (inr tt)
      switch_node-IsAnswered here order (returned (err why)) w failed others ran =
          failed_with why failed (inr tt)
      switch_node-IsAnswered here order (returned (ok (client, node, a))) w failed others ran =
          let (w1, e) = ran _ refl in
          let (serving, (n, found, same), w2, run) =
            try_connect_and_execute-IsRun rpc expected_system_version s.expected_genesis_hash f
              order w1 e in
          let (listed, elsewhere) = others n found in
          switched w2 (record { serving = serving; configured = (n, listed, same) })
            (subst (IsElsewhere s.nodes s.connected_node.host) (sym same) elsewhere) run

      after_current-IsAnswered :
          (ended : Ended A) (w : rpc.World)
          → ((r : Result RpcError A)
              → ended ≡ returned r
              → (w1 : rpc.World) × ((f s.subxt_client w1).0 ≡ r))
          → IsAnswered f s ended
              (ended_elsewhere f s w)
              (after_current rpc s f (ended, w)).0
              (after_current rpc s f (ended, w)).1
      unfolding after_current retry_elsewhere IsNotOk IsStopped
      after_current-IsAnswered (halted why) w ran = failed_with _ tt (inl tt)
      after_current-IsAnswered (returned panic) w ran = panicked tt (inl tt)
      after_current-IsAnswered (returned (ok a)) w ran =
          let (w1, e) = ran (ok a) refl in stayed w1 e
      after_current-IsAnswered (returned (err why)) w ran =
          let (order, w1) = shuffle rpc s.nodes s.connected_node.host w in
          let ended = rpc.retried (attempt order) w1 in
          switch_node-IsAnswered (returned (err why)) order ended.0 ended.1 tt
            (shuffle-mem s.nodes s.connected_node.host w) (library.attempted (attempt order) w1)

      -- A call through `with_retries` returns what the function returns on the client's connection, as
      -- it is behind the call: the one before, or one to another of the configured nodes, checked, that
      -- has another host unless there is a single node. There is no result only where the attempts on
      -- the current connection gave none, and were stopped by a shutdown or a panic or those on the
      -- other nodes gave none either; the client is then as before.
      pub with_retries-IsAnswered :
          (w : rpc.World)
          → IsAnswered f s
              (rpc.retried (f s.subxt_client) w).0
              (ended_elsewhere f s (rpc.retried (f s.subxt_client) w).1)
              (with_retries rpc s f w).0
              (with_retries rpc s f w).1
      unfolding with_retries
      with_retries-IsAnswered w =
          let ended = rpc.retried (f s.subxt_client) w in
          after_current-IsAnswered ended.0 ended.1 (library.attempted (f s.subxt_client) w)

    IsAnswered-IsConnected :
        {A : Type 0} (f : rpc.Connection → Action rpc A) (s s' : Client rpc) (r : Result RpcError A)
        {here : Ended A} {other : Ended (rpc.Connection × Node × A)}
        → IsAnswered f s here other r s'
        → IsConnected s
        → IsConnected s'
    IsAnswered-IsConnected f s s' r (stayed w ran) h = h
    IsAnswered-IsConnected f s s' r (switched w h' elsewhere ran) h = h'
    IsAnswered-IsConnected f s s' r (failed_with why here_failed others_failed) h = h
    IsAnswered-IsConnected f s s' r (panicked here_failed others_failed) h = h

    -- `with_retries` keeps the client connected to the node that the state names.
    pub with_retries-IsConnected :
        {A : Type 0} (f : rpc.Connection → Action rpc A) (s : Client rpc) (w : rpc.World)
        → IsConnected s
        → IsConnected (with_retries rpc s f w).1
    with_retries-IsConnected f s w h =
        IsAnswered-IsConnected f s _ _ (with_retries-IsAnswered f s w) h

    client_of-IsConnected :
        (nodes : List Node) (configured : Bytes) (ended : Ended (rpc.Connection × Node × Unit {0}))
        {s : Client rpc}
        → ((r : Result RpcError (rpc.Connection × Node × Unit {0}))
            → ended ≡ returned r
            → (w : rpc.World) × ((connect_any rpc nodes configured w).0 ≡ r))
        → client_of rpc nodes configured ended ≡ ok s
        → IsConnected s
    unfolding client_of connect_any
    client_of-IsConnected nodes configured (halted why) ran e = cc
    client_of-IsConnected nodes configured (returned panic) ran e = cc
    client_of-IsConnected nodes configured (returned (err why)) ran e = cc
    client_of-IsConnected nodes configured (returned (ok (client, node, u))) {s} ran e =
        let (w, made) = ran _ refl in
        let (order, w1) = shuffle rpc nodes [] w in
        let (serving, (n, found, same), w2, run) =
          try_connect_and_execute-IsRun rpc expected_system_version configured (λ _ w2. (ok tt, w2))
            order w1 made in
        let s0 : Client rpc = record {
          subxt_client = client;
          connected_node = node;
          nodes = nodes;
          expected_genesis_hash = configured;
        } in
        let shape : s0 ≡ s = cc in
        subst IsConnected shape
          (record { serving = serving; configured = (n, (shuffle-mem nodes [] w n found).0, same) })

    -- A client that `Client::new` returns is connected to the node that the state names.
    pub new_client-IsConnected :
        (nodes : List Node) (configured : Bytes) (w : rpc.World) {s : Client rpc}
        → (new_client rpc nodes configured w).0 ≡ ok s
        → IsConnected s
    unfolding new_client
    new_client-IsConnected nodes configured w e =
        client_of-IsConnected nodes configured (rpc.retried (connect_any rpc nodes configured) w).0
          (library.attempted (connect_any rpc nodes configured) w) e

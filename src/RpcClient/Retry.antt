-- ===== src/RpcClient/Retry.antt =====
-- `with_retries` and `Client::new` of src/network/rpc/client.rs: the client, and its change of node.
use smallgod.Prelude.{List, [], Result, ok, err, panic}
use smallgod.Prelude.Text.{Bytes}
use smallgod.RpcClient.{
  Node, RpcError, halted_by_shutdown, Rpc, Ended, halted, returned, Action, expected_system_version,
  shuffle, try_connect_and_execute, methods,
}

module _ (rpc : Rpc) where
  -- `Client`, with the `connected_node` of the shared state.
  pub record Client : Type 0 where
    pub subxt_client : rpc.Connection
    pub connected_node : Node
    pub nodes : List Node
    pub expected_genesis_hash : Bytes

  -- A call: what it returns, and the client behind it.
  abbrev pub Outcome : Type 0 → Type 0
  Outcome A = Result RpcError A × Client × rpc.World

  module _ {A : Type 0} (s : Client) where
    -- The second half of `with_retries`: the client changes with a result only.
    unfoldable pub switch_node : Ended (rpc.Connection × Node × A) × rpc.World → Outcome A
    switch_node (halted why, w) = (err (halted_by_shutdown why), s, w)
    switch_node (returned panic, w) = (panic, s, w)
    switch_node (returned (err why), w) = (err why, s, w)
    switch_node (returned (ok (client, node, a)), w) =
        (ok a, record s { subxt_client = client; connected_node = node }, w)

    unfoldable pub retry_elsewhere : (rpc.Connection → Action rpc A) → rpc.World → Outcome A
    unfolding shuffle switch_node try_connect_and_execute
    retry_elsewhere f w =
        let (nodes, w1) = shuffle rpc s.nodes s.connected_node.host w in
        switch_node (
          rpc.retried
            (try_connect_and_execute rpc expected_system_version s.expected_genesis_hash f nodes)
            w1)

    unfoldable pub after_current : (rpc.Connection → Action rpc A) → Ended A × rpc.World → Outcome A
    unfolding retry_elsewhere
    after_current f (halted why, w) = (err (halted_by_shutdown why), s, w)
    after_current f (returned panic, w) = (panic, s, w)
    after_current f (returned (ok a), w) = (ok a, s, w)
    after_current f (returned (err why), w) = retry_elsewhere f w

    unfoldable pub with_retries : (rpc.Connection → Action rpc A) → rpc.World → Outcome A
    unfolding after_current
    with_retries f w = after_current f (rpc.retried (f s.subxt_client) w)

  -- `Client::new`, which connects to any node, in an order that each attempt draws again. An empty
  -- host is left out.
  unfoldable pub connect_any : List Node → Bytes → Action rpc (rpc.Connection × Node × Unit {0})
  unfolding shuffle try_connect_and_execute
  connect_any nodes configured w =
      let (order, w1) = shuffle rpc nodes [] w in
      try_connect_and_execute rpc expected_system_version configured (λ _ w2. (ok tt, w2)) order w1

  unfoldable pub client_of :
      List Node → Bytes → Ended (rpc.Connection × Node × Unit {0}) → Result RpcError Client
  client_of nodes configured (halted why) = err (halted_by_shutdown why)
  client_of nodes configured (returned panic) = panic
  client_of nodes configured (returned (err why)) = err why
  client_of nodes configured (returned (ok (client, node, _))) = ok (record {
    subxt_client = client;
    connected_node = node;
    nodes = nodes;
    expected_genesis_hash = configured;
  })

  unfoldable pub new_client : List Node → Bytes → rpc.World → Result RpcError Client × rpc.World
  unfolding connect_any client_of
  new_client nodes configured w =
      let (ended, w1) = rpc.retried (connect_any nodes configured) w in
      (client_of nodes configured ended, w1)

-- What runs at concrete inputs unfolds.
unfoldable pub retry_methods : Unit {0}
unfolding methods switch_node retry_elsewhere after_current with_retries connect_any client_of
    new_client
retry_methods = tt

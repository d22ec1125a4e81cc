-- ===== src/EventLoop/Commands.antt =====
-- src/network/p2p/client.rs: the commands that change the state of the event loop, the insertion of
-- cells and rows that sends one; and src/network/p2p/event_loop.rs, `handle_command` and `run`.
use smallgod.Prelude.{
  ℕ, Bool, false, Option, none, some, List, [], ◌∷◌, map, length, ℕ_discrete, if◌then◌else◌, Result,
  ok, err, panic,
}
use smallgod.Prelude.Maps.{get, insert}
use smallgod.Prelude.Text.{Bytes}
use smallgod.EventLoop.{
  Libp2p, DhtRecord, Query, QueryChannel, get_channel, put_channel, bootstrap_channel, EventLoop,
  BlockStat, increase_block_stat_counters, reply_error, reply_ok, call, output, put_record,
  get_record, bootstrap, listen_on, dial, add_address, disconnect_peer,
}
use smallgod.EventLoop.Events.{Event, Random, handle_event, handle_periodic_bootstraps}

module _ (n : Libp2p) where
  pub data Command : Type 0 where
    start_listening : n.Multiaddr → ℕ → Command
    add_peer_address : n.PeerId → n.Multiaddr → Command
    bootstrap_peers : ℕ → Command
    get_kad_record : Bytes → ℕ → Command
    put_kad_record : List DhtRecord → ℕ → Command
    dial_peer : n.PeerId → List n.Multiaddr → ℕ → Command

  -- `insert_query`
  unfoldable pub insert_query : n.QueryId → QueryChannel → n.Swarm → EventLoop n → EventLoop n
  insert_query id ch swarm l = record l {
    swarm = swarm;
    pending_kad_queries = insert n.QueryId_discrete id ch l.pending_kad_queries;
  }

  -- `insert_swarm_event`
  unfoldable pub insert_swarm_event : n.PeerId → ℕ → EventLoop n → EventLoop n
  insert_swarm_event peer ch l = record l {
    pending_swarm_events = insert n.PeerId_discrete peer ch l.pending_swarm_events;
  }

  -- The counts of a block to which PUT operations are added.
  unfoldable pub added : ℕ → Option BlockStat → BlockStat
  unfolding increase_block_stat_counters
  added count (some s) = increase_block_stat_counters count s
  added count none = record {
    total_count = count;
    remaining_counter = count;
    success_counter = 0;
    error_counter = 0;
    time_stat = 0;
  }

  unfoldable pub add_block : ℕ → ℕ → EventLoop n → EventLoop n
  unfolding added
  add_block block_num count l = record l {
    active_blocks =
        insert ℕ_discrete block_num (added count (get ℕ_discrete block_num l.active_blocks))
          l.active_blocks;
  }

  -- The loop of `PutKadRecord`, whose `expect` panics where the store takes no record.
  unfoldable pub put_all : List DhtRecord → EventLoop n → Option (EventLoop n)
  unfolding insert_query
  put_all [] l = some l
  put_all (r ∷ rs) l = elim (n.start (put_record r) l.swarm) [
    | none ↦ none
    | some (id, swarm) ↦ put_all rs (insert_query id put_channel swarm l)
  ]

  -- A query whose answer goes to a sender.
  unfoldable pub started :
      QueryChannel → EventLoop n → Option (n.QueryId × n.Swarm) → Result (EventLoop n) (EventLoop n)
  unfolding insert_query
  started ch l none = err l
  started ch l (some (id, swarm)) = ok (insert_query id ch swarm l)

  unfoldable pub start_query :
      Query → QueryChannel → EventLoop n → Result (EventLoop n) (EventLoop n)
  unfolding started
  start_query q ch l = started ch l (n.start q l.swarm)

  unfoldable pub or_panic : Option (EventLoop n) → Result (EventLoop n) (EventLoop n)
  or_panic none = panic
  or_panic (some l) = ok l

  -- `Command::run`: the state after it, also where it is an error.
  unfoldable pub run_command : Command → EventLoop n → Result (EventLoop n) (EventLoop n)
  unfolding call output start_query insert_swarm_event add_block put_all or_panic
  run_command (start_listening a ch) l =
      let l' = call n (listen_on a) l in
      if (n.act (listen_on a) l.swarm).0 then ok (output n (reply_ok ch ∷ []) l') else err l'
  run_command (add_peer_address peer a) l = ok (call n (add_address peer a) l)
  run_command (bootstrap_peers ch) l = start_query bootstrap (bootstrap_channel ch) l
  run_command (get_kad_record key ch) l = start_query (get_record key) (get_channel ch) l
  run_command (put_kad_record records block_num) l =
      or_panic (put_all records (add_block block_num (length records) l))
  run_command (dial_peer peer addresses ch) l =
      let l' = call n (dial peer addresses) l in
      if (n.act (dial peer addresses) l.swarm).0 then ok (insert_swarm_event peer ch l') else err l'

  -- `Command::abort`
  unfoldable pub abort : Command → EventLoop n → EventLoop n
  unfolding output
  abort (start_listening a ch) l = output n (reply_error ch ∷ []) l
  abort (bootstrap_peers ch) l = output n (reply_error ch ∷ []) l
  abort (get_kad_record key ch) l = output n (reply_error ch ∷ []) l
  abort (dial_peer peer addresses ch) l = output n (reply_error ch ∷ []) l
  abort _ l = l

  -- `handle_command`; `none` is a panic.
  unfoldable pub finish : Command → Result (EventLoop n) (EventLoop n) → Option (EventLoop n)
  unfolding abort
  finish c panic = none
  finish c (err l) = some (abort c l)
  finish c (ok l) = some l

  unfoldable pub handle_command : Command → EventLoop n → Option (EventLoop n)
  unfolding run_command finish
  handle_command c l = finish c (run_command c l)

  -- `new`: the swarm is built, nothing is pending and no relay is selected.
  unfoldable pub new :
      n.PeerId → n.Swarm → List (n.PeerId × n.Multiaddr) → Bytes → Bool → ℕ → EventLoop n
  new random_peer swarm relays protocol_version is_fat_client ttl = record {
    swarm = swarm;
    pending_kad_queries = [];
    pending_swarm_events = [];
    relay = record {
      id = random_peer;
      address = n.empty_address;
      is_circuit_established = false;
      nodes = relays;
    };
    is_startup_done = false;
    active_blocks = [];
    protocol_version = protocol_version;
    is_fat_client = is_fat_client;
    kad_record_ttl = ttl;
    outputs = [];
  }

  -- What the loop's `select!` takes: an event of the swarm, a command, a tick of the timer, or the
  -- end: the shutdown, or no more sender of commands.
  pub data Input : Type 0 where
    event : Random n → Event n → Input
    command : Command → Input
    bootstrap_tick : Input
    end : Input

  unfoldable pub disconnect_all : List n.PeerId → EventLoop n → EventLoop n
  unfolding call
  disconnect_all [] l = l
  disconnect_all (peer ∷ peers) l = disconnect_all peers (call n (disconnect_peer peer) l)

  -- `disconnect_peers`
  pub disconnect_peers : EventLoop n → EventLoop n
  unfolding disconnect_all
  disconnect_peers l = disconnect_all (n.connected_peers l.swarm) l

  -- `run`, on the inputs so far.
  unfoldable pub run : List Input → EventLoop n → Option (EventLoop n)
  unfolding handle_event handle_command handle_periodic_bootstraps disconnect_peers
  run [] l = some l
  run (event r e ∷ inputs) l = run inputs (handle_event n r e l)
  run (command c ∷ inputs) l = elim (handle_command c l) [ none ↦ none | some l' ↦ run inputs l' ]
  run (bootstrap_tick ∷ inputs) l = run inputs (handle_periodic_bootstraps n l)
  run (end ∷ inputs) l = some (disconnect_peers l)

-- `dht_record` of a cell or a row under its reference, and `insert_into_dht`, to which no records are
-- an error.
module _ (n : Libp2p) {Place : Type 0} (reference : ℕ → Place → Bytes) where
  unfoldable pub dht_record : ℕ → ℕ → Place × Bytes → DhtRecord
  dht_record block ttl (place, content) = record {
    key = reference block place;
    value = content;
    expires = n.expires_after ttl;
  }

  unfoldable pub insert_into_dht : List DhtRecord → ℕ → Option (Command n)
  insert_into_dht [] block_num = none
  insert_into_dht (r ∷ rs) block_num = some (put_kad_record (r ∷ rs) block_num)

  -- `insert_cells_into_dht` and `insert_rows_into_dht`: the command that they send.
  unfoldable pub insert_all_into_dht : ℕ → ℕ → List (Place × Bytes) → Option (Command n)
  unfolding dht_record insert_into_dht
  insert_all_into_dht ttl block contents =
      insert_into_dht (map (dht_record block ttl) contents) block

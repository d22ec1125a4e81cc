-- ===== src/EventLoop.antt =====
-- src/network/p2p/event_loop.rs and src/network/p2p/client.rs: the task that owns the libp2p swarm,
-- the queries it waits for and the counts of the PUT operations of each block.
mod Keys
mod Pending
mod Counted
mod Results
mod Kept
mod Answers
mod Handlers
mod Accepted
mod Loop
mod Relay
mod Client
mod Agent
mod Events
mod Tests
mod Commands
use smallgod.Prelude.{
  ℕ, ◌+◌, ◌-◌, ◌%◌, ◌^◌, Bool, true, false, not, ◌&&◌, ◌||◌, ite, Option, none, some, List, [], ◌∷◌,
  ◌++◌, map, length, get_elem?, ltb, ◌==◌, if◌then◌else◌, ℕ_discrete,
}
use smallgod.Prelude.Maps.{HashMap, get, remove, insert}
use smallgod.Prelude.Text.{Bytes, split}
use smallgod.EventLoop.Keys.{DhtKey, cell, row, try_from}

-- A record of the DHT: its key, its value and when it expires, if ever.
pub record DhtRecord : Type 0 where
  pub key : Bytes
  pub value : Bytes
  pub expires : Option ℕ

pub data NatStatus : Type 0 where
  public private unknown : NatStatus

-- The queries that the task starts, and its other calls of the swarm and of its behaviours.
pub data Query : Type 0 where
  put_record : DhtRecord → Query
  get_record : Bytes → Query
  bootstrap : Query

pub data Action (PeerId Multiaddr : Type 0) : Type 0 where
  listen_on : Multiaddr → Action PeerId Multiaddr
  dial : PeerId → List Multiaddr → Action PeerId Multiaddr
  dial_not_dialing : PeerId → Multiaddr → Action PeerId Multiaddr
  add_address : PeerId → Multiaddr → Action PeerId Multiaddr
  remove_address : PeerId → Multiaddr → Action PeerId Multiaddr
  remove_peer : PeerId → Action PeerId Multiaddr
  disconnect_peer : PeerId → Action PeerId Multiaddr
  block_peer : PeerId → Action PeerId Multiaddr
  store_put : DhtRecord → Action PeerId Multiaddr
  remove_record : Bytes → Action PeerId Multiaddr

-- libp2p, `semver` and the clock.
pub record Libp2p : Type 1 where
  pub PeerId : Type 0
  pub PeerId_discrete : Discrete PeerId
  pub Multiaddr : Type 0
  pub QueryId : Type 0
  pub QueryId_discrete : Discrete QueryId
  pub PeerRecord : Type 0
  pub Version : Type 0
  pub Swarm : Type 0
  -- `none` is an error, which `get_record` has not.
  pub start : Query → Swarm → Option (QueryId × Swarm)
  -- Whether the call succeeds, and the swarm after it.
  pub act : Action PeerId Multiaddr → Swarm → Bool × Swarm
  -- `mdns.discovered_nodes().any(…)`
  pub is_discovered : PeerId → Swarm → Bool
  pub connected_peers : Swarm → List PeerId
  pub empty_address : Multiaddr
  -- `with(Protocol::P2pCircuit)`
  pub with_circuit : Multiaddr → Multiaddr
  -- `Version::parse`
  pub parse_version : Bytes → Option Version
  -- `>=` on versions
  pub is_at_least : Version → Version → Bool
  -- `Instant::now().checked_add(…)`
  pub expires_after : ℕ → Option ℕ

-- The senders of the answers are named by numbers.
pub data QueryChannel : Type 0 where
  get_channel : ℕ → QueryChannel
  put_channel : QueryChannel
  bootstrap_channel : ℕ → QueryChannel

pub record BlockStat : Type 0 where
  pub total_count : ℕ
  pub remaining_counter : ℕ
  pub success_counter : ℕ
  pub error_counter : ℕ
  pub time_stat : ℕ

-- A `usize` of 64 bits.
abbrev pub usize_modulus : ℕ
usize_modulus = 18446744073709551616

pub add_usize : ℕ → ℕ → ℕ
add_usize a b = (a + b) % usize_modulus

pub sub_usize : ℕ → ℕ → ℕ
sub_usize a b = if ltb a b then a + usize_modulus - b else a - b

-- `increase_block_stat_counters`
pub increase_block_stat_counters : ℕ → BlockStat → BlockStat
unfolding add_usize
increase_block_stat_counters cell_number s = record s {
  total_count = add_usize s.total_count cell_number;
  remaining_counter = add_usize s.remaining_counter cell_number;
}

-- The block that a key names.
pub block_num : DhtKey → ℕ
block_num (cell b r c) = b
block_num (row b r) = b

-- The counts of a block after the result of a PUT.
pub count_result : ℕ → Bool → BlockStat → BlockStat
unfolding add_usize sub_usize
count_result duration is_error s = record s {
  remaining_counter = sub_usize s.remaining_counter 1;
  error_counter = if is_error then add_usize s.error_counter 1 else s.error_counter;
  success_counter = if is_error then s.success_counter else add_usize s.success_counter 1;
  time_stat = duration;
}

module _ (n : Libp2p) where
  pub record RelayState : Type 0 where
    pub id : n.PeerId
    pub address : n.Multiaddr
    pub is_circuit_established : Bool
    pub nodes : List (n.PeerId × n.Multiaddr)

  -- What the task sends to those that wait, and the metrics that it records.
  pub data Output : Type 0 where
    reply_record : ℕ → n.PeerRecord → Output
    reply_error : ℕ → Output
    reply_ok : ℕ → Output
    reply_connected : ℕ → n.PeerId → Output
    dht_put_success : ℕ → ℕ → Output
    dht_put_duration : ℕ → Output

  pub record EventLoop : Type 0 where
    pub swarm : n.Swarm
    pub pending_kad_queries : HashMap n.QueryId QueryChannel
    pub pending_swarm_events : HashMap n.PeerId ℕ
    pub relay : RelayState
    pub is_startup_done : Bool
    pub active_blocks : HashMap ℕ BlockStat
    pub protocol_version : Bytes
    pub is_fat_client : Bool
    pub kad_record_ttl : ℕ
    pub outputs : List Output

  pub call : Action n.PeerId n.Multiaddr → EventLoop → EventLoop
  call a l = record l { swarm = (n.act a l.swarm).1 }

  pub output : List Output → EventLoop → EventLoop
  output os l = record l { outputs = l.outputs ++ os }

  -- The metrics of a block whose PUT operations have all ended.
  put_metrics : BlockStat → List Output
  put_metrics s =
      if s.remaining_counter == 0
      then dht_put_success s.success_counter s.total_count ∷ dht_put_duration s.time_stat ∷ []
      else []

  -- `handle_put_result`
  count_block : Option BlockStat → DhtKey → Bytes → ℕ → Bool → EventLoop → EventLoop
  unfolding call output block_num count_result put_metrics
  count_block none k key duration is_error l = l
  count_block (some old) k key duration is_error l =
      let s = count_result duration is_error old in
      let counted = record l {
        active_blocks = insert ℕ_discrete (block_num k) s l.active_blocks;
      } in
      let told = output (put_metrics s) counted in
      if l.is_fat_client then call (remove_record key) told else told

  count_key : Option DhtKey → Bytes → ℕ → Bool → EventLoop → EventLoop
  unfolding count_block
  count_key none key duration is_error l = l
  count_key (some k) key duration is_error l =
      count_block (get ℕ_discrete (block_num k) l.active_blocks) k key duration is_error l

  pub handle_put_result : Bytes → ℕ → Bool → EventLoop → EventLoop
  unfolding count_key
  handle_put_result key duration is_error l = count_key (try_from key) key duration is_error l

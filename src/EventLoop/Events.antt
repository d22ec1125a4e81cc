-- ===== src/EventLoop/Events.antt =====
-- src/network/p2p/event_loop.rs: `handle_event`, the relay and the bootstrap.
use smallgod.Prelude.{
  ℕ, ◌%◌, Bool, true, false, not, ◌&&◌, ◌||◌, ite, Option, none, some, List, [], ◌∷◌, length,
  get_elem?, ◌==◌, if◌then◌else◌, min,
}
use smallgod.Prelude.Maps.{get, remove}
use smallgod.Prelude.Text.{Bytes}
use smallgod.EventLoop.{
  Libp2p, DhtRecord, NatStatus, QueryChannel, get_channel, bootstrap_channel, EventLoop, RelayState,
  Output, reply_record, reply_error, reply_ok, reply_connected, call, output, handle_put_result,
  private, bootstrap, listen_on, dial_not_dialing, add_address, remove_address, remove_peer,
  block_peer, store_put,
}
use smallgod.EventLoop.Agent.{AgentVersion, from_str, server, eq_bytes, is_supported}

-- `min` on the times at which a record expires: `None` is below every time.
unfoldable pub min_expires : Option ℕ → Option ℕ → Option ℕ
min_expires (some a) (some b) = some (min a b)
min_expires _ _ = none

module _ (n : Libp2p) where
  pub data Event : Type 0 where
    inbound_put_record : Option DhtRecord → Event
    found_record : n.QueryId → n.PeerRecord → Event
    get_record_failed : n.QueryId → Event
    put_record_failed : n.QueryId → Bytes → ℕ → Event
    put_record_ok : n.QueryId → Bytes → ℕ → Event
    bootstrap_progressed : n.QueryId → ℕ → Event
    bootstrap_failed : n.QueryId → Event
    identify_received : n.PeerId → List n.Multiaddr → Bytes → Bytes → Event
    mdns_discovered : List (n.PeerId × n.Multiaddr) → Event
    mdns_expired : List (n.PeerId × n.Multiaddr) → Event
    nat_status_changed : NatStatus → NatStatus → Event
    connection_closed : n.PeerId → Bool → Event
    connection_established : n.PeerId → Event
    outgoing_connection_error : Option n.PeerId → Bool → Event
    other_event : Event

  -- The random numbers of a step: the peer of `PeerId::random`, and the index of `choose`.
  pub record Random : Type 0 where
    pub peer : n.PeerId
    pub index : ℕ

  -- `RelayState::reset`
  pub reset : Random → RelayState n → RelayState n
  reset r s = record s { id = r.peer; address = n.empty_address; is_circuit_established = false }

  -- `RelayState::select_random`
  unfoldable pub appoint : Option (n.PeerId × n.Multiaddr) → RelayState n → RelayState n
  appoint none s = s
  appoint (some (id, address)) s = record s { id = id; address = address }

  unfoldable pub select_random : Random → RelayState n → RelayState n
  unfolding appoint
  select_random r s = appoint (get_elem? s.nodes (r.index % length s.nodes)) s

  -- `select_and_dial_relay`
  unfoldable pub select_and_dial_relay : Random → EventLoop n → EventLoop n
  unfolding select_random reset
  select_and_dial_relay r l =
      let relay = select_random r l.relay in
      let (succeeded, swarm) = n.act (dial_not_dialing relay.id relay.address) l.swarm in
      record l { relay = if succeeded then relay else reset r relay; swarm = swarm }

  -- `establish_relay_circuit`
  unfoldable pub establish_relay_circuit : Random → n.PeerId → EventLoop n → EventLoop n
  unfolding reset call
  establish_relay_circuit r peer_id l =
      let circuit = listen_on (n.with_circuit l.relay.address) in
      let succeeded = (n.act circuit l.swarm).0 in
      if ite (n.PeerId_discrete peer_id l.relay.id) true false && not l.relay.is_circuit_established
      then record (call n circuit l) {
        relay =
            if succeeded then record l.relay { is_circuit_established = true } else reset r l.relay;
      }
      else l

  -- `add_address` of every address, and what MDNS lists.
  unfoldable pub add_addresses : n.PeerId → List n.Multiaddr → EventLoop n → EventLoop n
  unfolding call
  add_addresses peer [] l = l
  add_addresses peer (a ∷ rest) l = add_addresses peer rest (call n (add_address peer a) l)

  unfoldable pub add_discovered : List (n.PeerId × n.Multiaddr) → EventLoop n → EventLoop n
  unfolding call
  add_discovered [] l = l
  add_discovered ((peer, a) ∷ ps) l = add_discovered ps (call n (add_address peer a) l)

  unfoldable pub remove_expired : List (n.PeerId × n.Multiaddr) → EventLoop n → EventLoop n
  unfolding call
  remove_expired [] l = l
  remove_expired ((peer, a) ∷ ps) l =
      remove_expired ps
        (if n.is_discovered peer l.swarm then call n (remove_address peer a) l else l)

  -- `identify::Event::Received`
  unfoldable pub identified :
      Option AgentVersion → n.PeerId → List n.Multiaddr → Bytes → EventLoop n → EventLoop n
  unfolding is_supported call add_addresses eq_bytes
  identified none peer addresses protocol_version l = l
  identified (some agent) peer addresses protocol_version l =
      if not (is_supported n agent)
      then call n (remove_peer peer) l
      else if eq_bytes protocol_version l.protocol_version
      then (if eq_bytes agent.kademlia_mode server then add_addresses peer addresses l else l)
      else call n (block_peer peer) (call n (remove_peer peer) l)

  unfoldable pub handle_identify :
      n.PeerId → List n.Multiaddr → Bytes → Bytes → EventLoop n → EventLoop n
  unfolding from_str identified
  handle_identify peer addresses agent_version protocol_version l =
      identified (from_str agent_version) peer addresses protocol_version l

  -- `self.pending_kad_queries.remove(&id)`
  unfoldable pub remove_query : n.QueryId → EventLoop n → EventLoop n
  remove_query id l = record l {
    pending_kad_queries = remove n.QueryId_discrete id l.pending_kad_queries;
  }

  unfoldable pub pending_query : n.QueryId → EventLoop n → Option QueryChannel
  pending_query id l = get n.QueryId_discrete id l.pending_kad_queries

  -- The result of a GET: the query is no more pending, whatever it was, and its sender is answered.
  unfoldable pub answer_get : Option n.PeerRecord → Option QueryChannel → EventLoop n → EventLoop n
  unfolding output
  answer_get (some r) (some (get_channel ch)) l = output n (reply_record ch r ∷ []) l
  answer_get none (some (get_channel ch)) l = output n (reply_error ch ∷ []) l
  answer_get found _ l = l

  unfoldable pub get_result : n.QueryId → Option n.PeerRecord → EventLoop n → EventLoop n
  unfolding remove_query pending_query answer_get
  get_result id found l = answer_get found (pending_query id l) (remove_query id l)

  -- The result of a PUT, which is not counted unless it is pending.
  unfoldable pub count_put : Option QueryChannel → Bytes → ℕ → Bool → EventLoop n → EventLoop n
  count_put none key duration is_error l = l
  count_put (some ch) key duration is_error l = handle_put_result n key duration is_error l

  unfoldable pub put_result : n.QueryId → Bytes → ℕ → Bool → EventLoop n → EventLoop n
  unfolding remove_query pending_query count_put
  put_result id key duration is_error l =
      count_put (pending_query id l) key duration is_error (remove_query id l)

  -- The end of a bootstrap, and its error.
  unfoldable pub answer_bootstrap : Bool → Option QueryChannel → EventLoop n → EventLoop n
  unfolding output
  answer_bootstrap true (some (bootstrap_channel ch)) l =
      output n (reply_ok ch ∷ []) (record l { is_startup_done = true })
  answer_bootstrap false (some (bootstrap_channel ch)) l = output n (reply_error ch ∷ []) l
  answer_bootstrap succeeded _ l = l

  unfoldable pub bootstrap_result : n.QueryId → Bool → EventLoop n → EventLoop n
  unfolding remove_query pending_query answer_bootstrap
  bootstrap_result id succeeded l =
      answer_bootstrap succeeded (pending_query id l) (remove_query id l)

  -- Those that wait for a connection are told of it, or of its failure.
  unfoldable pub tell : Option ℕ → n.PeerId → (ℕ → Output n) → EventLoop n → EventLoop n
  unfolding output
  tell none peer answer l = l
  tell (some ch) peer answer l =
      output n (answer ch ∷ [])
        (record l { pending_swarm_events = remove n.PeerId_discrete peer l.pending_swarm_events })

  unfoldable pub tell_dialer : n.PeerId → (ℕ → Output n) → EventLoop n → EventLoop n
  unfolding tell
  tell_dialer peer answer l = tell (get n.PeerId_discrete peer l.pending_swarm_events) peer answer l

  -- `SwarmEvent::OutgoingConnectionError` of a peer
  unfoldable pub handle_connection_error : Random → n.PeerId → Bool → EventLoop n → EventLoop n
  unfolding call tell_dialer reset
  handle_connection_error r peer wrong_peer_id l =
      let checked = if wrong_peer_id then call n (remove_peer peer) l else l in
      let told = tell_dialer peer reply_error checked in
      ite (n.PeerId_discrete told.relay.id peer) (record told { relay = reset r told.relay }) told

  unfoldable pub is_private : NatStatus → Bool
  is_private private = true
  is_private _ = false

  -- `handle_event`, less the counters of telemetry.
  unfoldable pub handle_event : Random → Event → EventLoop n → EventLoop n
  unfolding get_result put_result bootstrap_result handle_identify add_discovered remove_expired
      min_expires select_and_dial_relay establish_relay_circuit tell_dialer handle_connection_error
      call is_private
  handle_event r (inbound_put_record none) l = l
  handle_event r (inbound_put_record (some dht_record)) l =
      let expires = min_expires dht_record.expires (n.expires_after l.kad_record_ttl) in
      call n (store_put (record dht_record { expires = expires })) l
  handle_event r (found_record id found) l = get_result id (some found) l
  handle_event r (get_record_failed id) l = get_result id none l
  handle_event r (put_record_failed id key duration) l = put_result id key duration true l
  handle_event r (put_record_ok id key duration) l = put_result id key duration false l
  handle_event r (bootstrap_progressed id num_remaining) l =
      if num_remaining == 0 then bootstrap_result id true l else l
  handle_event r (bootstrap_failed id) l = bootstrap_result id false l
  handle_event r (identify_received peer addresses agent protocol) l =
      handle_identify peer addresses agent protocol l
  handle_event r (mdns_discovered ps) l = add_discovered ps l
  handle_event r (mdns_expired ps) l = remove_expired ps l
  handle_event r (nat_status_changed old new) l =
      if (is_private new || is_private old) && not l.is_fat_client
      then select_and_dial_relay r l
      else l
  handle_event r (connection_closed peer failed) l =
      if failed then call n (remove_peer peer) l else l
  handle_event r (connection_established peer) l =
      establish_relay_circuit r peer (tell_dialer peer (λ ch. reply_connected ch peer) l)
  handle_event r (outgoing_connection_error none wrong) l = l
  handle_event r (outgoing_connection_error (some peer) wrong) l =
      handle_connection_error r peer wrong l
  handle_event r other_event l = l

  -- `handle_periodic_bootstraps`
  unfoldable pub bootstrapped : Option (n.QueryId × n.Swarm) → EventLoop n → EventLoop n
  bootstrapped none l = l
  bootstrapped (some (id, swarm)) l = record l { swarm = swarm }

  unfoldable pub handle_periodic_bootstraps : EventLoop n → EventLoop n
  unfolding bootstrapped
  handle_periodic_bootstraps l =
      if l.is_startup_done then bootstrapped (n.start bootstrap l.swarm) l else l

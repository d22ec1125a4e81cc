-- ===== src/EventLoop/Kept.antt =====
-- What the event loop does beside the queries keeps the counts of the blocks.
use smallgod.Prelude.{
  ℕ, ◌≤◌, Bool, not, Option, none, some, List, [], ◌∷◌, ℕ_discrete, if_elim, ite_elim,
}
use smallgod.Prelude.Maps.{get}
use smallgod.Prelude.Text.{Bytes}
use smallgod.EventLoop.{
  Libp2p, Action, EventLoop, RelayState, listen_on, Output, call, output, remove_peer, block_peer,
  add_address,
}
use smallgod.EventLoop.Pending.{Laws}
use smallgod.EventLoop.Counted.{Counted, Counted-act}
use smallgod.EventLoop.Results.{BlockCounted-le}
use smallgod.EventLoop.Agent.{AgentVersion, is_supported, eq_bytes, server}
use smallgod.EventLoop.Events.{
  Random, identified, add_addresses, add_discovered, remove_expired, tell, tell_dialer,
  handle_connection_error, select_and_dial_relay, establish_relay_circuit,
}

module _ (n : Libp2p) (laws : Laws n) where
  -- Of every block, the counts are those of its PUT operations, at most `bound` of them.
  unfoldable pub IsCounted : ℕ → EventLoop n → Type 0
  IsCounted bound l = Counted n laws bound (λ b. 0) l.swarm l.pending_kad_queries l.active_blocks

  pub IsCounted-le :
      (bound bound' : ℕ) (l : EventLoop n) → bound ≤ bound' → IsCounted bound l → IsCounted bound' l
  unfolding IsCounted
  IsCounted-le bound bound' l le c = record {
    is_map = c.is_map;
    is_issued = c.is_issued;
    is_counted = λ b.
        BlockCounted-le bound bound' 0 _ (get ℕ_discrete b l.active_blocks) le (c.is_counted b);
  }

  module _ (bound : ℕ) where
    pub call-IsCounted :
        (a : Action n.PeerId n.Multiaddr) (l : EventLoop n)
        → IsCounted bound l
        → IsCounted bound (call n a l)
    unfolding call IsCounted
    call-IsCounted a l c = Counted-act n laws a c

    pub add_addresses-IsCounted :
        (peer : n.PeerId) (addresses : List n.Multiaddr) (l : EventLoop n)
        → IsCounted bound l
        → IsCounted bound (add_addresses n peer addresses l)
    unfolding add_addresses
    add_addresses-IsCounted peer [] l c = c
    add_addresses-IsCounted peer (a ∷ rest) l c =
        add_addresses-IsCounted peer rest (call n (add_address peer a) l) (call-IsCounted _ l c)

    pub add_discovered-IsCounted :
        (ps : List (n.PeerId × n.Multiaddr)) (l : EventLoop n)
        → IsCounted bound l
        → IsCounted bound (add_discovered n ps l)
    unfolding add_discovered
    add_discovered-IsCounted [] l c = c
    add_discovered-IsCounted ((peer, a) ∷ ps) l c =
        add_discovered-IsCounted ps (call n (add_address peer a) l) (call-IsCounted _ l c)

    pub remove_expired-IsCounted :
        (ps : List (n.PeerId × n.Multiaddr)) (l : EventLoop n)
        → IsCounted bound l
        → IsCounted bound (remove_expired n ps l)
    unfolding remove_expired
    remove_expired-IsCounted [] l c = c
    remove_expired-IsCounted ((peer, a) ∷ ps) l c =
        remove_expired-IsCounted ps _
          (if_elim (IsCounted bound) (n.is_discovered peer l.swarm) (call-IsCounted _ l c) c)

    pub identified-IsCounted :
        (agent : Option AgentVersion) (peer : n.PeerId) (addresses : List n.Multiaddr)
        (protocol : Bytes) (l : EventLoop n)
        → IsCounted bound l
        → IsCounted bound (identified n agent peer addresses protocol l)
    unfolding identified
    identified-IsCounted none peer addresses protocol l c = c
    identified-IsCounted (some agent) peer addresses protocol l c =
        let gone = call-IsCounted (remove_peer peer) l c in
        if_elim (IsCounted bound) (not (is_supported n agent)) gone (
          if_elim (IsCounted bound) (eq_bytes protocol l.protocol_version)
            (if_elim (IsCounted bound) (eq_bytes agent.kademlia_mode server)
              (add_addresses-IsCounted peer addresses l c) c)
            (call-IsCounted (block_peer peer) _ gone))

    pub tell-IsCounted :
        (o : Option ℕ) (peer : n.PeerId) (answer : ℕ → Output n) (l : EventLoop n)
        → IsCounted bound l
        → IsCounted bound (tell n o peer answer l)
    unfolding tell output IsCounted
    tell-IsCounted none peer answer l c = c
    tell-IsCounted (some ch) peer answer l c = c

    pub tell_dialer-IsCounted :
        (peer : n.PeerId) (answer : ℕ → Output n) (l : EventLoop n)
        → IsCounted bound l
        → IsCounted bound (tell_dialer n peer answer l)
    unfolding tell_dialer
    tell_dialer-IsCounted peer answer l c =
        tell-IsCounted (get n.PeerId_discrete peer l.pending_swarm_events) peer answer l c

    pub select_and_dial_relay-IsCounted :
        (r : Random n) (l : EventLoop n)
        → IsCounted bound l
        → IsCounted bound (select_and_dial_relay n r l)
    unfolding select_and_dial_relay IsCounted
    select_and_dial_relay-IsCounted r l c = Counted-act n laws _ c

    -- Neither a relay nor another swarm of the same ids change the counts.
    pub relay-IsCounted :
        (s : RelayState n) (l : EventLoop n)
        → IsCounted bound l
        → IsCounted bound (record l { relay = s })
    unfolding IsCounted
    relay-IsCounted s l c = c

    pub establish_relay_circuit-IsCounted :
        (r : Random n) (peer : n.PeerId) (l : EventLoop n)
        → IsCounted bound l
        → IsCounted bound (establish_relay_circuit n r peer l)
    unfolding establish_relay_circuit
    establish_relay_circuit-IsCounted r peer l c =
        if_elim (IsCounted bound) _
          (relay-IsCounted _ (call n (listen_on (n.with_circuit l.relay.address)) l)
            (call-IsCounted _ l c))
          c

    pub handle_connection_error-IsCounted :
        (r : Random n) (peer : n.PeerId) (wrong_peer_id : Bool) (l : EventLoop n)
        → IsCounted bound l
        → IsCounted bound (handle_connection_error n r peer wrong_peer_id l)
    unfolding handle_connection_error
    handle_connection_error-IsCounted r peer wrong_peer_id l c =
        let told =
          tell_dialer-IsCounted peer _ _
            (if_elim (IsCounted bound) wrong_peer_id (call-IsCounted (remove_peer peer) l c) c) in
        ite_elim (IsCounted bound) _ (relay-IsCounted _ _ told) told

-- ===== src/EventLoop/Handlers.antt =====
-- `handle_event` keeps the counts of the blocks.
use smallgod.Prelude.{ℕ, ◌<◌, ◌≡◌, true, false, none, some, if_elim}
use smallgod.Prelude.Text.{Bytes}
use smallgod.EventLoop.{
  Libp2p, DhtRecord, put_record, get_record, bootstrap, EventLoop, usize_modulus, remove_peer,
}
use smallgod.EventLoop.Pending.{Laws}
use smallgod.EventLoop.Agent.{from_str}
use smallgod.EventLoop.Events.{
  Event, Random, handle_identify, handle_event, inbound_put_record, found_record, get_record_failed,
  put_record_failed, put_record_ok, bootstrap_progressed, bootstrap_failed, identify_received,
  mdns_discovered, mdns_expired, nat_status_changed, connection_closed, connection_established,
  outgoing_connection_error, other_event,
}
use smallgod.EventLoop.Kept.{
  IsCounted, call-IsCounted, add_discovered-IsCounted, remove_expired-IsCounted,
  identified-IsCounted, tell_dialer-IsCounted, select_and_dial_relay-IsCounted,
  establish_relay_circuit-IsCounted, handle_connection_error-IsCounted,
}
use smallgod.EventLoop.Answers.{
  get_result-IsCounted, bootstrap_result-IsCounted, put_result-IsCounted,
}

module _ (n : Libp2p) (laws : Laws n) where
  -- What an event says of a query is an answer to that query.
  abbrev pub IsAnswer : n.Swarm → Event n → Type 0
  IsAnswer s (found_record id found) = (key : Bytes) × (laws.query_of id s ≡ get_record key)
  IsAnswer s (get_record_failed id) = (key : Bytes) × (laws.query_of id s ≡ get_record key)
  IsAnswer s (put_record_failed id key duration) =
      (r : DhtRecord) × (laws.query_of id s ≡ put_record r) × (r.key ≡ key)
  IsAnswer s (put_record_ok id key duration) =
      (r : DhtRecord) × (laws.query_of id s ≡ put_record r) × (r.key ≡ key)
  IsAnswer s (bootstrap_progressed id num_remaining) = laws.query_of id s ≡ bootstrap
  IsAnswer s (bootstrap_failed id) = laws.query_of id s ≡ bootstrap
  IsAnswer s e = Unit

  module _ (bound : ℕ) where
    pub handle_event-IsCounted :
        (r : Random n) (e : Event n) (l : EventLoop n)
        → bound < usize_modulus
        → IsAnswer l.swarm e
        → IsCounted n laws bound l
        → IsCounted n laws bound (handle_event n r e l)
    unfolding handle_event handle_identify
    handle_event-IsCounted r (inbound_put_record none) l small a c = c
    handle_event-IsCounted r (inbound_put_record (some d)) l small a c =
        call-IsCounted n laws bound _ l c
    handle_event-IsCounted r (found_record id found) l small (key, e) c =
        get_result-IsCounted n laws bound id (some found) key l e c
    handle_event-IsCounted r (get_record_failed id) l small (key, e) c =
        get_result-IsCounted n laws bound id none key l e c
    handle_event-IsCounted r (put_record_failed id key duration) l small a c =
        put_result-IsCounted n laws bound id key duration true l small a c
    handle_event-IsCounted r (put_record_ok id key duration) l small a c =
        put_result-IsCounted n laws bound id key duration false l small a c
    handle_event-IsCounted r (bootstrap_progressed id num_remaining) l small e c =
        if_elim (IsCounted n laws bound) _ (bootstrap_result-IsCounted n laws bound id true l e c) c
    handle_event-IsCounted r (bootstrap_failed id) l small e c =
        bootstrap_result-IsCounted n laws bound id false l e c
    handle_event-IsCounted r (identify_received peer addresses agent protocol) l small a c =
        identified-IsCounted n laws bound (from_str agent) peer addresses protocol l c
    handle_event-IsCounted r (mdns_discovered ps) l small a c =
        add_discovered-IsCounted n laws bound ps l c
    handle_event-IsCounted r (mdns_expired ps) l small a c =
        remove_expired-IsCounted n laws bound ps l c
    handle_event-IsCounted r (nat_status_changed old new) l small a c =
        if_elim (IsCounted n laws bound) _ (select_and_dial_relay-IsCounted n laws bound r l c) c
    handle_event-IsCounted r (connection_closed peer failed) l small a c =
        if_elim (IsCounted n laws bound) failed (call-IsCounted n laws bound (remove_peer peer) l c)
          c
    handle_event-IsCounted r (connection_established peer) l small a c =
        establish_relay_circuit-IsCounted n laws bound r peer _
          (tell_dialer-IsCounted n laws bound peer _ l c)
    handle_event-IsCounted r (outgoing_connection_error none wrong) l small a c = c
    handle_event-IsCounted r (outgoing_connection_error (some peer) wrong) l small a c =
        handle_connection_error-IsCounted n laws bound r peer wrong l c
    handle_event-IsCounted r other_event l small a c = c

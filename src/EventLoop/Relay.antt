-- ===== src/EventLoop/Relay.antt =====
-- The relay that is selected again, and when an incoming record expires.
use smallgod.Prelude.{
  ℕ, ◌%◌, ◌≤◌, get_elem?, length, ◌≡◌, refl, ap, ◌∙◌, sym, subst, Bool, true, false, not, ◌&&◌, ite,
  Option, none, some, if◌then◌else◌, min, arith,
}
use smallgod.EventLoop.{
  Libp2p, RelayState, DhtRecord, NatStatus, private, EventLoop, dial_not_dialing, store_put, call,
}
use smallgod.EventLoop.Events.{
  Random, handle_event, inbound_put_record, nat_status_changed, select_and_dial_relay,
  select_random, appoint, reset, establish_relay_circuit, min_expires, is_private,
}

appoint-established :
    (n : Libp2p) (o : Option (n.PeerId × n.Multiaddr)) (s : RelayState n)
    → (appoint n o s).is_circuit_established ≡ s.is_circuit_established
unfolding appoint
appoint-established n none s = refl
appoint-established n (some (id, address)) s = refl

&&-false : (b c : Bool) → c ≡ true → (b && not c) ≡ false
&&-false b c h = ground arith

if_false {ℓ} : {A : Type ℓ} (b : Bool) (x y : A) → b ≡ false → (if b then x else y) ≡ y
if_false true x y h = cc
if_false false x y h = refl

establish_relay_circuit-established :
    (n : Libp2p) (r : Random n) (peer : n.PeerId) (l : EventLoop n)
    → l.relay.is_circuit_established ≡ true
    → establish_relay_circuit n r peer l ≡ l
unfolding establish_relay_circuit
establish_relay_circuit-established n r peer l h =
    if_false
      (ite (n.PeerId_discrete peer l.relay.id) true false && not l.relay.is_circuit_established) _ _
      (&&-false _ _ h)

-- If a node that is no fat client is told that it is private while a circuit with a relay is
-- established, and the relay that it then selects can be dialed, this relay is marked as one with
-- which a circuit is established, and no connection, to it or to another peer, opens a circuit.
pub relay_selected_again :
    (n : Libp2p) (r : Random n) (old : NatStatus) (l : EventLoop n)
    → l.is_fat_client ≡ false
    → l.relay.is_circuit_established ≡ true
    → let relay = select_random n r l.relay in
      (n.act (dial_not_dialing relay.id relay.address) l.swarm).0 ≡ true
      → let l' = handle_event n r (nat_status_changed old private) l in
        (l'.relay ≡ relay)
        × (l'.relay.is_circuit_established ≡ true)
        × ((r' : Random n) (peer : n.PeerId) → establish_relay_circuit n r' peer l' ≡ l')
unfolding handle_event select_and_dial_relay is_private select_random
relay_selected_again n r old l fat established dialed =
    let relay = select_random n r l.relay in
    let swarm = (n.act (dial_not_dialing relay.id relay.address) l.swarm).1 in
    let l2 = record l { relay = relay; swarm = swarm } in
    let e =
      ap (λ b. if not b then select_and_dial_relay n r l else l) fat
      ∙ ap (λ b. record l { relay = if b then relay else reset n r relay; swarm = swarm }) dialed in
    let still =
      appoint-established n (get_elem? l.relay.nodes (r.index % length l.relay.nodes)) l.relay
      ∙ established in
    subst
      (λ l'.
        (l'.relay ≡ relay)
        × (l'.relay.is_circuit_established ≡ true)
        × ((r' : Random n) (peer : n.PeerId) → establish_relay_circuit n r' peer l' ≡ l'))
      (sym e) (refl, still, λ r' peer. establish_relay_circuit-established n r' peer l2 still)

-- The time at which a record expires that has the time `own`, where the local TTL ends at `ttl`: one
-- that is neither later than the first nor than the second, or none if one of them is missing.
abbrev pub IsEarlier : Option ℕ → Option ℕ → Option ℕ → Type 0
IsEarlier (some a) (some b) e = (t : ℕ) × (e ≡ some t) × (t ≤ a) × (t ≤ b)
IsEarlier (some a) none e = e ≡ none
IsEarlier none ttl e = e ≡ none

min_expires-IsEarlier : (own ttl : Option ℕ) → IsEarlier own ttl (min_expires own ttl)
unfolding min_expires
min_expires-IsEarlier (some a) (some b) = (min a b, refl, omega arith, omega arith)
min_expires-IsEarlier (some a) none = refl
min_expires-IsEarlier none (some b) = refl
min_expires-IsEarlier none none = refl

-- An incoming record that has a time at which it expires is stored with one that is neither later
-- than its own nor later than the end of the local TTL; a record without such a time, or while the
-- TTL has no end, is stored without one.
pub inbound_put_record-IsEarlier :
    (n : Libp2p) (r : Random n) (d : DhtRecord) (l : EventLoop n)
    → (e : Option ℕ) × (handle_event n r (inbound_put_record (some d)) l
        ≡ call n (store_put (record d { expires = e })) l)
      × IsEarlier d.expires (n.expires_after l.kad_record_ttl) e
unfolding handle_event
inbound_put_record-IsEarlier n r d l = (
  min_expires d.expires (n.expires_after l.kad_record_ttl),
  refl,
  min_expires-IsEarlier d.expires (n.expires_after l.kad_record_ttl),
)

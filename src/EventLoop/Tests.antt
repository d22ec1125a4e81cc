-- ===== src/EventLoop/Tests.antt =====
-- A swarm that numbers its queries and lets every call succeed: two cells of block 7 are put, one of
-- which is stored and one of which times out.
use smallgod.Prelude.{
  ℕ, ◌+◌, ◌<◌, ◌==◌, if◌then◌else◌, length, subst, ◌≡◌, refl, ap, true, false, Option, some, List,
  [], ◌∷◌, ◌++◌, arith, ℕ_discrete,
}
use smallgod.Prelude.Maps.{get, insert, remove}
use smallgod.Prelude.Text.{Bytes, print, split, parse_all}
use smallgod.EventLoop.{
  Libp2p, DhtRecord, Query, put_record, bootstrap, EventLoop, BlockStat, private, public, call,
  store_put, block_num, handle_put_result, dht_put_success, dht_put_duration,
}
use smallgod.EventLoop.Keys.{try_from, cell, row}
use smallgod.EventLoop.Pending.{Laws}
use smallgod.EventLoop.Counted.{pending_puts}
use smallgod.EventLoop.Commands.{
  put_kad_record, Input, event, command, bootstrap_tick, new, run, handle_command, run_command,
  put_all, add_block,
}
use smallgod.EventLoop.Events.{
  Random, put_record_ok, put_record_failed, inbound_put_record, nat_status_changed, handle_event,
  select_random, establish_relay_circuit, handle_periodic_bootstraps,
}
use smallgod.EventLoop.Relay.{relay_selected_again, inbound_put_record-IsEarlier, IsEarlier}
use smallgod.EventLoop.Accepted.{IsOfBlock, IsFaithful}
use smallgod.EventLoop.Loop.{MatchesPending, run-MatchesPending}

-- The queries that were started, the last one first: an id is the number of those before it.
abbrev nth : ℕ → List Query → Query
nth id [] = bootstrap
nth id (q ∷ qs) = if id == length qs then q else nth id qs

abbrev net : Libp2p
net = record {
  PeerId = ℕ;
  PeerId_discrete = ℕ_discrete;
  Multiaddr = ℕ;
  QueryId = ℕ;
  QueryId_discrete = ℕ_discrete;
  PeerRecord = ℕ;
  Version = ℕ;
  Swarm = List Query;
  start = λ q s. some (length s, q ∷ s);
  act = λ a s. (true, s);
  is_discovered = λ p s. false;
  connected_peers = λ s. [];
  empty_address = 0;
  with_circuit = λ a. a;
  parse_version = λ v. some 0;
  is_at_least = λ a b. true;
  expires_after = λ ttl. some (100 + ttl);
}

numbered :
    (q : Query) (s : List Query) (id : ℕ) (s' : List Query)
    → ◌≡◌ {A = Option (ℕ × List Query)} (some (length s, q ∷ s)) (some (id, s'))
    → (length s ≡ id) × (q ∷ s ≡ s')
numbered q s id s' e = (cc, cc)

nth-cons : (q : Query) (s : List Query) (j : ℕ) → j < length s → nth j (q ∷ s) ≡ nth j s
nth-cons q s j h = ground arith

nth-first : (q : Query) (s : List Query) → nth (length s) (q ∷ s) ≡ q
nth-first q s = ground arith

abbrev laws : Laws net
laws = record {
  Issued = λ id s. id < length s;
  query_of = nth;
  start_fresh = λ q s id s' e.
      let (number, next) = numbered q s id s' e in
      let size = ap (λ (x : List Query). length x) next in
      (λ h. omega (arith, number), omega (arith, number, size));
  start_query = λ q s id s' e.
      let (number, next) = numbered q s id s' e in
      subst (λ x. nth id x ≡ q) next (subst (λ i. nth i (q ∷ s) ≡ q) number (nth-first q s));
  start_keeps = λ q s id s' e j h.
      let (number, next) = numbered q s id s' e in
      subst (λ x. (j < length x) × (nth j x ≡ nth j s)) next (omega (arith, h), nth-cons q s j h);
  act_keeps = λ a s j h. (h, refl);
}

-- The keys 7:0:1 and 7:1:1.
abbrev first_cell : DhtRecord
first_cell = record {
  key = b'7' ∷ b':' ∷ b'0' ∷ b':' ∷ b'1' ∷ [];
  value = 1 ∷ 2 ∷ [];
  expires = some 160;
}

abbrev second_cell : DhtRecord
second_cell = record {
  key = b'7' ∷ b':' ∷ b'1' ∷ b':' ∷ b'1' ∷ [];
  value = 3 ∷ [];
  expires = some 160;
}

abbrev random : Random net
random = record { peer = 5; index = 1 }

abbrev inputs : List (Input net)
inputs =
    command (put_kad_record (first_cell ∷ second_cell ∷ []) 7)
    ∷ event random (put_record_ok 0 first_cell.key 2)
    ∷ bootstrap_tick
    ∷ event random (put_record_failed 1 second_cell.key 3)
    ∷ []

abbrev fresh : EventLoop net
fresh = new net 9 [] ((11, 21) ∷ (12, 22) ∷ []) (b'a' ∷ []) false 60

first_cell-IsOfBlock : IsOfBlock 7 first_cell
unfolding try_from parse_all split block_num
first_cell-IsOfBlock = (cell 7 0 1, refl, refl)

second_cell-IsOfBlock : IsOfBlock 7 second_cell
unfolding try_from parse_all split block_num
second_cell-IsOfBlock = (cell 7 1 1, refl, refl)

-- What is left of block 7 when both PUT operations have ended.
abbrev ended : BlockStat
ended = record {
  total_count = 2;
  remaining_counter = 0;
  success_counter = 1;
  error_counter = 1;
  time_stat = 3;
}

abbrev after : EventLoop net
after = record fresh {
  swarm = put_record second_cell ∷ put_record first_cell ∷ [];
  active_blocks = (7, ended) ∷ [];
  outputs = dht_put_success 1 2 ∷ dht_put_duration 3 ∷ [];
}

run_of_inputs : run net inputs fresh ≡ some after
unfolding run new handle_event handle_command run_command put_all add_block get insert remove
    handle_put_result try_from ℕ_discrete parse_all
run_of_inputs = refl

faithful : IsFaithful net laws inputs fresh
unfolding new handle_event handle_command run_command put_all add_block get insert remove
    handle_put_result handle_periodic_bootstraps try_from ℕ_discrete parse_all
faithful = (
  ((first_cell-IsOfBlock, (second_cell-IsOfBlock, tt)), (0, _, refl, (1, _, refl, tt))),
  ((first_cell, refl, refl), ((second_cell, refl, refl), tt)),
)

-- The witnesses of the properties of the event loop.
run-MatchesPending_example :
    (l : EventLoop net) × (run net inputs
        (new net 9 [] ((11, 21) ∷ (12, 22) ∷ []) (b'a' ∷ []) false 60)
      ≡ some l)
    × ((b : ℕ)
        → MatchesPending net laws
            (pending_puts net laws b l.swarm l.pending_kad_queries)
            (get ℕ_discrete b l.active_blocks))
run-MatchesPending_example =
    run-MatchesPending net laws 9 [] ((11, 21) ∷ (12, 22) ∷ []) (b'a' ∷ []) false 60 inputs
      (omega arith) faithful

abbrev cell_reference : ℕ → ℕ × ℕ → Bytes
cell_reference b (r, c) = print b ++ b':' ∷ (print r ++ b':' ∷ print c)

abbrev KeysRead : Type 0
KeysRead =
    (try_from (print 7 ++ b':' ∷ print 12) ≡ some (row 7 12))
    × (try_from (print 7 ++ b':' ∷ (print 12 ++ b':' ∷ print 300)) ≡ some (cell 7 12 300))

-- A circuit is established with relay 11, and relay 12 is selected.
abbrev connected : EventLoop net
connected = record fresh {
  relay = record fresh.relay { id = 11; address = 21; is_circuit_established = true };
}

relay_selected_again_example :
    let l' = handle_event net random (nat_status_changed public private) connected in
    (l'.relay ≡ select_random net random connected.relay)
    × (l'.relay.is_circuit_established ≡ true)
    × ((r' : Random net) (peer : ℕ) → establish_relay_circuit net r' peer l' ≡ l')
unfolding new
relay_selected_again_example = relay_selected_again net random public connected refl refl refl

inbound_put_record-IsEarlier_example :
    (e : Option ℕ) × (handle_event net random (inbound_put_record (some first_cell)) fresh
      ≡ call net (store_put (record first_cell { expires = e })) fresh)
    × IsEarlier first_cell.expires (net.expires_after 60) e
unfolding new
inbound_put_record-IsEarlier_example = inbound_put_record-IsEarlier net random first_cell fresh

-- ===== src/EventLoop/Accepted.antt =====
-- The commands keep the counts of the blocks.
use smallgod.Prelude.{
  ℕ, suc, ◌+◌, ◌≤◌, ◌<◌, ◌≡◌, refl, ap, ◌∙◌, sym, subst, Option, none, some, List, [], ◌∷◌, length,
  All, ok, err, panic, arith, if_elim, Result,
}
use smallgod.EventLoop.{
  Libp2p, DhtRecord, Query, put_record, get_record, bootstrap, QueryChannel, get_channel,
  put_channel, bootstrap_channel, block_num, EventLoop, Output, output, usize_modulus, listen_on,
  dial,
}
use smallgod.EventLoop.Keys.{DhtKey, try_from}
use smallgod.EventLoop.Pending.{Laws, owes}
use smallgod.EventLoop.Counted.{Counted, put_of, one_of, Counted-insert, Counted-free}
use smallgod.EventLoop.Results.{Counted-added}
use smallgod.EventLoop.Handlers.{IsAnswer}
use smallgod.EventLoop.Kept.{IsCounted, IsCounted-le, call-IsCounted}
use smallgod.EventLoop.Events.{handle_event, handle_periodic_bootstraps}
use smallgod.EventLoop.Commands.{
  handle_command, Command, start_listening, add_peer_address, bootstrap_peers, get_kad_record,
  put_kad_record, dial_peer, insert_query, insert_swarm_event, add_block, put_all, start_query,
  started, or_panic, finish, run_command, abort, Input, event, command, bootstrap_tick, end,
}

-- The key of a record names the block.
abbrev pub IsOfBlock : ℕ → DhtRecord → Type 0
IsOfBlock b r = (k : DhtKey) × (try_from r.key ≡ some k) × (block_num k ≡ b)

owes-suc : (b k j : ℕ) → owes b (suc k) j ≡ owes b 1 j + owes b k j
owes-suc b k j = ground arith

owes-zero : (b j : ℕ) → owes b 0 j ≡ 0
owes-zero b j = ground arith

module _ (n : Libp2p) (laws : Laws n) where
  -- The local store accepts the records, each after those before it.
  abbrev pub AllAccepted : List DhtRecord → EventLoop n → Type 0
  AllAccepted [] l = Unit
  AllAccepted (r ∷ rs) l =
      (id : n.QueryId) × (s : n.Swarm) × (n.start (put_record r) l.swarm ≡ some (id, s))
      × AllAccepted rs (insert_query n id put_channel s l)

  -- A command that puts records puts those of its block, and the store accepts them.
  abbrev pub IsPutting : Command n → EventLoop n → Type 0
  IsPutting (put_kad_record records b) l =
      All (IsOfBlock b) records × AllAccepted records (add_block n b (length records) l)
  IsPutting _ l = Unit

  -- Along a run, every event is an answer to the query that it names, and every command puts the
  -- records of its block, which the store accepts.
  abbrev pub IsFaithful : List (Input n) → EventLoop n → Type 0
  IsFaithful [] l = Unit
  IsFaithful (event r e ∷ inputs) l =
      IsAnswer n laws l.swarm e × IsFaithful inputs (handle_event n r e l)
  IsFaithful (command c ∷ inputs) l =
      IsPutting c l × elim (handle_command n c l) [ none ↦ Unit | some l' ↦ IsFaithful inputs l' ]
  IsFaithful (bootstrap_tick ∷ inputs) l = IsFaithful inputs (handle_periodic_bootstraps n l)
  IsFaithful (end ∷ inputs) l = Unit

  -- The records that a command puts, and those of all inputs.
  abbrev pub puts_by : Command n → ℕ
  puts_by (put_kad_record records b) = length records
  puts_by c = 0

  abbrev pub puts : List (Input n) → ℕ
  puts [] = 0
  puts (command c ∷ inputs) = puts_by c + puts inputs
  puts (event r e ∷ inputs) = puts inputs
  puts (bootstrap_tick ∷ inputs) = puts inputs
  puts (end ∷ inputs) = puts inputs

  put_all-IsCounted :
      (bound b : ℕ) (records : List DhtRecord) (l : EventLoop n)
      → AllAccepted records l
      → All (IsOfBlock b) records
      → Counted n laws bound (owes b (length records)) l.swarm l.pending_kad_queries l.active_blocks
      → (l' : EventLoop n) × (put_all n records l ≡ some l') × IsCounted n laws bound l'
  unfolding put_all IsCounted insert_query
  put_all-IsCounted bound b [] l accepted all c = (l, refl, Counted-free n laws (owes-zero b) c)
  put_all-IsCounted bound b (r ∷ rs) l (id, s', e, accepted) ((k, names, same), all) c =
      let one = λ (j : ℕ). ap (λ o. one_of o j) names ∙ ap (λ x. owes x 1 j) same in
      let next =
        Counted-insert n laws (put_record r) put_channel e
          (λ j. owes-suc b (length rs) j ∙ ap (λ x. x + owes b (length rs) j) (sym (one j))) c in
      let (l', returns, counted) =
        put_all-IsCounted bound b rs (insert_query n id put_channel s' l) accepted all next in
      (
        l',
        ap
              (λ o. elim o [
                | none ↦ none
                | some (i, w) ↦ put_all n rs (insert_query n i put_channel w l)
              ])
              e
            ∙ returns,
        counted,
      )

  -- What a command leaves, unless it panics.
  abbrev pub Keeps : ℕ → Result (EventLoop n) (EventLoop n) → Type 0
  Keeps bound panic = ⊥
  Keeps bound (err l) = IsCounted n laws bound l
  Keeps bound (ok l) = IsCounted n laws bound l

  started-Keeps :
      (bound : ℕ) (q : Query) (ch : QueryChannel) (o : Option (n.QueryId × n.Swarm))
      (l : EventLoop n)
      → n.start q l.swarm ≡ o
      → ((b : ℕ) → put_of q b ≡ 0)
      → IsCounted n laws bound l
      → Keeps bound (started n ch l o)
  unfolding started insert_query IsCounted
  started-Keeps bound q ch none l e free c = c
  started-Keeps bound q ch (some (id, s')) l e free c =
      Counted-insert n laws q ch e (λ b. sym (ap (λ x. x + 0) (free b))) c

  output-IsCounted :
      (bound : ℕ) (os : List (Output n)) (l : EventLoop n)
      → IsCounted n laws bound l
      → IsCounted n laws bound (output n os l)
  unfolding output IsCounted
  output-IsCounted bound os l c = c

  insert_swarm_event-IsCounted :
      (bound : ℕ) (peer : n.PeerId) (ch : ℕ) (l : EventLoop n)
      → IsCounted n laws bound l
      → IsCounted n laws bound (insert_swarm_event n peer ch l)
  unfolding insert_swarm_event IsCounted
  insert_swarm_event-IsCounted bound peer ch l c = c

  add_block-Counted :
      (bound b count : ℕ) (l : EventLoop n)
      → bound + count < usize_modulus
      → IsCounted n laws bound l
      → let l' = add_block n b count l in
        Counted n laws
          (bound + count)
          (owes b count)
          l'.swarm
          l'.pending_kad_queries
          l'.active_blocks
  unfolding add_block IsCounted
  add_block-Counted bound b count l small c =
      Counted-added n laws b bound count l.active_blocks small c

  -- What an operation that puts nothing keeps.
  pub run_command-Keeps :
      (bound bound' : ℕ) (c : Command n) (l : EventLoop n)
      → bound + puts_by c ≤ bound'
      → bound' < usize_modulus
      → IsPutting c l
      → IsCounted n laws bound l
      → IsCounted n laws bound' l
      → Keeps bound' (run_command n c l)
  unfolding run_command start_query or_panic
  run_command-Keeps bound bound' (start_listening a ch) l le small f _ c =
      let after = call-IsCounted n laws bound' (listen_on a) l c in
      if_elim (Keeps bound') (n.act (listen_on a) l.swarm).0 (output-IsCounted bound' _ _ after)
        after
  run_command-Keeps bound bound' (add_peer_address peer a) l le small f _ c =
      call-IsCounted n laws bound' _ l c
  run_command-Keeps bound bound' (bootstrap_peers ch) l le small f _ c =
      started-Keeps bound' bootstrap (bootstrap_channel ch) _ l refl (λ b. refl) c
  run_command-Keeps bound bound' (get_kad_record key ch) l le small f _ c =
      started-Keeps bound' (get_record key) (get_channel ch) _ l refl (λ b. refl) c
  run_command-Keeps bound bound' (put_kad_record records b) l le small (f, accepted) c _ =
      let count = length records in
      let (l', returns, counted) =
        put_all-IsCounted (bound + count) b records (add_block n b count l) accepted f
          (add_block-Counted bound b count l (omega arith) c) in
      subst (λ o. Keeps bound' (or_panic n o)) (sym returns)
        (IsCounted-le n laws (bound + count) bound' l' le counted)
  run_command-Keeps bound bound' (dial_peer peer addresses ch) l le small f _ c =
      let after = call-IsCounted n laws bound' (dial peer addresses) l c in
      if_elim (Keeps bound') (n.act (dial peer addresses) l.swarm).0
        (insert_swarm_event-IsCounted bound' peer ch _ after) after

  abort-IsCounted :
      (bound : ℕ) (c : Command n) (l : EventLoop n)
      → IsCounted n laws bound l
      → IsCounted n laws bound (abort n c l)
  unfolding abort
  abort-IsCounted bound (start_listening a ch) l c = output-IsCounted bound _ l c
  abort-IsCounted bound (add_peer_address peer a) l c = c
  abort-IsCounted bound (bootstrap_peers ch) l c = output-IsCounted bound _ l c
  abort-IsCounted bound (get_kad_record key ch) l c = output-IsCounted bound _ l c
  abort-IsCounted bound (put_kad_record records b) l c = c
  abort-IsCounted bound (dial_peer peer addresses ch) l c = output-IsCounted bound _ l c

  pub finish-Keeps :
      (bound : ℕ) (c : Command n) (r : Result (EventLoop n) (EventLoop n))
      → Keeps bound r
      → (l' : EventLoop n) × (finish n c r ≡ some l') × IsCounted n laws bound l'
  unfolding finish
  finish-Keeps bound c panic k = elim k [ ]
  finish-Keeps bound c (err l) k = (abort n c l, refl, abort-IsCounted bound c l k)
  finish-Keeps bound c (ok l) k = (l, refl, k)

-- ===== src/EventLoop/Counted.antt =====
-- The counts of each block are those of its PUT operations: the steps that keep this.
use smallgod.Prelude.{
  ℕ, ◌+◌, ◌≤◌, ◌≡◌, ap, ◌∙◌, sym, subst, Option, none, some, arith, ℕ_discrete, inl, inr,
  Option-cases,
}
use smallgod.Prelude.Maps.{HashMap, get, remove, insert, get-remove_self, get-insert_ne}
use smallgod.EventLoop.{Libp2p, Query, put_record, Action, QueryChannel, BlockStat, block_num}
use smallgod.EventLoop.Keys.{DhtKey, try_from}
use smallgod.EventLoop.Pending.{
  Laws, owes, IsMap, total, total-same, remove-IsMap, remove-absent, total-remove, get-remove-some,
}

-- Where a record's key names a block, one PUT of that block.
abbrev pub one_of : Option DhtKey → ℕ → ℕ
one_of none b = 0
one_of (some k) b = owes (block_num k) 1 b

abbrev pub put_of : Query → ℕ → ℕ
put_of (put_record r) b = one_of (try_from r.key) b
put_of _ b = 0

-- The counts of a block of which `pending` operations are pending and `debt` are to be added or have
-- just ended, with at most `bound` in total.
abbrev pub BlockCounted : ℕ → ℕ → ℕ → Option BlockStat → Type 0
BlockCounted bound debt pending none = pending + debt ≡ 0
BlockCounted bound debt pending (some s) =
    (s.total_count ≡ s.remaining_counter + s.success_counter + s.error_counter)
    × (s.remaining_counter ≡ pending + debt)
    × (s.total_count ≤ bound)

module _ (n : Libp2p) (laws : Laws n) where
  -- The PUT operations of a block that are pending.
  abbrev pub pending_puts : ℕ → n.Swarm → HashMap n.QueryId QueryChannel → ℕ
  pending_puts b s m = total n.QueryId_discrete (λ id. put_of (laws.query_of id s) b) m

  pub record Counted (bound : ℕ) (debt : ℕ → ℕ) (s : n.Swarm) (m : HashMap n.QueryId QueryChannel)
      (blocks : HashMap ℕ BlockStat) : Type 0 where
    pub is_map : IsMap n.QueryId_discrete m
    pub is_issued :
        (id : n.QueryId) (ch : QueryChannel)
        → get n.QueryId_discrete id m ≡ some ch
        → laws.Issued id s
    pub is_counted :
        (b : ℕ) → BlockCounted bound (debt b) (pending_puts b s m) (get ℕ_discrete b blocks)

  BlockCounted-move :
      (bound debt debt' pending pending' : ℕ) (o : Option BlockStat)
      → pending + debt ≡ pending' + debt'
      → BlockCounted bound debt pending o
      → BlockCounted bound debt' pending' o
  BlockCounted-move bound debt debt' pending pending' none e h = sym e ∙ h
  BlockCounted-move bound debt debt' pending pending' (some s) e (h, g, i) = (h, g ∙ e, i)

  -- A swarm in which the ids that are pending are issued, and are those of the same queries.
  Counted-swarm :
      {bound : ℕ} {debt : ℕ → ℕ} {s s' : n.Swarm} {m : HashMap n.QueryId QueryChannel}
      {blocks : HashMap ℕ BlockStat}
      → ((id : n.QueryId)
          → laws.Issued id s
          → laws.Issued id s' × (laws.query_of id s' ≡ laws.query_of id s))
      → Counted bound debt s m blocks
      → Counted bound debt s' m blocks
  Counted-swarm {bound = bound} {debt = debt} {s = s} {s' = s'} {m = m} {blocks = blocks} keeps c =
      record {
        is_map = c.is_map;
        is_issued = λ id ch h. (keeps id (c.is_issued id ch h)).0;
        is_counted = λ b.
            let same : pending_puts b s m ≡ pending_puts b s' m =
              total-same n.QueryId_discrete _ _ m c.is_map
                (λ id ch h. ap (λ q. put_of q b) (sym (keeps id (c.is_issued id ch h)).1)) in
            BlockCounted-move bound (debt b) (debt b) _ _ (get ℕ_discrete b blocks)
              (ap (λ x. x + debt b) same) (c.is_counted b);
      }

  pub Counted-act :
      (a : Action n.PeerId n.Multiaddr) {bound : ℕ} {debt : ℕ → ℕ} {s : n.Swarm}
      {m : HashMap n.QueryId QueryChannel} {blocks : HashMap ℕ BlockStat}
      → Counted bound debt s m blocks
      → Counted bound debt (n.act a s).1 m blocks
  Counted-act a {s = s} c = Counted-swarm (laws.act_keeps a s) c

  -- A query that is started and not waited for.
  pub Counted-start :
      (q : Query) {bound : ℕ} {debt : ℕ → ℕ} {s : n.Swarm} {m : HashMap n.QueryId QueryChannel}
      {blocks : HashMap ℕ BlockStat} {id : n.QueryId} {s' : n.Swarm}
      → n.start q s ≡ some (id, s')
      → Counted bound debt s m blocks
      → Counted bound debt s' m blocks
  Counted-start q {s = s} {id = id} {s' = s'} e c = Counted-swarm (laws.start_keeps q s id s' e) c

  -- A query that is started and waited for.
  pub Counted-insert :
      (q : Query) (ch : QueryChannel) {bound : ℕ} {debt debt' : ℕ → ℕ} {s : n.Swarm}
      {m : HashMap n.QueryId QueryChannel} {blocks : HashMap ℕ BlockStat} {id : n.QueryId}
      {s' : n.Swarm}
      → n.start q s ≡ some (id, s')
      → ((b : ℕ) → debt b ≡ put_of q b + debt' b)
      → Counted bound debt s m blocks
      → Counted bound debt' s' (insert n.QueryId_discrete id ch m) blocks
  unfolding insert
  Counted-insert q ch {bound = bound} {debt = debt} {debt' = debt'} {s = s} {m = m}
        {blocks = blocks} {id = id} {s' = s'} e parts c =
      let (fresh, now) = laws.start_fresh q s id s' e in
      let is_q = laws.start_query q s id s' e in
      let c' = Counted-start q {bound = bound} {debt = debt} {m = m} {blocks = blocks} e c in
      let is_new : get n.QueryId_discrete id m ≡ none =
        elim (Option-cases (get n.QueryId_discrete id m)) [
          | inl new ↦ new
          | inr (old, has) ↦ absurd (fresh (c.is_issued id old has))
        ] in
      record {
        is_map = (
          get-remove_self n.QueryId_discrete id m,
          remove-IsMap n.QueryId_discrete id m c.is_map,
        );
        is_issued = λ j d h. elim (n.QueryId_discrete j id) [
          | yes same ↦ subst (λ i. laws.Issued i s') (sym same) now
          | no other ↦ c'.is_issued j d (sym (get-insert_ne n.QueryId_discrete id j ch m other) ∙ h)
        ];
        is_counted = λ b.
            let same =
              ap (λ r. pending_puts b s' r) (remove-absent n.QueryId_discrete id m is_new) in
            let put = ap (λ r. put_of r b) is_q in
            let owed = parts b in
            BlockCounted-move bound (debt b) _ _ _ (get ℕ_discrete b blocks) (omega arith)
              (c'.is_counted b);
      }

  -- A query that is no more pending, and whose PUT is not yet counted.
  pub Counted-remove :
      (id : n.QueryId) {bound : ℕ} {s : n.Swarm} {m : HashMap n.QueryId QueryChannel}
      {blocks : HashMap ℕ BlockStat} {ch : QueryChannel}
      → get n.QueryId_discrete id m ≡ some ch
      → Counted bound (λ b. 0) s m blocks
      → Counted bound (put_of (laws.query_of id s)) s (remove n.QueryId_discrete id m) blocks
  Counted-remove id {bound = bound} {s = s} {m = m} {blocks = blocks} e c = record {
    is_map = remove-IsMap n.QueryId_discrete id m c.is_map;
    is_issued = λ j d h. c.is_issued j d (get-remove-some n.QueryId_discrete id j m h);
    is_counted = λ b.
        let gone =
          total-remove n.QueryId_discrete (λ i. put_of (laws.query_of i s) b) id m c.is_map e in
        BlockCounted-move bound 0 _ _ _ (get ℕ_discrete b blocks) (omega arith) (c.is_counted b);
  }

  -- Without a PUT there is no debt.
  pub Counted-free :
      {bound : ℕ} {debt : ℕ → ℕ} {s : n.Swarm} {m : HashMap n.QueryId QueryChannel}
      {blocks : HashMap ℕ BlockStat}
      → ((b : ℕ) → debt b ≡ 0)
      → Counted bound debt s m blocks
      → Counted bound (λ b. 0) s m blocks
  Counted-free {bound = bound} {s = s} {m = m} {blocks = blocks} free c = record {
    is_map = c.is_map;
    is_issued = c.is_issued;
    is_counted = λ b.
        subst (λ d. BlockCounted bound d (pending_puts b s m) (get ℕ_discrete b blocks)) (free b)
          (c.is_counted b);
  }

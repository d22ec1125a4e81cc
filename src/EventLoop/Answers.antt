-- ===== src/EventLoop/Answers.antt =====
-- The results of queries keep the counts of the blocks.
use smallgod.Prelude.{
  ℕ, ◌<◌, ◌≡◌, refl, ap, sym, subst, Bool, true, false, Option, none, some, List, ℕ_discrete, inl,
  inr, Option-cases, if_elim,
}
use smallgod.Prelude.Maps.{get, remove, insert}
use smallgod.Prelude.Text.{Bytes}
use smallgod.EventLoop.{
  Libp2p, DhtRecord, put_record, get_record, bootstrap, QueryChannel, get_channel, put_channel,
  bootstrap_channel, BlockStat, block_num, EventLoop, Output, output, handle_put_result, count_key,
  count_block, usize_modulus, count_result,
}
use smallgod.EventLoop.Keys.{DhtKey, try_from}
use smallgod.EventLoop.Pending.{Laws, remove-absent}
use smallgod.EventLoop.Counted.{Counted, put_of, one_of, Counted-remove, Counted-free}
use smallgod.EventLoop.Results.{Counted-result, Counted-monitored}
use smallgod.EventLoop.Events.{
  remove_query, pending_query, answer_get, get_result, count_put, put_result, answer_bootstrap,
  bootstrap_result,
}
use smallgod.EventLoop.Kept.{IsCounted, call-IsCounted}

module _ (n : Libp2p) (laws : Laws n) (bound : ℕ) where
  remove_query-IsCounted :
      (id : n.QueryId) (l : EventLoop n)
      → ((b : ℕ) → put_of (laws.query_of id l.swarm) b ≡ 0)
      → IsCounted n laws bound l
      → IsCounted n laws bound (remove_query n id l)
  unfolding remove_query IsCounted
  remove_query-IsCounted id l free c =
      elim (Option-cases (get n.QueryId_discrete id l.pending_kad_queries)) [
        | inl absent ↦
            subst (λ m. Counted n laws bound (λ b. 0) l.swarm m l.active_blocks)
              (sym (remove-absent n.QueryId_discrete id l.pending_kad_queries absent)) c
        | inr (ch, present) ↦ Counted-free n laws free (Counted-remove n laws id present c)
      ]

  answer_get-IsCounted :
      (found : Option n.PeerRecord) (o : Option QueryChannel) (l : EventLoop n)
      → IsCounted n laws bound l
      → IsCounted n laws bound (answer_get n found o l)
  unfolding answer_get output IsCounted
  answer_get-IsCounted (some r) (some (get_channel ch)) l c = c
  answer_get-IsCounted (some r) (some put_channel) l c = c
  answer_get-IsCounted (some r) (some (bootstrap_channel ch)) l c = c
  answer_get-IsCounted (some r) none l c = c
  answer_get-IsCounted none (some (get_channel ch)) l c = c
  answer_get-IsCounted none (some put_channel) l c = c
  answer_get-IsCounted none (some (bootstrap_channel ch)) l c = c
  answer_get-IsCounted none none l c = c

  pub get_result-IsCounted :
      (id : n.QueryId) (found : Option n.PeerRecord) (key : Bytes) (l : EventLoop n)
      → laws.query_of id l.swarm ≡ get_record key
      → IsCounted n laws bound l
      → IsCounted n laws bound (get_result n id found l)
  unfolding get_result
  get_result-IsCounted id found key l e c =
      answer_get-IsCounted found (pending_query n id l) (remove_query n id l)
        (remove_query-IsCounted id l (λ b. ap (λ q. put_of q b) e) c)

  answer_bootstrap-IsCounted :
      (succeeded : Bool) (o : Option QueryChannel) (l : EventLoop n)
      → IsCounted n laws bound l
      → IsCounted n laws bound (answer_bootstrap n succeeded o l)
  unfolding answer_bootstrap output IsCounted
  answer_bootstrap-IsCounted true (some (bootstrap_channel ch)) l c = c
  answer_bootstrap-IsCounted true (some put_channel) l c = c
  answer_bootstrap-IsCounted true (some (get_channel ch)) l c = c
  answer_bootstrap-IsCounted true none l c = c
  answer_bootstrap-IsCounted false (some (bootstrap_channel ch)) l c = c
  answer_bootstrap-IsCounted false (some put_channel) l c = c
  answer_bootstrap-IsCounted false (some (get_channel ch)) l c = c
  answer_bootstrap-IsCounted false none l c = c

  pub bootstrap_result-IsCounted :
      (id : n.QueryId) (succeeded : Bool) (l : EventLoop n)
      → laws.query_of id l.swarm ≡ bootstrap
      → IsCounted n laws bound l
      → IsCounted n laws bound (bootstrap_result n id succeeded l)
  unfolding bootstrap_result
  bootstrap_result-IsCounted id succeeded l e c =
      answer_bootstrap-IsCounted succeeded (pending_query n id l) (remove_query n id l)
        (remove_query-IsCounted id l (λ b. ap (λ q. put_of q b) e) c)

  -- The PUT of the query that has ended is counted, and its block is monitored.
  count_told-IsCounted :
      (old : BlockStat) (k : DhtKey) (duration : ℕ) (is_error : Bool) (os : List (Output n))
      (l : EventLoop n)
      → bound < usize_modulus
      → get ℕ_discrete (block_num k) l.active_blocks ≡ some old
      → Counted n laws bound (one_of (some k)) l.swarm l.pending_kad_queries l.active_blocks
      → IsCounted n laws bound (
          output n os (record l {
            active_blocks =
                insert ℕ_discrete
                  (block_num k)
                  (count_result duration is_error old)
                  l.active_blocks;
          }))
  unfolding output IsCounted
  count_told-IsCounted old k duration is_error os l small e c =
      Counted-result n laws k bound duration is_error old l.active_blocks small e c

  count_block-IsCounted :
      (o : Option BlockStat) (k : DhtKey) (key : Bytes) (duration : ℕ) (is_error : Bool)
      (l : EventLoop n)
      → bound < usize_modulus
      → get ℕ_discrete (block_num k) l.active_blocks ≡ o
      → Counted n laws bound (one_of (some k)) l.swarm l.pending_kad_queries l.active_blocks
      → IsCounted n laws bound (count_block n o k key duration is_error l)
  unfolding count_block
  count_block-IsCounted none k key duration is_error l small e c =
      absurd (Counted-monitored n laws k bound l.active_blocks e c)
  count_block-IsCounted (some old) k key duration is_error l small e c =
      let counted = count_told-IsCounted old k duration is_error _ l small e c in
      if_elim (IsCounted n laws bound) l.is_fat_client (call-IsCounted n laws bound _ _ counted)
        counted

  count_key-IsCounted :
      (o : Option DhtKey) (key : Bytes) (duration : ℕ) (is_error : Bool) (l : EventLoop n)
      → bound < usize_modulus
      → Counted n laws bound (one_of o) l.swarm l.pending_kad_queries l.active_blocks
      → IsCounted n laws bound (count_key n o key duration is_error l)
  unfolding count_key IsCounted
  count_key-IsCounted none key duration is_error l small c = Counted-free n laws (λ b. refl) c
  count_key-IsCounted (some k) key duration is_error l small c =
      count_block-IsCounted _ k key duration is_error l small refl c

  count_put-IsCounted :
      (o : Option QueryChannel) (id : n.QueryId) (key : Bytes) (duration : ℕ) (is_error : Bool)
      (r : DhtRecord) (l : EventLoop n)
      → bound < usize_modulus
      → laws.query_of id l.swarm ≡ put_record r
      → r.key ≡ key
      → pending_query n id l ≡ o
      → IsCounted n laws bound l
      → IsCounted n laws bound (count_put n o key duration is_error (remove_query n id l))
  unfolding count_put handle_put_result remove_query pending_query IsCounted
  count_put-IsCounted none id key duration is_error r l small e same absent c =
      subst (λ m. Counted n laws bound (λ b. 0) l.swarm m l.active_blocks)
        (sym (remove-absent n.QueryId_discrete id l.pending_kad_queries absent)) c
  count_put-IsCounted (some ch) id key duration is_error r l small e same present c =
      let m = remove n.QueryId_discrete id l.pending_kad_queries in
      let removed = Counted-remove n laws id present c in
      let put = subst (λ q. Counted n laws bound (put_of q) l.swarm m l.active_blocks) e removed in
      count_key-IsCounted (try_from key) key duration is_error (remove_query n id l) small
        (subst (λ k. Counted n laws bound (one_of (try_from k)) l.swarm m l.active_blocks) same put)

  pub put_result-IsCounted :
      (id : n.QueryId) (key : Bytes) (duration : ℕ) (is_error : Bool) (l : EventLoop n)
      → bound < usize_modulus
      → ((r : DhtRecord) × (laws.query_of id l.swarm ≡ put_record r) × (r.key ≡ key))
      → IsCounted n laws bound l
      → IsCounted n laws bound (put_result n id key duration is_error l)
  unfolding put_result
  put_result-IsCounted id key duration is_error l small (r, e, same) c =
      count_put-IsCounted (pending_query n id l) id key duration is_error r l small e same refl c

-- ===== src/EventLoop/Results.antt =====
-- The counts of a block when PUT operations begin and when one has ended.
use smallgod.Prelude.{
  ℕ, ◌+◌, ◌≤◌, ◌<◌, ◌≡◌, ◌≢◌, sym, subst, Bool, true, false, Option, none, some, arith, ℕ_discrete,
}
use smallgod.Prelude.Maps.{HashMap, get, insert, get-insert_self, get-insert_ne}
use smallgod.EventLoop.{
  Libp2p, QueryChannel, BlockStat, block_num, count_result, add_usize, sub_usize, usize_modulus,
  increase_block_stat_counters,
}
use smallgod.EventLoop.Keys.{DhtKey}
use smallgod.EventLoop.Pending.{Laws, owes}
use smallgod.EventLoop.Counted.{BlockCounted, Counted, pending_puts, one_of}
use smallgod.EventLoop.Commands.{added}

count_result-BlockCounted :
    (bound p duration : ℕ) (is_error : Bool) (s : BlockStat)
    → bound < usize_modulus
    → BlockCounted bound 1 p (some s)
    → BlockCounted bound 0 p (some (count_result duration is_error s))
unfolding count_result add_usize sub_usize
count_result-BlockCounted bound p duration true s small (sum, left, le) =
    (ground arith, ground arith, le)
count_result-BlockCounted bound p duration false s small (sum, left, le) =
    (ground arith, ground arith, le)

added-BlockCounted :
    (n : Libp2p) (bound p count : ℕ) (o : Option BlockStat)
    → bound + count < usize_modulus
    → BlockCounted bound 0 p o
    → BlockCounted (bound + count) count p (some (added n count o))
unfolding added increase_block_stat_counters add_usize
added-BlockCounted n bound p count none small h = (omega arith, omega arith, omega arith)
added-BlockCounted n bound p count (some s) small (sum, left, le) =
    (omega arith, omega arith, omega arith)

pub BlockCounted-le :
    (bound bound' debt p : ℕ) (o : Option BlockStat)
    → bound ≤ bound'
    → BlockCounted bound debt p o
    → BlockCounted bound' debt p o
BlockCounted-le bound bound' debt p none le h = h
BlockCounted-le bound bound' debt p (some s) le (sum, left, small) = (sum, left, omega arith)

owes_self : (b k : ℕ) → owes b k b ≡ k
owes_self b k = ground arith

owes_other : (b k j : ℕ) → j ≢ b → owes b k j ≡ 0
owes_other b k j h = ground arith

insert-BlockCounted :
    (b0 : ℕ) (new : BlockStat) (blocks : HashMap ℕ BlockStat) (bound : ℕ) (debt p : ℕ → ℕ)
    → BlockCounted bound (debt b0) (p b0) (some new)
    → ((b : ℕ) → b ≢ b0 → BlockCounted bound (debt b) (p b) (get ℕ_discrete b blocks))
    → (b : ℕ)
    → BlockCounted bound (debt b) (p b) (get ℕ_discrete b (insert ℕ_discrete b0 new blocks))
insert-BlockCounted b0 new blocks bound debt p here there b =
    let after = insert ℕ_discrete b0 new blocks in
    elim (ℕ_discrete b b0) [
      | yes same ↦
          subst (λ j. BlockCounted bound (debt j) (p j) (get ℕ_discrete j after)) (sym same)
            (subst (BlockCounted bound (debt b0) (p b0))
              (sym (get-insert_self ℕ_discrete b0 new blocks)) here)
      | no other ↦
          subst (BlockCounted bound (debt b) (p b))
            (sym (get-insert_ne ℕ_discrete b0 b new blocks other)) (there b other)
    ]

module _ (n : Libp2p) (laws : Laws n) {s : n.Swarm} {m : HashMap n.QueryId QueryChannel} where
  pub Counted-result :
      (k : DhtKey) (bound duration : ℕ) (is_error : Bool) (old : BlockStat)
      (blocks : HashMap ℕ BlockStat)
      → bound < usize_modulus
      → get ℕ_discrete (block_num k) blocks ≡ some old
      → Counted n laws bound (one_of (some k)) s m blocks
      → Counted n laws bound
          (λ b. 0)
          s
          m
          (insert ℕ_discrete (block_num k) (count_result duration is_error old) blocks)
  Counted-result k bound duration is_error old blocks small e c = record {
    is_map = c.is_map;
    is_issued = c.is_issued;
    is_counted =
        let b0 = block_num k in
        let p = λ (b : ℕ). pending_puts n laws b s m in
        let before = subst (BlockCounted bound (owes b0 1 b0) (p b0)) e (c.is_counted b0) in
        insert-BlockCounted b0 (count_result duration is_error old) blocks bound (λ b. 0) p
          (count_result-BlockCounted bound (p b0) duration is_error old small
            (subst (λ d. BlockCounted bound d (p b0) (some old)) (owes_self b0 1) before))
          (λ b other.
            subst (λ d. BlockCounted bound d (p b) (get ℕ_discrete b blocks))
              (owes_other b0 1 b other) (c.is_counted b));
  }

  -- A PUT that ended belongs to a block that is monitored.
  pub Counted-monitored :
      (k : DhtKey) (bound : ℕ) (blocks : HashMap ℕ BlockStat)
      → get ℕ_discrete (block_num k) blocks ≡ none
      → ¬ Counted n laws bound (one_of (some k)) s m blocks
  Counted-monitored k bound blocks e c =
      let h = c.is_counted (block_num k) in
      let g =
        subst
          (BlockCounted bound (owes (block_num k) 1 (block_num k))
            (pending_puts n laws (block_num k) s m))
          e h in
      ground arith

  pub Counted-added :
      (b0 bound count : ℕ) (blocks : HashMap ℕ BlockStat)
      → bound + count < usize_modulus
      → Counted n laws bound (λ b. 0) s m blocks
      → Counted n laws
          (bound + count)
          (owes b0 count)
          s
          m
          (insert ℕ_discrete b0 (added n count (get ℕ_discrete b0 blocks)) blocks)
  Counted-added b0 bound count blocks small c = record {
    is_map = c.is_map;
    is_issued = c.is_issued;
    is_counted =
        let p = λ (b : ℕ). pending_puts n laws b s m in
        let o = get ℕ_discrete b0 blocks in
        insert-BlockCounted b0 (added n count o) blocks (bound + count) (owes b0 count) p
          (subst (λ d. BlockCounted (bound + count) d (p b0) (some (added n count o)))
            (sym (owes_self b0 count))
            (added-BlockCounted n bound (p b0) count o small (c.is_counted b0)))
          (λ b other.
            subst (λ d. BlockCounted (bound + count) d (p b) (get ℕ_discrete b blocks))
              (sym (owes_other b0 count b other))
              (BlockCounted-le bound (bound + count) 0 (p b) (get ℕ_discrete b blocks) (omega arith)
                (c.is_counted b)));
  }

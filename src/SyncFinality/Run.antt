-- ===== src/SyncFinality/Run.antt =====
-- `sync` as a whole: what it has verified when it succeeds, and when it succeeds.
use smallgod.Prelude.{
  ℕ, zero, suc, ◌+◌, ◌%◌, ◌≤◌, ◌<◌, ◌≡◌, ◌≢◌, true, none, some, List, [], ◌∷◌, ◌++◌, length, ok,
  arith,
}
use smallgod.Chain.{Primitives, Justification}
use smallgod.Utils.{filter_auth_set_changes}
use smallgod.SyncFinality.{
  FinalityProof, Put, Progress, same_set, next_set, checkpoint_of, block_header, Client,
  verify_change, link_header, round, sync_loop, init, sync, u32_mod,
}
use smallgod.SyncFinality.Loop.{
  IsProved, Synced, done, plain, change, trace, sync_loop-ok, sync_loop-ends,
}

module _ (c : Primitives) (AccountId : Type 0) (client : Client c AccountId) where
  -- From a block that is not past the last one, with fuel for the blocks up to the last, `sync`
  -- comes to an end; and if that is without an error, there are headers of all blocks up to the
  -- last, linked by their parent hashes from the start's, where for every header that changes the
  -- authorities the node has a finality proof for that block's number whose justification passes
  -- `check_finality` against the validator set before the change; and the writes are these headers,
  -- with a checkpoint behind each change and nothing else. That the justification is for that header
  -- is not said, since the code does not compare them.
  pub sync-Synced :
      (fuel last : ℕ) (s : Progress c)
      → init c AccountId client ≡ ok s
      → s.number ≤ last + 1
      → last + 1 < u32_mod
      → last + 1 < s.number + fuel
      → ((sync c AccountId client fuel last).1 ≢ none)
        × ((t : Progress c)
            → (sync c AccountId client fuel last).1 ≡ some (ok t)
            → (hs : List c.Header) × Synced c AccountId client s hs t
              × ((sync c AccountId client fuel last).0 ≡ trace c s hs)
              × (s.number + length hs ≡ last + 1))
  unfolding sync
  sync-Synced fuel last s start le small enough = (
    λ h. sync_loop-ends c AccountId client fuel last s [] le small enough (ground arith),
    λ t h.
        sync_loop-ok c AccountId client fuel last s t [] (sync c AccountId client fuel last).0
          (ground arith) le small,
  )

  -- The node answers for the header of every block of a run, and for the block of every proof, and
  -- the database accepts every write.
  abbrev pub IsServed : ℕ → List c.Header → Type 0
  IsServed n [] = Unit
  IsServed n (h ∷ hs) =
      ((hash : c.H256) × (client.get_block_hash n ≡ some hash)
        × (client.get_header_by_hash hash ≡ some h))
      × IsServed ((n + 1) % u32_mod) hs

  pub record IsHonest : Type 0 where
    pub stores : (w : List (Put c)) (p : Put c) → client.stores w p ≡ true
    pub proof_headers :
        (n : ℕ) (p : FinalityProof c.H256 (Justification c))
        → client.request_finality_proof n ≡ some p
        → (h : c.Header) × (client.get_header_by_hash p.block ≡ some h)

  round_plain :
      (s : Progress c) (h : c.Header) (w : List (Put c)) (hash : c.H256)
      → IsHonest
      → client.get_block_hash s.number ≡ some hash
      → client.get_header_by_hash hash ≡ some h
      → c.parent_hash h ≡ s.prev_hash
      → filter_auth_set_changes c h ≡ []
      → (round c AccountId client s w).1 ≡ ok (same_set c s h)
  unfolding round link_header
  round_plain s h w hash honest known found linked quiet =
      ground (arith, honest.stores w (block_header s.number h))

  round_change :
      (s : Progress c) (h : c.Header) (a : List (c.Public × ℕ)) (more : List (List (c.Public × ℕ)))
      (w : List (Put c)) (hash : c.H256)
      → IsHonest
      → client.get_block_hash s.number ≡ some hash
      → client.get_header_by_hash hash ≡ some h
      → c.parent_hash h ≡ s.prev_hash
      → filter_auth_set_changes c h ≡ a ∷ more
      → IsProved c AccountId client s
      → (round c AccountId client s w).1 ≡ ok (next_set c s h a)
  unfolding round link_header verify_change
  round_change s h a more w hash honest known found linked changed (proof, given, accepted) =
      let (p_h, there) = honest.proof_headers s.number proof given in
      ground (
        arith,
        honest.stores w (block_header s.number h),
        honest.stores (w ++ block_header s.number h ∷ []) (checkpoint_of c (next_set c s h a)),
      )

  sync_loop_succeeds :
      (fuel last : ℕ) (s t : Progress c) (hs : List c.Header) (w : List (Put c))
      → IsHonest
      → IsServed s.number hs
      → Synced c AccountId client s hs t
      → s.number + length hs ≡ last + 1
      → last + 1 < u32_mod
      → last + 1 < s.number + fuel
      → (sync_loop c AccountId client fuel last s w).1 ≡ some (ok t)
  unfolding sync_loop
  sync_loop_succeeds zero last s t hs w honest served r count small enough = absurd (omega arith)
  sync_loop_succeeds (suc fuel) last s t [] w honest served done count small enough = ground arith
  sync_loop_succeeds (suc fuel) last s t (h ∷ hs) w honest ((hash, known, found), rest)
        (plain _ linked quiet r) count small enough =
      let went = round_plain s h w hash honest known found linked quiet in
      let next =
        sync_loop_succeeds fuel last (same_set c s h) t hs (round c AccountId client s w).0 honest
          rest r (ground arith) small (ground arith) in
      ground arith
  sync_loop_succeeds (suc fuel) last s t (h ∷ hs) w honest ((hash, known, found), rest)
        (change _ a more linked changed proved r) count small enough =
      let went = round_change s h a more w hash honest known found linked changed proved in
      let next =
        sync_loop_succeeds fuel last (next_set c s h a) t hs (round c AccountId client s w).0 honest
          rest r (ground arith) small (ground arith) in
      ground arith

  -- If headers up to the last block are linked from the start's block and their changes are
  -- proved, and the node serves them and the database accepts every write, `sync` succeeds.
  pub sync_succeeds :
      (fuel last : ℕ) (s t : Progress c) (hs : List c.Header)
      → init c AccountId client ≡ ok s
      → IsHonest
      → IsServed s.number hs
      → Synced c AccountId client s hs t
      → s.number + length hs ≡ last + 1
      → last + 1 < u32_mod
      → last + 1 < s.number + fuel
      → (sync c AccountId client fuel last).1 ≡ some (ok t)
  unfolding sync
  sync_succeeds fuel last s t hs start honest served r count small enough =
      let run = sync_loop_succeeds fuel last s t hs [] honest served r count small enough in
      ground arith

-- ===== src/SyncFinality/Loop.antt =====
-- What a run of the loop that ends without an error has checked and written, and that it ends.
use mathlib.Core.List.{append_assoc, append-nil}
use smallgod.Prelude.{
  ℕ, zero, suc, ◌+◌, ◌%◌, ◌≤◌, ◌<◌, ◌≡◌, ◌≢◌, refl, inl, inr, none, some, List, [], ◌∷◌, ◌++◌,
  Option-cases, List-cases, Bool-cases, length, Result-cases, ok, arith, subst, ap, ◌==◌,
}
use smallgod.Chain.{Primitives, Justification}
use smallgod.Finality.{check_finality}
use smallgod.Utils.{filter_auth_set_changes}
use smallgod.SyncFinality.{
  FinalityProof, Put, Progress, same_set, next_set, checkpoint_of, Client, verify_change,
  link_header, round, sync_loop, block_header, u32_mod,
}

module _ (c : Primitives) where
  -- The puts of a run over the headers: each header, and a checkpoint behind a change.
  pub trace : Progress c → List c.Header → List (Put c)
  trace s [] = []
  trace s (h ∷ hs) = block_header s.number h ∷ elim (filter_auth_set_changes c h) [
    | [] ↦ trace (same_set c s h) hs
    | authorities ∷ _ ↦
        checkpoint_of c (next_set c s h authorities) ∷ trace (next_set c s h authorities) hs
  ]

module _ (c : Primitives) (AccountId : Type 0) (client : Client c AccountId) where
  -- The node gives a proof for the block's number, and its justification passes the check against the
  -- validator set. As in the code, its target is not compared with the block.
  abbrev pub IsProved : Progress c → Type 0
  IsProved s =
      (proof : FinalityProof c.H256 (Justification c)) × (client.request_finality_proof s.number
        ≡ some proof)
      × (check_finality c (record { set_id = s.set_id; validator_set = s.validators })
            proof.justification
          ≡ ok tt)

  -- From one state of the variables to another over headers that are linked by their parent
  -- hashes, where the proof for the number of every change of the authorities passes the check against
  -- the validator set before it.
  pub data Synced : Progress c → List c.Header → Progress c → Type 0 where
    done : {s : Progress c} → Synced s [] s
    plain :
        {s t : Progress c} {hs : List c.Header} (h : c.Header)
        → c.parent_hash h ≡ s.prev_hash
        → filter_auth_set_changes c h ≡ []
        → Synced (same_set c s h) hs t
        → Synced s (h ∷ hs) t
    change :
        {s t : Progress c} {hs : List c.Header} (h : c.Header) (authorities : List (c.Public × ℕ))
        (more : List (List (c.Public × ℕ)))
        → c.parent_hash h ≡ s.prev_hash
        → filter_auth_set_changes c h ≡ authorities ∷ more
        → IsProved s
        → Synced (next_set c s h authorities) hs t
        → Synced s (h ∷ hs) t

  verify_change-ok :
      (s t : Progress c) (h : c.Header) (a : List (c.Public × ℕ)) (w : List (Put c))
      → (verify_change c AccountId client s h a w).1 ≡ ok t
      → IsProved s
        × (t ≡ next_set c s h a)
        × ((verify_change c AccountId client s h a w).0
            ≡ w ++ checkpoint_of c (next_set c s h a) ∷ [])
  unfolding verify_change
  verify_change-ok s t h a w e = elim (Option-cases (client.request_finality_proof s.number)) [
    | inl failed ↦ absurd (ground arith)
    | inr (proof, given) ↦ elim (Option-cases (client.get_header_by_hash proof.block)) [
      | inl failed ↦ absurd (ground arith)
      | inr (p_h, found) ↦
          elim (Result-cases (
            check_finality c (record { set_id = s.set_id; validator_set = s.validators })
              proof.justification)) [
                | inl (u, accepted) ↦ ((proof, given, accepted), ground arith, ground arith)
                | inr (inl (x, refused)) ↦ absurd (ground arith)
                | inr (inr panicked) ↦ absurd (ground arith)
              ]
    ]
  ]

  -- What a round that goes on has found, for the header of its block.
  data Checked (s t : Progress c) (puts : List (Put c)) : Type 0 where
    same :
        (h : c.Header)
        → c.parent_hash h ≡ s.prev_hash
        → filter_auth_set_changes c h ≡ []
        → t ≡ same_set c s h
        → puts ≡ block_header s.number h ∷ []
        → Checked s t puts
    changed :
        (h : c.Header) (a : List (c.Public × ℕ)) (more : List (List (c.Public × ℕ)))
        → c.parent_hash h ≡ s.prev_hash
        → filter_auth_set_changes c h ≡ a ∷ more
        → IsProved s
        → t ≡ next_set c s h a
        → puts ≡ block_header s.number h ∷ checkpoint_of c (next_set c s h a) ∷ []
        → Checked s t puts

  link_header-ok :
      (s t : Progress c) (h : c.Header) (w : List (Put c))
      → (link_header c AccountId client s h (w ++ block_header s.number h ∷ [])).1 ≡ ok t
      → (puts : List (Put c)) × Checked s t puts
        × ((link_header c AccountId client s h (w ++ block_header s.number h ∷ [])).0 ≡ w ++ puts)
  unfolding link_header
  link_header-ok s t h w e = elim (c.H256_discrete (c.parent_hash h) s.prev_hash) [
    | no broken ↦ absurd (ground arith)
    | yes linked ↦ elim (List-cases (filter_auth_set_changes c h)) [
      | inl none_found ↦
          (block_header s.number h ∷ [], same h linked none_found (ground arith) refl, ground arith)
      | inr (a, more, found) ↦
          let (proved, e', w') =
            verify_change-ok s t h a (w ++ block_header s.number h ∷ []) (ground arith) in
          (
            block_header s.number h ∷ checkpoint_of c (next_set c s h a) ∷ [],
            changed h a more linked found proved e' refl,
            ground (
              arith,
              append_assoc w (block_header s.number h ∷ [])
                  (checkpoint_of c (next_set c s h a) ∷ []),
            ),
          )
    ]
  ]

  round-ok :
      (s t : Progress c) (w : List (Put c))
      → (round c AccountId client s w).1 ≡ ok t
      → (puts : List (Put c)) × Checked s t puts × ((round c AccountId client s w).0 ≡ w ++ puts)
  unfolding round
  round-ok s t w e = elim (Option-cases (client.get_block_hash s.number)) [
    | inl failed ↦ absurd (ground arith)
    | inr (hash, known) ↦ elim (Option-cases (client.get_header_by_hash hash)) [
      | inl failed ↦ absurd (ground arith)
      | inr (h, found) ↦ elim (Bool-cases (client.stores w (block_header s.number h))) [
        | inr failed ↦ absurd (ground arith)
        | inl stored ↦
            let (puts, checked, w') = link_header-ok s t h w (ground arith) in
            (puts, checked, ground arith)
      ]
    ]
  ]

  -- One more header in front of a run.
  Synced-cons :
      (s u : Progress c) (puts : List (Put c)) (hs : List c.Header) (t : Progress c)
      → Checked s u puts
      → Synced u hs t
      → (hs' : List c.Header) × Synced s hs' t
        × (puts ++ trace c u hs ≡ trace c s hs')
        × (length hs' ≡ length hs + 1)
  unfolding trace
  Synced-cons s u puts hs t (same h linked none_found e p) r = (
    h ∷ hs,
    plain h linked none_found (subst (λ x. Synced x hs t) e r),
    ground arith,
    omega arith,
  )
  Synced-cons s u puts hs t (changed h a more linked found proved e p) r = (
    h ∷ hs,
    change h a more linked found proved (subst (λ x. Synced x hs t) e r),
    ground arith,
    omega arith,
  )

  Checked-number :
      (s u : Progress c) (puts : List (Put c))
      → Checked s u puts
      → u.number ≡ (s.number + 1) % u32_mod
  Checked-number s u puts (same h linked none_found e p) = ap (λ x. x.number) e
  Checked-number s u puts (changed h a more linked found proved e p) = ap (λ x. x.number) e

  pub sync_loop-ok :
      (fuel last : ℕ) (s t : Progress c) (w w' : List (Put c))
      → sync_loop c AccountId client fuel last s w ≡ (w', some (ok t))
      → s.number ≤ last + 1
      → last + 1 < u32_mod
      → (hs : List c.Header) × Synced s hs t
        × (w' ≡ w ++ trace c s hs)
        × (s.number + length hs ≡ last + 1)
  unfolding sync_loop trace
  sync_loop-ok zero last s t w w' e le small = absurd (ground arith)
  sync_loop-ok (suc fuel) last s t w w' e le small =
      elim (Bool-cases (s.number == (last + 1) % u32_mod)) [
        | inl reached ↦
            let same_state : s ≡ t = ground arith in
            ([], subst (Synced s []) same_state done, ground (arith, append-nil w), ground arith)
        | inr more ↦ elim (Result-cases (round c AccountId client s w).1) [
          | inr (inl (x, failed)) ↦ absurd (ground arith)
          | inr (inr panicked) ↦ absurd (ground arith)
          | inl (u, went) ↦
              let (puts, checked, w'') = round-ok s u w went in
              let next = Checked-number s u puts checked in
              let (hs, run, e', counted) =
                sync_loop-ok fuel last u t (round c AccountId client s w).0 w' (ground arith)
                  (ground arith) small in
              let (hs', run', joined, longer) = Synced-cons s u puts hs t checked run in
              (hs', run', ground (arith, append_assoc w puts (trace c u hs)), ground arith)
        ]
      ]

  pub sync_loop-ends :
      (fuel last : ℕ) (s : Progress c) (w : List (Put c))
      → s.number ≤ last + 1
      → last + 1 < u32_mod
      → last + 1 < s.number + fuel
      → (sync_loop c AccountId client fuel last s w).1 ≢ none
  unfolding sync_loop
  sync_loop-ends zero last s w le small enough = absurd (omega arith)
  sync_loop-ends (suc fuel) last s w le small enough =
      elim (Bool-cases (s.number == (last + 1) % u32_mod)) [
        | inl reached ↦ λ h. ground arith
        | inr more ↦ elim (Result-cases (round c AccountId client s w).1) [
          | inr (inl (x, failed)) ↦ λ h. ground arith
          | inr (inr panicked) ↦ λ h. ground arith
          | inl (u, went) ↦
              let (puts, checked, w'') = round-ok s u w went in
              let next = Checked-number s u puts checked in
              let ends =
                sync_loop-ends fuel last u (round c AccountId client s w).0 (ground arith) small
                  (ground arith) in
              λ h. ends (ground arith)
        ]
      ]

-- ===== src/Finality/Check.antt =====
-- What `check_finality` accepts, for every justification.
use smallgod.Prelude.{
  ℕ, zero, suc, ◌+◌, ◌-◌, ◌*◌, ◌%◌, ◌^◌, ◌≤◌, ◌<◌, ◌≡◌, ◌↔◌, inl, inr, refl, true, Bool-cases, List,
  [], ◌∷◌, map, length, ℕ_discrete, subst, sym, All, ok, >>=-eq-ok, arith,
}
use smallgod.Chain.{ValidatorSet, Primitives, Justification}
use smallgod.Finality.{
  Vote, u64_mod, ancestry_map, signed_for, try_set_ids, is_signed, signer, signer_addresses,
  num_matched_addresses, check_finality,
}
use smallgod.Finality.Ancestry.{Descends, confirm_ancestry-iff-Descends}
use smallgod.Finality.Quorum.{is_signed_by_supermajority_iff}

module _ (c : Primitives) where
  -- A set id at most 10 below or less than 10 above a set's own.
  abbrev IsNear : ℕ → ℕ → Type 0
  IsNear set_id s = (set_id ≤ s + 10) × (s < set_id + 10)

  try_set_ids_sound :
      (n lo round : ℕ) (p : Vote c)
      → try_set_ids c n lo round p ≡ true
      → (s : ℕ) × (lo ≤ s) × (s < lo + n) × (signed_for c round s p ≡ true)
  unfolding try_set_ids
  try_set_ids_sound zero lo round p h = cc
  try_set_ids_sound (suc n) lo round p h = elim (Bool-cases (signed_for c round lo p)) [
    | inl found ↦ (lo, omega arith, omega arith, found)
    | inr missed ↦
        let (s, above, below, found) = try_set_ids_sound n (suc lo) round p (ground arith) in
        (s, omega arith, omega arith, found)
  ]

  try_set_ids_complete :
      (n lo round s : ℕ) (p : Vote c)
      → lo ≤ s
      → s < lo + n
      → signed_for c round s p ≡ true
      → try_set_ids c n lo round p ≡ true
  unfolding try_set_ids
  try_set_ids_complete zero lo round s p above below h = absurd (omega arith)
  try_set_ids_complete (suc n) lo round s p above below h = elim (ℕ_discrete lo s) [
    | yes e ↦
        let found : signed_for c round lo p ≡ true =
          subst (λ k. signed_for c round k p ≡ true) (sym e) h in
        ground arith
    | no d ↦ ground (arith, try_set_ids_complete n (suc lo) round s p (omega arith) (omega arith) h)
  ]

  -- A precommit's signature verifies for the set's own id, or for an id near it.
  abbrev IsSigned : ℕ → ℕ → Vote c → Type 0
  IsSigned set_id round p = (s : ℕ) × IsNear set_id s × (signed_for c round s p ≡ true)

  is_signed-iff-IsSigned :
      (set_id round : ℕ) (p : Vote c)
      → 10 ≤ set_id
      → set_id + 10 < u64_mod
      → (is_signed c set_id round p ≡ true) ↔ IsSigned set_id round p
  unfolding is_signed
  is_signed-iff-IsSigned set_id round p low high = (
    λ h. elim (Bool-cases (signed_for c round set_id p)) [
      | inl own ↦ (set_id, (omega arith, omega arith), own)
      | inr other ↦
          let (s, above, below, found) =
            try_set_ids_sound ((set_id + 10) % u64_mod - (set_id + u64_mod - 10) % u64_mod)
              ((set_id + u64_mod - 10) % u64_mod) round p (ground arith) in
          (s, (omega arith, omega arith), found)
    ],
    λ (s, near, found). elim (Bool-cases (signed_for c round set_id p)) [
      | inl own ↦ ground arith
      | inr other ↦
          let tried =
            try_set_ids_complete ((set_id + 10) % u64_mod - (set_id + u64_mod - 10) % u64_mod)
              ((set_id + u64_mod - 10) % u64_mod) round s p (omega arith) (omega arith) found in
          ground arith
    ],
  )

  module _ (v : ValidatorSet c.Public) (j : Justification c) where
    -- A precommit is approved: it is signed, and its target is the commit's target or descends
    -- from it.
    abbrev pub IsApproved : Vote c → Type 0
    IsApproved p =
        IsSigned v.set_id j.round p
        × Descends c.H256_discrete (ancestry_map c j) p.precommit.target_hash j.commit.target_hash

    -- Every precommit is approved, and more than two thirds of the validators are matched.
    abbrev pub IsFinal : Type 0
    IsFinal =
        All IsApproved j.commit.precommits
        × (length v.validator_set * 2
            < num_matched_addresses c v (map (λ p. p.id) j.commit.precommits) * 3)

    signer-eq-ok :
        (p : Vote c)
        → 10 ≤ v.set_id
        → v.set_id + 10 < u64_mod
        → (signer c v j p ≡ ok p.id) ↔ IsApproved p
    unfolding signer
    signer-eq-ok p low high =
        let signed = is_signed-iff-IsSigned v.set_id j.round p low high in
        let descends =
          confirm_ancestry-iff-Descends c.H256_discrete p.precommit.target_hash j.commit.target_hash
            (ancestry_map c j) in
        (
          λ h. (signed.0 (ground arith), descends.0 (ground arith)),
          λ (s, d). let s' = signed.1 s in let d' = descends.1 d in ground arith,
        )

    -- A signer is the precommit's own id.
    signer-id : (p : Vote c) (x : c.Public) → signer c v j p ≡ ok x → x ≡ p.id
    unfolding signer
    signer-id p x h = ground arith

    module _ (low : 10 ≤ v.set_id) (high : v.set_id + 10 < u64_mod) where
      signer_addresses_sound :
          (ps : List (Vote c)) (ids : List c.Public)
          → signer_addresses c v j ps ≡ ok ids
          → All IsApproved ps × (ids ≡ map (λ p. p.id) ps)
      unfolding signer_addresses
      signer_addresses_sound [] ids h = (tt, ground arith)
      signer_addresses_sound (p ∷ ps) ids h =
          let (x, first, h') = >>=-eq-ok (signer c v j p) _ h in
          let (xs, rest, h'') = >>=-eq-ok (signer_addresses c v j ps) _ h' in
          let (approved, e) = signer_addresses_sound ps xs rest in
          let own = signer-id p x first in
          (((signer-eq-ok p low high).0 (ground arith), approved), ground arith)

      signer_addresses_complete :
          (ps : List (Vote c))
          → All IsApproved ps
          → signer_addresses c v j ps ≡ ok (map (λ p. p.id) ps)
      unfolding signer_addresses
      signer_addresses_complete [] h = refl
      signer_addresses_complete (p ∷ ps) h =
          rw ((signer-eq-ok p low high).1 h.0, signer_addresses_complete ps h.1)

      -- For a set id from 10 on and below 2^64 - 10, and fewer than 2^63 validators, a justification is accepted
      -- exactly if every precommit of it is signed for a set id near the validator set's own and
      -- targets a block that descends from the commit's target, and the precommits whose signer is
      -- a validator number more than two thirds of the set.
      pub check_finality-iff-IsFinal :
          length v.validator_set < 2 ^ 63 → (check_finality c v j ≡ ok tt) ↔ IsFinal
      unfolding check_finality
      check_finality-iff-IsFinal small = (
        λ h.
            let (ids, found, enough) = >>=-eq-ok (signer_addresses c v j j.commit.precommits) _ h in
            let (approved, e) = signer_addresses_sound j.commit.precommits ids found in
            let quorum =
              is_signed_by_supermajority_iff (num_matched_addresses c v ids)
                (length v.validator_set) small in
            (
              approved,
              subst (λ l. length v.validator_set * 2 < num_matched_addresses c v l * 3) e
                  (quorum.0 (ground arith)),
            ),
        λ (approved, enough).
            let ids = map (λ (p : Vote c). p.id) j.commit.precommits in
            let quorum =
              is_signed_by_supermajority_iff (num_matched_addresses c v ids)
                (length v.validator_set) small in
            rw (signer_addresses_complete j.commit.precommits approved, quorum.1 enough),
      )

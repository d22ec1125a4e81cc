-- ===== src/Finality/Repeats.antt =====
-- What the checks of `check_finality` leave out: repeated signers, and small set ids.
use smallgod.Prelude.{
  ℕ, zero, suc, ◌+◌, ◌-◌, ◌*◌, ◌%◌, ◌^◌, ◌≤◌, ◌<◌, ◌≡◌, refl, true, map, length, replicate, All, ok,
  arith,
}
use smallgod.Chain.{ValidatorSet, Primitives, Justification}
use smallgod.Finality.{
  Vote, u64_mod, signed_for, try_set_ids, is_signed, is_validator, num_matched_addresses,
  check_finality,
}
use smallgod.Finality.Check.{IsApproved, check_finality-iff-IsFinal}

module _ (c : Primitives) where
  All-replicate : (P : Vote c → Type 0) (n : ℕ) (p : Vote c) → P p → All P (replicate n p)
  All-replicate P zero p h = tt
  All-replicate P (suc n) p h = (h, All-replicate P n p h)

  num_matched_addresses-replicate :
      (v : ValidatorSet c.Public) (n : ℕ) (p : Vote c)
      → is_validator c v p.id ≡ true
      → num_matched_addresses c v (map (λ q. q.id) (replicate n p)) ≡ n
  unfolding num_matched_addresses
  num_matched_addresses-replicate v zero p h = refl
  num_matched_addresses-replicate v (suc n) p h =
      ground (arith, num_matched_addresses-replicate v n p h)

  -- The justification with `n` copies of one precommit.
  abbrev pub repeated : Justification c → ℕ → Vote c → Justification c
  repeated j n p = record j { commit = record (j.commit) { precommits = replicate n p } }

  -- For a set id from 10 on and below 2^64 - 10, and a set of fewer than 2^63 validators: one approved
  -- precommit of one validator of the set, repeated more than two thirds as often as there are
  -- validators, is accepted as a supermajority of them.
  pub check_finality-repeated :
      (v : ValidatorSet c.Public) (j : Justification c) (n : ℕ) (p : Vote c)
      → 10 ≤ v.set_id
      → v.set_id + 10 < u64_mod
      → length v.validator_set < 2 ^ 63
      → IsApproved c v j p
      → is_validator c v p.id ≡ true
      → length v.validator_set * 2 < n * 3
      → check_finality c v (repeated j n p) ≡ ok tt
  check_finality-repeated v j n p low high small approved known enough =
      (check_finality-iff-IsFinal c v (repeated j n p) low high small).1 (
        All-replicate (IsApproved c v (repeated j n p)) n p approved,
        omega (arith, num_matched_addresses-replicate v n p known),
      )

  -- For a set id below 10 the range of alternatives wraps to an empty one: only the set's own id
  -- is tried.
  pub is_signed_of_low :
      (set_id round : ℕ) (p : Vote c)
      → set_id < 10
      → is_signed c set_id round p ≡ signed_for c round set_id p
  unfolding is_signed try_set_ids
  is_signed_of_low set_id round p h =
      let none_left : (set_id + 10) % u64_mod - (set_id + u64_mod - 10) % u64_mod ≡ 0 =
        omega arith in
      rw none_left (ground arith)

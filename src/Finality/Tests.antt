-- ===== src/Finality/Tests.antt =====
-- `check_finality` and its theorems at a justification of three precommits for block 10, one of
-- which targets block 11.
use smallgod.Prelude.{ℕ, ◌≡◌, ◌↔◌, refl, true, List, [], ◌∷◌, ok, err, arith, ℕ_discrete}
use smallgod.Prelude.Maps.{get, remove, insert}
use smallgod.Chain.{ValidatorSet, Justification}
use smallgod.Chain.Sample.{sample}
use smallgod.Finality.{
  Vote, is_signed_by_supermajority, walk, confirm_ancestry, ancestry_from, signed_for, try_set_ids,
  is_signed, signer, signer_addresses, is_validator, num_matched_addresses, check_finality,
  no_supermajority, not_signed,
}
use smallgod.Finality.Ancestry.{Descends, confirm_ancestry-iff-Descends}
use smallgod.Finality.Check.{IsApproved, IsFinal, check_finality-iff-IsFinal}
use smallgod.Finality.Repeats.{repeated, check_finality-repeated, is_signed_of_low}

program : Unit {0}
unfolding is_signed_by_supermajority walk confirm_ancestry ancestry_from signed_for try_set_ids
    is_signed signer signer_addresses is_validator num_matched_addresses check_finality get remove
    insert ℕ_discrete
program = tt

abbrev vote : ℕ → ℕ → ℕ → Vote sample
vote signer set_id target = record {
  precommit = record { target_hash = target; target_number = 10 };
  signature = (signer, set_id);
  id = signer;
}

abbrev validators : ValidatorSet ℕ
validators = record { set_id = 12; validator_set = 1 ∷ 2 ∷ 3 ∷ 4 ∷ [] }

abbrev justification : List (Vote sample) → Justification sample
justification votes = record {
  round = 5;
  commit = record { target_hash = 110; target_number = 10; precommits = votes };
  votes_ancestries = record { number = 11; parent = 110; authorities = [] } ∷ [];
}

abbrev votes : List (Vote sample)
votes = vote 1 12 110 ∷ vote 2 12 111 ∷ vote 3 15 110 ∷ []

accepted : check_finality sample validators (justification votes) ≡ ok tt
unfolding program
accepted = refl

rejected :
    (check_finality sample validators (justification (vote 1 12 110 ∷ [])) ≡ err no_supermajority)
    × (check_finality sample validators (justification (vote 1 12 109 ∷ votes))
        ≡ err (not_signed 1))
    × (check_finality sample validators (justification (vote 1 30 110 ∷ votes))
        ≡ err (not_signed 1))
unfolding program
rejected = (refl, refl, refl)

confirm_ancestry-iff-Descends_example :
    (confirm_ancestry ℕ_discrete 111 110 ((111, 110) ∷ []) ≡ true)
    ↔ Descends ℕ_discrete ((111, 110) ∷ []) 111 110
confirm_ancestry-iff-Descends_example =
    confirm_ancestry-iff-Descends ℕ_discrete 111 110 ((111, 110) ∷ [])

check_finality-iff-IsFinal_example :
    (check_finality sample validators (justification votes) ≡ ok tt)
    ↔ IsFinal sample validators (justification votes)
check_finality-iff-IsFinal_example =
    check_finality-iff-IsFinal sample validators (justification votes) (omega arith) (omega arith)
      (omega arith)

first-IsApproved : IsApproved sample validators (justification votes) (vote 1 12 110)
first-IsApproved =
    ((check_finality-iff-IsFinal sample validators (justification votes) (omega arith) (omega arith)
        (omega arith)).0
      accepted).0.0

check_finality-repeated_example :
    check_finality sample validators (repeated sample (justification votes) 3 (vote 1 12 110))
    ≡ ok tt
unfolding is_validator ℕ_discrete
check_finality-repeated_example =
    check_finality-repeated sample validators (justification votes) 3 (vote 1 12 110) (omega arith)
      (omega arith) (omega arith) first-IsApproved refl (omega arith)

is_signed_of_low_example :
    is_signed sample 9 5 (vote 1 8 110) ≡ signed_for sample 5 9 (vote 1 8 110)
is_signed_of_low_example = is_signed_of_low sample 9 5 (vote 1 8 110) (omega arith)

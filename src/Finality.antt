-- ===== src/Finality.antt =====
-- src/finality.rs: `check_finality`, which accepts a GRANDPA justification for a validator set.
pub mod Ancestry
pub mod Quorum
pub mod Check
pub mod Repeats
mod Tests
use smallgod.Prelude.{
  ℕ, zero, suc, ◌+◌, ◌-◌, ◌*◌, ◌/◌, ◌%◌, ◌^◌, Bool, true, false, ◌&&◌, Option, none, some, List, [],
  ◌∷◌, ite, leb, if◌then◌else◌, length, filter, any, Result, ok, err, ◌>>=◌,
}
use smallgod.Prelude.Maps.{HashMap, get, insert}
use smallgod.Chain.{SignedPrecommit, ValidatorSet, Primitives, Justification, precommit_message}

-- The errors of `check_finality`: the first names the signer.
pub data FinalityError (P : Type 0) : Type 0 where
  not_signed : P → FinalityError P
  no_supermajority : FinalityError P

abbrev pub u64_mod : ℕ
u64_mod = 2 ^ 64

-- Whether `num_signatures` is more than two thirds; the product is a 64-bit one.
pub is_signed_by_supermajority : ℕ → ℕ → Bool
is_signed_by_supermajority num_signatures validator_set_size =
    let supermajority = (validator_set_size * 2) % u64_mod / 3 + 1 in
    leb supermajority num_signatures

module _ {H : Type 0} (dec : Discrete H) where
  -- The loop of `confirm_ancestry`: at most `passes` steps from a hash to its parent.
  pub walk : ℕ → H → H → HashMap H H → Bool
  walk zero curr root m = false
  walk (suc passes) curr root m = elim (get dec curr m) [
    | none ↦ false
    | some parent ↦ elim (dec parent root) [ yes _ ↦ true | no _ ↦ walk passes parent root m ]
  ]

  pub confirm_ancestry : H → H → HashMap H H → Bool
  confirm_ancestry child root m = ite (dec child root) true (walk (length m) child root m)

module _ (c : Primitives) where
  -- `ancestry_map`: the hash of each header of the vote ancestries, to its parent's hash.
  pub ancestry_from : HashMap c.H256 c.H256 → List c.Header → HashMap c.H256 c.H256
  ancestry_from m [] = m
  ancestry_from m (h ∷ hs) =
      ancestry_from (insert c.H256_discrete (c.header_hash h) (c.parent_hash h) m) hs

  abbrev pub ancestry_map : Justification c → HashMap c.H256 c.H256
  ancestry_map j = ancestry_from [] j.votes_ancestries

  abbrev pub Vote : Type 0
  Vote = SignedPrecommit c.H256 c.Signature c.Public

  -- Whether the signature of a precommit verifies for a round and a set id.
  pub signed_for : ℕ → ℕ → Vote → Bool
  signed_for round set_id p =
      c.verify p.signature (c.encode (precommit_message p.precommit) round set_id) p.id

  -- The loop over the alternative set ids, which stops at the first that verifies.
  pub try_set_ids : ℕ → ℕ → ℕ → Vote → Bool
  try_set_ids zero set_id round p = false
  try_set_ids (suc n) set_id round p = elim (signed_for round set_id p) [
    | true ↦ true
    | false ↦ try_set_ids n (suc set_id) round p
  ]

  -- The set id itself, and then the range from `set_id - 10` to `set_id + 10`, in which the
  -- bounds are 64-bit words and wrap.
  pub is_signed : ℕ → ℕ → Vote → Bool
  is_signed set_id round p =
      let lo = (set_id + u64_mod - 10) % u64_mod in
      let hi = (set_id + 10) % u64_mod in
      if signed_for round set_id p then true else try_set_ids (hi - lo) lo round p

  -- The closure that maps a precommit to its signer, or to an error.
  pub signer :
      ValidatorSet c.Public → Justification c → Vote → Result (FinalityError c.Public) c.Public
  signer v j p =
      let is_ok = is_signed v.set_id j.round p in
      let ancestry =
        confirm_ancestry c.H256_discrete p.precommit.target_hash j.commit.target_hash
          (ancestry_map j) in
      if is_ok && ancestry then ok p.id else err (not_signed p.id)

  -- `.map(…).collect::<Result<Vec<_>>>()`: the first error ends it.
  pub signer_addresses :
      ValidatorSet c.Public
      → Justification c
      → List Vote
      → Result (FinalityError c.Public) (List c.Public)
  signer_addresses v j [] = ok []
  signer_addresses v j (p ∷ ps) =
      signer v j p >>= λ id. signer_addresses v j ps >>= λ ids. ok (id ∷ ids)

  pub is_validator : ValidatorSet c.Public → c.Public → Bool
  is_validator v x = any (λ e. ite (c.Public_discrete e x) true false) v.validator_set

  pub num_matched_addresses : ValidatorSet c.Public → List c.Public → ℕ
  num_matched_addresses v ids = length (filter (is_validator v) ids)

  pub check_finality :
      ValidatorSet c.Public → Justification c → Result (FinalityError c.Public) (Unit {0})
  check_finality v j = do
    ids ← signer_addresses v j j.commit.precommits
    let enough = is_signed_by_supermajority (num_matched_addresses v ids) (length v.validator_set)
    if enough then ok tt else err no_supermajority

-- The functions of this file, for a run of the check.
unfoldable pub methods : Unit {0}
unfolding is_signed_by_supermajority walk confirm_ancestry ancestry_from signed_for try_set_ids
    is_signed signer signer_addresses is_validator num_matched_addresses check_finality get insert
methods = tt

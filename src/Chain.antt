-- ===== src/Chain.antt =====
-- The data of the chain that the clients read: GRANDPA justifications (src/types.rs), validator
-- sets (src/finality.rs), and the primitives of Substrate that the code calls, as parameters.
pub mod Sample
use smallgod.Prelude.{ℕ, Bool, List, Option}

-- `types::Precommit`
pub record Precommit (H : Type 0) : Type 0 where
  pub target_hash : H
  pub target_number : ℕ

-- `types::SignerMessage`
pub data SignerMessage (H : Type 0) : Type 0 where
  dummy_message : ℕ → SignerMessage H
  precommit_message : Precommit H → SignerMessage H

-- `types::SignedPrecommit`
pub record SignedPrecommit (H S P : Type 0) : Type 0 where
  pub precommit : Precommit H
  pub signature : S
  pub id : P

-- `types::Commit`
pub record Commit (H S P : Type 0) : Type 0 where
  pub target_hash : H
  pub target_number : ℕ
  pub precommits : List (SignedPrecommit H S P)

-- `types::GrandpaJustification`
pub record GrandpaJustification (H S P D : Type 0) : Type 0 where
  pub round : ℕ
  pub commit : Commit H S P
  pub votes_ancestries : List D

-- `finality::ValidatorSet`
pub record ValidatorSet (P : Type 0) : Type 0 where
  pub set_id : ℕ
  pub validator_set : List P

-- What the code takes from Substrate, subxt and sp_core: hashes and keys with their equality, the
-- fields of a block header, the digest's log entries, the SCALE encoding and ed25519.
pub record Primitives : Type 1 where
  pub H256 : Type 0
  pub H256_discrete : Discrete H256
  pub Public : Type 0
  pub Public_discrete : Discrete Public
  pub Signature : Type 0
  pub Bytes : Type 0
  pub Header : Type 0
  pub number : Header → ℕ
  pub parent_hash : Header → H256
  -- `Encode::using_encoded(header, blake2_256)`
  pub header_hash : Header → H256
  -- `Encode::encode(&(message, round, set_id))`
  pub encode : SignerMessage H256 → ℕ → ℕ → Bytes
  -- `<ed25519::Pair as Pair>::verify`
  pub verify : Signature → Bytes → Public → Bool
  pub DigestItem : Type 0
  pub logs : Header → List DigestItem
  -- the fields of a `DigestItem::Consensus`
  pub consensus : DigestItem → Option (List ℕ × Bytes)
  pub ConsensusLog : Type 0
  pub decode_log : Bytes → Option ConsensusLog
  -- the authorities of a `ConsensusLog::ScheduledChange` and of a `ConsensusLog::ForcedChange`
  pub scheduled_change : ConsensusLog → Option (List (Public × ℕ))
  pub forced_change : ConsensusLog → Option (List (Public × ℕ))

-- A justification over these primitives.
abbrev pub Justification : Primitives → Type 0
Justification c = GrandpaJustification c.H256 c.Signature c.Public c.Header

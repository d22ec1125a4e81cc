-- ===== src/Chain/Sample.antt =====
-- Concrete primitives, at which the theorems are applied: a hash and a key are numbers, a
-- signature names its signer and its set id, and the digest of a header lists the keys of the
-- authorities that it schedules.
use smallgod.Prelude.{ℕ, ◌+◌, Bool, false, ◌&&◌, none, some, List, [], ◌∷◌, map, ◌==◌, ℕ_discrete}
use smallgod.Chain.{SignerMessage, dummy_message, precommit_message, Primitives}

pub record SampleHeader : Type 0 where
  pub number : ℕ
  pub parent : ℕ
  pub authorities : List ℕ

abbrev encode : SignerMessage ℕ → ℕ → ℕ → List ℕ
encode (dummy_message n) round set_id = []
encode (precommit_message p) round set_id = p.target_hash ∷ p.target_number ∷ round ∷ set_id ∷ []

abbrev verify : ℕ × ℕ → List ℕ → ℕ → Bool
verify (signer, signed_id) (_ ∷ _ ∷ _ ∷ set_id ∷ []) id = signer == id && signed_id == set_id
verify s _ id = false

abbrev logs : SampleHeader → List (List ℕ)
logs h = elim h.authorities [ [] ↦ [] | x ∷ xs ↦ (x ∷ xs) ∷ [] ]

-- The hash of a header is its number plus 100.
abbrev pub sample : Primitives
sample = record {
  H256 = ℕ;
  H256_discrete = ℕ_discrete;
  Public = ℕ;
  Public_discrete = ℕ_discrete;
  Signature = ℕ × ℕ;
  Bytes = List ℕ;
  Header = SampleHeader;
  number = λ h. h.number;
  parent_hash = λ h. h.parent;
  header_hash = λ h. h.number + 100;
  encode = encode;
  verify = verify;
  DigestItem = List ℕ;
  logs = logs;
  consensus = λ d. some (b'F' ∷ b'R' ∷ b'N' ∷ b'K' ∷ [], d);
  ConsensusLog = List ℕ;
  decode_log = λ b. some b;
  scheduled_change = λ l. some (map (λ x. (x, 1)) l);
  forced_change = λ l. none;
}

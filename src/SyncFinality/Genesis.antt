-- ===== src/SyncFinality/Genesis.antt =====
-- `get_valset_at_genesis` of src/sync_finality.rs: the GRANDPA keys of the genesis validators, read
-- from the storage keys of the session pallet.
use Prim.Native.String.{String}
use smallgod.Prelude.{
  ℕ, ◌-◌, Bool, true, false, ◌||◌, Option, none, some, List, [], ◌∷◌, ◌++◌, ite, ltb, if◌then◌else◌,
  length, any, take, drop, Result, ok, err, panic, ◌>>=◌,
}
use smallgod.Utils.{same_bytes}

pub data GenesisError : Type 0 where
  no_validator_set empty_validator_set no_storage_keys : GenesisError

-- The calls to the node: `none` is a call that fails.
pub record GenesisNode (H P AccountId : Type 0) : Type 0 where
  pub get_validator_set_at : H → Option (Option (List AccountId))
  pub get_paged_storage_keys : List ℕ → ℕ → H → Option (List (List ℕ))
  pub get_session_key_owner_at : H → P → Option (Option AccountId)
  -- `sp_core::twox_128` and `ed25519::Public::from_raw`
  pub twox_128 : String → List ℕ
  pub from_raw : List ℕ → P

-- GRANDPA_KEY_ID and GRANDPA_KEY_LEN
abbrev grandpa_key_id : List ℕ
grandpa_key_id = b'g' ∷ b'r' ∷ b'a' ∷ b'n' ∷ []

abbrev grandpa_key_len : ℕ
grandpa_key_len = 32

-- `.windows(4).any(|e| e == GRANDPA_KEY_ID)`
has_key_id : List ℕ → Bool
unfolding same_bytes
has_key_id [] = false
has_key_id (x ∷ xs) = same_bytes (take 4 (x ∷ xs)) grandpa_key_id || has_key_id xs

module _ {H P AccountId : Type 0} (dec : Discrete AccountId)
    (node : GenesisNode H P AccountId) where
  abbrev Answer : Type 0 → Type 0
  Answer A = Result GenesisError A

  -- The GRANDPA key at the end of a storage key, if it is one; slices out of range panic.
  session_key : List ℕ → List ℕ → Answer (Option P)
  unfolding has_key_id
  session_key prefix e =
      if ltb (length e) (length prefix)
      then panic
      else (let rest = drop (length prefix) e in
          let key_start = length rest - grandpa_key_len in
          if ltb (length rest) grandpa_key_len
          then panic
          else if has_key_id (take key_start rest)
          then ok (some (node.from_raw (drop key_start rest)))
          else ok none)

  grandpa_keys : List ℕ → List (List ℕ) → Answer (List P)
  unfolding session_key
  grandpa_keys prefix [] = ok []
  grandpa_keys prefix (e ∷ es) = do
    key ← session_key prefix e
    keys ← grandpa_keys prefix es
    ok (elim key [ none ↦ keys | some k ↦ k ∷ keys ])

  -- `expect` panics on a failed call and on a key without owner.
  owner_of : H → P → Answer AccountId
  owner_of genesis_hash key = elim (node.get_session_key_owner_at genesis_hash key) [
    | none ↦ panic
    | some none ↦ panic
    | some (some account) ↦ ok account
  ]

  -- The keys whose owner is in the initial validator set.
  owned_keys : H → List AccountId → List P → Answer (List P)
  owned_keys genesis_hash initial [] = ok []
  owned_keys genesis_hash initial (k ∷ ks) = do
    account ← owner_of genesis_hash k
    keys ← owned_keys genesis_hash initial ks
    ok (if any (λ a. ite (dec a account) true false) initial then k ∷ keys else keys)

  unfoldable pub get_valset_at_genesis : H → Answer (List P)
  unfolding grandpa_keys owned_keys owner_of
  get_valset_at_genesis genesis_hash =
      let prefix = node.twox_128 "Session" ++ node.twox_128 "KeyOwner" in
      elim (node.get_validator_set_at genesis_hash) [
        | none ↦ err no_validator_set
        | some none ↦ err empty_validator_set
        | some (some initial) ↦ elim (node.get_paged_storage_keys prefix 1000 genesis_hash) [
          | none ↦ err no_storage_keys
          | some keys ↦ grandpa_keys prefix keys >>= owned_keys genesis_hash initial
        ]
      ]

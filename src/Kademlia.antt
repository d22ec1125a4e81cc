-- ===== src/Kademlia.antt =====
-- src/network/p2p/kad_mem_store.rs and kad_mem_providers.rs: the in-memory store behind Kademlia.
-- The types of libp2p are parameters.
pub mod Providers
pub mod Store
mod Tests
use smallgod.Prelude.{ℕ, Bool}

-- What the store takes from libp2p: keys, peers and records with their equality, and the distance
-- of a peer to a key.
pub record Libp2p : Type 1 where
  pub RecordKey : Type 0
  pub RecordKey_discrete : Discrete RecordKey
  pub PeerId : Type 0
  pub PeerId_discrete : Discrete PeerId
  pub Record : Type 0
  pub key : Record → RecordKey
  -- `record.value.len()`
  pub value_len : Record → ℕ
  pub Instant : Type 0
  pub is_expired : Instant → Record → Bool
  pub ProviderRecord : Type 0
  pub ProviderRecord_discrete : Discrete ProviderRecord
  pub provider_key : ProviderRecord → RecordKey
  pub provider : ProviderRecord → PeerId
  -- `KBucketKey::from(peer).distance(&KBucketKey::new(key))`
  pub distance : PeerId → RecordKey → ℕ

-- `libp2p::kad::store::Error`, as far as the store returns it
pub data Error : Type 0 where
  value_too_large max_records max_provided_keys : Error

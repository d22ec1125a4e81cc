-- ===== src/Kademlia/Store.antt =====
-- src/network/p2p/kad_mem_store.rs: the in-memory `RecordStore`, and the pruning of its expired
-- records by the command in src/network/p2p/client.rs.
pub mod Laws
use smallgod.Prelude.{
  ℕ, ◌-◌, ◌*◌, Bool, true, false, not, Option, none, some, List, [], ◌∷◌, map, leb, if◌then◌else◌,
  length, filter, Result, ok, err,
}
use smallgod.Prelude.Maps.{HashMap, get, insert, remove}
use smallgod.Kademlia.{Libp2p, Error, value_too_large, max_records}
use smallgod.Kademlia.Providers
use smallgod.Kademlia.Providers.{
  ProvidersConfig, Providers, add_provider, providers_of, remove_provider,
}

-- `MemoryStoreConfig`
pub record MemoryStoreConfig : Type 0 where
  pub max_records : ℕ
  pub max_value_bytes : ℕ
  pub providers : ProvidersConfig

module _ (l : Libp2p) where
  -- `MemoryStore`
  pub record MemoryStore : Type 0 where
    pub local_key : l.PeerId
    pub config : MemoryStoreConfig
    pub records : HashMap l.RecordKey l.Record
    pub providers : Providers l

  unfoldable pub with_config : l.PeerId → MemoryStoreConfig → MemoryStore
  unfolding Providers.with_config
  with_config local_id config = record {
    local_key = local_id;
    config = config;
    records = [];
    providers = Providers.with_config l config.providers;
  }

  -- `retain`: only the records that the predicate accepts are kept.
  unfoldable pub retain : (l.RecordKey → l.Record → Bool) → MemoryStore → MemoryStore
  retain f s = record s { records = filter (λ e. f e.0 e.1) s.records }

  -- `<MemoryStore as RecordStore>::get`
  unfoldable pub get_record : l.RecordKey → MemoryStore → Option l.Record
  get_record k s = get l.RecordKey_discrete k s.records

  unfoldable pub put : l.Record → MemoryStore → MemoryStore × Result Error (Unit {0})
  put r s =
      if leb s.config.max_value_bytes (l.value_len r)
      then (s, err value_too_large)
      else (let num_records = length s.records in
          let stored = record s { records = insert l.RecordKey_discrete (l.key r) r s.records } in
          elim (get l.RecordKey_discrete (l.key r) s.records) [
            | some _ ↦ (stored, ok tt)
            | none ↦
                if leb s.config.max_records num_records
                then (s, err max_records)
                else (stored, ok tt)
          ])

  -- `<MemoryStore as RecordStore>::remove`
  unfoldable pub remove_record : l.RecordKey → MemoryStore → MemoryStore
  remove_record k s = record s { records = remove l.RecordKey_discrete k s.records }

  unfoldable pub records : MemoryStore → List l.Record
  records s = map (λ e. e.1) s.records

  unfoldable pub add_provider_record :
      l.ProviderRecord → MemoryStore → MemoryStore × Result Error (Unit {0})
  add_provider_record r s =
      let (p, result) = add_provider l s.local_key r s.providers in
      (record s { providers = p }, result)

  unfoldable pub providers : l.RecordKey → MemoryStore → List l.ProviderRecord
  providers k s = providers_of l k s.providers

  unfoldable pub provided : MemoryStore → List l.ProviderRecord
  provided s = s.providers.provided

  unfoldable pub remove_provider_record : l.RecordKey → l.PeerId → MemoryStore → MemoryStore
  remove_provider_record k peer s = record s { providers = remove_provider l k peer s.providers }

  -- `<PruneExpiredRecords as Command>::run`: the store, and the number that is sent back.
  unfoldable pub prune_expired_records : l.Instant → MemoryStore → MemoryStore × ℕ
  unfolding retain records
  prune_expired_records now s =
      let before = length (records s) in
      let s' = retain (λ _ r. not (l.is_expired now r)) s in
      let after = length (records s') in (s', before - after)

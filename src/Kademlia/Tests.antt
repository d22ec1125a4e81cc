-- ===== src/Kademlia/Tests.antt =====
-- The store's theorems at small stores. A provider record is the number
-- 10000 * key + 100 * provider + version, and a distance the difference of two numbers.
use smallgod.Prelude.{ℕ, ◌+◌, ◌-◌, ◌/◌, ◌%◌, ◌≡◌, refl, List, [], ◌∷◌, leb, err, ℕ_discrete}
use smallgod.Prelude.Maps.{get, insert, remove}
use smallgod.Kademlia.{Libp2p, value_too_large, max_records}
use smallgod.Kademlia.Providers
use smallgod.Kademlia.Providers.{
  ProvidersConfig, Providers, place, add_provider, providers_of, remove_provider, find_provider,
}
use smallgod.Kademlia.Store.{
  MemoryStoreConfig, MemoryStore, with_config, retain, get_record, put, remove_record, records,
  add_provider_record, providers, provided, remove_provider_record, prune_expired_records,
}
use smallgod.Kademlia.Store.Laws.{IsValid, Operation, put_one, add_one_provider, run, run-IsValid}

record SampleRecord : Type 0 where
  key : ℕ
  len : ℕ
  expires : ℕ

abbrev libp2p : Libp2p
libp2p = record {
  RecordKey = ℕ;
  RecordKey_discrete = ℕ_discrete;
  PeerId = ℕ;
  PeerId_discrete = ℕ_discrete;
  Record = SampleRecord;
  key = λ r. r.key;
  value_len = λ r. r.len;
  Instant = ℕ;
  is_expired = λ now r. leb r.expires now;
  ProviderRecord = ℕ;
  ProviderRecord_discrete = ℕ_discrete;
  provider_key = λ p. p / 10000;
  provider = λ p. p / 100 % 100;
  distance = λ p k. (p - k) + (k - p);
}

program : Unit {0}
unfolding get insert remove Providers.with_config place add_provider providers_of remove_provider
    with_config retain get_record put remove_record records add_provider_record providers provided
    remove_provider_record prune_expired_records run ℕ_discrete
program = tt

abbrev config : MemoryStoreConfig
config = record {
  max_records = 2;
  max_value_bytes = 100;
  providers = record { max_providers_per_key = 2; max_provided_keys = 3 };
}

abbrev rec : ℕ → ℕ → ℕ → SampleRecord
rec key len expires = record { key = key; len = len; expires = expires }

abbrev empty : MemoryStore libp2p
empty = record {
  local_key = 7;
  config = config;
  records = [];
  providers = record { config = config.providers; providers = []; provided = [] };
}

abbrev full : MemoryStore libp2p
full = record empty { records = (2, rec 2 20 9) ∷ (1, rec 1 10 5) ∷ [] }

puts :
    (run libp2p (put_one (rec 1 10 5) ∷ put_one (rec 2 20 9) ∷ []) empty ≡ full)
    × ((put libp2p (rec 3 100 5) empty).1 ≡ err value_too_large)
    × ((put libp2p (rec 3 10 5) full).1 ≡ err max_records)
    × ((prune_expired_records libp2p 5 full).1 ≡ 1)
unfolding program
puts = (refl, refl, refl, refl)

-- Peers 9, 7 and 6 provide key 5: the nearest two are kept, and the local node is one of them.
abbrev three : List (Operation libp2p)
three = add_one_provider 50900 ∷ add_one_provider 50700 ∷ add_one_provider 50600 ∷ []

nearest :
    (providers libp2p 5 (run libp2p three empty) ≡ 50600 ∷ 50700 ∷ [])
    × (provided libp2p (run libp2p three empty) ≡ 50700 ∷ [])
unfolding program
nearest = (refl, refl)

run-IsValid_example : IsValid libp2p (run libp2p three (with_config libp2p 7 config))
run-IsValid_example = run-IsValid libp2p 7 config three

-- The local node provides key 5, and then provides it again with another version of the record.
abbrev providing : Providers libp2p
providing = record {
  config = config.providers;
  providers = (5, 50700 ∷ []) ∷ [];
  provided = 50700 ∷ [];
}

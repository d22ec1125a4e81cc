-- ===== src/Kademlia/Providers/Bounds.antt =====
-- The invariant of the provider records, and that both operations keep it.
use smallgod.Prelude.{
  ℕ, ◌≤◌, ◌≡◌, inl, inr, some, List, length, set, remove_at, arith, Option-cases,
  length-remove_at-le, Bool-cases, ◌==◌, ℕ_discrete, sym, ◌∙◌,
}
use smallgod.Prelude.Maps.{
  get, insert, remove, get-insert_self, get-insert_ne, get-remove_self, get-remove_ne,
  length-insert-le, length-insert_old, length-remove-le,
}
use smallgod.Kademlia.{Libp2p}
use smallgod.Kademlia.Providers.{
  Providers, ProvidersConfig, find_provider, place, entry, add_provider, remove_provider,
  take_provider, providers_of, with_config,
}
use smallgod.Kademlia.Providers.Order.{IsNearer, IsOther, Pairwise-remove_at}
use smallgod.Kademlia.Providers.Entries.{IsEntry, nearness, place-IsEntry, empty-IsEntry}

module _ (l : Libp2p) where
  -- Not too many keys, and every list is well kept.
  pub record IsValid (s : Providers l) : Type 0 where
    pub few : length s.providers ≤ s.config.max_provided_keys
    pub entries :
        (k : l.RecordKey) (ps : List l.ProviderRecord)
        → get l.RecordKey_discrete k s.providers ≡ some ps
        → IsEntry l s.config.max_providers_per_key k ps

  entry-IsEntry :
      (s : Providers l) (k : l.RecordKey)
      → IsValid s
      → IsEntry l s.config.max_providers_per_key k (entry l k s)
  entry-IsEntry s k v = elim (Option-cases (get l.RecordKey_discrete k s.providers)) [
    | inl new ↦ rw (new, entry) (empty-IsEntry l s.config.max_providers_per_key k)
    | inr (ps, old) ↦ rw (old, entry) (v.entries k ps old)
  ]

  -- The entries after the list of one key was replaced.
  insert-entries :
      (s : Providers l) (k : l.RecordKey) (ps : List l.ProviderRecord)
      → IsValid s
      → IsEntry l s.config.max_providers_per_key k ps
      → (k' : l.RecordKey) (ps' : List l.ProviderRecord)
      → get l.RecordKey_discrete k' (insert l.RecordKey_discrete k ps s.providers) ≡ some ps'
      → IsEntry l s.config.max_providers_per_key k' ps'
  insert-entries s k ps v h k' ps' e = elim (l.RecordKey_discrete k' k) [
    | yes same ↦
        let own : ps' ≡ ps =
          ground (arith, get-insert_self l.RecordKey_discrete k ps s.providers) in
        rw (own, same) h
    | no other ↦
        v.entries k' ps' (sym (get-insert_ne l.RecordKey_discrete k k' ps s.providers other) ∙ e)
  ]

  -- The store with a new list for one key.
  abbrev with_entry :
      Providers l → l.RecordKey → List l.ProviderRecord → List l.ProviderRecord → Providers l
  with_entry s k ps provided = record s {
    providers = insert l.RecordKey_discrete k ps s.providers;
    provided = provided;
  }

  with_entry-IsValid :
      (s : Providers l) (k : l.RecordKey) (ps provided : List l.ProviderRecord)
      → IsValid s
      → IsEntry l s.config.max_providers_per_key k ps
      → length (insert l.RecordKey_discrete k ps s.providers) ≤ s.config.max_provided_keys
      → IsValid (with_entry s k ps provided)
  with_entry-IsValid s k ps provided v h few = record {
    few = few;
    entries = insert-entries s k ps v h;
  }

  length-with_old :
      (s : Providers l) (k : l.RecordKey) (ps old : List l.ProviderRecord)
      → IsValid s
      → get l.RecordKey_discrete k s.providers ≡ some old
      → length (insert l.RecordKey_discrete k ps s.providers) ≤ s.config.max_provided_keys
  length-with_old s k ps old v e =
      omega (arith, v.few, length-insert_old l.RecordKey_discrete k ps s.providers e)

  -- `add_provider` keeps the invariant, whether it succeeds or not: at most the allowed number of
  -- keys, and in every list at most the allowed number of records, sorted by the distance of the
  -- provider to the key, and no provider twice.
  pub add_provider-IsValid :
      (me : l.PeerId) (r : l.ProviderRecord) (s : Providers l)
      → IsValid s
      → IsValid (add_provider l me r s).0
  unfolding add_provider
  add_provider-IsValid me r s v =
      let k = l.provider_key r in
      let max = s.config.max_providers_per_key in
      let ps = (place l max me r (entry l k s) s.provided).0 in
      let provided = (place l max me r (entry l k s) s.provided).1 in
      let placed = place-IsEntry l max me r (entry l k s) s.provided (entry-IsEntry s k v) in
      elim (Option-cases (get l.RecordKey_discrete k s.providers)) [
        | inr (old, present) ↦
            let e : (add_provider l me r s).0 ≡ with_entry s k ps provided = ground arith in
            rw e
              (with_entry-IsValid s k ps provided v placed (length-with_old s k ps old v present))
        | inl absent ↦ elim (ℕ_discrete s.config.max_provided_keys (length s.providers)) [
          | yes full ↦ let e : (add_provider l me r s).0 ≡ s = ground arith in rw e v
          | no room ↦
              let e : (add_provider l me r s).0 ≡ with_entry s k ps provided = ground arith in
              rw e (
                with_entry-IsValid s k ps provided v placed
                  (omega (arith, v.few, length-insert-le l.RecordKey_discrete k ps s.providers)))
        ]
      ]

  remove_at-IsEntry :
      (max : ℕ) (k : l.RecordKey) (i : ℕ) (ps : List l.ProviderRecord)
      → IsEntry l max k ps
      → IsEntry l max k (remove_at i ps)
  remove_at-IsEntry max k i ps v = record {
    bounded = omega (arith, v.bounded, length-remove_at-le i ps);
    sorted = Pairwise-remove_at (IsNearer (nearness l k)) i ps v.sorted;
    distinct = Pairwise-remove_at (IsOther l.provider) i ps v.distinct;
  }

  without_key-IsValid :
      (s : Providers l) (k : l.RecordKey) (provided : List l.ProviderRecord)
      → IsValid s
      → IsValid
          (record s { providers = remove l.RecordKey_discrete k s.providers; provided = provided })
  without_key-IsValid s k provided v = record {
    few = omega (arith, v.few, length-remove-le l.RecordKey_discrete k s.providers);
    entries = λ k' ps' e. elim (l.RecordKey_discrete k' k) [
      | yes same ↦ absurd (ground (arith, get-remove_self l.RecordKey_discrete k s.providers))
      | no other ↦
          v.entries k' ps' (sym (get-remove_ne l.RecordKey_discrete k k' s.providers other) ∙ e)
    ];
  }

  take_provider-IsEntry :
      (max : ℕ) (k : l.RecordKey) (peer : l.PeerId) (ps provided : List l.ProviderRecord)
      → IsEntry l max k ps
      → IsEntry l max k (take_provider l peer ps provided).0
  unfolding take_provider
  take_provider-IsEntry max k peer ps provided v = elim (Option-cases (find_provider l peer ps)) [
    | inl missing ↦ let e : (take_provider l peer ps provided).0 ≡ ps = ground arith in rw e v
    | inr (i, found) ↦
        let e : (take_provider l peer ps provided).0 ≡ remove_at i ps = ground arith in
        rw e (remove_at-IsEntry max k i ps v)
  ]

  -- `remove_provider` keeps the invariant.
  pub remove_provider-IsValid :
      (k : l.RecordKey) (peer : l.PeerId) (s : Providers l)
      → IsValid s
      → IsValid (remove_provider l k peer s)
  unfolding remove_provider
  remove_provider-IsValid k peer s v =
      elim (Option-cases (get l.RecordKey_discrete k s.providers)) [
        | inl absent ↦ let e : remove_provider l k peer s ≡ s = ground arith in rw e v
        | inr (ps, present) ↦
            let (ps', provided) = take_provider l peer ps s.provided in
            elim (Bool-cases (length ps' == 0)) [
              | inl emptied ↦
                  let e : remove_provider l k peer s ≡ record s {
                    providers = remove l.RecordKey_discrete k s.providers;
                    provided = provided;
                  } =
                    ground arith in
                  rw e (without_key-IsValid s k provided v)
              | inr kept ↦
                  let e : remove_provider l k peer s ≡ with_entry s k ps' provided = ground arith in
                  rw e (
                    with_entry-IsValid s k ps' provided v
                      (take_provider-IsEntry s.config.max_providers_per_key k peer ps s.provided
                        (v.entries k ps present))
                      (length-with_old s k ps' ps v present))
            ]
      ]

  -- If the provider of a record is listed under its key, the record takes its place in the list
  -- and the set of provided records is left as it was: it keeps the old record, if it held it.
  pub add_provider_again :
      (me : l.PeerId) (r : l.ProviderRecord) (s : Providers l) (ps : List l.ProviderRecord) (i : ℕ)
      → get l.RecordKey_discrete (l.provider_key r) s.providers ≡ some ps
      → find_provider l (l.provider r) ps ≡ some i
      → (providers_of l (l.provider_key r) (add_provider l me r s).0 ≡ set ps i r)
        × ((add_provider l me r s).0.provided ≡ s.provided)
  unfolding add_provider place providers_of
  add_provider_again me r s ps i present found =
      let read = get-insert_self l.RecordKey_discrete (l.provider_key r) (set ps i r) s.providers in
      (ground (arith, read), ground arith)

  pub with_config-IsValid : (config : ProvidersConfig) → IsValid (with_config l config)
  unfolding with_config get
  with_config-IsValid config = record { few = omega arith; entries = λ k ps e. cc }

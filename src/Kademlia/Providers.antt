-- ===== src/Kademlia/Providers.antt =====
-- src/network/p2p/kad_mem_providers.rs: the provider records by key, the nearest provider first.
pub mod Order
pub mod Bounds
mod Entries
use smallgod.Prelude.{
  ℕ, zero, suc, ◌≤◌, Bool, true, false, Option, none, some, List, [], ◌∷◌, ◌++◌, ite, ltb, ◌==◌,
  if◌then◌else◌, length, filter, position, set, insert_at, remove_at, pop, Result, ok, err, not,
  get_elem?,
}
use smallgod.Prelude.Maps.{HashMap, get, insert, remove}
use smallgod.Kademlia.{Libp2p, Error, max_provided_keys}

-- `ProvidersConfig`
pub record ProvidersConfig : Type 0 where
  pub max_providers_per_key : ℕ
  pub max_provided_keys : ℕ

module _ (l : Libp2p) where
  -- `Providers`
  pub record Providers : Type 0 where
    pub config : ProvidersConfig
    pub providers : HashMap l.RecordKey (List l.ProviderRecord)
    pub provided : List l.ProviderRecord

  unfoldable pub with_config : ProvidersConfig → Providers
  with_config config = record { config = config; providers = []; provided = [] }

  -- Equality tests of peers and of provider records.
  abbrev pub same_peer : l.PeerId → l.PeerId → Bool
  same_peer a b = ite (l.PeerId_discrete a b) true false

  abbrev same_record : l.ProviderRecord → l.ProviderRecord → Bool
  same_record a b = ite (l.ProviderRecord_discrete a b) true false

  -- `HashSet::insert` and `HashSet::remove`
  set_remove : l.ProviderRecord → List l.ProviderRecord → List l.ProviderRecord
  set_remove r s = filter (λ x. not (same_record x r)) s

  set_insert : l.ProviderRecord → List l.ProviderRecord → List l.ProviderRecord
  unfolding set_remove
  set_insert r s = r ∷ set_remove r s

  -- The place of a record of the same provider.
  unfoldable pub find_provider : l.PeerId → List l.ProviderRecord → Option ℕ
  find_provider peer ps = position (λ p. same_peer (l.provider p) peer) ps

  -- The place of the first record that is farther from the key.
  pub find_farther : l.ProviderRecord → List l.ProviderRecord → Option ℕ
  find_farther r ps =
      position
        (λ p.
          ltb (l.distance (l.provider r) (l.provider_key r))
            (l.distance (l.provider p) (l.provider_key r)))
        ps

  -- `self.provided.insert(record.clone())` if the local node is the provider
  note_provided : l.PeerId → l.ProviderRecord → List l.ProviderRecord → List l.ProviderRecord
  note_provided local_peer r provided =
      if same_peer local_peer (l.provider r) then set_insert r provided else provided

  -- The new list of a key and the new set of provided records, from the old ones.
  unfoldable pub place :
      ℕ
      → l.PeerId
      → l.ProviderRecord
      → List l.ProviderRecord
      → List l.ProviderRecord
      → List l.ProviderRecord × List l.ProviderRecord
  unfolding find_provider find_farther note_provided set_insert set_remove
  place max local_peer r ps provided = elim (find_provider (l.provider r) ps) [
    | some i ↦ (set ps i r, provided)
    | none ↦ elim (find_farther r ps) [
      | some i ↦
          let provided' = note_provided local_peer r provided in
          let ps' = insert_at i r ps in
          if ltb max (length ps')
          then (
            (pop ps').0,
            elim (pop ps').1 [ none ↦ provided' | some p ↦ set_remove p provided' ],
          )
          else (ps', provided')
      | none ↦
          if ltb (length ps) max
          then (ps ++ r ∷ [], note_provided local_peer r provided)
          else (ps, provided)
    ]
  ]

  -- The list that the entry of a key holds.
  abbrev pub entry : l.RecordKey → Providers → List l.ProviderRecord
  entry k s = elim (get l.RecordKey_discrete k s.providers) [ none ↦ [] | some ps ↦ ps ]

  unfoldable pub add_provider :
      l.PeerId → l.ProviderRecord → Providers → Providers × Result Error (Unit {0})
  add_provider local_peer r s =
      let num_keys = length s.providers in
      let k = l.provider_key r in
      let (ps, provided) =
        place s.config.max_providers_per_key local_peer r (entry k s) s.provided in
      let added = record s {
        providers = insert l.RecordKey_discrete k ps s.providers;
        provided = provided;
      } in
      elim (get l.RecordKey_discrete k s.providers) [
        | some _ ↦ (added, ok tt)
        | none ↦
            if s.config.max_provided_keys == num_keys
            then (s, err max_provided_keys)
            else (added, ok tt)
      ]

  -- `Providers::providers`
  unfoldable pub providers_of : l.RecordKey → Providers → List l.ProviderRecord
  providers_of k s = entry k s

  -- The list of a key and the set of provided records, without the record of a peer.
  pub take_provider :
      l.PeerId
      → List l.ProviderRecord
      → List l.ProviderRecord
      → List l.ProviderRecord × List l.ProviderRecord
  take_provider peer ps provided = elim (find_provider peer ps) [
    | none ↦ (ps, provided)
    | some i ↦
        (remove_at i ps, elim (get_elem? ps i) [ none ↦ provided | some p ↦ set_remove p provided ])
  ]

  unfoldable pub remove_provider : l.RecordKey → l.PeerId → Providers → Providers
  unfolding take_provider find_provider set_remove
  remove_provider k peer s = elim (get l.RecordKey_discrete k s.providers) [
    | none ↦ s
    | some ps ↦
        let (ps', provided') = take_provider peer ps s.provided in
        if length ps' == 0
        then record s {
          providers = remove l.RecordKey_discrete k s.providers;
          provided = provided';
        }
        else record s {
          providers = insert l.RecordKey_discrete k ps' s.providers;
          provided = provided';
        }
  ]

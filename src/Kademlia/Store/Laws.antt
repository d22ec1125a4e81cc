-- ===== src/Kademlia/Store/Laws.antt =====
-- The invariant of the in-memory store, what can be read after a write, and pruning.
use smallgod.Prelude.{
  ℕ, suc, ◌≤◌, ◌<◌, ◌≡◌, ◌≢◌, ◌↔◌, refl, ◌⊎◌, inl, inr, Bool, not, none, some, List, [], ◌∷◌, map,
  length, filter, All, arith, Option-cases, Bool-cases, ok, ite, ap, if_pos, if_neg, dec_le, ◌∙◌,
  length-filter-le, length-filter-not,
}
use smallgod.Prelude.Maps.{
  HashMap, get, insert, remove, get-insert, length-insert-le, length-insert_old, length-remove-le,
}
use smallgod.Kademlia.{Libp2p}
use smallgod.Kademlia.Providers.Bounds as ProviderBounds
use smallgod.Kademlia.Providers.Bounds.{
  with_config-IsValid, add_provider-IsValid, remove_provider-IsValid,
}
use smallgod.Kademlia.Store.{
  MemoryStore, MemoryStoreConfig, with_config, retain, get_record, put, remove_record, records,
  add_provider_record, remove_provider_record, prune_expired_records,
}

module _ (l : Libp2p) where
  -- An entry of the records: its key is the record's, and the value is within its bound.
  abbrev IsStored : ℕ → l.RecordKey × l.Record → Type 0
  IsStored max e = (e.0 ≡ l.key e.1) × (l.value_len e.1 < max)

  -- Not too many records, none too large, each under its key; and the provider records are valid.
  pub record IsValid (s : MemoryStore l) : Type 0 where
    pub few : length s.records ≤ s.config.max_records
    pub stored : All (IsStored s.config.max_value_bytes) s.records
    pub providers : ProviderBounds.IsValid l s.providers

  All-filter :
      {A : Type 0} (P : A → Type 0) (p : A → Bool) (xs : List A) → All P xs → All P (filter p xs)
  All-filter P p [] h = tt
  All-filter P p (x ∷ xs) h = elim (Bool-cases (p x)) [
    | inl kept ↦ rw kept (h.0, All-filter P p xs h.1)
    | inr gone ↦ rw gone (All-filter P p xs h.1)
  ]

  All-remove :
      (P : l.RecordKey × l.Record → Type 0) (k : l.RecordKey) (m : HashMap l.RecordKey l.Record)
      → All P m
      → All P (remove l.RecordKey_discrete k m)
  unfolding remove
  All-remove P k [] h = tt
  All-remove P k (e ∷ m) h = elim (l.RecordKey_discrete e.0 k) [
    | yes same ↦ rw (if_pos _ same) (All-remove P k m h.1)
    | no other ↦ rw (if_neg _ other) (h.0, All-remove P k m h.1)
  ]

  put-IsValid-insert :
      (r : l.Record) (s : MemoryStore l)
      → IsValid s
      → l.value_len r < s.config.max_value_bytes
      → length (insert l.RecordKey_discrete (l.key r) r s.records) ≤ s.config.max_records
      → IsValid (record s { records = insert l.RecordKey_discrete (l.key r) r s.records })
  unfolding insert
  put-IsValid-insert r s v fits few = record {
    few = few;
    stored =
        ((refl, fits), All-remove (IsStored s.config.max_value_bytes) (l.key r) s.records v.stored);
    providers = v.providers;
  }

  -- `put` keeps the invariant, whether it succeeds or not: at most the allowed number of records,
  -- and every value smaller than the allowed size.
  put-IsValid : (r : l.Record) (s : MemoryStore l) → IsValid s → IsValid (put l r s).0
  unfolding put
  put-IsValid r s v =
      let m' = insert l.RecordKey_discrete (l.key r) r s.records in
      elim (dec_le s.config.max_value_bytes (l.value_len r)) [
        | yes large ↦ let e : (put l r s).0 ≡ s = ground arith in rw e v
        | no fits ↦ elim (Option-cases (get l.RecordKey_discrete (l.key r) s.records)) [
          | inr (old, present) ↦
              let e : (put l r s).0 ≡ record s { records = m' } = ground arith in
              rw e (
                put-IsValid-insert r s v (omega arith) (
                  omega (
                    arith,
                    v.few,
                    length-insert_old l.RecordKey_discrete (l.key r) r s.records present,
                  )))
          | inl absent ↦ elim (dec_le s.config.max_records (length s.records)) [
            | yes full ↦ let e : (put l r s).0 ≡ s = ground arith in rw e v
            | no room ↦
                let e : (put l r s).0 ≡ record s { records = m' } = ground arith in
                rw e (
                  put-IsValid-insert r s v (omega arith)
                    (omega (arith, length-insert-le l.RecordKey_discrete (l.key r) r s.records)))
          ]
        ]
      ]

  -- `put` succeeds exactly for a value below the allowed size whose key is present or for which
  -- there is room. Then the record is read back under its key and every other key reads as before;
  -- if `put` fails, the store is unchanged.
  pub put_lem :
      (r : l.Record) (s : MemoryStore l) (k : l.RecordKey)
      → (((put l r s).1 ≡ ok tt)
          ↔ (l.value_len r < s.config.max_value_bytes)
            × ((get_record l (l.key r) s ≢ none) ⊎ (length s.records < s.config.max_records)))
        × ((put l r s).1 ≡ ok tt
            → get_record l k (put l r s).0
              ≡ ite (l.RecordKey_discrete k (l.key r)) (some r) (get_record l k s))
        × ((put l r s).1 ≢ ok tt → (put l r s).0 ≡ s)
  unfolding put get_record
  put_lem r s k = (
    (λ h. ground arith, λ h. ground arith),
    λ h.
        let stored : (put l r s).0
            ≡ record s { records = insert l.RecordKey_discrete (l.key r) r s.records } =
          ground arith in
        ap (get_record l k) stored ∙ get-insert l.RecordKey_discrete (l.key r) k r s.records,
    λ h. ground arith,
  )

  -- The operations that change a store.
  pub data Operation : Type 0 where
    put_one : l.Record → Operation
    remove_one : l.RecordKey → Operation
    retain_some : (l.RecordKey → l.Record → Bool) → Operation
    prune : l.Instant → Operation
    add_one_provider : l.ProviderRecord → Operation
    remove_one_provider : l.RecordKey → l.PeerId → Operation

  pub apply : Operation → MemoryStore l → MemoryStore l
  apply (put_one r) s = (put l r s).0
  apply (remove_one k) s = remove_record l k s
  apply (retain_some f) s = retain l f s
  apply (prune now) s = (prune_expired_records l now s).0
  apply (add_one_provider r) s = (add_provider_record l r s).0
  apply (remove_one_provider k peer) s = remove_provider_record l k peer s

  retain-IsValid :
      (f : l.RecordKey → l.Record → Bool) (s : MemoryStore l) → IsValid s → IsValid (retain l f s)
  unfolding retain
  retain-IsValid f s v = record {
    few = omega (arith, v.few, length-filter-le (λ e. f e.0 e.1) s.records);
    stored = All-filter (IsStored s.config.max_value_bytes) (λ e. f e.0 e.1) s.records v.stored;
    providers = v.providers;
  }

  apply-IsValid : (o : Operation) (s : MemoryStore l) → IsValid s → IsValid (apply o s)
  unfolding apply remove_record prune_expired_records add_provider_record remove_provider_record
  apply-IsValid (put_one r) s v = put-IsValid r s v
  apply-IsValid (remove_one k) s v = record {
    few = omega (arith, v.few, length-remove-le l.RecordKey_discrete k s.records);
    stored = All-remove (IsStored s.config.max_value_bytes) k s.records v.stored;
    providers = v.providers;
  }
  apply-IsValid (retain_some f) s v = retain-IsValid f s v
  apply-IsValid (prune now) s v = retain-IsValid (λ _ r. not (l.is_expired now r)) s v
  apply-IsValid (add_one_provider r) s v = record {
    few = v.few;
    stored = v.stored;
    providers = add_provider-IsValid l s.local_key r s.providers v.providers;
  }
  apply-IsValid (remove_one_provider k peer) s v = record {
    few = v.few;
    stored = v.stored;
    providers = remove_provider-IsValid l k peer s.providers v.providers;
  }

  unfoldable pub run : List Operation → MemoryStore l → MemoryStore l
  unfolding apply
  run [] s = s
  run (o ∷ os) s = run os (apply o s)

  run-keeps : (os : List Operation) (s : MemoryStore l) → IsValid s → IsValid (run os s)
  unfolding run
  run-keeps [] s v = v
  run-keeps (o ∷ os) s v = run-keeps os (apply o s) (apply-IsValid o s v)

  -- After any operations on a new store it holds at most the allowed number of records, each under
  -- its key and with a value smaller than the allowed size; there are at most the allowed number of
  -- keys with providers, and the list of each is within its bound, sorted by distance to the key,
  -- and holds a provider once.
  pub run-IsValid :
      (me : l.PeerId) (config : MemoryStoreConfig) (os : List Operation)
      → IsValid (run os (with_config l me config))
  unfolding with_config
  run-IsValid me config os = run-keeps os (with_config l me config) (record {
    few = omega arith;
    stored = tt;
    providers = with_config-IsValid l config.providers;
  })

  length-map : {A B : Type 0} (f : A → B) (xs : List A) → length (map f xs) ≡ length xs
  length-map f [] = refl
  length-map f (x ∷ xs) = ap suc (length-map f xs)

  records-filter :
      (p : l.Record → Bool) (m : HashMap l.RecordKey l.Record)
      → map (λ e. e.1) (filter (λ e. p e.1) m) ≡ filter p (map (λ e. e.1) m)
  records-filter p [] = refl
  records-filter p (e ∷ m) = ground (arith, records-filter p m)

  -- Pruning keeps exactly the records that are not expired, in their order, and the number that it
  -- reports is that of the expired ones.
  pub prune_expired_records_lem :
      (now : l.Instant) (s : MemoryStore l)
      → (records l (prune_expired_records l now s).0
          ≡ filter (λ r. not (l.is_expired now r)) (records l s))
        × ((prune_expired_records l now s).1 ≡ length (filter (l.is_expired now) (records l s)))
  unfolding prune_expired_records
  prune_expired_records_lem now s =
      let kept = records-filter (λ r. not (l.is_expired now r)) s.records in
      let counted = length-filter-not (l.is_expired now) (map (λ e. e.1) s.records) in
      (kept, omega (arith, ap length kept, counted))

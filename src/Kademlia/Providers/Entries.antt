-- ===== src/Kademlia/Providers/Entries.antt =====
-- The list of a key's providers, and that a record that is added keeps it within its bound, sorted
-- by distance, and without repetition.
use smallgod.Prelude.{
  ℕ, ◌≤◌, ◌<◌, ◌≡◌, inl, inr, true, none, some, List, [], ◌∷◌, ◌++◌, ltb, length, All, set,
  insert_at, pop, arith, Option-cases, length-set, length-insert_at, length-pop, length-append,
  Bool-cases, ap, sym,
}
use smallgod.Kademlia.{Libp2p}
use smallgod.Kademlia.Providers.{find_provider, find_farther, place, same_peer}
use smallgod.Kademlia.Providers.Order.{
  Pairwise, IsNearer, IsOther, All-of_none, Pairwise-append_one, Pairwise-pop, insert_at-sorted,
  set-sorted, insert_at-distinct, set-distinct,
}

module _ (l : Libp2p) where
  -- The distance of a record's provider to a key.
  abbrev pub nearness : l.RecordKey → l.ProviderRecord → ℕ
  nearness k p = l.distance (l.provider p) k

  -- The list of a key is within its bound, sorted by distance, and holds a provider once.
  pub record IsEntry (max : ℕ) (k : l.RecordKey) (ps : List l.ProviderRecord) : Type 0 where
    pub bounded : length ps ≤ max
    pub sorted : Pairwise (IsNearer (nearness k)) ps
    pub distinct : Pairwise (IsOther l.provider) ps

  pub same-provider :
      (r : l.ProviderRecord) (p : l.ProviderRecord)
      → same_peer l (l.provider p) (l.provider r) ≡ true
      → l.provider p ≡ l.provider r
  same-provider r p h = ground arith

  pub new-provider :
      (r : l.ProviderRecord) (ps : List l.ProviderRecord)
      → find_provider l (l.provider r) ps ≡ none
      → All (λ p. IsOther l.provider p r) ps
  unfolding find_provider
  new-provider r ps e =
      All-of_none (λ p. IsOther l.provider p r) (λ p. same_peer l (l.provider p) (l.provider r)) ps
        (λ p h q. ground arith) e

  pub farthest :
      (r : l.ProviderRecord) (ps : List l.ProviderRecord)
      → find_farther l r ps ≡ none
      → All (λ p. IsNearer (nearness (l.provider_key r)) p r) ps
  unfolding find_farther
  farthest r ps e =
      All-of_none (λ p. IsNearer (nearness (l.provider_key r)) p r)
        (λ p. ltb (nearness (l.provider_key r) r) (nearness (l.provider_key r) p)) ps
        (λ p h. ground arith) e

  pub All-flip :
      (r : l.ProviderRecord) (ps : List l.ProviderRecord)
      → All (λ p. IsOther l.provider p r) ps
      → All (IsOther l.provider r) ps
  All-flip r [] h = tt
  All-flip r (p ∷ ps) h = (λ e. h.0 (sym e), All-flip r ps h.1)

  module _ (max : ℕ) (me : l.PeerId) (r : l.ProviderRecord)
      (ps provided : List l.ProviderRecord) where
    abbrev placed : List l.ProviderRecord
    placed = (place l max me r ps provided).0

    module _ (v : IsEntry max (l.provider_key r) ps) where
      updated-IsEntry :
          (i : ℕ)
          → find_provider l (l.provider r) ps ≡ some i
          → IsEntry max (l.provider_key r) (set ps i r)
      unfolding find_provider
      updated-IsEntry i e = record {
        bounded = omega (arith, length-set ps i r, v.bounded);
        sorted =
            set-sorted (nearness (l.provider_key r))
              (λ p. same_peer l (l.provider p) (l.provider r)) i r ps
              (λ p h. ap (λ q. l.distance q (l.provider_key r)) (same-provider r p h)) e v.sorted;
        distinct =
            set-distinct l.provider (λ p. same_peer l (l.provider p) (l.provider r)) i r ps
              (same-provider r) e v.distinct;
      }

      inserted-sorted :
          (i : ℕ)
          → find_farther l r ps ≡ some i
          → Pairwise (IsNearer (nearness (l.provider_key r))) (insert_at i r ps)
      unfolding find_farther
      inserted-sorted i e = insert_at-sorted (nearness (l.provider_key r)) i r ps e v.sorted

      inserted-distinct :
          (i : ℕ)
          → find_provider l (l.provider r) ps ≡ none
          → Pairwise (IsOther l.provider) (insert_at i r ps)
      inserted-distinct i e =
          insert_at-distinct l.provider i r ps (All-flip r ps (new-provider r ps e)) v.distinct

      appended-IsEntry :
          length ps < max
          → find_provider l (l.provider r) ps ≡ none
          → find_farther l r ps ≡ none
          → IsEntry max (l.provider_key r) (ps ++ r ∷ [])
      appended-IsEntry room fresh far = record {
        bounded = omega (arith, length-append ps (r ∷ []));
        sorted =
            Pairwise-append_one (IsNearer (nearness (l.provider_key r))) r ps (farthest r ps far)
              v.sorted;
        distinct =
            Pairwise-append_one (IsOther l.provider) r ps (new-provider r ps fresh) v.distinct;
      }

      -- A record that is new to the list is inserted, and the last one may fall out.
      inserted-IsEntry :
          (i : ℕ)
          → find_provider l (l.provider r) ps ≡ none
          → find_farther l r ps ≡ some i
          → IsEntry max (l.provider_key r) placed
      unfolding place
      inserted-IsEntry i fresh near = elim (Bool-cases (ltb max (length (insert_at i r ps)))) [
        | inl full ↦
            let e : placed ≡ (pop (insert_at i r ps)).0 = ground arith in
            rw e (record {
              bounded =
                  omega (arith, length-pop (insert_at i r ps), length-insert_at i r ps, v.bounded);
              sorted = Pairwise-pop _ (insert_at i r ps) (inserted-sorted i near);
              distinct = Pairwise-pop _ (insert_at i r ps) (inserted-distinct i fresh);
            })
        | inr room ↦
            let e : placed ≡ insert_at i r ps = ground arith in
            rw e (record {
              bounded = ground arith;
              sorted = inserted-sorted i near;
              distinct = inserted-distinct i fresh;
            })
      ]

      pub place-IsEntry : IsEntry max (l.provider_key r) placed
      unfolding place
      place-IsEntry = elim (Option-cases (find_provider l (l.provider r) ps)) [
        | inr (i, old) ↦ let e : placed ≡ set ps i r = ground arith in rw e (updated-IsEntry i old)
        | inl fresh ↦ elim (Option-cases (find_farther l r ps)) [
          | inr (i, near) ↦ inserted-IsEntry i fresh near
          | inl far ↦ elim (Bool-cases (ltb (length ps) max)) [
            | inl room ↦
                let e : placed ≡ ps ++ r ∷ [] = ground arith in
                rw e (appended-IsEntry (ground arith) fresh far)
            | inr full ↦ let e : placed ≡ ps = ground arith in rw e v
          ]
        ]
      ]

  pub empty-IsEntry : (max : ℕ) (k : l.RecordKey) → IsEntry max k []
  empty-IsEntry max k = record { bounded = omega arith; sorted = tt; distinct = tt }

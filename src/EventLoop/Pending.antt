-- ===== src/EventLoop/Pending.antt =====
-- The PUT operations of a block that are pending, and what libp2p documents of its queries.
use Prim.Native.Nat.{◌+◌}
use smallgod.Prelude.{
  ℕ, ◌≡◌, refl, ap, ◌∙◌, sym, subst, none, some, [], ◌∷◌, ◌==◌, if◌then◌else◌, arith,
}
use smallgod.Prelude.Maps.{HashMap, get, remove, get-remove_self, get-remove_ne}
use smallgod.EventLoop.{Libp2p, Query, Action}

-- A query has an id that no query of the swarm had before it, and the id stays that of this query;
-- calls that are not queries issue none.
pub record Laws (n : Libp2p) : Type 1 where
  pub Issued : n.QueryId → n.Swarm → Type 0
  pub query_of : n.QueryId → n.Swarm → Query
  pub start_fresh :
      (q : Query) (s : n.Swarm) (id : n.QueryId) (s' : n.Swarm)
      → n.start q s ≡ some (id, s')
      → (¬ Issued id s) × Issued id s'
  pub start_query :
      (q : Query) (s : n.Swarm) (id : n.QueryId) (s' : n.Swarm)
      → n.start q s ≡ some (id, s')
      → query_of id s' ≡ q
  pub start_keeps :
      (q : Query) (s : n.Swarm) (id : n.QueryId) (s' : n.Swarm)
      → n.start q s ≡ some (id, s')
      → (j : n.QueryId) → Issued j s
      → Issued j s' × (query_of j s' ≡ query_of j s)
  pub act_keeps :
      (a : Action n.PeerId n.Multiaddr) (s : n.Swarm) (j : n.QueryId)
      → Issued j s
      → Issued j (n.act a s).1 × (query_of j (n.act a s).1 ≡ query_of j s)

-- `k` at block `b`, and nothing elsewhere.
abbrev pub owes : ℕ → ℕ → ℕ → ℕ
owes b k j = if b == j then k else 0

-- Keys are in a map once.
abbrev pub IsMap {ℓ} : {K V : Type ℓ} → Discrete K → HashMap K V → Type ℓ
IsMap dec [] = Unit
IsMap dec ((k, v) ∷ m) = (get dec k m ≡ none) × IsMap dec m

module _ {ℓ} {K V : Type ℓ} (dec : Discrete K) where
  get-remove-none :
      (k j : K) (m : HashMap K V) → get dec j m ≡ none → get dec j (remove dec k m) ≡ none
  unfolding get remove
  get-remove-none k j [] h = refl
  get-remove-none k j ((i, v) ∷ m) h = let ih = get-remove-none k j m in ground arith

  pub get-remove-some :
      (k j : K) (m : HashMap K V) {v : V}
      → get dec j (remove dec k m) ≡ some v
      → get dec j m ≡ some v
  get-remove-some k j m {v = v} h = elim (dec j k) [
    | yes same ↦
        let gone = get-remove_self dec k m in
        let here = subst (λ i. get dec i (remove dec k m) ≡ some v) same h in cc
    | no other ↦ sym (get-remove_ne dec k j m other) ∙ h
  ]

  pub remove-IsMap : (k : K) (m : HashMap K V) → IsMap dec m → IsMap dec (remove dec k m)
  unfolding remove
  remove-IsMap k [] h = tt
  remove-IsMap k ((i, v) ∷ m) (fresh, h) = elim (dec i k) [
    | yes same ↦
        let e : remove dec k ((i, v) ∷ m) ≡ remove dec k m = ground arith in
        subst (IsMap dec) (sym e) (remove-IsMap k m h)
    | no other ↦
        let e : remove dec k ((i, v) ∷ m) ≡ (i, v) ∷ remove dec k m = ground arith in
        subst (IsMap dec) (sym e) (get-remove-none k i m fresh, remove-IsMap k m h)
  ]

  pub remove-absent : (k : K) (m : HashMap K V) → get dec k m ≡ none → remove dec k m ≡ m
  unfolding get remove
  remove-absent k [] h = refl
  remove-absent k ((i, v) ∷ m) h = let ih = remove-absent k m in grind arith

  -- A sum over the keys of a map.
  abbrev pub total : (K → ℕ) → HashMap K V → ℕ
  total f [] = 0
  total f ((k, v) ∷ m) = f k + total f m

  -- Functions that agree on the keys that are there have the same sum.
  pub total-same :
      (f g : K → ℕ) (m : HashMap K V)
      → IsMap dec m
      → ((k : K) (v : V) → get dec k m ≡ some v → f k ≡ g k)
      → total f m ≡ total g m
  unfolding get
  total-same f g [] h same = refl
  total-same f g ((k, v) ∷ m) (fresh, h) same =
      let here : get dec k ((k, v) ∷ m) ≡ some v = ground arith in
      let rest = total-same f g m h (λ j w e. elim (dec j k) [
        | yes equal ↦ absurd (let gone = subst (λ i. get dec i m ≡ none) (sym equal) fresh in cc)
        | no other ↦ let there : get dec j ((k, v) ∷ m) ≡ some w = ground arith in same j w there
      ]) in
      let first = same k v here in omega (arith, first, rest)

  pub total-remove :
      (f : K → ℕ) (k : K) (m : HashMap K V) {v : V}
      → IsMap dec m
      → get dec k m ≡ some v
      → total f m ≡ f k + total f (remove dec k m)
  unfolding get remove
  total-remove f k [] h e = cc
  total-remove f k ((i, w) ∷ m) {v} (fresh, h) e =
      let absent = remove-absent k m in
      let ih = total-remove f k m {v = v} h in
      elim (dec i k) [
        | yes same ↦
            let gone = absent (subst (λ j. get dec j m ≡ none) same fresh) in
            let g : remove dec k ((i, w) ∷ m) ≡ m = ground arith in
            ap (λ j. f j + total f m) same ∙ ap (λ r. f k + total f r) (sym g)
        | no other ↦
            let found : get dec k m ≡ some v = ground arith in
            let g : remove dec k ((i, w) ∷ m) ≡ (i, w) ∷ remove dec k m = ground arith in
            let rest = ih found in
            let swap : f i + total f m ≡ f k + (f i + total f (remove dec k m)) = omega arith in
            swap ∙ ap (λ r. f k + total f r) (sym g)
      ]

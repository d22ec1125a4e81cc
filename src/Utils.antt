-- ===== src/Utils.antt =====
-- src/utils.rs: what the clients read out of a block header.
use smallgod.Prelude.{
  ℕ, Bool, true, false, ◌&&◌, Option, none, some, List, [], ◌∷◌, ◌==◌, if◌then◌else◌,
}
use smallgod.Chain.{Primitives}

unfoldable pub same_bytes : List ℕ → List ℕ → Bool
same_bytes [] [] = true
same_bytes [] (y ∷ ys) = false
same_bytes (x ∷ xs) [] = false
same_bytes (x ∷ xs) (y ∷ ys) = x == y && same_bytes xs ys

-- `filter_map`
filter_map : {A B : Type 0} → (A → Option B) → List A → List B
filter_map f [] = []
filter_map f (x ∷ xs) = elim (f x) [ none ↦ filter_map f xs | some y ↦ y ∷ filter_map f xs ]

-- The GRANDPA engine id.
abbrev frnk : List ℕ
frnk = b'F' ∷ b'R' ∷ b'N' ∷ b'K' ∷ []

module _ (c : Primitives) where
  -- The closure of `filter_auth_set_changes`: the next authorities that a log item names.
  next_authorities : c.DigestItem → Option (List (c.Public × ℕ))
  unfolding same_bytes
  next_authorities item = elim (c.consensus item) [
    | none ↦ none
    | some (engine, bytes) ↦
        if same_bytes engine frnk
        then elim (c.decode_log bytes) [
          | none ↦ none
          | some log ↦ elim (c.scheduled_change log) [
            | some authorities ↦ some authorities
            | none ↦ c.forced_change log
          ]
        ]
        else none
  ]

  unfoldable pub filter_auth_set_changes : c.Header → List (List (c.Public × ℕ))
  unfolding filter_map next_authorities
  filter_auth_set_changes h = filter_map next_authorities (c.logs h)

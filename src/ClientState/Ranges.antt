-- ===== src/ClientState/Ranges.antt =====
-- What a range holds after blocks were set in it.
use smallgod.Prelude.{ℕ, ◌≤◌, ◌≡◌, ◌↔◌, true, Option, none, some, List, [], ◌∷◌, arith, refl, ap}
use smallgod.ClientState.{
  BlockRange, init_range, range_contains, set_block, first_block, last_block, contains,
}

-- The range after the blocks of a list were set, one after the other.
pub set_all : List ℕ → Option BlockRange → Option BlockRange
set_all [] r = r
set_all (n ∷ ns) r = set_all ns (set_block n r)

abbrev last_of : ℕ → List ℕ → ℕ
last_of n [] = n
last_of n (m ∷ ms) = last_of m ms

set_all-some :
    (n : ℕ) (ns : List ℕ) (r : BlockRange)
    → set_all (n ∷ ns) (some r) ≡ some (record { first = r.first; last = last_of n ns })
unfolding set_all set_block
set_all-some n [] r = refl
set_all-some n (m ∷ ms) r = set_all-some m ms (record { first = r.first; last = n })

-- A range in which blocks are set, one after the other, starts at the first of them, whatever
-- follows, ends at the last of them, and contains exactly the blocks between the two.
pub set_all_lem :
    (n : ℕ) (ns : List ℕ)
    → (first_block (set_all (n ∷ ns) none) ≡ some n)
      × (last_block (set_all (n ∷ ns) none) ≡ some (last_of n ns))
      × ((k : ℕ) → (contains k (set_all (n ∷ ns) none) ≡ true) ↔ ((n ≤ k) × (k ≤ last_of n ns)))
unfolding first_block last_block contains range_contains set_block init_range set_all
set_all_lem n [] = (refl, refl, λ k. ground arith)
set_all_lem n (m ∷ ms) =
    let e = set_all-some m ms (record { first = n; last = n }) in
    (ap first_block e, ap last_block e, λ k. ground (arith, e))

-- ===== src/AppClient/Merge.antt =====
-- Which copy of a row is used, when the DHT and the node have one each.
use smallgod.Prelude.{
  ℕ, zero, suc, ◌+◌, ◌≡◌, ◌⊎◌, true, Option, none, some, List, [], ◌∷◌, get_elem?, arith,
}
use smallgod.AppClient.{Row, is_member, merge_rows}

-- What `merge_rows` gives for a row: nothing, unless its index is verified; then the row of the
-- DHT, or else of the node.
pub get_elem?-merge_rows :
    (verified : List ℕ) (i n j : ℕ) (dht rpc : List (Option Row)) (row : Row)
    → get_elem? (merge_rows verified i n dht rpc) j ≡ some (some row)
    → (is_member (i + j) verified ≡ true)
      × ((get_elem? dht j ≡ some (some row))
          ⊎ ((get_elem? dht j ≡ some none) × (get_elem? rpc j ≡ some (some row))))
unfolding merge_rows
get_elem?-merge_rows verified i zero j dht rpc row e = absurd (ground arith)
get_elem?-merge_rows verified i (suc n) j [] rpc row e = absurd (ground arith)
get_elem?-merge_rows verified i (suc n) j (d ∷ dht) [] row e = absurd (ground arith)
get_elem?-merge_rows verified i (suc n) zero (some d ∷ dht) (r ∷ rpc) row e = ground arith
get_elem?-merge_rows verified i (suc n) zero (none ∷ dht) (some r ∷ rpc) row e = ground arith
get_elem?-merge_rows verified i (suc n) zero (none ∷ dht) (none ∷ rpc) row e = absurd (ground arith)
get_elem?-merge_rows verified i (suc n) (suc j) (d ∷ dht) (r ∷ rpc) row e =
    let ih = get_elem?-merge_rows verified (i + 1) n j dht rpc row e in ground arith

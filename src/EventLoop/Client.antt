-- ===== src/EventLoop/Client.antt =====
-- src/network/p2p/client.rs: the records that the client inserts are counted for their block.
use smallgod.Prelude.{
  ℕ, ◌≤◌, ◌≡◌, refl, ap, ◌∙◌, Option, some, List, [], ◌∷◌, ◌++◌, map, length, All, arith,
}
use smallgod.Prelude.Text.{Bytes, print}
use smallgod.EventLoop.{Libp2p, DhtRecord, block_num}
use smallgod.EventLoop.Keys.{cell, u32_max, try_from, try_from-cell}
use smallgod.EventLoop.Commands.{put_kad_record, dht_record, insert_into_dht, insert_all_into_dht}
use smallgod.EventLoop.Accepted.{IsOfBlock}

length-map {ℓ κ} :
    {A : Type ℓ} {B : Type κ} (f : A → B) (xs : List A) → length (map f xs) ≡ length xs
length-map f [] = refl
length-map f (x ∷ xs) = omega (arith, length-map f xs)

-- Every place has a key that names the block.
module _ (n : Libp2p) {Place : Type 0} (reference : ℕ → Place → Bytes) (IsPlace : Place → Type 0)
    (of_block : (b : ℕ) (p : Place)
      → b ≤ u32_max
      → IsPlace p
      → (value : Bytes) (expires : Option ℕ)
      → IsOfBlock b (record { key = reference b p; value = value; expires = expires })) where
  records-IsOfBlock :
      (ttl b : ℕ) (contents : List (Place × Bytes))
      → b ≤ u32_max
      → All (λ c. IsPlace c.0) contents
      → All (IsOfBlock b) (map (dht_record n reference b ttl) contents)
  unfolding dht_record
  records-IsOfBlock ttl b [] le all = tt
  records-IsOfBlock ttl b ((p, content) ∷ rest) le (is_place, all) =
      (of_block b p le is_place content (n.expires_after ttl), records-IsOfBlock ttl b rest le all)

  insert-IsOfBlock :
      (ttl b : ℕ) (c : Place × Bytes) (rest : List (Place × Bytes))
      → b ≤ u32_max
      → All (λ c. IsPlace c.0) (c ∷ rest)
      → (records : List DhtRecord) × (insert_all_into_dht n reference ttl b (c ∷ rest)
          ≡ some (put_kad_record records b))
        × (length records ≡ length (c ∷ rest))
        × All (IsOfBlock b) records
  unfolding insert_all_into_dht insert_into_dht
  insert-IsOfBlock ttl b c rest le all = (
    map (dht_record n reference b ttl) (c ∷ rest),
    refl,
    length-map _ (c ∷ rest),
    records-IsOfBlock ttl b (c ∷ rest) le all,
  )

-- `reference` is that of kate_recovery's `Position`, which prints the block, the row and the column
-- with colons between them. If the block and the positions fit 32 bits, the insertion of at least one
-- cell sends a command to put as many records, and the key of each is read by the event loop as one
-- of that block.
pub insert_cells_into_dht-IsOfBlock :
    (n : Libp2p) (reference : ℕ → ℕ × ℕ → Bytes)
    → ((b r c : ℕ) → reference b (r, c) ≡ print b ++ b':' ∷ (print r ++ b':' ∷ print c))
    → (ttl b : ℕ) (c : (ℕ × ℕ) × Bytes) (rest : List ((ℕ × ℕ) × Bytes)) → b ≤ u32_max
    → All (λ c. (c.0.0 ≤ u32_max) × (c.0.1 ≤ u32_max)) (c ∷ rest)
    → (records : List DhtRecord) × (insert_all_into_dht n reference ttl b (c ∷ rest)
        ≡ some (put_kad_record records b))
      × (length records ≡ length (c ∷ rest))
      × All (IsOfBlock b) records
unfolding block_num
insert_cells_into_dht-IsOfBlock n reference format =
    insert-IsOfBlock n reference (λ p. (p.0 ≤ u32_max) × (p.1 ≤ u32_max))
      (λ b p b≤ p≤ value expires. (
        cell b p.0 p.1,
        ap try_from (format b p.0 p.1) ∙ try_from-cell b p.0 p.1 b≤ p≤.0 p≤.1,
        refl,
      ))

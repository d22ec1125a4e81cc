-- ===== src/Database/Keys.antt =====
-- Different keys are at different places of RocksDB.
use smallgod.Prelude.{
  ℕ, ◌+◌, ◌/◌, ◌%◌, ◌^◌, ◌<◌, ◌≡◌, refl, sym, ap, ◌∙◌, none, some, get_elem?, [], ◌∷◌, ◌++◌, arith,
}
use smallgod.Prelude.Text.{Bytes, print, parse, split}
use smallgod.Prelude.Text.RoundTrip.{parse-print, split-++, split-alone, print-≢}
use smallgod.Database.{
  Key, app_data, block_header, verified_cell_count, finality_sync_checkpoint, to_be_bytes, RocksKey,
  rocks_key,
}

-- The numbers of a key are of 32 bits.
unfoldable pub IsKey : Key → Type 0
IsKey (app_data app_id n) = (app_id < 2 ^ 32) × (n < 2 ^ 32)
IsKey (block_header n) = n < 2 ^ 32
IsKey (verified_cell_count n) = n < 2 ^ 32
IsKey finality_sync_checkpoint = Unit

print-inj : (m n : ℕ) → print m ≡ print n → m ≡ n
print-inj m n e =
    let first = parse-print (m + n) m (omega arith) in
    let second = parse-print (m + n) n (omega arith) in
    let both : some m ≡ some n = sym first ∙ ap (parse (m + n)) e ∙ second in cc

abbrev pair : ℕ → ℕ → Bytes
pair m n = print m ++ b':' ∷ print n

split-pair : (m n : ℕ) → split b':' (pair m n) ≡ print m ∷ print n ∷ []
split-pair m n =
    split-++ b':' (print m) (print n) (print-≢ b':' m (λ k. omega arith))
    ∙ ap (λ ps. print m ∷ ps) (split-alone b':' (print n) (print-≢ b':' n (λ k. omega arith)))

pair-inj : (m n m' n' : ℕ) → pair m n ≡ pair m' n' → (m ≡ m') × (n ≡ n')
pair-inj m n m' n' e =
    let parts : (print m ∷ print n ∷ []) ≡ (print m' ∷ print n' ∷ []) =
      sym (split-pair m n) ∙ ap (split b':') e ∙ split-pair m' n' in
    (print-inj m m' cc, print-inj n n' cc)

to_be_bytes-inj : (m n : ℕ) → m < 2 ^ 32 → n < 2 ^ 32 → to_be_bytes m ≡ to_be_bytes n → m ≡ n
unfolding to_be_bytes
to_be_bytes-inj m n small small' e =
    let a : m / 2 ^ 24 % 256 ≡ n / 2 ^ 24 % 256 = cc in
    let b : m / 2 ^ 16 % 256 ≡ n / 2 ^ 16 % 256 = cc in
    let c : m / 2 ^ 8 % 256 ≡ n / 2 ^ 8 % 256 = cc in
    let d : m % 256 ≡ n % 256 = cc in omega (arith, a, b, c, d)

-- The first letter by which the column families differ.
abbrev letter : RocksKey → ℕ
letter (none, key) = 0
letter (some cf, key) = elim (get_elem? cf 12) [ none ↦ 0 | some c ↦ c ]

-- Two keys with the same place are the same, if their numbers are of 32 bits.
pub rocks_key-inj : (j k : Key) → IsKey j → IsKey k → rocks_key j ≡ rocks_key k → j ≡ k
unfolding rocks_key IsKey
rocks_key-inj (app_data a n) (app_data b m) hj hk e =
    let (same, same') = pair-inj a n b m (ap (λ x. x.1) e) in cc
rocks_key-inj (block_header n) (block_header m) hj hk e =
    ap block_header (to_be_bytes-inj n m hj hk (ap (λ x. x.1) e))
rocks_key-inj (verified_cell_count n) (verified_cell_count m) hj hk e =
    ap verified_cell_count (to_be_bytes-inj n m hj hk (ap (λ x. x.1) e))
rocks_key-inj finality_sync_checkpoint finality_sync_checkpoint hj hk e = refl
rocks_key-inj (app_data a n) _ hj hk e =
    absurd (let letters = ap letter e in omega (arith, letters))
rocks_key-inj (block_header n) _ hj hk e =
    absurd (let letters = ap letter e in omega (arith, letters))
rocks_key-inj (verified_cell_count n) _ hj hk e =
    absurd (let letters = ap letter e in omega (arith, letters))
rocks_key-inj finality_sync_checkpoint _ hj hk e =
    absurd (let letters = ap letter e in omega (arith, letters))

-- ===== src/Prelude/Maps.antt =====
-- `std::collections::HashMap`: an association list that holds a key once, so that its length is
-- the map's `len`. The order of the entries is not meant.
use Prim.Native.Nat.{◌+◌, ◌≤◌, ◌<◌}
use mathlib.Core.Path.{◌≡◌, refl}
use mathlib.Core.Logic.{◌≢◌, ◌⊎◌, inl, inr, ite}
use mathlib.Core.List.{List, [], ◌∷◌, Memᴰ}
use mathlib.Core.Option.{Option, none, some}
use native.Mathlib.Omega.{arith}
use smallgod.Prelude.Lists.{length}

abbrev pub HashMap {ℓ κ} : Type ℓ → Type κ → Type (ℓ ⊔ κ)
HashMap K V = List (K × V)

module _ {ℓ} {K V : Type ℓ} (dec : Discrete K) where
  -- `get`
  unfoldable pub get : K → HashMap K V → Option V
  get k [] = none
  get k ((j, v) ∷ m) = ite (dec j k) (some v) (get k m)

  -- `remove`
  unfoldable pub remove : K → HashMap K V → HashMap K V
  remove k [] = []
  remove k ((j, v) ∷ m) = ite (dec j k) (remove k m) ((j, v) ∷ remove k m)

  -- `insert`: an entry under the same key is replaced
  unfoldable pub insert : K → V → HashMap K V → HashMap K V
  unfolding remove
  insert k v m = (k, v) ∷ remove k m

  pub get-remove_self : (k : K) (m : HashMap K V) → get k (remove k m) ≡ none
  unfolding get remove
  get-remove_self k [] = refl
  get-remove_self k ((j, v) ∷ m) = ground (arith, get-remove_self k m)

  pub get-remove_ne : (k j : K) (m : HashMap K V) → j ≢ k → get j (remove k m) ≡ get j m
  unfolding get remove
  get-remove_ne k j [] h = refl
  get-remove_ne k j ((i, v) ∷ m) h = ground (arith, get-remove_ne k j m)

  pub get-insert_self : (k : K) (v : V) (m : HashMap K V) → get k (insert k v m) ≡ some v
  unfolding get insert
  get-insert_self k v m = ground arith

  pub get-insert_ne : (k j : K) (v : V) (m : HashMap K V) → j ≢ k → get j (insert k v m) ≡ get j m
  unfolding get insert
  get-insert_ne k j v m h = ground (arith, get-remove_ne k j m)

  pub length-remove-le : (k : K) (m : HashMap K V) → length (remove k m) ≤ length m
  unfolding remove
  length-remove-le k [] = omega arith
  length-remove-le k ((j, v) ∷ m) = ground (arith, length-remove-le k m)

  pub length-remove-lt :
      (k : K) (m : HashMap K V) (v : V) → get k m ≡ some v → length (remove k m) < length m
  unfolding get remove
  length-remove-lt k [] v h = cc
  length-remove-lt k ((j, w) ∷ m) v h = ground (arith, length-remove-lt k m v, length-remove-le k m)

  pub length-insert-le : (k : K) (v : V) (m : HashMap K V) → length (insert k v m) ≤ length m + 1
  unfolding insert
  length-insert-le k v m = omega (arith, length-remove-le k m)

  pub length-insert_old :
      (k : K) (v : V) (m : HashMap K V) {w : V}
      → get k m ≡ some w
      → length (insert k v m) ≤ length m
  unfolding insert
  length-insert_old k v m {w} h = omega (arith, length-remove-lt k m w h)

  -- What is read after an insertion, at any key.
  pub get-insert :
      (k j : K) (v : V) (m : HashMap K V) → get j (insert k v m) ≡ ite (dec j k) (some v) (get j m)
  get-insert k j v m = elim (dec j k) [
    | yes same ↦ ground (arith, get-insert_self k v m)
    | no other ↦ ground (arith, get-insert_ne k j v m)
  ]

  -- The entries behind a removal, an insertion, and what is read, as members of the list.
  mem-kept :
      {Q : Type ℓ} (d : Dec Q) (e x : K × V) (left m : HashMap K V)
      → (Memᴰ e left → Memᴰ e m)
      → Memᴰ e (ite d left (x ∷ left))
      → Memᴰ e (x ∷ m)
  mem-kept (yes same) e x left m keep h = Memᴰ.tail (keep h)
  mem-kept (no other) e x left m keep (Memᴰ.head here) = Memᴰ.head here
  mem-kept (no other) e x left m keep (Memᴰ.tail later) = Memᴰ.tail (keep later)

  pub mem-remove : (k : K) (e : K × V) (m : HashMap K V) → Memᴰ e (remove k m) → Memᴰ e m
  unfolding remove
  mem-remove k e [] h = h
  mem-remove k e ((j, v) ∷ m) h = mem-kept (dec j k) e (j, v) (remove k m) m (mem-remove k e m) h

  pub mem-insert :
      (k : K) (v : V) (e : K × V) (m : HashMap K V)
      → Memᴰ e (insert k v m)
      → (e ≡ (k, v)) ⊎ Memᴰ e m
  unfolding insert
  mem-insert k v e m (Memᴰ.head here) = inl here
  mem-insert k v e m (Memᴰ.tail later) = inr (mem-remove k e m later)

  mem-read :
      (j k : K) (v w : V) (m : HashMap K V) (d : Dec (j ≡ k))
      → (get k m ≡ some v → Memᴰ (k, v) m)
      → ite d (some w) (get k m) ≡ some v
      → Memᴰ (k, v) ((j, w) ∷ m)
  mem-read j k v w m (yes same) rest h = Memᴰ.head cc
  mem-read j k v w m (no other) rest h = Memᴰ.tail (rest h)

  pub mem-get : (k : K) (v : V) (m : HashMap K V) → get k m ≡ some v → Memᴰ (k, v) m
  unfolding get
  mem-get k v [] h = cc
  mem-get k v ((j, w) ∷ m) h = mem-read j k v w m (dec j k) (mem-get k v m) h

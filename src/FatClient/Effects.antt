-- ===== src/FatClient/Effects.antt =====
-- What the effects of a run request and insert.
use smallgod.Prelude.{
  ℕ, ◌≡◌, refl, ap, ◌∙◌, sym, Bool, true, false, List, [], ◌∷◌, ◌++◌, if◌then◌else◌,
}
use smallgod.Network.{Kate, Cell}
use smallgod.LightClient.{LightClient}
use smallgod.SyncClient.{SyncClient}
use smallgod.FatClient.{FatClient, Effect, get_kate_proof, insert_cells, insert_rows, requests}
use smallgod.FatClient.Chunks.{concat}

unfoldable pub gather {ℓ κ} : {E : Type ℓ} {A : Type κ} → (E → List A) → List E → List A
gather f [] = []
gather f (e ∷ es) = f e ++ gather f es

pub ++-assoc {ℓ} : {A : Type ℓ} (xs ys zs : List A) → (xs ++ ys) ++ zs ≡ xs ++ (ys ++ zs)
++-assoc [] ys zs = refl
++-assoc (x ∷ xs) ys zs = ap (λ r. x ∷ r) (++-assoc xs ys zs)

pub ++-[] {ℓ} : {A : Type ℓ} (xs : List A) → xs ++ [] ≡ xs
++-[] [] = refl
++-[] (x ∷ xs) = ap (λ r. x ∷ r) (++-[] xs)

gather-++ {ℓ κ} :
    {E : Type ℓ} {A : Type κ} (f : E → List A) (xs ys : List E)
    → gather f (xs ++ ys) ≡ gather f xs ++ gather f ys
unfolding gather
gather-++ f [] ys = refl
gather-++ f (x ∷ xs) ys =
    ap (λ r. f x ++ r) (gather-++ f xs ys) ∙ sym (++-assoc (f x) (gather f xs) (gather f ys))

pub if_false {ℓ} : {A : Type ℓ} (b : Bool) (x y : A) → b ≡ false → (if b then x else y) ≡ y
if_false true x y h = cc
if_false false x y h = refl

pub concat-++ {ℓ} :
    {A : Type ℓ} (xs ys : List (List A)) → concat (xs ++ ys) ≡ concat xs ++ concat ys
concat-++ [] ys = refl
concat-++ (x ∷ xs) ys =
    ap (λ r. x ++ r) (concat-++ xs ys) ∙ sym (++-assoc x (concat xs) (concat ys))

module _ (k : Kate) (c : LightClient k) (client : SyncClient k c) (f : FatClient k c client) where
  abbrev pub Effects : Type 0
  Effects = List (Effect k c client f)

  unfoldable pub positions_in : Effect k c client f → List k.Position
  positions_in (get_kate_proof b ps) = ps
  positions_in _ = []

  unfoldable pub cells_in : Effect k c client f → List (Cell k)
  cells_in (insert_cells b cells) = cells
  cells_in _ = []

  unfoldable pub rows_in : Effect k c client f → List (List (ℕ × f.Row))
  rows_in (insert_rows b rows) = rows ∷ []
  rows_in _ = []

  -- The positions that are requested, the cells that are inserted, and the insertions of rows.
  unfoldable pub requested : Effects → List k.Position
  unfolding gather positions_in
  requested es = gather positions_in es

  unfoldable pub inserted_cells : Effects → List (Cell k)
  unfolding gather cells_in
  inserted_cells es = gather cells_in es

  unfoldable pub inserted_rows : Effects → List (List (ℕ × f.Row))
  unfolding gather rows_in
  inserted_rows es = gather rows_in es

  pub requested-requests :
      (b : ℕ) (batch : List (List k.Position))
      → requested (requests k c client f b batch) ≡ concat batch
  unfolding requests requested gather positions_in
  requested-requests b [] = refl
  requested-requests b (ps ∷ batch) = ap (λ r. ps ++ r) (requested-requests b batch)

  pub inserted_cells-requests :
      (b : ℕ) (batch : List (List k.Position)) → inserted_cells (requests k c client f b batch) ≡ []
  unfolding requests inserted_cells gather cells_in
  inserted_cells-requests b [] = refl
  inserted_cells-requests b (ps ∷ batch) = inserted_cells-requests b batch

  pub inserted_rows-requests :
      (b : ℕ) (batch : List (List k.Position)) → inserted_rows (requests k c client f b batch) ≡ []
  unfolding requests inserted_rows gather rows_in
  inserted_rows-requests b [] = refl
  inserted_rows-requests b (ps ∷ batch) = inserted_rows-requests b batch

  pub requested-++ : (xs ys : Effects) → requested (xs ++ ys) ≡ requested xs ++ requested ys
  unfolding requested
  requested-++ xs ys = gather-++ positions_in xs ys

  pub inserted_cells-++ :
      (xs ys : Effects) → inserted_cells (xs ++ ys) ≡ inserted_cells xs ++ inserted_cells ys
  unfolding inserted_cells
  inserted_cells-++ xs ys = gather-++ cells_in xs ys

  pub inserted_rows-++ :
      (xs ys : Effects) → inserted_rows (xs ++ ys) ≡ inserted_rows xs ++ inserted_rows ys
  unfolding inserted_rows
  inserted_rows-++ xs ys = gather-++ rows_in xs ys

-- ===== src/Network/Parts.antt =====
-- The positions of the cells that the DHT or a node gives, and those that are left.
use mathlib.Core.List.{Memᴰ}
use smallgod.Prelude.{
  ◌≡◌, sym, ap, ◌∙◌, subst, some, List, [], ◌∷◌, ok, ◌>>=◌, >>=-eq-ok, arith, Option-cases, inl,
  inr,
}
use smallgod.Network.{Kate, Cell, Network, fetch_cell_from_dht, fetch_cells_from_dht, zip_cells}
use smallgod.Network.Distinct.{IsDistinct}
use smallgod.Network.Verified.{positions_of}

module _ (k : Kate) (net : Network k) where
  -- Positions apart from each other, among given ones.
  pub record Parts (ps here left : List k.Position) : Type 0 where
    pub here_in : (p : k.Position) → Memᴰ p here → Memᴰ p ps
    pub left_in : (p : k.Position) → Memᴰ p left → Memᴰ p ps
    pub here_distinct : IsDistinct here
    pub left_distinct : IsDistinct left
    pub apart : (p : k.Position) → Memᴰ p here → Memᴰ p left → ⊥

  fetch_cell-some :
      (p : k.Position) (cell : Cell k) → fetch_cell_from_dht k net p ≡ some cell → cell.position ≡ p
  unfolding fetch_cell_from_dht
  fetch_cell-some p cell e = elim (Option-cases (net.get_kad_record p)) [
    | inl no_record ↦ absurd (ground arith)
    | inr (value, found) ↦ elim (Option-cases (k.to_content value)) [
      | inl malformed ↦ absurd (ground arith)
      | inr (content, parsed) ↦
          let e' : record { position = p; content = content } ≡ cell = ground arith in
          ap (λ c. c.position) (sym e')
    ]
  ]

  pub fetch_cells-Parts :
      (ps : List k.Position)
      → IsDistinct ps
      → Parts ps
          (positions_of k (fetch_cells_from_dht k net ps).0)
          (fetch_cells_from_dht k net ps).1
  unfolding fetch_cells_from_dht
  fetch_cells-Parts [] d = record {
    here_in = λ p m. m;
    left_in = λ p m. m;
    here_distinct = tt;
    left_distinct = tt;
    apart = λ p m n. elim m [ ];
  }
  fetch_cells-Parts (p ∷ ps) (fresh, d) =
      let rest = fetch_cells-Parts ps d in
      elim (Option-cases (fetch_cell_from_dht k net p)) [
        | inl missing ↦
            let e : fetch_cells_from_dht k net (p ∷ ps)
                ≡ ((fetch_cells_from_dht k net ps).0, p ∷ (fetch_cells_from_dht k net ps).1) =
              ground arith in
            subst (λ x. Parts (p ∷ ps) (positions_of k x.0) x.1) (sym e)
              (record {
                here_in = λ q m. Memᴰ.tail (rest.here_in q m);
                left_in = λ q m. elim m [
                  | Memᴰ.head s ↦ Memᴰ.head s
                  | Memᴰ.tail m' ↦ Memᴰ.tail (rest.left_in q m')
                ];
                here_distinct = rest.here_distinct;
                left_distinct = (λ m. fresh (rest.left_in p m), rest.left_distinct);
                apart = λ q m n. elim n [
                  | Memᴰ.head s ↦ fresh (
                      rest.here_in p (
                        subst (λ x. Memᴰ x (positions_of k (fetch_cells_from_dht k net ps).0)) s m))
                  | Memᴰ.tail n' ↦ rest.apart q m n'
                ];
              })
        | inr (cell, found) ↦
            let e : fetch_cells_from_dht k net (p ∷ ps)
                ≡ (cell ∷ (fetch_cells_from_dht k net ps).0, (fetch_cells_from_dht k net ps).1) =
              ground arith in
            let named = fetch_cell-some p cell found in
            subst (λ x. Parts (p ∷ ps) (positions_of k x.0) x.1) (sym e)
              (record {
                here_in = λ q m. elim m [
                  | Memᴰ.head s ↦ Memᴰ.head (s ∙ named)
                  | Memᴰ.tail m' ↦ Memᴰ.tail (rest.here_in q m')
                ];
                left_in = λ q m. Memᴰ.tail (rest.left_in q m);
                here_distinct = (
                  λ m. fresh (
                      rest.here_in p (
                        subst (λ x. Memᴰ x (positions_of k (fetch_cells_from_dht k net ps).0)) named
                          m)),
                  rest.here_distinct,
                );
                left_distinct = rest.left_distinct;
                apart = λ q m n. elim m [
                  | Memᴰ.head s ↦ fresh (
                      rest.left_in p
                        (subst (λ x. Memᴰ x (fetch_cells_from_dht k net ps).1) (s ∙ named) n))
                  | Memᴰ.tail m' ↦ rest.apart q m' n
                ];
              })
      ]

  pub zip_cells-ok :
      (ps : List k.Position) (proofs : List k.Proof) (cells : List (Cell k))
      → zip_cells k ps proofs ≡ ok cells
      → IsDistinct ps
      → IsDistinct (positions_of k cells)
        × ((p : k.Position) → Memᴰ p (positions_of k cells) → Memᴰ p ps)
  unfolding zip_cells
  zip_cells-ok [] proofs cells e d =
      let empty : cells ≡ [] = ground arith in
      subst
        (λ x.
          IsDistinct (positions_of k x)
          × ((p : k.Position) → Memᴰ p (positions_of k x) → Memᴰ p []))
        (sym empty) (tt, λ p m. m)
  zip_cells-ok (p ∷ ps) [] cells e d =
      let empty : cells ≡ [] = ground arith in
      subst
        (λ x.
          IsDistinct (positions_of k x)
          × ((q : k.Position) → Memᴰ q (positions_of k x) → Memᴰ q (p ∷ ps)))
        (sym empty) (tt, λ q m. elim m [ ])
  zip_cells-ok (p ∷ ps) (proof ∷ proofs) cells e (fresh, d) =
      elim (Option-cases (k.concat_content proof)) [
        | inl malformed ↦ absurd (ground arith)
        | inr (content, parsed) ↦
            let e' : (zip_cells k ps proofs >>= λ cs.
            ok (record { position = p; content = content } ∷ cs))
                ≡ ok cells =
              ground arith in
            let (cs, others, e'') = >>=-eq-ok (zip_cells k ps proofs) _ e' in
            let (distinct, among) = zip_cells-ok ps proofs cs others d in
            let split : cells ≡ record { position = p; content = content } ∷ cs = ground arith in
            subst
              (λ x.
                IsDistinct (positions_of k x)
                × ((q : k.Position) → Memᴰ q (positions_of k x) → Memᴰ q (p ∷ ps)))
              (sym split)
              (
                (λ m. fresh (among p m), distinct),
                λ q m. elim m [ Memᴰ.head s ↦ Memᴰ.head s | Memᴰ.tail m' ↦ Memᴰ.tail (among q m') ],
              )
      ]

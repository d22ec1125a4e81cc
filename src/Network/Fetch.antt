-- ===== src/Network/Fetch.antt =====
-- `fetch_verified` as a whole: from the DHT, and from the node for what is left.
use mathlib.Core.List.{Memᴰ}
use mathlib.Core.List.Memᴰ
use smallgod.Prelude.{
  ◌≡◌, refl, sym, ap, ◌∙◌, subst, Bool, true, false, none, some, List, [], ◌∷◌, ◌++◌, length, ok,
  >>=-eq-ok, arith, Option-cases, inl, inr,
}
use smallgod.Network.{
  Kate, Cell, Network, verify, fetch_cells_from_dht, request_kate_proof, retain_verified,
  fetch_verified_from_dht, fetch_verified_from_rpc, Fetched, fetch_verified,
}
use smallgod.Network.Distinct.{IsDistinct, append-IsDistinct, map-mem, mem-map, eq_of_key}
use smallgod.Network.Verified.{
  IsComplete, IsChecked, positions_of, Sorted, verify-ok, retained, retained-IsDistinct,
}
use smallgod.Network.Parts.{Parts, fetch_cells-Parts, zip_cells-ok}

module _ (k : Kate) (net : Network k) where
  module _ (d : k.Dimensions) (commitments : List k.Commitment) where
    -- Checked cells of different positions among given ones, and different positions that are left.
    pub record IsFetched (ps : List k.Position) (cells : List (Cell k)) (left : List k.Position)
        : Type 0 where
      pub checked : (cell : Cell k) → Memᴰ cell cells → IsChecked k d commitments true cell
      pub cells_in : (p : k.Position) → Memᴰ p (positions_of k cells) → Memᴰ p ps
      pub left_in : (p : k.Position) → Memᴰ p left → Memᴰ p ps
      pub cells_distinct : IsDistinct (positions_of k cells)
      pub left_distinct : IsDistinct left
      pub apart : (p : k.Position) → Memᴰ p (positions_of k cells) → Memᴰ p left → ⊥

    not_both :
        (cell : Cell k)
        → IsChecked k d commitments true cell
        → IsChecked k d commitments false cell
        → ⊥
    not_both cell (a, given, accepted) (b, given', rejected) =
        let same : a ≡ b = ground arith in ground arith

    retained-IsFetched :
        (ps unfetched v u : List k.Position) (cells : List (Cell k))
        → Parts k net ps (positions_of k cells) unfetched
        → Sorted k d commitments cells v u
        → IsFetched ps (retain_verified k v cells) (unfetched ++ u)
    unfolding retain_verified
    retained-IsFetched ps unfetched v u cells parts sorted =
        let of_cell : (p : k.Position)
            → Memᴰ p (positions_of k (retain_verified k v cells))
            → (cell : Cell k) × Memᴰ cell cells
              × (p ≡ cell.position)
              × IsChecked k d commitments true cell =
          λ p m.
            (let (cell, mc, e) = mem-map (λ c. c.position) (retain_verified k v cells) p m in
              let (mc', ch) =
                retained k d commitments cells v u cell sorted parts.here_distinct mc in
              (cell, mc', e, ch)) in
        let in_cells : (p : k.Position) (cell : Cell k)
            → Memᴰ cell cells
            → p ≡ cell.position
            → Memᴰ p (positions_of k cells) =
          λ p cell m e.
            subst (λ x. Memᴰ x (positions_of k cells)) (sym e)
              (map-mem (λ c. c.position) cells cell m) in
        let of_u : (p : k.Position) → Memᴰ p u → Memᴰ p (positions_of k cells) =
          λ p m. (let (cell, mc, e, ch) = sorted.rejected p m in in_cells p cell mc e) in
        record {
          checked =
              λ cell m. (retained k d commitments cells v u cell sorted parts.here_distinct m).1;
          cells_in = λ p m.
              (let (cell, mc, e, ch) = of_cell p m in parts.here_in p (in_cells p cell mc e));
          left_in = λ p m. elim (Memᴰ.append_cases unfetched m) [
            | inl a ↦ parts.left_in p a
            | inr b ↦ parts.here_in p (of_u p b)
          ];
          cells_distinct = retained-IsDistinct k d commitments cells v parts.here_distinct;
          left_distinct =
              append-IsDistinct unfetched u parts.left_distinct
                (sorted.distinct parts.here_distinct) (λ p a b. parts.apart p (of_u p b) a);
          apart = λ p m n.
              (let (cell, mc, e, ch) = of_cell p m in
                elim (Memᴰ.append_cases unfetched n) [
                  | inl a ↦ parts.apart p (in_cells p cell mc e) a
                  | inr b ↦
                      let (cell', mc', e', ch') = sorted.rejected p b in
                      let same =
                        eq_of_key (λ c. c.position) cells cell' cell parts.here_distinct mc' mc
                          (sym e' ∙ e) in
                      not_both cell ch (subst (IsChecked k d commitments false) same ch')
                ]);
        }

    fetch_verified_from_dht-IsFetched :
        (ps : List k.Position) (cells : List (Cell k)) (left : List k.Position)
        → IsComplete k net
        → IsDistinct ps
        → fetch_verified_from_dht k net d commitments ps ≡ ok (cells, left)
        → IsFetched ps cells left
    unfolding fetch_verified_from_dht
    fetch_verified_from_dht-IsFetched ps cells left complete distinct e =
        let ((v, u), verified, e') =
          >>=-eq-ok (verify k net d commitments (fetch_cells_from_dht k net ps).0) _ e in
        let same : ◌≡◌ {A = List (Cell k) × List k.Position}
            (
              retain_verified k v (fetch_cells_from_dht k net ps).0,
              (fetch_cells_from_dht k net ps).1 ++ u,
            )
            (cells, left) =
          ground arith in
        subst (λ x. IsFetched ps x.0 x.1) same
          (retained-IsFetched ps (fetch_cells_from_dht k net ps).1 v u
            (fetch_cells_from_dht k net ps).0 (fetch_cells-Parts k net ps distinct)
            (verify-ok k d commitments net (fetch_cells_from_dht k net ps).0 v u complete verified))

    fetch_verified_from_rpc-IsFetched :
        (ps : List k.Position) (cells : List (Cell k)) (left : List k.Position)
        → IsComplete k net
        → IsDistinct ps
        → fetch_verified_from_rpc k net d commitments ps ≡ ok (cells, left)
        → IsFetched ps cells left
    unfolding fetch_verified_from_rpc request_kate_proof
    fetch_verified_from_rpc-IsFetched ps cells left complete distinct e =
        let (fetched, requested, e') = >>=-eq-ok (request_kate_proof k net ps) _ e in
        let ((v, u), verified, e'') = >>=-eq-ok (verify k net d commitments fetched) _ e' in
        elim (Option-cases (net.query_proof ps)) [
          | inl failed ↦ absurd (ground arith)
          | inr (proofs, answered) ↦
              let (apart, among) = zip_cells-ok k net ps proofs fetched (ground arith) distinct in
              let same : ◌≡◌ {A = List (Cell k) × List k.Position} (retain_verified k v fetched, u)
                  (cells, left) =
                ground arith in
              subst (λ x. IsFetched ps x.0 x.1) same
                (retained-IsFetched ps [] v u fetched
                  (record {
                    here_in = among;
                    left_in = λ p m. elim m [ ];
                    here_distinct = apart;
                    left_distinct = tt;
                    apart = λ p m n. elim n [ ];
                  })
                  (verify-ok k d commitments net fetched v u complete verified))
        ]

    positions-append :
        (a b : List (Cell k)) → positions_of k (a ++ b) ≡ positions_of k a ++ positions_of k b
    positions-append [] b = refl
    positions-append (x ∷ a) b = ap (λ ps. x.position ∷ ps) (positions-append a b)

    both-IsFetched :
        (ps left left' : List k.Position) (a b : List (Cell k))
        → IsFetched ps a left
        → IsFetched left b left'
        → IsFetched ps (a ++ b) left'
    both-IsFetched ps left left' a b fa fb =
        let in_either : (p : k.Position)
            → Memᴰ p (positions_of k (a ++ b))
            → Memᴰ p (positions_of k a ++ positions_of k b) =
          λ p m. subst (Memᴰ p) (positions-append a b) m in
        record {
          checked = λ cell m. elim (Memᴰ.append_cases a m) [
            | inl x ↦ fa.checked cell x
            | inr y ↦ fb.checked cell y
          ];
          cells_in = λ p m. elim (Memᴰ.append_cases (positions_of k a) (in_either p m)) [
            | inl x ↦ fa.cells_in p x
            | inr y ↦ fa.left_in p (fb.cells_in p y)
          ];
          left_in = λ p m. fa.left_in p (fb.left_in p m);
          cells_distinct = subst IsDistinct (sym (positions-append a b)) (
              append-IsDistinct (positions_of k a) (positions_of k b) fa.cells_distinct
                fb.cells_distinct (λ p x y. fa.apart p x (fb.cells_in p y)));
          left_distinct = fb.left_distinct;
          apart = λ p m n. elim (Memᴰ.append_cases (positions_of k a) (in_either p m)) [
            | inl x ↦ fa.apart p x (fb.left_in p n)
            | inr y ↦ fb.apart p y n
          ];
        }

    -- For different positions, if the tasks that verify complete in any order, each once, then every
    -- cell that `fetch_verified` returns was checked against the commitment of its row; the cells
    -- are of different requested positions, and the positions that it returns as not fetched are
    -- different ones among the requested, of none of these cells.
    pub fetch_verified-IsFetched :
        (disable_rpc : Bool) (ps : List k.Position) (out : Fetched k)
        → IsComplete k net
        → IsDistinct ps
        → fetch_verified k net disable_rpc d commitments ps ≡ ok out
        → IsFetched ps out.fetched out.unfetched
    unfolding fetch_verified
    fetch_verified-IsFetched true ps out complete distinct e =
        let ((cells, left), dht, e') =
          >>=-eq-ok (fetch_verified_from_dht k net d commitments ps) _ e in
        let same : record {
          fetched = cells;
          unfetched = left;
          dht_fetched = length cells;
          rpc_fetched = none;
          inserted = [];
        }
            ≡ out =
          ground arith in
        subst (λ x. IsFetched ps x.fetched x.unfetched) same
          (fetch_verified_from_dht-IsFetched ps cells left complete distinct dht)
    fetch_verified-IsFetched false ps out complete distinct e =
        let ((cells, left), dht, e') =
          >>=-eq-ok (fetch_verified_from_dht k net d commitments ps) _ e in
        let ((more, left'), rpc, e'') =
          >>=-eq-ok (fetch_verified_from_rpc k net d commitments left) _ e' in
        let first = fetch_verified_from_dht-IsFetched ps cells left complete distinct dht in
        let same : record {
          fetched = cells ++ more;
          unfetched = left';
          dht_fetched = length cells;
          rpc_fetched = some (length more);
          inserted = more;
        }
            ≡ out =
          ground arith in
        subst (λ x. IsFetched ps x.fetched x.unfetched) same
          (both-IsFetched ps left left' cells more first
            (fetch_verified_from_rpc-IsFetched left more left' complete first.left_distinct rpc))

-- ===== src/Network/Verified.antt =====
-- What `fetch_verified` returns: verified cells of different requested positions.
use mathlib.Core.List.{Memᴰ}
use smallgod.Prelude.{
  ◌≡◌, refl, sym, ap, ◌∙◌, subst, Bool, true, false, not, ite, some, List, [], ◌∷◌, map, filter,
  any, get_elem?, ok, >>=-eq-ok, arith, Option-cases, inl, inr,
}
use smallgod.Network.{
  Kate, Cell, Network, verify_task, join_tasks, verify_tasks, verified_positions,
  unverified_positions, verify, retain_verified,
}
use smallgod.Network.Distinct.{
  IsDistinct, mem-filter, any-mem, mem-map, eq_of_key, filter-IsDistinct,
}

module _ (k : Kate) where
  -- The tasks complete in any order, each once.
  pub record IsComplete (net : Network k) : Type 0 where
    pub same :
        (rs : List (k.Position × Bool)) (r : k.Position × Bool)
        → Memᴰ r (net.completed rs)
        → Memᴰ r rs
    pub once :
        (rs : List (k.Position × Bool))
        → IsDistinct (map (λ r. r.0) rs)
        → IsDistinct (map (λ r. r.0) (net.completed rs))

  -- The proof of a cell was checked against the commitment of its row.
  abbrev pub IsChecked : k.Dimensions → List k.Commitment → Bool → Cell k → Type 0
  IsChecked d commitments b cell =
      (commitment : k.Commitment) × (get_elem? commitments (k.row cell.position) ≡ some commitment)
      × (k.verify_proof d commitment cell.position cell.content ≡ some b)

  abbrev pub positions_of : List (Cell k) → List k.Position
  positions_of cells = map (λ cell. cell.position) cells

  module _ (d : k.Dimensions) (commitments : List k.Commitment) where
    verify_task-ok :
        (cell : Cell k) (r : k.Position × Bool)
        → verify_task k d commitments cell ≡ ok r
        → (r.0 ≡ cell.position) × IsChecked d commitments r.1 cell
    unfolding verify_task
    verify_task-ok cell r e = elim (Option-cases (get_elem? commitments (k.row cell.position))) [
      | inl outside ↦ absurd (ground arith)
      | inr (commitment, given) ↦
          elim (Option-cases (k.verify_proof d commitment cell.position cell.content)) [
            | inl failed ↦ absurd (ground arith)
            | inr (b, checked) ↦
                let e' : (cell.position, b) ≡ r = ground arith in
                (ap (λ x. x.0) (sym e'), (commitment, given, checked ∙ ap (λ x. some x.1) e'))
          ]
    ]

    join_tasks-ok :
        (cells : List (Cell k)) (rs : List (k.Position × Bool))
        → join_tasks k d commitments cells ≡ ok rs
        → (map (λ r. r.0) rs ≡ positions_of cells)
          × ((r : k.Position × Bool)
              → Memᴰ r rs
              → (cell : Cell k) × Memᴰ cell cells
                × (r.0 ≡ cell.position)
                × IsChecked d commitments r.1 cell)
    unfolding join_tasks
    join_tasks-ok [] rs e =
        let none_left : rs ≡ [] = ground arith in
        (ap (map (λ r. r.0)) none_left, λ r m. elim (subst (Memᴰ r) none_left m) [ ])
    join_tasks-ok (cell ∷ cells) rs e =
        let (r0, first, e') = >>=-eq-ok (verify_task k d commitments cell) _ e in
        let (rs0, others, e'') = >>=-eq-ok (join_tasks k d commitments cells) _ e' in
        let (named, checked) = verify_task-ok cell r0 first in
        let (names, all) = join_tasks-ok cells rs0 others in
        let split : rs ≡ r0 ∷ rs0 = ground arith in
        (
          ap (map (λ r. r.0)) split
              ∙ ap (λ x. x ∷ map (λ r. r.0) rs0) named
              ∙ ap (λ x. cell.position ∷ x) names,
          λ r m. elim (subst (Memᴰ r) split m) [
            | Memᴰ.head same ↦ (
              cell,
              Memᴰ.head refl,
              ap (λ x. x.0) same ∙ named,
              subst (λ x. IsChecked d commitments x.1 cell) (sym same) checked,
            )
            | Memᴰ.tail m' ↦ let (c', mc, n, ch) = all r m' in (c', Memᴰ.tail mc, n, ch)
          ],
        )

    verify_tasks-ok :
        (cells : List (Cell k)) (rs : List (k.Position × Bool))
        → verify_tasks k d commitments cells ≡ ok rs
        → join_tasks k d commitments cells ≡ ok rs
    unfolding verify_tasks
    verify_tasks-ok cells rs e = ground arith

    -- The two lists of positions that a verification of cells gives.
    pub record Sorted (cells : List (Cell k)) (verified unverified : List k.Position) : Type 0 where
      pub accepted :
          (p : k.Position)
          → Memᴰ p verified
          → (cell : Cell k) × Memᴰ cell cells
            × (p ≡ cell.position)
            × IsChecked d commitments true cell
      pub rejected :
          (p : k.Position)
          → Memᴰ p unverified
          → (cell : Cell k) × Memᴰ cell cells
            × (p ≡ cell.position)
            × IsChecked d commitments false cell
      pub distinct : IsDistinct (positions_of cells) → IsDistinct unverified

    pub verify-ok :
        (net : Network k) (cells : List (Cell k)) (v u : List k.Position)
        → IsComplete net
        → verify k net d commitments cells ≡ ok (v, u)
        → Sorted cells v u
    unfolding verify verified_positions unverified_positions
    verify-ok net [] v u complete e =
        let no_v : v ≡ [] = ground arith in
        let no_u : u ≡ [] = ground arith in
        record {
          accepted = λ p m. elim (subst (Memᴰ p) no_v m) [ ];
          rejected = λ p m. elim (subst (Memᴰ p) no_u m) [ ];
          distinct = λ d. subst IsDistinct (sym no_u) tt;
        }
    verify-ok net (cell ∷ cells) v u complete e =
        let (rs, done, e') = >>=-eq-ok (verify_tasks k d commitments (cell ∷ cells)) _ e in
        let (names, all) =
          join_tasks-ok (cell ∷ cells) rs (verify_tasks-ok (cell ∷ cells) rs done) in
        let is_v : v ≡ map (λ r. r.0) (filter (λ r. r.1) (net.completed rs)) = ground arith in
        let is_u : u ≡ map (λ r. r.0) (filter (λ r. not r.1) (net.completed rs)) = ground arith in
        record {
          accepted = λ p m.
              (let (r, mr, same) =
                  mem-map (λ r. r.0) (filter (λ r. r.1) (net.completed rs)) p
                    (subst (Memᴰ p) is_v m) in
                let (mr', holds) = mem-filter (λ r. r.1) (net.completed rs) r mr in
                let (c', mc, n, ch) = all r (complete.same rs r mr') in
                (c', mc, same ∙ n, subst (λ b. IsChecked d commitments b c') holds ch));
          rejected = λ p m.
              (let (r, mr, same) =
                  mem-map (λ r. r.0) (filter (λ r. not r.1) (net.completed rs)) p
                    (subst (Memᴰ p) is_u m) in
                let (mr', holds) = mem-filter (λ r. not r.1) (net.completed rs) r mr in
                let (c', mc, n, ch) = all r (complete.same rs r mr') in
                let is_false : r.1 ≡ false = ground arith in
                (c', mc, same ∙ n, subst (λ b. IsChecked d commitments b c') is_false ch));
          distinct = λ dc. subst IsDistinct (sym is_u) (
              filter-IsDistinct (λ r. r.0) (λ r. not r.1) (net.completed rs)
                (complete.once rs (subst IsDistinct (sym names) dc)));
        }

    -- Only cells whose position is verified are retained, and these are the verified ones, if all
    -- have different positions.
    pub retained :
        (cells : List (Cell k)) (v u : List k.Position) (cell : Cell k)
        → Sorted cells v u
        → IsDistinct (positions_of cells)
        → Memᴰ cell (retain_verified k v cells)
        → Memᴰ cell cells × IsChecked d commitments true cell
    unfolding retain_verified
    retained cells v u cell sorted distinct m =
        let (mc, holds) =
          mem-filter (λ c. any (λ p. ite (k.Position_discrete p c.position) true false) v) cells
            cell m in
        let (c', mc', same, checked) =
          sorted.accepted cell.position (any-mem k.Position_discrete cell.position v holds) in
        let same_cell = eq_of_key (λ c. c.position) cells c' cell distinct mc' mc (sym same) in
        (mc, subst (IsChecked d commitments true) same_cell checked)

    pub retained-IsDistinct :
        (cells : List (Cell k)) (v : List k.Position)
        → IsDistinct (positions_of cells)
        → IsDistinct (positions_of (retain_verified k v cells))
    unfolding retain_verified
    retained-IsDistinct cells v distinct = filter-IsDistinct (λ c. c.position) _ cells distinct

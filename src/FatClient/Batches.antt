-- ===== src/FatClient/Batches.antt =====
-- What the batches of requests fetch and insert.
use smallgod.Prelude.{
  ℕ, ◌≡◌, refl, ap, ◌∙◌, sym, subst, List, [], ◌∷◌, ◌++◌, map, any, Bool, true, false, Result, ok,
  err, panic,
}
use smallgod.Network.{Kate, Cell, FetchError, request_kate_proof}
use smallgod.LightClient.{LightClient}
use smallgod.SyncClient.{SyncClient}
use smallgod.FatClient.{
  FatClient, FatError, insert_results, is_panic, insert_joined, requests, fetch_batch,
  fetch_batches, and_then,
}
use smallgod.FatClient.Chunks.{concat}
use smallgod.FatClient.Effects.{
  Effects, gather, positions_in, cells_in, rows_in, requested, inserted_cells, inserted_rows,
  ++-assoc, ++-[], concat-++, requested-requests, inserted_cells-requests, inserted_rows-requests,
  requested-++, inserted_cells-++, inserted_rows-++,
}

module _ (k : Kate) (c : LightClient k) (client : SyncClient k c) (f : FatClient k c client) where
  -- The positions and no rows are in the effects, and if there is a result, it is that of before
  -- with the cells.
  pub record IsPart (positions : List k.Position) (before : List (Cell k))
      (es : Effects k c client f) (r : Result FatError (List (Cell k))) : Type 0 where
    pub no_rows : inserted_rows k c client f es ≡ []
    pub all_fetched :
        (fetched : List (Cell k))
        → r ≡ ok fetched
        → (requested k c client f es ≡ positions)
          × (fetched ≡ before ++ inserted_cells k c client f es)

  nothing-IsPart : (before : List (Cell k)) → IsPart [] before [] (ok before)
  unfolding inserted_rows inserted_cells requested gather
  nothing-IsPart before = record {
    no_rows = refl;
    all_fetched =
        λ fetched e. let same : before ≡ fetched = cc in (refl, sym same ∙ sym (++-[] before));
  }

  insert_results-IsPart :
      (b : ℕ) (results : List (Result FetchError (List (Cell k)))) (before : List (Cell k))
      → let (es, r) = insert_results k c client f b results before in IsPart [] before es r
  unfolding insert_results inserted_rows inserted_cells requested gather cells_in rows_in
      positions_in
  insert_results-IsPart b [] before = nothing-IsPart before
  insert_results-IsPart b (panic ∷ results) before = record {
    no_rows = refl;
    all_fetched = λ fetched e. cc;
  }
  insert_results-IsPart b (err why ∷ results) before = record {
    no_rows = refl;
    all_fetched = λ fetched e. cc;
  }
  insert_results-IsPart b (ok cells ∷ results) before =
      let part = insert_results-IsPart b results (before ++ cells) in
      record {
        no_rows = part.no_rows;
        all_fetched = λ fetched e.
            let (none_requested, all) = part.all_fetched fetched e in
            (none_requested, all ∙ ++-assoc before cells _);
      }

  insert_joined-IsPart :
      (panics : Bool) (b : ℕ) (results : List (Result FetchError (List (Cell k))))
      (before : List (Cell k))
      → let (es, r) = insert_joined k c client f panics b results before in IsPart [] before es r
  unfolding insert_joined inserted_rows gather
  insert_joined-IsPart true b results before = record {
    no_rows = refl;
    all_fetched = λ fetched e. cc;
  }
  insert_joined-IsPart false b results before = insert_results-IsPart b results before

  fetch_batch-IsPart :
      (b : ℕ) (batch : List (List k.Position)) (before : List (Cell k))
      → let (es, r) = fetch_batch k c client f b batch before in IsPart (concat batch) before es r
  unfolding fetch_batch
  fetch_batch-IsPart b batch before =
      let sent = requests k c client f b batch in
      let results = map (request_kate_proof k (c.network b)) batch in
      let panics = any (is_panic k c client f) results in
      let es = (insert_joined k c client f panics b results before).0 in
      let part = insert_joined-IsPart panics b results before in
      record {
        no_rows =
            inserted_rows-++ k c client f sent es
            ∙ ap (λ r. r ++ inserted_rows k c client f es)
                (inserted_rows-requests k c client f b batch)
            ∙ part.no_rows;
        all_fetched = λ fetched e.
            let (none_requested, all) = part.all_fetched fetched e in
            (
              requested-++ k c client f sent es
                  ∙ ap (λ r. r ++ requested k c client f es)
                      (requested-requests k c client f b batch)
                  ∙ ap (λ r. concat batch ++ r) none_requested
                  ∙ ++-[] (concat batch),
              all
                  ∙ ap (λ r. before ++ r)
                      (sym (
                        inserted_cells-++ k c client f sent es
                        ∙ ap (λ r. r ++ inserted_cells k c client f es)
                            (inserted_cells-requests k c client f b batch))),
            );
      }

  -- Two parts, the second of which takes what the first has fetched.
  IsPart-++ :
      (ps qs : List k.Position) (before between : List (Cell k)) (es es' : Effects k c client f)
      (r : Result FatError (List (Cell k)))
      → IsPart ps before es (ok between)
      → IsPart qs between es' r
      → IsPart (ps ++ qs) before (es ++ es') r
  IsPart-++ ps qs before between es es' r first second =
      let (asked, have) = first.all_fetched between refl in
      record {
        no_rows =
            inserted_rows-++ k c client f es es'
            ∙ ap (λ x. x ++ inserted_rows k c client f es') first.no_rows
            ∙ second.no_rows;
        all_fetched = λ fetched e.
            let (asked', have') = second.all_fetched fetched e in
            (
              requested-++ k c client f es es'
                  ∙ ap (λ x. x ++ requested k c client f es') asked
                  ∙ ap (λ x. ps ++ x) asked',
              have'
                  ∙ ap (λ x. x ++ inserted_cells k c client f es') have
                  ∙ ++-assoc before (inserted_cells k c client f es)
                      (inserted_cells k c client f es')
                  ∙ ap (λ x. before ++ x) (sym (inserted_cells-++ k c client f es es')),
            );
      }

  -- The positions of both parts, if the first does not fail.
  and_then-IsPart :
      (ps qs : List k.Position) (before : List (Cell k)) (es : Effects k c client f)
      (r : Result FatError (List (Cell k)))
      (next : List (Cell k) → Effects k c client f × Result FatError (List (Cell k)))
      → IsPart ps before es r
      → ((between : List (Cell k)) → IsPart qs between (next between).0 (next between).1)
      → let (es', r') = and_then k c client f (es, r) next in IsPart (ps ++ qs) before es' r'
  unfolding and_then
  and_then-IsPart ps qs before es panic next part rest = record {
    no_rows = part.no_rows;
    all_fetched = λ fetched e. cc;
  }
  and_then-IsPart ps qs before es (err why) next part rest = record {
    no_rows = part.no_rows;
    all_fetched = λ fetched e. cc;
  }
  and_then-IsPart ps qs before es (ok between) next part rest =
      IsPart-++ ps qs before between es (next between).0 (next between).1 part (rest between)

  pub fetch_batches-IsPart :
      (b : ℕ) (batches : List (List (List k.Position))) (before : List (Cell k))
      → let (es, r) = fetch_batches k c client f b batches before in
        IsPart (concat (concat batches)) before es r
  unfolding fetch_batches
  fetch_batches-IsPart b [] before = nothing-IsPart before
  fetch_batches-IsPart b (batch ∷ batches) before =
      let (es, r) = fetch_batch k c client f b batch before in
      let next = λ (between : List (Cell k)). fetch_batches k c client f b batches between in
      let part =
        and_then-IsPart (concat batch) (concat (concat batches)) before es r next
          (fetch_batch-IsPart b batch before) (λ between. fetch_batches-IsPart b batches between) in
      let (es', r') = and_then k c client f (es, r) next in
      subst (λ ps. IsPart ps before es' r') (sym (concat-++ batch (concat batches))) part

  -- If every request is answered, the batches end with a result.
  insert_results-answered :
      (b : ℕ) (batch : List (List k.Position)) (before : List (Cell k))
      → ((ps : List k.Position)
          → (cells : List (Cell k)) × (request_kate_proof k (c.network b) ps ≡ ok cells))
      → (fetched : List (Cell k)) × ((insert_results k c client f b
            (map (request_kate_proof k (c.network b)) batch)
            before).1
          ≡ ok fetched)
  unfolding insert_results
  insert_results-answered b [] before answers = (before, refl)
  insert_results-answered b (ps ∷ batch) before answers =
      let (cells, answered) = answers ps in
      let (fetched, e) = insert_results-answered b batch (before ++ cells) answers in
      let rest = map (request_kate_proof k (c.network b)) batch in
      (fetched, ap (λ r. (insert_results k c client f b (r ∷ rest) before).1) answered ∙ e)

  -- No request of the batch panics then.
  any-is_panic :
      (b : ℕ) (batch : List (List k.Position))
      → ((ps : List k.Position)
          → (cells : List (Cell k)) × (request_kate_proof k (c.network b) ps ≡ ok cells))
      → any (is_panic k c client f) (map (request_kate_proof k (c.network b)) batch) ≡ false
  unfolding is_panic
  any-is_panic b [] answers = refl
  any-is_panic b (ps ∷ batch) answers =
      let (cells, answered) = answers ps in
      let rest = any-is_panic b batch answers in rw answered rest

  pub fetch_batches-answered :
      (b : ℕ) (batches : List (List (List k.Position))) (before : List (Cell k))
      → ((ps : List k.Position)
          → (cells : List (Cell k)) × (request_kate_proof k (c.network b) ps ≡ ok cells))
      → (fetched : List (Cell k)) × ((fetch_batches k c client f b batches before).1 ≡ ok fetched)
  unfolding fetch_batches fetch_batch insert_joined and_then
  fetch_batches-answered b [] before answers = (before, refl)
  fetch_batches-answered b (batch ∷ batches) before answers =
      let (between, first) = insert_results-answered b batch before answers in
      let (fetched, e) = fetch_batches-answered b batches between answers in
      let next = λ (x : List (Cell k)). fetch_batches k c client f b batches x in
      let es = (fetch_batch k c client f b batch before).0 in
      let results = map (request_kate_proof k (c.network b)) batch in
      let joined =
        ap (λ p. (insert_joined k c client f p b results before).1) (any-is_panic b batch answers)
        ∙ first in
      (fetched, ap (λ r. (and_then k c client f (es, r) next).1) joined ∙ e)

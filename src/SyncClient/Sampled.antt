-- ===== src/SyncClient/Sampled.antt =====
-- What the counts that the loop stores stand for.
use mathlib.Core.List.{Memᴰ}
use mathlib.Core.List.Memᴰ
use smallgod.Prelude.{
  ℕ, zero, suc, ◌+◌, ◌-◌, ◌^◌, ◌≡◌, ◌≤◌, refl, sym, subst, some, List, [], ◌∷◌, ◌++◌, ltb, leb,
  length, arith, Option-cases, Bool-cases, Result-cases, inl, inr, ◌⊎◌,
}
use smallgod.Network.{Kate, fetch_verified}
use smallgod.Network.Distinct.{IsDistinct}
use smallgod.Network.Verified.{IsComplete}
use smallgod.LightClient.{LightClient, Put, block_header, verified_cell_count}
use smallgod.LightClient.Sampled.{IsSampled, fetched-IsSampled}
use smallgod.SyncClient.{
  SyncClient, Sync, block_verified, get_header, store_and_send, process_block, synced_header,
  achieved, run_block, run_range, run,
}

module _ (k : Kate) (c : LightClient k) (client : SyncClient k c) where
  -- A header, or the count of a block all of whose sampled positions have a checked cell.
  pub data IsGood : Put c.Header → Type 0 where
    any_header : {n : ℕ} {h : c.Header} → IsGood (block_header n h)
    sampled_count :
        {v : ℕ} (h : c.Header) (extension : c.Extension) (d : k.Dimensions)
        (commitments : List k.Commitment)
        → c.extract_kate h ≡ some extension
        → c.dimensions extension ≡ some d
        → c.commitments extension ≡ some commitments
        → IsSampled k c d commitments
        → length (c.random_cells d) ≤ v
        → IsGood (verified_cell_count (c.number h) v)

  abbrev Puts : Type 0
  Puts = List (Put c.Header)

  abbrev IsNew : Puts → Puts → Type 0
  IsNew a b = (p : Put c.Header) → Memᴰ p b → Memᴰ p a ⊎ IsGood p

  IsNew-trans : (a b d : Puts) → IsNew a b → IsNew b d → IsNew a d
  IsNew-trans a b d f g p m = elim (g p m) [ inl old ↦ f p old | inr good ↦ inr good ]

  IsNew-of_eq : (a b : Puts) → b ≡ a → IsNew a b
  IsNew-of_eq a b e p m = inl (subst (Memᴰ p) e m)

  IsNew-of_put : (a b : Puts) (put : Put c.Header) → IsGood put → b ≡ a ++ put ∷ [] → IsNew a b
  IsNew-of_put a b put good e p m = elim (Memᴰ.append_cases a (subst (Memᴰ p) e m)) [
    | inl old ↦ inl old
    | inr new ↦ inr (subst IsGood (sym (Memᴰ.eq_of_singleton new)) good)
  ]

  get_header-IsNew : (n : ℕ) (s : Sync k c) → IsNew s.stored (get_header k c client n s).0.stored
  unfolding get_header
  get_header-IsNew n s = elim (Option-cases (client.get_block_header s.stored n)) [
    | inl failed ↦ IsNew-of_eq s.stored _ (ground arith)
    | inr (found, answered) ↦ elim (Option-cases found) [
      | inr (h, stored) ↦ IsNew-of_eq s.stored _ (ground arith)
      | inl unknown ↦ elim (Option-cases (client.request_header n)) [
        | inl failed ↦ IsNew-of_eq s.stored _ (ground arith)
        | inr (h, given) ↦ elim (Bool-cases (client.accepts s.stored (block_header n h))) [
          | inl accepted ↦ IsNew-of_put s.stored _ (block_header n h) any_header (ground arith)
          | inr refused ↦ IsNew-of_eq s.stored _ (ground arith)
        ]
      ]
    ]
  ]

  store_and_send-IsNew :
      (h : c.Header) (v : ℕ) (s : Sync k c)
      → IsGood (verified_cell_count (c.number h) v)
      → IsNew s.stored (store_and_send k c client h v s).0.stored
  unfolding store_and_send
  store_and_send-IsNew h v s good = elim (Bool-cases (leb (2 ^ 32) v)) [
    | inl large ↦ IsNew-of_eq s.stored _ (ground arith)
    | inr small ↦ elim (Bool-cases (client.accepts s.stored (verified_cell_count (c.number h) v))) [
      | inr refused ↦ IsNew-of_eq s.stored _ (ground arith)
      | inl accepted ↦
          IsNew-of_put s.stored _ (verified_cell_count (c.number h) v) good
            (elim (Result-cases (block_verified k c client h (some (c.calculate_confidence v)))) [
              | inl (message, sent) ↦ ground arith
              | inr (inl (why, failed)) ↦ ground arith
              | inr (inr panicked) ↦ ground arith
            ])
    ]
  ]

  module _ (complete : (n : ℕ) → IsComplete k (c.network n))
      (distinct : (d : k.Dimensions) → IsDistinct (c.random_cells d)) where
    process_block-IsNew :
        (h : c.Header) (s : Sync k c) → IsNew s.stored (process_block k c client h s).0.stored
    unfolding process_block
    process_block-IsNew h s = elim (Option-cases (c.extract_kate h)) [
      | inl no_extension ↦ IsNew-of_eq s.stored _ (ground arith)
      | inr (extension, given) ↦ elim (Option-cases (c.dimensions extension)) [
        | inl invalid ↦ IsNew-of_eq s.stored _ (ground arith)
        | inr (d, valid) ↦ elim (Option-cases (c.commitments extension)) [
          | inl malformed ↦ IsNew-of_eq s.stored _ (ground arith)
          | inr (commitments, parsed) ↦
              elim (Result-cases (
                fetch_verified k (c.network (c.number h)) c.disable_rpc d commitments
                  (c.random_cells d))) [
                    | inr (inl (why, failed)) ↦ IsNew-of_eq s.stored _ (ground arith)
                    | inr (inr panicked) ↦ IsNew-of_eq s.stored _ (ground arith)
                    | inl (f, fetched) ↦
                        elim (Bool-cases (ltb (length f.fetched) (length (c.random_cells d)))) [
                          | inl few ↦ IsNew-of_eq s.stored _ (ground arith)
                          | inr enough ↦
                              let le : length (c.random_cells d) ≤ length f.fetched =
                                ground arith in
                              let (sampled, _) =
                                fetched-IsSampled k c (c.number h) d commitments f
                                  (complete (c.number h)) (distinct d) fetched le in
                              let same : process_block k c client h s
                                  ≡ store_and_send k c client h (length f.fetched) s =
                                ground arith in
                              subst (λ x. IsNew s.stored x.0.stored) (sym same)
                                (store_and_send-IsNew h (length f.fetched) s (
                                  sampled_count h extension d commitments given valid parsed sampled
                                    le))
                        ]
                  ]
        ]
      ]
    ]

    run_block-IsNew :
        (n : ℕ) (s t : Sync k c) → run_block k c client n s ≡ some t → IsNew s.stored t.stored
    unfolding run_block
    run_block-IsNew n s t e = elim (Option-cases (client.is_confidence_stored s.stored n)) [
      | inl failed ↦ IsNew-of_eq s.stored t.stored (ground arith)
      | inr (b, known) ↦ elim (Bool-cases b) [
        | inl stored ↦ IsNew-of_eq s.stored t.stored (ground arith)
        | inr unknown ↦
            let u = (get_header k c client n s).0 in
            let first = get_header-IsNew n s in
            elim (Option-cases (get_header k c client n s).1) [
              | inl no_header ↦ subst (IsNew s.stored) (ground arith) first
              | inr (h, found) ↦
                  let v = synced_header k c n u in
                  let w = (process_block k c client h v).0 in
                  let second = process_block-IsNew h v in
                  let both = IsNew-trans s.stored v.stored w.stored first second in
                  elim (Result-cases (process_block k c client h v).1) [
                    | inl (_, processed) ↦
                        let is_t : achieved k c n w ≡ t = ground arith in
                        subst (λ (x : Sync k c). IsNew s.stored x.stored) is_t both
                    | inr (inl (why, failed)) ↦
                        let is_t : w ≡ t = ground arith in
                        subst (λ (x : Sync k c). IsNew s.stored x.stored) is_t both
                    | inr (inr panicked) ↦ absurd (ground arith)
                  ]
            ]
      ]
    ]

    run_range-IsNew :
        (i n : ℕ) (s t : Sync k c) → run_range k c client i n s ≡ some t → IsNew s.stored t.stored
    unfolding run_range
    run_range-IsNew zero n s t e =
        subst (IsNew s.stored) (ground arith) (IsNew-of_eq s.stored s.stored refl)
    run_range-IsNew (suc i) n s t e = elim (Option-cases (run_block k c client n s)) [
      | inl panicked ↦ absurd (ground arith)
      | inr (u, went) ↦
          IsNew-trans s.stored u.stored t.stored (run_block-IsNew n s u went)
            (run_range-IsNew i (n + 1) u t (ground arith))
    ]

  -- If the verifications complete in any order, each once, and random positions are different ones:
  -- whatever a run over a range stores, if it does not panic, is a header or the count of cells of a
  -- block for which every random position has a cell that was checked against the commitment of its
  -- row, and the count is no less than the number of the positions.
  pub run-IsNew :
      ((n : ℕ) → IsComplete k (c.network n))
      → ((d : k.Dimensions) → IsDistinct (c.random_cells d))
      → (start end : ℕ) (s t : Sync k c) → run k c client start end s ≡ some t
      → IsNew s.stored t.stored
  unfolding run
  run-IsNew complete distinct start end s t e = elim (Bool-cases (leb end start)) [
    | inl empty ↦ subst (IsNew s.stored) (ground arith) (IsNew-of_eq s.stored s.stored refl)
    | inr some_blocks ↦ elim (Option-cases (run_range k c client (end - start) start s)) [
      | inl panicked ↦ absurd (ground arith)
      | inr (u, went) ↦
          IsNew-trans s.stored u.stored t.stored
            (run_range-IsNew complete distinct (end - start) start s u went)
            (IsNew-of_eq u.stored t.stored (ground arith))
    ]
  ]

-- ===== src/SyncClient/Ranges.antt =====
-- The two ranges that a run of the sync client keeps.
use smallgod.Prelude.{
  ℕ, zero, suc, ◌+◌, ◌-◌, ◌<◌, ◌≤◌, ◌≡◌, sym, ap, ◌∙◌, subst, true, Option, none, some, leb, arith,
  Option-cases, Bool-cases, Result-cases, inl, inr,
}
use smallgod.ClientState.{BlockRange, State, set_block, init_range, contains, range_contains}
use smallgod.Network.{Kate}
use smallgod.LightClient.{LightClient}
use smallgod.SyncClient.{
  SyncClient, Sync, synced_header, achieved, get_header, store_and_send, process_block, run_block,
  run_range, run,
}

-- The blocks of a range are from the first one on and before the bound.
Within : ℕ → ℕ → Option BlockRange → Type 0
Within first bound none = Unit
Within first bound (some r) = (first ≤ r.first) × (r.first ≤ r.last) × (r.last < bound)

-- The second range has the blocks of the first.
Covered : Option BlockRange → Option BlockRange → Type 0
Covered none o = Unit
Covered (some r) none = ⊥
Covered (some r) (some r') = (r'.first ≤ r.first) × (r.last ≤ r'.last)

record IsNested (first bound : ℕ) (s : State) : Type 0 where
  headers : Within first bound s.sync_header_verified
  confidence : Within first bound s.sync_confidence_achieved
  covered : Covered s.sync_confidence_achieved s.sync_header_verified

Within-le :
    (first bound bound' : ℕ) (o : Option BlockRange)
    → bound ≤ bound'
    → Within first bound o
    → Within first bound' o
unfolding Within
Within-le first bound bound' none le w = tt
Within-le first bound bound' (some r) le (a, b, d) = (a, b, omega arith)

set_block-Within :
    (first n : ℕ) (o : Option BlockRange)
    → first ≤ n
    → Within first n o
    → Within first (n + 1) (set_block n o)
unfolding Within set_block init_range
set_block-Within first n none le w = (le, omega arith, omega arith)
set_block-Within first n (some r) le (a, b, d) = (a, omega arith, omega arith)

-- The range of the headers is set at a block behind the others, and then the other one too.
set_block-Covered :
    (first n : ℕ) (o o' : Option BlockRange)
    → Within first n o
    → Covered o o'
    → Covered o (set_block n o')
unfolding Within Covered set_block
set_block-Covered first n none o' w h = tt
set_block-Covered first n (some r) none w h = absurd h
set_block-Covered first n (some r) (some r') (a, b, d) (e, g) = (e, omega arith)

both-Covered :
    (first n : ℕ) (o o' : Option BlockRange)
    → Within first n o'
    → Covered o o'
    → Covered (set_block n o) (set_block n o')
unfolding Within Covered set_block init_range
both-Covered first n none none w h = (omega arith, omega arith)
both-Covered first n none (some r') (a, b, d) h = (omega arith, omega arith)
both-Covered first n (some r) none w h = absurd h
both-Covered first n (some r) (some r') w (e, g) = (e, omega arith)

Covered-contains :
    (first bound n : ℕ) (o o' : Option BlockRange)
    → Within first bound o
    → Covered o o'
    → contains n o ≡ true
    → (first ≤ n) × (n < bound) × (contains n o' ≡ true)
unfolding Within Covered contains range_contains
Covered-contains first bound n none o' w h e = absurd cc
Covered-contains first bound n (some r) none w h e = absurd h
Covered-contains first bound n (some r) (some r') (a, b, d) (e', g) e =
    (ground arith, ground arith, ground arith)

contains-none : (n : ℕ) → ¬ (contains n none ≡ true)
unfolding contains
contains-none n e = cc

new-IsNested :
    (first : ℕ) (s : State)
    → s.sync_header_verified ≡ none
    → s.sync_confidence_achieved ≡ none
    → IsNested first first s
unfolding Within Covered
new-IsNested first s no_headers none_achieved = record {
  headers = subst (Within first first) (sym no_headers) tt;
  confidence = subst (Within first first) (sym none_achieved) tt;
  covered = subst (λ o. Covered o s.sync_header_verified) (sym none_achieved) tt;
}

module _ (k : Kate) (c : LightClient k) (client : SyncClient k c) where
  get_header-state : (n : ℕ) (s : Sync k c) → (get_header k c client n s).0.state ≡ s.state
  unfolding get_header
  get_header-state n s = ground arith

  store_and_send-state :
      (h : c.Header) (v : ℕ) (s : Sync k c) → (store_and_send k c client h v s).0.state ≡ s.state
  unfolding store_and_send
  store_and_send-state h v s = ground arith

  process_block-state :
      (h : c.Header) (s : Sync k c) → (process_block k c client h s).0.state ≡ s.state
  unfolding process_block
  process_block-state h s = ground (arith, λ (v : ℕ). store_and_send-state h v s)

  -- A header that is read: the range of the headers is set at its block.
  headers-IsNested :
      (first n : ℕ) (s t : Sync k c)
      → first ≤ n
      → t.state ≡ (synced_header k c n s).state
      → IsNested first n s.state
      → IsNested first (n + 1) t.state
  headers-IsNested first n s t le e h = subst (IsNested first (n + 1)) (sym e) (record {
    headers = set_block-Within first n s.state.sync_header_verified le h.headers;
    confidence =
        Within-le first n (n + 1) s.state.sync_confidence_achieved (omega arith) h.confidence;
    covered =
        set_block-Covered first n s.state.sync_confidence_achieved s.state.sync_header_verified
          h.confidence h.covered;
  })

  achieved-IsNested :
      (first n : ℕ) (s t : Sync k c)
      → first ≤ n
      → t.state ≡ (synced_header k c n s).state
      → IsNested first n s.state
      → IsNested first (n + 1) (achieved k c n t).state
  achieved-IsNested first n s t le e h =
      subst
        (λ (x : State).
          IsNested first (n + 1)
            (record x { sync_confidence_achieved = set_block n x.sync_confidence_achieved }))
        (sym e)
        (record {
          headers = set_block-Within first n s.state.sync_header_verified le h.headers;
          confidence = set_block-Within first n s.state.sync_confidence_achieved le h.confidence;
          covered =
              both-Covered first n s.state.sync_confidence_achieved s.state.sync_header_verified
                h.headers h.covered;
        })

  same-IsNested :
      (first n : ℕ) (s t : State) → s ≡ t → IsNested first n s → IsNested first (n + 1) t
  same-IsNested first n s t e h = subst (IsNested first (n + 1)) e (record {
    headers = Within-le first n (n + 1) s.sync_header_verified (omega arith) h.headers;
    confidence = Within-le first n (n + 1) s.sync_confidence_achieved (omega arith) h.confidence;
    covered = h.covered;
  })

  run_block-IsNested :
      (first n : ℕ) (s t : Sync k c)
      → first ≤ n
      → run_block k c client n s ≡ some t
      → IsNested first n s.state
      → IsNested first (n + 1) t.state
  unfolding run_block
  run_block-IsNested first n s t le e h =
      elim (Option-cases (client.is_confidence_stored s.stored n)) [
        | inl failed ↦
            let same : s ≡ t = ground arith in
            same-IsNested first n s.state t.state (ap (λ (x : Sync k c). x.state) same) h
        | inr (b, known) ↦ elim (Bool-cases b) [
          | inl stored ↦
              let same : s ≡ t = ground arith in
              same-IsNested first n s.state t.state (ap (λ (x : Sync k c). x.state) same) h
          | inr unknown ↦
              let u = (get_header k c client n s).0 in
              let kept : u.state ≡ s.state = get_header-state n s in
              elim (Option-cases (get_header k c client n s).1) [
                | inl no_header ↦
                    let same : u ≡ t = ground arith in
                    same-IsNested first n s.state t.state
                      (sym kept ∙ ap (λ (x : Sync k c). x.state) same) h
                | inr (header, found) ↦
                    let v = synced_header k c n u in
                    let w = (process_block k c client header v).0 in
                    let at_u : IsNested first n u.state = subst (IsNested first n) (sym kept) h in
                    let after : w.state ≡ v.state = process_block-state header v in
                    elim (Result-cases (process_block k c client header v).1) [
                      | inl (_, processed) ↦
                          let is_t : achieved k c n w ≡ t = ground arith in
                          subst (λ (x : Sync k c). IsNested first (n + 1) x.state) is_t
                            (achieved-IsNested first n u w le after at_u)
                      | inr (inl (why, failed)) ↦
                          let is_t : w ≡ t = ground arith in
                          subst (λ (x : Sync k c). IsNested first (n + 1) x.state) is_t
                            (headers-IsNested first n u w le after at_u)
                      | inr (inr panicked) ↦ absurd (ground arith)
                    ]
              ]
        ]
      ]

  run_range-IsNested :
      (i first n : ℕ) (s t : Sync k c)
      → first ≤ n
      → run_range k c client i n s ≡ some t
      → IsNested first n s.state
      → IsNested first (n + i) t.state
  unfolding run_range
  run_range-IsNested zero first n s t le e h =
      let same : s ≡ t = cc in
      let at : n ≡ n + 0 = omega arith in
      subst (λ (x : Sync k c). IsNested first (n + 0) x.state) same
        (subst (λ b. IsNested first b s.state) at h)
  run_range-IsNested (suc i) first n s t le e h = elim (Option-cases (run_block k c client n s)) [
    | inl panicked ↦ absurd (ground arith)
    | inr (u, went) ↦
        let at : n + 1 + i ≡ n + suc i = omega arith in
        subst (λ b. IsNested first b t.state) at
          (run_range-IsNested i first (n + 1) u t (omega arith) (ground arith)
            (run_block-IsNested first n s u le went h))
  ]

  -- If no block was synced before, and the run over a range does not panic: every block that is then in
  -- the range of the achieved confidence of the sync is one of the range of the run, and is in the range
  -- of the verified headers of the sync.
  pub run-contains :
      (start end : ℕ) (s t : Sync k c) (n : ℕ)
      → s.state.sync_header_verified ≡ none
      → s.state.sync_confidence_achieved ≡ none
      → run k c client start end s ≡ some t
      → contains n t.state.sync_confidence_achieved ≡ true
      → (start ≤ n) × (n < end) × (contains n t.state.sync_header_verified ≡ true)
  unfolding run
  run-contains start end s t n no_headers none_achieved e holds =
      elim (Bool-cases (leb end start)) [
        | inl empty ↦
            let same : s ≡ t = ground arith in
            let still : none ≡ t.state.sync_confidence_achieved =
              sym none_achieved ∙ ap (λ (x : Sync k c). x.state.sync_confidence_achieved) same in
            absurd (contains-none n (ap (contains n) still ∙ holds))
        | inr full ↦ elim (Option-cases (run_range k c client (end - start) start s)) [
          | inl panicked ↦ absurd (ground arith)
          | inr (u, ran) ↦
              let nested =
                run_range-IsNested (end - start) start start s u (omega arith) ran
                  (new-IsNested start s.state no_headers none_achieved) in
              let at : start + (end - start) ≡ end = ground arith in
              let (same, same') : (t.state.sync_confidence_achieved
                    ≡ u.state.sync_confidence_achieved)
                  × (t.state.sync_header_verified ≡ u.state.sync_header_verified) =
                (ground arith, ground arith) in
              let (low, high, among) =
                Covered-contains start (start + (end - start)) n u.state.sync_confidence_achieved
                  u.state.sync_header_verified nested.confidence nested.covered
                  (ap (contains n) (sym same) ∙ holds) in
              (low, omega (arith, at, high), ap (contains n) same' ∙ among)
        ]
      ]

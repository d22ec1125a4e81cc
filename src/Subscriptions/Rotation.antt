-- ===== src/Subscriptions/Rotation.antt =====
-- The validator set that a header waits with: that of the last change before it.
use mathlib.Core.List.{Memᴰ}
use mathlib.Core.List.Memᴰ
use smallgod.Prelude.{
  ◌≡◌, refl, ◌⊎◌, inl, inr, sym, subst, ap, ◌∙◌, false, none, some, List, [], ◌∷◌, ◌++◌, arith,
  Option-cases, List-cases,
}
use smallgod.Chain.{ValidatorSet, Primitives, Justification}
use smallgod.Utils.{filter_auth_set_changes}
use smallgod.Subscriptions.{
  Subscription, header, justification, SubscriptionLoop, Rpc, Next, rotate, changed_valset,
  push_header, verify_and_output_block_headers, handle_new_subscription,
}
use smallgod.Subscriptions.Kept.{active, Kept, Kept-of_eq, Kept-trans, output_headers-Kept}

module _ (c : Primitives) where
  -- The set after a header.
  abbrev advance : ValidatorSet c.Public → c.Header → ValidatorSet c.Public
  advance v h = elim (filter_auth_set_changes c h) [ [] ↦ v | auths ∷ _ ↦ changed_valset c v auths ]

  -- The set after the changes in the headers of a list.
  pub valset_after : ValidatorSet c.Public → List c.Header → ValidatorSet c.Public
  valset_after v [] = v
  valset_after v (h ∷ hs) = valset_after (advance v h) hs

  -- A header of the list, with the set after the headers before it.
  abbrev pub IsPaired :
      ValidatorSet c.Public → List c.Header → c.Header × ValidatorSet c.Public → Type 0
  IsPaired v hs p =
      (before : List c.Header) × (after : List c.Header) × (hs ≡ before ++ p.0 ∷ after)
      × (p.1 ≡ valset_after v before)

  abbrev pub headers_of : List (Subscription c) → List c.Header
  headers_of [] = []
  headers_of (header h ∷ ms) = h ∷ headers_of ms
  headers_of (justification j ∷ ms) = headers_of ms

  push_header-some :
      (h : c.Header) (s t : SubscriptionLoop c)
      → push_header c h s ≡ some t
      → (active c t ≡ advance (active c s) h)
        × (t.unverified_headers ≡ s.unverified_headers ++ (h, active c s) ∷ [])
  unfolding push_header rotate
  push_header-some h s t e = elim (Option-cases s.next_valset) [
    | inl no_next ↦ elim (List-cases (filter_auth_set_changes c h)) [
      | inl quiet ↦ (ground arith, ground arith)
      | inr (auths, more, changed) ↦ elim (List-cases more) [
        | inl one ↦ (ground arith, ground arith)
        | inr (a, rest, two) ↦ absurd (ground arith)
      ]
    ]
    | inr (v, next) ↦ elim (List-cases (filter_auth_set_changes c h)) [
      | inl quiet ↦ (ground arith, ground arith)
      | inr (auths, more, changed) ↦ elim (List-cases more) [
        | inl one ↦ (ground arith, ground arith)
        | inr (a, rest, two) ↦ absurd (ground arith)
      ]
    ]
  ]

module _ (c : Primitives) (rpc : Rpc c) where
  -- The messages of the subscriptions, one after the other.
  unfoldable pub handle_all : List (Subscription c) → SubscriptionLoop c → Next c
  handle_all [] s = some s
  handle_all (m ∷ ms) s = elim (handle_new_subscription c rpc m s) [
    | none ↦ none
    | some t ↦ handle_all ms t
  ]

  handle_header :
      (h : c.Header) (s t : SubscriptionLoop c)
      → handle_new_subscription c rpc (header h) s ≡ some t
      → (active c t ≡ advance c (active c s) h)
        × ((p : c.Header × ValidatorSet c.Public)
            → Memᴰ p t.unverified_headers
            → Memᴰ p s.unverified_headers ⊎ (p ≡ (h, active c s)))
  unfolding handle_new_subscription verify_and_output_block_headers
  handle_header h s t e = elim (Option-cases (push_header c h s)) [
    | inl failed ↦ absurd (ground arith)
    | inr (u, pushed) ↦
        let (set, waiting) = push_header-some c h s u pushed in
        let kept = output_headers-Kept c rpc u.justifications false u t (ground arith) in
        (
          kept.set ∙ set,
          λ p m.
              elim (Memᴰ.append_cases s.unverified_headers
                (subst (Memᴰ p) waiting (kept.part p m))) [
                  | inl old ↦ inl old
                  | inr new ↦ inr (Memᴰ.eq_of_singleton new)
                ],
        )
  ]

  handle_justification :
      (j : Justification c) (s t : SubscriptionLoop c)
      → handle_new_subscription c rpc (justification j) s ≡ some t
      → Kept c rpc s t
  unfolding handle_new_subscription verify_and_output_block_headers
  handle_justification j s t e =
      Kept-trans c rpc s (record s { justifications = j ∷ s.justifications }) t
        (Kept-of_eq c rpc s (record s { justifications = j ∷ s.justifications }) refl refl)
        (output_headers-Kept c rpc (j ∷ s.justifications) false
          (record s { justifications = j ∷ s.justifications }) t e)

  -- After any messages that do not make it panic, the loop's validator set is the first one after
  -- all changes in the headers of the messages; and each header that waits did so before, or is a
  -- header of a message and waits with the first set after the changes in the headers before it.
  pub handle_all-IsPaired :
      (ms : List (Subscription c)) (s t : SubscriptionLoop c)
      → handle_all ms s ≡ some t
      → (active c t ≡ valset_after c (active c s) (headers_of c ms))
        × ((p : c.Header × ValidatorSet c.Public)
            → Memᴰ p t.unverified_headers
            → Memᴰ p s.unverified_headers ⊎ IsPaired c (active c s) (headers_of c ms) p)
  unfolding handle_all valset_after
  handle_all-IsPaired [] s t e =
      let same : s ≡ t = ground arith in
      (ap (active c) (sym same), λ p m. inl (subst (λ x. Memᴰ p x.unverified_headers) (sym same) m))
  handle_all-IsPaired (header h ∷ ms) s t e =
      elim (Option-cases (handle_new_subscription c rpc (header h) s)) [
        | inl failed ↦ absurd (ground arith)
        | inr (u, went) ↦
            let (set, waiting) = handle_header h s u went in
            let (set', waiting') = handle_all-IsPaired ms u t (ground arith) in
            (
              set' ∙ ap (λ v. valset_after c v (headers_of c ms)) set,
              λ p m. elim (waiting' p m) [
                | inl old ↦ elim (waiting p old) [
                  | inl older ↦ inl older
                  | inr new ↦ inr (
                    [],
                    headers_of c ms,
                    ap (λ x. x.0 ∷ headers_of c ms) (sym new),
                    ap (λ x. x.1) new,
                  )
                ]
                | inr (before, after, split, paired) ↦ inr (
                  h ∷ before,
                  after,
                  ap (λ x. h ∷ x) split,
                  paired ∙ ap (λ v. valset_after c v before) set,
                )
              ],
            )
      ]
  handle_all-IsPaired (justification j ∷ ms) s t e =
      elim (Option-cases (handle_new_subscription c rpc (justification j) s)) [
        | inl failed ↦ absurd (ground arith)
        | inr (u, went) ↦
            let kept = handle_justification j s u went in
            let (set', waiting') = handle_all-IsPaired ms u t (ground arith) in
            (
              set' ∙ ap (λ v. valset_after c v (headers_of c ms)) kept.set,
              λ p m. elim (waiting' p m) [
                | inl old ↦ inl (kept.part p old)
                | inr (before, after, split, paired) ↦
                    inr (before, after, split, paired ∙ ap (λ v. valset_after c v before) kept.set)
              ],
            )
      ]

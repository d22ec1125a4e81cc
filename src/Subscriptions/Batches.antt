-- ===== src/Subscriptions/Batches.antt =====
-- What the loop sends: finalized headers, each behind the blocks that were skipped.
use mathlib.Core.List.{Memᴰ, append_assoc, append-nil}
use smallgod.Prelude.{
  ◌≡◌, inl, inr, subst, ap, ◌∙◌, Bool, true, false, ◌||◌, ite, Option, some, List, [], ◌∷◌, ◌++◌,
  map, ok, arith, Option-cases, Result-cases, find_swap_remove, find_swap_remove-some,
}
use smallgod.Chain.{ValidatorSet, Primitives, Justification}
use smallgod.Finality.{check_finality}
use smallgod.ClientState.{set_block}
use smallgod.Subscriptions.{
  SubscriptionLoop, Rpc, send_all_skipped, store_checkpoint, output_header, output_headers,
  verify_and_output_block_headers,
}
use smallgod.Subscriptions.Skipped.{
  skipped_numbers, IsNumbered, IsPart, send-some, send_all_skipped-some,
}

module _ (c : Primitives) where
  -- What is sent, by the headers that wait with their validator sets, and the last finalized
  -- header before and after it.
  pub data Batches (waiting : List (c.Header × ValidatorSet c.Public))
      : Option c.Header → List c.Header → Option c.Header → Type 0 where
    done : {l : Option c.Header} → Batches waiting l [] l
    batch :
        {l l' : Option c.Header} {rest : List c.Header} (skipped : List c.Header) (h : c.Header)
        (valset : ValidatorSet c.Public) (j : Justification c)
        → Memᴰ (h, valset) waiting
        → j.commit.target_hash ≡ c.header_hash h
        → check_finality c valset j ≡ ok tt
        → map c.number skipped ≡ skipped_numbers c l h
        → Batches waiting (some h) rest l'
        → Batches waiting l (skipped ++ h ∷ rest) l'

  Batches-more :
      {w w' : List (c.Header × ValidatorSet c.Public)} {l l' : Option c.Header} {hs : List c.Header}
      → ((p : c.Header × ValidatorSet c.Public) → Memᴰ p w → Memᴰ p w')
      → Batches w l hs l'
      → Batches w' l hs l'
  Batches-more more done = done
  Batches-more more (batch skipped h v j m target accepted numbers r) =
      batch skipped h v j (more (h, v) m) target accepted numbers (Batches-more more r)

module _ (c : Primitives) (rpc : Rpc c) where
  store_checkpoint-some :
      (synced : Bool) (h : c.Header) (s t : SubscriptionLoop c)
      → store_checkpoint c rpc synced h s ≡ some t
      → (t.sent ≡ s.sent)
        × (t.last_finalized_block_header ≡ s.last_finalized_block_header)
        × (t.unverified_headers ≡ s.unverified_headers)
  unfolding store_checkpoint
  store_checkpoint-some false h s t e = (ground arith, ground arith, ground arith)
  store_checkpoint-some true h s t e = (ground arith, ground arith, ground arith)

  output_header-some :
      (h : c.Header) (v : ValidatorSet c.Public) (j : Justification c) (synced : Bool)
      (s t : SubscriptionLoop c)
      → IsNumbered c rpc
      → output_header c rpc h v j synced s ≡ some t
      → (check_finality c v j ≡ ok tt)
        × (t.last_finalized_block_header ≡ some h)
        × IsPart c rpc t s
        × ((hs : List c.Header) × (map c.number hs
              ≡ skipped_numbers c s.last_finalized_block_header h)
            × (t.sent ≡ s.sent ++ (hs ++ h ∷ [])))
  unfolding output_header
  output_header-some h v j synced s t numbered e = elim (Result-cases (check_finality c v j)) [
    | inr (inl (x, refused)) ↦ absurd (ground arith)
    | inr (inr panicked) ↦ absurd (ground arith)
    | inl (u, accepted) ↦ elim (Option-cases (store_checkpoint c rpc synced h s)) [
      | inl failed ↦ absurd (ground arith)
      | inr (s1, stored) ↦ elim (Option-cases (send_all_skipped c rpc h s1)) [
        | inl failed ↦ absurd (ground arith)
        | inr (s2, went) ↦
            let (same_sent, same_last, same_waiting) = store_checkpoint-some synced h s s1 stored in
            let (hs, names, all) = send_all_skipped-some c rpc h s1 s2 numbered went in
            let e' =
              send-some c rpc h
                (record s2 {
                  last_finalized_block_header = some h;
                  state = record s2.state {
                    header_verified = set_block (c.number h) s2.state.header_verified;
                  };
                })
                t (ground arith) in
            (
              accepted,
              ap (λ x. x.last_finalized_block_header) e',
              λ p mp.
                  subst (Memᴰ p) same_waiting
                    (all.part p (subst (Memᴰ p) (ap (λ x. x.unverified_headers) e') mp)),
              (
                hs,
                subst (λ l. map c.number hs ≡ skipped_numbers c l h) same_last names,
                ap (λ x. x.sent) e'
                    ∙ ap (λ x. x ++ h ∷ []) (all.sent ∙ ap (λ x. x ++ hs) same_sent)
                    ∙ append_assoc s.sent hs (h ∷ []),
              ),
            )
      ]
    ]
  ]

  output_headers-some :
      (js : List (Justification c)) (synced : Bool) (s t : SubscriptionLoop c)
      → IsNumbered c rpc
      → output_headers c rpc js synced s ≡ some t
      → (hs : List c.Header) × Batches c s.unverified_headers s.last_finalized_block_header hs
          t.last_finalized_block_header
        × (t.sent ≡ s.sent ++ hs)
  unfolding output_headers
  output_headers-some [] synced s t numbered e =
      let same : s.last_finalized_block_header ≡ t.last_finalized_block_header = ground arith in
      (
        [],
        subst (Batches c s.unverified_headers s.last_finalized_block_header []) same done,
        ground (arith, append-nil s.sent),
      )
  output_headers-some (j ∷ js) synced s t numbered e =
      let test : c.Header × ValidatorSet c.Public → Bool =
        λ p. ite (c.H256_discrete j.commit.target_hash (c.header_hash p.0)) true false in
      elim (Option-cases (find_swap_remove test s.unverified_headers)) [
        | inl none_found ↦
            let same : s.last_finalized_block_header ≡ t.last_finalized_block_header =
              ground arith in
            (
              [],
              subst (Batches c s.unverified_headers s.last_finalized_block_header []) same done,
              ground (arith, append-nil s.sent),
            )
        | inr (((h, v), rest), found) ↦
            let (holds, m, part) =
              find_swap_remove-some test s.unverified_headers (h, v) rest found in
            let synced' = synced || s.state.finality_synced in
            elim (Option-cases
              (output_header c rpc h v j synced' (record s { unverified_headers = rest }))) [
                | inl failed ↦ absurd (ground arith)
                | inr (u, went) ↦
                    let (accepted, is_last, left, (skipped, names, sent)) =
                      output_header-some h v j synced' (record s { unverified_headers = rest }) u
                        numbered went in
                    let (hs, more, sent') =
                      output_headers-some js synced' u t numbered (ground arith) in
                    let target : j.commit.target_hash ≡ c.header_hash h = ground arith in
                    (
                      skipped ++ h ∷ hs,
                      batch skipped h v j m target accepted names (
                          subst
                            (λ l. Batches c s.unverified_headers l hs t.last_finalized_block_header)
                            is_last (Batches-more c (λ p mp. part p (left p mp)) more)),
                      sent'
                          ∙ ap (λ x. x ++ hs) sent
                          ∙ append_assoc s.sent (skipped ++ h ∷ []) hs
                          ∙ ap (λ x. s.sent ++ x) (append_assoc skipped (h ∷ []) hs),
                    )
              ]
      ]

  -- If the node answers a request by number with a header of that number, then all that the loop
  -- sends on a subscription's message, if it does not panic, is a sequence of batches, each of
  -- which ends with a header that waited with its validator set and that a justification proves
  -- final for this set, and starts with headers of exactly the blocks between the last finalized
  -- header, which is that of the batch before, and this header, in order.
  pub verify_and_output_block_headers-Batches :
      (s t : SubscriptionLoop c)
      → IsNumbered c rpc
      → verify_and_output_block_headers c rpc s ≡ some t
      → (hs : List c.Header) × Batches c s.unverified_headers s.last_finalized_block_header hs
          t.last_finalized_block_header
        × (t.sent ≡ s.sent ++ hs)
  unfolding verify_and_output_block_headers
  verify_and_output_block_headers-Batches s t = output_headers-some s.justifications false s t

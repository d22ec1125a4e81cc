-- ===== src/Subscriptions/Kept.antt =====
-- The output of headers leaves the validator sets of the loop as they are.
use mathlib.Core.List.{Memᴰ}
use smallgod.Prelude.{
  ℕ, zero, suc, ◌+◌, ◌-◌, ◌%◌, ◌≡◌, refl, inl, inr, subst, ◌∙◌, Bool, true, false, ◌||◌, ite, none,
  some, List, [], ◌∷◌, ◌==◌, arith, Option-cases, Result-cases, find_swap_remove,
  find_swap_remove-some,
}
use smallgod.Chain.{ValidatorSet, Primitives, Justification}
use smallgod.Finality.{check_finality}
use smallgod.ClientState.{set_block}
use smallgod.SyncFinality.{u32_mod}
use smallgod.Subscriptions.{
  SubscriptionLoop, Rpc, send, send_skipped, send_range, send_all_skipped, store_checkpoint,
  output_header, output_headers,
}

module _ (c : Primitives) where
  -- The set with which the next header will wait.
  abbrev pub active : SubscriptionLoop c → ValidatorSet c.Public
  active s = elim s.next_valset [ none ↦ s.current_valset | some v ↦ v ]

module _ (c : Primitives) (rpc : Rpc c) where
  -- The sets are as before, and waiting headers may be gone.
  pub record Kept (s t : SubscriptionLoop c) : Type 0 where
    pub set : active c t ≡ active c s
    pub part :
        (p : c.Header × ValidatorSet c.Public)
        → Memᴰ p t.unverified_headers
        → Memᴰ p s.unverified_headers

  pub Kept-of_eq :
      (s t : SubscriptionLoop c)
      → active c t ≡ active c s
      → t.unverified_headers ≡ s.unverified_headers
      → Kept s t
  Kept-of_eq s t e w = record { set = e; part = λ p m. subst (Memᴰ p) w m }

  pub Kept-trans : (s t u : SubscriptionLoop c) → Kept s t → Kept t u → Kept s u
  Kept-trans s t u a b = record { set = b.set ∙ a.set; part = λ p m. a.part p (b.part p m) }

  send-Kept : (h : c.Header) (s t : SubscriptionLoop c) → send c rpc h s ≡ some t → Kept s t
  unfolding send
  send-Kept h s t e = Kept-of_eq s t (ground arith) (ground arith)

  send_skipped-Kept :
      (n : ℕ) (s t : SubscriptionLoop c) → send_skipped c rpc n s ≡ some t → Kept s t
  unfolding send_skipped
  send_skipped-Kept n s t e =
      elim (Option-cases (find_swap_remove (λ p. c.number p.0 == n) s.unverified_headers)) [
        | inr (((h, v), rest), found) ↦
            let (holds, m, part) =
              find_swap_remove-some (λ p. c.number p.0 == n) s.unverified_headers (h, v) rest
                found in
            Kept-trans s (record s { unverified_headers = rest }) t
              (record { set = refl; part = part })
              (send-Kept h (record s { unverified_headers = rest }) t (ground arith))
        | inl none_found ↦ elim (Option-cases (rpc.get_header_by_block_number n)) [
          | inl failed ↦ absurd (ground arith)
          | inr (h, given) ↦ send-Kept h s t (ground arith)
        ]
      ]

  send_range-Kept :
      (k n : ℕ) (s t : SubscriptionLoop c) → send_range c rpc k n s ≡ some t → Kept s t
  unfolding send_range
  send_range-Kept zero n s t e = Kept-of_eq s t (ground arith) (ground arith)
  send_range-Kept (suc k) n s t e = elim (Option-cases (send_skipped c rpc n s)) [
    | inl failed ↦ absurd (ground arith)
    | inr (u, went) ↦
        Kept-trans s u t (send_skipped-Kept n s u went)
          (send_range-Kept k (n + 1) u t (ground arith))
  ]

  send_all_skipped-Kept :
      (h : c.Header) (s t : SubscriptionLoop c) → send_all_skipped c rpc h s ≡ some t → Kept s t
  unfolding send_all_skipped
  send_all_skipped-Kept h s t e = elim (Option-cases s.last_finalized_block_header) [
    | inl no_last ↦ Kept-of_eq s t (ground arith) (ground arith)
    | inr (l, is_last) ↦
        let first = (c.number l + 1) % u32_mod in
        send_range-Kept (c.number h - first) first s t (ground arith)
  ]

  store_checkpoint-Kept :
      (synced : Bool) (h : c.Header) (s t : SubscriptionLoop c)
      → store_checkpoint c rpc synced h s ≡ some t
      → Kept s t
  unfolding store_checkpoint
  store_checkpoint-Kept false h s t e = Kept-of_eq s t (ground arith) (ground arith)
  store_checkpoint-Kept true h s t e = Kept-of_eq s t (ground arith) (ground arith)

  output_header-Kept :
      (h : c.Header) (v : ValidatorSet c.Public) (j : Justification c) (synced : Bool)
      (s t : SubscriptionLoop c)
      → output_header c rpc h v j synced s ≡ some t
      → Kept s t
  unfolding output_header
  output_header-Kept h v j synced s t e = elim (Result-cases (check_finality c v j)) [
    | inr (inl (x, refused)) ↦ absurd (ground arith)
    | inr (inr panicked) ↦ absurd (ground arith)
    | inl (u, accepted) ↦ elim (Option-cases (store_checkpoint c rpc synced h s)) [
      | inl failed ↦ absurd (ground arith)
      | inr (s1, stored) ↦ elim (Option-cases (send_all_skipped c rpc h s1)) [
        | inl failed ↦ absurd (ground arith)
        | inr (s2, went) ↦
            let final : SubscriptionLoop c = record s2 {
              last_finalized_block_header = some h;
              state = record s2.state {
                header_verified = set_block (c.number h) s2.state.header_verified;
              };
            } in
            Kept-trans s s1 t (store_checkpoint-Kept synced h s s1 stored) (
              Kept-trans s1 s2 t (send_all_skipped-Kept h s1 s2 went) (
                Kept-trans s2 final t (Kept-of_eq s2 final refl refl)
                  (send-Kept h final t (ground arith))))
      ]
    ]
  ]

  pub output_headers-Kept :
      (js : List (Justification c)) (synced : Bool) (s t : SubscriptionLoop c)
      → output_headers c rpc js synced s ≡ some t
      → Kept s t
  unfolding output_headers
  output_headers-Kept [] synced s t e = Kept-of_eq s t (ground arith) (ground arith)
  output_headers-Kept (j ∷ js) synced s t e =
      let test : c.Header × ValidatorSet c.Public → Bool =
        λ p. ite (c.H256_discrete j.commit.target_hash (c.header_hash p.0)) true false in
      elim (Option-cases (find_swap_remove test s.unverified_headers)) [
        | inl none_found ↦ Kept-of_eq s t (ground arith) (ground arith)
        | inr (((h, v), rest), found) ↦
            let (holds, m, part) =
              find_swap_remove-some test s.unverified_headers (h, v) rest found in
            let synced' = synced || s.state.finality_synced in
            elim (Option-cases
              (output_header c rpc h v j synced' (record s { unverified_headers = rest }))) [
                | inl failed ↦ absurd (ground arith)
                | inr (u, went) ↦
                    Kept-trans s (record s { unverified_headers = rest }) t
                      (record { set = refl; part = part })
                      (Kept-trans (record s { unverified_headers = rest }) u t
                        (output_header-Kept h v j synced' (record s { unverified_headers = rest }) u
                          went)
                        (output_headers-Kept js synced' u t (ground arith)))
              ]
      ]

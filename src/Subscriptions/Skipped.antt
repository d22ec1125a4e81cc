-- ===== src/Subscriptions/Skipped.antt =====
-- The blocks between the last finalized header and a header, as they are sent.
use mathlib.Core.List.{Memᴰ, append_assoc, append-nil}
use smallgod.Prelude.{
  ℕ, zero, suc, ◌+◌, ◌-◌, ◌%◌, ◌≡◌, refl, inl, inr, sym, subst, ap, ◌∙◌, Option, none, some, List,
  [], ◌∷◌, ◌++◌, map, ◌==◌, arith, Option-cases, find_swap_remove, find_swap_remove-some,
}
use smallgod.Chain.{ValidatorSet, Primitives}
use smallgod.SyncFinality.{u32_mod}
use smallgod.Subscriptions.{SubscriptionLoop, Rpc, send, send_skipped, send_range, send_all_skipped}

-- As many consecutive numbers, from a first one on.
abbrev pub numbers_from : ℕ → ℕ → List ℕ
numbers_from zero n = []
numbers_from (suc k) n = n ∷ numbers_from k (n + 1)

module _ (c : Primitives) where
  -- The numbers of the blocks between the last finalized header, if there is one, and a header.
  pub skipped_numbers : Option c.Header → c.Header → List ℕ
  skipped_numbers none h = []
  skipped_numbers (some last_header) h =
      let first = (c.number last_header + 1) % u32_mod in numbers_from (c.number h - first) first

module _ (c : Primitives) (rpc : Rpc c) where
  -- The node answers for a number with a header of that number.
  abbrev pub IsNumbered : Type 0
  IsNumbered = (n : ℕ) (h : c.Header) → rpc.get_header_by_block_number n ≡ some h → c.number h ≡ n

  -- The waiting headers of one loop are among those of another.
  abbrev pub IsPart : SubscriptionLoop c → SubscriptionLoop c → Type 0
  IsPart t s =
      (p : c.Header × ValidatorSet c.Public)
      → Memᴰ p t.unverified_headers
      → Memᴰ p s.unverified_headers

  pub send-some :
      (h : c.Header) (s t : SubscriptionLoop c)
      → send c rpc h s ≡ some t
      → t ≡ record s { sent = s.sent ++ h ∷ [] }
  unfolding send
  send-some h s t e = ground arith

  -- One more header was sent, and nothing else happened but that a waiting header may be gone.
  pub record Sent (s t : SubscriptionLoop c) (hs : List c.Header) : Type 0 where
    pub sent : t.sent ≡ s.sent ++ hs
    pub last : t.last_finalized_block_header ≡ s.last_finalized_block_header
    pub part : IsPart t s

  send_skipped-some :
      (n : ℕ) (s t : SubscriptionLoop c)
      → IsNumbered
      → send_skipped c rpc n s ≡ some t
      → (h : c.Header) × (c.number h ≡ n) × Sent s t (h ∷ [])
  unfolding send_skipped
  send_skipped-some n s t numbered e =
      elim (Option-cases (find_swap_remove (λ p. c.number p.0 == n) s.unverified_headers)) [
        | inr (((h, v), rest), found) ↦
            let (holds, m, part) =
              find_swap_remove-some (λ p. c.number p.0 == n) s.unverified_headers (h, v) rest
                found in
            let e' = send-some h (record s { unverified_headers = rest }) t (ground arith) in
            (
              h,
              ground arith,
              record {
                sent = ap (λ x. x.sent) e';
                last = ap (λ x. x.last_finalized_block_header) e';
                part = λ p mp. part p (subst (Memᴰ p) (ap (λ x. x.unverified_headers) e') mp);
              },
            )
        | inl none_found ↦ elim (Option-cases (rpc.get_header_by_block_number n)) [
          | inl failed ↦ absurd (ground arith)
          | inr (h, given) ↦
              let e' = send-some h s t (ground arith) in
              (
                h,
                numbered n h given,
                record {
                  sent = ap (λ x. x.sent) e';
                  last = ap (λ x. x.last_finalized_block_header) e';
                  part = λ p mp. subst (Memᴰ p) (ap (λ x. x.unverified_headers) e') mp;
                },
              )
        ]
      ]

  send_range-some :
      (k n : ℕ) (s t : SubscriptionLoop c)
      → IsNumbered
      → send_range c rpc k n s ≡ some t
      → (hs : List c.Header) × (map c.number hs ≡ numbers_from k n) × Sent s t hs
  unfolding send_range
  send_range-some zero n s t numbered e =
      let same : s ≡ t = ground arith in
      (
        [],
        refl,
        record {
          sent = ground (arith, append-nil s.sent);
          last = ground arith;
          part = λ p mp. subst (λ x. Memᴰ p x.unverified_headers) (sym same) mp;
        },
      )
  send_range-some (suc k) n s t numbered e = elim (Option-cases (send_skipped c rpc n s)) [
    | inl failed ↦ absurd (ground arith)
    | inr (u, went) ↦
        let (h, named, one) = send_skipped-some n s u numbered went in
        let (hs, names, more) = send_range-some k (n + 1) u t numbered (ground arith) in
        (
          h ∷ hs,
          ground arith,
          record {
            sent = more.sent ∙ ap (λ x. x ++ hs) one.sent ∙ append_assoc s.sent (h ∷ []) hs;
            last = more.last ∙ one.last;
            part = λ p mp. one.part p (more.part p mp);
          },
        )
  ]

  pub send_all_skipped-some :
      (h : c.Header) (s t : SubscriptionLoop c)
      → IsNumbered
      → send_all_skipped c rpc h s ≡ some t
      → (hs : List c.Header) × (map c.number hs ≡ skipped_numbers c s.last_finalized_block_header h)
        × Sent s t hs
  unfolding send_all_skipped skipped_numbers
  send_all_skipped-some h s t numbered e = elim (Option-cases s.last_finalized_block_header) [
    | inl no_last ↦
        let same : s ≡ t = ground arith in
        (
          [],
          ground arith,
          record {
            sent = ground (arith, append-nil s.sent);
            last = ground arith;
            part = λ p mp. subst (λ x. Memᴰ p x.unverified_headers) (sym same) mp;
          },
        )
    | inr (l, is_last) ↦
        let first = (c.number l + 1) % u32_mod in
        let (hs, names, all) =
          send_range-some (c.number h - first) first s t numbered (ground arith) in
        (hs, ground arith, all)
  ]

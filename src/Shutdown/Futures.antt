-- ===== src/Shutdown/Futures.antt =====
-- src/shutdown/with_cancel.rs, with_delay.rs and with_trigger.rs: a future wrapped so that the
-- shutdown cancels it, waits for it, or is triggered by its end. The wrapped future is a parameter.
use mathlib.Core.List.{Memᴰ}
use smallgod.Prelude.{
  ◌≡◌, refl, ◌⊎◌, inl, inr, Bool, true, false, not, filter, Option, none, some, List, [], ◌∷◌, ok,
  err, Result, arith, mem-right,
}
use smallgod.Shutdown.{
  methods, ControllerInner, Poll, ready, pending, drop_delay_token, drop_trigger_token, poll_signal,
  shutdown_reason,
}

-- `std::future::Future` of a type `F` with output `A`: a poll by the task of a waker.
pub record Future (W F A : Type 0) : Type 0 where
  pub poll : W → F → F × Poll A

-- The reason of a shutdown that is triggered with `r` when the given one may be set.
abbrev first_reason : {T : Type 0} → Option T → T → T
first_reason none r = r
first_reason (some earlier) r = earlier

module _ {T W F A : Type 0} (future : Future W F A) where
  -- `<WithCancel as Future>::poll`; the field `future` is `inl` of the wrapped future, or `inr` of
  -- the reason after a cancellation.
  unfoldable pub poll_with_cancel :
      (W → W → Bool)
      → W
      → F ⊎ T
      → ControllerInner T W
      → (F ⊎ T) × ControllerInner T W × Poll (Result T A)
  poll_with_cancel will_wake waker (inr reason) c = (inr reason, c, ready (err reason))
  poll_with_cancel will_wake waker (inl f) c = elim (future.poll waker f).1 [
    | ready value ↦ (inl (future.poll waker f).0, c, ready (ok value))
    | pending ↦
        let c' = (poll_signal will_wake waker c).0 in
        elim (poll_signal will_wake waker c).1 [
          | pending ↦ (inl (future.poll waker f).0, c', pending)
          | ready reason ↦ (inr reason, c', ready (err reason))
        ]
  ]

  -- `<WithDelay as Future>::poll`; the flag says whether the delay token is still held.
  pub poll_with_delay :
      W → Bool × F → ControllerInner T W → (Bool × F) × ControllerInner T W × List W × Poll A
  poll_with_delay waker (held, f) c = elim (future.poll waker f).1 [
    | pending ↦ ((held, (future.poll waker f).0), c, [], pending)
    | ready value ↦ elim held [
      | true ↦ (
        (false, (future.poll waker f).0),
        (drop_delay_token c).0,
        (drop_delay_token c).1,
        ready value,
      )
      | false ↦ ((false, (future.poll waker f).0), c, [], ready value)
    ]
  ]

  -- `<WithTrigger as Future>::poll`; the token is the slot that its clones share, if it is held.
  unfoldable pub poll_with_trigger :
      W
      → Option (Option T) × F
      → ControllerInner T W
      → (Option (Option T) × F) × ControllerInner T W × List W × Poll A
  poll_with_trigger waker (token, f) c = elim (future.poll waker f).1 [
    | pending ↦ ((token, (future.poll waker f).0), c, [], pending)
    | ready value ↦ elim token [
      | none ↦ ((none, (future.poll waker f).0), c, [], ready value)
      | some slot ↦ (
        (none, (future.poll waker f).0),
        (drop_trigger_token slot c).1,
        (drop_trigger_token slot c).2,
        ready value,
      )
    ]
  ]

  -- A cancellable future is pending only if the wrapped one is, no shutdown was triggered, and the
  -- task's waker is registered for the signal.
  pub poll_with_cancel_pending :
      (will_wake : W → W → Bool) (waker : W) (state : F ⊎ T) (c : ControllerInner T W)
      → (poll_with_cancel will_wake waker state c).2 ≡ pending
      → (shutdown_reason c ≡ none)
        × Memᴰ waker (poll_with_cancel will_wake waker state c).1.on_shutdown_trigger
  unfolding poll_with_cancel methods
  poll_with_cancel_pending will_wake waker (inr reason) c h = cc
  poll_with_cancel_pending will_wake waker (inl f) c h =
      let registered =
        mem-right waker (filter (λ w. not (will_wake w waker)) c.on_shutdown_trigger) (waker ∷ [])
          (Memᴰ.head refl) in
      ground (arith, registered)

  -- The poll that meets the shutdown gives its reason, and so does every later poll, in any state
  -- of the controller, which it leaves alone.
  pub poll_with_cancel_again :
      (will_wake : W → W → Bool) (waker again : W) (f : F) (c later : ControllerInner T W) (r : T)
      → (poll_with_cancel will_wake waker (inl f) c).2 ≡ ready (err r)
      → (shutdown_reason c ≡ some r)
        × (poll_with_cancel will_wake again (poll_with_cancel will_wake waker (inl f) c).0 later
            ≡ (inr r, later, ready (err r)))
  unfolding poll_with_cancel methods
  poll_with_cancel_again will_wake waker again f c later r h = ground arith

  -- The end of a future that holds a trigger token leaves the shutdown triggered, with the earlier
  -- reason if there is one and else with the token's; the token is then spent.
  pub poll_with_trigger_lem :
      (waker : W) (f : F) (c : ControllerInner T W) (r : T) (value : A)
      → (poll_with_trigger waker (some (some r), f) c).3 ≡ ready value
      → ((poll_with_trigger waker (some (some r), f) c).0.0 ≡ none)
        × (shutdown_reason (poll_with_trigger waker (some (some r), f) c).1
            ≡ some (first_reason (shutdown_reason c) r))
  unfolding poll_with_trigger methods
  poll_with_trigger_lem waker f c r value h = (ground arith, ground arith)

-- ===== src/Shutdown.antt =====
-- src/shutdown.rs and src/shutdown/*.rs: the controller that tells tasks to stop and waits until
-- they are done. A method takes the state behind the mutex and returns it; what it wakes is
-- returned as the list of wakers on which `wake` is called.
pub mod System
pub mod Invariant
pub mod Progress
pub mod Futures
mod Tests
use smallgod.Prelude.{
  ℕ, ◌+◌, ◌-◌, ◌%◌, ◌^◌, Bool, true, false, not, Option, none, some, List, [], ◌∷◌, ◌++◌, ◌==◌,
  if◌then◌else◌, filter, Result, ok, err, panic,
}

-- `ControllerInner`
pub record ControllerInner (T W : Type 0) : Type 0 where
  pub reason : Option T
  pub delay_tokens : ℕ
  pub on_shutdown_trigger : List W
  pub on_shutdown_complete : List W

-- `ShutdownHasStarted`
pub record ShutdownHasStarted (T : Type 0) : Type 0 where
  pub reason : T
  pub ignored : T

-- `ShutdownHasCompleted`
pub record ShutdownHasCompleted (T : Type 0) : Type 0 where
  pub reason : T

-- `std::task::Poll`
pub data Poll (A : Type 0) : Type 0 where
  ready : A → Poll A
  pending : Poll A

abbrev pub usize_mod : ℕ
usize_mod = 2 ^ 64

-- `Controller::trigger_token`: the slot that all clones of the token share.
trigger_token : {T : Type 0} → T → Option T
trigger_token reason = some reason

module _ {T W : Type 0} where
  -- `ControllerInner::new`
  pub new : ControllerInner T W
  new = record {
    reason = none;
    delay_tokens = 0;
    on_shutdown_trigger = [];
    on_shutdown_complete = [];
  }

  increment_delay_tokens : ControllerInner T W → ControllerInner T W
  increment_delay_tokens c = record c { delay_tokens = (c.delay_tokens + 1) % usize_mod }

  -- The wakers that are woken stand beside the state.
  notify_shutdown_complete : ControllerInner T W → ControllerInner T W × List W
  notify_shutdown_complete c = (record c { on_shutdown_complete = [] }, c.on_shutdown_complete)

  decrement_delay_tokens : ControllerInner T W → ControllerInner T W × List W
  decrement_delay_tokens c =
      let c' = record c { delay_tokens = c.delay_tokens - 1 } in
      if c'.delay_tokens == 0 then notify_shutdown_complete c' else (c', [])

  -- `ControllerInner::shutdown`
  shutdown :
      T
      → ControllerInner T W
      → ControllerInner T W × List W × Result (ShutdownHasStarted T) (Unit {0})
  shutdown reason c = elim c.reason [
    | some original ↦ (c, [], err (record { reason = original; ignored = reason }))
    | none ↦
        let c' = record c { reason = some reason; on_shutdown_trigger = [] } in
        let (c'', completed) =
          if c'.delay_tokens == 0 then notify_shutdown_complete c' else (c', []) in
        (c'', c.on_shutdown_trigger ++ completed, ok tt)
  ]

  pub is_shutdown_triggered : ControllerInner T W → Bool
  is_shutdown_triggered c = elim c.reason [ none ↦ false | some _ ↦ true ]

  pub is_shutdown_completed : ControllerInner T W → Bool
  is_shutdown_completed c = elim c.reason [ none ↦ false | some _ ↦ c.delay_tokens == 0 ]

  pub shutdown_reason : ControllerInner T W → Option T
  shutdown_reason c = c.reason

  pub trigger_shutdown :
      T
      → ControllerInner T W
      → ControllerInner T W × List W × Result (ShutdownHasStarted T) (Unit {0})
  trigger_shutdown reason c = shutdown reason c

  -- `Controller::delay_token`: the token is granted unless the shutdown has completed.
  pub delay_token :
      ControllerInner T W → ControllerInner T W × Result (ShutdownHasCompleted T) (Unit {0})
  delay_token c = elim c.reason [
    | none ↦ (increment_delay_tokens c, ok tt)
    | some reason ↦
        if c.delay_tokens == 0
        then (c, err (record { reason = reason }))
        else (increment_delay_tokens c, ok tt)
  ]

  -- `<DelayToken as Clone>::clone`
  pub clone_delay_token : ControllerInner T W → ControllerInner T W
  clone_delay_token c = increment_delay_tokens c

  -- `<DelayToken as Drop>::drop`
  pub drop_delay_token : ControllerInner T W → ControllerInner T W × List W
  drop_delay_token c = decrement_delay_tokens c

  -- `<TriggerToken as Drop>::drop` takes the reason out of the slot.
  pub drop_trigger_token : Option T → ControllerInner T W → Option T × ControllerInner T W × List W
  drop_trigger_token none c = (none, c, [])
  drop_trigger_token (some reason) c =
      let (c', woken, ignored) = shutdown reason c in (none, c', woken)

  -- `<Completed as Future>::poll`, by a task with the given waker
  pub poll_completed : W → ControllerInner T W → ControllerInner T W × Poll T
  poll_completed waker c =
      let wait : ControllerInner T W × Poll T =
        (record c { on_shutdown_complete = c.on_shutdown_complete ++ waker ∷ [] }, pending) in
      elim c.reason [
        | none ↦ wait
        | some reason ↦ if c.delay_tokens == 0 then (c, ready reason) else wait
      ]

  -- `<Signal as Future>::poll`: wakers of the same task are dropped before the new one is pushed.
  pub poll_signal : (W → W → Bool) → W → ControllerInner T W → ControllerInner T W × Poll T
  poll_signal will_wake waker c = elim c.reason [
    | some reason ↦ (c, ready reason)
    | none ↦ (
      record c {
        on_shutdown_trigger =
            filter (λ w. not (will_wake w waker)) c.on_shutdown_trigger ++ waker ∷ [];
      },
      pending,
    )
  ]

-- All methods, for the proofs about a step.
methods : Unit {0}
unfolding new increment_delay_tokens notify_shutdown_complete decrement_delay_tokens shutdown
    trigger_shutdown delay_token clone_delay_token drop_delay_token drop_trigger_token
    poll_completed poll_signal is_shutdown_triggered is_shutdown_completed shutdown_reason
methods = tt

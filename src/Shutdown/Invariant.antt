-- ===== src/Shutdown/Invariant.antt =====
-- What holds in every state that the controller can reach.
use smallgod.Prelude.{◌<◌, ◌≡◌, refl, ◌⊎◌, inl, Bool, true, none, [], arith}
use smallgod.Shutdown.{methods, usize_mod, new, is_shutdown_triggered, is_shutdown_completed}
use smallgod.Shutdown.System.{
  System, start, Step, trigger, acquire, refuse, clone, drop_delay, drop_trigger, wait_completed,
  wait_signal, Reach, here, next,
}

-- The count of tokens is right; no task waits for a signal that was given, nor for a completion
-- that was reached.
pub record IsValid {T W : Type 0} (s : System T W) : Type 0 where
  pub counted : s.inner.delay_tokens ≡ s.live
  pub small : s.live < usize_mod
  pub signalled : (s.inner.reason ≡ none) ⊎ (s.inner.on_shutdown_trigger ≡ [])
  pub completed :
      (s.inner.reason ≡ none) ⊎ (0 < s.inner.delay_tokens) ⊎ (s.inner.on_shutdown_complete ≡ [])

pub start-IsValid : {T W : Type 0} → IsValid (start {T = T} {W = W})
unfolding new
start-IsValid = record {
  counted = refl;
  small = omega arith;
  signalled = inl refl;
  completed = inl refl;
}

module _ {T W : Type 0} (will_wake : W → W → Bool) where
  Step-IsValid : {s t : System T W} → Step will_wake s t → IsValid s → IsValid t
  unfolding methods
  Step-IsValid (trigger r) v = ground arith
  Step-IsValid (acquire room granted) v = ground arith
  Step-IsValid (refuse denied) v = ground arith
  Step-IsValid (clone some_live room) v = ground arith
  Step-IsValid (drop_delay some_live) v = ground arith
  Step-IsValid (drop_trigger slot) v = ground arith
  Step-IsValid (wait_completed w) v = ground arith
  Step-IsValid (wait_signal w) v = ground arith

  pub Reach-IsValid : {s t : System T W} → Reach will_wake s t → IsValid s → IsValid t
  Reach-IsValid here v = v
  Reach-IsValid (next r st) v = Step-IsValid st (Reach-IsValid r v)

  -- In every state that a controller reaches, by any steps of any tasks, the count of delay tokens
  -- is the number of tokens in existence; once the shutdown is triggered no waker is left that
  -- waits for the signal, and once it has completed none is left that waits for the completion.
  pub no_lost_wakeups :
      {s : System T W}
      → Reach will_wake start s
      → (s.inner.delay_tokens ≡ s.live)
        × (is_shutdown_triggered s.inner ≡ true → s.inner.on_shutdown_trigger ≡ [])
        × (is_shutdown_completed s.inner ≡ true → s.inner.on_shutdown_complete ≡ [])
  unfolding is_shutdown_triggered is_shutdown_completed
  no_lost_wakeups r =
      let v = Reach-IsValid r start-IsValid in (v.counted, λ h. ground arith, λ h. ground arith)

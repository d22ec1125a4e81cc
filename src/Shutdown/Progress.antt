-- ===== src/Shutdown/Progress.antt =====
-- What no later step undoes, and what a waiting task is told.
use mathlib.Core.List.{Memᴰ}
use mathlib.Core.List.Memᴰ
use smallgod.Prelude.{
  ◌≡◌, ◌⊎◌, inl, inr, Bool, true, some, [], ◌∷◌, err, arith, subst, mem-left, mem-right,
}
use smallgod.Shutdown.{
  methods, is_shutdown_completed, shutdown_reason, trigger_shutdown, delay_token, drop_delay_token,
  drop_trigger_token,
}
use smallgod.Shutdown.System.{
  System, start, Step, trigger, acquire, refuse, clone, drop_delay, drop_trigger, wait_completed,
  wait_signal, Reach, here, next,
}
use smallgod.Shutdown.Invariant.{IsValid, Reach-IsValid, start-IsValid, no_lost_wakeups}

module _ {T W : Type 0} (will_wake : W → W → Bool) where
  Step-reason :
      {s t : System T W} (r : T)
      → Step will_wake s t
      → s.inner.reason ≡ some r
      → t.inner.reason ≡ some r
  unfolding methods
  Step-reason r (trigger x) h = ground arith
  Step-reason r (acquire room granted) h = ground arith
  Step-reason r (refuse denied) h = ground arith
  Step-reason r (clone some_live room) h = ground arith
  Step-reason r (drop_delay some_live) h = ground arith
  Step-reason r (drop_trigger slot) h = ground arith
  Step-reason r (wait_completed w) h = ground arith
  Step-reason r (wait_signal w) h = ground arith

  Reach-reason :
      {s t : System T W} (r : T)
      → Reach will_wake s t
      → s.inner.reason ≡ some r
      → t.inner.reason ≡ some r
  Reach-reason r here h = h
  Reach-reason r (next p st) h = Step-reason r st (Reach-reason r p h)

  -- A step from a completed shutdown, where no token is alive.
  Step-completed :
      {s t : System T W} (r : T)
      → Step will_wake s t
      → IsValid s
      → s.inner.reason ≡ some r
      → s.inner.delay_tokens ≡ 0
      → t.inner.delay_tokens ≡ 0
  unfolding methods
  Step-completed r (trigger x) v h z = ground arith
  Step-completed r (acquire room granted) v h z = ground arith
  Step-completed r (refuse denied) v h z = ground arith
  Step-completed r (clone some_live room) v h z = absurd (omega (arith, v.counted))
  Step-completed r (drop_delay some_live) v h z = absurd (omega (arith, v.counted))
  Step-completed r (drop_trigger slot) v h z = ground arith
  Step-completed r (wait_completed w) v h z = ground arith
  Step-completed r (wait_signal w) v h z = ground arith

  Reach-completed :
      {s t : System T W} (r : T)
      → Reach will_wake s t
      → IsValid s
      → s.inner.reason ≡ some r
      → s.inner.delay_tokens ≡ 0
      → t.inner.delay_tokens ≡ 0
  Reach-completed r here v h z = z
  Reach-completed r (next p st) v h z =
      Step-completed r st (Reach-IsValid will_wake p v) (Reach-reason r p h)
        (Reach-completed r p v h z)

  Reach-trans :
      {s t u : System T W} → Reach will_wake s t → Reach will_wake t u → Reach will_wake s u
  Reach-trans p here = p
  Reach-trans p (next q st) = next (Reach-trans p q) st

  -- A completed shutdown stays completed with its first reason, whatever the tasks do, and no
  -- delay token is granted any more.
  pub completed_for_ever :
      {s t : System T W} (r : T)
      → Reach will_wake start s
      → Reach will_wake s t
      → shutdown_reason s.inner ≡ some r
      → is_shutdown_completed s.inner ≡ true
      → (is_shutdown_completed t.inner ≡ true)
        × (shutdown_reason t.inner ≡ some r)
        × (delay_token t.inner ≡ (t.inner, err (record { reason = r })))
  unfolding is_shutdown_completed shutdown_reason delay_token
  completed_for_ever {s} {t} r p q h done =
      let v = Reach-IsValid will_wake p start-IsValid in
      let e = Reach-reason r q h in
      let z = Reach-completed r q v h (ground arith) in (ground arith, e, ground arith)

  -- A waker that waits for the completion goes on waiting, or has been woken.
  abbrev IsServed : W → System T W → Type 0
  IsServed w s = Memᴰ w s.inner.on_shutdown_complete ⊎ Memᴰ w s.woken

  Step-IsServed : {s t : System T W} (w : W) → Step will_wake s t → IsServed w s → IsServed w t
  unfolding methods
  Step-IsServed {s} w (trigger x) h = ground (
    arith,
    mem-left w s.woken (trigger_shutdown x s.inner).1,
    mem-right w s.woken (trigger_shutdown x s.inner).1,
    mem-right w s.inner.on_shutdown_trigger s.inner.on_shutdown_complete,
  )
  Step-IsServed w (acquire room granted) h = ground arith
  Step-IsServed w (refuse denied) h = ground arith
  Step-IsServed w (clone some_live room) h = h
  Step-IsServed {s} w (drop_delay some_live) h = ground (
    arith,
    mem-left w s.woken (drop_delay_token s.inner).1,
    mem-right w s.woken (drop_delay_token s.inner).1,
  )
  Step-IsServed {s} w (drop_trigger slot) h = ground (
    arith,
    mem-left w s.woken (drop_trigger_token slot s.inner).2,
    mem-right w s.woken (drop_trigger_token slot s.inner).2,
    mem-right w s.inner.on_shutdown_trigger s.inner.on_shutdown_complete,
  )
  Step-IsServed {s} w (wait_completed x) h =
      ground (arith, mem-left w s.inner.on_shutdown_complete (x ∷ []))
  Step-IsServed w (wait_signal x) h = ground arith

  Reach-IsServed : {s t : System T W} (w : W) → Reach will_wake s t → IsServed w s → IsServed w t
  Reach-IsServed w here h = h
  Reach-IsServed w (next p st) h = Step-IsServed w st (Reach-IsServed w p h)

  -- Every task that waits for the completion in a reachable state is woken before a state in which
  -- the shutdown has completed.
  pub completed_wakes :
      {s t : System T W} (w : W)
      → Reach will_wake start s
      → Reach will_wake s t
      → Memᴰ w s.inner.on_shutdown_complete
      → is_shutdown_completed t.inner ≡ true
      → Memᴰ w t.woken
  completed_wakes {s} {t} w p q m done =
      let empty : t.inner.on_shutdown_complete ≡ [] =
        (no_lost_wakeups will_wake (Reach-trans p q)).2 done in
      elim (Reach-IsServed w q (inl m)) [
        | inl waits ↦ absurd (Memᴰ.not-nil (subst (Memᴰ w) empty waits))
        | inr woken ↦ woken
      ]

-- ===== src/Shutdown/Tests.antt =====
-- The theorems about the controller at a small run: a task waits for the completion, a token is
-- taken, the shutdown is triggered, and the token is dropped.
use mathlib.Core.List.{Memᴰ}
use smallgod.Prelude.{
  ℕ, ◌≡◌, refl, if◌then◌else◌, Bool, true, Option, none, some, [], ◌∷◌, ◌==◌, arith,
}
use smallgod.Shutdown.{
  methods, ControllerInner, ready, pending, is_shutdown_triggered, is_shutdown_completed,
}
use smallgod.Shutdown.System.{
  System, start, trigger, acquire, drop_delay, wait_completed, Reach, here, next,
}
use smallgod.Shutdown.Invariant.{no_lost_wakeups}
use smallgod.Shutdown.Progress.{completed_wakes}
use smallgod.Shutdown.Futures.{Future}

abbrev Sys : Type 0
Sys = System ℕ ℕ

abbrev will_wake : ℕ → ℕ → Bool
will_wake a b = a == b

-- Task 5 waits, and one token is alive.
abbrev waiting : Sys
waiting = record {
  inner = record {
    reason = none;
    delay_tokens = 1;
    on_shutdown_trigger = [];
    on_shutdown_complete = 5 ∷ [];
  };
  live = 1;
  woken = [];
}

to_waiting : Reach will_wake start waiting
unfolding methods
to_waiting = next (next here (wait_completed 5)) (acquire (omega arith) refl)

-- The shutdown was triggered with reason 7, and the token dropped.
abbrev done : Sys
done = record {
  inner = record {
    reason = some 7;
    delay_tokens = 0;
    on_shutdown_trigger = [];
    on_shutdown_complete = [];
  };
  live = 0;
  woken = 5 ∷ [];
}

to_done : Reach will_wake waiting done
unfolding methods
to_done = next (next here (trigger 7)) (drop_delay (omega arith))

no_lost_wakeups_example :
    (waiting.inner.delay_tokens ≡ waiting.live)
    × (is_shutdown_triggered waiting.inner ≡ true → waiting.inner.on_shutdown_trigger ≡ [])
    × (is_shutdown_completed waiting.inner ≡ true → waiting.inner.on_shutdown_complete ≡ [])
no_lost_wakeups_example = no_lost_wakeups will_wake to_waiting

to_end : Reach will_wake start done
unfolding methods
to_end =
    next (next (next (next here (wait_completed 5)) (acquire (omega arith) refl)) (trigger 7))
      (drop_delay (omega arith))

-- The second reason is ignored.
abbrev later : Sys
later = done

to_later : Reach will_wake done later
unfolding methods
to_later = next here (trigger 8)

completed_wakes_example : Memᴰ 5 done.woken
unfolding methods
completed_wakes_example = completed_wakes will_wake 5 to_waiting to_done (Memᴰ.head refl) refl

-- A future that counts down, and ends with 1 at zero.
abbrev countdown : Future ℕ ℕ ℕ
countdown = record { poll = λ w f. if f == 0 then (0, ready 1) else (0, pending) }

abbrev triggered : ControllerInner ℕ ℕ
triggered = record {
  reason = some 7;
  delay_tokens = 0;
  on_shutdown_trigger = [];
  on_shutdown_complete = [];
}

-- The wrapped future has ended, and its token carries the reason 9.
abbrev ended : Option (Option ℕ) × ℕ
ended = (some (some 9), 0)

-- ===== src/Shutdown/System.antt =====
-- A controller and all that is shared with it, as a step relation: any tasks may use the
-- controller, its tokens and its futures in any order.
use smallgod.Prelude.{ℕ, ◌+◌, ◌-◌, ◌<◌, ◌≡◌, ◌≢◌, Bool, Option, List, [], ◌++◌, ok}
use smallgod.Shutdown.{
  ControllerInner, usize_mod, new, trigger_shutdown, delay_token, clone_delay_token,
  drop_delay_token, drop_trigger_token, poll_completed, poll_signal,
}

-- The controller's state, the number of `DelayToken` values in existence, and every waker on which
-- `wake` was called so far.
pub record System (T W : Type 0) : Type 0 where
  pub inner : ControllerInner T W
  pub live : ℕ
  pub woken : List W

-- A new controller.
abbrev pub start : {T W : Type 0} → System T W
start = record { inner = new; live = 0; woken = [] }

module _ {T W : Type 0} (will_wake : W → W → Bool) where
  -- A token occupies memory, so that fewer than 2^64 exist at a time.
  pub data Step (s : System T W) : System T W → Type 0 where
    trigger :
        (reason : T)
        → Step s (record {
          inner = (trigger_shutdown reason s.inner).0;
          live = s.live;
          woken = s.woken ++ (trigger_shutdown reason s.inner).1;
        })
    acquire :
        s.live + 1 < usize_mod
        → (delay_token s.inner).1 ≡ ok tt
        → Step s (record { inner = (delay_token s.inner).0; live = s.live + 1; woken = s.woken })
    refuse :
        (delay_token s.inner).1 ≢ ok tt
        → Step s (record { inner = (delay_token s.inner).0; live = s.live; woken = s.woken })
    clone :
        0 < s.live
        → s.live + 1 < usize_mod
        → Step s (record { inner = clone_delay_token s.inner; live = s.live + 1; woken = s.woken })
    drop_delay :
        0 < s.live
        → Step s (record {
          inner = (drop_delay_token s.inner).0;
          live = s.live - 1;
          woken = s.woken ++ (drop_delay_token s.inner).1;
        })
    drop_trigger :
        (slot : Option T)
        → Step s (record {
          inner = (drop_trigger_token slot s.inner).1;
          live = s.live;
          woken = s.woken ++ (drop_trigger_token slot s.inner).2;
        })
    wait_completed :
        (waker : W)
        → Step s
            (record { inner = (poll_completed waker s.inner).0; live = s.live; woken = s.woken })
    wait_signal :
        (waker : W)
        → Step s (record {
          inner = (poll_signal will_wake waker s.inner).0;
          live = s.live;
          woken = s.woken;
        })

  -- The states that any run of steps leads to.
  pub data Reach (s : System T W) : System T W → Type 0 where
    here : Reach s s
    next : {t u : System T W} → Reach s t → Step t u → Reach s u

-- ===== src/EventLoop/Run/Sleeping.antt =====
-- How long `run` lets the kernel wait.
use libsimplenet.Base.{
  ℕ, pos_part, is_negative, ◌-◌, ◌≤◌, ◌<◌, ◌^◌, ◌≡◌, true, false, Option, some, arith,
}
use libsimplenet.EventLoop.State.{Registration}
use libsimplenet.EventLoop.Invariant.{is_covered, is_timed}
use libsimplenet.EventLoop.Waiters.{ms}
use libsimplenet.EventLoop.Run.{wait_timeout}

-- If the deadline index covers a waiter with deadline `d`, the wait that starts at `now` is bounded
-- and ends before that deadline; at a deadline that has come it does not wait.
pub wait_timeout_bound :
    (now d : ℕ) (next : Option ℕ) (r : Registration)
    → is_timed r ≡ true
    → r.deadline ≡ some d
    → is_covered next r ≡ true
    → (is_negative (wait_timeout now next) ≡ false)
      × (ms (pos_part (wait_timeout now next)) ≤ d - now)
      × (pos_part (wait_timeout now next) < 2 ^ 31)
unfolding wait_timeout
wait_timeout_bound now d next r timed e covered = ground arith

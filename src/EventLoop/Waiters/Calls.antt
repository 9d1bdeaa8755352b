-- ===== src/EventLoop/Waiters/Calls.antt =====
-- `arm_waiter` as a whole, its guards included.
use libsimplenet.Base.{
  ℕ, ℤ, ℤ_discrete, is_negative, ◌<◌, ◌≡◌, refl, sym, ap, ◌∙◌, ◌==◌, not, ◌||◌, Bool, true, false,
  false≢true, if_elim, Option, none, Option-cases, inl, inr, arith,
}
use libsimplenet.Base.Table.{find, find-try_emplace}
use libsimplenet.Core.{Error, from_errno, Status, err, done}
use libsimplenet.Core.Errno.{ebusy}
use libsimplenet.System.{LoopSystem}
use libsimplenet.EventLoop.State.{empty_slot, EventLoop, is_armed, valid, wake, schedule}
use libsimplenet.EventLoop.Invariant.{IsWellFormed, keep-IsWellFormed}
use libsimplenet.EventLoop.Waiters.{side, has_elapsed, install, arm_waiter}
use libsimplenet.EventLoop.Waiters.Target.{slot_at, armable}
use libsimplenet.EventLoop.Waiters.Installing.{IsUnchanged}
use libsimplenet.EventLoop.Waiters.Arming.{
  emplaced, IsInstalled, install-IsWellFormed, install_failure, install_success, loop_error-install,
}

module _ {W : Type 0} where
  -- A timeout that has elapsed wakes the caller at once and touches no waiter.
  wake-IsWellFormed :
      (handle : ℕ) (status : Status) (l : EventLoop W)
      → IsWellFormed l
      → IsWellFormed (wake handle status l)
  unfolding wake schedule
  wake-IsWellFormed handle status l v =
      if_elim IsWellFormed (handle == 0) (λ _. keep-IsWellFormed refl refl refl refl refl v)
        λ _. keep-IsWellFormed refl refl refl refl refl v

module _ {W : Type 0} where
  loop_error-wake :
      (handle : ℕ) (status : Status) (l : EventLoop W)
      → (wake handle status l).loop_error ≡ l.loop_error
  unfolding wake schedule
  loop_error-wake handle status l = ground arith

module _ {W : Type 0} (os : LoopSystem W) (fd : ℤ) (handle : ℕ) (readable : Bool)
    (timeout : Option ℤ) (timeout_error : Error) (l : EventLoop W) where
  -- The slot that the call is about is free.
  abbrev pub IsFree : Type 0
  IsFree = is_armed (side readable (slot_at fd l.waiters)) ≡ false

  pub arm_waiter_cases :
      (P : Status × EventLoop W → Type 0)
      → ((e : Error) → P (err e, l))
      → (has_elapsed timeout ≡ true → P (done, wake handle (err timeout_error) l))
      → (is_armed (side readable (slot_at fd l.waiters)) ≡ true
          → P (err (from_errno ebusy), emplaced fd l))
      → (is_negative fd ≡ false
          → 0 < handle
          → IsFree
          → P (
              install os fd handle readable timeout timeout_error
                (slot_at fd l.waiters)
                (emplaced fd l)))
      → P (arm_waiter os fd handle readable timeout timeout_error l)
  unfolding arm_waiter
  arm_waiter_cases P refused elapsed busy free =
      if_elim P (not (valid l)) (λ _. refused _)
        λ _.
          if_elim P (is_negative fd || handle == 0) (λ _. refused _)
            λ good. if_elim P (has_elapsed timeout) elapsed λ _.
              if_elim P (is_armed (side readable (slot_at fd l.waiters))) busy
                λ h. free (ground arith) (ground arith) h

  -- An occupied side has its slot in the table already, so that nothing is emplaced.
  emplaced_busy : is_armed (side readable (slot_at fd l.waiters)) ≡ true → emplaced fd l ≡ l
  emplaced_busy h = elim (Option-cases (find ℤ_discrete fd l.waiters)) [
    | inl e ↦ absurd (vacant_side readable e h)
    | inr (s, e) ↦
        ap (λ m. record l { waiters = m }) (find-try_emplace ℤ_discrete fd empty_slot l.waiters e)
  ]
    where
      vacant_side :
          (b : Bool)
          → find ℤ_discrete fd l.waiters ≡ none
          → ¬ (is_armed (side b (slot_at fd l.waiters)) ≡ true)
      vacant_side true e q = cc (rw e at q)
      vacant_side false e q = cc (rw e at q)

  unchanged : IsUnchanged l l
  unchanged = record {
    waiters = refl;
    pending = refl;
    timed = refl;
    ready = refl;
    results = refl;
    error = refl;
  }

  -- Whatever `arm_waiter` returns, a well-formed loop stays well-formed.
  pub arm_waiter-IsWellFormed :
      IsWellFormed l → IsWellFormed (arm_waiter os fd handle readable timeout timeout_error l).1
  arm_waiter-IsWellFormed v =
      arm_waiter_cases (λ r. IsWellFormed r.1) (λ _. v) (λ _. wake-IsWellFormed handle _ l v)
        (λ h. rw (emplaced_busy h) v)
        λ key live free.
          install-IsWellFormed os fd handle readable timeout timeout_error l
            (armable fd readable l.waiters key free v.settled) live v

  -- An `arm_waiter` that returns an error leaves the waiters, the counters, the ready queue, the
  -- stored results and the recorded error of a well-formed loop as they were.
  pub arm_waiter_failure :
      (e : Error)
      → IsWellFormed l
      → (arm_waiter os fd handle readable timeout timeout_error l).0 ≡ err e
      → IsUnchanged l (arm_waiter os fd handle readable timeout timeout_error l).1
  arm_waiter_failure e v =
      arm_waiter_cases (λ r. r.0 ≡ err e → IsUnchanged l r.1) (λ _ _. unchanged) (λ _ q. cc)
        (λ h _. rw (emplaced_busy h) unchanged)
        λ key live free.
          install_failure os fd handle readable timeout timeout_error l
            (armable fd readable l.waiters key free v.settled) live e

  -- An `arm_waiter` on a well-formed loop that succeeds, its timeout not having elapsed, registers the
  -- handle on the side asked for and leaves every other slot, the ready queue, the stored results and
  -- the recorded error alone.
  pub arm_waiter_success :
      IsWellFormed l
      → has_elapsed timeout ≡ false
      → (arm_waiter os fd handle readable timeout timeout_error l).0 ≡ done
      → IsInstalled os fd handle readable timeout timeout_error l
          (arm_waiter os fd handle readable timeout timeout_error l).1
  arm_waiter_success v waiting =
      arm_waiter_cases
        (λ r. r.0 ≡ done → IsInstalled os fd handle readable timeout timeout_error l r.1)
        (λ e q. cc) (λ h _. absurd (false≢true (sym waiting ∙ h))) (λ _ q. cc)
        λ key live free.
          install_success os fd handle readable timeout timeout_error l
            (armable fd readable l.waiters key free v.settled) live

  pub loop_error-arm_waiter :
      IsWellFormed l
      → (arm_waiter os fd handle readable timeout timeout_error l).1.loop_error ≡ l.loop_error
  loop_error-arm_waiter v =
      arm_waiter_cases (λ r. r.1.loop_error ≡ l.loop_error) (λ _. refl)
        (λ _. loop_error-wake handle (err timeout_error) l) (λ _. refl)
        λ key live free.
          loop_error-install os fd handle readable timeout timeout_error l
            (armable fd readable l.waiters key free v.settled) live

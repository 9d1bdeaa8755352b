-- ===== src/Uring/Waiters/Calls.antt =====
-- `arm_waiter` as a whole, its guards included.
use libsimplenet.Base.{
  ℕ, ℤ, is_negative, ◌+◌, ◌<◌, ◌^◌, ◌≡◌, refl, sym, ap, ◌∙◌, ◌==◌, not, ◌||◌, Bool, true, false,
  false≢true, length, if_elim, Option, arith,
}
use libsimplenet.Base.Weights.{sum_values}
use libsimplenet.Core.{Error, from_errno, ok, err, Status, done}
use libsimplenet.Core.Errno.{ebusy}
use libsimplenet.System.{RingSystem}
use libsimplenet.EventLoop.Waiters.{has_elapsed}
use libsimplenet.Uring.State.{WaiterSlot, UringEventLoop, is_armed, valid, wake, schedule}
use libsimplenet.Uring.Invariant.{keep-IsWellFormed, pending_of, timed_of, IsWellFormed}
use libsimplenet.Uring.Waiters.{side, install, arm_waiter}
use libsimplenet.Uring.Waiters.Target.{armable, occupied_emplaced}
use libsimplenet.Uring.Waiters.Arming.{
  IsUnchanged, IsWaiting, slot, emplaced, Outcome, install_outcome,
}

module _ {W : Type 0} (os : RingSystem W) (fd : ℤ) (handle : ℕ) (readable : Bool)
    (timeout : Option ℤ) (timeout_error : Error) (l : UringEventLoop W) where
  abbrev target : WaiterSlot
  target = slot os fd handle readable timeout timeout_error l

  abbrev made : UringEventLoop W
  made = emplaced os fd handle readable timeout timeout_error l

  pub arm_waiter_cases :
      (P : Status × UringEventLoop W → Type 0)
      → ((e : Error) → P (err e, l))
      → (has_elapsed timeout ≡ true → P (done, wake handle (err timeout_error) l))
      → (is_armed (side readable target) ≡ true → P (err (from_errno ebusy), made))
      → (is_negative fd ≡ false
          → 0 < handle
          → is_armed (side readable target) ≡ false
          → P (install os fd handle readable timeout timeout_error target made))
      → P (arm_waiter os fd handle readable timeout timeout_error l)
  unfolding arm_waiter
  arm_waiter_cases P refused elapsed busy free =
      if_elim P (not (valid l)) (λ _. refused _)
        λ _.
          if_elim P (is_negative fd || handle == 0) (λ _. refused _)
            λ good. if_elim P (has_elapsed timeout) elapsed λ _.
              if_elim P (is_armed (side readable target)) busy
                λ h. free (ground arith) (ground arith) h

  -- A timeout that has elapsed wakes the caller at once and touches no waiter.
  wake-IsWellFormed : (status : Status) → IsWellFormed l → IsWellFormed (wake handle status l)
  unfolding wake schedule
  wake-IsWellFormed status v =
      if_elim IsWellFormed (handle == 0) (λ _. keep-IsWellFormed refl refl refl refl refl v)
        λ _. keep-IsWellFormed refl refl refl refl refl v

  unchanged : IsUnchanged l l
  unchanged = (refl, refl, refl, refl, refl, refl, refl)

  module _ (v : IsWellFormed l) (room : l.next_token + length l.inflight_polls + 2 < 2 ^ 64) where
    -- What the call as a whole comes to.
    abbrev IsCall : Status × UringEventLoop W → Type 0
    IsCall (ok _, l') =
        (has_elapsed timeout ≡ false → IsWaiting os fd handle readable l l') × IsWellFormed l'
    IsCall (err e, l') = IsUnchanged l l' × IsWellFormed l'

    of_outcome :
        (r : Status × UringEventLoop W)
        → Outcome os fd handle readable timeout timeout_error l r
        → IsCall r
    of_outcome (ok _, l') o = (λ _. o.0, o.1 v)
    of_outcome (err e, l') (same, dirty) = (
      same,
      record {
        counted = record {
          pending = same.2 ∙ v.counted.pending ∙ ap (sum_values pending_of) (sym same.0);
          timed = same.3 ∙ v.counted.timed ∙ ap (sum_values timed_of) (sym same.0);
        };
        settled = rw (same.0) v.settled;
        index = λ tidy. cc;
      },
    )

    arm_waiter_result : IsCall (arm_waiter os fd handle readable timeout timeout_error l)
    arm_waiter_result =
        arm_waiter_cases IsCall (λ e. (unchanged, v))
          (λ h. (λ q. absurd (false≢true (sym q ∙ h)), wake-IsWellFormed (err timeout_error) v))
          (λ h. rw (occupied_emplaced fd readable l.waiters h) (unchanged, v))
          λ key live free. of_outcome _ (
            install_outcome os fd handle readable timeout timeout_error l
              (armable fd readable l.waiters key free v.settled) live room)

    -- `arm_waiter` on a well-formed loop whose token counter is not about to wrap. Whatever it returns,
    -- the loop stays well-formed. If it returns an error, the waiters, the requests in flight, the
    -- counters, the ready queue, the stored results and the recorded error are as they were. If it
    -- succeeds, its timeout not having elapsed, the handle waits on the side asked for, under a token
    -- whose poll request for this descriptor and side is in flight; the last call on the ring took a
    -- free entry and prepared a poll request in it, for this descriptor, the events of the side and
    -- this token, which is marked as pending submission; and the ready queue, the stored results and
    -- the recorded error are as they were.
    pub ring_arming_lem :
        IsWellFormed (arm_waiter os fd handle readable timeout timeout_error l).1
        × ((e : Error)
            → (arm_waiter os fd handle readable timeout timeout_error l).0 ≡ err e
            → IsUnchanged l (arm_waiter os fd handle readable timeout timeout_error l).1)
        × (has_elapsed timeout ≡ false
            → (arm_waiter os fd handle readable timeout timeout_error l).0 ≡ done
            → IsWaiting os fd handle readable l
                (arm_waiter os fd handle readable timeout timeout_error l).1)
    ring_arming_lem =
        of_call (arm_waiter os fd handle readable timeout timeout_error l) arm_waiter_result
      where
        of_call :
            (r : Status × UringEventLoop W)
            → IsCall r
            → IsWellFormed r.1
              × ((e : Error) → r.0 ≡ err e → IsUnchanged l r.1)
              × (has_elapsed timeout ≡ false → r.0 ≡ done → IsWaiting os fd handle readable l r.1)
        of_call (ok _, l') r = (r.1, λ e q. cc, λ waiting q. r.0 waiting)
        of_call (err x, l') r = (r.1, λ e q. r.0, λ waiting q. cc)

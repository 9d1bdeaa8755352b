-- ===== src/EventLoop/Run/Flag.antt =====
-- What keeps `stop_requested_` of the loop over epoll once it is raised.
use libsimplenet.Base.{ℕ, ℤ, ◌≡◌, refl, true, Bool, if_elim, Option, List, [], ◌∷◌, arith}
use libsimplenet.Core.{Error, err, Status}
use libsimplenet.Core.UniqueFd
use libsimplenet.System.{LoopSystem}
use libsimplenet.EventLoop.State.{
  Registration, WaiterSlot, EventLoop, schedule, wake, consume_wait_result, fail,
}
use libsimplenet.EventLoop.Waiters.{start_timer, arm_waiter}
use libsimplenet.EventLoop.Waiters.Installing.{raised, install_cases}
use libsimplenet.EventLoop.Waiters.Target.{slot_at}
use libsimplenet.EventLoop.Waiters.Arming.{emplaced}
use libsimplenet.EventLoop.Waiters.Calls.{arm_waiter_cases}
use libsimplenet.EventLoop.Dispatch.{expire, sweep, process_expired_waiters}
use libsimplenet.EventLoop.Dispatch.Steps.{after_round, slot_after, next_after, sweep_round}
use libsimplenet.EventLoop.Dispatch.Deadlines.{process_cases}
use libsimplenet.EventLoop.Run.{stop}

module _ {W : Type 0} where
  abbrev pub IsStopped : EventLoop W → Type 0
  IsStopped l = l.stop_requested ≡ true

  expire-IsStopped :
      (now : ℕ) (r : Registration) (l : EventLoop W) → IsStopped l → IsStopped (expire now r l)
  unfolding expire wake schedule
  expire-IsStopped now r l h = ground arith

  pub consume-IsStopped :
      (handle : ℕ) (l : EventLoop W) → IsStopped l → IsStopped (consume_wait_result handle l).1
  unfolding consume_wait_result
  consume-IsStopped handle l h = ground arith

  wake-IsStopped :
      (handle : ℕ) (s : Status) (l : EventLoop W) → IsStopped l → IsStopped (wake handle s l)
  unfolding wake schedule
  wake-IsStopped handle s l h = ground arith

module _ {W : Type 0} (os : LoopSystem W) where
  sweep-IsStopped :
      (now : ℕ) (m : List (ℤ × WaiterSlot)) (l : EventLoop W) (next : Option ℕ)
      → IsStopped l
      → IsStopped (sweep os now m l next).loop
  sweep-IsStopped now [] l next h = unfold sweep in h
  sweep-IsStopped now ((fd, s) ∷ rest) l next h =
      let read = expire-IsStopped now s.readable l h in
      let both = expire-IsStopped now s.writable (expire now s.readable l) read in
      sweep_round os (λ x. IsStopped x.loop) now fd s rest l next (λ e. unfold fail in refl)
        λ _.
          sweep-IsStopped now rest (after_round os now fd s l)
            (next_after os (slot_after os now fd s l) next) both

  pub expired-IsStopped : (l : EventLoop W) → IsStopped l → IsStopped (process_expired_waiters os l)
  expired-IsStopped l h =
      let swept =
        sweep-IsStopped (os.now l.world).0 l.waiters (record l { world = (os.now l.world).1 }) _
          h in
      process_cases os IsStopped l (λ _. h) (λ _. h) (λ _. swept) λ _. swept

  pub stop-IsStopped : (fuel : ℕ) (l : EventLoop W) → IsStopped (stop os fuel l)
  unfolding stop
  stop-IsStopped fuel l = if_elim IsStopped (UniqueFd.valid l.wake_fd) (λ _. refl) λ _. refl

  raised-IsStopped :
      (timeout : Option ℤ) (l : EventLoop W) → IsStopped l → IsStopped (raised os timeout l)
  unfolding start_timer
  raised-IsStopped timeout l h = ground arith

  pub arm_waiter-IsStopped :
      (fd : ℤ) (handle : ℕ) (readable : Bool) (timeout : Option ℤ) (e : Error) (l : EventLoop W)
      → IsStopped l
      → IsStopped (arm_waiter os fd handle readable timeout e l).1
  arm_waiter-IsStopped fd handle readable timeout e l h =
      let begun = raised-IsStopped timeout (emplaced fd l) h in
      arm_waiter_cases os fd handle readable timeout e l (λ r. IsStopped r.1) (λ _. h)
        (λ _. wake-IsStopped handle (err e) l h) (λ _. h)
        λ _ _ _.
          install_cases os fd handle readable timeout e (slot_at fd l.waiters) (emplaced fd l)
            (λ r. IsStopped r.1) (λ _. begun) λ _ _. begun

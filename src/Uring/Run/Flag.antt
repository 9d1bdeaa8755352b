-- ===== src/Uring/Run/Flag.antt =====
-- What keeps `stop_requested_` once it is raised.
use libsimplenet.Base.{
  ◌∙◌, ℕ, ℤ, ℕ_discrete, ◌==◌, ◌≡◌, refl, ◌∙◌, true, Bool, if_elim, Option, none, List, [], ◌∷◌,
  arith,
}
use libsimplenet.Base.Table.{erase}
use libsimplenet.Core.{Error, ok, err, Status, result_elim}
use libsimplenet.Core.UniqueFd
use libsimplenet.System.{RingSystem}
use libsimplenet.Uring.State.{
  Registration, WaiterSlot, UringEventLoop, schedule, wake, consume_wait_result, fail,
}
use libsimplenet.Uring.Polls.Frame.{queue_poll_remove_touches}
use libsimplenet.Uring.Waiters.{finish_arming, arm_waiter}
use libsimplenet.Uring.Expiry.{
  drop_poll, wake_expired, expire_registration, sweep, process_expired_waiters,
}
use libsimplenet.Uring.Expiry.Rounds.{both_expired, first_expired, next_after, sweep_round}
use libsimplenet.Uring.Expiry.Deadlines.{process_cases}
use libsimplenet.Uring.Waiters.Arming.{timer_fields, install_cases}
use libsimplenet.Uring.Waiters.Calls.{arm_waiter_cases}
use libsimplenet.Uring.Run.{stop}

module _ {W : Type 0} where
  abbrev pub IsStopped : UringEventLoop W → Type 0
  IsStopped l = l.stop_requested ≡ true

module _ {W : Type 0} (os : RingSystem W) where
  drop_poll-IsStopped :
      (token : ℕ) (l : UringEventLoop W) → IsStopped l → IsStopped (drop_poll os token l)
  unfolding drop_poll fail
  drop_poll-IsStopped token l h =
      if_elim IsStopped (token == 0) (λ _. h)
        λ _.
          queue_poll_remove_touches os token
            (record l { inflight_polls = erase ℕ_discrete token l.inflight_polls })
            (λ r. IsStopped (elim r.0 [ ok _ ↦ r.1 | err e ↦ fail e r.1 ]))
            λ s w b. result_elim IsStopped s (λ _ _. h) λ e _. refl

  expire-IsStopped :
      (now : ℕ) (r : Registration) (l : UringEventLoop W)
      → IsStopped l
      → IsStopped (expire_registration os now r l)
  unfolding expire_registration wake_expired wake schedule
  expire-IsStopped now r l h =
      let dropped = drop_poll-IsStopped r.token (wake_expired r l) in ground (arith, dropped)

  sweep-IsStopped :
      (now : ℕ) (m : List (ℤ × WaiterSlot)) (l : UringEventLoop W) (next : Option ℕ)
      → IsStopped l
      → IsStopped (sweep os now m l next).loop
  sweep-IsStopped now [] l next h = unfold sweep in h
  sweep-IsStopped now ((fd, s) ∷ rest) l next h =
      let first = expire-IsStopped now s.readable l h in
      let both = expire-IsStopped now s.writable (first_expired os now s l) first in
      sweep_round os (λ x. IsStopped x.loop) now fd s rest l next (λ _. first) (λ _. both)
        (sweep-IsStopped now rest (both_expired os now s l) (next_after os now s next) both)

  pub expired-IsStopped :
      (l : UringEventLoop W) → IsStopped l → IsStopped (process_expired_waiters os l)
  expired-IsStopped l h =
      let swept =
        sweep-IsStopped (os.now l.world).0 l.waiters (record l { world = (os.now l.world).1 }) none
          h in
      process_cases os IsStopped l (λ _. h) (λ _. h) (λ _. swept) λ _. swept

  wake-IsStopped :
      (handle : ℕ) (s : Status) (l : UringEventLoop W) → IsStopped l → IsStopped (wake handle s l)
  unfolding wake schedule
  wake-IsStopped handle s l h = ground arith

  pub consume-IsStopped :
      (handle : ℕ) (l : UringEventLoop W) → IsStopped l → IsStopped (consume_wait_result handle l).1
  unfolding consume_wait_result
  consume-IsStopped handle l h = ground arith

  pub stop-IsStopped : (fuel : ℕ) (l : UringEventLoop W) → IsStopped (stop os fuel l)
  unfolding stop
  stop-IsStopped fuel l = if_elim IsStopped (UniqueFd.valid l.wake_fd) (λ _. refl) λ _. refl

  pub arm_waiter-IsStopped :
      (fd : ℤ) (handle : ℕ) (readable : Bool) (timeout : Option ℤ) (e : Error)
      (l : UringEventLoop W)
      → IsStopped l
      → IsStopped (arm_waiter os fd handle readable timeout e l).1
  arm_waiter-IsStopped fd handle readable timeout e l h =
      let timed = timer_fields os fd handle readable timeout e l in
      arm_waiter_cases os fd handle readable timeout e l (λ r. IsStopped r.1) (λ _. h)
        (λ _. wake-IsStopped handle (err e) l h) (λ _. h)
        λ _ _ _.
          install_cases os fd handle readable timeout e l (λ r. IsStopped r.1)
            (λ v free. timed.7 ∙ h) λ x w b. unfold finish_arming in (timed.7 ∙ h)

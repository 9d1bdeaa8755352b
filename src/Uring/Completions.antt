-- ===== src/Uring/Completions.antt =====
-- `process_completion` of the loop over io_uring: waiters end by readiness.
pub mod Endings
pub mod Awaited
pub mod Events
use libsimplenet.Base.{
  ℕ, zero, suc, ℤ, ℤ_discrete, ℕ_discrete, is_negative, magnitude, ◌==◌, true, ◌&&◌, ◌||◌, none,
  some, if◌then◌else◌,
}
use libsimplenet.Base.Table.{find, assign, erase}
use libsimplenet.Core.{from_errno, ok, err, Status, done}
use libsimplenet.Core.Errno.{eintr}
use libsimplenet.Core.UniqueFd
use libsimplenet.System.{Completion, RingSystem}
use libsimplenet.EventLoop.State.{decrement, is_none}
use libsimplenet.Uring.State.{
  no_registration, WaiterSlot, PollContext, UringEventLoop, is_armed, is_vacant, wake, fail,
}
use libsimplenet.Uring.Polls.{flush_submissions, queue_poll_add, read_poll_mask}
use libsimplenet.Uring.Waiters.{side, with_side}

-- What the waiter is told: success, or the negated errno of the poll.
abbrev pub poll_status : ℤ → Status
poll_status r = if is_negative r then err (from_errno (magnitude r)) else done

module _ {W : Type 0} where
  -- From `wait_results_[...]` on: the waiter on the side `readable` of `slot` is woken and forgotten.
  unfoldable pub end_wait : ℤ → PollContext → WaiterSlot → UringEventLoop W → UringEventLoop W
  unfolding wake
  end_wait r context slot l =
      let registration = side context.readable slot in
      let l' = wake registration.handle (poll_status r) l in
      let untimed = is_none registration.deadline || l'.timed_waiter_count == 0 in
      let slot' = with_side context.readable no_registration slot in
      record l' {
        timed_waiter_count =
            if untimed then l'.timed_waiter_count else decrement l'.timed_waiter_count;
        deadline_index_dirty = if untimed then l'.deadline_index_dirty else true;
        pending_waiter_count = decrement l'.pending_waiter_count;
        waiters =
            if is_vacant slot'
            then erase ℤ_discrete context.fd l'.waiters
            else assign ℤ_discrete context.fd slot' l'.waiters;
      }

  -- From `waiters_.find` on, for a token that was in flight.
  unfoldable pub complete_poll : ℕ → ℤ → PollContext → UringEventLoop W → UringEventLoop W
  unfolding end_wait
  complete_poll token r context l =
      let l' = record l { inflight_polls = erase ℕ_discrete token l.inflight_polls } in
      elim (find ℤ_discrete context.fd l.waiters) [
        | none ↦ l'
        | some slot ↦
            if is_armed (side context.readable slot) && (side context.readable slot).token == token
            then end_wait r context slot l'
            else l'
      ]

module _ {W : Type 0} (os : RingSystem W) where
  -- The `read` loop on the eventfd, retried after EINTR. `fuel` bounds the number of reads.
  unfoldable pub drain_counter : ℕ → ℤ → W → W
  drain_counter zero fd w = w
  drain_counter (suc fuel) fd w =
      let out = os.eventfds.read_counter fd w in
      let again = drain_counter fuel fd out.world in
      if is_negative out.value && out.errno == eintr then again else out.world

  unfoldable pub consume_wakeup : ℕ → UringEventLoop W → UringEventLoop W
  unfolding drain_counter
  consume_wakeup fuel l =
      if UniqueFd.valid l.wake_fd
      then record l { world = drain_counter fuel l.wake_fd.fd l.world }
      else l

  -- The wake-up descriptor is polled again, unless the loop stops.
  unfoldable pub rearm_wakeup : UringEventLoop W → UringEventLoop W
  unfolding queue_poll_add flush_submissions fail
  rearm_wakeup l =
      let (rearm, l₁) = queue_poll_add os l.wake_token l.wake_fd.fd read_poll_mask l in
      let (flush_result, l₂) = flush_submissions os l₁ in
      if l.stop_requested then l else elim rearm [
        | err e ↦ fail e l₁
        | ok _ ↦ elim flush_result [ err e ↦ fail e l₂ | ok _ ↦ l₂ ]
      ]

  unfoldable pub process_completion : ℕ → Completion → UringEventLoop W → UringEventLoop W
  unfolding consume_wakeup rearm_wakeup complete_poll
  process_completion fuel c l =
      if c.user_data == 0
      then l
      else if c.user_data == l.wake_token
      then rearm_wakeup (consume_wakeup fuel l)
      else elim (find ℕ_discrete c.user_data l.inflight_polls) [
        | none ↦ l
        | some context ↦ complete_poll c.user_data c.result context l
      ]

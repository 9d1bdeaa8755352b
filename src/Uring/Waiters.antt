-- ===== src/Uring/Waiters.antt =====
-- `arm_waiter`, `wait_for_readable` and `wait_for_writable` of the loop over io_uring.
pub mod Target
pub mod Arming
pub mod Calls
use libsimplenet.Base.{
  ℕ, ℤ, ℤ_discrete, ℕ_discrete, is_negative, pos_part, ◌+◌, ◌==◌, Bool, true, false, not, ◌||◌,
  Option, none, some, if◌then◌else◌,
}
use libsimplenet.Base.Table.{find, assign, erase, try_emplace}
use libsimplenet.Core.{Error, from_errno, ok, err, Status, done}
use libsimplenet.Core.Errno.{ebadf, ebusy, einval}
use libsimplenet.System.{RingSystem}
use libsimplenet.EventLoop.State.{decrement, is_none, value_or}
use libsimplenet.EventLoop.Waiters.{ms, has_elapsed, earlier}
use libsimplenet.Uring.State.{
  Registration, no_registration, WaiterSlot, empty_slot, UringEventLoop, is_armed, is_vacant, valid,
  wake,
}
use libsimplenet.Uring.Polls.{allocate_token, queue_poll_add, read_poll_mask, write_poll_mask}

-- `readable ? slot.readable : slot.writable`, read and written.
abbrev pub side : Bool → WaiterSlot → Registration
side readable s = if readable then s.readable else s.writable

abbrev pub with_side : Bool → Registration → WaiterSlot → WaiterSlot
with_side readable r s = if readable then record s { readable = r } else record s { writable = r }

module _ {W : Type 0} (os : RingSystem W) where
  -- The deadline branch: reads the clock if there is a timeout.
  unfoldable pub start_timer : Option ℤ → UringEventLoop W → Option ℕ × UringEventLoop W
  start_timer none l = (none, l)
  start_timer (some t) l =
      let (now, w) = os.now l.world in
      let deadline = now + ms (pos_part t) in
      (
        some deadline,
        record l {
          timed_waiter_count = l.timed_waiter_count + 1;
          next_deadline = some (earlier deadline l.next_deadline);
          world = w;
        },
      )

  -- The end of `arm_waiter`: what becomes of the new registration, in `slot` under `token`, when its
  -- poll request was queued.
  unfoldable pub finish_arming :
      ℤ → Bool → ℕ → WaiterSlot → Status × UringEventLoop W → Status × UringEventLoop W
  finish_arming fd readable token slot (ok _, l) = (done, l)
  finish_arming fd readable token slot (err e, l) =
      let cleared = with_side readable no_registration slot in
      let untimed = is_none (side readable slot).deadline in
      (
        err e,
        record l {
          inflight_polls = erase ℕ_discrete token l.inflight_polls;
          waiters =
              if is_vacant cleared
              then erase ℤ_discrete fd l.waiters
              else assign ℤ_discrete fd cleared l.waiters;
          timed_waiter_count =
              if untimed then l.timed_waiter_count else decrement l.timed_waiter_count;
          pending_waiter_count = decrement l.pending_waiter_count;
          deadline_index_dirty = true;
        },
      )

  -- From `allocate_token` on, in the slot that was found or made.
  unfoldable pub install :
      ℤ → ℕ → Bool → Option ℤ → Error → WaiterSlot → UringEventLoop W → Status × UringEventLoop W
  unfolding allocate_token start_timer queue_poll_add finish_arming
  install fd handle readable timeout timeout_error slot l =
      let (token, l₀) = allocate_token l in
      let (deadline, l₁) = start_timer timeout l₀ in
      let target : Registration = record {
        handle = handle;
        deadline = deadline;
        timeout_error = timeout_error;
        token = token;
      } in
      let slot' = with_side readable target slot in
      let l₂ = record l₁ {
        waiters = assign ℤ_discrete fd slot' l₁.waiters;
        deadline_index_dirty = true;
        pending_waiter_count = l₁.pending_waiter_count + 1;
        inflight_polls =
            assign ℕ_discrete token (record { fd = fd; readable = readable }) l₁.inflight_polls;
      } in
      finish_arming fd readable token slot'
        (queue_poll_add os token fd (if readable then read_poll_mask else write_poll_mask) l₂)

  unfoldable pub arm_waiter :
      ℤ → ℕ → Bool → Option ℤ → Error → UringEventLoop W → Status × UringEventLoop W
  unfolding install
  arm_waiter fd handle readable timeout timeout_error l =
      let slot = value_or (find ℤ_discrete fd l.waiters) empty_slot in
      let l' = record l { waiters = try_emplace ℤ_discrete fd empty_slot l.waiters } in
      if not (valid l)
      then (err (value_or l.init_error (from_errno einval)), l)
      else if is_negative fd || handle == 0
      then (err (from_errno ebadf), l)
      else if has_elapsed timeout
      then (done, wake handle (err timeout_error) l)
      else if is_armed (side readable slot)
      then (err (from_errno ebusy), l')
      else install fd handle readable timeout timeout_error slot l'

  unfoldable pub wait_for_readable :
      ℤ → ℕ → Option ℤ → Error → UringEventLoop W → Status × UringEventLoop W
  unfolding arm_waiter
  wait_for_readable fd handle timeout timeout_error =
      arm_waiter fd handle true timeout timeout_error

  unfoldable pub wait_for_writable :
      ℤ → ℕ → Option ℤ → Error → UringEventLoop W → Status × UringEventLoop W
  unfolding arm_waiter
  wait_for_writable fd handle timeout timeout_error =
      arm_waiter fd handle false timeout timeout_error

-- ===== src/EventLoop/Waiters.antt =====
-- `arm_waiter`, `wait_for_readable` and `wait_for_writable`.
pub mod Target
pub mod Installing
pub mod Arming
pub mod Calls
use libsimplenet.Base.{
  ℕ, ℤ, ℤ_discrete, is_negative, is_not_positive, pos_part, ◌+◌, ◌*◌, ◌==◌, ltb, Bool, true, false,
  not, ◌||◌, Option, none, some, if◌then◌else◌,
}
use libsimplenet.Base.Table.{find, assign, erase, try_emplace}
use libsimplenet.Core.{Error, from_errno, ok, err, Status, done}
use libsimplenet.Core.Errno.{ebadf, ebusy, einval}
use libsimplenet.System.{LoopSystem}
use libsimplenet.EventLoop.State.{
  Registration, no_registration, WaiterSlot, empty_slot, EventLoop, is_armed, is_vacant, decrement,
  is_none, value_or, valid, wake,
}
use libsimplenet.EventLoop.Interest.{Refreshed, refresh_interest}

-- Milliseconds as nanoseconds.
abbrev pub ms : ℕ → ℕ
ms n = n * 1_000_000

-- `timeout.has_value() && timeout.value() <= 0ms`
abbrev pub has_elapsed : Option ℤ → Bool
has_elapsed none = false
has_elapsed (some t) = is_not_positive t

-- `readable ? slot.readable : slot.writable`, read and written.
abbrev pub side : Bool → WaiterSlot → Registration
side readable s = if readable then s.readable else s.writable

abbrev pub with_side : Bool → Registration → WaiterSlot → WaiterSlot
with_side readable r s = if readable then record s { readable = r } else record s { writable = r }

-- The smaller of a deadline and what `next_deadline_` held.
abbrev pub earlier : ℕ → Option ℕ → ℕ
earlier d none = d
earlier d (some n) = if ltb d n then d else n

module _ {W : Type 0} (os : LoopSystem W) where
  -- The deadline branch: reads the clock if there is a timeout.
  unfoldable pub start_timer : Option ℤ → EventLoop W → Option ℕ × EventLoop W
  start_timer none l = (none, l)
  start_timer (some t) l =
      let (now, w) = os.now l.world in
      let deadline = now + ms (pos_part t) in
      (
        some deadline,
        record l {
          timed_waiter_count = l.timed_waiter_count + 1;
          next_deadline = some (earlier deadline l.next_deadline);
          world = w;
        },
      )

  -- The end of `arm_waiter`: what becomes of the new registration when the interest was refreshed.
  unfoldable pub finish_arming : ℤ → Bool → Refreshed W → EventLoop W → Status × EventLoop W
  finish_arming fd readable r l = elim r.status [
    | ok _ ↦ (done, record l { waiters = assign ℤ_discrete fd r.slot l.waiters; world = r.world })
    | err e ↦
        let slot = with_side readable no_registration r.slot in
        let untimed = is_none (side readable r.slot).deadline in
        (
          err e,
          record l {
            waiters =
                if is_vacant slot
                then erase ℤ_discrete fd l.waiters
                else assign ℤ_discrete fd slot l.waiters;
            timed_waiter_count =
                if untimed then l.timed_waiter_count else decrement l.timed_waiter_count;
            pending_waiter_count = decrement l.pending_waiter_count;
            deadline_index_dirty = true;
            world = r.world;
          },
        )
  ]

  -- From `target_registration.handle = handle` on, in the slot that was found or made.
  unfoldable pub install :
      ℤ → ℕ → Bool → Option ℤ → Error → WaiterSlot → EventLoop W → Status × EventLoop W
  unfolding start_timer finish_arming
  install fd handle readable timeout timeout_error slot l =
      let (deadline, l₁) = start_timer timeout l in
      let target : Registration = record {
        handle = handle;
        deadline = deadline;
        timeout_error = timeout_error;
      } in
      let l₂ = record l₁ {
        deadline_index_dirty = true;
        pending_waiter_count = l₁.pending_waiter_count + 1;
      } in
      finish_arming fd readable
        (refresh_interest os.epoll l₂.reactor fd (with_side readable target slot) l₂.world) l₂

  unfoldable pub arm_waiter : ℤ → ℕ → Bool → Option ℤ → Error → EventLoop W → Status × EventLoop W
  unfolding install
  arm_waiter fd handle readable timeout timeout_error l =
      let slot = value_or (find ℤ_discrete fd l.waiters) empty_slot in
      let l' = record l { waiters = try_emplace ℤ_discrete fd empty_slot l.waiters } in
      if not (valid l)
      then (err (value_or l.init_error (from_errno einval)), l)
      else if is_negative fd || handle == 0
      then (err (from_errno ebadf), l)
      else if has_elapsed timeout
      then (done, wake handle (err timeout_error) l)
      else if is_armed (side readable slot)
      then (err (from_errno ebusy), l')
      else install fd handle readable timeout timeout_error slot l'

  unfoldable pub wait_for_readable : ℤ → ℕ → Option ℤ → Error → EventLoop W → Status × EventLoop W
  unfolding arm_waiter
  wait_for_readable fd handle timeout timeout_error =
      arm_waiter fd handle true timeout timeout_error

  unfoldable pub wait_for_writable : ℤ → ℕ → Option ℤ → Error → EventLoop W → Status × EventLoop W
  unfolding arm_waiter
  wait_for_writable fd handle timeout timeout_error =
      arm_waiter fd handle false timeout timeout_error

-- ===== src/EventLoop/Dispatch.antt =====
-- What ends a wait: `process_expired_waiters` by deadline, `process_ready_event` by readiness.
pub mod Steps
pub mod Counters
pub mod Expiry
pub mod Deadlines
pub mod Reference
pub mod Handles
pub mod Readiness
pub mod Notices
pub mod Events
use libsimplenet.Base.{
  ℕ, zero, suc, ℤ, ℤ_discrete, is_negative, ◌==◌, leb, Bool, true, false, not, ◌&&◌, ◌||◌, Option,
  none, some, List, [], ◌∷◌, if◌then◌else◌, ite,
}
use libsimplenet.Base.Table.{find, assign, erase}
use libsimplenet.Core.{ok, err, done}
use libsimplenet.Core.Errno.{eintr}
use libsimplenet.Core.UniqueFd
use libsimplenet.System.{ReadyEvent, LoopSystem}
use libsimplenet.Reactor.{has_event}
use libsimplenet.EventLoop.State.{
  Registration, no_registration, WaiterSlot, EventLoop, is_armed, is_vacant, decrement, is_none,
  wake, fail,
}
use libsimplenet.EventLoop.Interest.{Refreshed, refresh_interest, read_ready_mask, write_ready_mask}
use libsimplenet.EventLoop.Waiters.{earlier}

-- `registration.deadline.has_value() && now >= registration.deadline.value()`
abbrev pub is_due : ℕ → Option ℕ → Bool
is_due now none = false
is_due now (some d) = leb d now

-- A registration that ends now.
abbrev pub is_expired : ℕ → Registration → Bool
is_expired now r = is_armed r && is_due now r.deadline

-- `min(next_deadline, deadline)` for an armed registration with a deadline. The start value
-- `time_point::max()` with `has_next_deadline == false` is `none`.
abbrev pub sooner : Option ℕ → Option ℕ → Option ℕ
sooner next none = next
sooner next (some d) = some (earlier d next)

abbrev pub note_deadline : Registration → Option ℕ → Option ℕ
note_deadline r next = if is_armed r then sooner next r.deadline else next

abbrev pub after_expiry : ℕ → Registration → Registration
after_expiry now r = if is_expired now r then no_registration else r

abbrev pub after_notice : ℕ → ℕ → Registration → Registration
after_notice events mask r = if is_armed r && has_event events mask then no_registration else r

module _ {W : Type 0} where
  -- One of the two `if` blocks of the sweep: the waiter is woken with its timeout error.
  unfoldable pub expire : ℕ → Registration → EventLoop W → EventLoop W
  unfolding wake
  expire now r l =
      let l' = wake r.handle (err r.timeout_error) l in
      if is_expired now r
      then record l' {
        timed_waiter_count = decrement l'.timed_waiter_count;
        pending_waiter_count = decrement l'.pending_waiter_count;
      }
      else l

module _ {W : Type 0} where
  -- One of the two `if` blocks of `process_ready_event`.
  unfoldable pub notify : ℕ → ℕ → Registration → EventLoop W → EventLoop W
  unfolding wake has_event
  notify events mask r l =
      let l' = wake r.handle done l in
      let untimed = is_none r.deadline || l'.timed_waiter_count == 0 in
      if is_armed r && has_event events mask
      then record l' {
        timed_waiter_count =
            if untimed then l'.timed_waiter_count else decrement l'.timed_waiter_count;
        deadline_index_dirty = if untimed then l'.deadline_index_dirty else true;
        pending_waiter_count = decrement l'.pending_waiter_count;
      }
      else l

  -- Nothing can be due: the index is up to date and its first deadline lies ahead.
  abbrev pub is_early : ℕ → EventLoop W → Bool
  is_early now l =
      not l.deadline_index_dirty
      && not (is_none l.next_deadline)
      && not (is_due now l.next_deadline)

-- What a sweep leaves: the loop (its `waiters` field is that of `kept`), the slots kept, the next
-- deadline found, and whether the sweep came to its end.
pub record Sweep (W : Type 0) : Type 0 where
  pub loop : EventLoop W
  pub kept : List (ℤ × WaiterSlot)
  pub next : Option ℕ
  pub finished : Bool

module _ {W : Type 0} (os : LoopSystem W) where
  -- The slot after both of its sides were looked at, and its interest refreshed if one ended.
  unfoldable pub settle_slot : ℕ → ℤ → WaiterSlot → EventLoop W → Refreshed W
  settle_slot now fd s l =
      let s' = record s {
        readable = after_expiry now s.readable;
        writable = after_expiry now s.writable;
      } in
      if is_expired now s.readable || is_expired now s.writable
      then refresh_interest os.epoll l.reactor fd s' l.world
      else record { status = done; slot = s'; world = l.world }

  -- The `for` loop over `waiters_`.
  unfoldable pub sweep : ℕ → List (ℤ × WaiterSlot) → EventLoop W → Option ℕ → Sweep W
  unfolding expire fail
  sweep now [] l next = record { loop = l; kept = []; next = next; finished = true }
  sweep now ((fd, s) ∷ rest) l next =
      let l₁ = expire now s.writable (expire now s.readable l) in
      let r = settle_slot now fd s l₁ in
      let l₂ = record l₁ { world = r.world } in
      elim r.status [
        | err e ↦ record {
          loop = fail e l₂;
          kept = (fd, r.slot) ∷ rest;
          next = next;
          finished = false;
        }
        | ok _ ↦
            let vacant = is_vacant r.slot in
            let next' = note_deadline r.slot.writable (note_deadline r.slot.readable next) in
            let tail = sweep now rest l₂ (if vacant then next else next') in
            record tail { kept = if vacant then tail.kept else (fd, r.slot) ∷ tail.kept }
      ]

  unfoldable pub process_expired_waiters : EventLoop W → EventLoop W
  process_expired_waiters l =
      let (now, w) = os.now l.world in
      let l' = record l { world = w } in
      let s = sweep now l.waiters l' none in
      if l.timed_waiter_count == 0
      then record l { next_deadline = none; deadline_index_dirty = false }
      else if is_early now l
      then l'
      else if s.finished
      then record (s.loop) {
        waiters = s.kept;
        next_deadline = s.next;
        deadline_index_dirty = false;
      }
      else record (s.loop) { waiters = s.kept }

  -- The `read` loop on the eventfd, retried after EINTR. `fuel` bounds the number of reads.
  unfoldable pub drain_counter : ℕ → ℤ → W → W
  drain_counter zero fd w = w
  drain_counter (suc fuel) fd w =
      let out = os.eventfds.read_counter fd w in
      let again = drain_counter fuel fd out.world in
      if is_negative out.value && out.errno == eintr then again else out.world

  unfoldable pub consume_wakeup : ℕ → EventLoop W → EventLoop W
  unfolding drain_counter
  consume_wakeup fuel l =
      if UniqueFd.valid l.wake_fd
      then record l { world = drain_counter fuel l.wake_fd.fd l.world }
      else l

  -- The rest of `process_ready_event`, with the slot found.
  unfoldable pub end_waits : ReadyEvent → WaiterSlot → EventLoop W → EventLoop W
  unfolding notify fail
  end_waits event s l =
      let l₁ =
        notify event.events write_ready_mask s.writable
          (notify event.events read_ready_mask s.readable l) in
      let s' = record s {
        readable = after_notice event.events read_ready_mask s.readable;
        writable = after_notice event.events write_ready_mask s.writable;
      } in
      let r = refresh_interest os.epoll l₁.reactor event.fd s' l₁.world in
      let l₂ = record l₁ {
        waiters = assign ℤ_discrete event.fd r.slot l₁.waiters;
        world = r.world;
      } in
      elim r.status [
        | err e ↦ fail e l₂
        | ok _ ↦
            if is_vacant r.slot
            then record l₂ { waiters = erase ℤ_discrete event.fd l₂.waiters }
            else l₂
      ]

  unfoldable pub process_ready_event : ℕ → ReadyEvent → EventLoop W → EventLoop W
  unfolding end_waits consume_wakeup ℤ_discrete
  process_ready_event fuel event l =
      let slots = find ℤ_discrete event.fd l.waiters in
      let other : EventLoop W = elim slots [ none ↦ l | some s ↦ end_waits event s l ] in
      if UniqueFd.valid l.wake_fd
      then ite (ℤ_discrete event.fd l.wake_fd.fd) (consume_wakeup fuel l) other
      else other

-- ===== src/Uring/Expiry.antt =====
-- `process_expired_waiters` of the loop over io_uring: waiters end by deadline.
pub mod Rounds
pub mod Counters
pub mod Ahead
pub mod Deadlines
use libsimplenet.Base.{
  ℕ, ℤ, ℕ_discrete, ◌==◌, Bool, true, false, not, ◌&&◌, Option, none, List, [], ◌∷◌, if◌then◌else◌,
}
use libsimplenet.Base.Table.{erase}
use libsimplenet.Core.{ok, err}
use libsimplenet.System.{RingSystem}
use libsimplenet.EventLoop.State.{decrement, is_none}
use libsimplenet.EventLoop.Dispatch.{is_due, sooner}
use libsimplenet.Uring.State.{
  Registration, no_registration, WaiterSlot, UringEventLoop, is_armed, is_vacant, wake, fail,
}
use libsimplenet.Uring.Polls.{queue_poll_remove}

-- A registration that ends now.
abbrev pub is_expired : ℕ → Registration → Bool
is_expired now r = is_armed r && is_due now r.deadline

-- `min(next_deadline, deadline)` for an armed registration with a deadline. The start value
-- `time_point::max()` with `has_next_deadline == false` is `none`.
abbrev pub note_deadline : Registration → Option ℕ → Option ℕ
note_deadline r next = if is_armed r then sooner next r.deadline else next

abbrev pub after_expiry : ℕ → Registration → Registration
after_expiry now r = if is_expired now r then no_registration else r

module _ {W : Type 0} where
  abbrev pub has_error : UringEventLoop W → Bool
  has_error l = not (is_none l.loop_error)

  -- Nothing can be due: the index is up to date and its first deadline lies ahead.
  abbrev pub is_early : ℕ → UringEventLoop W → Bool
  is_early now l =
      not l.deadline_index_dirty
      && not (is_none l.next_deadline)
      && not (is_due now l.next_deadline)

  -- The waiter is woken with its timeout error, and counted no longer.
  unfoldable pub wake_expired : Registration → UringEventLoop W → UringEventLoop W
  unfolding wake
  wake_expired r l =
      let l' = wake r.handle (err r.timeout_error) l in
      record l' {
        timed_waiter_count = decrement l'.timed_waiter_count;
        pending_waiter_count = decrement l'.pending_waiter_count;
      }

-- What a sweep leaves: the loop (its `waiters` field is that of `kept`), the slots kept, the next
-- deadline found, and whether the sweep came to its end.
pub record Sweep (W : Type 0) : Type 0 where
  pub loop : UringEventLoop W
  pub kept : List (ℤ × WaiterSlot)
  pub next : Option ℕ
  pub finished : Bool

module _ {W : Type 0} (os : RingSystem W) where
  -- The poll request behind `token` is given up.
  unfoldable pub drop_poll : ℕ → UringEventLoop W → UringEventLoop W
  unfolding queue_poll_remove fail
  drop_poll token l =
      let removed =
        queue_poll_remove os token
          (record l { inflight_polls = erase ℕ_discrete token l.inflight_polls }) in
      if token == 0 then l else elim removed.0 [ ok _ ↦ removed.1 | err e ↦ fail e removed.1 ]

  -- `expire_registration`, without what it does to the registration and to `next_deadline`.
  unfoldable pub expire_registration : ℕ → Registration → UringEventLoop W → UringEventLoop W
  unfolding wake_expired drop_poll
  expire_registration now r l = if is_expired now r then drop_poll r.token (wake_expired r l) else l

  -- The `for` loop over `waiters_`.
  unfoldable pub sweep : ℕ → List (ℤ × WaiterSlot) → UringEventLoop W → Option ℕ → Sweep W
  unfolding expire_registration
  sweep now [] l next = record { loop = l; kept = []; next = next; finished = true }
  sweep now ((fd, s) ∷ rest) l next =
      let l₁ = expire_registration now s.readable l in
      let s₁ = record s { readable = after_expiry now s.readable } in
      let next₁ = note_deadline s₁.readable next in
      let l₂ = expire_registration now s₁.writable l₁ in
      let s₂ = record s₁ { writable = after_expiry now s₁.writable } in
      let next₂ = note_deadline s₂.writable next₁ in
      let tail = sweep now rest l₂ next₂ in
      if has_error l₁
      then record { loop = l₁; kept = (fd, s₁) ∷ rest; next = next₁; finished = false }
      else if has_error l₂
      then record { loop = l₂; kept = (fd, s₂) ∷ rest; next = next₂; finished = false }
      else record tail { kept = if is_vacant s₂ then tail.kept else (fd, s₂) ∷ tail.kept }

  unfoldable pub process_expired_waiters : UringEventLoop W → UringEventLoop W
  unfolding sweep
  process_expired_waiters l =
      let (now, w) = os.now l.world in
      let l' = record l { world = w } in
      let s = sweep now l.waiters l' none in
      if l.timed_waiter_count == 0
      then record l { next_deadline = none; deadline_index_dirty = false }
      else if is_early now l
      then l'
      else if s.finished
      then record (s.loop) {
        waiters = s.kept;
        next_deadline = s.next;
        deadline_index_dirty = false;
      }
      else record (s.loop) { waiters = s.kept }

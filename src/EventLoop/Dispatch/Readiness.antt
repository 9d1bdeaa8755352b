-- ===== src/EventLoop/Dispatch/Readiness.antt =====
-- `process_ready_event`: who is woken, and what becomes of the slot and of the counters.
use libsimplenet.Base.{
  ℕ, ℤ_discrete, ◌+◌, ◌-◌, ◌≤◌, ◌≡◌, refl, ap, ◌&&◌, Bool, false, if_elim, if◌then◌else◌, inl, inr,
  [], ◌∷◌, ◌++◌, arith,
}
use libsimplenet.Base.Table.{assign}
use libsimplenet.Core.{Error, Status, ok, err, done}
use libsimplenet.System.{LoopSystem, ReadyEvent}
use libsimplenet.Reactor.{has_event}
use libsimplenet.EventLoop.State.{
  Registration, WaiterSlot, EventLoop, is_armed, is_vacant, schedule, wake, fail,
}
use libsimplenet.EventLoop.Interest.{Refreshed, refresh_interest, read_ready_mask, write_ready_mask}
use libsimplenet.EventLoop.Interest.Outcome.{refresh_cases}
use libsimplenet.EventLoop.Invariant.{bit, is_timed, pending_of, timed_of}
use libsimplenet.EventLoop.Dispatch.{after_notice, notify, end_waits}
use libsimplenet.EventLoop.Slots.{put_slot}

-- The registration has a waiter and the event is of its kind.
abbrev pub is_served : ℕ → ℕ → Registration → Bool
is_served events mask r = is_armed r && has_event events mask

-- The slot with the waiters that the event serves removed.
abbrev pub slot_after_notice : ℕ → WaiterSlot → WaiterSlot
slot_after_notice events s = record s {
  readable = after_notice events read_ready_mask s.readable;
  writable = after_notice events write_ready_mask s.writable;
}

module _ {W : Type 0} where
  pub notify_counts :
      (events mask : ℕ) (r : Registration) (l : EventLoop W)
      → ((notify events mask r l).pending_waiter_count
          ≡ l.pending_waiter_count - bit (is_served events mask r))
        × ((notify events mask r l).timed_waiter_count
            ≡ l.timed_waiter_count - bit (is_served events mask r && is_timed r))
        × ((notify events mask r l).ready_queue
            ≡ (if is_served events mask r then l.ready_queue ++ r.handle ∷ [] else l.ready_queue))
        × ((notify events mask r l).next_deadline ≡ l.next_deadline)
        × ((notify events mask r l).waiters ≡ l.waiters)
        × ((notify events mask r l).loop_error ≡ l.loop_error)
        × ((notify events mask r l).deadline_index_dirty ≡ false → l.deadline_index_dirty ≡ false)
  unfolding notify wake schedule
  notify_counts events mask r l = ground arith

  -- Both sides, the readable one first.
  abbrev pub notify_both : ℕ → WaiterSlot → EventLoop W → EventLoop W
  notify_both events s l =
      notify events write_ready_mask s.writable (notify events read_ready_mask s.readable l)

module _ {W : Type 0} (os : LoopSystem W) where
  -- The interest of the slot at `fd`, refreshed after the notices.
  abbrev pub refreshed_notice : ReadyEvent → WaiterSlot → EventLoop W → Refreshed W
  refreshed_notice event s l =
      let l' = notify_both event.events s l in
      refresh_interest os.epoll l'.reactor event.fd (slot_after_notice event.events s) l'.world

  abbrev pub after_notices : ReadyEvent → WaiterSlot → EventLoop W → EventLoop W
  after_notices event s l = record (notify_both event.events s l) {
    world = (refreshed_notice event s l).world;
  }

  -- The two ways through the function: the refresh fails, or the slot is put back or dropped.
  pub end_waits_cases :
      (P : EventLoop W → Type 0) (event : ReadyEvent) (s : WaiterSlot) (l : EventLoop W)
      → (let r = refreshed_notice event s l in
          let l' = after_notices event s l in
          ((e : Error)
            → P (fail e (record l' { waiters = assign ℤ_discrete event.fd r.slot l'.waiters })))
          → (r.status ≡ done → P (record l' { waiters = put_slot event.fd r.slot l'.waiters }))
          → P (end_waits os event s l))
  unfolding end_waits
  end_waits_cases P event s l failed settled = by_status (refreshed_notice event s l).status refl
    where
      by_status :
          (x : Status) → (refreshed_notice event s l).status ≡ x → P (end_waits os event s l)
      by_status (err e) q = rw (q, end_waits) (failed e)
      by_status (ok u) q =
          rw (q, end_waits)
            (if_elim P (is_vacant (refreshed_notice event s l).slot) (λ v. rw v at (settled q))
              λ v. rw v at (settled q))

  pub notice_sides :
      (event : ReadyEvent) (s : WaiterSlot) (l : EventLoop W)
      → ((refreshed_notice event s l).slot.readable
          ≡ after_notice event.events read_ready_mask s.readable)
        × ((refreshed_notice event s l).slot.writable
            ≡ after_notice event.events write_ready_mask s.writable)
  notice_sides event s l =
      let l' = notify_both event.events s l in
      elim (refresh_cases os.epoll l'.reactor event.fd (slot_after_notice event.events s)
        l'.world) [
          | inl (_, e) ↦ (ap (λ x. x.readable) e, ap (λ x. x.writable) e)
          | inr (_, _, e) ↦ (ap (λ x. x.readable) e, ap (λ x. x.writable) e)
        ]

  -- One event's counters: what they lose is what the slot loses.
  pub notice_counts :
      (event : ReadyEvent) (s : WaiterSlot) (l : EventLoop W)
      → pending_of s ≤ l.pending_waiter_count
      → timed_of s ≤ l.timed_waiter_count
      → ((notify_both event.events s l).pending_waiter_count + pending_of s
          ≡ l.pending_waiter_count + pending_of (refreshed_notice event s l).slot)
        × ((notify_both event.events s l).timed_waiter_count + timed_of s
            ≡ l.timed_waiter_count + timed_of (refreshed_notice event s l).slot)
        × ((notify_both event.events s l).waiters ≡ l.waiters)
        × ((notify_both event.events s l).next_deadline ≡ l.next_deadline)
        × ((notify_both event.events s l).loop_error ≡ l.loop_error)
        × ((notify_both event.events s l).deadline_index_dirty ≡ false
            → l.deadline_index_dirty ≡ false)
  notice_counts event s l hp ht = ground (
    arith,
    notify_counts event.events read_ready_mask s.readable l,
    notify_counts event.events write_ready_mask s.writable
        (notify event.events read_ready_mask s.readable l),
    notice_sides event s l,
  )

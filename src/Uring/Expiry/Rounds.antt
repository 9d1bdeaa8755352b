-- ===== src/Uring/Expiry/Rounds.antt =====
-- One round of the sweep over `waiters_`: what `expire_registration` does to the counters and the
-- queue, and the rule by which properties of the whole sweep are proved.
use libsimplenet.Base.{
  ℕ, ℤ, ℕ_discrete, ◌-◌, ◌==◌, ◌≡◌, refl, if_elim, true, false, if◌then◌else◌, Option, List, [],
  ◌∷◌, ◌++◌, arith,
}
use libsimplenet.Base.Table.{erase}
use libsimplenet.Core.{ok, err, result_elim}
use libsimplenet.System.{RingSystem}
use libsimplenet.EventLoop.Invariant.{bit}
use libsimplenet.Uring.State.{
  Registration, WaiterSlot, UringEventLoop, is_vacant, schedule, wake, fail,
}
use libsimplenet.Uring.Polls.Frame.{queue_poll_remove_touches}
use libsimplenet.Uring.Expiry.{
  is_expired, after_expiry, note_deadline, has_error, wake_expired, drop_poll, expire_registration,
  Sweep, sweep,
}

module _ {W : Type 0} (os : RingSystem W) where
  -- Giving up a poll request changes no waiter, counter or handle.
  drop_poll_keeps :
      (token : ℕ) (l : UringEventLoop W)
      → ((drop_poll os token l).pending_waiter_count ≡ l.pending_waiter_count)
        × ((drop_poll os token l).timed_waiter_count ≡ l.timed_waiter_count)
        × ((drop_poll os token l).ready_queue ≡ l.ready_queue)
  unfolding drop_poll fail
  drop_poll_keeps token l =
      if_elim keeps (token == 0) (λ _. (refl, refl, refl))
        λ _.
          queue_poll_remove_touches os token
            (record l { inflight_polls = erase ℕ_discrete token l.inflight_polls })
            (λ r. keeps (elim r.0 [ ok _ ↦ r.1 | err e ↦ fail e r.1 ]))
            λ s w b. result_elim keeps s (λ _ _. (refl, refl, refl)) λ e _. (refl, refl, refl)
    where
      keeps : UringEventLoop W → Type 0
      keeps x =
          (x.pending_waiter_count ≡ l.pending_waiter_count)
          × (x.timed_waiter_count ≡ l.timed_waiter_count)
          × (x.ready_queue ≡ l.ready_queue)

  pub expire_counts :
      (now : ℕ) (r : Registration) (l : UringEventLoop W)
      → ((expire_registration os now r l).pending_waiter_count
          ≡ l.pending_waiter_count - bit (is_expired now r))
        × ((expire_registration os now r l).timed_waiter_count
            ≡ l.timed_waiter_count - bit (is_expired now r))
        × ((expire_registration os now r l).ready_queue
            ≡ (if is_expired now r then l.ready_queue ++ r.handle ∷ [] else l.ready_queue))
  unfolding expire_registration wake_expired wake schedule
  expire_counts now r l = ground (arith, drop_poll_keeps r.token (wake_expired r l))

  abbrev pub first_expired : ℕ → WaiterSlot → UringEventLoop W → UringEventLoop W
  first_expired now s l = expire_registration os now s.readable l

  -- Both sides of a slot, the readable one first.
  abbrev pub both_expired : ℕ → WaiterSlot → UringEventLoop W → UringEventLoop W
  both_expired now s l = expire_registration os now s.writable (first_expired now s l)

  abbrev pub slot_half : ℕ → WaiterSlot → WaiterSlot
  slot_half now s = record s { readable = after_expiry now s.readable }

  abbrev pub slot_after : ℕ → WaiterSlot → WaiterSlot
  slot_after now s = record s {
    readable = after_expiry now s.readable;
    writable = after_expiry now s.writable;
  }

  abbrev pub next_after : ℕ → WaiterSlot → Option ℕ → Option ℕ
  next_after now s next =
      note_deadline (slot_after now s).writable (note_deadline (slot_after now s).readable next)

  abbrev pub keep_slot : ℤ → WaiterSlot → Sweep W → Sweep W
  keep_slot fd s t = record t { kept = if is_vacant s then t.kept else (fd, s) ∷ t.kept }

  -- A property of the sweep holds if it holds where the first or the second side fails, and where the
  -- round goes on.
  pub sweep_round :
      (P : Sweep W → Type 0) (now : ℕ) (fd : ℤ) (s : WaiterSlot) (rest : List (ℤ × WaiterSlot))
      (l : UringEventLoop W) (next : Option ℕ)
      → (has_error (first_expired now s l) ≡ true
          → P (record {
            loop = first_expired now s l;
            kept = (fd, slot_half now s) ∷ rest;
            next = note_deadline (slot_half now s).readable next;
            finished = false;
          }))
      → (has_error (both_expired now s l) ≡ true
          → P (record {
            loop = both_expired now s l;
            kept = (fd, slot_after now s) ∷ rest;
            next = next_after now s next;
            finished = false;
          }))
      → P (
          keep_slot fd
            (slot_after now s)
            (sweep os now rest (both_expired now s l) (next_after now s next)))
      → P (sweep os now ((fd, s) ∷ rest) l next)
  unfolding sweep
  sweep_round P now fd s rest l next first second went_on =
      if_elim P (has_error (first_expired now s l)) first
        λ _. if_elim P (has_error (both_expired now s l)) second λ _. went_on

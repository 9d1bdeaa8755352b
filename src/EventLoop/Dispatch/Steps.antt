-- ===== src/EventLoop/Dispatch/Steps.antt =====
-- One round of the sweep over `waiters_`: what `expire` and `settle_slot` do to the counters and to
-- the slot, and the rule by which properties of the whole sweep are proved.
use libsimplenet.Base.{
  ℕ, ℤ, ◌-◌, ◌≡◌, refl, sym, ap, ◌∙◌, inl, inr, ◌||◌, false, if◌then◌else◌, if_elim, Option, List,
  [], ◌∷◌, ◌++◌, arith,
}
use libsimplenet.Core.{Error, ok, err, Status, done}
use libsimplenet.System.{LoopSystem}
use libsimplenet.EventLoop.State.{
  Registration, WaiterSlot, EventLoop, is_vacant, schedule, wake, fail,
}
use libsimplenet.EventLoop.Interest.{Refreshed, desired_mask}
use libsimplenet.EventLoop.Interest.Outcome.{SettlesTo, refresh_cases}
use libsimplenet.EventLoop.Invariant.{bit}
use libsimplenet.EventLoop.Dispatch.{
  is_expired, after_expiry, note_deadline, expire, Sweep, settle_slot, sweep,
}

module _ {W : Type 0} where
  pub expire_counts :
      (now : ℕ) (r : Registration) (l : EventLoop W)
      → ((expire now r l).pending_waiter_count ≡ l.pending_waiter_count - bit (is_expired now r))
        × ((expire now r l).timed_waiter_count ≡ l.timed_waiter_count - bit (is_expired now r))
        × ((expire now r l).reactor ≡ l.reactor)
        × ((expire now r l).loop_error ≡ l.loop_error)
        × ((expire now r l).ready_queue
            ≡ (if is_expired now r then l.ready_queue ++ r.handle ∷ [] else l.ready_queue))
  unfolding expire wake schedule
  expire_counts now r l = ground arith

  -- Both sides of a slot, the readable one first.
  abbrev pub expire_both : ℕ → WaiterSlot → EventLoop W → EventLoop W
  expire_both now s l = expire now s.writable (expire now s.readable l)

abbrev pub slot_after_expiry : ℕ → WaiterSlot → WaiterSlot
slot_after_expiry now s = record s {
  readable = after_expiry now s.readable;
  writable = after_expiry now s.writable;
}

module _ {W : Type 0} (os : LoopSystem W) where
  pub settle_slot_cases :
      (now : ℕ) (fd : ℤ) (s : WaiterSlot) (l : EventLoop W)
      → s.registered_mask ≡ desired_mask s
      → SettlesTo
          (slot_after_expiry now s)
          (desired_mask (slot_after_expiry now s))
          (settle_slot os now fd s l)
  unfolding settle_slot
  settle_slot_cases now fd s l e =
      if_elim (SettlesTo s' (desired_mask s'))
        (is_expired now s.readable || is_expired now s.writable)
        (λ _. refresh_cases os.epoll l.reactor fd s' l.world)
        λ unchanged. inl (
          refl,
          ap (λ m. record s' { registered_mask = m }) (e ∙ ap desired_mask (sym (stays unchanged))),
        )
    where
      s' : WaiterSlot
      s' = slot_after_expiry now s

      stays : (is_expired now s.readable || is_expired now s.writable) ≡ false → s' ≡ s
      stays unchanged = ground arith

  -- The sides of the slot that a round leaves.
  pub settle_slot_sides :
      (now : ℕ) (fd : ℤ) (s : WaiterSlot) (l : EventLoop W)
      → ((settle_slot os now fd s l).slot.readable ≡ after_expiry now s.readable)
        × ((settle_slot os now fd s l).slot.writable ≡ after_expiry now s.writable)
  unfolding settle_slot
  settle_slot_sides now fd s l =
      if_elim sides (is_expired now s.readable || is_expired now s.writable)
        (λ _. elim (refresh_cases os.epoll l.reactor fd (slot_after_expiry now s) l.world) [
          | inl (_, e) ↦ (ap (λ x. x.readable) e, ap (λ x. x.writable) e)
          | inr (_, _, e) ↦ (ap (λ x. x.readable) e, ap (λ x. x.writable) e)
        ])
        λ _. (refl, refl)
    where
      sides : Refreshed W → Type 0
      sides r =
          (r.slot.readable ≡ after_expiry now s.readable)
          × (r.slot.writable ≡ after_expiry now s.writable)

  -- The loop after a round that went well.
  abbrev pub after_round : ℕ → ℤ → WaiterSlot → EventLoop W → EventLoop W
  after_round now fd s l =
      let l₁ = expire_both now s l in record l₁ { world = (settle_slot os now fd s l₁).world }

  -- The slot after a round.
  abbrev pub slot_after : ℕ → ℤ → WaiterSlot → EventLoop W → WaiterSlot
  slot_after now fd s l = (settle_slot os now fd s (expire_both now s l)).slot

  abbrev pub keep_slot : ℤ → WaiterSlot → Sweep W → Sweep W
  keep_slot fd s t = record t { kept = if is_vacant s then t.kept else (fd, s) ∷ t.kept }

  abbrev pub next_after : WaiterSlot → Option ℕ → Option ℕ
  next_after s next =
      if is_vacant s then next else note_deadline s.writable (note_deadline s.readable next)

  -- A property of the sweep holds if it holds where the round fails, with the error that says so, and
  -- where it goes on.
  pub sweep_branches :
      (P : Sweep W → Type 0) (now : ℕ) (fd : ℤ) (s : WaiterSlot) (rest : List (ℤ × WaiterSlot))
      (l : EventLoop W) (next : Option ℕ)
      → ((e : Error)
          → (settle_slot os now fd s (expire_both now s l)).status ≡ err e
          → P (record {
            loop = fail e (after_round now fd s l);
            kept = (fd, slot_after now fd s l) ∷ rest;
            next = next;
            finished = false;
          }))
      → ((settle_slot os now fd s (expire_both now s l)).status ≡ done
          → P (
              keep_slot fd (slot_after now fd s l) (
                sweep os now rest
                  (after_round now fd s l)
                  (next_after (slot_after now fd s l) next))))
      → P (sweep os now ((fd, s) ∷ rest) l next)
  unfolding sweep
  sweep_branches P now fd s rest l next failed went_on =
      by_status (settle_slot os now fd s (expire_both now s l)).status refl
    where
      by_status :
          (x : Status)
          → (settle_slot os now fd s (expire_both now s l)).status ≡ x
          → P (sweep os now ((fd, s) ∷ rest) l next)
      by_status (ok u) q = rw (q, sweep) (went_on q)
      by_status (err e) q = rw (q, sweep) (failed e q)

  -- The same, whatever the error is.
  pub sweep_round :
      (P : Sweep W → Type 0) (now : ℕ) (fd : ℤ) (s : WaiterSlot) (rest : List (ℤ × WaiterSlot))
      (l : EventLoop W) (next : Option ℕ)
      → ((e : Error)
          → P (record {
            loop = fail e (after_round now fd s l);
            kept = (fd, slot_after now fd s l) ∷ rest;
            next = next;
            finished = false;
          }))
      → ((settle_slot os now fd s (expire_both now s l)).status ≡ done
          → P (
              keep_slot fd (slot_after now fd s l) (
                sweep os now rest
                  (after_round now fd s l)
                  (next_after (slot_after now fd s l) next))))
      → P (sweep os now ((fd, s) ∷ rest) l next)
  sweep_round P now fd s rest l next failed went_on =
      sweep_branches P now fd s rest l next (λ e _. failed e) went_on

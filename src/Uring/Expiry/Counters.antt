-- ===== src/Uring/Expiry/Counters.antt =====
-- The sweep over expired waiters keeps the counters in step with the waiters and loses no handle, on
-- every path.
use libsimplenet.Base.{ℕ, ℤ, ◌+◌, ◌<◌, ◌≤◌, ◌≡◌, Option, List, [], ◌∷◌, arith}
use libsimplenet.Base.Weights.{sum_values}
use libsimplenet.System.{RingSystem}
use libsimplenet.EventLoop.Invariant.{queued}
use libsimplenet.EventLoop.Dispatch.Handles.{queued-append}
use libsimplenet.Uring.State.{WaiterSlot, UringEventLoop}
use libsimplenet.Uring.Invariant.{pending_of, timed_of, waits_of}
use libsimplenet.Uring.Expiry.{sweep}
use libsimplenet.Uring.Expiry.Rounds.{
  expire_counts, first_expired, both_expired, slot_half, slot_after, next_after, sweep_round,
}

module _ {W : Type 0} (os : RingSystem W) where
  -- The counters against a slot, at both points of a round.
  round_counts :
      (now : ℕ) (s : WaiterSlot) (l : UringEventLoop W)
      → pending_of s ≤ l.pending_waiter_count
      → timed_of s ≤ l.timed_waiter_count
      → (((first_expired os now s l).pending_waiter_count + pending_of s
            ≡ l.pending_waiter_count + pending_of (slot_half os now s))
          × ((first_expired os now s l).timed_waiter_count + timed_of s
              ≡ l.timed_waiter_count + timed_of (slot_half os now s)))
        × (((both_expired os now s l).pending_waiter_count + pending_of s
              ≡ l.pending_waiter_count + pending_of (slot_after os now s))
            × ((both_expired os now s l).timed_waiter_count + timed_of s
                ≡ l.timed_waiter_count + timed_of (slot_after os now s)))
  round_counts now s l hp ht = ground (
    arith,
    expire_counts os now s.readable l,
    expire_counts os now s.writable (first_expired os now s l),
  )

  -- The counters count what was kept, over `c` and `t` for the slots before.
  abbrev Balanced : ℕ → ℕ → UringEventLoop W → List (ℤ × WaiterSlot) → Type 0
  Balanced c t l m =
      (l.pending_waiter_count ≡ c + sum_values pending_of m)
      × (l.timed_waiter_count ≡ t + sum_values timed_of m)

  pub sweep_counts :
      (now : ℕ) (m : List (ℤ × WaiterSlot)) (l : UringEventLoop W) (next : Option ℕ) (c t : ℕ)
      → Balanced c t l m
      → Balanced c t (sweep os now m l next).loop (sweep os now m l next).kept
  sweep_counts now [] l next c t h = unfold sweep in h
  sweep_counts now ((fd, s) ∷ rest) l next c t h =
      let s' = slot_after os now s in
      let counts = round_counts now s l (omega arith) (omega arith) in
      let tail =
        sweep_counts now rest (both_expired os now s l) (next_after os now s next)
          (c + pending_of s') (t + timed_of s') (omega (arith, counts), omega (arith, counts)) in
      sweep_round os (λ x. Balanced c t x.loop x.kept) now fd s rest l next
        (λ _. (omega (arith, counts), omega (arith, counts)))
        (λ _. (omega (arith, counts), omega (arith, counts))) (ground (arith, tail))

  module _ (h : ℕ) (live : 0 < h) where
    round_handles :
        (now : ℕ) (s : WaiterSlot) (l : UringEventLoop W)
        → (queued h (first_expired os now s l).ready_queue + waits_of h (slot_half os now s)
            ≡ queued h l.ready_queue + waits_of h s)
          × (queued h (both_expired os now s l).ready_queue + waits_of h (slot_after os now s)
              ≡ queued h l.ready_queue + waits_of h s)
    round_handles now s l = ground (
      arith,
      expire_counts os now s.readable l,
      expire_counts os now s.writable (first_expired os now s l),
      queued-append h s.readable.handle l.ready_queue,
      queued-append h s.writable.handle (first_expired os now s l).ready_queue,
    )

    pub sweep_handles :
        (now : ℕ) (m : List (ℤ × WaiterSlot)) (l : UringEventLoop W) (next : Option ℕ)
        → queued h (sweep os now m l next).loop.ready_queue
            + sum_values (waits_of h) (sweep os now m l next).kept
          ≡ queued h l.ready_queue + sum_values (waits_of h) m
    sweep_handles now [] l next = unfold sweep in omega arith
    sweep_handles now ((fd, s) ∷ rest) l next =
        let moved = round_handles now s l in
        let tail = sweep_handles now rest (both_expired os now s l) (next_after os now s next) in
        sweep_round os
          (λ x.
            queued h x.loop.ready_queue + sum_values (waits_of h) x.kept
            ≡ queued h l.ready_queue + sum_values (waits_of h) ((fd, s) ∷ rest))
          now fd s rest l next (λ _. omega (arith, moved)) (λ _. omega (arith, moved))
          (ground (arith, tail, moved))

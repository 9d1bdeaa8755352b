-- ===== src/EventLoop/Dispatch/Handles.antt =====
-- The sweep moves handles from the waiters to the ready queue, and neither loses nor copies one.
use libsimplenet.Base.{
  ℕ, ℤ, ◌+◌, ◌<◌, ◌==◌, ◌++◌, ◌≡◌, refl, Option, none, List, [], ◌∷◌, sum_by-append, arith,
}
use libsimplenet.Base.Weights.{sum_values}
use libsimplenet.System.{LoopSystem}
use libsimplenet.EventLoop.State.{WaiterSlot, EventLoop, fail}
use libsimplenet.EventLoop.Invariant.{bit, waits_of, queued, held}
use libsimplenet.EventLoop.Dispatch.{expire, sweep, process_expired_waiters}
use libsimplenet.EventLoop.Dispatch.Steps.{
  expire_counts, expire_both, settle_slot_sides, after_round, slot_after, next_after, sweep_round,
}
use libsimplenet.EventLoop.Dispatch.Deadlines.{process_cases}

pub queued-append : (h x : ℕ) (q : List ℕ) → queued h (q ++ x ∷ []) ≡ queued h q + bit (x == h)
queued-append h x q = omega (arith, sum_by-append (λ y. bit (y == h)) q (x ∷ []))

module _ {W : Type 0} (os : LoopSystem W) (h : ℕ) (live : 0 < h) where
  round_handles :
      (now : ℕ) (fd : ℤ) (s : WaiterSlot) (l : EventLoop W)
      → queued h (after_round os now fd s l).ready_queue + waits_of h (slot_after os now fd s l)
        ≡ queued h l.ready_queue + waits_of h s
  round_handles now fd s l = ground (
    arith,
    expire_counts now s.readable l,
    expire_counts now s.writable (expire now s.readable l),
    settle_slot_sides os now fd s (expire_both now s l),
    queued-append h s.readable.handle l.ready_queue,
    queued-append h s.writable.handle (expire now s.readable l).ready_queue,
  )

  pub sweep_handles :
      (now : ℕ) (m : List (ℤ × WaiterSlot)) (l : EventLoop W) (next : Option ℕ)
      → queued h (sweep os now m l next).loop.ready_queue
          + sum_values (waits_of h) (sweep os now m l next).kept
        ≡ queued h l.ready_queue + sum_values (waits_of h) m
  sweep_handles now [] l next = unfold sweep in refl
  sweep_handles now ((fd, s) ∷ rest) l next =
      let s' = slot_after os now fd s l in
      let l' = after_round os now fd s l in
      let moved = round_handles now fd s l in
      let tail = sweep_handles now rest l' (next_after os s' next) in
      sweep_round os
        (λ x.
          queued h x.loop.ready_queue + sum_values (waits_of h) x.kept
          ≡ queued h l.ready_queue + sum_values (waits_of h) ((fd, s) ∷ rest))
        now fd s rest l next (λ e. unfold fail in omega (arith, moved))
        λ _. ground (arith, tail, moved)

  -- `process_expired_waiters` neither loses nor copies a handle: any but the null handle waits, or is
  -- ready, as often as before.
  pub held-process_expired_waiters :
      (l : EventLoop W) → held h (process_expired_waiters os l) ≡ held h l
  held-process_expired_waiters l =
      let swept =
        sweep_handles (os.now l.world).0 l.waiters (record l { world = (os.now l.world).1 }) none in
      process_cases os (λ x. held h x ≡ held h l) l (λ _. refl) (λ _. refl) (λ _. swept) λ _. swept

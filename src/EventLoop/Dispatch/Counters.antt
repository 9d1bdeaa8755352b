-- ===== src/EventLoop/Dispatch/Counters.antt =====
-- The sweep over expired waiters keeps the counters in step with the waiters, on every path.
use libsimplenet.Base.{ℕ, ℤ, ◌+◌, ◌≤◌, ◌≡◌, Option, List, [], ◌∷◌, arith}
use libsimplenet.Base.Weights.{sum_values}
use libsimplenet.System.{LoopSystem}
use libsimplenet.EventLoop.State.{WaiterSlot, EventLoop, fail}
use libsimplenet.EventLoop.Invariant.{pending_of, timed_of}
use libsimplenet.EventLoop.Dispatch.{expire, sweep}
use libsimplenet.EventLoop.Dispatch.Steps.{
  expire_counts, expire_both, settle_slot_sides, after_round, slot_after, next_after, sweep_round,
}

module _ {W : Type 0} (os : LoopSystem W) where
  round_counts :
      (now : ℕ) (fd : ℤ) (s : WaiterSlot) (l : EventLoop W)
      → pending_of s ≤ l.pending_waiter_count
      → timed_of s ≤ l.timed_waiter_count
      → ((after_round os now fd s l).pending_waiter_count + pending_of s
          ≡ l.pending_waiter_count + pending_of (slot_after os now fd s l))
        × ((after_round os now fd s l).timed_waiter_count + timed_of s
            ≡ l.timed_waiter_count + timed_of (slot_after os now fd s l))
  round_counts now fd s l hp ht = ground (
    arith,
    expire_counts now s.readable l,
    expire_counts now s.writable (expire now s.readable l),
    settle_slot_sides os now fd s (expire_both now s l),
  )

  -- The counters count what was kept, over `c` and `t` for the slots before.
  abbrev Balanced : ℕ → ℕ → EventLoop W → List (ℤ × WaiterSlot) → Type 0
  Balanced c t l m =
      (l.pending_waiter_count ≡ c + sum_values pending_of m)
      × (l.timed_waiter_count ≡ t + sum_values timed_of m)

  pub sweep_counts :
      (now : ℕ) (m : List (ℤ × WaiterSlot)) (l : EventLoop W) (next : Option ℕ) (c t : ℕ)
      → Balanced c t l m
      → Balanced c t (sweep os now m l next).loop (sweep os now m l next).kept
  sweep_counts now [] l next c t h = unfold sweep in h
  sweep_counts now ((fd, s) ∷ rest) l next c t h =
      let s' = slot_after os now fd s l in
      let l' = after_round os now fd s l in
      let counts = round_counts now fd s l (omega arith) (omega arith) in
      let tail =
        sweep_counts now rest l' (next_after os s' next) (c + pending_of s') (t + timed_of s')
          (omega (arith, counts), omega (arith, counts)) in
      sweep_round os (λ x. Balanced c t x.loop x.kept) now fd s rest l next
        (λ e. unfold fail in omega (arith, counts)) λ _. ground (arith, tail)

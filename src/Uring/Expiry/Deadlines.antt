-- ===== src/Uring/Expiry/Deadlines.antt =====
-- `process_expired_waiters` as a whole, its two early returns included.
use libsimplenet.Base.{
  ℕ, ℤ, ◌<◌, ◌≡◌, ◌≢◌, refl, sym, ◌∙◌, ◌==◌, true, false, if_elim, Option, none, List, [], ◌∷◌,
  arith,
}
use libsimplenet.Base.Weights.{AllEntries, sum_values}
use libsimplenet.System.{RingSystem}
use libsimplenet.EventLoop.Dispatch.{is_due}
use libsimplenet.Uring.State.{WaiterSlot, UringEventLoop}
use libsimplenet.Uring.Invariant.{timed_of, IsCovered, IsCounted, IsWellFormed, held}
use libsimplenet.Uring.Expiry.{is_early, sweep, process_expired_waiters}
use libsimplenet.Uring.Expiry.Rounds.{both_expired, next_after, sweep_round}
use libsimplenet.Uring.Expiry.Counters.{sweep_counts, sweep_handles}
use libsimplenet.Uring.Expiry.Ahead.{IsAhead, sweep-IsAhead, sweep-IsCovered, sweep-IsSettled}

-- With no timed waiter there is nothing to cover and nothing is due.
untimed_entries :
    (now : ℕ) (m : List (ℤ × WaiterSlot))
    → sum_values timed_of m ≡ 0
    → AllEntries (λ _ s. IsCovered none s) m × AllEntries (λ _ s. IsAhead now s) m
untimed_entries now [] h = (tt, tt)
untimed_entries now ((fd, s) ∷ m) h = ground (arith, untimed_entries now m)

-- Before the covered deadline nothing is due.
early_entries :
    (now : ℕ) (next : Option ℕ) (m : List (ℤ × WaiterSlot))
    → is_due now next ≡ false
    → next ≢ none
    → AllEntries (λ _ s. IsCovered next s) m
    → AllEntries (λ _ s. IsAhead now s) m
early_entries now next [] h e c = tt
early_entries now next ((fd, s) ∷ m) h e (cs, cm) = ground (arith, early_entries now next m h e cm)

module _ {W : Type 0} (os : RingSystem W) where
  -- A sweep that did not finish has reported an error.
  sweep_unfinished :
      (now : ℕ) (m : List (ℤ × WaiterSlot)) (l : UringEventLoop W) (next : Option ℕ)
      → (sweep os now m l next).loop.loop_error ≡ none
      → (sweep os now m l next).finished ≡ true
  sweep_unfinished now [] l next = unfold sweep in λ _. refl
  sweep_unfinished now ((fd, s) ∷ rest) l next =
      let tail = sweep_unfinished now rest (both_expired os now s l) (next_after os now s next) in
      sweep_round os (λ x. x.loop.loop_error ≡ none → x.finished ≡ true) now fd s rest l next
        (λ q h. ground arith) (λ q h. ground arith) λ h. tail h

  -- The four ways through the function.
  pub process_cases :
      (P : UringEventLoop W → Type 0) (l : UringEventLoop W)
      → (let now = (os.now l.world).0 in
          let l' = record l { world = (os.now l.world).1 } in
          let s = sweep os now l.waiters l' none in
          (l.timed_waiter_count ≡ 0
            → P (record l { next_deadline = none; deadline_index_dirty = false }))
          → (is_early now l ≡ true → P l')
          → (s.finished ≡ true
              → P (record (s.loop) {
                waiters = s.kept;
                next_deadline = s.next;
                deadline_index_dirty = false;
              }))
          → (s.finished ≡ false → P (record (s.loop) { waiters = s.kept }))
          → P (process_expired_waiters os l))
  unfolding process_expired_waiters
  process_cases P l idle early finished failed =
      if_elim P (l.timed_waiter_count == 0) (λ h. idle (ground arith))
        λ _. if_elim P (is_early (os.now l.world).0 l) early λ _.
          if_elim P
            (sweep os (os.now l.world).0 l.waiters (record l { world = (os.now l.world).1 })
              none).finished
            finished failed

  -- If the counters agree with the waiters they do so after `process_expired_waiters`, also when a
  -- poll request could not be removed and the sweep broke off.
  pub ring_expiry-IsCounted :
      (l : UringEventLoop W) → IsCounted l → IsCounted (process_expired_waiters os l)
  ring_expiry-IsCounted l h =
      let now = (os.now l.world).0 in
      let kept =
        sweep_counts os now l.waiters (record l { world = (os.now l.world).1 }) none 0 0
          (omega arith, omega arith) in
      process_cases IsCounted l (λ _. omega arith) (λ _. omega arith) (λ _. omega (arith, kept))
        λ _. omega (arith, kept)

  -- `process_expired_waiters` neither loses nor copies a handle: any but the null handle waits, or is
  -- ready, as often as before, also when a poll request could not be removed.
  pub held-ring_expiry :
      (h : ℕ) → 0 < h → (l : UringEventLoop W) → held h (process_expired_waiters os l) ≡ held h l
  held-ring_expiry h live l =
      let swept =
        sweep_handles os h live (os.now l.world).0 l.waiters
          (record l { world = (os.now l.world).1 }) none in
      process_cases (λ x. held h x ≡ held h l) l (λ _. refl) (λ _. refl) (λ _. swept) λ _. swept

  -- If `process_expired_waiters` ends without a recorded error, a well-formed loop stays well-formed,
  -- and no waiter is left whose deadline has come by the clock's reading.
  pub ring_expiry_lem :
      (l : UringEventLoop W)
      → IsWellFormed l
      → (process_expired_waiters os l).loop_error ≡ none
      → IsWellFormed (process_expired_waiters os l)
        × AllEntries (λ _ s. IsAhead (os.now l.world).0 s) (process_expired_waiters os l).waiters
  ring_expiry_lem l v =
      let now = (os.now l.world).0 in
      let l' = record l { world = (os.now l.world).1 } in
      let swept = sweep os now l.waiters l' none in
      process_cases
        (λ x. x.loop_error ≡ none → IsWellFormed x × AllEntries (λ _ s. IsAhead now s) x.waiters) l
        (λ idle _.
          let free = untimed_entries now l.waiters (sym v.counted.timed ∙ idle) in
          (
            record {
              counted = record { pending = v.counted.pending; timed = v.counted.timed };
              settled = v.settled;
              index = λ _. free.0;
            },
            free.1,
          ))
        (λ early _. (
          record {
            counted = record { pending = v.counted.pending; timed = v.counted.timed };
            settled = v.settled;
            index = v.index;
          },
          early_entries now l.next_deadline l.waiters (ground arith) (ground arith)
              (v.index (ground arith)),
        ))
        (λ finished _.
          let kept = sweep_counts os now l.waiters l' none 0 0 (omega arith, omega arith) in
          (
            record {
              counted = record { pending = omega (arith, kept); timed = omega (arith, kept) };
              settled = sweep-IsSettled os now l.waiters l' none v.settled finished;
              index = λ _. sweep-IsCovered os now l.waiters l' none finished;
            },
            sweep-IsAhead os now l.waiters l' none finished,
          ))
        λ failed h. cc (sweep_unfinished now l.waiters l' none h)

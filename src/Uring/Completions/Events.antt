-- ===== src/Uring/Completions/Events.antt =====
-- `process_completion` as a whole: a completion of the wake-up poll, of a poll that is no longer
-- waited for, or of one that is.
use libsimplenet.Base.{ℕ, ℕ_discrete, ◌<◌, ◌≡◌, refl, inl, inr}
use libsimplenet.Base.Table.{erase}
use libsimplenet.System.{Completion, RingSystem}
use libsimplenet.Uring.State.{UringEventLoop}
use libsimplenet.Uring.Invariant.{IsCounted, IsWellFormed, held}
use libsimplenet.Uring.Completions.{process_completion}
use libsimplenet.Uring.Completions.Endings.{
  end_wait_inflight, end_wait_fields, end_wait-IsCounted, held-end_wait, end_wait_lem,
}
use libsimplenet.Uring.Completions.Awaited.{
  IsIdle-refl, idle-IsCounted, idle-IsWellFormed, WakesItsWaiter, process_completion_cases,
}

module _ {W : Type 0} (os : RingSystem W) where
  -- If the counters agree with the waiters they do so after `process_completion`, whatever completion
  -- came and whether or not the wake-up poll could be requested again.
  pub process_completion-IsCounted :
      (fuel : ℕ) (c : Completion) (l : UringEventLoop W)
      → IsCounted l
      → IsCounted (process_completion os fuel c l)
  process_completion-IsCounted fuel c l h =
      process_completion_cases os IsCounted fuel c l (λ l' _ i. idle-IsCounted l l' i h)
        λ k s a.
          end_wait-IsCounted c.result k s _ a.armed a.slot
            (record { pending = h.pending; timed = h.timed })

  process_completion-IsWellFormed :
      (fuel : ℕ) (c : Completion) (l : UringEventLoop W)
      → IsWellFormed l
      → IsWellFormed (process_completion os fuel c l)
  process_completion-IsWellFormed fuel c l v =
      process_completion_cases os IsWellFormed fuel c l (λ l' _ i. idle-IsWellFormed l l' i v)
        λ k s a.
          end_wait_lem c.result k s _ a.armed a.slot (idle-IsWellFormed l gone (IsIdle-refl l) v)
    where
      gone : UringEventLoop W
      gone = record l { inflight_polls = erase ℕ_discrete c.user_data l.inflight_polls }

  held-process_completion :
      (h : ℕ)
      → 0 < h
      → (fuel : ℕ) (c : Completion) (l : UringEventLoop W)
      → held h (process_completion os fuel c l) ≡ held h l
  held-process_completion h live fuel c l =
      process_completion_cases os (λ x. held h x ≡ held h l) fuel c l (λ l' _ i. rw (i.0, i.3) refl)
        λ k s a. held-end_wait c.result k s _ a.armed a.slot h live

  -- Whatever completion came, and whether or not the wake-up poll could be requested again, a
  -- well-formed loop is well-formed after `process_completion`, and no handle is lost or copied: any
  -- but the null handle waits, or is ready, as often as before.
  pub process_completion_lem :
      (fuel : ℕ) (c : Completion) (l : UringEventLoop W)
      → IsWellFormed l
      → IsWellFormed (process_completion os fuel c l)
        × ((h : ℕ) → 0 < h → held h (process_completion os fuel c l) ≡ held h l)
  process_completion_lem fuel c l v = (
    process_completion-IsWellFormed fuel c l v,
    λ h live. held-process_completion h live fuel c l,
  )

  -- A completion wakes exactly the waiter that it is for. A waiter awaits a completion if the
  -- completion's token is neither 0 nor that of the wake-up poll and is that of a request in flight,
  -- and the side of the descriptor's slot that the request is for is armed under this token. If no
  -- waiter awaits the completion, no wait begins or ends and no result changes. Otherwise the waiter's
  -- handle comes last in the ready queue, its result is success or the errno that the kernel reported,
  -- its side of the slot is cleared, a vacant slot dropped, and the request is no longer in flight.
  pub process_completion_wakes :
      (fuel : ℕ) (c : Completion) (l : UringEventLoop W)
      → WakesItsWaiter c l (process_completion os fuel c l)
  process_completion_wakes fuel c l =
      process_completion_cases os (WakesItsWaiter c l) fuel c l (λ l' nobody i. inl (nobody, i))
        λ k s a.
          let fields = end_wait_fields c.result k s _ a.armed in
          inr (
            k,
            s,
            a,
            record {
              ready = fields.3;
              results = fields.7;
              waiters = fields.0;
              inflight = end_wait_inflight c.result k s _;
            },
          )

-- ===== src/EventLoop/Dispatch/Reference.antt =====
-- The deadline index is an optimisation: `process_expired_waiters` does what a look at every waiter
-- would do.
use libsimplenet.Base.{
  ℕ, ℤ, ◌≡◌, refl, sym, ap, subst, ◌≢◌, ◌∙◌, false, Option, none, List, [], ◌∷◌, arith,
}
use libsimplenet.Base.Weights.{AllEntries}
use libsimplenet.Core.{Error, err, done}
use libsimplenet.System.{LoopSystem}
use libsimplenet.EventLoop.State.{Registration, WaiterSlot, EventLoop}
use libsimplenet.EventLoop.Invariant.{IsSettled, IsWellFormed}
use libsimplenet.EventLoop.Interest.{Refreshed}
use libsimplenet.EventLoop.Dispatch.{
  is_expired, note_deadline, expire, Sweep, settle_slot, sweep, process_expired_waiters,
}
use libsimplenet.EventLoop.Dispatch.Steps.{keep_slot, next_after, sweep_branches}
use libsimplenet.EventLoop.Dispatch.Expiry.{IsAhead}
use libsimplenet.EventLoop.Dispatch.Deadlines.{untimed_entries, early_entries, process_cases}

err-ne-done : {e : Error} → err e ≢ done
err-ne-done h = cc

module _ {W : Type 0} (os : LoopSystem W) where
  -- The reference: the clock is read, and every slot is looked at.
  unfoldable pub expire_all : EventLoop W → EventLoop W
  unfolding sweep
  expire_all l =
      let (now, w) = os.now l.world in
      let s = sweep os now l.waiters (record l { world = w }) none in
      record (s.loop) { waiters = s.kept }

  expire_ahead :
      (now : ℕ) (r : Registration) (l : EventLoop W) → is_expired now r ≡ false → expire now r l ≡ l
  unfolding expire
  expire_ahead now r l h = rw h refl

  settle_ahead :
      (now : ℕ) (fd : ℤ) (s : WaiterSlot) (l : EventLoop W)
      → IsAhead now s
      → settle_slot os now fd s l ≡ record { status = done; slot = s; world = l.world }
  unfolding settle_slot
  settle_ahead now fd s l (hr, hw) = rw (hr, hw) refl

  -- A sweep over slots of which none is due changes nothing.
  sweep_ahead :
      (now : ℕ) (m : List (ℤ × WaiterSlot)) (l : EventLoop W) (next : Option ℕ)
      → AllEntries (λ _ s. IsAhead now s) m
      → AllEntries IsSettled m
      → ((sweep os now m l next).loop ≡ l) × ((sweep os now m l next).kept ≡ m)
  sweep_ahead now [] l next h v = unfold sweep in (refl, refl)
  sweep_ahead now ((fd, s) ∷ rest) l next (hs, hm) (vs, vm) =
      let still =
        expire_ahead now s.writable (expire now s.readable l) hs.1
        ∙ expire_ahead now s.readable l hs.0 in
      let settled = ap (settle_slot os now fd s) still ∙ settle_ahead now fd s l hs in
      let tail =
        sweep_ahead now rest l (note_deadline s.writable (note_deadline s.readable next)) hm vm in
      sweep_branches os IsRest now fd s rest l next
        (λ e q. absurd (err-ne-done (sym q ∙ ap (λ r. r.status) settled)))
        λ _. subst rested (sym still) (
          subst (refreshed l) (sym (settle_ahead now fd s l hs))
            (rw (vs.occupied) (tail.0, ap (λ m. (fd, s) ∷ m) tail.1)))
    where
      IsRest : Sweep W → Type 0
      IsRest x = (x.loop ≡ l) × (x.kept ≡ (fd, s) ∷ rest)

      -- The rest of the round, from the loop and from the refreshed slot that its first part leaves.
      refreshed : EventLoop W → Refreshed W → Type 0
      refreshed l₁ r = IsRest (
          keep_slot os fd r.slot
            (sweep os now rest (record l₁ { world = r.world }) (next_after os r.slot next)))

      rested : EventLoop W → Type 0
      rested l₁ = refreshed l₁ (settle_slot os now fd s l₁)

  -- What the two leave is the same, except for the deadline index.
  pub record IsSame (l l' : EventLoop W) : Type 0 where
    pub waiters : l'.waiters ≡ l.waiters
    pub ready : l'.ready_queue ≡ l.ready_queue
    pub results : l'.wait_results ≡ l.wait_results
    pub pending : l'.pending_waiter_count ≡ l.pending_waiter_count
    pub timed : l'.timed_waiter_count ≡ l.timed_waiter_count
    pub error : l'.loop_error ≡ l.loop_error
    pub stop : l'.stop_requested ≡ l.stop_requested

  ahead-IsSame :
      (l : EventLoop W)
      → AllEntries (λ _ s. IsAhead (os.now l.world).0 s) l.waiters
      → AllEntries IsSettled l.waiters
      → IsSame (expire_all l) l
  unfolding expire_all
  ahead-IsSame l h v =
      let same =
        sweep_ahead (os.now l.world).0 l.waiters (record l { world = (os.now l.world).1 }) none h
          v in
      record {
        waiters = sym same.1;
        ready = ap (λ y. y.ready_queue) (sym same.0);
        results = ap (λ y. y.wait_results) (sym same.0);
        pending = ap (λ y. y.pending_waiter_count) (sym same.0);
        timed = ap (λ y. y.timed_waiter_count) (sym same.0);
        error = ap (λ y. y.loop_error) (sym same.0);
        stop = ap (λ y. y.stop_requested) (sym same.0);
      }

  keep-IsSame :
      (l x y : EventLoop W)
      → IsSame l x
      → y.waiters ≡ x.waiters
      → y.ready_queue ≡ x.ready_queue
      → y.wait_results ≡ x.wait_results
      → y.pending_waiter_count ≡ x.pending_waiter_count
      → y.timed_waiter_count ≡ x.timed_waiter_count
      → y.loop_error ≡ x.loop_error
      → y.stop_requested ≡ x.stop_requested
      → IsSame l y
  keep-IsSame l x y same w r o p t e s = record {
    waiters = w ∙ same.waiters;
    ready = r ∙ same.ready;
    results = o ∙ same.results;
    pending = p ∙ same.pending;
    timed = t ∙ same.timed;
    error = e ∙ same.error;
    stop = s ∙ same.stop;
  }

  expire_all-IsSame : (l : EventLoop W) → IsSame (expire_all l) (expire_all l)
  expire_all-IsSame l = record {
    waiters = refl;
    ready = refl;
    results = refl;
    pending = refl;
    timed = refl;
    error = refl;
    stop = refl;
  }

  -- On a well-formed loop `process_expired_waiters`, which returns early when its counter or its
  -- deadline index says that nothing can be due, leaves the same waiters, counters, ready queue,
  -- stored results, recorded error and stop flag as a sweep over every slot.
  pub process_expired_waiters_reference :
      (l : EventLoop W) → IsWellFormed l → IsSame (expire_all l) (process_expired_waiters os l)
  process_expired_waiters_reference l v =
      process_cases os (IsSame (expire_all l)) l
        (λ idle.
          let free = untimed_entries (os.now l.world).0 l.waiters (sym v.counted.timed ∙ idle) in
          keep-IsSame (expire_all l) l _ (ahead-IsSame l free.1 v.settled) refl refl refl refl refl
            refl refl)
        (λ early.
          let ahead =
            early_entries (os.now l.world).0 l.next_deadline l.waiters (ground arith) (ground arith)
              (v.index (ground arith)) in
          keep-IsSame (expire_all l) l _ (ahead-IsSame l ahead v.settled) refl refl refl refl refl
            refl refl)
        (λ _.
          unfold expire_all in
          keep-IsSame (expire_all l) (expire_all l) _ (expire_all-IsSame l) refl refl refl refl refl
            refl refl)
        λ _.
          unfold expire_all in
          keep-IsSame (expire_all l) (expire_all l) _ (expire_all-IsSame l) refl refl refl refl refl
            refl refl

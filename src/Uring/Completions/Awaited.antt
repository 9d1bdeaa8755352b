-- ===== src/Uring/Completions/Awaited.antt =====
-- Which waiter a completion is for, and the ways through `process_completion`.
use libsimplenet.Base.{
  ℕ, ℤ_discrete, ℕ_discrete, ◌==◌, ◌&&◌, ◌++◌, ◌∷◌, [], ◌≡◌, ◌⊎◌, some-injective, false≢true, false,
  none, subst, refl, sym, ap, ◌∙◌, true, if_elim, some, option_elim, arith,
}
use libsimplenet.Base.Table.{find, assign, erase}
use libsimplenet.Base.Weights.{sum_values}
use libsimplenet.Core.{ok, err, result_elim}
use libsimplenet.Core.UniqueFd
use libsimplenet.System.{Completion, RingSystem}
use libsimplenet.Uring.State.{Registration, WaiterSlot, PollContext, UringEventLoop, is_armed, fail}
use libsimplenet.Uring.Invariant.{keep-IsWellFormed, pending_of, timed_of, IsCounted, IsWellFormed}
use libsimplenet.Uring.Polls.{flush_submissions, read_poll_mask}
use libsimplenet.Uring.Polls.Frame.{touched, flush_touches, queue_poll_add_touches}
use libsimplenet.Uring.Waiters.{side}
use libsimplenet.Uring.Completions.{
  poll_status, end_wait, complete_poll, drain_counter, consume_wakeup, rearm_wakeup,
  process_completion,
}
use libsimplenet.Uring.Completions.Endings.{cleared, put_slot}

module _ {W : Type 0} where
  -- No wait has begun or ended, and no result is there or gone.
  abbrev pub IsIdle : UringEventLoop W → UringEventLoop W → Type 0
  IsIdle l l' =
      (l'.waiters ≡ l.waiters)
      × (l'.pending_waiter_count ≡ l.pending_waiter_count)
      × (l'.timed_waiter_count ≡ l.timed_waiter_count)
      × (l'.ready_queue ≡ l.ready_queue)
      × (l'.wait_results ≡ l.wait_results)
      × (l'.next_deadline ≡ l.next_deadline)
      × (l'.deadline_index_dirty ≡ l.deadline_index_dirty)

  pub IsIdle-refl : (l : UringEventLoop W) → IsIdle l l
  IsIdle-refl l = (refl, refl, refl, refl, refl, refl, refl)

  pub idle-IsCounted : (l l' : UringEventLoop W) → IsIdle l l' → IsCounted l → IsCounted l'
  idle-IsCounted l l' i h = record {
    pending = i.1 ∙ h.pending ∙ ap (sum_values pending_of) (sym i.0);
    timed = i.2 ∙ h.timed ∙ ap (sum_values timed_of) (sym i.0);
  }

  pub idle-IsWellFormed : (l l' : UringEventLoop W) → IsIdle l l' → IsWellFormed l → IsWellFormed l'
  idle-IsWellFormed l l' i v = keep-IsWellFormed i.0 i.1 i.2 i.5 i.6 v

-- The waiter that a completion is for: the token is that of a request in flight, not 0 nor that of
-- the wake-up poll, and the request's side of its slot is armed under this token.
pub record IsAwaited {W : Type 0} (token : ℕ) (c : PollContext) (s : WaiterSlot)
    (l : UringEventLoop W) : Type 0 where
  pub given : (token == 0) ≡ false
  pub ordinary : (token == l.wake_token) ≡ false
  pub inflight : find ℕ_discrete token l.inflight_polls ≡ some c
  pub slot : find ℤ_discrete c.fd l.waiters ≡ some s
  pub armed : is_armed (side c.readable s) ≡ true
  pub own : (side c.readable s).token ≡ token

-- The waiter has been told of the completion, and only it: its handle comes last in the ready queue,
-- with success as its result or the errno that the kernel reported, its side of the slot is cleared,
-- and its request is no longer in flight.
pub record IsServed {W : Type 0} (completion : Completion) (c : PollContext) (s : WaiterSlot)
    (l l' : UringEventLoop W) : Type 0 where
  pub ready : l'.ready_queue ≡ l.ready_queue ++ (side c.readable s).handle ∷ []
  pub results :
      l'.wait_results
      ≡ assign ℕ_discrete (side c.readable s).handle (poll_status completion.result) l.wait_results
  pub waiters : l'.waiters ≡ put_slot c.fd (cleared c.readable s) l.waiters
  pub inflight : l'.inflight_polls ≡ erase ℕ_discrete completion.user_data l.inflight_polls

module _ {W : Type 0} (completion : Completion) (l : UringEventLoop W) where
  abbrev pub IsForNobody : Type 0
  IsForNobody = (c : PollContext) (s : WaiterSlot) → ¬ IsAwaited completion.user_data c s l

  -- Either nobody awaits the completion, and no wait begins or ends, or its waiter is served.
  abbrev pub WakesItsWaiter : UringEventLoop W → Type 0
  WakesItsWaiter l' =
      (IsForNobody × IsIdle l l')
      ⊎ ((c : PollContext) × (s : WaiterSlot) × IsAwaited completion.user_data c s l
          × IsServed completion c s l l')

none≢some : {A : Type 0} {a : A} → ¬ (none ≡ some a)
none≢some h = cc

both :
    (r : Registration) (token : ℕ)
    → is_armed r ≡ true
    → r.token ≡ token
    → (is_armed r && r.token == token) ≡ true
both r token armed own = ground arith

module _ {W : Type 0} (os : RingSystem W) where
  rearm_wakeup-IsIdle : (l : UringEventLoop W) → IsIdle l (rearm_wakeup os l)
  unfolding rearm_wakeup fail
  rearm_wakeup-IsIdle l =
      if_elim (IsIdle l) l.stop_requested (λ _. IsIdle-refl l)
        λ _.
          queue_poll_add_touches os l.wake_token l.wake_fd.fd read_poll_mask l
            (λ r. IsIdle l (elim r.0 [
              | err e ↦ fail e r.1
              | ok _ ↦ elim (flush_submissions os r.1).0 [
                | err e ↦ fail e (flush_submissions os r.1).1
                | ok _ ↦ (flush_submissions os r.1).1
              ]
            ]))
            λ s w b.
              result_elim (IsIdle l) s
                (λ _ _.
                  flush_touches os (touched w b l)
                    (λ r. IsIdle l (elim r.0 [ err e ↦ fail e r.1 | ok _ ↦ r.1 ]))
                    λ t v d. result_elim (IsIdle l) t (λ _ _. IsIdle-refl l) λ e _. IsIdle-refl l)
                λ e _. IsIdle-refl l

  -- The ways through the function: no waiter is concerned, or one wait ends.
  pub process_completion_cases :
      (P : UringEventLoop W → Type 0) (fuel : ℕ) (c : Completion) (l : UringEventLoop W)
      → ((l' : UringEventLoop W) → IsForNobody c l → IsIdle l l' → P l')
      → ((k : PollContext) (s : WaiterSlot)
          → IsAwaited c.user_data k s l
          → P (
              end_wait c.result k s
                (record l { inflight_polls = erase ℕ_discrete c.user_data l.inflight_polls })))
      → P (process_completion os fuel c l)
  unfolding process_completion consume_wakeup complete_poll
  process_completion_cases P fuel c l idle served =
      if_elim P (c.user_data == 0)
        (λ h. idle l (λ k s a. false≢true (sym a.given ∙ h)) (IsIdle-refl l))
        λ given.
          if_elim P (c.user_data == l.wake_token)
            (λ h.
              let nobody : IsForNobody c l = λ k s a. false≢true (sym a.ordinary ∙ h) in
              if_elim (λ x. P (rearm_wakeup os x)) (UniqueFd.valid l.wake_fd)
                (λ _. idle _ nobody (
                  rearm_wakeup-IsIdle
                    (record l { world = drain_counter os fuel l.wake_fd.fd l.world })))
                λ _. idle _ nobody (rearm_wakeup-IsIdle l))
            λ ordinary.
              option_elim P (find ℕ_discrete c.user_data l.inflight_polls)
                (λ e. idle l (λ k s a. none≢some (sym e ∙ a.inflight)) (IsIdle-refl l))
                (known given ordinary)
    where
      gone : UringEventLoop W
      gone = record l { inflight_polls = erase ℕ_discrete c.user_data l.inflight_polls }

      known :
          (c.user_data == 0) ≡ false
          → (c.user_data == l.wake_token) ≡ false
          → (k : PollContext) → find ℕ_discrete c.user_data l.inflight_polls ≡ some k
          → P (complete_poll c.user_data c.result k l)
      known given ordinary k e =
          option_elim P (find ℤ_discrete k.fd l.waiters)
            (λ q. idle gone (λ k' t a. unslotted k' t a q) (IsIdle-refl l))
            λ s q.
              if_elim P (is_armed (side k.readable s) && (side k.readable s).token == c.user_data)
                (λ h. served k s (record {
                  given = given;
                  ordinary = ordinary;
                  inflight = e;
                  slot = q;
                  armed = ground arith;
                  own = ground arith;
                }))
                λ h. idle gone (λ k' t a. given_up s q h k' t a) (IsIdle-refl l)
        where
          same : (k' : PollContext) (t : WaiterSlot) → IsAwaited c.user_data k' t l → k' ≡ k
          same k' t a = some-injective k' k (sym a.inflight ∙ e)

          unslotted :
              (k' : PollContext) (t : WaiterSlot)
              → IsAwaited c.user_data k' t l
              → ¬ (find ℤ_discrete k.fd l.waiters ≡ none)
          unslotted k' t a q =
              none≢some
                (sym q ∙ subst (λ x. find ℤ_discrete x.fd l.waiters ≡ some t) (same k' t a) a.slot)

          given_up :
              (s : WaiterSlot)
              → find ℤ_discrete k.fd l.waiters ≡ some s
              → (is_armed (side k.readable s) && (side k.readable s).token == c.user_data) ≡ false
              → (k' : PollContext) (t : WaiterSlot) → ¬ IsAwaited c.user_data k' t l
          given_up s q h k' t a =
              let own = λ (x : PollContext) (y : WaiterSlot).
                is_armed (side x.readable y) && (side x.readable y).token == c.user_data in
              let held_side : own k' t ≡ true =
                both (side k'.readable t) c.user_data a.armed a.own in
              let slot : t ≡ s = some-injective t s (
                subst (λ x. some t ≡ find ℤ_discrete x.fd l.waiters) (same k' t a) (sym a.slot)
                ∙ q) in
              false≢true (
                sym h
                ∙ subst (λ x. own x s ≡ true) (same k' t a)
                    (subst (λ y. own k' y ≡ true) slot held_side))

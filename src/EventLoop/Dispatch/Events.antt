-- ===== src/EventLoop/Dispatch/Events.antt =====
-- `process_ready_event` as a whole: an event of the wake-up descriptor, of a descriptor without
-- waiters, or of one with waiters.
use libsimplenet.Base.{
  ℕ, ℤ_discrete, ◌<◌, ◌≡◌, ◌≢◌, ◌⊎◌, some-injective, refl, sym, ap, if_elim, none, some, ◌++◌, ◌∙◌,
  Option-cases, if_pos, if_neg, inl, inr,
}
use libsimplenet.Base.Table.{find}
use libsimplenet.Core.UniqueFd
use libsimplenet.System.{LoopSystem, ReadyEvent}
use libsimplenet.EventLoop.State.{WaiterSlot, EventLoop}
use libsimplenet.EventLoop.Invariant.{held, IsCounted, IsWellFormed}
use libsimplenet.EventLoop.Dispatch.{end_waits, consume_wakeup, process_ready_event}
use libsimplenet.EventLoop.Dispatch.Notices.{
  served, end_waits-IsCounted, end_waits_lem, end_waits_queue, held-end_waits,
}

some-ne-none : {A : Type 0} {a : A} → some a ≢ none
some-ne-none e = cc

module _ {W : Type 0} (os : LoopSystem W) where
  -- The three ways through the function.
  process_ready_event_cases :
      (P : EventLoop W → Type 0) (fuel : ℕ) (event : ReadyEvent) (l : EventLoop W)
      → ((w : W)
          → (event.fd ≡ l.wake_fd.fd) ⊎ (find ℤ_discrete event.fd l.waiters ≡ none)
          → P (record l { world = w }))
      → ((s : WaiterSlot)
          → find ℤ_discrete event.fd l.waiters ≡ some s
          → P (end_waits os event s l))
      → P (process_ready_event os fuel event l)
  unfolding process_ready_event
  process_ready_event_cases P fuel event l unserved found =
      if_elim P (UniqueFd.valid l.wake_fd)
        (λ _. elim (ℤ_discrete event.fd l.wake_fd.fd) [
          | yes e ↦ rw (if_pos _ e) (woken e)
          | no e ↦ rw (if_neg _ e) other
        ])
        λ _. other
    where
      woken : event.fd ≡ l.wake_fd.fd → P (consume_wakeup os fuel l)
      woken e =
          if_elim P (UniqueFd.valid l.wake_fd) (λ _. unserved _ (inl e))
            λ _. unserved l.world (inl e)

      other :
          P (elim (find ℤ_discrete event.fd l.waiters) [
            | none ↦ l
            | some s ↦ end_waits os event s l
          ])
      other = elim (Option-cases (find ℤ_discrete event.fd l.waiters)) [
        | inl e ↦ rw e (unserved l.world (inr e))
        | inr (s, e) ↦ rw e (found s e)
      ]

  -- If the counters agree with the waiters they do so after `process_ready_event`, also when the
  -- refresh of the slot failed.
  pub process_ready_event-IsCounted :
      (fuel : ℕ) (event : ReadyEvent) (l : EventLoop W)
      → IsCounted l
      → IsCounted (process_ready_event os fuel event l)
  process_ready_event-IsCounted fuel event l h =
      process_ready_event_cases IsCounted fuel event l
        (λ _ _. record { pending = h.pending; timed = h.timed })
        λ s e. end_waits-IsCounted os event s l e h

  -- If `process_ready_event` ends without a recorded error, a well-formed loop stays well-formed.
  pub process_ready_event_lem :
      (fuel : ℕ) (event : ReadyEvent) (l : EventLoop W)
      → IsWellFormed l
      → (process_ready_event os fuel event l).loop_error ≡ none
      → IsWellFormed (process_ready_event os fuel event l)
  process_ready_event_lem fuel event l v =
      process_ready_event_cases (λ x. x.loop_error ≡ none → IsWellFormed x) fuel event l
        (λ _ _ _. record {
          counted = record { pending = v.counted.pending; timed = v.counted.timed };
          settled = v.settled;
          index = v.index;
        })
        λ s e. end_waits_lem os event s l e v

  -- `process_ready_event` neither loses nor copies a handle: any but the null handle waits, or is
  -- ready, as often as before.
  pub held-process_ready_event :
      (h fuel : ℕ) (event : ReadyEvent) (l : EventLoop W)
      → 0 < h
      → held h (process_ready_event os fuel event l) ≡ held h l
  held-process_ready_event h fuel event l live =
      process_ready_event_cases (λ x. held h x ≡ held h l) fuel event l (λ _ _. refl)
        λ s e. held-end_waits os event s l e h live

  -- An event on a descriptor with waiters, which is not the wake-up descriptor, makes ready those
  -- that it serves, the reader first, and no other handle.
  pub ready_queue-process_ready_event :
      (fuel : ℕ) (event : ReadyEvent) (s : WaiterSlot) (l : EventLoop W)
      → find ℤ_discrete event.fd l.waiters ≡ some s
      → event.fd ≢ l.wake_fd.fd
      → (process_ready_event os fuel event l).ready_queue ≡ l.ready_queue ++ served event.events s
  ready_queue-process_ready_event fuel event s l found apart =
      process_ready_event_cases (λ x. x.ready_queue ≡ l.ready_queue ++ served event.events s) fuel
        event l
        (λ w h. elim h [ inl e ↦ absurd (apart e) | inr e ↦ absurd (some-ne-none (sym found ∙ e)) ])
        λ t e.
          (end_waits_queue os event t l e)
          ∙ ap (λ x. l.ready_queue ++ served event.events x) (some-injective t s (sym e ∙ found))

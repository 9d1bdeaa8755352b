-- ===== src/EventLoop/Dispatch/Notices.antt =====
-- `process_ready_event` on a descriptor with waiters: the loop stays well-formed, and the event's
-- waiters are woken.
use libsimplenet.Base.{
  ℕ, ℤ_discrete, ◌+◌, ◌≤◌, ◌<◌, ◌≡◌, sym, ap, Bool, true, false, if◌then◌else◌, Option, none, some,
  List, [], ◌∷◌, ◌++◌, ◌∙◌, append_assoc, append-nil, inl, inr, arith,
}
use libsimplenet.Base.Table.{find}
use libsimplenet.Base.Weights.{sum_values-assign, weight-le-sum_values, AllEntries-find}
use libsimplenet.System.{LoopSystem, ReadyEvent}
use libsimplenet.EventLoop.State.{Registration, WaiterSlot, EventLoop, fail}
use libsimplenet.EventLoop.Interest.{read_ready_mask, write_ready_mask}
use libsimplenet.EventLoop.Interest.Outcome.{refresh_cases}
use libsimplenet.EventLoop.Invariant.{
  pending_of, timed_of, waits_of, queued, held, is_covered, IsCovered, IsClean, IsSettled,
  IsCounted, IsWellFormed, refreshed-IsSettled,
}
use libsimplenet.EventLoop.Slots.{sum_values-put_slot, AllEntries-put_slot}
use libsimplenet.EventLoop.Dispatch.{after_notice, notify, end_waits}
use libsimplenet.EventLoop.Dispatch.Handles.{queued-append}
use libsimplenet.EventLoop.Dispatch.Readiness.{
  is_served, slot_after_notice, notify_counts, notify_both, refreshed_notice, end_waits_cases,
  notice_sides, notice_counts,
}

after_notice-IsClean :
    (events mask : ℕ) (r : Registration) → IsClean r → IsClean (after_notice events mask r)
after_notice-IsClean events mask r h = ground (arith, h)

after_notice_covered :
    (events mask : ℕ) (r : Registration) (next : Option ℕ)
    → is_covered next r ≡ true
    → is_covered next (after_notice events mask r) ≡ true
after_notice_covered events mask r next h = ground arith

-- The handles that an event serves, in the order in which they become ready.
abbrev pub served : ℕ → WaiterSlot → List ℕ
served events s =
    (if is_served events read_ready_mask s.readable then s.readable.handle ∷ [] else [])
    ++ (if is_served events write_ready_mask s.writable then s.writable.handle ∷ [] else [])

queue_of :
    (b c : Bool) (x y : ℕ) (q : List ℕ) {q' q'' : List ℕ}
    → q' ≡ (if b then q ++ x ∷ [] else q)
    → q'' ≡ (if c then q' ++ y ∷ [] else q')
    → q'' ≡ q ++ ((if b then x ∷ [] else []) ++ (if c then y ∷ [] else []))
queue_of true true x y q e f = f ∙ ap (λ z. z ++ y ∷ []) e ∙ append_assoc q (x ∷ []) (y ∷ [])
queue_of true false x y q e f = f ∙ e
queue_of false true x y q e f = f ∙ ap (λ z. z ++ y ∷ []) e
queue_of false false x y q e f = f ∙ e ∙ sym (append-nil _)

module _ {W : Type 0} (os : LoopSystem W) where
  module _ (event : ReadyEvent) (s : WaiterSlot) (l : EventLoop W)
      (found : find ℤ_discrete event.fd l.waiters ≡ some s) where
    counted_slot :
        IsCounted l → (pending_of s ≤ l.pending_waiter_count) × (timed_of s ≤ l.timed_waiter_count)
    counted_slot h =
        let p = weight-le-sum_values ℤ_discrete pending_of event.fd l.waiters in
        let t = weight-le-sum_values ℤ_discrete timed_of event.fd l.waiters in ground (arith, p, t)

    pub end_waits-IsCounted : IsCounted l → IsCounted (end_waits os event s l)
    end_waits-IsCounted h =
        let bounds = counted_slot h in
        let counts = notice_counts os event s l bounds.0 bounds.1 in
        let s' = (refreshed_notice os event s l).slot in
        let pending = sum_values-put_slot pending_of event.fd s' l.waiters (λ v. ground arith) in
        let timed = sum_values-put_slot timed_of event.fd s' l.waiters (λ v. ground arith) in
        let pending' = sum_values-assign ℤ_discrete pending_of event.fd s' l.waiters in
        let timed' = sum_values-assign ℤ_discrete timed_of event.fd s' l.waiters in
        end_waits_cases os IsCounted event s l
          (λ e.
            unfold fail in
            record {
              pending = ground (arith, counts, pending', h.pending);
              timed = ground (arith, counts, timed');
            })
          λ _. record {
            pending = ground (arith, counts, pending);
            timed = ground (arith, counts, timed);
          }

    pub end_waits_lem :
        IsWellFormed l
        → (end_waits os event s l).loop_error ≡ none
        → IsWellFormed (end_waits os event s l)
    end_waits_lem v =
        let bounds = counted_slot v.counted in
        let counts = notice_counts os event s l bounds.0 bounds.1 in
        let r = refreshed_notice os event s l in
        let sides = notice_sides os event s l in
        let own = AllEntries-find ℤ_discrete IsSettled event.fd l.waiters v.settled found in
        let pending =
          sum_values-put_slot pending_of event.fd r.slot l.waiters (λ x. ground arith) in
        let timed = sum_values-put_slot timed_of event.fd r.slot l.waiters (λ x. ground arith) in
        let l' = notify_both event.events s l in
        let clean =
          λ (x : Registration) (m : ℕ) (h : IsClean x). after_notice-IsClean event.events m x h in
        end_waits_cases os (λ x. x.loop_error ≡ none → IsWellFormed x) event s l
          (λ e. unfold fail in λ h. cc)
          λ status _. record {
            counted = record {
              pending = ground (arith, counts, pending);
              timed = ground (arith, counts, timed);
            };
            settled = rw (counts.2) (
                AllEntries-put_slot IsSettled event.fd r.slot l.waiters
                  (λ occupied.
                    elim (refresh_cases os.epoll l'.reactor event.fd
                      (slot_after_notice event.events s) l'.world) [
                        | inl (_, e) ↦
                            refreshed-IsSettled event.fd (slot_after_notice event.events s) r.slot
                              own.key (clean s.readable read_ready_mask own.clean_readable)
                              (clean s.writable write_ready_mask own.clean_writable) e occupied
                        | inr (x, e, _) ↦ cc
                      ])
                  v.settled);
            index = λ tidy.
                let old = v.index (counts.5 tidy) in
                let mine =
                  AllEntries-find ℤ_discrete (λ _ x. IsCovered l.next_deadline x) event.fd l.waiters
                    old found in
                rw (counts.2, counts.3)
                  (AllEntries-put_slot (λ _ x. IsCovered l.next_deadline x) event.fd r.slot
                    l.waiters
                    (λ _. ground (
                      arith,
                      sides,
                      after_notice_covered event.events read_ready_mask s.readable l.next_deadline
                          mine.0,
                      after_notice_covered event.events write_ready_mask s.writable l.next_deadline
                          mine.1,
                    ))
                    old);
          }

    pub end_waits_queue :
        (end_waits os event s l).ready_queue ≡ l.ready_queue ++ served event.events s
    end_waits_queue =
        let first = notify_counts event.events read_ready_mask s.readable l in
        let second =
          notify_counts event.events write_ready_mask s.writable
            (notify event.events read_ready_mask s.readable l) in
        let queue : (notify_both event.events s l).ready_queue
            ≡ l.ready_queue ++ served event.events s =
          queue_of (is_served event.events read_ready_mask s.readable)
            (is_served event.events write_ready_mask s.writable) s.readable.handle s.writable.handle
            l.ready_queue first.2 second.2 in
        end_waits_cases os (λ x. x.ready_queue ≡ l.ready_queue ++ served event.events s) event s l
          (λ e. unfold fail in queue) λ _. queue

    module _ (h : ℕ) (live : 0 < h) where
      pub held-end_waits : held h (end_waits os event s l) ≡ held h l
      held-end_waits =
          let first = notify_counts event.events read_ready_mask s.readable l in
          let l' = notify event.events read_ready_mask s.readable l in
          let second = notify_counts event.events write_ready_mask s.writable l' in
          let r = refreshed_notice os event s l in
          let moved : queued h (notify_both event.events s l).ready_queue + waits_of h r.slot
              ≡ queued h l.ready_queue + waits_of h s =
            ground (
              arith,
              first,
              second,
              notice_sides os event s l,
              queued-append h s.readable.handle l.ready_queue,
              queued-append h s.writable.handle l'.ready_queue,
            ) in
          let kept : (notify_both event.events s l).waiters ≡ l.waiters = second.4 ∙ first.4 in
          let put =
            sum_values-put_slot (waits_of h) event.fd r.slot l.waiters (λ v. ground arith) in
          let put' = sum_values-assign ℤ_discrete (waits_of h) event.fd r.slot l.waiters in
          end_waits_cases os (λ x. held h x ≡ held h l) event s l
            (λ e. unfold fail in ground (arith, moved, kept, put'))
            λ _. ground (arith, moved, kept, put)

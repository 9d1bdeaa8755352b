-- ===== src/Uring/Completions/Endings.antt =====
-- A completion ends one wait: the counters, the slots and the handles after it.
use libsimplenet.Base.{
  ℕ, ℤ, ℤ_discrete, ℕ_discrete, refl, ◌-◌, ◌≤◌, ◌+◌, ◌<◌, ◌==◌, ◌++◌, ◌∷◌, [], ◌≡◌, true, false,
  Bool, Option, some, List, if_elim, if◌then◌else◌, arith,
}
use libsimplenet.Base.Table.{find, assign, erase}
use libsimplenet.Base.Weights.{
  AllEntries, sum_values, weight, sum_values-assign, sum_values-erase, weight-le-sum_values,
  AllEntries-assign, AllEntries-erase, AllEntries-find,
}
use libsimplenet.EventLoop.State.{decrement}
use libsimplenet.EventLoop.Invariant.{bit}
use libsimplenet.EventLoop.Dispatch.Handles.{queued-append}
use libsimplenet.Uring.State.{
  no_registration, WaiterSlot, PollContext, UringEventLoop, is_armed, is_vacant, wake, schedule,
}
use libsimplenet.Uring.Invariant.{
  is_timed, pending_of, timed_of, waits_of, IsCovered, IsSettled, IsCounted, IsWellFormed, held,
}
use libsimplenet.Uring.Waiters.{side, with_side}
use libsimplenet.Uring.Completions.{poll_status, end_wait}

-- The slot with one side cleared.
abbrev pub cleared : Bool → WaiterSlot → WaiterSlot
cleared readable s = with_side readable no_registration s

-- The table with that slot put back, or dropped when it is vacant.
abbrev pub put_slot : ℤ → WaiterSlot → List (ℤ × WaiterSlot) → List (ℤ × WaiterSlot)
put_slot fd s m = if is_vacant s then erase ℤ_discrete fd m else assign ℤ_discrete fd s m

pub sum_values-put_slot :
    (w : WaiterSlot → ℕ) (fd : ℤ) (s : WaiterSlot) (m : List (ℤ × WaiterSlot))
    → (is_vacant s ≡ true → w s ≡ 0)
    → sum_values w (put_slot fd s m) + weight w (find ℤ_discrete fd m) ≡ w s + sum_values w m
sum_values-put_slot w fd s m h =
    if_elim (λ x. sum_values w x + weight w (find ℤ_discrete fd m) ≡ w s + sum_values w m)
      (is_vacant s) (λ v. omega (arith, sum_values-erase ℤ_discrete w fd m, h v))
      λ _. sum_values-assign ℤ_discrete w fd s m

pub AllEntries-put_slot :
    (P : ℤ → WaiterSlot → Type 0) (fd : ℤ) (s : WaiterSlot) (m : List (ℤ × WaiterSlot))
    → (is_vacant s ≡ false → P fd s)
    → AllEntries P m
    → AllEntries P (put_slot fd s m)
AllEntries-put_slot P fd s m h all =
    if_elim (AllEntries P) (is_vacant s) (λ _. AllEntries-erase ℤ_discrete P fd m all)
      λ v. AllEntries-assign ℤ_discrete P fd s m (h v) all

-- Clearing an armed side, measured.
cleared_counts :
    (b : Bool) (s : WaiterSlot)
    → is_armed (side b s) ≡ true
    → (pending_of (cleared b s) + 1 ≡ pending_of s)
      × (timed_of (cleared b s) + bit (is_timed (side b s)) ≡ timed_of s)
      × (is_vacant (cleared b s) ≡ true → pending_of (cleared b s) ≡ 0)
      × (is_vacant (cleared b s) ≡ true → timed_of (cleared b s) ≡ 0)
cleared_counts true s h = ground arith
cleared_counts false s h = ground arith

cleared_handles :
    (h : ℕ)
    → 0 < h
    → (b : Bool) (s : WaiterSlot)
    → (waits_of h (cleared b s) + bit ((side b s).handle == h) ≡ waits_of h s)
      × (is_vacant (cleared b s) ≡ true → waits_of h (cleared b s) ≡ 0)
cleared_handles h live true s = ground arith
cleared_handles h live false s = ground arith

cleared-IsSettled :
    (fd : ℤ) (b : Bool) (s : WaiterSlot)
    → IsSettled fd s
    → is_vacant (cleared b s) ≡ false
    → IsSettled fd (cleared b s)
cleared-IsSettled fd true s h v = record {
  key = h.key;
  occupied = v;
  clean_readable = λ _. refl;
  clean_writable = h.clean_writable;
}
cleared-IsSettled fd false s h v = record {
  key = h.key;
  occupied = v;
  clean_readable = h.clean_readable;
  clean_writable = λ _. refl;
}

cleared-IsCovered :
    (next : Option ℕ) (b : Bool) (s : WaiterSlot) → IsCovered next s → IsCovered next (cleared b s)
cleared-IsCovered next true s h = (refl, h.1)
cleared-IsCovered next false s h = (h.0, refl)

pub end_wait_inflight :
    {W : Type 0} (r : ℤ) (c : PollContext) (s : WaiterSlot) (l : UringEventLoop W)
    → (end_wait r c s l).inflight_polls ≡ l.inflight_polls
unfolding end_wait wake schedule
end_wait_inflight r c s l = ground arith

module _ {W : Type 0} (r : ℤ) (c : PollContext) (s : WaiterSlot) (l : UringEventLoop W)
    (armed : is_armed (side c.readable s) ≡ true) where
  -- What ending a wait does to the fields.
  pub end_wait_fields :
      ((end_wait r c s l).waiters ≡ put_slot c.fd (cleared c.readable s) l.waiters)
      × ((end_wait r c s l).pending_waiter_count ≡ decrement l.pending_waiter_count)
      × ((end_wait r c s l).timed_waiter_count
          ≡ l.timed_waiter_count - bit (is_timed (side c.readable s)))
      × ((end_wait r c s l).ready_queue ≡ l.ready_queue ++ (side c.readable s).handle ∷ [])
      × ((end_wait r c s l).next_deadline ≡ l.next_deadline)
      × ((end_wait r c s l).loop_error ≡ l.loop_error)
      × ((end_wait r c s l).deadline_index_dirty ≡ false → l.deadline_index_dirty ≡ false)
      × ((end_wait r c s l).wait_results
          ≡ assign ℕ_discrete (side c.readable s).handle (poll_status r) l.wait_results)
  unfolding end_wait wake schedule
  end_wait_fields = ground arith

  module _ (found : find ℤ_discrete c.fd l.waiters ≡ some s) where
    -- How a sum over the slots changes.
    sum_ended :
        (w : WaiterSlot → ℕ)
        → (is_vacant (cleared c.readable s) ≡ true → w (cleared c.readable s) ≡ 0)
        → sum_values w (end_wait r c s l).waiters + w s
          ≡ w (cleared c.readable s) + sum_values w l.waiters
    sum_ended w h =
        rw end_wait_fields.0
          (rw found at (sum_values-put_slot w c.fd (cleared c.readable s) l.waiters h))

    weight_found : (w : WaiterSlot → ℕ) → w s ≤ sum_values w l.waiters
    weight_found w = rw found at (weight-le-sum_values ℤ_discrete w c.fd l.waiters)

    pub end_wait-IsCounted : IsCounted l → IsCounted (end_wait r c s l)
    end_wait-IsCounted h =
        let counts = cleared_counts c.readable s armed in
        record {
          pending = ground (
            arith,
            end_wait_fields,
            counts,
            h.pending,
            sum_ended pending_of counts.2,
            weight_found pending_of,
          );
          timed = omega (
            arith,
            end_wait_fields,
            counts,
            h.timed,
            sum_ended timed_of counts.3,
            weight_found timed_of,
          );
        }

    pub held-end_wait : (h : ℕ) → 0 < h → held h (end_wait r c s l) ≡ held h l
    held-end_wait h live =
        let moved = cleared_handles h live c.readable s in
        rw (end_wait_fields.3) (
          omega (
            arith,
            moved,
            sum_ended (waits_of h) moved.1,
            queued-append h (side c.readable s).handle l.ready_queue,
          ))

    pub end_wait_lem : IsWellFormed l → IsWellFormed (end_wait r c s l)
    end_wait_lem v =
        let own = AllEntries-find ℤ_discrete IsSettled c.fd l.waiters v.settled found in
        record {
          counted = end_wait-IsCounted v.counted;
          settled = rw end_wait_fields.0 (
              AllEntries-put_slot IsSettled c.fd (cleared c.readable s) l.waiters
                (cleared-IsSettled c.fd c.readable s own) v.settled);
          index = λ tidy.
              let covered = v.index (end_wait_fields.6 tidy) in
              rw (end_wait_fields.0, end_wait_fields.4)
                (AllEntries-put_slot (λ _ x. IsCovered l.next_deadline x) c.fd
                  (cleared c.readable s) l.waiters
                  (λ _. cleared-IsCovered l.next_deadline c.readable s (
                    AllEntries-find ℤ_discrete (λ _ x. IsCovered l.next_deadline x) c.fd l.waiters
                      covered found))
                  covered);
        }

-- ===== src/EventLoop/Invariant.antt =====
-- The well-formedness of an event loop: its counters count, its masks are the desired ones, and its
-- deadline index is no later than any deadline.
use libsimplenet.Base.{
  ℕ, ℤ, ◌+◌, ◌≡◌, refl, sym, ap, ◌∙◌, subst, ◌==◌, leb, is_negative, Bool, true, false, not, ◌&&◌,
  ◌||◌, Option, none, some, List, sum_by,
}
use libsimplenet.Base.Weights.{sum_values, AllEntries}
use libsimplenet.EventLoop.State.{
  Registration, no_registration, WaiterSlot, EventLoop, is_armed, is_vacant, is_none,
}
use libsimplenet.EventLoop.Interest.{desired_mask}

abbrev pub bit : Bool → ℕ
bit true = 1
bit false = 0

-- The armed registration has a deadline.
abbrev pub is_timed : Registration → Bool
is_timed r = is_armed r && not (is_none r.deadline)

abbrev pub pending_of : WaiterSlot → ℕ
pending_of s = bit (is_armed s.readable) + bit (is_armed s.writable)

abbrev pub timed_of : WaiterSlot → ℕ
timed_of s = bit (is_timed s.readable) + bit (is_timed s.writable)

-- How often the handle `h` waits in the slot, and in a queue.
abbrev pub waits_of : ℕ → WaiterSlot → ℕ
waits_of h s = bit (s.readable.handle == h) + bit (s.writable.handle == h)

-- `next` is no later than the deadline, if there is one.
abbrev pub fits : Option ℕ → Option ℕ → Bool
fits next none = true
fits none (some d) = false
fits (some n) (some d) = leb n d

abbrev pub is_covered : Option ℕ → Registration → Bool
is_covered next r = not (is_armed r) || fits next r.deadline

abbrev pub IsCovered : Option ℕ → WaiterSlot → Type 0
IsCovered next s = (is_covered next s.readable ≡ true) × (is_covered next s.writable ≡ true)

-- A registration without a waiter is a default one.
abbrev pub IsClean : Registration → Type 0
IsClean r = is_armed r ≡ false → r ≡ no_registration

-- A slot of `waiters_` between two operations.
pub record IsSettled (fd : ℤ) (s : WaiterSlot) : Type 0 where
  pub key : is_negative fd ≡ false
  pub mask : s.registered_mask ≡ desired_mask s
  pub occupied : is_vacant s ≡ false
  pub clean_readable : IsClean s.readable
  pub clean_writable : IsClean s.writable

module _ {W : Type 0} where
  -- The counters; they hold after a failure too.
  pub record IsCounted (l : EventLoop W) : Type 0 where
    pub pending : l.pending_waiter_count ≡ sum_values pending_of l.waiters
    pub timed : l.timed_waiter_count ≡ sum_values timed_of l.waiters

  pub record IsWellFormed (l : EventLoop W) : Type 0 where
    pub counted : IsCounted l
    pub settled : AllEntries IsSettled l.waiters
    pub index :
        l.deadline_index_dirty ≡ false → AllEntries (λ _ s. IsCovered l.next_deadline s) l.waiters

-- A slot with refreshed interest is settled unless it is vacant.
pub refreshed-IsSettled :
    (fd : ℤ) (s t : WaiterSlot)
    → is_negative fd ≡ false
    → IsClean s.readable
    → IsClean s.writable
    → t ≡ record s { registered_mask = desired_mask s }
    → is_vacant t ≡ false
    → IsSettled fd t
unfolding desired_mask
refreshed-IsSettled fd s t key cr cw e v =
    subst (λ x. is_vacant x ≡ false → IsSettled fd x) (sym e) fresh v
  where
    fresh : is_vacant s ≡ false → IsSettled fd (record s { registered_mask = desired_mask s })
    fresh h = record {
      key = key;
      mask = refl;
      occupied = h;
      clean_readable = cr;
      clean_writable = cw;
    }

-- How often `h` stands in a queue.
abbrev pub queued : ℕ → List ℕ → ℕ
queued h = sum_by (λ x. bit (x == h))

-- All the places where the loop holds the handle `h`: as a waiter, or ready to run.
module _ {W : Type 0} where
  abbrev pub held : ℕ → EventLoop W → ℕ
  held h l = queued h l.ready_queue + sum_values (waits_of h) l.waiters

  -- Only the waiters, their counters and the deadline index matter.
  pub keep-IsWellFormed :
      {l l' : EventLoop W}
      → l'.waiters ≡ l.waiters
      → l'.pending_waiter_count ≡ l.pending_waiter_count
      → l'.timed_waiter_count ≡ l.timed_waiter_count
      → l'.next_deadline ≡ l.next_deadline
      → l'.deadline_index_dirty ≡ l.deadline_index_dirty
      → IsWellFormed l
      → IsWellFormed l'
  keep-IsWellFormed w p t n d v = record {
    counted = record {
      pending = p ∙ v.counted.pending ∙ ap (sum_values pending_of) (sym w);
      timed = t ∙ v.counted.timed ∙ ap (sum_values timed_of) (sym w);
    };
    settled = subst (AllEntries IsSettled) (sym w) v.settled;
    index = λ tidy. rw (w, n) (v.index (sym d ∙ tidy));
  }

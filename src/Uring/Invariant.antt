-- ===== src/Uring/Invariant.antt =====
-- The well-formedness of a loop over io_uring: its counters count, its slots are occupied, and its
-- deadline index is no later than any deadline.
use libsimplenet.Base.{
  ℕ, ℤ, ◌+◌, ◌≡◌, sym, ap, subst, ◌∙◌, ◌==◌, is_negative, Bool, true, false, not, ◌&&◌, ◌||◌,
  Option,
}
use libsimplenet.Base.Weights.{sum_values, AllEntries}
use libsimplenet.EventLoop.State.{is_none}
use libsimplenet.EventLoop.Invariant.{bit, fits, queued}
use libsimplenet.Uring.State.{
  Registration, no_registration, WaiterSlot, UringEventLoop, is_armed, is_vacant,
}

-- The armed registration has a deadline.
abbrev pub is_timed : Registration → Bool
is_timed r = is_armed r && not (is_none r.deadline)

abbrev pub pending_of : WaiterSlot → ℕ
pending_of s = bit (is_armed s.readable) + bit (is_armed s.writable)

abbrev pub timed_of : WaiterSlot → ℕ
timed_of s = bit (is_timed s.readable) + bit (is_timed s.writable)

-- How often the handle `h` waits in the slot.
abbrev pub waits_of : ℕ → WaiterSlot → ℕ
waits_of h s = bit (s.readable.handle == h) + bit (s.writable.handle == h)

abbrev pub is_covered : Option ℕ → Registration → Bool
is_covered next r = not (is_armed r) || fits next r.deadline

abbrev pub IsCovered : Option ℕ → WaiterSlot → Type 0
IsCovered next s = (is_covered next s.readable ≡ true) × (is_covered next s.writable ≡ true)

-- A registration without a waiter is a default one.
abbrev pub IsClean : Registration → Type 0
IsClean r = is_armed r ≡ false → r ≡ no_registration

-- A slot of `waiters_` between two operations.
pub record IsSettled (fd : ℤ) (s : WaiterSlot) : Type 0 where
  pub key : is_negative fd ≡ false
  pub occupied : is_vacant s ≡ false
  pub clean_readable : IsClean s.readable
  pub clean_writable : IsClean s.writable

module _ {W : Type 0} where
  -- The counters; they hold after a failure too.
  pub record IsCounted (l : UringEventLoop W) : Type 0 where
    pub pending : l.pending_waiter_count ≡ sum_values pending_of l.waiters
    pub timed : l.timed_waiter_count ≡ sum_values timed_of l.waiters

  pub record IsWellFormed (l : UringEventLoop W) : Type 0 where
    pub counted : IsCounted l
    pub settled : AllEntries IsSettled l.waiters
    pub index :
        l.deadline_index_dirty ≡ false → AllEntries (λ _ s. IsCovered l.next_deadline s) l.waiters

  -- All the places where the loop holds the handle `h`: as a waiter, or ready to run.
  abbrev pub held : ℕ → UringEventLoop W → ℕ
  held h l = queued h l.ready_queue + sum_values (waits_of h) l.waiters

  -- Only the waiters, their counters and the deadline index matter.
  pub keep-IsWellFormed :
      {l l' : UringEventLoop W}
      → l'.waiters ≡ l.waiters
      → l'.pending_waiter_count ≡ l.pending_waiter_count
      → l'.timed_waiter_count ≡ l.timed_waiter_count
      → l'.next_deadline ≡ l.next_deadline
      → l'.deadline_index_dirty ≡ l.deadline_index_dirty
      → IsWellFormed l
      → IsWellFormed l'
  keep-IsWellFormed w p t n d v = record {
    counted = record {
      pending = p ∙ v.counted.pending ∙ ap (sum_values pending_of) (sym w);
      timed = t ∙ v.counted.timed ∙ ap (sum_values timed_of) (sym w);
    };
    settled = subst (AllEntries IsSettled) (sym w) v.settled;
    index = λ tidy. rw (w, n) (v.index (sym d ∙ tidy));
  }

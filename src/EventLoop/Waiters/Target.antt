-- ===== src/EventLoop/Waiters/Target.antt =====
-- The slot that `arm_waiter` finds or makes.
use libsimplenet.Base.{
  ℤ, ℤ_discrete, is_negative, ◌≡◌, ◌⊎◌, refl, sym, ap, Bool, true, false, none, some, List,
  Option-cases, inl, inr,
}
use libsimplenet.Base.Table.{find}
use libsimplenet.Base.Weights.{AllEntries, AllEntries-find}
use libsimplenet.EventLoop.State.{
  Registration, no_registration, WaiterSlot, empty_slot, is_armed, is_vacant, value_or,
}
use libsimplenet.EventLoop.Invariant.{IsClean, IsSettled}
use libsimplenet.EventLoop.Waiters.{side, with_side}

-- The slot at `fd`, or a new one.
abbrev pub slot_at : ℤ → List (ℤ × WaiterSlot) → WaiterSlot
slot_at fd m = value_or (find ℤ_discrete fd m) empty_slot

-- What makes the slot at hand fit to arm: it is the one of a well-formed table, or a new one.
pub record IsArmable (fd : ℤ) (readable : Bool) (m : List (ℤ × WaiterSlot)) : Type 0 where
  pub key : is_negative fd ≡ false
  pub free : is_armed (side readable (slot_at fd m)) ≡ false
  pub clean_readable : IsClean (slot_at fd m).readable
  pub clean_writable : IsClean (slot_at fd m).writable
  pub found :
      (find ℤ_discrete fd m ≡ none)
      ⊎ (find ℤ_discrete fd m ≡ some (slot_at fd m)) × (is_vacant (slot_at fd m) ≡ false)

pub armable :
    (fd : ℤ) (readable : Bool) (m : List (ℤ × WaiterSlot))
    → is_negative fd ≡ false
    → is_armed (side readable (slot_at fd m)) ≡ false
    → AllEntries IsSettled m
    → IsArmable fd readable m
armable fd readable m key free all = elim (Option-cases (find ℤ_discrete fd m)) [
  | inl e ↦ record {
    key = key;
    free = free;
    clean_readable = rw e λ _. refl;
    clean_writable = rw e λ _. refl;
    found = inl e;
  }
  | inr (s, e) ↦
      let own = AllEntries-find ℤ_discrete IsSettled fd m all e in
      record {
        key = key;
        free = free;
        clean_readable = rw e own.clean_readable;
        clean_writable = rw e own.clean_writable;
        found = inr (rw e refl, rw e own.occupied);
      }
]

-- Arming a free side and clearing it again gives the slot back.
pub with_side_back :
    (readable : Bool) (r : Registration) (s : WaiterSlot)
    → is_armed (side readable s) ≡ false
    → IsClean s.readable
    → IsClean s.writable
    → with_side readable no_registration (with_side readable r s) ≡ s
with_side_back true r s free cr cw = ap (λ x. record s { readable = x }) (sym (cr free))
with_side_back false r s free cr cw = ap (λ x. record s { writable = x }) (sym (cw free))

-- ===== src/Uring/Waiters/Target.antt =====
-- The slot that `arm_waiter` finds or makes, and the tables after a failed and a successful call.
use libsimplenet.Base.{
  ℤ, ℤ_discrete, is_negative, ◌≡◌, ◌⊎◌, refl, sym, ap, Bool, true, false, none, some, List,
  Option-cases, inl, inr, if◌then◌else◌,
}
use libsimplenet.Base.Table.{
  find, assign, erase, try_emplace, assign-try_emplace, erase-try_emplace, erase-assign,
  assign-assign, assign-find, find-try_emplace,
}
use libsimplenet.Base.Weights.{AllEntries, AllEntries-find}
use libsimplenet.EventLoop.State.{value_or}
use libsimplenet.Uring.State.{
  Registration, no_registration, WaiterSlot, empty_slot, is_armed, is_vacant,
}
use libsimplenet.Uring.Invariant.{IsClean, IsSettled}
use libsimplenet.Uring.Waiters.{side, with_side}

-- The slot at `fd`, or a new one.
abbrev pub slot_at : ℤ → List (ℤ × WaiterSlot) → WaiterSlot
slot_at fd m = value_or (find ℤ_discrete fd m) empty_slot

-- What makes the slot at hand fit to arm: it is the one of a well-formed table, or a new one.
pub record IsArmable (fd : ℤ) (readable : Bool) (m : List (ℤ × WaiterSlot)) : Type 0 where
  pub key : is_negative fd ≡ false
  pub free : is_armed (side readable (slot_at fd m)) ≡ false
  pub clean_readable : IsClean (slot_at fd m).readable
  pub clean_writable : IsClean (slot_at fd m).writable
  pub found :
      (find ℤ_discrete fd m ≡ none)
      ⊎ (find ℤ_discrete fd m ≡ some (slot_at fd m)) × (is_vacant (slot_at fd m) ≡ false)

pub armable :
    (fd : ℤ) (readable : Bool) (m : List (ℤ × WaiterSlot))
    → is_negative fd ≡ false
    → is_armed (side readable (slot_at fd m)) ≡ false
    → AllEntries IsSettled m
    → IsArmable fd readable m
armable fd readable m key free all = elim (Option-cases (find ℤ_discrete fd m)) [
  | inl e ↦ record {
    key = key;
    free = free;
    clean_readable = rw e λ _. refl;
    clean_writable = rw e λ _. refl;
    found = inl e;
  }
  | inr (s, e) ↦
      let own = AllEntries-find ℤ_discrete IsSettled fd m all e in
      record {
        key = key;
        free = free;
        clean_readable = rw e own.clean_readable;
        clean_writable = rw e own.clean_writable;
        found = inr (rw e refl, rw e own.occupied);
      }
]

-- Arming a free side and clearing it again gives the slot back.
with_side_back :
    (readable : Bool) (r : Registration) (s : WaiterSlot)
    → is_armed (side readable s) ≡ false
    → IsClean s.readable
    → IsClean s.writable
    → with_side readable no_registration (with_side readable r s) ≡ s
with_side_back true r s free cr cw = ap (λ x. record s { readable = x }) (sym (cr free))
with_side_back false r s free cr cw = ap (λ x. record s { writable = x }) (sym (cw free))

-- The table after a failed call is the table before it.
pub restored :
    (fd : ℤ) (readable : Bool) (m : List (ℤ × WaiterSlot)) (r : Registration)
    → IsArmable fd readable m
    → (let armed = with_side readable r (slot_at fd m) in
        let begun = assign ℤ_discrete fd armed (try_emplace ℤ_discrete fd empty_slot m) in
        (if is_vacant (with_side readable no_registration armed)
          then erase ℤ_discrete fd begun
          else assign ℤ_discrete fd (with_side readable no_registration armed) begun)
        ≡ m)
restored fd readable m r a =
    let back = with_side_back readable r (slot_at fd m) a.free a.clean_readable a.clean_writable in
    elim a.found [
      | inl e ↦ rw (back, e, erase-assign) (erase-try_emplace ℤ_discrete fd empty_slot m e)
      | inr (e, occupied) ↦
          rw (back, occupied, assign-assign, assign-try_emplace)
            (assign-find ℤ_discrete fd (slot_at fd m) m e)
    ]

new_slot_free :
    (fd : ℤ) (readable : Bool) (m : List (ℤ × WaiterSlot))
    → find ℤ_discrete fd m ≡ none
    → ¬ (is_armed (side readable (slot_at fd m)) ≡ true)
new_slot_free fd true m e h = cc (rw e at h)
new_slot_free fd false m e h = cc (rw e at h)

-- An occupied side has its slot in the table already, so that nothing is emplaced.
pub occupied_emplaced :
    (fd : ℤ) (readable : Bool) (m : List (ℤ × WaiterSlot))
    → is_armed (side readable (slot_at fd m)) ≡ true
    → try_emplace ℤ_discrete fd empty_slot m ≡ m
occupied_emplaced fd readable m h = elim (Option-cases (find ℤ_discrete fd m)) [
  | inl e ↦ absurd (new_slot_free fd readable m e h)
  | inr (s, e) ↦ find-try_emplace ℤ_discrete fd empty_slot m e
]

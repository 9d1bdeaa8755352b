-- ===== src/EventLoop/Waiters/Arming.antt =====
-- `arm_waiter` behind its guards, started from the loop before the call: the waiter is installed, or
-- the waiters and the counters are as they were.
use libsimplenet.Base.{
  ℕ, ℤ, ℤ_discrete, ◌+◌, ◌<◌, ◌≡◌, ◌≢◌, refl, sym, ap, ◌∙◌, not, Bool, true, if◌then◌else◌, Option,
  some, List, Option-cases, if_pos, if_neg, inl, inr, arith,
}
use libsimplenet.Base.Table.{
  find, assign, erase, try_emplace, assign-try_emplace, erase-try_emplace, assign-find, find-assign,
}
use libsimplenet.Base.Weights.{sum_values, weight, sum_values-assign, AllEntries-assign}
use libsimplenet.Core.{Error, Status, ok, err, done}
use libsimplenet.System.{LoopSystem}
use libsimplenet.EventLoop.State.{WaiterSlot, empty_slot, EventLoop, is_vacant, is_none}
use libsimplenet.EventLoop.Interest.{desired_mask}
use libsimplenet.EventLoop.Interest.Outcome.{refresh_cases}
use libsimplenet.EventLoop.Invariant.{
  bit, pending_of, timed_of, IsClean, IsSettled, IsCounted, IsWellFormed, refreshed-IsSettled,
}
use libsimplenet.EventLoop.Waiters.{install}
use libsimplenet.EventLoop.Waiters.Target.{slot_at, IsArmable, with_side_back}
use libsimplenet.EventLoop.Waiters.Installing.{
  IsUnchanged, raised, deadline_of, wanted, wanted_slot, refreshed_arm, start_timer_lem,
  install_cases,
}

module _ {W : Type 0} where
  -- `waiters_.try_emplace(fd)`
  abbrev pub emplaced : ℤ → EventLoop W → EventLoop W
  emplaced fd l = record l { waiters = try_emplace ℤ_discrete fd empty_slot l.waiters }

-- The table after a failed call is the table before it.
restored :
    (fd : ℤ) (readable : Bool) (m : List (ℤ × WaiterSlot))
    → IsArmable fd readable m
    → (if is_vacant (slot_at fd m)
        then erase ℤ_discrete fd (try_emplace ℤ_discrete fd empty_slot m)
        else assign ℤ_discrete fd (slot_at fd m) (try_emplace ℤ_discrete fd empty_slot m))
      ≡ m
restored fd readable m a = elim a.found [
  | inl e ↦ rw e (erase-try_emplace ℤ_discrete fd empty_slot m e)
  | inr (e, occupied) ↦
      rw (occupied, assign-try_emplace ℤ_discrete fd (slot_at fd m) empty_slot m)
        (assign-find ℤ_discrete fd (slot_at fd m) m e)
]

err-ne-done : {e : Error} → err e ≢ done
err-ne-done h = cc

-- What the slot weighed before the call.
weight_at :
    (w : WaiterSlot → ℕ) (fd : ℤ) (m : List (ℤ × WaiterSlot))
    → w empty_slot ≡ 0
    → weight w (find ℤ_discrete fd m) ≡ w (slot_at fd m)
weight_at w fd m h = elim (Option-cases (find ℤ_discrete fd m)) [
  | inl e ↦ rw e (sym h)
  | inr (s, e) ↦ rw e refl
]

module _ {W : Type 0} (os : LoopSystem W) (fd : ℤ) (handle : ℕ) (readable : Bool)
    (timeout : Option ℤ) (timeout_error : Error) (l : EventLoop W) where
  abbrev pub slot : WaiterSlot
  slot = slot_at fd l.waiters

  abbrev pub armed : WaiterSlot
  armed = wanted_slot os fd handle readable timeout timeout_error slot (emplaced fd l)

  -- The slot that is stored, and the table that it is stored in.
  abbrev stored : WaiterSlot
  stored = record armed { registered_mask = desired_mask armed }

  -- What a successful call changes.
  pub record IsInstalled (l' : EventLoop W) : Type 0 where
    pub slot :
        find ℤ_discrete fd l'.waiters ≡ some (record armed { registered_mask = desired_mask armed })
    pub others : (j : ℤ) → fd ≢ j → find ℤ_discrete j l'.waiters ≡ find ℤ_discrete j l.waiters
    pub ready : l'.ready_queue ≡ l.ready_queue
    pub results : l'.wait_results ≡ l.wait_results
    pub error : l'.loop_error ≡ l.loop_error
    pub index : l'.deadline_index_dirty ≡ true

  -- The slot that a refresh which went well leaves.
  refreshed_slot :
      (refreshed_arm os fd handle readable timeout timeout_error slot (emplaced fd l)).status ≡ done
      → (refreshed_arm os fd handle readable timeout timeout_error slot (emplaced fd l)).slot
        ≡ record armed { registered_mask = desired_mask armed }
  refreshed_slot q =
      elim (refresh_cases os.epoll (raised os timeout (emplaced fd l)).reactor fd armed
        (raised os timeout (emplaced fd l)).world) [
          | inl (_, e) ↦ e
          | inr (x, e, _) ↦ absurd (err-ne-done (sym e ∙ q))
        ]

  stored_table :
      (refreshed_arm os fd handle readable timeout timeout_error slot (emplaced fd l)).status ≡ done
      → assign ℤ_discrete fd
          (refreshed_arm os fd handle readable timeout timeout_error slot (emplaced fd l)).slot
          (raised os timeout (emplaced fd l)).waiters
        ≡ assign ℤ_discrete fd stored l.waiters
  stored_table q =
      rw (refreshed_slot q, (start_timer_lem os timeout (emplaced fd l)).2)
        (assign-try_emplace ℤ_discrete fd stored empty_slot l.waiters)

  module _ (a : IsArmable fd readable l.waiters) (live : 0 < handle) where
    armed_counts :
        (pending_of armed ≡ pending_of slot + 1)
        × (timed_of armed
            ≡ timed_of slot + bit (not (is_none (deadline_of os timeout (emplaced fd l)))))
    armed_counts = ground (arith, a.free)

    armed-IsClean : IsClean armed.readable × IsClean armed.writable
    armed-IsClean = ground (arith, a.clean_readable, a.clean_writable)

    stored-IsSettled : IsSettled fd stored
    stored-IsSettled =
        refreshed-IsSettled fd armed stored a.key armed-IsClean.0 armed-IsClean.1 refl
          (ground (arith, live))

    counts_of :
        (w : WaiterSlot → ℕ)
        → w empty_slot ≡ 0
        → sum_values w (assign ℤ_discrete fd stored l.waiters) + w slot
          ≡ w stored + sum_values w l.waiters
    counts_of w h =
        rw (weight_at w fd l.waiters h) at (sum_values-assign ℤ_discrete w fd stored l.waiters)

    abbrev pub Outcome : Status × EventLoop W → Type 0
    Outcome (ok _, l') =
        IsInstalled l' × (IsWellFormed l → IsWellFormed l') × (IsCounted l → IsCounted l')
    Outcome (err e, l') = IsUnchanged l l' × (l'.deadline_index_dirty ≡ true)

    pub install_outcome :
        Outcome (install os fd handle readable timeout timeout_error slot (emplaced fd l))
    install_outcome =
        install_cases os fd handle readable timeout timeout_error slot (emplaced fd l) Outcome
          (λ q.
            let timer = start_timer_lem os timeout (emplaced fd l) in
            let counted : (h : IsCounted l)
                → ((raised os timeout (emplaced fd l)).pending_waiter_count
                    ≡ sum_values pending_of (assign ℤ_discrete fd stored l.waiters))
                  × ((raised os timeout (emplaced fd l)).timed_waiter_count
                      ≡ sum_values timed_of (assign ℤ_discrete fd stored l.waiters)) =
              λ h. (
                omega (arith, timer, armed_counts, counts_of pending_of refl),
                omega (arith, timer, armed_counts, counts_of timed_of refl),
              ) in
            (
              record {
                slot = rw (stored_table q, find-assign) (if_pos (ℤ_discrete fd fd) refl _ _);
                others = λ j apart.
                    rw (stored_table q, find-assign) (if_neg (ℤ_discrete fd j) apart _ _);
                ready = timer.3;
                results = timer.4;
                error = timer.5;
                index = refl;
              },
              (λ v. record {
                counted = record {
                  pending = rw (stored_table q) (counted v.counted).0;
                  timed = rw (stored_table q) (counted v.counted).1;
                };
                settled = rw (stored_table q) (
                    AllEntries-assign ℤ_discrete IsSettled fd stored l.waiters stored-IsSettled
                      v.settled);
                index = λ h. cc;
              }),
              λ h. record {
                pending = rw (stored_table q) (counted h).0;
                timed = rw (stored_table q) (counted h).1;
              },
            ))
          λ e same.
            let timer = start_timer_lem os timeout (emplaced fd l) in
            (
              record {
                waiters =
                    rw
                      (
                        timer.2,
                        with_side_back readable
                            (wanted os fd handle readable timeout timeout_error slot
                              (emplaced fd l))
                            slot a.free a.clean_readable a.clean_writable,
                      )
                      (restored fd readable l.waiters a);
                pending = ground (arith, timer);
                timed = ground (arith, timer);
                ready = timer.3;
                results = timer.4;
                error = timer.5;
              },
              refl,
            )

    -- The consequences by status.
    outcome-IsWellFormed :
        (r : Status × EventLoop W) → Outcome r → IsWellFormed l → IsWellFormed r.1
    outcome-IsWellFormed (ok _, l') o v = o.1 v
    outcome-IsWellFormed (err e, l') (same, dirty) v = record {
      counted = record {
        pending = same.pending ∙ v.counted.pending ∙ ap (sum_values pending_of) (sym same.waiters);
        timed = same.timed ∙ v.counted.timed ∙ ap (sum_values timed_of) (sym same.waiters);
      };
      settled = rw (same.waiters) v.settled;
      index = λ tidy. cc;
    }

    outcome-IsUnchanged :
        (r : Status × EventLoop W) (e : Error) → Outcome r → r.0 ≡ err e → IsUnchanged l r.1
    outcome-IsUnchanged (ok _, l') e o q = absurd (err-ne-done (sym q))
    outcome-IsUnchanged (err x, l') e o q = o.0

    outcome-IsInstalled : (r : Status × EventLoop W) → Outcome r → r.0 ≡ done → IsInstalled r.1
    outcome-IsInstalled (ok _, l') o q = o.0
    outcome-IsInstalled (err x, l') o q = absurd (err-ne-done q)

    abbrev installed : Status × EventLoop W
    installed = install os fd handle readable timeout timeout_error slot (emplaced fd l)

    pub install-IsWellFormed : IsWellFormed l → IsWellFormed installed.1
    install-IsWellFormed = outcome-IsWellFormed installed install_outcome

    pub install_failure : (e : Error) → installed.0 ≡ err e → IsUnchanged l installed.1
    install_failure e = outcome-IsUnchanged installed e install_outcome

    pub install_success : installed.0 ≡ done → IsInstalled installed.1
    install_success = outcome-IsInstalled installed install_outcome

    pub loop_error-install : installed.1.loop_error ≡ l.loop_error
    loop_error-install = of_status installed install_outcome
      where
        of_status : (r : Status × EventLoop W) → Outcome r → r.1.loop_error ≡ l.loop_error
        of_status (ok _, l') o = o.0.error
        of_status (err e, l') o = o.0.error

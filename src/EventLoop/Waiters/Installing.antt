-- ===== src/EventLoop/Waiters/Installing.antt =====
-- The part of `arm_waiter` behind its guards: the waiter is installed, or nothing has changed.
use libsimplenet.Base.{
  ℕ, ℤ, ℤ_discrete, ◌+◌, ◌≡◌, not, Bool, true, if◌then◌else◌, Option, none, some, inl, inr, arith,
}
use libsimplenet.Base.Table.{assign, erase}
use libsimplenet.Core.{Error, Status, err, done}
use libsimplenet.System.{LoopSystem}
use libsimplenet.EventLoop.State.{
  Registration, no_registration, WaiterSlot, EventLoop, is_vacant, is_none, decrement,
}
use libsimplenet.EventLoop.Interest.{Refreshed, refresh_interest}
use libsimplenet.EventLoop.Interest.Outcome.{refresh_cases}
use libsimplenet.EventLoop.Invariant.{bit}
use libsimplenet.EventLoop.Waiters.{side, with_side, start_timer, finish_arming, install}

-- Nothing that a caller can observe of the waiters has changed.
pub record IsUnchanged {W : Type 0} (l l' : EventLoop W) : Type 0 where
  pub waiters : l'.waiters ≡ l.waiters
  pub pending : l'.pending_waiter_count ≡ l.pending_waiter_count
  pub timed : l'.timed_waiter_count ≡ l.timed_waiter_count
  pub ready : l'.ready_queue ≡ l.ready_queue
  pub results : l'.wait_results ≡ l.wait_results
  pub error : l'.loop_error ≡ l.loop_error

module _ {W : Type 0} (os : LoopSystem W) where
  -- The deadline of a call and the loop with its counters raised.
  abbrev pub deadline_of : Option ℤ → EventLoop W → Option ℕ
  deadline_of timeout l = (start_timer os timeout l).0

  abbrev pub raised : Option ℤ → EventLoop W → EventLoop W
  raised timeout l =
      let l₁ = (start_timer os timeout l).1 in
      record l₁ { deadline_index_dirty = true; pending_waiter_count = l₁.pending_waiter_count + 1 }

  pub start_timer_lem :
      (timeout : Option ℤ) (l : EventLoop W)
      → ((raised timeout l).timed_waiter_count
          ≡ l.timed_waiter_count + bit (not (is_none (deadline_of timeout l))))
        × ((raised timeout l).pending_waiter_count ≡ l.pending_waiter_count + 1)
        × ((raised timeout l).waiters ≡ l.waiters)
        × ((raised timeout l).ready_queue ≡ l.ready_queue)
        × ((raised timeout l).wait_results ≡ l.wait_results)
        × ((raised timeout l).loop_error ≡ l.loop_error)
  unfolding start_timer
  start_timer_lem none l = ground arith
  start_timer_lem (some t) l = ground arith

  module _ (fd : ℤ) (handle : ℕ) (readable : Bool) (timeout : Option ℤ) (timeout_error : Error)
      (s : WaiterSlot) (l : EventLoop W) where
    -- The registration and the slot that are asked for.
    abbrev pub wanted : Registration
    wanted = record {
      handle = handle;
      deadline = deadline_of timeout l;
      timeout_error = timeout_error;
    }

    abbrev pub wanted_slot : WaiterSlot
    wanted_slot = with_side readable wanted s

    abbrev pub refreshed_arm : Refreshed W
    refreshed_arm =
        refresh_interest os.epoll (raised timeout l).reactor fd wanted_slot (raised timeout l).world

    -- The two ways through.
    pub install_cases :
        (P : Status × EventLoop W → Type 0)
        → (refreshed_arm.status ≡ done
            → P (
              done,
              record (raised timeout l) {
                waiters = assign ℤ_discrete fd refreshed_arm.slot (raised timeout l).waiters;
                world = refreshed_arm.world;
              },
            ))
        → ((e : Error)
            → refreshed_arm.slot ≡ wanted_slot
            → P (
              err e,
              record (raised timeout l) {
                waiters =
                    if is_vacant (with_side readable no_registration wanted_slot)
                    then erase ℤ_discrete fd (raised timeout l).waiters
                    else assign ℤ_discrete fd
                        (with_side readable no_registration wanted_slot)
                        (raised timeout l).waiters;
                timed_waiter_count =
                    if is_none (side readable wanted_slot).deadline
                    then (raised timeout l).timed_waiter_count
                    else decrement (raised timeout l).timed_waiter_count;
                pending_waiter_count = decrement (raised timeout l).pending_waiter_count;
                deadline_index_dirty = true;
                world = refreshed_arm.world;
              },
            ))
        → P (install os fd handle readable timeout timeout_error s l)
    unfolding install finish_arming
    install_cases P went_on failed =
        elim (refresh_cases os.epoll (raised timeout l).reactor fd wanted_slot
          (raised timeout l).world) [
            | inl (q, _) ↦ rw (q, finish_arming) (went_on q)
            | inr (e, q, same) ↦ rw (q, same, finish_arming) (failed e same)
          ]

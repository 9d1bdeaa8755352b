-- ===== src/EventLoop/Examples.antt =====
-- The theorems on the event loop at concrete loops: a clock that moves only while `epoll_wait`
-- sleeps, an epoll that accepts every call or refuses every control call, and one coroutine that
-- waits for a descriptor with a timeout.
use libsimplenet.Base.{
  ℕ, zero, suc, ℤ, pos, negsuc, is_negative, pos_part, ◌≤◌, ◌<◌, ◌^◌, ◌+◌, ◌*◌, ◌==◌, leb, ◌≡◌,
  refl, Bool, true, false, Option, none, some, List, [], ◌∷◌, if◌then◌else◌, ℤ_discrete, arith,
}
use libsimplenet.Base.Weights.{AllEntries}
use libsimplenet.Core.{Error, from_errno, Result, err, Status, done, Outcome}
use libsimplenet.Core.Errno.{etimedout, einval}
use libsimplenet.Core.UniqueFd
use libsimplenet.Core.UniqueFd.{UniqueFd}
use libsimplenet.System.{ReadyEvent, EpollCalls, EventFdCalls, LoopSystem}
use libsimplenet.Reactor.{Reactor}
use libsimplenet.EventLoop.State.{WaiterSlot, EventLoop, valid}
use libsimplenet.EventLoop.Interest.{desired_mask, refresh_interest}
use libsimplenet.EventLoop.Invariant.{IsCounted, IsSettled, IsWellFormed, held}
use libsimplenet.EventLoop.Waiters.{arm_waiter, ms}
use libsimplenet.EventLoop.Dispatch.{process_expired_waiters, process_ready_event}
use libsimplenet.EventLoop.Dispatch.Expiry.{IsAhead}
use libsimplenet.EventLoop.Dispatch.Deadlines.{
  process_expired_waiters_lem, process_expired_waiters-IsCounted,
}
use libsimplenet.EventLoop.Dispatch.Reference.{
  expire_all, IsSame, process_expired_waiters_reference,
}
use libsimplenet.EventLoop.Dispatch.Handles.{held-process_expired_waiters}
use libsimplenet.EventLoop.Dispatch.Events.{
  held-process_ready_event, process_ready_event_lem, process_ready_event-IsCounted,
  ready_queue-process_ready_event,
}
use libsimplenet.EventLoop.Waiters.Installing.{IsUnchanged}
use libsimplenet.EventLoop.Waiters.Arming.{IsInstalled}
use libsimplenet.EventLoop.Waiters.Calls.{
  arm_waiter-IsWellFormed, arm_waiter_failure, arm_waiter_success,
}
use libsimplenet.EventLoop.Interest.Outcome.{SettlesTo, refresh_cases}
use libsimplenet.EventLoop.Run.{
  Burst, suspend, works, arms, consumes, completes, stops, Frames, perform, wait_timeout, run,
  run_handle, finish,
}
use libsimplenet.EventLoop.Run.Stopping.{now_stops, epoll_run-Stops}
use libsimplenet.EventLoop.Lifetime.{construct, construct_lem}
use libsimplenet.EventLoop.Run.Sleeping.{wait_timeout_bound}
use libsimplenet.EventLoop.Run.Bursts.{perform_lem}
use libsimplenet.Reactor.{has_event}

record World : Type 0 where
  clock : ℕ
  resumed : ℕ

abbrev answer : ℤ → ℕ → World → Outcome World
answer v e w = record { value = v; errno = e; world = w }

abbrev sleep : ℤ → World → World
sleep (pos t) w = record w { clock = w.clock + t * 1_000_000 }
sleep (negsuc t) w = w

abbrev epoll_with : ℤ → ℕ → EpollCalls World
epoll_with v e = record {
  epoll_create1 = answer (pos 3) 0;
  epoll_ctl = λ _ _ _ _. answer v e;
  epoll_wait = λ _ _ t w. (answer (pos 0) 0 (sleep t w), []);
}

abbrev counters : EventFdCalls World
counters = record {
  eventfd = answer (pos 4) 0;
  read_counter = λ _. answer (pos 8) 0;
  write_counter = λ _ _. answer (pos 8) 0;
}

abbrev willing : LoopSystem World
willing = record { epoll = epoll_with (pos 0) 0; eventfds = counters; now = λ w. (w.clock, w) }

abbrev refusing : LoopSystem World
refusing = record {
  epoll = epoll_with (negsuc 0) einval;
  eventfds = counters;
  now = λ w. (w.clock, w);
}

-- Handle 7 reads descriptor 5 with a deadline, handle 8 writes it without one.
abbrev slot_five : WaiterSlot
slot_five = record {
  readable = record { handle = 7; deadline = some 40; timeout_error = from_errno etimedout };
  writable = record { handle = 8; deadline = none; timeout_error = from_errno etimedout };
  registered_mask = 0x8000_201d;
}

abbrev loop_at : ℕ → List (ℤ × WaiterSlot) → ℕ → ℕ → Bool → EventLoop World
loop_at now slots pending timed dirty = record {
  reactor = record { epoll_fd = record { fd = pos 3 } };
  init_error = none;
  loop_error = none;
  ready_queue = 9 ∷ [];
  waiters = slots;
  wait_results = [];
  root_tasks = [];
  pending_waiter_count = pending;
  timed_waiter_count = timed;
  active_task_count = 1;
  next_deadline = none;
  deadline_index_dirty = dirty;
  stop_requested = false;
  wake_fd = record { fd = pos 4 };
  world = record { clock = now; resumed = 0 };
}

abbrev busy_loop : EventLoop World
busy_loop = loop_at 50 ((pos 5, slot_five) ∷ []) 2 1 true

abbrev fresh_loop : EventLoop World
fresh_loop = loop_at 50 [] 0 0 false

slot_five-IsSettled : IsSettled (pos 5) slot_five
unfolding desired_mask
slot_five-IsSettled = record {
  key = refl;
  mask = refl;
  occupied = refl;
  clean_readable = λ q. cc;
  clean_writable = λ q. cc;
}

busy_loop-IsWellFormed : IsWellFormed busy_loop
busy_loop-IsWellFormed = record {
  counted = record { pending = refl; timed = refl };
  settled = (slot_five-IsSettled, tt);
  index = λ q. cc;
}

fresh_loop-IsWellFormed : IsWellFormed fresh_loop
fresh_loop-IsWellFormed = record {
  counted = record { pending = refl; timed = refl };
  settled = tt;
  index = λ _. tt;
}

-- The clock has passed the deadline of the reader.
process_expired_waiters_lem_example :
    IsWellFormed (process_expired_waiters willing busy_loop)
    × AllEntries (λ _ s. IsAhead 50 s) (process_expired_waiters willing busy_loop).waiters
unfolding process_expired_waiters libsimplenet.EventLoop.Dispatch.sweep
    libsimplenet.EventLoop.Dispatch.settle_slot refresh_interest libsimplenet.Reactor.modify
    libsimplenet.Base.ℕ_discrete
process_expired_waiters_lem_example =
    process_expired_waiters_lem willing busy_loop busy_loop-IsWellFormed refl

process_expired_waiters-IsCounted_example : IsCounted (process_expired_waiters refusing busy_loop)
process_expired_waiters-IsCounted_example =
    process_expired_waiters-IsCounted refusing busy_loop busy_loop-IsWellFormed.counted

held-process_expired_waiters_example :
    held 7 (process_expired_waiters willing busy_loop) ≡ held 7 busy_loop
held-process_expired_waiters_example =
    held-process_expired_waiters willing 7 (omega arith) busy_loop

-- The writer of descriptor 5 is woken, the reader with it, by a hang-up.
abbrev hang_up : ReadyEvent
hang_up = record { fd = pos 5; events = 0x10 }

held-process_ready_event_example :
    held 7 (process_ready_event willing 3 hang_up busy_loop) ≡ held 7 busy_loop
held-process_ready_event_example =
    held-process_ready_event willing 7 3 hang_up busy_loop (omega arith)

process_ready_event_lem_example : IsWellFormed (process_ready_event willing 3 hang_up busy_loop)
unfolding process_ready_event libsimplenet.Core.UniqueFd.valid libsimplenet.Base.ℕ_discrete
    libsimplenet.Base.Table.find refresh_interest libsimplenet.Reactor.remove
process_ready_event_lem_example =
    process_ready_event_lem willing 3 hang_up busy_loop busy_loop-IsWellFormed refl

process_ready_event-IsCounted_example : IsCounted (process_ready_event refusing 3 hang_up busy_loop)
process_ready_event-IsCounted_example =
    process_ready_event-IsCounted refusing 3 hang_up busy_loop busy_loop-IsWellFormed.counted

ready_queue-process_ready_event_example :
    (process_ready_event willing 3 hang_up busy_loop).ready_queue ≡ 9 ∷ 7 ∷ 8 ∷ []
unfolding has_event libsimplenet.Base.Table.find ℤ_discrete libsimplenet.Base.ℕ_discrete
ready_queue-process_ready_event_example =
    ready_queue-process_ready_event willing 3 hang_up slot_five busy_loop refl (λ e. cc)

arm_waiter-IsWellFormed_example :
    IsWellFormed
      (arm_waiter willing (pos 6) 11 true (some (pos 1)) (from_errno etimedout) busy_loop).1
arm_waiter-IsWellFormed_example =
    arm_waiter-IsWellFormed willing (pos 6) 11 true (some (pos 1)) (from_errno etimedout) busy_loop
      busy_loop-IsWellFormed

arm_waiter_failure_example :
    IsUnchanged busy_loop
      (arm_waiter refusing (pos 6) 11 true (some (pos 1)) (from_errno etimedout) busy_loop).1
unfolding arm_waiter valid libsimplenet.Base.Table.find ℤ_discrete libsimplenet.Base.ℕ_discrete
    refresh_interest libsimplenet.Reactor.add
arm_waiter_failure_example =
    arm_waiter_failure refusing (pos 6) 11 true (some (pos 1)) (from_errno etimedout) busy_loop
      (from_errno einval) busy_loop-IsWellFormed refl

arm_waiter_success_example :
    IsInstalled willing
      (pos 6)
      11
      true
      (some (pos 1))
      (from_errno etimedout)
      busy_loop
      (arm_waiter willing (pos 6) 11 true (some (pos 1)) (from_errno etimedout) busy_loop).1
unfolding arm_waiter valid libsimplenet.Base.Table.find ℤ_discrete libsimplenet.Base.ℕ_discrete
    refresh_interest libsimplenet.Reactor.add
arm_waiter_success_example =
    arm_waiter_success willing (pos 6) 11 true (some (pos 1)) (from_errno etimedout) busy_loop
      busy_loop-IsWellFormed refl refl

refresh_cases_example : SettlesTo slot_five 0x8000_201d (
    refresh_interest (epoll_with (pos 0) 0) (busy_loop.reactor) (pos 5) slot_five (busy_loop.world))
unfolding desired_mask
refresh_cases_example =
    refresh_cases (epoll_with (pos 0) 0) (busy_loop.reactor) (pos 5) slot_five (busy_loop.world)

wait_timeout_bound_example :
    (is_negative (wait_timeout 10 (some 40)) ≡ false)
    × (ms (pos_part (wait_timeout 10 (some 40))) ≤ 30)
    × (pos_part (wait_timeout 10 (some 40)) < 2 ^ 31)
wait_timeout_bound_example = wait_timeout_bound 10 40 (some 40) slot_five.readable refl refl refl

-- Frame 7 waits for descriptor 6, at most 2 ms, and completes when it is resumed again.
abbrev burst_of : ℕ → Burst World
burst_of zero =
    works (λ w. record w { resumed = 1 })
      (λ _. arms (pos 6) 7 true (some (pos 2)) (from_errno etimedout) (λ _. suspend))
burst_of (suc n) =
    consumes 7 (λ _. completes (works (λ w. record w { resumed = 2 }) (λ _. suspend)))

abbrev frames : Frames World
frames = record {
  is_done = λ _ w. leb 2 w.resumed;
  destroy = λ _ w. w;
  resume = λ _ w. burst_of w.resumed;
}

abbrev started : EventLoop World
started = record fresh_loop { ready_queue = 7 ∷ []; root_tasks = 7 ∷ [] }

started-IsWellFormed : IsWellFormed started
started-IsWellFormed = record {
  counted = record { pending = refl; timed = refl };
  settled = tt;
  index = λ _. tt;
}

perform_lem_example :
    IsWellFormed (perform willing 3 (burst_of 0) started)
    × ((perform willing 3 (burst_of 0) started).loop_error ≡ none)
perform_lem_example = perform_lem willing 3 (burst_of 0) started started-IsWellFormed

-- The coroutine 7 stops the loop and 8 is ready behind it.
abbrev stopping : Frames World
stopping = record { is_done = λ _ _. false; destroy = λ _ w. w; resume = λ _ _. stops suspend }

abbrev crowded : EventLoop World
crowded = record started { ready_queue = 7 ∷ 8 ∷ [] }

abbrev crowd_begun : EventLoop World
crowd_begun =
    record (process_expired_waiters willing
      (record crowded { stop_requested = false; loop_error = none })) { ready_queue = 8 ∷ [] }

epoll_run-Stops_example :
    run willing stopping 1 (record { retries = 2; drains = 1 }) crowded
    ≡ some (finish willing stopping (run_handle willing stopping 2 7 crowd_begun))
unfolding valid process_expired_waiters
epoll_run-Stops_example =
    epoll_run-Stops willing stopping 0 0 2 7 (8 ∷ []) crowded refl refl refl refl now_stops

construct_lem_example :
    IsWellFormed (construct willing (record { clock = 0; resumed = 0 }))
    × ((construct willing (record { clock = 0; resumed = 0 })).init_error ≡ none
        → (valid (construct willing (record { clock = 0; resumed = 0 })) ≡ true)
          × (UniqueFd.valid (construct willing (record { clock = 0; resumed = 0 })).wake_fd ≡ true))
construct_lem_example = construct_lem willing (record { clock = 0; resumed = 0 })

-- The deadline of the reader lies ahead of the clock, and the index says so.
abbrev early_loop : EventLoop World
early_loop = record (loop_at 30 ((pos 5, slot_five) ∷ []) 2 1 false) { next_deadline = some 40 }

early_loop-IsWellFormed : IsWellFormed early_loop
early_loop-IsWellFormed = record {
  counted = record { pending = refl; timed = refl };
  settled = (slot_five-IsSettled, tt);
  index = λ q. ((refl, refl), tt);
}

process_expired_waiters_reference_example :
    IsSame willing (expire_all willing early_loop) (process_expired_waiters willing early_loop)
process_expired_waiters_reference_example =
    process_expired_waiters_reference willing early_loop early_loop-IsWellFormed

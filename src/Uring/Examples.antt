-- ===== src/Uring/Examples.antt =====
-- The theorems on the loop over io_uring at concrete loops: a ring that takes every request, and one
-- that refuses every request; a clock that stands still; and one coroutine that waits for a descriptor.
use libsimplenet.Base.{
  ℕ, ℤ, pos, negsuc, ◌+◌, ◌<◌, ◌≤◌, ◌≡◌, refl, Bool, true, false, none, some, [], ◌∷◌, ℕ_discrete,
  arith,
}
use libsimplenet.Base.Table.{find}
use libsimplenet.Base.Weights.{AllEntries}
use libsimplenet.Core.{Error, from_errno, err, Status, done, Outcome}
use libsimplenet.Core.Errno.{etimedout}
use libsimplenet.System.{Completion, RingCalls, EventFdCalls, RingSystem}
use libsimplenet.EventLoop.Waiters.{has_elapsed}
use libsimplenet.EventLoop.Run.{suspend, stops, Frames}
use libsimplenet.Uring.State.{
  Registration, no_registration, WaiterSlot, PollContext, UringEventLoop,
}
use libsimplenet.Uring.Invariant.{IsWellFormed, held}
use libsimplenet.Uring.Polls.{allocate_token}
use libsimplenet.Uring.Polls.Tokens.{allocate_token_lem}
use libsimplenet.Uring.Waiters.{arm_waiter}
use libsimplenet.Uring.Waiters.Arming.{IsUnchanged, IsWaiting}
use libsimplenet.Uring.Waiters.Calls.{ring_arming_lem}
use libsimplenet.Uring.Expiry.{process_expired_waiters}
use libsimplenet.Uring.Expiry.Ahead.{IsAhead}
use libsimplenet.Uring.Expiry.Deadlines.{ring_expiry_lem, held-ring_expiry}
use libsimplenet.Uring.Completions.{process_completion}
use libsimplenet.Uring.Completions.Awaited.{WakesItsWaiter}
use libsimplenet.Uring.Completions.Events.{process_completion_lem, process_completion_wakes}
use libsimplenet.Uring.Run.{run, run_handle, finish}
use libsimplenet.Uring.Run.Stopping.{now_stops, run-Stops}

-- The world is the clock.
abbrev answer : ℤ → ℕ → Outcome ℕ
answer v w = record { value = v; errno = 0; world = w }

abbrev no_completion : Completion
no_completion = record { user_data = 0; result = pos 0 }

abbrev ring_with : Bool → RingCalls ℕ
ring_with free = record {
  allocate = λ w. (1, w);
  release = λ _ w. w;
  queue_init = λ _ _ w. (pos 0, w);
  queue_exit = λ _ w. w;
  get_sqe = λ _ w. (free, w);
  prep_poll_add = λ _ _ _ _ w. w;
  prep_poll_remove = λ _ _ _ w. w;
  submit = λ _ w. (pos 1, w);
  wait_cqe_timeout = λ _ _ _ w. (negsuc 61, no_completion, w);
  wait_cqe = λ _ w. (negsuc 3, no_completion, w);
  peek_cqe = λ _ w. (negsuc 10, none, w);
  cqe_seen = λ _ w. w;
}

abbrev counters : EventFdCalls ℕ
counters = record {
  eventfd = answer (pos 4);
  read_counter = λ _. answer (pos 8);
  write_counter = λ _ _. answer (pos 8);
}

abbrev system_with : Bool → RingSystem ℕ
system_with free = record { ring = ring_with free; eventfds = counters; now = λ w. (w, w) }

-- Handle 7 reads descriptor 5 with a deadline, under the token 2.
abbrev slot_five : WaiterSlot
slot_five = record {
  readable = record {
    handle = 7;
    deadline = some 40;
    timeout_error = from_errno etimedout;
    token = 2;
  };
  writable = no_registration;
}

abbrev loop_at : ℕ → UringEventLoop ℕ
loop_at now = record {
  reactor = record { ring = 1 };
  init_error = none;
  loop_error = none;
  ready_queue = 9 ∷ [];
  waiters = (pos 5, slot_five) ∷ [];
  inflight_polls = (2, record { fd = pos 5; readable = true }) ∷ [];
  wait_results = [];
  root_tasks = [];
  pending_waiter_count = 1;
  timed_waiter_count = 1;
  active_task_count = 1;
  next_deadline = some 40;
  deadline_index_dirty = true;
  next_token = 3;
  wake_token = 1;
  submission_pending = false;
  stop_requested = false;
  wake_fd = record { fd = pos 4 };
  world = now;
}

loop_at-IsWellFormed : (now : ℕ) → IsWellFormed (loop_at now)
loop_at-IsWellFormed now = record {
  counted = record { pending = refl; timed = refl };
  settled = (
    record { key = refl; occupied = refl; clean_readable = λ q. cc; clean_writable = λ _. refl },
    tt,
  );
  index = λ q. cc;
}

allocate_token_lem_example :
    (0 < (allocate_token (loop_at 0)).0)
    × (3 ≤ (allocate_token (loop_at 0)).0)
    × (find ℕ_discrete (allocate_token (loop_at 0)).0 (loop_at 0).inflight_polls ≡ none)
    × ((allocate_token (loop_at 0)).1.next_token ≡ (allocate_token (loop_at 0)).0 + 1)
allocate_token_lem_example = allocate_token_lem (loop_at 0) (omega arith)

-- Handle 8 waits to write to descriptor 6.
abbrev armed_eight : Status × UringEventLoop ℕ
armed_eight = arm_waiter (system_with true) (pos 6) 8 false none (from_errno etimedout) (loop_at 0)

ring_arming_lem_example :
    IsWellFormed armed_eight.1
    × ((e : Error) → armed_eight.0 ≡ err e → IsUnchanged (loop_at 0) armed_eight.1)
    × (has_elapsed none ≡ false
        → armed_eight.0 ≡ done
        → IsWaiting (system_with true) (pos 6) 8 false (loop_at 0) armed_eight.1)
ring_arming_lem_example =
    ring_arming_lem (system_with true) (pos 6) 8 false none (from_errno etimedout) (loop_at 0)
      (loop_at-IsWellFormed 0) (omega arith)

-- The clock has passed the deadline of the reader.
ring_expiry_lem_example :
    IsWellFormed (process_expired_waiters (system_with true) (loop_at 50))
    × AllEntries
        (λ _ s. IsAhead 50 s)
        (process_expired_waiters (system_with true) (loop_at 50)).waiters
unfolding process_expired_waiters
ring_expiry_lem_example =
    ring_expiry_lem (system_with true) (loop_at 50) (loop_at-IsWellFormed 50) refl

-- The poll request could not be removed.
held-ring_expiry_example :
    held 7 (process_expired_waiters (system_with false) (loop_at 50)) ≡ held 7 (loop_at 50)
held-ring_expiry_example = held-ring_expiry (system_with false) 7 (omega arith) (loop_at 50)

abbrev ready_five : Completion
ready_five = record { user_data = 2; result = pos 1 }

process_completion_lem_example :
    IsWellFormed (process_completion (system_with true) 3 ready_five (loop_at 0))
    × ((h : ℕ)
        → 0 < h
        → held h (process_completion (system_with true) 3 ready_five (loop_at 0))
          ≡ held h (loop_at 0))
process_completion_lem_example =
    process_completion_lem (system_with true) 3 ready_five (loop_at 0) (loop_at-IsWellFormed 0)

abbrev completed : UringEventLoop ℕ
completed = process_completion (system_with true) 3 ready_five (loop_at 0)

process_completion_wakes_example : WakesItsWaiter ready_five (loop_at 0) completed
process_completion_wakes_example =
    process_completion_wakes (system_with true) 3 ready_five (loop_at 0)

-- The coroutine 9 stops the loop.
abbrev stopping : Frames ℕ
stopping = record { is_done = λ _ _. false; destroy = λ _ w. w; resume = λ _ _. stops suspend }

run-Stops_example :
    run (system_with true) stopping 1 (record { retries = 2; drains = 1 }) (loop_at 0)
    ≡ some (
        finish (system_with true) stopping (
          run_handle
            (system_with true)
            stopping
            2
            9
            (record (process_expired_waiters (system_with true) (loop_at 0)) { ready_queue = [] })))
unfolding libsimplenet.Uring.State.valid process_expired_waiters
run-Stops_example =
    run-Stops (system_with true) stopping 0 0 2 9 [] (loop_at 0) refl refl refl refl now_stops

-- ===== src/Uring/State.antt =====
-- The fields of `uring_event_loop`, and the operations that touch no waiter. Handles, times and
-- counters are as for the loop over epoll; a token is a 64-bit number.
use libsimplenet.Base.{
  ℕ, ℤ, ℕ_discrete, ◌+◌, ◌==◌, Bool, true, not, ◌&&◌, Option, none, some, List, [], ◌∷◌, ◌++◌,
  if◌then◌else◌,
}
use libsimplenet.Base.Table.{find, assign, erase}
use libsimplenet.Core.{Error, from_errno, err, Status, done}
use libsimplenet.Core.Errno.{einval, etimedout}
use libsimplenet.Core.UniqueFd.{UniqueFd}
use libsimplenet.EventLoop.State.{is_none, decrement}
use libsimplenet.Uring.Reactor
use libsimplenet.Uring.Reactor.{Reactor}

-- `wait_registration`
pub record Registration : Type 0 where
  pub handle : ℕ
  pub deadline : Option ℕ
  pub timeout_error : Error
  pub token : ℕ

-- `wait_registration{}`
abbrev pub no_registration : Registration
no_registration = record {
  handle = 0;
  deadline = none;
  timeout_error = from_errno etimedout;
  token = 0;
}

-- `waiter_slot`
pub record WaiterSlot : Type 0 where
  pub readable : Registration
  pub writable : Registration

-- `waiter_slot{}`
abbrev pub empty_slot : WaiterSlot
empty_slot = record { readable = no_registration; writable = no_registration }

-- `poll_context`
pub record PollContext : Type 0 where
  pub fd : ℤ
  pub readable : Bool

pub record UringEventLoop (W : Type 0) : Type 0 where
  pub reactor : Reactor
  pub init_error : Option Error
  pub loop_error : Option Error
  pub ready_queue : List ℕ
  pub waiters : List (ℤ × WaiterSlot)
  pub inflight_polls : List (ℕ × PollContext)
  pub wait_results : List (ℕ × Status)
  pub root_tasks : List ℕ
  pub pending_waiter_count : ℕ
  pub timed_waiter_count : ℕ
  pub active_task_count : ℕ
  pub next_deadline : Option ℕ
  pub deadline_index_dirty : Bool
  pub next_token : ℕ
  pub wake_token : ℕ
  pub submission_pending : Bool
  pub stop_requested : Bool
  pub wake_fd : UniqueFd
  pub world : W

-- `static_cast<bool>(handle)`
abbrev pub is_armed : Registration → Bool
is_armed r = not (r.handle == 0)

-- Neither side of the slot has a waiter.
abbrev pub is_vacant : WaiterSlot → Bool
is_vacant s = not (is_armed s.readable) && not (is_armed s.writable)

module _ {W : Type 0} where
  unfoldable pub valid : UringEventLoop W → Bool
  unfolding Reactor.valid
  valid l = is_none l.init_error && Reactor.valid l.reactor

  unfoldable pub schedule : ℕ → UringEventLoop W → UringEventLoop W
  schedule handle l =
      if handle == 0 then l else record l { ready_queue = l.ready_queue ++ handle ∷ [] }

  -- `wait_results_[handle_key(handle)] = status; schedule(handle);`
  unfoldable pub wake : ℕ → Status → UringEventLoop W → UringEventLoop W
  unfolding schedule
  wake handle status l =
      schedule handle (record l { wait_results = assign ℕ_discrete handle status l.wait_results })

  unfoldable pub on_task_completed : UringEventLoop W → UringEventLoop W
  on_task_completed l = record l { active_task_count = decrement l.active_task_count }

  unfoldable pub consume_wait_result : ℕ → UringEventLoop W → Status × UringEventLoop W
  consume_wait_result handle l =
      if handle == 0
      then (err (from_errno einval), l)
      else elim (find ℕ_discrete handle l.wait_results) [
        | none ↦ (done, l)
        | some status ↦ (status, record l { wait_results = erase ℕ_discrete handle l.wait_results })
      ]

  -- `spawn`, of a task that owns `handle` (0 if it is empty).
  unfoldable pub spawn : ℕ → UringEventLoop W → UringEventLoop W
  unfolding schedule
  spawn handle l =
      if handle == 0
      then l
      else schedule handle (record l {
        active_task_count = l.active_task_count + 1;
        root_tasks = l.root_tasks ++ handle ∷ [];
      })

  -- `loop_error_` and `stop_requested_`, which a failing step sets together.
  unfoldable pub fail : Error → UringEventLoop W → UringEventLoop W
  fail e l = record l { loop_error = some e; stop_requested = true }

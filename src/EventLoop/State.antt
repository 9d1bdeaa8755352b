-- ===== src/EventLoop/State.antt =====
-- The fields of `event_loop`, and the operations that touch no waiter.
-- A coroutine handle is its address, 0 for the null handle, so `handle_key` is the handle itself.
-- Times are nanoseconds of `steady_clock`. Counters are unbounded: a `std::size_t` would need 2^64
-- live waiters or tasks to wrap. What `std::atomic_bool` adds for other threads is not modelled.
use libsimplenet.Base.{
  ℕ, ℤ, ℕ_discrete, ◌+◌, ◌-◌, ◌==◌, ltb, Bool, true, false, not, ◌&&◌, Option, none, some, List, [],
  ◌∷◌, ◌++◌, if◌then◌else◌,
}
use libsimplenet.Base.Table.{find, assign, erase}
use libsimplenet.Core.{Error, from_errno, err, Status, done}
use libsimplenet.Core.Errno.{einval, etimedout}
use libsimplenet.Core.UniqueFd.{UniqueFd}
use libsimplenet.Reactor
use libsimplenet.Reactor.{Reactor}

-- `wait_registration`
pub record Registration : Type 0 where
  pub handle : ℕ
  pub deadline : Option ℕ
  pub timeout_error : Error

-- `wait_registration{}`
abbrev pub no_registration : Registration
no_registration = record { handle = 0; deadline = none; timeout_error = from_errno etimedout }

-- `waiter_slot`
pub record WaiterSlot : Type 0 where
  pub readable : Registration
  pub writable : Registration
  pub registered_mask : ℕ

-- `waiter_slot{}`
abbrev pub empty_slot : WaiterSlot
empty_slot = record { readable = no_registration; writable = no_registration; registered_mask = 0 }

-- The class's fields, with the state of the world that its system calls act on.
pub record EventLoop (W : Type 0) : Type 0 where
  pub reactor : Reactor
  pub init_error : Option Error
  pub loop_error : Option Error
  pub ready_queue : List ℕ
  pub waiters : List (ℤ × WaiterSlot)
  pub wait_results : List (ℕ × Status)
  pub root_tasks : List ℕ
  pub pending_waiter_count : ℕ
  pub timed_waiter_count : ℕ
  pub active_task_count : ℕ
  pub next_deadline : Option ℕ
  pub deadline_index_dirty : Bool
  pub stop_requested : Bool
  pub wake_fd : UniqueFd
  pub world : W

-- `static_cast<bool>(handle)`
abbrev pub is_armed : Registration → Bool
is_armed r = not (r.handle == 0)

-- Neither side of the slot has a waiter.
abbrev pub is_vacant : WaiterSlot → Bool
is_vacant s = not (is_armed s.readable) && not (is_armed s.writable)

-- `if (counter > 0) { --counter; }`
abbrev pub decrement : ℕ → ℕ
decrement n = if ltb 0 n then n - 1 else n

abbrev pub is_none {ℓ} : {A : Type ℓ} → Option A → Bool
is_none none = true
is_none (some a) = false

abbrev pub value_or {ℓ} : {A : Type ℓ} → Option A → A → A
value_or none d = d
value_or (some a) d = a

module _ {W : Type 0} where
  unfoldable pub valid : EventLoop W → Bool
  unfolding Reactor.valid
  valid l = is_none l.init_error && Reactor.valid l.reactor

  unfoldable pub schedule : ℕ → EventLoop W → EventLoop W
  schedule handle l =
      if handle == 0 then l else record l { ready_queue = l.ready_queue ++ handle ∷ [] }

  -- `wait_results_[handle_key(handle)] = status; schedule(handle);`
  unfoldable pub wake : ℕ → Status → EventLoop W → EventLoop W
  unfolding schedule
  wake handle status l =
      schedule handle (record l { wait_results = assign ℕ_discrete handle status l.wait_results })

  unfoldable pub on_task_completed : EventLoop W → EventLoop W
  on_task_completed l = record l { active_task_count = decrement l.active_task_count }

  unfoldable pub consume_wait_result : ℕ → EventLoop W → Status × EventLoop W
  consume_wait_result handle l =
      if handle == 0
      then (err (from_errno einval), l)
      else elim (find ℕ_discrete handle l.wait_results) [
        | none ↦ (done, l)
        | some status ↦ (status, record l { wait_results = erase ℕ_discrete handle l.wait_results })
      ]

  -- `spawn`, of a task that owns `handle` (0 if it is empty).
  unfoldable pub spawn : ℕ → EventLoop W → EventLoop W
  unfolding schedule
  spawn handle l =
      if handle == 0
      then l
      else schedule handle (record l {
        active_task_count = l.active_task_count + 1;
        root_tasks = l.root_tasks ++ handle ∷ [];
      })

  -- What `run` and every failing step set together: `loop_error_` and `stop_requested_`.
  unfoldable pub fail : Error → EventLoop W → EventLoop W
  fail e l = record l { loop_error = some e; stop_requested = true }

-- ===== src/IoOps/Waiting.antt =====
-- `readiness_wait_awaitable` and the tasks that wait for one descriptor. An event loop is seen through
-- the `scheduler` interface of include/simplenet/runtime/task.hpp.
use libsimplenet.Base.{ℕ, ℤ, ◌==◌, Bool, true, false, Option, none, some, if◌then◌else◌}
use libsimplenet.Core.{Error, from_errno, ok, err, done}
use libsimplenet.Core.Errno.{einval, etimedout}
use libsimplenet.Sockets.Calls.{Step}

-- The virtual functions of `scheduler`.
pub record Scheduler (W : Type 0) : Type 0 where
  pub schedule : ℕ → W → W
  pub on_task_completed : W → W
  pub wait_for_readable : ℤ → ℕ → Option ℤ → Error → Step W (Unit {0})
  pub wait_for_writable : ℤ → ℕ → Option ℤ → Error → Step W (Unit {0})
  pub consume_wait_result : ℕ → Step W (Unit {0})

-- The coroutine machinery around an operation: the scheduler in its promise, if there is one, the
-- handle of a task's new frame, and what the program does from a suspension of that frame until the
-- loop resumes it.
pub record Coroutines (W : Type 0) : Type 0 where
  pub scheduler : Option (Scheduler W)
  pub frame : W → ℕ × W
  pub others : ℕ → W → W

-- `is_timeout_error`
unfoldable pub is_timeout_error : Error → Bool
is_timeout_error e = e.value == etimedout

module _ {W : Type 0} (co : Coroutines W) where
  -- `await_suspend`, the suspension if it returned true, and `await_resume`.
  unfoldable pub readiness_wait : ℕ → ℤ → Bool → Option ℤ → Error → Step W (Unit {0})
  readiness_wait handle fd readable timeout timeout_error w = elim co.scheduler [
    | none ↦ (err (from_errno einval), w)
    | some s ↦
        let (status, w₁) =
          if readable
          then s.wait_for_readable fd handle timeout timeout_error w
          else s.wait_for_writable fd handle timeout timeout_error w in
        let w₂ = co.others handle w₁ in
        elim status [
          | err e ↦ (err e, w₁)
          | ok _ ↦ if handle == 0 then (done, w₂) else s.consume_wait_result handle w₂
        ]
  ]

  -- The body of the four tasks, in their own frame.
  abbrev wait_in_frame : ℤ → Bool → Option ℤ → Step W (Unit {0})
  wait_in_frame fd readable timeout w =
      let (handle, w₁) = co.frame w in
      readiness_wait handle fd readable timeout (from_errno etimedout) w₁

  unfoldable pub wait_readable : ℤ → Step W (Unit {0})
  unfolding readiness_wait
  wait_readable fd = wait_in_frame fd true none

  unfoldable pub wait_writable : ℤ → Step W (Unit {0})
  unfolding readiness_wait
  wait_writable fd = wait_in_frame fd false none

  unfoldable pub wait_readable_for : ℤ → ℤ → Step W (Unit {0})
  unfolding readiness_wait
  wait_readable_for fd timeout = wait_in_frame fd true (some timeout)

  unfoldable pub wait_writable_for : ℤ → ℤ → Step W (Unit {0})
  unfolding readiness_wait
  wait_writable_for fd timeout = wait_in_frame fd false (some timeout)

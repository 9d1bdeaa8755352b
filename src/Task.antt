-- ===== src/Task.antt =====
-- include/simplenet/runtime/task.hpp: the promise of a task, its final suspension, the ownership of
-- its frame, and what it does to be awaited. A frame is known by its handle, 0 for null; a
-- synchronous `resume` of a frame is a parameter, since it runs user code.
pub mod Awaiting
use libsimplenet.Base.{
  ℕ, ◌==◌, Bool, true, false, not, ◌&&◌, ◌||◌, Option, none, some, List, [], ◌∷◌, ◌++◌,
  if◌then◌else◌,
}
use libsimplenet.IoOps.Waiting.{Scheduler}

-- `promise_type` with its base; `finished` says whether the frame is at its final suspension.
pub record Promise (W A : Type 0) : Type 0 where
  pub scheduler : Option (Scheduler W)
  pub continuation : ℕ
  pub tracked : Bool
  pub value : Option A
  pub exception : Bool
  pub finished : Bool

-- What `consume_result` comes to: the value, the task's exception again, or `logic_error`.
pub data Consumed (A : Type 0) : Type 0 where
  value : A → Consumed A
  rethrown : Consumed A
  unavailable : Consumed A

module _ {W A : Type 0} where
  -- `promise_type()`
  abbrev pub new_promise : Promise W A
  new_promise = record {
    scheduler = none;
    continuation = 0;
    tracked = false;
    value = none;
    exception = false;
    finished = false;
  }

  unfoldable pub set_scheduler : Option (Scheduler W) → Bool → Promise W A → Promise W A
  set_scheduler s tracked p = record p { scheduler = s; tracked = tracked }

  unfoldable pub set_continuation : ℕ → Promise W A → Promise W A
  set_continuation handle p = record p { continuation = handle }

  unfoldable pub return_value : A → Promise W A → Promise W A
  return_value a p = record p { value = some a }

  unfoldable pub unhandled_exception : Promise W A → Promise W A
  unhandled_exception p = record p { exception = true }

  unfoldable pub consume_result : Promise W A → Consumed A
  consume_result p =
      if p.exception then rethrown else elim p.value [ none ↦ unavailable | some a ↦ value a ]

  -- `task_final_awaiter::await_suspend`
  unfoldable pub final_suspend : (ℕ → W → W) → Promise W A → W → W
  final_suspend resume p w =
      let completed : W = elim p.scheduler [
        | none ↦ w
        | some s ↦ if p.tracked then s.on_task_completed w else w
      ] in
      if p.continuation == 0 then completed else elim p.scheduler [
        | some s ↦ s.schedule p.continuation completed
        | none ↦ resume p.continuation completed
      ]

  -- The child as `awaiter::await_suspend` leaves it: wired to the awaiting frame, and on the scheduler
  -- of that frame unless it has one.
  unfoldable pub wired : ℕ → Option (Scheduler W) → Promise W A → Promise W A
  unfolding set_continuation set_scheduler
  wired awaiting own child =
      let child₁ = set_continuation awaiting child in
      elim child₁.scheduler [ none ↦ set_scheduler own false child₁ | some s ↦ child₁ ]

  -- `awaiter::await_suspend` of the child `handle`: whether the awaiting frame stays suspended, the
  -- child, and the world.
  unfoldable pub await_suspend :
      (ℕ → W → W) → ℕ → ℕ → Option (Scheduler W) → Promise W A → W → Bool × Promise W A × W
  unfolding wired
  await_suspend resume handle awaiting own child w =
      let child' = wired awaiting own child in
      elim child'.scheduler [
        | some s ↦ (true, child', s.schedule handle w)
        | none ↦ (false, child', resume handle w)
      ]

-- `consume_result` of a `task<void>`, which stores no value.
unfoldable pub consume_completion : {W : Type 0} → Promise W (Unit {0}) → Consumed (Unit {0})
consume_completion p = if p.exception then rethrown else value tt

-- An owner of a frame, a `task` or an `awaiter`: its handle. The frames that an operation destroys are
-- part of its result.
pub record Task : Type 0 where
  pub handle : ℕ

abbrev pub empty_task : Task
empty_task = record { handle = 0 }

unfoldable pub valid : Task → Bool
valid t = not (t.handle == 0)

unfoldable pub done : (ℕ → Bool) → Task → Bool
done is_done t = t.handle == 0 || is_done t.handle

-- `awaiter::await_ready`: an owner without a frame, or with one that is done, does not suspend.
unfoldable pub await_ready : (ℕ → Bool) → Task → Bool
await_ready is_done t = t.handle == 0 || is_done t.handle

-- `task_final_awaiter::await_ready`: the final awaiter always suspends.
unfoldable pub final_await_ready : Bool
final_await_ready = false

unfoldable pub release : Task → ℕ × Task
release t = (t.handle, empty_task)

-- `~task()` and `~awaiter()`
unfoldable pub destroy : Task → List ℕ
destroy t = if t.handle == 0 then [] else t.handle ∷ []

-- `task(task&&)` and `operator co_await`: the new owner, and what is left.
unfoldable pub move_from : Task → Task × Task
move_from other = (other, empty_task)

-- Move assignment from another task.
unfoldable pub move_assign : Task → Task → Task × Task × List ℕ
unfolding destroy
move_assign t other = (other, empty_task, destroy t)

-- `awaiter::await_resume`: the result, the awaiter, and the frames destroyed; the frame stays when an
-- exception leaves the function.
unfoldable pub await_resume : {W A : Type 0} → Task → Promise W A → Consumed A × Task × List ℕ
unfolding consume_result
await_resume t child =
    let consumed = consume_result child in
    if t.handle == 0 then (unavailable, t, []) else elim consumed [
      | value a ↦ (value a, empty_task, t.handle ∷ [])
      | rethrown ↦ (rethrown, t, [])
      | unavailable ↦ (unavailable, t, [])
    ]

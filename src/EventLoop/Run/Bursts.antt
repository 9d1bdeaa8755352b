-- ===== src/EventLoop/Run/Bursts.antt =====
-- Whatever calls a resumed coroutine makes, the loop stays well-formed and no error is recorded.
use libsimplenet.Base.{ℕ, ◌≡◌, refl, ◌∙◌, arith}
use libsimplenet.System.{LoopSystem}
use libsimplenet.EventLoop.State.{
  EventLoop, schedule, spawn, on_task_completed, consume_wait_result,
}
use libsimplenet.EventLoop.Invariant.{IsWellFormed, keep-IsWellFormed}
use libsimplenet.EventLoop.Waiters.{arm_waiter}
use libsimplenet.EventLoop.Waiters.Calls.{arm_waiter-IsWellFormed, loop_error-arm_waiter}
use libsimplenet.EventLoop.Run.{
  Burst, suspend, works, schedules, completes, spawns, arms, consumes, stops, perform, stop,
}

module _ {W : Type 0} where
  -- The waiters, their counters, the deadline index and the error are the same.
  pub record IsKept (l l' : EventLoop W) : Type 0 where
    pub waiters : l'.waiters ≡ l.waiters
    pub pending : l'.pending_waiter_count ≡ l.pending_waiter_count
    pub timed : l'.timed_waiter_count ≡ l.timed_waiter_count
    pub next : l'.next_deadline ≡ l.next_deadline
    pub dirty : l'.deadline_index_dirty ≡ l.deadline_index_dirty
    pub error : l'.loop_error ≡ l.loop_error

  pub IsKept-IsWellFormed : {l l' : EventLoop W} → IsKept l l' → IsWellFormed l → IsWellFormed l'
  IsKept-IsWellFormed k = keep-IsWellFormed k.waiters k.pending k.timed k.next k.dirty

  schedule-IsKept : (h : ℕ) (l : EventLoop W) → IsKept l (schedule h l)
  unfolding schedule
  schedule-IsKept h l = ground arith

  spawn-IsKept : (h : ℕ) (l : EventLoop W) → IsKept l (spawn h l)
  unfolding spawn schedule
  spawn-IsKept h l = ground arith

  on_task_completed-IsKept : (l : EventLoop W) → IsKept l (on_task_completed l)
  unfolding on_task_completed
  on_task_completed-IsKept l = ground arith

  consume_wait_result-IsKept : (h : ℕ) (l : EventLoop W) → IsKept l (consume_wait_result h l).1
  unfolding consume_wait_result
  consume_wait_result-IsKept h l = ground arith

module _ {W : Type 0} (os : LoopSystem W) where
  stop-IsKept : (fuel : ℕ) (l : EventLoop W) → IsKept l (stop os fuel l)
  unfolding stop
  stop-IsKept fuel l = ground arith

  -- Well-formed, and with the error that it had.
  abbrev Holds : EventLoop W → EventLoop W → Type 0
  Holds l l' = IsWellFormed l' × (l'.loop_error ≡ l.loop_error)

  of_kept : (l l' : EventLoop W) → IsKept l l' → IsWellFormed l → Holds l l'
  of_kept l l' k v = (IsKept-IsWellFormed k v, k.error)

  onward : (l l' l'' : EventLoop W) → Holds l l' → (IsWellFormed l' → Holds l' l'') → Holds l l''
  onward l l' l'' a f = let b = f a.0 in (b.0, b.1 ∙ a.1)

  -- Whatever calls a resumed coroutine makes until it suspends, a well-formed loop stays so, and no
  -- error is recorded or forgotten.
  pub perform_lem :
      (fuel : ℕ) (b : Burst W) (l : EventLoop W)
      → IsWellFormed l
      → IsWellFormed (perform os fuel b l) × ((perform os fuel b l).loop_error ≡ l.loop_error)
  unfolding perform
  perform_lem fuel suspend l v = (v, refl)
  perform_lem fuel (works f k) l v =
      onward l (record l { world = f l.world })
        (perform os fuel (k (f l.world)) (record l { world = f l.world }))
        (of_kept l (record l { world = f l.world })
          (record {
            waiters = refl;
            pending = refl;
            timed = refl;
            next = refl;
            dirty = refl;
            error = refl;
          })
          v)
        (perform_lem fuel (k (f l.world)) (record l { world = f l.world }))
  perform_lem fuel (schedules h k) l v =
      onward l (schedule h l) (perform os fuel k (schedule h l))
        (of_kept l (schedule h l) (schedule-IsKept h l) v) (perform_lem fuel k (schedule h l))
  perform_lem fuel (completes k) l v =
      onward l (on_task_completed l) (perform os fuel k (on_task_completed l))
        (of_kept l (on_task_completed l) (on_task_completed-IsKept l) v)
        (perform_lem fuel k (on_task_completed l))
  perform_lem fuel (spawns h k) l v =
      onward l (spawn h l) (perform os fuel k (spawn h l))
        (of_kept l (spawn h l) (spawn-IsKept h l) v) (perform_lem fuel k (spawn h l))
  perform_lem fuel (arms fd h readable timeout e k) l v =
      let r = arm_waiter os fd h readable timeout e l in
      onward l r.1 (perform os fuel (k r.0) r.1)
        (
          arm_waiter-IsWellFormed os fd h readable timeout e l v,
          loop_error-arm_waiter os fd h readable timeout e l v,
        )
        (perform_lem fuel (k r.0) r.1)
  perform_lem fuel (consumes h k) l v =
      let r = consume_wait_result h l in
      onward l r.1 (perform os fuel (k r.0) r.1) (of_kept l r.1 (consume_wait_result-IsKept h l) v)
        (perform_lem fuel (k r.0) r.1)
  perform_lem fuel (stops k) l v =
      onward l (stop os fuel l) (perform os fuel k (stop os fuel l))
        (of_kept l (stop os fuel l) (stop-IsKept fuel l) v) (perform_lem fuel k (stop os fuel l))

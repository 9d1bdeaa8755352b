-- ===== src/EventLoop/Run/Stopping.antt =====
-- `stop_requested_` of the loop over epoll ends the run.
use libsimplenet.Base.{
  subst, sym, false≢true, ◌∙◌, ℕ, suc, ℤ, ◌==◌, ◌||◌, ◌≡◌, refl, ◌∙◌, true, false, Bool, if_elim,
  Option, none, some, List, ◌∷◌, arith,
}
use libsimplenet.Core.{Error, Status}
use libsimplenet.System.{LoopSystem}
use libsimplenet.EventLoop.State.{
  EventLoop, valid, schedule, on_task_completed, consume_wait_result, spawn,
}
use libsimplenet.EventLoop.Waiters.{arm_waiter}
use libsimplenet.EventLoop.Dispatch.{process_expired_waiters}
use libsimplenet.EventLoop.Run.{
  Burst, suspend, works, schedules, completes, spawns, arms, consumes, stops, Frames, Fuel, stop,
  perform, cleanup_completed_roots, is_halted, run_handle, drain_ready, after_drain, rounds, finish,
  run, Verdict, returns, again,
}
use libsimplenet.EventLoop.Run.Flag.{
  IsStopped, expired-IsStopped, consume-IsStopped, stop-IsStopped, arm_waiter-IsStopped,
}

module _ {W : Type 0} (os : LoopSystem W) where
  -- The burst calls `stop` on its way, in the loop as its earlier calls leave it.
  pub data Stops (fuel : ℕ) : Burst W → EventLoop W → Type 0 where
    now_stops : {k : Burst W} {l : EventLoop W} → Stops fuel (stops k) l
    later_works :
        {f : W → W} {k : W → Burst W} {l : EventLoop W}
        → Stops fuel (k (f l.world)) (record l { world = f l.world })
        → Stops fuel (works f k) l
    later_schedules :
        {h : ℕ} {k : Burst W} {l : EventLoop W}
        → Stops fuel k (schedule h l)
        → Stops fuel (schedules h k) l
    later_completes :
        {k : Burst W} {l : EventLoop W}
        → Stops fuel k (on_task_completed l)
        → Stops fuel (completes k) l
    later_spawns :
        {h : ℕ} {k : Burst W} {l : EventLoop W}
        → Stops fuel k (spawn h l)
        → Stops fuel (spawns h k) l
    later_arms :
        {fd : ℤ} {h : ℕ} {b : Bool} {t : Option ℤ} {e : Error} {k : Status → Burst W}
        {l : EventLoop W}
        → Stops fuel (k (arm_waiter os fd h b t e l).0) (arm_waiter os fd h b t e l).1
        → Stops fuel (arms fd h b t e k) l
    later_consumes :
        {h : ℕ} {k : Status → Burst W} {l : EventLoop W}
        → Stops fuel (k (consume_wait_result h l).0) (consume_wait_result h l).1
        → Stops fuel (consumes h k) l

  perform_keeps :
      (fuel : ℕ) (b : Burst W) (l : EventLoop W) → IsStopped l → IsStopped (perform os fuel b l)
  unfolding perform schedule on_task_completed spawn consume_wait_result
  perform_keeps fuel suspend l h = h
  perform_keeps fuel (works f k) l h = perform_keeps fuel (k (f l.world)) _ h
  perform_keeps fuel (schedules x k) l h = perform_keeps fuel k _ (ground arith)
  perform_keeps fuel (completes k) l h = perform_keeps fuel k _ h
  perform_keeps fuel (spawns x k) l h = perform_keeps fuel k _ (ground arith)
  perform_keeps fuel (arms fd x b t e k) l h =
      let r = arm_waiter os fd x b t e l in
      perform_keeps fuel (k r.0) r.1 (arm_waiter-IsStopped os fd x b t e l h)
  perform_keeps fuel (consumes x k) l h =
      let r = consume_wait_result x l in perform_keeps fuel (k r.0) r.1 (consume-IsStopped x l h)
  perform_keeps fuel (stops k) l h =
      perform_keeps fuel k (stop os fuel l) (stop-IsStopped os fuel l)

  perform-IsStopped :
      (fuel : ℕ) (b : Burst W) (l : EventLoop W) → Stops fuel b l → IsStopped (perform os fuel b l)
  unfolding perform
  perform-IsStopped fuel _ l (now_stops {k = k}) =
      perform_keeps fuel k (stop os fuel l) (stop-IsStopped os fuel l)
  perform-IsStopped fuel _ l (later_works d) = perform-IsStopped fuel _ _ d
  perform-IsStopped fuel _ l (later_schedules d) = perform-IsStopped fuel _ _ d
  perform-IsStopped fuel _ l (later_completes d) = perform-IsStopped fuel _ _ d
  perform-IsStopped fuel _ l (later_spawns d) = perform-IsStopped fuel _ _ d
  perform-IsStopped fuel _ l (later_arms d) = perform-IsStopped fuel _ _ d
  perform-IsStopped fuel _ l (later_consumes d) = perform-IsStopped fuel _ _ d

module _ {W : Type 0} (os : LoopSystem W) (frames : Frames W) where
  run_handle-IsStopped :
      (fuel handle : ℕ) (l : EventLoop W)
      → Stops os fuel (frames.resume handle l.world) l
      → IsStopped (run_handle os frames fuel handle l)
  unfolding run_handle cleanup_completed_roots
  run_handle-IsStopped fuel handle l d =
      expired-IsStopped os _ (perform-IsStopped os fuel (frames.resume handle l.world) l d)

  drain_ready_stops :
      (drains retries h : ℕ) (queue : List ℕ) (l : EventLoop W)
      → l.ready_queue ≡ h ∷ queue
      → (h == 0 || frames.is_done h l.world) ≡ false
      → IsStopped (run_handle os frames retries h (record l { ready_queue = queue }))
      → drain_ready os frames (suc drains) retries l
        ≡ some (run_handle os frames retries h (record l { ready_queue = queue }))
  unfolding drain_ready
  drain_ready_stops drains retries h queue l ready live stopped = rw (ready, live, stopped) refl

  after_drain_stops :
      (retries : ℕ) (l : EventLoop W)
      → IsStopped l
      → after_drain os frames retries l ≡ returns (finish os frames l)
  unfolding after_drain
  after_drain_stops retries l stopped = rw stopped refl

  rounds_stop :
      (n : ℕ) (fuel : Fuel) (l l₂ : EventLoop W)
      → l.stop_requested ≡ false
      → is_halted (process_expired_waiters os l) ≡ false
      → drain_ready os frames fuel.drains fuel.retries (process_expired_waiters os l) ≡ some l₂
      → IsStopped l₂
      → rounds os frames (suc n) fuel l ≡ some (finish os frames l₂)
  unfolding rounds
  rounds_stop n fuel l l₂ fresh going drained stopped =
      if_elim IsGoal l.stop_requested (λ q. absurd (false≢true (sym fresh ∙ q)))
        λ _.
          if_elim IsGoal (is_halted (process_expired_waiters os l))
            (λ q. absurd (false≢true (sym going ∙ q)))
            λ _.
              subst onwards (sym drained)
                (subst next (sym (after_drain_stops fuel.retries l₂ stopped)) refl)
    where
      IsGoal : Option (Status × EventLoop W) → Type 0
      IsGoal r = r ≡ some (finish os frames l₂)

      next : Verdict W → Type 0
      next v =
          elim v as (λ _. Option (Status × EventLoop W)) [
            | returns r ↦ some r
            | again l₃ ↦ rounds os frames n fuel l₃
          ]
          ≡ some (finish os frames l₂)

      onwards : Option (EventLoop W) → Type 0
      onwards o =
          elim o as (λ _. Option (Status × EventLoop W)) [
            | none ↦ none
            | some x ↦
                elim (after_drain os frames fuel.retries x)
                  as (λ _. Option (Status × EventLoop W)) [
                    | returns r ↦ some r
                    | again l₃ ↦ rounds os frames n fuel l₃
                  ]
          ]
          ≡ some (finish os frames l₂)

  -- The loop as `run` starts it, when its first sweep is done.
  abbrev started : EventLoop W → EventLoop W
  started l = process_expired_waiters os (record l { stop_requested = false; loop_error = none })

  -- On the loop over epoll `stop` takes effect at once: if, in a valid loop, the first sweep neither
  -- fails nor stops the loop and the first ready coroutine is live and calls `stop` before it
  -- suspends, then `run` resumes that coroutine and no other, and returns what the cleanup behind the
  -- loop returns, however many coroutines are ready behind it.
  pub epoll_run-Stops :
      (n drains retries h : ℕ) (queue : List ℕ) (l : EventLoop W)
      → valid l ≡ true
      → is_halted (started l) ≡ false
      → (started l).ready_queue ≡ h ∷ queue
      → (h == 0 || frames.is_done h (started l).world) ≡ false
      → (let first = record (started l) { ready_queue = queue } in
          Stops os retries (frames.resume h first.world) first
          → run os frames (suc n) (record { retries = retries; drains = suc drains }) l
            ≡ some (finish os frames (run_handle os frames retries h first)))
  unfolding run
  epoll_run-Stops n drains retries h queue l good going ready live d =
      let first = record (started l) { ready_queue = queue } in
      let stopped = run_handle-IsStopped retries h first d in
      rw good (
        rounds_stop n (record { retries = retries; drains = suc drains })
          (record l { stop_requested = false; loop_error = none })
          (run_handle os frames retries h first) refl going
          (drain_ready_stops drains retries h queue (started l) ready live stopped) stopped)

-- ===== src/EventLoop/Run.antt =====
-- `run`, `stop`, and what a resumed coroutine does to the loop.
-- A coroutine's body is user code: `Frames` says, for a handle and a world, whether the frame is
-- done, what destroying it does, and which calls its next burst makes up to its next suspension. A
-- `Burst` can make every call that the class offers to a coroutine, in any order, and go on as the
-- results and the world tell it.
pub mod Bursts
pub mod Flag
pub mod Stopping
pub mod Sleeping
use libsimplenet.Base.{
  ℕ, zero, suc, ℤ, pos, negsuc, is_negative, ◌-◌, ◌/◌, ◌^◌, ◌==◌, leb, min, Bool, true, false, not,
  ◌&&◌, ◌||◌, Option, none, some, List, [], ◌∷◌, if◌then◌else◌,
}
use libsimplenet.Core.{Error, from_errno, Result, ok, err, Status, done}
use libsimplenet.Core.Errno.{einval, edeadlk, eintr}
use libsimplenet.Core.UniqueFd
use libsimplenet.System.{ReadyEvent, LoopSystem}
use libsimplenet.Reactor
use libsimplenet.EventLoop.State.{
  EventLoop, is_none, value_or, valid, schedule, on_task_completed, consume_wait_result, spawn,
}
use libsimplenet.EventLoop.Waiters.{arm_waiter}
use libsimplenet.EventLoop.Dispatch.{process_expired_waiters, process_ready_event}

pub data Burst (W : Type 0) : Type 0 where
  -- the frame suspends, or ends
  suspend : Burst W
  -- work outside of the loop, and how the frame goes on in the world that it leaves
  works : (W → W) → (W → Burst W) → Burst W
  schedules : ℕ → Burst W → Burst W
  completes : Burst W → Burst W
  spawns : ℕ → Burst W → Burst W
  arms : ℤ → ℕ → Bool → Option ℤ → Error → (Status → Burst W) → Burst W
  consumes : ℕ → (Status → Burst W) → Burst W
  stops : Burst W → Burst W

pub record Frames (W : Type 0) : Type 0 where
  -- `handle.done()`, `handle.destroy()` and the calls up to the next suspension
  pub is_done : ℕ → W → Bool
  pub destroy : ℕ → W → W
  pub resume : ℕ → W → Burst W

-- How often a call that EINTR interrupts is made at most, and how often each loop goes round.
pub record Fuel : Type 0 where
  pub retries : ℕ
  pub drains : ℕ

module _ {W : Type 0} (os : LoopSystem W) where
  -- The `write` loop of `stop`: retried after EINTR, left after any other error.
  unfoldable pub raise_counter : ℕ → ℤ → W → W
  raise_counter zero fd w = w
  raise_counter (suc fuel) fd w =
      let out = os.eventfds.write_counter fd 1 w in
      let again = raise_counter fuel fd out.world in
      if is_negative out.value && out.errno == eintr then again else out.world

  unfoldable pub stop : ℕ → EventLoop W → EventLoop W
  unfolding raise_counter
  stop fuel l =
      let l' = record l { stop_requested = true } in
      if UniqueFd.valid l.wake_fd
      then record l' { world = raise_counter fuel l.wake_fd.fd l.world }
      else l'

  -- The calls of one burst, in order.
  unfoldable pub perform : ℕ → Burst W → EventLoop W → EventLoop W
  perform fuel suspend l = l
  perform fuel (works f k) l = perform fuel (k (f l.world)) (record l { world = f l.world })
  perform fuel (schedules h k) l = perform fuel k (schedule h l)
  perform fuel (completes k) l = perform fuel k (on_task_completed l)
  perform fuel (spawns h k) l = perform fuel k (spawn h l)
  perform fuel (arms fd h readable timeout e k) l =
      let r = arm_waiter os fd h readable timeout e l in perform fuel (k r.0) r.1
  perform fuel (consumes h k) l = let r = consume_wait_result h l in perform fuel (k r.0) r.1
  perform fuel (stops k) l = perform fuel k (stop fuel l)

module _ {W : Type 0} (frames : Frames W) where
  -- The roots that stay, and the world after the done ones are destroyed.
  unfoldable pub sweep_roots : List ℕ → W → List ℕ × W
  sweep_roots [] w = ([], w)
  sweep_roots (h ∷ roots) w =
      let dead = frames.is_done h w in
      let rest = sweep_roots roots (if dead then frames.destroy h w else w) in
      (if dead then rest.0 else h ∷ rest.0, rest.1)

  unfoldable pub cleanup_completed_roots : EventLoop W → EventLoop W
  unfolding sweep_roots
  cleanup_completed_roots l =
      let swept = sweep_roots l.root_tasks l.world in
      record l { root_tasks = swept.0; world = swept.1 }

module _ {W : Type 0} where
  -- `stop_requested_ || loop_error_.has_value()`
  abbrev pub is_halted : EventLoop W → Bool
  is_halted l = l.stop_requested || not (is_none l.loop_error)

-- The timeout in milliseconds that `epoll_wait` is given at the time `now`; -1 for no deadline.
unfoldable pub wait_timeout : ℕ → Option ℕ → ℤ
wait_timeout now none = negsuc 0
wait_timeout now (some deadline) =
    if leb deadline now then pos 0 else pos (min ((deadline - now) / 1_000_000) (2 ^ 31 - 1))

-- Where the outer loop goes after the ready queue is drained: it returns, or goes round again.
pub data Verdict (W : Type 0) : Type 0 where
  returns : Status × EventLoop W → Verdict W
  again : EventLoop W → Verdict W

-- `loop_error_.has_value() ? err<void>(loop_error_.value()) : ok()`
abbrev pub as_status : Option Error → Status
as_status none = done
as_status (some e) = err e

module _ {W : Type 0} (os : LoopSystem W) (frames : Frames W) where
  -- One round of the inner loop, for the handle taken off the queue.
  unfoldable pub run_handle : ℕ → ℕ → EventLoop W → EventLoop W
  unfolding cleanup_completed_roots
  run_handle fuel h l =
      process_expired_waiters os
        (cleanup_completed_roots frames (perform os fuel (frames.resume h l.world) l))

  -- The inner `while`, on fuel; `none` when that runs out.
  unfoldable pub drain_ready : ℕ → ℕ → EventLoop W → Option (EventLoop W)
  unfolding run_handle
  drain_ready zero retries l = none
  drain_ready (suc fuel) retries l = elim l.ready_queue [
    | [] ↦ some l
    | h ∷ queue ↦
        let l₁ = record l { ready_queue = queue } in
        let skipped = drain_ready fuel retries l₁ in
        let l₂ = run_handle retries h l₁ in
        let next = drain_ready fuel retries l₂ in
        if h == 0 || frames.is_done h l₁.world
        then skipped
        else if is_halted l₂
        then some l₂
        else next
  ]

  -- The `for` loop over the events of one wait.
  unfoldable pub dispatch : ℕ → List ReadyEvent → EventLoop W → EventLoop W
  dispatch retries [] l = l
  dispatch retries (event ∷ events) l =
      let l' = process_ready_event os retries event l in
      let rest = dispatch retries events l' in if is_none l'.loop_error then rest else l'

  -- Behind the outer `while`.
  unfoldable pub finish : EventLoop W → Status × EventLoop W
  unfolding cleanup_completed_roots
  finish l = let l' = cleanup_completed_roots frames l in (as_status l'.loop_error, l')

  -- What follows a wait: its error is returned, its events are dispatched.
  unfoldable pub deliver : ℕ → EventLoop W → Result (List ReadyEvent) × W → Verdict W
  unfolding dispatch
  deliver retries l (err e, w) = returns (err e, record l { world = w })
  deliver retries l (ok events, w) = again (dispatch retries events (record l { world = w }))

  -- `reactor_.wait` on a batch of 64 slots. The clock is read if there is a deadline.
  unfoldable pub wait_and_dispatch : ℕ → EventLoop W → Verdict W
  unfolding deliver
  wait_and_dispatch retries l =
      let timed : ℤ × W = elim l.next_deadline [
        | none ↦ (wait_timeout 0 none, l.world)
        | some d ↦ (wait_timeout (os.now l.world).0 (some d), (os.now l.world).1)
      ] in
      deliver retries l (Reactor.wait os.epoll l.reactor 64 timed.0 timed.1)

  unfoldable pub after_drain : ℕ → EventLoop W → Verdict W
  unfolding finish wait_and_dispatch
  after_drain retries l =
      let next = wait_and_dispatch retries l in
      if is_halted l then returns (finish l) else elim l.ready_queue [
        | h ∷ queue ↦ again l
        | [] ↦
            if l.active_task_count == 0 && l.pending_waiter_count == 0
            then returns (finish l)
            else if l.pending_waiter_count == 0
            then returns (err (from_errno edeadlk), l)
            else next
      ]

  -- The outer `while`, on fuel; `none` when that runs out.
  unfoldable pub rounds : ℕ → Fuel → EventLoop W → Option (Status × EventLoop W)
  unfolding drain_ready after_drain
  rounds zero fuel l = none
  rounds (suc n) fuel l =
      let l₁ = process_expired_waiters os l in
      let onwards : Option (Status × EventLoop W) = elim (drain_ready fuel.drains fuel.retries l₁) [
        | none ↦ none
        | some l₂ ↦ elim (after_drain fuel.retries l₂) [
          | returns r ↦ some r
          | again l₃ ↦ rounds n fuel l₃
        ]
      ] in
      if l.stop_requested
      then some (finish l)
      else if is_halted l₁
      then some (finish l₁)
      else onwards

  unfoldable pub run : ℕ → Fuel → EventLoop W → Option (Status × EventLoop W)
  unfolding rounds
  run n fuel l =
      if valid l
      then rounds n fuel (record l { stop_requested = false; loop_error = none })
      else some (err (value_or l.init_error (from_errno einval)), l)

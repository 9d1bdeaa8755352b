-- ===== src/Uring/Run.antt =====
-- `run` and `stop` of the loop over io_uring, its constructor and its destructor. Coroutines are
-- frames with bursts of calls, as for the loop over epoll.
pub mod Flag
pub mod Stopping
use libsimplenet.Base.{
  ℕ, zero, suc, ℤ, pos, is_negative, ◌-◌, ◌/◌, ◌^◌, ◌==◌, leb, min, Bool, true, false, not, ◌&&◌,
  ◌||◌, Option, none, some, List, [], ◌∷◌, if◌then◌else◌,
}
use libsimplenet.Core.{from_errno, Result, ok, err, Status}
use libsimplenet.Core.Errno.{einval, edeadlk, eintr}
use libsimplenet.Core.UniqueFd
use libsimplenet.Core.UniqueFd.{none_owned}
use libsimplenet.System.{Completion, RingSystem}
use libsimplenet.EventLoop.State.{is_none, value_or}
use libsimplenet.EventLoop.Run.{
  Burst, suspend, works, schedules, completes, spawns, arms, consumes, stops, Frames, Fuel,
  sweep_roots, as_status,
}
use libsimplenet.Uring.Reactor
use libsimplenet.Uring.Reactor.{Reactor, empty_reactor}
use libsimplenet.Uring.State.{
  UringEventLoop, valid, schedule, on_task_completed, consume_wait_result, spawn,
}
use libsimplenet.Uring.Polls.{flush_submissions}
use libsimplenet.Uring.Waiters.{arm_waiter}
use libsimplenet.Uring.Expiry.{process_expired_waiters}
use libsimplenet.Uring.Completions.{process_completion}

module _ {W : Type 0} (os : RingSystem W) where
  -- The `write` loop of `stop`: retried after EINTR, left after any other error.
  unfoldable pub raise_counter : ℕ → ℤ → W → W
  raise_counter zero fd w = w
  raise_counter (suc fuel) fd w =
      let out = os.eventfds.write_counter fd 1 w in
      let again = raise_counter fuel fd out.world in
      if is_negative out.value && out.errno == eintr then again else out.world

  unfoldable pub stop : ℕ → UringEventLoop W → UringEventLoop W
  unfolding raise_counter
  stop fuel l =
      let l' = record l { stop_requested = true } in
      if UniqueFd.valid l.wake_fd
      then record l' { world = raise_counter fuel l.wake_fd.fd l.world }
      else l'

  -- The calls of one burst, in order.
  unfoldable pub perform : ℕ → Burst W → UringEventLoop W → UringEventLoop W
  unfolding stop
  perform fuel suspend l = l
  perform fuel (works f k) l = perform fuel (k (f l.world)) (record l { world = f l.world })
  perform fuel (schedules h k) l = perform fuel k (schedule h l)
  perform fuel (completes k) l = perform fuel k (on_task_completed l)
  perform fuel (spawns h k) l = perform fuel k (spawn h l)
  perform fuel (arms fd h readable timeout e k) l =
      let r = arm_waiter os fd h readable timeout e l in perform fuel (k r.0) r.1
  perform fuel (consumes h k) l = let r = consume_wait_result h l in perform fuel (k r.0) r.1
  perform fuel (stops k) l = perform fuel k (stop fuel l)

module _ {W : Type 0} where
  unfoldable pub cleanup_completed_roots : Frames W → UringEventLoop W → UringEventLoop W
  unfolding sweep_roots
  cleanup_completed_roots frames l =
      let swept = sweep_roots frames l.root_tasks l.world in
      record l { root_tasks = swept.0; world = swept.1 }

  -- `stop_requested_ || loop_error_.has_value()`
  abbrev pub is_halted : UringEventLoop W → Bool
  is_halted l = l.stop_requested || not (is_none l.loop_error)

-- The timeout in milliseconds that the ring is given at the time `now`; none for no deadline.
unfoldable pub wait_timeout : ℕ → Option ℕ → Option ℤ
wait_timeout now none = none
wait_timeout now (some deadline) =
    if leb deadline now
    then some (pos 0)
    else some (pos (min ((deadline - now) / 1_000_000) (2 ^ 31 - 1)))

-- Where the outer loop goes after the ready queue is drained: it returns, breaks, or goes round again.
pub data Verdict (W : Type 0) : Type 0 where
  returns : Status × UringEventLoop W → Verdict W
  breaks : UringEventLoop W → Verdict W
  again : UringEventLoop W → Verdict W

module _ {W : Type 0} (os : RingSystem W) (frames : Frames W) where
  -- One round of the inner loop, for the handle taken off the queue.
  unfoldable pub run_handle : ℕ → ℕ → UringEventLoop W → UringEventLoop W
  unfolding perform cleanup_completed_roots
  run_handle fuel h l =
      process_expired_waiters os
        (cleanup_completed_roots frames (perform os fuel (frames.resume h l.world) l))

  -- The inner `while`, on fuel; `none` when that runs out.
  unfoldable pub drain_ready : ℕ → ℕ → UringEventLoop W → Option (UringEventLoop W)
  unfolding run_handle
  drain_ready zero retries l = none
  drain_ready (suc fuel) retries l = elim l.ready_queue [
    | [] ↦ some l
    | h ∷ queue ↦
        let l₁ = record l { ready_queue = queue } in
        let skipped = drain_ready fuel retries l₁ in
        let l₂ = run_handle retries h l₁ in
        let next = drain_ready fuel retries l₂ in
        if h == 0 || frames.is_done h l₁.world
        then skipped
        else if is_halted l₂
        then some l₂
        else next
  ]

  -- The `for` loop over the completions of one wait.
  unfoldable pub dispatch : ℕ → List Completion → UringEventLoop W → UringEventLoop W
  unfolding process_completion
  dispatch retries [] l = l
  dispatch retries (c ∷ completions) l =
      let l' = process_completion os retries c l in
      let rest = dispatch retries completions l' in if is_none l'.loop_error then rest else l'

  -- `if (!flush_result.has_value() && !loop_error_.has_value()) loop_error_ = ...`
  abbrev note_error : Status × UringEventLoop W → UringEventLoop W
  note_error (ok _, l) = l
  note_error (err e, l) = if is_none l.loop_error then record l { loop_error = some e } else l

  -- Behind the outer `while`: the roots are cleaned up and what is queued is submitted.
  unfoldable pub finish : UringEventLoop W → Status × UringEventLoop W
  unfolding cleanup_completed_roots flush_submissions
  finish l =
      let l' = note_error (flush_submissions os (cleanup_completed_roots frames l)) in
      (as_status l'.loop_error, l')

  -- What follows a wait: its error is returned, its completions are processed.
  unfoldable pub deliver : ℕ → UringEventLoop W → Result (List Completion) × W → Verdict W
  unfolding dispatch
  deliver retries l (err e, w) = returns (err e, record l { world = w })
  deliver retries l (ok completions, w) =
      again (dispatch retries completions (record l { world = w }))

  -- The flush, then `reactor_.wait` on 64 slots with the timeout computed before.
  unfoldable pub flush_and_wait : ℕ → Option ℤ → UringEventLoop W → Verdict W
  unfolding flush_submissions Reactor.wait deliver
  flush_and_wait retries timeout l =
      let (submit_result, l') = flush_submissions os l in
      let next = deliver retries l' (Reactor.wait os.ring l'.reactor 64 timeout l'.world) in
      elim submit_result [ err e ↦ returns (err e, l') | ok _ ↦ next ]

  -- The clock is read if there is a deadline.
  unfoldable pub wait_and_dispatch : ℕ → UringEventLoop W → Verdict W
  unfolding wait_timeout flush_and_wait
  wait_and_dispatch retries l = elim l.next_deadline [
    | none ↦ flush_and_wait retries none l
    | some d ↦
        let (now, w) = os.now l.world in
        flush_and_wait retries (wait_timeout now (some d)) (record l { world = w })
  ]

  unfoldable pub after_drain : ℕ → UringEventLoop W → Verdict W
  unfolding wait_and_dispatch
  after_drain retries l =
      let next = wait_and_dispatch retries l in
      if is_halted l then breaks l else elim l.ready_queue [
        | h ∷ queue ↦ again l
        | [] ↦
            if l.active_task_count == 0 && l.pending_waiter_count == 0
            then breaks l
            else if l.pending_waiter_count == 0
            then returns (err (from_errno edeadlk), l)
            else next
      ]

  -- The outer `while`, on fuel; `none` when that runs out.
  unfoldable pub rounds : ℕ → Fuel → UringEventLoop W → Option (Status × UringEventLoop W)
  unfolding drain_ready finish after_drain process_expired_waiters
  rounds zero fuel l = none
  rounds (suc n) fuel l =
      let l₁ = process_expired_waiters os l in
      let onwards : Option (Status × UringEventLoop W) =
        elim (drain_ready fuel.drains fuel.retries l₁) [
          | none ↦ none
          | some l₂ ↦ elim (after_drain fuel.retries l₂) [
            | returns r ↦ some r
            | breaks l₃ ↦ some (finish l₃)
            | again l₃ ↦ rounds n fuel l₃
          ]
        ] in
      if l.stop_requested
      then some (finish l)
      else if is_halted l₁
      then some (finish l₁)
      else onwards

  unfoldable pub run : ℕ → Fuel → UringEventLoop W → Option (Status × UringEventLoop W)
  unfolding rounds
  run n fuel l =
      if valid l
      then rounds n fuel (record l { stop_requested = false; loop_error = none })
      else some (err (value_or l.init_error (from_errno einval)), l)

-- ===== src/Uring/Lifetime.antt =====
-- The constructor and the destructor of `uring_event_loop`.
use libsimplenet.Base.{ℕ, is_negative, false, none, some, [], if◌then◌else◌}
use libsimplenet.Core.{from_errno, Result, ok, err, Status}
use libsimplenet.Core.UniqueFd.{none_owned}
use libsimplenet.System.{RingSystem}
use libsimplenet.EventLoop.Run.{Frames}
use libsimplenet.EventLoop.Lifetime.{destroy_roots}
use libsimplenet.Uring.Reactor
use libsimplenet.Uring.Reactor.{Reactor, empty_reactor}
use libsimplenet.Uring.State.{UringEventLoop}
use libsimplenet.Uring.Polls.{allocate_token, flush_submissions, queue_poll_add, read_poll_mask}

module _ {W : Type 0} where
  -- The default member initializers, in a world.
  abbrev pub blank : W → UringEventLoop W
  blank w = record {
    reactor = empty_reactor;
    init_error = none;
    loop_error = none;
    ready_queue = [];
    waiters = [];
    inflight_polls = [];
    wait_results = [];
    root_tasks = [];
    pending_waiter_count = 0;
    timed_waiter_count = 0;
    active_task_count = 0;
    next_deadline = none;
    deadline_index_dirty = false;
    next_token = 1;
    wake_token = 0;
    submission_pending = false;
    stop_requested = false;
    wake_fd = none_owned;
    world = w;
  }

  -- A failed step of the set-up is recorded in `init_error_`.
  abbrev pub note_init : Status × UringEventLoop W → UringEventLoop W
  note_init (status, l) = elim status [ ok _ ↦ l | err e ↦ record l { init_error = some e } ]

  -- From `allocate_token` on.
  abbrev pub poll_wakeup : RingSystem W → UringEventLoop W → UringEventLoop W
  poll_wakeup os l =
      let (token, l₀) = allocate_token l in
      let l₁ = record l₀ { wake_token = token } in
      let (wake_add, l₂) = queue_poll_add os token l₁.wake_fd.fd read_poll_mask l₁ in
      let flushed = note_init (flush_submissions os l₂) in
      elim wake_add [ err e ↦ record l₂ { init_error = some e } | ok _ ↦ flushed ]

  abbrev pub with_wakeup : RingSystem W → UringEventLoop W → UringEventLoop W
  with_wakeup os l =
      let out = os.eventfds.eventfd l.world in
      let polled =
        poll_wakeup os (record l { wake_fd = record { fd = out.value }; world = out.world }) in
      if is_negative out.value
      then record l { init_error = some (from_errno out.errno); world = out.world }
      else polled

  abbrev pub adopt : RingSystem W → Result Reactor × W → UringEventLoop W
  adopt os (err e, w) = record (blank w) { init_error = some e }
  adopt os (ok r, w) = with_wakeup os (record (blank w) { reactor = r })

  unfoldable pub construct : RingSystem W → ℕ → W → UringEventLoop W
  unfolding Reactor.create
  construct os queue_depth w = adopt os (Reactor.create os.ring queue_depth w)

  unfoldable pub destroy_all_roots : Frames W → UringEventLoop W → UringEventLoop W
  unfolding destroy_roots
  destroy_all_roots frames l = record l {
    root_tasks = [];
    waiters = [];
    inflight_polls = [];
    wait_results = [];
    pending_waiter_count = 0;
    active_task_count = 0;
    world = destroy_roots frames l.root_tasks l.world;
  }

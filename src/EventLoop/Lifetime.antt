-- ===== src/EventLoop/Lifetime.antt =====
-- The constructor and the destructor of `event_loop`.
use libsimplenet.Base.{
  ℕ, is_negative, ◌≡◌, refl, ◌==◌, if_elim, arith, true, false, Option, none, some, List, [], ◌∷◌,
  if◌then◌else◌,
}
use libsimplenet.Core.{Error, from_errno, Status, Result, ok, err}
use libsimplenet.Core.UniqueFd
use libsimplenet.Core.UniqueFd.{none_owned}
use libsimplenet.System.{LoopSystem}
use libsimplenet.Reactor
use libsimplenet.Reactor.{Reactor, empty_reactor}
use libsimplenet.EventLoop.State.{EventLoop, valid}
use libsimplenet.EventLoop.Interest.{epollin}
use libsimplenet.EventLoop.Invariant.{IsWellFormed}
use libsimplenet.EventLoop.Run.{Frames}

abbrev error_of : Status → Option Error
error_of (ok _) = none
error_of (err e) = some e

module _ {W : Type 0} where
  -- The default member initializers, in a world.
  abbrev pub blank : W → EventLoop W
  blank w = record {
    reactor = empty_reactor;
    init_error = none;
    loop_error = none;
    ready_queue = [];
    waiters = [];
    wait_results = [];
    root_tasks = [];
    pending_waiter_count = 0;
    timed_waiter_count = 0;
    active_task_count = 0;
    next_deadline = none;
    deadline_index_dirty = false;
    stop_requested = false;
    wake_fd = none_owned;
    world = w;
  }

  abbrev with_wakeup : LoopSystem W → EventLoop W → EventLoop W
  with_wakeup os l =
      let out = os.eventfds.eventfd l.world in
      let added = Reactor.add os.epoll l.reactor out.value epollin out.world in
      if is_negative out.value
      then record l { init_error = some (from_errno out.errno); world = out.world }
      else record l {
        wake_fd = record { fd = out.value };
        init_error = error_of added.0;
        world = added.1;
      }

  abbrev adopt : LoopSystem W → Result Reactor × W → EventLoop W
  adopt os (err e, w) = record (blank w) { init_error = some e }
  adopt os (ok r, w) = with_wakeup os (record (blank w) { reactor = r })

  unfoldable pub construct : LoopSystem W → W → EventLoop W
  construct os w = adopt os (Reactor.create os.epoll w)

  -- Every root that is left is destroyed.
  unfoldable pub destroy_roots : Frames W → List ℕ → W → W
  destroy_roots frames [] w = w
  destroy_roots frames (h ∷ roots) w =
      destroy_roots frames roots (if h == 0 then w else frames.destroy h w)

  unfoldable pub destroy_all_roots : Frames W → EventLoop W → EventLoop W
  unfolding destroy_roots
  destroy_all_roots frames l = record l {
    root_tasks = [];
    world = destroy_roots frames l.root_tasks l.world;
  }

module _ {W : Type 0} (os : LoopSystem W) (w : W) where
  blank-IsWellFormed :
      (l : EventLoop W)
      → l.waiters ≡ []
      → l.pending_waiter_count ≡ 0
      → l.timed_waiter_count ≡ 0
      → IsWellFormed l
  blank-IsWellFormed l e p t = record {
    counted = record { pending = rw (e, p) refl; timed = rw (e, t) refl };
    settled = rw e tt;
    index = λ _. rw e tt;
  }

  -- A new loop is well-formed, also when its set-up failed. If no error is recorded, it is valid and
  -- owns a wake-up descriptor.
  pub construct_lem :
      IsWellFormed (construct os w)
      × ((construct os w).init_error ≡ none
          → (valid (construct os w) ≡ true) × (UniqueFd.valid (construct os w).wake_fd ≡ true))
  unfolding construct Reactor.create valid Reactor.valid UniqueFd.valid
  construct_lem =
      if_elim (λ r. goal (adopt os r)) (is_negative (os.epoll.epoll_create1 w).value)
        (λ _. (blank-IsWellFormed _ refl refl refl, λ h. cc))
        λ made.
          let l = record (blank (os.epoll.epoll_create1 w).world) {
            reactor = record { epoll_fd = record { fd = (os.epoll.epoll_create1 w).value } };
          } in
          if_elim goal (is_negative (os.eventfds.eventfd l.world).value)
            (λ _. (blank-IsWellFormed _ refl refl refl, λ h. cc))
            λ woken. (blank-IsWellFormed _ refl refl refl, λ h. (ground arith, ground arith))
    where
      goal : EventLoop W → Type 0
      goal l =
          IsWellFormed l
          × (l.init_error ≡ none → (valid l ≡ true) × (UniqueFd.valid l.wake_fd ≡ true))

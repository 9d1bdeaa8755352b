-- ===== src/Engine.antt =====
-- include/simplenet/runtime/engine.hpp and src/runtime/engine.cpp: an owner of the event loop of the
-- backend chosen. Both loops fill the scheduler interface that the awaited operations use.
pub mod Choice
use libsimplenet.Base.{ℕ, Bool, false, Option, none, some}
use libsimplenet.Core.{from_errno, err, Status}
use libsimplenet.Core.Errno.{einval}
use libsimplenet.System.{LoopSystem, RingSystem}
use libsimplenet.EventLoop.State.{EventLoop}
use libsimplenet.EventLoop.State as Epoll
use libsimplenet.EventLoop.Waiters as EpollWaiters
use libsimplenet.EventLoop.Lifetime as EpollLifetime
use libsimplenet.EventLoop.Run as EpollRun
use libsimplenet.EventLoop.Run.{Frames, Fuel}
use libsimplenet.Uring.State.{UringEventLoop}
use libsimplenet.Uring.State as Ring
use libsimplenet.Uring.Waiters as RingWaiters
use libsimplenet.Uring.Lifetime as RingLifetime
use libsimplenet.Uring.Run as RingRun
use libsimplenet.IoOps.Waiting.{Scheduler}

pub data Backend : Type 0 where
  epoll io_uring : Backend

pub record Engine (W : Type 0) : Type 0 where
  pub backend : Backend
  pub epoll_loop : Option (EventLoop W)
  pub uring_loop : Option (UringEventLoop W)

module _ {W : Type 0} where
  unfoldable pub selected_backend : Engine W → Backend
  selected_backend e = e.backend

  unfoldable pub valid : Engine W → Bool
  unfolding Epoll.valid Ring.valid
  valid e = elim e.epoll_loop [
    | some l ↦ Epoll.valid l
    | none ↦ elim e.uring_loop [ some l ↦ Ring.valid l | none ↦ false ]
  ]

  -- `spawn`, of a task that owns `handle` (0 if it is empty).
  unfoldable pub spawn : ℕ → Engine W → Engine W
  unfolding Epoll.spawn Ring.spawn
  spawn handle e = elim e.epoll_loop [
    | some l ↦ record e { epoll_loop = some (Epoll.spawn handle l) }
    | none ↦ elim e.uring_loop [
      | some l ↦ record e { uring_loop = some (Ring.spawn handle l) }
      | none ↦ e
    ]
  ]

module _ {W : Type 0} (os : LoopSystem W) (ring : RingSystem W) where
  unfoldable pub engine : Backend → ℕ → W → Engine W
  unfolding EpollLifetime.construct RingLifetime.construct
  engine epoll depth w = record {
    backend = epoll;
    epoll_loop = some (EpollLifetime.construct os w);
    uring_loop = none;
  }
  engine io_uring depth w = record {
    backend = io_uring;
    epoll_loop = none;
    uring_loop = some (RingLifetime.construct ring depth w);
  }

  -- The run of an engine: what its loop returns, with the loop put back.
  unfoldable pub run : Frames W → ℕ → Fuel → Engine W → Option (Status × Engine W)
  unfolding EpollRun.run RingRun.run
  run frames n fuel e = elim e.epoll_loop [
    | some l ↦ elim (EpollRun.run os frames n fuel l) [
      | none ↦ none
      | some r ↦ some (r.0, record e { epoll_loop = some r.1 })
    ]
    | none ↦ elim e.uring_loop [
      | some l ↦ elim (RingRun.run ring frames n fuel l) [
        | none ↦ none
        | some r ↦ some (r.0, record e { uring_loop = some r.1 })
      ]
      | none ↦ some (err (from_errno einval), e)
    ]
  ]

  unfoldable pub stop : ℕ → Engine W → Engine W
  unfolding EpollRun.stop RingRun.stop
  stop retries e = elim e.epoll_loop [
    | some l ↦ record e { epoll_loop = some (EpollRun.stop os retries l) }
    | none ↦ elim e.uring_loop [
      | some l ↦ record e { uring_loop = some (RingRun.stop ring retries l) }
      | none ↦ e
    ]
  ]

-- The overrides of the two loops.
abbrev pub epoll_scheduler : {W : Type 0} → LoopSystem W → Scheduler (EventLoop W)
epoll_scheduler os = record {
  schedule = Epoll.schedule;
  on_task_completed = Epoll.on_task_completed;
  wait_for_readable = EpollWaiters.wait_for_readable os;
  wait_for_writable = EpollWaiters.wait_for_writable os;
  consume_wait_result = Epoll.consume_wait_result;
}

abbrev pub uring_scheduler : {W : Type 0} → RingSystem W → Scheduler (UringEventLoop W)
uring_scheduler ring = record {
  schedule = Ring.schedule;
  on_task_completed = Ring.on_task_completed;
  wait_for_readable = RingWaiters.wait_for_readable ring;
  wait_for_writable = RingWaiters.wait_for_writable ring;
  consume_wait_result = Ring.consume_wait_result;
}

-- ===== src/Engine/Choice.antt =====
-- An engine has the loop of its backend and no other, from its construction on.
use libsimplenet.Base.{ℕ, Option, none, some, option_elim}
use libsimplenet.Core.{Status}
use libsimplenet.System.{LoopSystem, RingSystem}
use libsimplenet.EventLoop.State.{EventLoop}
use libsimplenet.EventLoop.State as Epoll
use libsimplenet.EventLoop.Run as EpollRun
use libsimplenet.EventLoop.Run.{Frames, Fuel}
use libsimplenet.Uring.State.{UringEventLoop}
use libsimplenet.Uring.State as Ring
use libsimplenet.Uring.Run as RingRun
use libsimplenet.Engine.{Backend, epoll, io_uring, Engine, engine, spawn, run, stop}

module _ {W : Type 0} where
  -- Only the loop of the selected backend is there.
  pub data IsSelected : Engine W → Type 0 where
    selects_epoll :
        (l : EventLoop W)
        → IsSelected (record { backend = epoll; epoll_loop = some l; uring_loop = none })
    selects_uring :
        (l : UringEventLoop W)
        → IsSelected (record { backend = io_uring; epoll_loop = none; uring_loop = some l })

  -- A spawned task goes to the selected loop.
  pub spawn-IsSelected : (handle : ℕ) (e : Engine W) → IsSelected e → IsSelected (spawn handle e)
  unfolding spawn
  spawn-IsSelected handle _ (selects_epoll l) = selects_epoll (Epoll.spawn handle l)
  spawn-IsSelected handle _ (selects_uring l) = selects_uring (Ring.spawn handle l)

  abbrev KeepsSelected : Option (Status × Engine W) → Type 0
  KeepsSelected none = Unit
  KeepsSelected (some r) = IsSelected r.1

module _ {W : Type 0} (os : LoopSystem W) (ring : RingSystem W) where
  -- An engine is constructed with the loop of the backend chosen.
  pub engine-IsSelected : (b : Backend) (depth : ℕ) (w : W) → IsSelected (engine os ring b depth w)
  unfolding engine
  engine-IsSelected epoll depth w = selects_epoll _
  engine-IsSelected io_uring depth w = selects_uring _

  pub stop-IsSelected :
      (retries : ℕ) (e : Engine W) → IsSelected e → IsSelected (stop os ring retries e)
  unfolding stop
  stop-IsSelected retries _ (selects_epoll l) = selects_epoll (EpollRun.stop os retries l)
  stop-IsSelected retries _ (selects_uring l) = selects_uring (RingRun.stop ring retries l)

  -- A run that ends leaves the engine with its loop.
  pub run-KeepsSelected :
      (frames : Frames W) (n : ℕ) (fuel : Fuel) (e : Engine W)
      → IsSelected e
      → KeepsSelected (run os ring frames n fuel e)
  unfolding run
  run-KeepsSelected frames n fuel _ (selects_epoll l) =
      option_elim KeepsSelected (EpollRun.run os frames n fuel l) (λ _. tt)
        λ r _. selects_epoll (r.1)
  run-KeepsSelected frames n fuel _ (selects_uring l) =
      option_elim KeepsSelected (RingRun.run ring frames n fuel l) (λ _. tt)
        λ r _. selects_uring (r.1)

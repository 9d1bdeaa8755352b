-- ===== src/System.antt =====
-- What the library asks of the operating system, as parameters of the models: the system calls that
-- the sources make, over a state `W` of the world outside the program. The calls are not code of
-- this repository and have no definition here.
use libsimplenet.Base.{ℕ, ℤ, Bool, List, Option}
use libsimplenet.Core.{Outcome}

-- `EPOLL_CTL_ADD`, `EPOLL_CTL_MOD` and `EPOLL_CTL_DEL`
pub data CtlOp : Type 0 where
  ctl_add ctl_mod ctl_del : CtlOp

-- `struct epoll_event` with its `data.fd`, and `ready_event`.
pub record ReadyEvent : Type 0 where
  pub fd : ℤ
  pub events : ℕ

pub record EpollCalls (W : Type 0) : Type 0 where
  -- `epoll_create1(EPOLL_CLOEXEC)`
  pub epoll_create1 : W → Outcome W
  -- `epoll_ctl(epfd, op, fd, event)`; the event pointer may be null
  pub epoll_ctl : ℤ → CtlOp → ℤ → Option ReadyEvent → W → Outcome W
  -- `epoll_wait(epfd, events, maxevents, timeout)` and the events that it writes
  pub epoll_wait : ℤ → ℤ → ℤ → W → Outcome W × List ReadyEvent

-- `eventfd(0, EFD_NONBLOCK | EFD_CLOEXEC)`, and `read` and `write` of its counter.
pub record EventFdCalls (W : Type 0) : Type 0 where
  pub eventfd : W → Outcome W
  pub read_counter : ℤ → W → Outcome W
  pub write_counter : ℤ → ℕ → W → Outcome W

-- What an event loop over epoll uses. `now` reads `steady_clock`, in nanoseconds.
pub record LoopSystem (W : Type 0) : Type 0 where
  pub epoll : EpollCalls W
  pub eventfds : EventFdCalls W
  pub now : W → ℕ × W

-- `completion`: what the sources keep of a `struct io_uring_cqe`.
pub record Completion : Type 0 where
  pub user_data : ℕ
  pub result : ℤ

-- Memory for a ring, and liburing's calls on it. A ring is its address, 0 for null; a failed call
-- returns the negated errno.
pub record RingCalls (W : Type 0) : Type 0 where
  -- `new (std::nothrow) io_uring{}` and `delete`
  pub allocate : W → ℕ × W
  pub release : ℕ → W → W
  -- `io_uring_queue_init(entries, ring, 0)` and `io_uring_queue_exit`
  pub queue_init : ℕ → ℕ → W → ℤ × W
  pub queue_exit : ℕ → W → W
  -- `io_uring_get_sqe`: whether there is a free entry
  pub get_sqe : ℕ → W → Bool × W
  -- `io_uring_prep_poll_add(fd, mask)` and `io_uring_prep_poll_remove(target)` on the entry just got,
  -- with the user data that is set for it last
  pub prep_poll_add : ℕ → ℤ → ℕ → ℕ → W → W
  pub prep_poll_remove : ℕ → ℕ → ℕ → W → W
  pub submit : ℕ → W → ℤ × W
  -- `io_uring_wait_cqe_timeout` with its seconds and nanoseconds, and `io_uring_wait_cqe`
  pub wait_cqe_timeout : ℕ → ℕ → ℕ → W → ℤ × Completion × W
  pub wait_cqe : ℕ → W → ℤ × Completion × W
  pub peek_cqe : ℕ → W → ℤ × Option Completion × W
  pub cqe_seen : ℕ → W → W

-- What an event loop over io_uring uses. `now` reads `steady_clock`, in nanoseconds.
pub record RingSystem (W : Type 0) : Type 0 where
  pub ring : RingCalls W
  pub eventfds : EventFdCalls W
  pub now : W → ℕ × W

-- ===== src/Lib.antt =====
-- A model of simplenet, a C++ library of sockets, coroutines and event loops for Linux.
--
-- An application spawns coroutines on an event loop. A coroutine that would block arms a waiter for a
-- descriptor, with or without a timeout, and suspends; the loop sleeps in its reactor, a wrapper of
-- epoll, and resumes the coroutines whose descriptors became ready or whose deadlines passed. The
-- write queue buffers outgoing bytes for a stream and writes them in such waits.
--
-- Where each part stands:
--  * Core (include/simplenet/core, src/core): `Core.Results` has `error` and `result`, `Core.UniqueFd`
--    the owner of a descriptor, each operation with the descriptors that it closes.
--  * System: the system calls, as parameters over an opaque state `W` of the world.
--  * Reactor (src/epoll/reactor.cpp): `create`, `ctl`, `add`, `modify`, `remove` and `wait`.
--  * EventLoop (src/runtime/event_loop.cpp): the record `EventLoop` has the class's fields, and each
--    member function is a function from loop to loop. `EventLoop.Lifetime` constructs and destroys,
--    `EventLoop.Interest` is `refresh_interest`, `EventLoop.Waiters` is `arm_waiter`,
--    `EventLoop.Dispatch` has `process_expired_waiters` and `process_ready_event`, `EventLoop.Run` has
--    `run` and `stop`. `EventLoop.Invariant` says what a well-formed loop is: the counters count the
--    waiters, each slot is occupied and its recorded mask is the one its waiters ask for, and a deadline
--    index that counts as up to date is no later than any deadline.
--  * Uring (src/uring/reactor.cpp, src/runtime/uring_event_loop.cpp): the second backend. `Uring.Reactor`
--    wraps an io_uring ring, `Uring.State` has the fields of `uring_event_loop`, `Uring.Polls` its poll
--    requests and their tokens, `Uring.Waiters`, `Uring.Expiry`, `Uring.Completions`, `Uring.Run` and
--    `Uring.Lifetime` its operations. Coroutines are those of `EventLoop.Run`.
--  * WriteQueue (src/runtime/write_queue.cpp): the buffered writer with its watermarks.
--  * Sockets (src/nonblocking/tcp.cpp, src/blocking): `Sockets.Calls` has the calls of the socket API as
--    parameters and chains them, `Sockets.Address` endpoints and addresses, `Sockets.Nonblocking` and
--    `Sockets.Blocking` the streams and listeners, `Sockets.Datagrams` the datagram sockets. The copies
--    of `to_sockaddr` and `set_reuse_addr` in src/nonblocking/tcp.cpp are the same functions as those of
--    src/blocking/socket_helpers.cpp and have one definition each.
--  * Endpoints (src/runtime/resolver.cpp): the text of an endpoint, parsed and formatted.
--  * IoOps (src/runtime/io_ops.cpp, include/simplenet/runtime/cancel.hpp): the awaited operations.
--    `IoOps.Waiting` suspends on a scheduler, `IoOps.Streams` and `IoOps.Timed` retry the calls of
--    `Sockets.Nonblocking`, `IoOps.Sleep` waits on a timer, `IoOps.Cancel` has the flags of tokens.
--    `IoOps.Delivery` puts the timed write under the write queue.
--  * Engine (include/simplenet/runtime/engine.hpp, src/runtime/engine.cpp): the owner of the loop of
--    the backend chosen. Here both loops fill the `Scheduler` interface of `IoOps.Waiting`.
--  * Task (include/simplenet/runtime/task.hpp): the promise of a coroutine, its final suspension, the
--    awaiter of a task and the ownership of its frame.
--
-- How the code is rendered: `int` and `ssize_t` are ℤ, an errno and a mask ℕ, a coroutine handle its
-- address with 0 for null, a `steady_clock` time its nanoseconds; an `unordered_map` is an association
-- list, so that its unspecified order of traversal is any order of the list; `time_point::max()` with
-- its flag is an absent deadline. Counters of type `std::size_t` count objects in memory and are
-- unbounded. The deadline of `async_sleep` is a signed integer of 64 bits that wraps around; the
-- deadlines of the loops and of the timed operations are unbounded, as if their sums fitted. A
-- coroutine's body is user code: `EventLoop.Run.Frames` gives, for a handle, the calls that it makes
-- up to its next suspension, in any number and order.
--
-- Fuel: the retries of `read` and `write` on the wake-up counter after EINTR, which the kernel may
-- repeat without bound, are on fuel, and so are the loops of `run`, which need not end for every
-- program. The loop of `flush` is on fuel too; one more than the bytes queued is enough, since every
-- round but the last takes a byte off the queue; `write_all` and `read_exact` need one more than the
-- bytes to transfer and the interruptions (EINTR) to come. The search for a free token needs a round for
-- each request in flight and two more. The awaited loops need more rounds than their calls would block,
-- which the patience of a world counts. `async_sleep` needs a round for each nanosecond of its duration
-- and one more, on a clock that has moved on after each wait.
--
-- Not modelled: the effects of other threads on the stop flag; the category and the text of an error;
-- the worker thread of the resolver, and the facade headers, which are aliases, includes and calls passed
-- on.
pub mod Base
pub mod Core
pub mod System
pub mod Reactor
pub mod EventLoop
pub mod Uring
pub mod WriteQueue
pub mod Sockets
pub mod Endpoints
pub mod IoOps
pub mod Engine
pub mod Task

-- ===== src/Uring.antt =====
-- The io_uring backend: include/simplenet/uring/reactor.hpp, src/uring/reactor.cpp,
-- include/simplenet/runtime/uring_event_loop.hpp and src/runtime/uring_event_loop.cpp. `Reactor`
-- wraps the ring, `State` has the loop's fields, `Polls` its poll requests and their tokens,
-- `Waiters` arms waiters, `Expiry` and `Completions` end them, `Run` is the loop, `Lifetime`
-- constructs and destroys it, and `Invariant` says when it is well-formed. The modules below these
-- prove their laws.
pub mod Reactor
pub mod State
pub mod Polls
pub mod Waiters
pub mod Expiry
pub mod Completions
pub mod Run
pub mod Lifetime
pub mod Invariant
pub mod Examples

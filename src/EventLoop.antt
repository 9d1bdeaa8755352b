-- ===== src/EventLoop.antt =====
-- include/simplenet/runtime/event_loop.hpp and src/runtime/event_loop.cpp: the coroutine scheduler
-- over epoll. `State` has the class's fields, `Interest` and `Waiters` arm waiters, `Dispatch` ends
-- them by deadline or readiness, `Run` is the loop; the modules below these prove their laws.
pub mod State
pub mod Interest
pub mod Waiters
pub mod Dispatch
pub mod Run
pub mod Invariant
pub mod Slots
pub mod Examples
pub mod Lifetime

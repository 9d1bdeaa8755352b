-- ===== src/IoOps.antt =====
-- include/simplenet/runtime/io_ops.hpp, src/runtime/io_ops.cpp and
-- include/simplenet/runtime/cancel.hpp: what coroutines await. A `task` that is awaited runs to its
-- end before the awaiting one goes on, so that an operation is a function on the world; `Waiting`
-- has the suspension itself, `Streams` the operations without a timeout, `Timed` those with one,
-- `Sleep` the timer. The loops have no bound in the code: here they are on fuel.
pub mod Cancel
pub mod Waiting
pub mod Streams
pub mod Timed
pub mod Sleep
pub mod Loops
pub mod Writing
pub mod Delivery
pub mod Lateness
pub mod Examples

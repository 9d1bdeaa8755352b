-- ===== src/Core.antt =====
-- Errors, results and descriptors: src/core/ and include/simplenet/core/.
mod Results
pub mod Errno
pub mod UniqueFd
pub use Results.{Error, from_errno, Result, ok, err, Status, done, Outcome, result_elim}
pub mod Examples

-- ===== src/IoOps/Timed.antt =====
-- `async_read_some_with_timeout` and `async_write_some_with_timeout`.
use libsimplenet.Base.{
  ℕ, zero, suc, ℤ, pos, is_negative, pos_part, ◌+◌, ◌-◌, ◌/◌, leb, min, max, Bool, not, Option,
  none, some, List, if◌then◌else◌,
}
use libsimplenet.Core.{Error, from_errno, ok, err, Status}
use libsimplenet.Core.Errno.{einval, ecanceled, etimedout}
use libsimplenet.Core.UniqueFd.{UniqueFd}
use libsimplenet.Sockets.Calls.{SocketCalls, Step}
use libsimplenet.Sockets.Nonblocking
use libsimplenet.Sockets.Nonblocking.{is_would_block}
use libsimplenet.EventLoop.Waiters.{ms}
use libsimplenet.IoOps.Cancel.{CancelToken, stop_requested}
use libsimplenet.IoOps.Waiting.{Coroutines, is_timeout_error, wait_readable_for, wait_writable_for}
use libsimplenet.IoOps.Streams.{Run}

-- The clock in nanoseconds, and the flags behind the cancel tokens.
pub record Ambient (W : Type 0) : Type 0 where
  pub now : W → ℕ × W
  pub flags : W → List Bool

-- At most 20 milliseconds, at least one, of the time that is left.
abbrev pub slice : ℕ → ℕ → ℕ
slice deadline now = max 1 (min ((deadline - now) / 1_000_000) 20)

-- `!wait_result.has_value() && !is_timeout_error(wait_result.error())`, and the error then.
abbrev pub wait_failure : Status → Option Error
wait_failure (ok _) = none
wait_failure (err e) = if is_timeout_error e then none else some e

module _ {W : Type 0} (env : Ambient W) (token : CancelToken) where
  -- The common `while` loop, with `attempt` and a `wait` for a number of milliseconds.
  unfoldable pub until_deadline :
      {A : Type 0} → ℕ → ℕ → Step W A → (ℤ → Step W (Unit {0})) → Run W A
  unfolding is_would_block stop_requested is_timeout_error
  until_deadline zero deadline attempt wait w = none
  until_deadline (suc fuel) deadline attempt wait w =
      let (tried, w₁) = attempt w in
      let (now, w₂) = env.now w₁ in
      let (waited, w₃) = wait (pos (slice deadline now)) w₂ in
      let again = until_deadline fuel deadline attempt wait w₃ in
      if stop_requested token (env.flags w)
      then some (err (from_errno ecanceled), w)
      else elim tried [
        | ok a ↦ some (ok a, w₁)
        | err e ↦
            if not (is_would_block e)
            then some (err e, w₁)
            else if leb deadline now
            then some (err (from_errno etimedout), w₂)
            else elim (wait_failure waited) [ some x ↦ some (err x, w₃) | none ↦ again ]
      ]

  -- The check of the timeout, and the deadline.
  abbrev with_deadline : {A : Type 0} → ℤ → (ℕ → Run W A) → Run W A
  with_deadline timeout body w =
      let (now, w₁) = env.now w in
      if is_negative timeout
      then some (err (from_errno einval), w)
      else body (now + ms (pos_part timeout)) w₁

  module _ (os : SocketCalls W) (co : Coroutines W) where
    unfoldable pub async_read_some_with_timeout : ℕ → UniqueFd → ℕ → ℤ → Run W (List ℕ)
    unfolding until_deadline Nonblocking.read_some wait_readable_for
    async_read_some_with_timeout fuel s size timeout = with_deadline timeout λ deadline.
        until_deadline fuel deadline (Nonblocking.read_some os s size) (wait_readable_for co s.fd)

    unfoldable pub async_write_some_with_timeout : ℕ → UniqueFd → List ℕ → ℤ → Run W ℕ
    unfolding until_deadline Nonblocking.write_some wait_writable_for
    async_write_some_with_timeout fuel s buffer timeout = with_deadline timeout λ deadline.
        until_deadline fuel deadline (Nonblocking.write_some os s buffer)
          (wait_writable_for co s.fd)

-- ===== src/IoOps/Sleep.antt =====
-- `async_sleep` and the timer descriptor that a thread's sleeps share.
use libsimplenet.Base.{
  ℕ, zero, suc, ℤ, ℤ_discrete, pos, negsuc, to_int64, is_negative, is_not_positive, pos_part, ◌+◌,
  ◌*◌, ◌/◌, ◌%◌, ◌==◌, leb, Bool, true, not, ◌&&◌, ◌||◌, Option, none, some, if◌then◌else◌, ite,
}
use libsimplenet.Core.{from_errno, ok, err, done, Outcome}
use libsimplenet.Core.Errno.{ecanceled, eintr, eagain, ewouldblock}
use libsimplenet.Core.UniqueFd.{UniqueFd, none_owned}
use libsimplenet.EventLoop.Waiters.{ms}
use libsimplenet.IoOps.Cancel.{CancelToken, stop_requested}
use libsimplenet.IoOps.Waiting.{Coroutines, wait_readable}
use libsimplenet.IoOps.Streams.{Run}
use libsimplenet.IoOps.Timed.{Ambient, slice}

-- `timerfd_create`, `timerfd_settime` with seconds and nanoseconds, and `read` of the timer; the
-- thread's `state`, none before it is initialised, and its errno.
pub record TimerCalls (W : Type 0) : Type 0 where
  pub timerfd_create : W → Outcome W
  pub settime : ℤ → ℕ → ℕ → W → Outcome W
  pub read_timer : ℤ → W → Outcome W
  pub state : W → Option UniqueFd
  pub set_state : UniqueFd → W → W
  pub errno : W → ℕ

module _ {W : Type 0} (timers : TimerCalls W) where
  -- The first call of a thread creates its timer; a descriptor of -1 says that this failed, then and
  -- from then on.
  unfoldable pub get_sleep_timerfd : W → ℤ × W
  get_sleep_timerfd w =
      let raw = timers.timerfd_create w in
      let fd = if is_negative raw.value then none_owned else record { fd = raw.value } in
      elim (timers.state w) [ some s ↦ (s.fd, w) | none ↦ (fd.fd, timers.set_state fd raw.world) ]

-- `steady_clock::now() + duration`: the milliseconds become nanoseconds, and both steps are in
-- `int64_t`; where they overflow they wrap around.
unfoldable pub deadline_after : ℕ → ℤ → ℤ
unfolding to_int64
deadline_after now duration = to_int64 (now + ms (pos_part duration))

-- `now >= deadline`, both signed; no reading of the clock is negative.
abbrev pub has_come : ℤ → ℕ → Bool
has_come (pos deadline) now = leb deadline now
has_come (negsuc _) now = true

module _ {W : Type 0} (env : Ambient W) (timers : TimerCalls W) (co : Coroutines W)
    (token : CancelToken) where
  -- The `while` loop, on fuel.
  unfoldable pub sleep_rounds : ℕ → ℤ → ℤ → Run W (Unit {0})
  unfolding stop_requested wait_readable ℤ_discrete
  sleep_rounds zero fd deadline w = none
  sleep_rounds (suc fuel) fd deadline w =
      let (now, w₁) = env.now w in
      let span = slice (pos_part deadline) now in
      let set = timers.settime fd (span / 1000) (span % 1000 * 1_000_000) w₁ in
      let (waited, w₂) = wait_readable co fd set.world in
      let out = timers.read_timer fd w₂ in
      let again = sleep_rounds fuel fd deadline out.world in
      if stop_requested token (env.flags w)
      then some (err (from_errno ecanceled), w)
      else if has_come deadline now
      then some (done, w₁)
      else ite (ℤ_discrete set.value (pos 0))
          (elim waited [
            | err e ↦ some (err e, w₂)
            | ok _ ↦
                if is_negative out.value
                  && not (out.errno == eintr || out.errno == eagain || out.errno == ewouldblock)
                then some (err (from_errno out.errno), out.world)
                else again
          ])
          (some (err (from_errno set.errno), set.world))

  unfoldable pub async_sleep : ℕ → ℤ → Run W (Unit {0})
  unfolding get_sleep_timerfd deadline_after sleep_rounds stop_requested
  async_sleep fuel duration w =
      let (timer_fd, w₀) = get_sleep_timerfd timers w in
      let (now, w₁) = env.now w₀ in
      if stop_requested token (env.flags w)
      then some (err (from_errno ecanceled), w)
      else if is_not_positive duration
      then some (done, w)
      else if is_negative timer_fd
      then some (err (from_errno (timers.errno w₀)), w₀)
      else sleep_rounds fuel timer_fd (deadline_after now duration) w₁

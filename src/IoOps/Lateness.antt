-- ===== src/IoOps/Lateness.antt =====
-- `async_sleep` ends: late, or with an error that has a cause.
use libsimplenet.Base.{
  ℕ, zero, suc, ℤ, ℤ_discrete, pos, is_negative, is_not_positive, pos_part, to_int64, ◌+◌, ◌-◌, ◌/◌,
  ◌%◌, ◌*◌, ◌^◌, ◌≤◌, ◌<◌, ◌==◌, ◌≡◌, ◌≢◌, refl, not, ◌&&◌, ◌||◌, true, false, leb, leb→le,
  false≢true, sym, ◌∙◌, if_elim, Option, some, if_pos, if_neg, arith,
}
use libsimplenet.Core.{Error, from_errno, ok, err, Result, result_elim}
use libsimplenet.Core.Errno.{ecanceled, eintr, eagain, ewouldblock}
use libsimplenet.EventLoop.Waiters.{ms}
use libsimplenet.IoOps.Cancel.{CancelToken, stop_requested}
use libsimplenet.IoOps.Waiting.{Coroutines, wait_readable}
use libsimplenet.IoOps.Timed.{Ambient, slice}
use libsimplenet.IoOps.Sleep.{
  TimerCalls, get_sleep_timerfd, deadline_after, sleep_rounds, async_sleep,
}

-- A deadline that does not overflow.
deadline_after_lem :
    (now : ℕ) (duration : ℤ)
    → now + ms (pos_part duration) < 2 ^ 63
    → deadline_after now duration ≡ pos (now + ms (pos_part duration))
unfolding deadline_after to_int64
deadline_after_lem now duration room = ground arith

module _ {W : Type 0} (env : Ambient W) (timers : TimerCalls W) (co : Coroutines W) where
  abbrev clock : W → ℕ
  clock w = (env.now w).0

  -- What the code relies on: the clock is steady, and it has moved on when the timer was set, waited
  -- for and read, whatever these calls answered.
  pub record IsClock : Type 0 where
    pub steady : (w : W) → clock w ≤ clock (env.now w).1
    pub moves :
        (fd : ℤ) (seconds nanoseconds : ℕ) (w : W)
        → clock w
          < clock
              (timers.read_timer fd
                (wait_readable co fd
                  (timers.settime fd seconds nanoseconds (env.now w).1).world).1).world

  module _ (token : CancelToken) where
    -- Why a sleep fails: its token was asked to stop; there is no timer; the timer was not set; the
    -- wait for it failed; or it was not read, for another reason than a signal or a timer that had
    -- not run out.
    pub data Cause : Error → Type 0 where
      cancelled : (v : W) → stop_requested token (env.flags v) ≡ true → Cause (from_errno ecanceled)
      no_timer :
          (v : W)
          → is_negative (get_sleep_timerfd timers v).0 ≡ true
          → Cause (from_errno (timers.errno (get_sleep_timerfd timers v).1))
      unset :
          (fd : ℤ) (seconds nanoseconds : ℕ) (v : W)
          → (timers.settime fd seconds nanoseconds v).value ≢ pos 0
          → Cause (from_errno (timers.settime fd seconds nanoseconds v).errno)
      failed_wait : (fd : ℤ) (v : W) (e : Error) → (wait_readable co fd v).0 ≡ err e → Cause e
      unread :
          (fd : ℤ) (v : W)
          → (is_negative (timers.read_timer fd v).value
              && not (
                  (timers.read_timer fd v).errno == eintr
                  || (timers.read_timer fd v).errno == eagain
                  || (timers.read_timer fd v).errno == ewouldblock))
            ≡ true
          → Cause (from_errno (timers.read_timer fd v).errno)

    -- A success was returned right after a reading of the clock, which was `deadline` or later, and a
    -- failure has a cause.
    abbrev IsSlept : ℕ → Result (Unit {0}) × W → Type 0
    IsSlept deadline (ok _, w') = (v : W) × ((env.now v).1 ≡ w') × (deadline ≤ clock v)
    IsSlept deadline (err e, w') = Cause e

    -- The run has ended so.
    abbrev pub EndsSlept : ℕ → Option (Result (Unit {0}) × W) → Type 0
    EndsSlept deadline r = (x : Result (Unit {0}) × W) × (r ≡ some x) × IsSlept deadline x

    sleep_rounds_lem :
        IsClock
        → (fuel : ℕ) (fd : ℤ) (deadline : ℕ) (w : W) → deadline - clock w < fuel
        → EndsSlept deadline (sleep_rounds env timers co token fuel fd (pos deadline) w)
    unfolding sleep_rounds ℤ_discrete
    sleep_rounds_lem laws zero fd deadline w enough = absurd (omega arith)
    sleep_rounds_lem laws (suc fuel) fd deadline w enough =
        let span = slice deadline (clock w) in
        let set = timers.settime fd (span / 1000) (span % 1000 * 1_000_000) (env.now w).1 in
        let waited = wait_readable co fd set.world in
        let out = timers.read_timer fd waited.1 in
        if_elim (EndsSlept deadline) (stop_requested token (env.flags w))
          (λ h. (_, refl, cancelled w h))
          λ _.
            if_elim (EndsSlept deadline) (leb deadline (clock w))
              (λ h. (_, refl, (w, refl, leb→le deadline (clock w) h)))
              λ early. elim (ℤ_discrete set.value (pos 0)) [
                | no q ↦ rw (if_neg _ q) (_, refl, unset fd _ _ (env.now w).1 q)
                | yes q ↦ rw (if_pos _ q) (
                    result_elim (EndsSlept deadline) waited.0
                      (λ _ _.
                        if_elim (EndsSlept deadline)
                          (is_negative out.value
                            && not (
                                out.errno == eintr
                                || out.errno == eagain
                                || out.errno == ewouldblock))
                          (λ h. (_, refl, unread fd waited.1 h))
                          λ _.
                            sleep_rounds_lem laws fuel fd deadline out.world (
                              later (laws.moves fd (span / 1000) (span % 1000 * 1_000_000) w)
                                early))
                      λ e h. (_, refl, failed_wait fd set.world e h))
              ]
      where
        later :
            {next : ℕ} → clock w < next → leb deadline (clock w) ≡ false → deadline - next < fuel
        later moved early = ground arith

    -- `async_sleep` of a positive duration, when the deadline, which is the duration after the
    -- reading of the clock with which it begins, fits a signed integer of 64 bits, on a steady
    -- clock that moves on while the timer is set, waited for and read. With a round for each
    -- nanosecond of the duration and one more, it ends. If it ends with success, it last read the
    -- clock, and this reading was at least the duration later than the first. If it ends with an
    -- error, the error is that of a stop request, of the timer's creation, setting or reading, or
    -- of the wait for it.
    pub async_sleep_lem :
        IsClock
        → (fuel : ℕ) (duration : ℤ) (w : W) → is_not_positive duration ≡ false
        → clock (get_sleep_timerfd timers w).1 + ms (pos_part duration) < 2 ^ 63
        → ms (pos_part duration) < fuel
        → EndsSlept
            (clock (get_sleep_timerfd timers w).1 + ms (pos_part duration))
            (async_sleep env timers co token fuel duration w)
    unfolding async_sleep
    async_sleep_lem laws fuel duration w some_time room enough =
        let w₀ = (get_sleep_timerfd timers w).1 in
        let deadline = clock w₀ + ms (pos_part duration) in
        if_elim (EndsSlept deadline) (stop_requested token (env.flags w))
          (λ h. (_, refl, cancelled w h))
          λ _.
            if_elim (EndsSlept deadline) (is_not_positive duration)
              (λ h. absurd (false≢true (sym some_time ∙ h)))
              λ _.
                if_elim (EndsSlept deadline) (is_negative (get_sleep_timerfd timers w).0)
                  (λ h. (_, refl, no_timer w h))
                  λ _. rw (deadline_after_lem (clock w₀) duration room) (
                    sleep_rounds_lem laws fuel (get_sleep_timerfd timers w).0 deadline
                      (env.now w₀).1 (omega (arith, laws.steady w₀)))

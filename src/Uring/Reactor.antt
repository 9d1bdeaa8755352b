-- ===== src/Uring/Reactor.antt =====
-- include/simplenet/uring/reactor.hpp and src/uring/reactor.cpp: the wrapper of an io_uring ring.
use libsimplenet.Base.{
  ℕ, zero, suc, ℤ, is_negative, pos_part, magnitude, ◌-◌, ◌*◌, ◌/◌, ◌%◌, ◌==◌, Bool, not, ◌&&◌,
  ◌||◌, Option, none, some, List, [], ◌∷◌, if◌then◌else◌,
}
use libsimplenet.Core.{Result, ok, err, Status, done, from_errno}
use libsimplenet.Core.Errno.{eintr, ebadf, eagain, enomem, ebusy, einval, etime}
use libsimplenet.System.{Completion, RingCalls}

-- The ring that `ring_` owns, 0 for null.
pub record Reactor : Type 0 where
  pub ring : ℕ

-- `reactor{}`
abbrev pub empty_reactor : Reactor
empty_reactor = record { ring = 0 }

unfoldable pub valid : Reactor → Bool
valid r = not (r.ring == 0)

-- `result == -errno`
abbrev pub is_errno : ℕ → ℤ → Bool
is_errno errno r = is_negative r && magnitude r == errno

-- Seconds and nanoseconds; a negative timeout counts as 0.
abbrev pub to_kernel_timespec : ℤ → ℕ × ℕ
to_kernel_timespec timeout = let t = pos_part timeout in (t / 1000, t % 1000 * 1_000_000)

module _ {W : Type 0} (os : RingCalls W) where
  unfoldable pub destroy_ring : ℕ → W → W
  destroy_ring ring w = if ring == 0 then w else os.release ring (os.queue_exit ring w)

  unfoldable pub create : ℕ → W → Result Reactor × W
  unfolding destroy_ring
  create entries w =
      let (ring, w₁) = os.allocate w in
      let (init_result, w₂) = os.queue_init entries ring w₁ in
      if entries == 0
      then (err (from_errno einval), w)
      else if ring == 0
      then (err (from_errno enomem), w₁)
      else if is_negative init_result
      then (err (from_errno (magnitude init_result)), destroy_ring ring w₂)
      else (ok (record { ring = ring }), w₂)

  unfoldable pub submit_poll_add : Reactor → ℕ → ℤ → ℕ → W → Status × W
  unfolding valid
  submit_poll_add r user_data fd poll_mask w =
      let (free, w₁) = os.get_sqe r.ring w in
      if not (valid r)
      then (err (from_errno ebadf), w)
      else if user_data == 0 || is_negative fd || poll_mask == 0
      then (err (from_errno einval), w)
      else if not free
      then (err (from_errno ebusy), w₁)
      else (done, os.prep_poll_add r.ring fd poll_mask user_data w₁)

  unfoldable pub submit_poll_remove : Reactor → ℕ → W → Status × W
  unfolding valid
  submit_poll_remove r target_user_data w =
      let (free, w₁) = os.get_sqe r.ring w in
      if not (valid r)
      then (err (from_errno ebadf), w)
      else if target_user_data == 0
      then (err (from_errno einval), w)
      else if not free
      then (err (from_errno ebusy), w₁)
      else (done, os.prep_poll_remove r.ring target_user_data 0 w₁)

  unfoldable pub submit : Reactor → W → Status × W
  unfolding valid
  submit r w =
      let (submit_result, w₁) = os.submit r.ring w in
      if not (valid r)
      then (err (from_errno ebadf), w)
      else if is_negative submit_result
      then (err (from_errno (magnitude submit_result)), w₁)
      else (done, w₁)

  abbrev prepend : Completion → Result (List Completion) × W → Result (List Completion) × W
  prepend c (ok cs, w) = (ok (c ∷ cs), w)
  prepend c (err e, w) = (err e, w)

  -- The `while` over completions that are there already, with `slots` places left for them. An error
  -- drops what was taken.
  unfoldable pub take_ready : ℕ → ℕ → W → Result (List Completion) × W
  take_ready ring zero w = (ok [], w)
  take_ready ring (suc slots) w =
      let (peek_result, cqe, w₁) = os.peek_cqe ring w in
      let rest = take_ready ring slots (os.cqe_seen ring w₁) in
      if is_errno eagain peek_result then (ok [], w₁) else elim cqe [
        | none ↦ (ok [], w₁)
        | some c ↦
            if is_negative peek_result
            then (err (from_errno (magnitude peek_result)), w₁)
            else prepend c rest
      ]

  -- The first completion: what the wait returned, whether that means that none came in time, and
  -- the entry.
  abbrev pub wait_first : ℕ → Option ℤ → W → ℤ × Bool × Completion × W
  wait_first ring none w = let (r, c, w₁) = os.wait_cqe ring w in (r, is_errno eintr r, c, w₁)
  wait_first ring (some timeout) w =
      let ts = to_kernel_timespec timeout in
      let (r, c, w₁) = os.wait_cqe_timeout ring ts.0 ts.1 w in
      (r, is_errno etime r || is_errno eintr r, c, w₁)

  -- `wait` on a span of `size` slots; the completions that it fills are those of the result.
  unfoldable pub wait : Reactor → ℕ → Option ℤ → W → Result (List Completion) × W
  unfolding valid take_ready
  wait r size timeout w =
      let (wait_result, in_vain, first, w₁) = wait_first r.ring timeout w in
      if not (valid r)
      then (err (from_errno ebadf), w)
      else if size == 0
      then (err (from_errno einval), w)
      else if in_vain
      then (ok [], w₁)
      else if is_negative wait_result
      then (err (from_errno (magnitude wait_result)), w₁)
      else prepend first (take_ready r.ring (size - 1) (os.cqe_seen r.ring w₁))

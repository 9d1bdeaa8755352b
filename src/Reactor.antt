-- ===== src/Reactor.antt =====
-- include/simplenet/epoll/reactor.hpp and src/epoll/reactor.cpp: the wrapper of an epoll instance.
-- The batch of `wait` is written through a scratch buffer, cached per thread, that is at least as
-- long as the caller's span; the copy out of it is `take`.
use libsimplenet.Base.{
  ℕ, ℤ, pos, negsuc, ℤ_discrete, is_negative, magnitude, to_int, ◌-◌, ◌^◌, ◌==◌, min, Bool, true,
  false, not, ◌&&◌, none, some, List, [], take, ite, if◌then◌else◌, bit_and,
}
use libsimplenet.Core.{Result, ok, err, Status, done, from_errno}
use libsimplenet.Core.Errno.{ebadf, einval, eintr, enoent}
use libsimplenet.Core.UniqueFd
use libsimplenet.Core.UniqueFd.{UniqueFd, none_owned}
use libsimplenet.System.{CtlOp, ctl_add, ctl_mod, ctl_del, ReadyEvent, EpollCalls}

pub record Reactor : Type 0 where
  pub epoll_fd : UniqueFd

-- `reactor{}`
abbrev pub empty_reactor : Reactor
empty_reactor = record { epoll_fd = none_owned }

unfoldable pub valid : Reactor → Bool
unfolding UniqueFd.valid
valid r = UniqueFd.valid r.epoll_fd

-- `has_event`
unfoldable pub has_event : ℕ → ℕ → Bool
has_event event_mask flag = not (bit_and event_mask flag == 0)

is_del : CtlOp → Bool
is_del ctl_del = true
is_del _ = false

-- The `int` that `epoll_wait` is given: -1 for a negative duration, else clamped to INT_MAX.
abbrev pub clamp_timeout : ℤ → ℤ
clamp_timeout (pos n) = pos (min n (2 ^ 31 - 1))
clamp_timeout (negsuc n) = negsuc 0

module _ {W : Type 0} (os : EpollCalls W) where
  unfoldable pub create : W → Result Reactor × W
  create w =
      let out = os.epoll_create1 w in
      if is_negative out.value
      then (err (from_errno out.errno), out.world)
      else (ok (record { epoll_fd = record { fd = out.value } }), out.world)

  unfoldable pub ctl : Reactor → CtlOp → ℤ → ℕ → Bool → W → Status × W
  unfolding valid is_del ℤ_discrete
  ctl r operation fd events has_event w =
      let event_ptr = if has_event then some (record { fd = fd; events = events }) else none in
      let out = os.epoll_ctl r.epoll_fd.fd operation fd event_ptr w in
      if not (valid r)
      then (err (from_errno ebadf), w)
      else if is_negative fd
      then (err (from_errno ebadf), w)
      else ite (ℤ_discrete out.value (pos 0)) (done, out.world)
          (if is_del operation && out.errno == enoent
            then (done, out.world)
            else (err (from_errno out.errno), out.world))

  unfoldable pub add : Reactor → ℤ → ℕ → W → Status × W
  unfolding ctl
  add r fd events w = ctl r ctl_add fd events true w

  unfoldable pub modify : Reactor → ℤ → ℕ → W → Status × W
  unfolding ctl
  modify r fd events w = ctl r ctl_mod fd events true w

  unfoldable pub remove : Reactor → ℤ → W → Status × W
  unfolding ctl
  remove r fd w = ctl r ctl_del fd 0 false w

  -- `wait` on a span of `size` slots; the events that it fills are those of the result.
  unfoldable pub wait : Reactor → ℕ → ℤ → W → Result (List ReadyEvent) × W
  unfolding valid
  wait r size timeout w =
      let (out, sys_events) = os.epoll_wait r.epoll_fd.fd (to_int size) (clamp_timeout timeout) w in
      if not (valid r)
      then (err (from_errno ebadf), w)
      else if size == 0
      then (err (from_errno einval), w)
      else if is_negative out.value
      then if out.errno == eintr
        then (ok [], out.world)
        else (err (from_errno out.errno), out.world)
      else (ok (take (magnitude out.value) sys_events), out.world)

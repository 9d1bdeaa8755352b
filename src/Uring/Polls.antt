-- ===== src/Uring/Polls.antt =====
-- What the loop asks of the ring: poll requests, their removal, their submission, and their tokens.
pub mod Tokens
pub mod Frame
use libsimplenet.Base.{
  ℕ, zero, suc, ℤ, ℕ_discrete, ◌+◌, ◌%◌, ◌^◌, bit_or, ◌==◌, length, Bool, true, false, not, List,
  if◌then◌else◌,
}
use libsimplenet.Base.Table.{find}
use libsimplenet.Core.{ok, err, Status, done}
use libsimplenet.Core.Errno.{ebusy, enoent}
use libsimplenet.System.{RingSystem}
use libsimplenet.EventLoop.State.{is_none}
use libsimplenet.Uring.Reactor
use libsimplenet.Uring.State.{PollContext, UringEventLoop}

-- The event bits of <poll.h>.
abbrev pub pollin : ℕ
pollin = 0x1

abbrev pub pollout : ℕ
pollout = 0x4

abbrev pub pollerr : ℕ
pollerr = 0x8

abbrev pub pollhup : ℕ
pollhup = 0x10

abbrev pub pollrdhup : ℕ
pollrdhup = 0x2000

-- `kReadPollMask` and `kWritePollMask`
abbrev pub read_poll_mask : ℕ
read_poll_mask = bit_or (bit_or (bit_or pollin pollerr) pollhup) pollrdhup

abbrev pub write_poll_mask : ℕ
write_poll_mask = bit_or (bit_or pollout pollerr) pollhup

-- `!status.has_value() && status.error().value() == errno`
abbrev pub fails_with : ℕ → Status → Bool
fails_with errno (ok _) = false
fails_with errno (err e) = e.value == errno

-- `++next_token_`, past 0 when it wraps.
abbrev pub next_after : ℕ → ℕ
next_after token = let n = (token + 1) % 2 ^ 64 in if n == 0 then 1 else n

-- The `while` loop of `allocate_token`: the token and the next one. `fuel` bounds its rounds; when it
-- runs out the token is 0.
unfoldable pub find_token : ℕ → ℕ → List (ℕ × PollContext) → ℕ × ℕ
find_token zero token polls = (0, token)
find_token (suc fuel) token polls =
    let later = find_token fuel (next_after token) polls in
    if token == 0
    then later
    else if is_none (find ℕ_discrete token polls)
    then (token, next_after token)
    else later

module _ {W : Type 0} where
  -- A round for each request in flight, one for token 0, and one that finds the token.
  unfoldable pub allocate_token : UringEventLoop W → ℕ × UringEventLoop W
  unfolding find_token
  allocate_token l =
      let found = find_token (suc (suc (length l.inflight_polls))) l.next_token l.inflight_polls in
      (found.0, record l { next_token = found.1 })

  -- A submission into a ring that was full is tried once more after a flush.
  abbrev sent : Status × W → UringEventLoop W → Status × UringEventLoop W
  sent (status, w) l = (status, record l { world = w })

  abbrev pending : Status × UringEventLoop W → Status × UringEventLoop W
  pending (ok _, l) = (done, record l { submission_pending = true })
  pending (err e, l) = (err e, l)

  -- `queue_poll_remove` takes a missing request for a removed one.
  abbrev unless_missing : Status × UringEventLoop W → Status × UringEventLoop W
  unless_missing (status, l) = if fails_with enoent status then (done, l) else pending (status, l)

module _ {W : Type 0} (os : RingSystem W) where
  unfoldable pub flush_submissions : UringEventLoop W → Status × UringEventLoop W
  unfolding Reactor.submit
  flush_submissions l =
      let (submit_result, w) = Reactor.submit os.ring l.reactor l.world in
      if not l.submission_pending then (done, l) else elim submit_result [
        | err e ↦ (err e, record l { world = w })
        | ok _ ↦ (done, record l { submission_pending = false; world = w })
      ]

  unfoldable pub queue_poll_add : ℕ → ℤ → ℕ → UringEventLoop W → Status × UringEventLoop W
  unfolding flush_submissions Reactor.submit_poll_add
  queue_poll_add token fd poll_mask l =
      let first = sent (Reactor.submit_poll_add os.ring l.reactor token fd poll_mask l.world) l in
      let flushed = flush_submissions first.1 in
      let l' = flushed.1 in
      let second =
        sent (Reactor.submit_poll_add os.ring l'.reactor token fd poll_mask l'.world) l' in
      if fails_with ebusy first.0
      then elim flushed.0 [ err e ↦ (err e, l') | ok _ ↦ pending second ]
      else pending first

  unfoldable pub queue_poll_remove : ℕ → UringEventLoop W → Status × UringEventLoop W
  unfolding flush_submissions Reactor.submit_poll_remove
  queue_poll_remove token l =
      let first = sent (Reactor.submit_poll_remove os.ring l.reactor token l.world) l in
      let flushed = flush_submissions first.1 in
      let l' = flushed.1 in
      let second = sent (Reactor.submit_poll_remove os.ring l'.reactor token l'.world) l' in
      if token == 0
      then (done, l)
      else if fails_with ebusy first.0
      then elim flushed.0 [ err e ↦ (err e, l') | ok _ ↦ unless_missing second ]
      else unless_missing first

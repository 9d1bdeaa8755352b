-- ===== src/Sockets/Blocking.antt =====
-- include/simplenet/blocking/tcp.hpp and src/blocking/tcp.cpp: streams and listeners that block,
-- and the loops `write_all` and `read_exact`. Both are on fuel, since EINTR has no bound of its own.
pub mod Loops
pub mod Reading
pub mod Leaks
use libsimplenet.Base.{
  ℕ, zero, suc, ℤ, pos, ℤ_discrete, is_negative, magnitude, ◌+◌, ◌-◌, ◌==◌, Bool, true, false, not,
  Option, none, some, List, [], ◌∷◌, ◌++◌, take, drop, length, if◌then◌else◌, ite,
}
use libsimplenet.Core.{Result, ok, err, from_errno, Outcome, Status, done}
use libsimplenet.Core.Errno.{ebadf, eintr, epipe, econnreset}
use libsimplenet.Core.UniqueFd
use libsimplenet.Core.UniqueFd.{UniqueFd}
use libsimplenet.Sockets.Calls.{
  SocketAddress, SocketKind, stream, SocketCalls, AddressCalls, Step, follow, ◌>>=◌, ◌>>◌, pure,
  guard, value_of, expect_zero, close_on_error, owning,
}
use libsimplenet.Sockets.Address.{Endpoint, to_sockaddr}
use libsimplenet.Sockets.Nonblocking.{lift, owner_of, set_reuse_addr}

module _ {W : Type 0} (os : SocketCalls W) where
  unfoldable pub connect : AddressCalls → Endpoint → Step W UniqueFd
  unfolding to_sockaddr
  connect net remote = lift (to_sockaddr net remote) >>= λ addr.
      value_of (os.socket stream) >>= λ fd.
      owning os fd (expect_zero (os.connect fd addr) >> pure (owner_of fd))

  unfoldable pub bind : AddressCalls → Endpoint → ℤ → Step W UniqueFd
  unfolding to_sockaddr set_reuse_addr
  bind net local backlog = lift (to_sockaddr net local) >>= λ addr.
      value_of (os.socket stream) >>= λ fd. owning os fd (
        set_reuse_addr os fd
        >> expect_zero (os.bind fd addr)
        >> expect_zero (os.listen fd backlog)
        >> pure (owner_of fd))

  unfoldable pub accept : UniqueFd → Step W UniqueFd
  unfolding UniqueFd.valid
  accept s = guard (UniqueFd.valid s) ebadf >> value_of (os.accept s.fd false) >>= λ accepted.
      pure (owner_of accepted)

  -- The bytes that land in a buffer of `size` bytes; their number is the result.
  unfoldable pub read_some : UniqueFd → ℕ → Step W (List ℕ)
  unfolding UniqueFd.valid
  read_some s size w =
      let (out, bytes) = os.recv s.fd size w in
      if not (UniqueFd.valid s)
      then (err (from_errno ebadf), w)
      else if size == 0
      then (ok [], w)
      else if is_negative out.value
      then (err (from_errno out.errno), out.world)
      else (ok (take (magnitude out.value) bytes), out.world)

  unfoldable pub write_some : UniqueFd → List ℕ → Step W ℕ
  unfolding UniqueFd.valid
  write_some s buffer w =
      let out = os.send s.fd buffer w in
      if not (UniqueFd.valid s)
      then (err (from_errno ebadf), w)
      else if length buffer == 0
      then (ok 0, w)
      else if is_negative out.value
      then (err (from_errno out.errno), out.world)
      else (ok (magnitude out.value), out.world)

  unfoldable pub shutdown_write : UniqueFd → Step W (Unit {0})
  unfolding UniqueFd.valid
  shutdown_write s = guard (UniqueFd.valid s) ebadf >> expect_zero (os.shutdown s.fd)

  unfoldable pub local_port : AddressCalls → UniqueFd → Step W ℕ
  unfolding UniqueFd.valid ℤ_discrete
  local_port net s w =
      let (out, addr) = os.get_name s.fd w in
      if not (UniqueFd.valid s)
      then (err (from_errno ebadf), w)
      else ite (ℤ_discrete out.value (pos 0)) (ok (net.ntohs addr.sin_port), out.world)
          (err (from_errno out.errno), out.world)

  -- The `while` of `write_all`; `none` when the fuel runs out.
  unfoldable pub write_rounds : ℕ → ℤ → List ℕ → W → Option (Status × W)
  write_rounds zero fd buffer w = none
  write_rounds (suc fuel) fd buffer w =
      let out = os.send fd buffer w in
      let again = write_rounds fuel fd buffer out.world in
      let onwards = write_rounds fuel fd (drop (magnitude out.value) buffer) out.world in
      if length buffer == 0
      then some (done, w)
      else if is_negative out.value
      then (if out.errno == eintr then again else some (err (from_errno out.errno), out.world))
      else if magnitude out.value == 0
      then some (err (from_errno epipe), out.world)
      else onwards

  unfoldable pub write_all : ℕ → UniqueFd → List ℕ → W → Option (Status × W)
  unfolding write_rounds UniqueFd.valid
  write_all fuel s buffer w =
      if not (UniqueFd.valid s)
      then some (err (from_errno ebadf), w)
      else if length buffer == 0
      then some (done, w)
      else write_rounds fuel s.fd buffer w

  -- The `while` of `read_exact`, for a rest of the buffer of `remaining` bytes; the bytes that it
  -- stores are in the result.
  unfoldable pub read_rounds : ℕ → ℤ → ℕ → W → Option (Status × List ℕ × W)
  read_rounds zero fd remaining w = none
  read_rounds (suc fuel) fd remaining w =
      let (out, bytes) = os.recv fd remaining w in
      let again = read_rounds fuel fd remaining out.world in
      let onwards : Option (Status × List ℕ × W) =
        elim (read_rounds fuel fd (remaining - magnitude out.value) out.world) [
          | none ↦ none
          | some r ↦ some (r.0, take (magnitude out.value) bytes ++ r.1, r.2)
        ] in
      if remaining == 0
      then some (done, [], w)
      else if is_negative out.value
      then (if out.errno == eintr then again else some (err (from_errno out.errno), [], out.world))
      else if magnitude out.value == 0
      then some (err (from_errno econnreset), [], out.world)
      else onwards

  unfoldable pub read_exact : ℕ → UniqueFd → ℕ → W → Option (Status × List ℕ × W)
  unfolding read_rounds UniqueFd.valid
  read_exact fuel s size w =
      if not (UniqueFd.valid s)
      then some (err (from_errno ebadf), [], w)
      else if size == 0
      then some (done, [], w)
      else read_rounds fuel s.fd size w

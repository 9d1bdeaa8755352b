-- ===== src/Sockets/Nonblocking.antt =====
-- include/simplenet/nonblocking/tcp.hpp and src/nonblocking/tcp.cpp: streams and listeners that do
-- not block. `tcp_stream` and `tcp_listener` have one field, the `unique_fd` that stands for them.
pub mod Leaks
use libsimplenet.Base.{
  ℕ, ℤ, pos, ℤ_discrete, is_negative, is_not_positive, magnitude, ◌==◌, Bool, true, false, not,
  ◌||◌, List, [], take, length, if◌then◌else◌, ite,
}
use libsimplenet.Core.{Error, Result, ok, err, from_errno, Outcome}
use libsimplenet.Core.Errno.{ebadf, einval, einprogress, eagain, ewouldblock}
use libsimplenet.Core.UniqueFd
use libsimplenet.Core.UniqueFd.{UniqueFd}
use libsimplenet.Sockets.Calls.{
  SocketAddress, SocketKind, stream, stream_nonblocking, SocketCalls, AddressCalls, Step, follow,
  ◌>>=◌, ◌>>◌, pure, fail, guard, value_of, expect_zero, close_on_error, owning,
}
use libsimplenet.Sockets.Address.{Endpoint, to_sockaddr}

-- A result that no call was needed for.
abbrev pub lift : {W A : Type 0} → Result A → Step W A
lift r w = (r, w)

abbrev pub owner_of : ℤ → UniqueFd
owner_of fd = record { fd = fd }

module _ {W : Type 0} (os : SocketCalls W) where
  unfoldable pub set_reuse_addr : ℤ → Step W (Unit {0})
  set_reuse_addr fd = expect_zero (os.set_reuse fd)

  unfoldable pub set_nonblocking : ℤ → Step W (Unit {0})
  set_nonblocking fd = guard (not (is_negative fd)) ebadf >> value_of (os.get_flags fd) >>= λ flags.
      expect_zero (os.set_nonblocking_flag fd flags)

  -- With the fall-back of a kernel that does not know SOCK_NONBLOCK.
  unfoldable pub make_stream_socket_nonblocking : Step W ℤ
  unfolding set_nonblocking
  make_stream_socket_nonblocking w =
      let out = os.socket stream_nonblocking w in
      let fallback : Step W ℤ =
        value_of (os.socket stream) >>= λ fd. owning os fd (set_nonblocking fd >> pure fd) in
      if is_negative out.value then fallback out.world else (ok out.value, out.world)

  -- `::connect`, where EINPROGRESS is a success.
  unfoldable pub start_connect : ℤ → SocketAddress → Step W UniqueFd
  unfolding ℤ_discrete
  start_connect fd addr w =
      let out = os.connect fd addr w in
      ite (ℤ_discrete out.value (pos 0)) (ok (owner_of fd), out.world)
        (if out.errno == einprogress
          then (ok (owner_of fd), out.world)
          else (err (from_errno out.errno), out.world))

  unfoldable pub connect : AddressCalls → Endpoint → Step W UniqueFd
  unfolding to_sockaddr make_stream_socket_nonblocking start_connect
  connect net remote = lift (to_sockaddr net remote) >>= λ addr.
      make_stream_socket_nonblocking >>= λ fd. owning os fd (start_connect fd addr)

  unfoldable pub finish_connect : UniqueFd → Step W (Unit {0})
  unfolding UniqueFd.valid ℤ_discrete
  finish_connect s w =
      let (out, socket_error) = os.get_error s.fd w in
      if not (UniqueFd.valid s)
      then (err (from_errno ebadf), w)
      else ite (ℤ_discrete out.value (pos 0))
          (if socket_error == 0
            then (ok tt, out.world)
            else (err (from_errno socket_error), out.world))
          (err (from_errno out.errno), out.world)

  -- The bytes that land in a buffer of `size` bytes; their number is the result.
  unfoldable pub read_some : UniqueFd → ℕ → Step W (List ℕ)
  unfolding UniqueFd.valid
  read_some s size w =
      let (out, bytes) = os.recv s.fd size w in
      if not (UniqueFd.valid s)
      then (err (from_errno ebadf), w)
      else if size == 0
      then (ok [], w)
      else if is_negative out.value
      then (err (from_errno out.errno), out.world)
      else (ok (take (magnitude out.value) bytes), out.world)

  unfoldable pub write_some : UniqueFd → List ℕ → Step W ℕ
  unfolding UniqueFd.valid
  write_some s buffer w =
      let out = os.send s.fd buffer w in
      if not (UniqueFd.valid s)
      then (err (from_errno ebadf), w)
      else if length buffer == 0
      then (ok 0, w)
      else if is_negative out.value
      then (err (from_errno out.errno), out.world)
      else (ok (magnitude out.value), out.world)

  unfoldable pub shutdown_write : UniqueFd → Step W (Unit {0})
  unfolding UniqueFd.valid
  shutdown_write s = guard (UniqueFd.valid s) ebadf >> expect_zero (os.shutdown s.fd)

  unfoldable pub set_send_buffer_size : UniqueFd → ℤ → Step W (Unit {0})
  unfolding UniqueFd.valid
  set_send_buffer_size s bytes =
      guard (UniqueFd.valid s) ebadf
      >> guard (not (is_not_positive bytes)) einval
      >> expect_zero (os.set_sndbuf s.fd bytes)

  -- `tcp_listener::bind`
  unfoldable pub listen_on : ℤ → SocketAddress → ℤ → Step W UniqueFd
  unfolding set_reuse_addr
  listen_on fd addr backlog =
      set_reuse_addr fd
      >> expect_zero (os.bind fd addr)
      >> expect_zero (os.listen fd backlog)
      >> pure (owner_of fd)

  unfoldable pub bind : AddressCalls → Endpoint → ℤ → Step W UniqueFd
  unfolding to_sockaddr make_stream_socket_nonblocking listen_on
  bind net local backlog = lift (to_sockaddr net local) >>= λ addr.
      make_stream_socket_nonblocking >>= λ fd. owning os fd (listen_on fd addr backlog)

  unfoldable pub accept : UniqueFd → Step W UniqueFd
  unfolding UniqueFd.valid
  accept s = guard (UniqueFd.valid s) ebadf >> value_of (os.accept s.fd true) >>= λ accepted.
      pure (owner_of accepted)

  unfoldable pub local_port : AddressCalls → UniqueFd → Step W ℕ
  unfolding UniqueFd.valid ℤ_discrete
  local_port net s w =
      let (out, addr) = os.get_name s.fd w in
      if not (UniqueFd.valid s)
      then (err (from_errno ebadf), w)
      else ite (ℤ_discrete out.value (pos 0)) (ok (net.ntohs addr.sin_port), out.world)
          (err (from_errno out.errno), out.world)

unfoldable pub is_would_block : Error → Bool
is_would_block e = e.value == eagain || e.value == ewouldblock

unfoldable pub is_in_progress : Error → Bool
is_in_progress e = e.value == einprogress

-- ===== src/Sockets/Datagrams.antt =====
-- include/simplenet/blocking/udp.hpp and src/blocking/udp.cpp: datagram sockets that block.
-- `udp_socket` has one field, the `unique_fd` that stands for it.
use libsimplenet.Base.{
  ℕ, pos, ℤ_discrete, is_negative, magnitude, ◌==◌, not, List, if◌then◌else◌, ite,
}
use libsimplenet.Core.{ok, err, from_errno}
use libsimplenet.Core.Errno.{ebadf, einval}
use libsimplenet.Core.UniqueFd
use libsimplenet.Core.UniqueFd.{UniqueFd}
use libsimplenet.Sockets.Calls.{
  datagram, SocketCalls, AddressCalls, Step, ◌>>=◌, ◌>>◌, pure, guard, value_of, expect_zero,
  owning,
}
use libsimplenet.Sockets.Address.{Endpoint, to_sockaddr, from_sockaddr}
use libsimplenet.Sockets.Nonblocking.{lift, owner_of, set_reuse_addr}

-- `received_datagram`
pub record ReceivedDatagram : Type 0 where
  pub size : ℕ
  pub from : Endpoint

module _ {W : Type 0} (os : SocketCalls W) (net : AddressCalls) where
  unfoldable pub bind : Endpoint → Step W UniqueFd
  unfolding to_sockaddr set_reuse_addr
  bind local = lift (to_sockaddr net local) >>= λ addr. value_of (os.socket datagram) >>= λ fd.
      owning os fd (set_reuse_addr os fd >> expect_zero (os.bind fd addr) >> pure (owner_of fd))

  unfoldable pub send_to : UniqueFd → List ℕ → Endpoint → Step W ℕ
  unfolding UniqueFd.valid to_sockaddr
  send_to s buffer remote =
      guard (UniqueFd.valid s) ebadf >> lift (to_sockaddr net remote) >>= λ addr.
      value_of (os.send_to s.fd buffer addr) >>= λ sent. pure (magnitude sent)

  -- On a buffer of `size` bytes, with the bytes that land in it. `ntop_errno` is the errno that a failed
  -- `inet_ntop` leaves.
  unfoldable pub recv_from : UniqueFd → ℕ → ℕ → Step W (ReceivedDatagram × List ℕ)
  unfolding UniqueFd.valid from_sockaddr
  recv_from s size ntop_errno w =
      let (out, bytes, from_addr) = os.recv_from s.fd size w in
      if not (UniqueFd.valid s)
      then (err (from_errno ebadf), w)
      else if size == 0
      then (err (from_errno einval), w)
      else if is_negative out.value
      then (err (from_errno out.errno), out.world)
      else elim (from_sockaddr net from_addr ntop_errno) [
        | err e ↦ (err e, out.world)
        | ok from ↦ (ok (record { size = magnitude out.value; from = from }, bytes), out.world)
      ]

  unfoldable pub local_port : UniqueFd → Step W ℕ
  unfolding UniqueFd.valid ℤ_discrete
  local_port s w =
      let (out, addr) = os.get_name s.fd w in
      if not (UniqueFd.valid s)
      then (err (from_errno ebadf), w)
      else ite (ℤ_discrete out.value (pos 0)) (ok (net.ntohs addr.sin_port), out.world)
          (err (from_errno out.errno), out.world)

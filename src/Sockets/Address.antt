-- ===== src/Sockets/Address.antt =====
-- include/simplenet/blocking/endpoint.hpp, src/blocking/endpoint.cpp, `to_sockaddr` and
-- `from_sockaddr` of src/blocking/socket_helpers.cpp and src/nonblocking/tcp.cpp.
use Prim.Native.Char.{code}
use Prim.Native.String.{String}
use libsimplenet.Base.{ℕ, ◌==◌, List, [], ◌∷◌, none, some, if◌then◌else◌}
use libsimplenet.Core.{Result, ok, err, from_errno}
use libsimplenet.Core.Errno.{einval}
use libsimplenet.Sockets.Calls.{SocketAddress, AddressCalls}

-- `endpoint`: the host as bytes and the port.
pub record Endpoint : Type 0 where
  pub host : List ℕ
  pub port : ℕ

-- The bytes of an ASCII text.
abbrev pub codes : String → List ℕ
codes String.[] = []
codes (String.◌∷◌ c s) = code c ∷ codes s

unfoldable pub loopback : ℕ → Endpoint
loopback port = record { host = codes "127.0.0.1"; port = port }

unfoldable pub any : ℕ → Endpoint
any port = record { host = codes "0.0.0.0"; port = port }

-- What `c_str()` shows of a text: the bytes before the first NUL.
unfoldable pub c_str : List ℕ → List ℕ
c_str [] = []
c_str (c ∷ s) = if c == 0 then [] else c ∷ c_str s

module _ (net : AddressCalls) where
  unfoldable pub to_sockaddr : Endpoint → Result SocketAddress
  unfolding c_str
  to_sockaddr ep = elim (net.inet_pton (c_str ep.host)) [
    | none ↦ err (from_errno einval)
    | some address ↦ ok (record { address = address; sin_port = net.htons ep.port })
  ]

  -- `from_sockaddr`; `errno` is the one that a failed `inet_ntop` leaves.
  unfoldable pub from_sockaddr : SocketAddress → ℕ → Result Endpoint
  from_sockaddr addr errno = elim (net.inet_ntop addr.address) [
    | none ↦ err (from_errno errno)
    | some converted ↦ ok (record { host = converted; port = net.ntohs addr.sin_port })
  ]

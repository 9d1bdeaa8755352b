-- ===== src/Sockets/Calls.antt =====
-- The system calls behind the sockets, as parameters, and the chaining of calls that may fail. A
-- chain threads the world and stops at the first error; `owning` is the `unique_fd` of a function
-- that is destroyed, and closed, when the function returns an error.
use libsimplenet.Base.{ℕ, ℤ, ℤ_discrete, pos, is_negative, Bool, List, Option, if◌then◌else◌, ite}
use libsimplenet.Core.{Result, ok, err, from_errno, Outcome}

-- `sockaddr_in`: the address and the port in network byte order.
pub record SocketAddress : Type 0 where
  pub address : ℕ
  pub sin_port : ℕ

-- The type argument of `socket`; `SOCK_CLOEXEC` is always set.
pub data SocketKind : Type 0 where
  stream stream_nonblocking datagram : SocketKind

pub record SocketCalls (W : Type 0) : Type 0 where
  pub socket : SocketKind → W → Outcome W
  pub close : ℤ → W → Outcome W
  pub connect : ℤ → SocketAddress → W → Outcome W
  pub bind : ℤ → SocketAddress → W → Outcome W
  pub listen : ℤ → ℤ → W → Outcome W
  -- `accept4`; the flag says whether `SOCK_NONBLOCK` is set
  pub accept : ℤ → Bool → W → Outcome W
  -- `setsockopt` of SO_REUSEADDR to 1, and of SO_SNDBUF
  pub set_reuse : ℤ → W → Outcome W
  pub set_sndbuf : ℤ → ℤ → W → Outcome W
  -- `getsockopt` of SO_ERROR, with the value that it stores
  pub get_error : ℤ → W → Outcome W × ℕ
  -- `getsockname`, with the address that it stores
  pub get_name : ℤ → W → Outcome W × SocketAddress
  -- `fcntl(F_GETFL)`, and `fcntl(F_SETFL, flags | O_NONBLOCK)`
  pub get_flags : ℤ → W → Outcome W
  pub set_nonblocking_flag : ℤ → ℤ → W → Outcome W
  -- `shutdown(SHUT_WR)`
  pub shutdown : ℤ → W → Outcome W
  -- `send` of bytes, and `recv` into a buffer of a size, with the bytes stored
  pub send : ℤ → List ℕ → W → Outcome W
  pub recv : ℤ → ℕ → W → Outcome W × List ℕ
  -- `sendto` and `recvfrom`, with the bytes and the sender
  pub send_to : ℤ → List ℕ → SocketAddress → W → Outcome W
  pub recv_from : ℤ → ℕ → W → Outcome W × List ℕ × SocketAddress

-- The conversions of <arpa/inet.h>. `inet_pton` reads a C string.
pub record AddressCalls : Type 0 where
  pub inet_pton : List ℕ → Option ℕ
  pub inet_ntop : ℕ → Option (List ℕ)
  pub htons : ℕ → ℕ
  pub ntohs : ℕ → ℕ

-- A step that acts on the world and may fail.
abbrev pub Step : Type 0 → Type 0 → Type 0
Step W A = W → Result A × W

abbrev pub follow : {W A B : Type 0} → (A → Step W B) → Result A × W → Result B × W
follow f (ok a, w) = f a w
follow f (err e, w) = (err e, w)

infixl 5 ◌>>=◌ ◌>>◌
abbrev pub ◌>>=◌ : {W A B : Type 0} → Step W A → (A → Step W B) → Step W B
◌>>=◌ m f w = follow f (m w)

abbrev pub ◌>>◌ : {W B : Type 0} → Step W (Unit {0}) → Step W B → Step W B
m >> k = m >>= λ _. k

abbrev pub pure : {W A : Type 0} → A → Step W A
pure a w = (ok a, w)

abbrev pub fail : {W A : Type 0} → ℕ → Step W A
fail errno w = (err (from_errno errno), w)

-- `if (!condition) return err(errno);`
abbrev pub guard : {W : Type 0} → Bool → ℕ → Step W (Unit {0})
guard condition errno w = if condition then (ok tt, w) else (err (from_errno errno), w)

-- A call whose negative result is an error, and otherwise a value.
abbrev pub value_of : {W : Type 0} → (W → Outcome W) → Step W ℤ
value_of call w =
    let out = call w in
    if is_negative out.value
    then (err (from_errno out.errno), out.world)
    else (ok out.value, out.world)

-- A call that succeeds with 0.
abbrev pub expect_zero : {W : Type 0} → (W → Outcome W) → Step W (Unit {0})
expect_zero call w =
    let out = call w in
    ite (ℤ_discrete out.value (pos 0)) (ok tt, out.world) (err (from_errno out.errno), out.world)

module _ {W A : Type 0} (os : SocketCalls W) where
  abbrev pub close_on_error : ℤ → Result A × W → Result A × W
  close_on_error fd (ok a, w) = (ok a, w)
  close_on_error fd (err e, w) = (err e, (os.close fd w).world)

  -- A function body over a descriptor that it owns.
  abbrev pub owning : ℤ → Step W A → Step W A
  owning fd body w = close_on_error fd (body w)

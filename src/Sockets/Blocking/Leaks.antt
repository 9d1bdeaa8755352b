-- ===== src/Sockets/Blocking/Leaks.antt =====
-- Which descriptors the blocking `connect` and `bind` leave open.
use libsimplenet.Base.{ℤ, refl, List}
use libsimplenet.Core.{Result, ok, err}
use libsimplenet.Core.UniqueFd.{UniqueFd}
use libsimplenet.Sockets.Calls.{
  SocketAddress, SocketCalls, AddressCalls, stream, follow, ◌>>=◌, ◌>>◌, pure, value_of,
  expect_zero, owning, Step,
}
use libsimplenet.Sockets.Address.{Endpoint, to_sockaddr}
use libsimplenet.Sockets.Nonblocking.{owner_of, set_reuse_addr, listen_on}
use libsimplenet.Sockets.Nonblocking.Leaks.{
  IsAccounted, Adds, Gives, Adds->>=, Adds-value_of, Gives-pure, Keeps-expect_zero, Gives-listen_on,
}
use libsimplenet.Sockets.Blocking.{connect, bind}

module _ {W : Type 0} (os : SocketCalls W) (opened : W → List ℤ)
    (laws : IsAccounted os opened) where
  -- Over a body that neither opens nor closes anything.
  after_address :
      (body : SocketAddress → ℤ → Step W UniqueFd) (r : Result SocketAddress) (w : W)
      → ((addr : SocketAddress) (fd : ℤ) (w' : W)
          → Gives os opened laws (λ u. u.fd) fd (opened w') (body addr fd w'))
      → Adds os opened laws
          (λ u. u.fd)
          (opened w)
          (follow
            (λ addr. value_of (os.socket stream) >>= λ fd. owning os fd (body addr fd))
            (r, w))
  after_address body (err x) w h = refl
  after_address body (ok addr) w h =
      Adds->>= os opened laws (λ u. u.fd) (opened w) (body addr) (value_of (os.socket stream) w)
        (Adds-value_of os opened laws (os.socket stream) w (laws.socket stream)) (h addr)

  -- A blocking `tcp_stream::connect` that succeeds leaves one more descriptor open, that of the
  -- stream. One that fails, on any path, leaves open what was open before.
  pub opened-connect :
      (net : AddressCalls) (remote : Endpoint) (w : W)
      → Adds os opened laws (λ u. u.fd) (opened w) (connect os net remote w)
  unfolding connect
  opened-connect net remote w =
      after_address (λ addr fd. expect_zero (os.connect fd addr) >> pure (owner_of fd))
        (to_sockaddr net remote) w
        λ addr fd w'.
          Gives-pure os opened laws (λ u. u.fd) fd (expect_zero (os.connect fd addr)) (owner_of fd)
            w' (Keeps-expect_zero os opened laws (os.connect fd addr) (laws.connect fd addr)) refl

  -- A blocking `tcp_listener::bind` that succeeds leaves one more descriptor open, that of the
  -- listener. One that fails, on any path, leaves open what was open before.
  pub opened-bind :
      (net : AddressCalls) (local : Endpoint) (backlog : ℤ) (w : W)
      → Adds os opened laws (λ u. u.fd) (opened w) (bind os net local backlog w)
  unfolding bind listen_on
  opened-bind net local backlog w =
      after_address
        (λ addr fd.
          set_reuse_addr os fd
          >> expect_zero (os.bind fd addr)
          >> expect_zero (os.listen fd backlog)
          >> pure (owner_of fd))
        (to_sockaddr net local) w λ addr fd. Gives-listen_on os opened laws fd addr backlog

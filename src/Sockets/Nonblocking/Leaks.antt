-- ===== src/Sockets/Nonblocking/Leaks.antt =====
-- Which descriptors a call leaves open: that of the object it returns, and none if it fails.
use libsimplenet.Base.{
  ℕ, ℤ, ℤ_discrete, pos, is_negative, ◌≡◌, refl, sym, ap, ◌∙◌, ◌==◌, not, Bool, true, false, List,
  ◌∷◌, if_elim, if_pos, if_neg, arith,
}
use libsimplenet.Core.{Result, ok, err, Outcome}
use libsimplenet.Core.Errno.{einprogress, ebadf}
use libsimplenet.Core.UniqueFd.{UniqueFd}
use libsimplenet.Sockets.Calls.{
  SocketAddress, SocketKind, stream, stream_nonblocking, SocketCalls, AddressCalls, Step, follow,
  ◌>>=◌, ◌>>◌, pure, guard, value_of, expect_zero, close_on_error, owning,
}
use libsimplenet.Sockets.Address.{Endpoint, to_sockaddr}
use libsimplenet.Sockets.Nonblocking.{
  owner_of, set_reuse_addr, set_nonblocking, make_stream_socket_nonblocking, start_connect, connect,
  listen_on, bind,
}

-- A call that creates a descriptor: it is open after a success, and nothing changes on a failure.
abbrev pub IsOpening : {W : Type 0} → (W → List ℤ) → (W → Outcome W) → Type 0
IsOpening opened call =
    (w : _)
    → (is_negative (call w).value ≡ false → opened (call w).world ≡ (call w).value ∷ opened w)
      × (is_negative (call w).value ≡ true → opened (call w).world ≡ opened w)

-- A call that opens and closes nothing.
abbrev pub IsSilent : {W : Type 0} → (W → List ℤ) → (W → Outcome W) → Type 0
IsSilent opened call = (w : _) → opened (call w).world ≡ opened w

-- What the kernel does to the process's open descriptors, the last opened first, while no other
-- thread opens or closes any: `close` of the last one opened takes it away.
pub record IsAccounted {W : Type 0} (os : SocketCalls W) (opened : W → List ℤ) : Type 0 where
  pub socket : (kind : SocketKind) → IsOpening opened (os.socket kind)
  pub accept : (fd : ℤ) (b : Bool) → IsOpening opened (os.accept fd b)
  pub close :
      (fd : ℤ) (rest : List ℤ) (w : W) → opened w ≡ fd ∷ rest → opened (os.close fd w).world ≡ rest
  pub connect : (fd : ℤ) (a : SocketAddress) → IsSilent opened (os.connect fd a)
  pub bind : (fd : ℤ) (a : SocketAddress) → IsSilent opened (os.bind fd a)
  pub listen : (fd backlog : ℤ) → IsSilent opened (os.listen fd backlog)
  pub set_reuse : (fd : ℤ) → IsSilent opened (os.set_reuse fd)
  pub get_flags : (fd : ℤ) → IsSilent opened (os.get_flags fd)
  pub set_nonblocking_flag : (fd flags : ℤ) → IsSilent opened (os.set_nonblocking_flag fd flags)

module _ {W : Type 0} (os : SocketCalls W) (opened : W → List ℤ)
    (laws : IsAccounted os opened) where
  -- The descriptors open at the end are those open before, `before`, and one for the value.
  abbrev pub Adds : {A : Type 0} → (A → ℤ) → List ℤ → Result A × W → Type 0
  Adds fd_of before (ok a, w) = opened w ≡ fd_of a ∷ before
  Adds fd_of before (err e, w) = opened w ≡ before

  -- A step that leaves the open descriptors as they are.
  abbrev pub Keeps : {A : Type 0} → Step W A → Type 0
  Keeps m = (w : W) → opened (m w).1 ≡ opened w

  Keeps->>= :
      {A B : Type 0} (m : Step W A) (f : A → Step W B)
      → Keeps m
      → ((a : A) → Keeps (f a))
      → Keeps (m >>= f)
  Keeps->>= {A = A} {B = B} m f h k w = go (m w) (h w)
    where
      go : (r : Result A × W) → opened r.1 ≡ opened w → opened (follow f r).1 ≡ opened w
      go (ok a, w') e = k a w' ∙ e
      go (err x, w') e = e

  pub Keeps-expect_zero : (call : W → Outcome W) → IsSilent opened call → Keeps (expect_zero call)
  Keeps-expect_zero call h w = let same = h w in ground (arith, same)

  Keeps-value_of : (call : W → Outcome W) → IsSilent opened call → Keeps (value_of call)
  Keeps-value_of call h w =
      if_elim {A = Result ℤ × W} (λ r. opened r.1 ≡ opened w) (is_negative (call w).value)
        (λ _. h w) λ _. h w

  Keeps-guard : (b : Bool) (errno : ℕ) → Keeps (guard b errno)
  Keeps-guard true errno w = refl
  Keeps-guard false errno w = refl

  Keeps-set_nonblocking : (fd : ℤ) → Keeps (set_nonblocking os fd)
  unfolding set_nonblocking
  Keeps-set_nonblocking fd =
      Keeps->>= (guard (not (is_negative fd)) ebadf >> value_of (os.get_flags fd))
        (λ flags. expect_zero (os.set_nonblocking_flag fd flags))
        (Keeps->>= (guard (not (is_negative fd)) ebadf) (λ _. value_of (os.get_flags fd))
          (Keeps-guard _ ebadf) λ _. Keeps-value_of (os.get_flags fd) (laws.get_flags fd))
        λ flags.
          Keeps-expect_zero (os.set_nonblocking_flag fd flags) (laws.set_nonblocking_flag fd flags)

  -- The body of a function that owns `fd`: nothing is opened or closed, and the value stands for `fd`.
  abbrev pub Gives : {A : Type 0} → (A → ℤ) → ℤ → List ℤ → Result A × W → Type 0
  Gives fd_of fd ds (ok a, w) = (fd_of a ≡ fd) × (opened w ≡ ds)
  Gives fd_of fd ds (err e, w) = opened w ≡ ds

  pub Gives-pure :
      {A : Type 0} (fd_of : A → ℤ) (fd : ℤ) (m : Step W (Unit {0})) (a : A) (w : W)
      → Keeps m
      → fd_of a ≡ fd
      → Gives fd_of fd (opened w) ((m >> pure a) w)
  Gives-pure {A = A} fd_of fd m a w h same = go (m w) (h w)
    where
      go :
          (r : Result (Unit {0}) × W)
          → opened r.1 ≡ opened w
          → Gives fd_of fd (opened w) (follow {B = A} (λ _. pure a) r)
      go (ok _, w') e = (same, e)
      go (err x, w') e = e

  Adds-owning :
      {A : Type 0} (fd_of : A → ℤ) (fd : ℤ) (body : Step W A) (before : List ℤ) (w : W)
      → opened w ≡ fd ∷ before
      → Gives fd_of fd (opened w) (body w)
      → Adds fd_of before (owning os fd body w)
  Adds-owning {A = A} fd_of fd body before w e = go (body w)
    where
      go :
          (r : Result A × W)
          → Gives fd_of fd (opened w) r
          → Adds fd_of before (close_on_error os fd r)
      go (ok a, w') (same, g) = g ∙ e ∙ ap (λ x. x ∷ before) (sym same)
      go (err x, w') g = laws.close fd before w' (g ∙ e)

  pub Adds->>= :
      {A : Type 0} (fd_of : A → ℤ) (before : List ℤ) (body : ℤ → Step W A) (r : Result ℤ × W)
      → Adds (λ fd. fd) before r
      → ((fd : ℤ) (w : W) → Gives fd_of fd (opened w) (body fd w))
      → Adds fd_of before (follow (λ fd. owning os fd (body fd)) r)
  Adds->>= fd_of before body (ok fd, w) e h = Adds-owning fd_of fd (body fd) before w e (h fd w)
  Adds->>= fd_of before body (err x, w) e h = e

  pub Adds-value_of :
      (call : W → Outcome W) (w : W)
      → IsOpening opened call
      → Adds (λ fd. fd) (opened w) (value_of call w)
  Adds-value_of call w h =
      if_elim {A = Result ℤ × W} (Adds (λ fd. fd) (opened w)) (is_negative (call w).value) (h w).1
        (h w).0

  Adds-make_stream_socket_nonblocking :
      (w : W) → Adds (λ fd. fd) (opened w) (make_stream_socket_nonblocking os w)
  unfolding make_stream_socket_nonblocking
  Adds-make_stream_socket_nonblocking w =
      let w' = (os.socket stream_nonblocking w).world in
      if_elim {A = Result ℤ × W} (Adds (λ fd. fd) (opened w))
        (is_negative (os.socket stream_nonblocking w).value)
        (λ h.
          Adds->>= (λ fd. fd) (opened w) (λ fd. set_nonblocking os fd >> pure fd)
            (value_of (os.socket stream) w')
            (rw (sym ((laws.socket stream_nonblocking w).1 h))
              (Adds-value_of (os.socket stream) w' (laws.socket stream)))
            λ fd w''.
              Gives-pure (λ fd. fd) fd (set_nonblocking os fd) fd w'' (Keeps-set_nonblocking fd)
                refl)
        ((laws.socket stream_nonblocking w).0)

  Gives-start_connect :
      (fd : ℤ) (addr : SocketAddress) (w : W)
      → Gives (λ u. u.fd) fd (opened w) (start_connect os fd addr w)
  unfolding start_connect
  Gives-start_connect fd addr w = elim (ℤ_discrete (os.connect fd addr w).value (pos 0)) [
    | yes e ↦ rw (if_pos _ e) (refl, laws.connect fd addr w)
    | no e ↦ rw (if_neg _ e) (
        if_elim {A = Result UniqueFd × W} (Gives (λ u. u.fd) fd (opened w))
          ((os.connect fd addr w).errno == einprogress) (λ _. (refl, laws.connect fd addr w))
          λ _. laws.connect fd addr w)
  ]

  -- A `tcp_stream::connect` that succeeds leaves one more descriptor open, that of the stream. One
  -- that fails, on any path, leaves open what was open before.
  pub connect_lem :
      (net : AddressCalls) (remote : Endpoint) (w : W)
      → Adds (λ u. u.fd) (opened w) (connect os net remote w)
  unfolding connect
  connect_lem net remote w = go (to_sockaddr net remote)
    where
      go :
          (r : Result SocketAddress)
          → Adds
              (λ u. u.fd)
              (opened w)
              (follow
                (λ addr. make_stream_socket_nonblocking os >>= λ fd.
                  owning os fd (start_connect os fd addr))
                (r, w))
      go (ok addr) =
          Adds->>= (λ u. u.fd) (opened w) (λ fd. start_connect os fd addr)
            (make_stream_socket_nonblocking os w) (Adds-make_stream_socket_nonblocking w)
            λ fd w'. Gives-start_connect fd addr w'
      go (err x) = refl

  pub Gives-listen_on :
      (fd : ℤ) (addr : SocketAddress) (backlog : ℤ) (w : W)
      → Gives (λ u. u.fd) fd (opened w) (listen_on os fd addr backlog w)
  unfolding listen_on set_reuse_addr
  Gives-listen_on fd addr backlog w =
      Gives-pure (λ u. u.fd) fd
        (expect_zero (os.set_reuse fd)
          >> expect_zero (os.bind fd addr)
          >> expect_zero (os.listen fd backlog))
        (owner_of fd) w
        (Keeps->>= (expect_zero (os.set_reuse fd) >> expect_zero (os.bind fd addr))
          (λ _. expect_zero (os.listen fd backlog))
          (Keeps->>= (expect_zero (os.set_reuse fd)) (λ _. expect_zero (os.bind fd addr))
            (Keeps-expect_zero (os.set_reuse fd) (laws.set_reuse fd))
            λ _. Keeps-expect_zero (os.bind fd addr) (laws.bind fd addr))
          λ _. Keeps-expect_zero (os.listen fd backlog) (laws.listen fd backlog))
        refl

  -- A `tcp_listener::bind` that succeeds leaves one more descriptor open, that of the listener. One
  -- that fails, on any path, leaves open what was open before.
  pub bind_lem :
      (net : AddressCalls) (local : Endpoint) (backlog : ℤ) (w : W)
      → Adds (λ u. u.fd) (opened w) (bind os net local backlog w)
  unfolding bind
  bind_lem net local backlog w = go (to_sockaddr net local)
    where
      go :
          (r : Result SocketAddress)
          → Adds
              (λ u. u.fd)
              (opened w)
              (follow
                (λ addr. make_stream_socket_nonblocking os >>= λ fd.
                  owning os fd (listen_on os fd addr backlog))
                (r, w))
      go (ok addr) =
          Adds->>= (λ u. u.fd) (opened w) (λ fd. listen_on os fd addr backlog)
            (make_stream_socket_nonblocking os w) (Adds-make_stream_socket_nonblocking w)
            λ fd w'. Gives-listen_on fd addr backlog w'
      go (err x) = refl

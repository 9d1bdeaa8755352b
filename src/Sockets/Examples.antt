-- ===== src/Sockets/Examples.antt =====
-- The theorems on sockets at a kernel that hands out descriptors and refuses to connect.
use libsimplenet.Base.{ℤ, pos, negsuc, refl, none, some, List, [], ◌∷◌, drop, length}
use libsimplenet.Core.{Outcome}
use libsimplenet.Core.Errno.{econnreset}
use libsimplenet.Sockets.Calls.{SocketCalls, AddressCalls}
use libsimplenet.Sockets.Address.{loopback}
use libsimplenet.Sockets.Nonblocking.{connect, bind}
use libsimplenet.Sockets.Blocking
use libsimplenet.Sockets.Blocking.Leaks.{opened-connect, opened-bind}
use libsimplenet.Sockets.Nonblocking.Leaks.{IsAccounted, Adds, connect_lem, bind_lem}

-- The world is the list of open descriptors.
abbrev opens : List ℤ → Outcome (List ℤ)
opens w = record { value = pos (length w); errno = 0; world = pos (length w) ∷ w }

abbrev works : List ℤ → Outcome (List ℤ)
works w = record { value = pos 0; errno = 0; world = w }

abbrev kernel : SocketCalls (List ℤ)
kernel = record {
  socket = λ _. opens;
  close = λ _ w. works (drop 1 w);
  connect = λ _ _ w. record { value = negsuc 0; errno = econnreset; world = w };
  bind = λ _ _. works;
  listen = λ _ _. works;
  accept = λ _ _. opens;
  set_reuse = λ _. works;
  set_sndbuf = λ _ _. works;
  get_error = λ _ w. (works w, 0);
  get_name = λ _ w. (works w, record { address = 0; sin_port = 0 });
  get_flags = λ _. works;
  set_nonblocking_flag = λ _ _. works;
  shutdown = λ _. works;
  send = λ _ _. works;
  recv = λ _ _ w. (works w, []);
  send_to = λ _ _ _. works;
  recv_from = λ _ _ w. (works w, [], record { address = 0; sin_port = 0 });
}

abbrev net : AddressCalls
net = record { inet_pton = λ _. some 0; inet_ntop = λ _. none; htons = λ n. n; ntohs = λ n. n }

kernel-IsAccounted : IsAccounted kernel (λ w. w)
kernel-IsAccounted = record {
  socket = λ _ w. ((λ _. refl), λ h. cc);
  accept = λ _ _ w. ((λ _. refl), λ h. cc);
  close = λ fd rest w e. rw e refl;
  connect = λ _ _ _. refl;
  bind = λ _ _ _. refl;
  listen = λ _ _ _. refl;
  set_reuse = λ _ _. refl;
  get_flags = λ _ _. refl;
  set_nonblocking_flag = λ _ _ _. refl;
}

connect_lem_example :
    Adds kernel
      (λ w. w)
      kernel-IsAccounted
      (λ u. u.fd)
      (pos 0 ∷ [])
      (connect kernel net (loopback 80) (pos 0 ∷ []))
connect_lem_example = connect_lem kernel (λ w. w) kernel-IsAccounted net (loopback 80) (pos 0 ∷ [])

bind_lem_example :
    Adds kernel
      (λ w. w)
      kernel-IsAccounted
      (λ u. u.fd)
      (pos 0 ∷ [])
      (bind kernel net (loopback 80) (pos 16) (pos 0 ∷ []))
bind_lem_example =
    bind_lem kernel (λ w. w) kernel-IsAccounted net (loopback 80) (pos 16) (pos 0 ∷ [])

opened-connect_example :
    Adds kernel
      (λ w. w)
      kernel-IsAccounted
      (λ u. u.fd)
      (pos 0 ∷ [])
      (Blocking.connect kernel net (loopback 80) (pos 0 ∷ []))
opened-connect_example =
    opened-connect kernel (λ w. w) kernel-IsAccounted net (loopback 80) (pos 0 ∷ [])

opened-bind_example :
    Adds kernel
      (λ w. w)
      kernel-IsAccounted
      (λ u. u.fd)
      (pos 0 ∷ [])
      (Blocking.bind kernel net (loopback 80) (pos 16) (pos 0 ∷ []))
opened-bind_example =
    opened-bind kernel (λ w. w) kernel-IsAccounted net (loopback 80) (pos 16) (pos 0 ∷ [])

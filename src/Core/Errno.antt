-- ===== src/Core/Errno.antt =====
-- The errno values of Linux that the sources name. EWOULDBLOCK is EAGAIN there.
use libsimplenet.Base.{ℕ}

abbrev pub enoent : ℕ
enoent = 2

abbrev pub eintr : ℕ
eintr = 4

abbrev pub ebadf : ℕ
ebadf = 9

abbrev pub eagain : ℕ
eagain = 11

abbrev pub enomem : ℕ
enomem = 12

abbrev pub ebusy : ℕ
ebusy = 16

abbrev pub einval : ℕ
einval = 22

abbrev pub epipe : ℕ
epipe = 32

abbrev pub edeadlk : ℕ
edeadlk = 35

abbrev pub etime : ℕ
etime = 62

abbrev pub econnreset : ℕ
econnreset = 104

abbrev pub etimedout : ℕ
etimedout = 110

abbrev pub ehostunreach : ℕ
ehostunreach = 113

abbrev pub einprogress : ℕ
einprogress = 115

abbrev pub ecanceled : ℕ
ecanceled = 125

abbrev pub ewouldblock : ℕ
ewouldblock = 11

-- ===== src/IoOps/Streams.antt =====
-- The operations without a timeout. Each of the four basic loops tries a call that does not block,
-- returns unless that would block, and waits. `fuel` bounds the rounds.
use libsimplenet.Base.{
  ℕ, zero, suc, ◌-◌, ◌==◌, Bool, ◌||◌, Option, none, some, List, [], ◌∷◌, ◌++◌, drop, length,
  if◌then◌else◌,
}
use libsimplenet.Core.{Error, Result, from_errno, ok, err, Status, done}
use libsimplenet.Core.Errno.{econnreset, epipe}
use libsimplenet.Core.UniqueFd.{UniqueFd}
use libsimplenet.Sockets.Address.{Endpoint}
use libsimplenet.Sockets.Calls.{SocketCalls, AddressCalls, Step, ◌>>◌, pure, close_on_error}
use libsimplenet.Sockets.Nonblocking
use libsimplenet.Sockets.Nonblocking.{is_would_block, is_in_progress}
use libsimplenet.IoOps.Waiting.{Coroutines, wait_readable, wait_writable}

-- What a loop returns; `none` when its fuel runs out.
abbrev pub Run : Type 0 → Type 0 → Type 0
Run W A = W → Option (Result A × W)

-- The shape of the loops: `attempt` until it succeeds or fails for good, with `wait` in between.
unfoldable pub until_ready :
    {W A : Type 0} → ℕ → (Error → Bool) → Step W A → Step W (Unit {0}) → Run W A
until_ready zero is_transient attempt wait w = none
until_ready (suc fuel) is_transient attempt wait w =
    let (tried, w₁) = attempt w in
    let (waited, w₂) = wait w₁ in
    let again = until_ready fuel is_transient attempt wait w₂ in
    elim tried [
      | ok a ↦ some (ok a, w₁)
      | err e ↦
          if is_transient e
          then elim waited [ err x ↦ some (err x, w₂) | ok _ ↦ again ]
          else some (err e, w₁)
    ]

module _ {W : Type 0} (os : SocketCalls W) (co : Coroutines W) where
  unfoldable pub async_accept : ℕ → UniqueFd → Run W UniqueFd
  unfolding until_ready is_would_block Nonblocking.accept wait_readable
  async_accept fuel listener =
      until_ready fuel is_would_block (Nonblocking.accept os listener)
        (wait_readable co listener.fd)

  unfoldable pub async_read_some : ℕ → UniqueFd → ℕ → Run W (List ℕ)
  unfolding until_ready is_would_block Nonblocking.read_some wait_readable
  async_read_some fuel s size =
      until_ready fuel is_would_block (Nonblocking.read_some os s size) (wait_readable co s.fd)

  unfoldable pub async_write_some : ℕ → UniqueFd → List ℕ → Run W ℕ
  unfolding until_ready is_would_block Nonblocking.write_some wait_writable
  async_write_some fuel s buffer =
      until_ready fuel is_would_block (Nonblocking.write_some os s buffer) (wait_writable co s.fd)

  -- The stream is the function's own until it is returned; `finish_connect` is tried on it.
  unfoldable pub finish_connecting : ℕ → UniqueFd → Run W UniqueFd
  unfolding until_ready is_would_block is_in_progress Nonblocking.finish_connect wait_writable
  finish_connecting fuel s w =
      elim (until_ready fuel (λ e. is_in_progress e || is_would_block e)
        (Nonblocking.finish_connect os s >> pure s) (wait_writable co s.fd) w) [
          | none ↦ none
          | some r ↦ some (close_on_error os s.fd r)
        ]

  unfoldable pub async_connect : ℕ → AddressCalls → Endpoint → Run W UniqueFd
  unfolding Nonblocking.connect finish_connecting
  async_connect fuel net remote w =
      let (made, w₁) = Nonblocking.connect os net remote w in
      elim made [ err e ↦ some (err e, w₁) | ok s ↦ finish_connecting fuel s w₁ ]

  -- The `while (total < buffer.size())` loops; the bytes read so far are the result's.
  unfoldable pub async_read_exact : ℕ → ℕ → UniqueFd → ℕ → W → Option (Status × List ℕ × W)
  unfolding async_read_some
  async_read_exact zero fuel s size w = none
  async_read_exact (suc rounds) fuel s size w =
      if size == 0 then some (done, [], w) else elim (async_read_some fuel s size w) [
        | none ↦ none
        | some (err e, w₁) ↦ some (err e, [], w₁)
        | some (ok [], w₁) ↦ some (err (from_errno econnreset), [], w₁)
        | some (ok (b ∷ bytes), w₁) ↦
            elim (async_read_exact rounds fuel s (size - length (b ∷ bytes)) w₁) [
              | none ↦ none
              | some r ↦ some (r.0, b ∷ bytes ++ r.1, r.2)
            ]
      ]

  unfoldable pub async_write_all : ℕ → ℕ → UniqueFd → List ℕ → Run W (Unit {0})
  unfolding async_write_some
  async_write_all zero fuel s buffer w = none
  async_write_all (suc rounds) fuel s buffer w =
      if length buffer == 0 then some (done, w) else elim (async_write_some fuel s buffer w) [
        | none ↦ none
        | some (err e, w₁) ↦ some (err e, w₁)
        | some (ok zero, w₁) ↦ some (err (from_errno epipe), w₁)
        | some (ok (suc n), w₁) ↦ async_write_all rounds fuel s (drop (suc n) buffer) w₁
      ]

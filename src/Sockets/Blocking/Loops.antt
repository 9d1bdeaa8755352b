-- ===== src/Sockets/Blocking/Loops.antt =====
-- `write_all` and `read_exact` end, and what they transfer.
use libsimplenet.Base.{
  ℕ, zero, suc, ℤ, is_negative, magnitude, ◌+◌, ◌≤◌, ◌<◌, ◌≡◌, refl, ap, ◌∙◌, ◌==◌, not, true,
  false, Option, none, some, List, [], ◌∷◌, ◌++◌, append_assoc, append-nil, take, drop, length,
  length-drop, take-append-drop, if_elim, arith,
}
use libsimplenet.Core.{err, from_errno, Status, done}
use libsimplenet.Core.Errno.{ebadf, eintr, epipe}
use libsimplenet.Core.UniqueFd
use libsimplenet.Core.UniqueFd.{UniqueFd}
use libsimplenet.Sockets.Calls.{SocketCalls}
use libsimplenet.Sockets.Blocking.{write_rounds, write_all}

-- What `send` is relied on for: it takes a prefix of the bytes, or none if it fails; and before it
-- does anything else it is interrupted at most `patience` times.
pub record IsSender {W : Type 0} (os : SocketCalls W) (sent : W → List ℕ) (patience : W → ℕ)
    : Type 0 where
  pub accepted :
      (fd : ℤ) (buffer : List ℕ) (w : W)
      → is_negative (os.send fd buffer w).value ≡ false
      → (magnitude (os.send fd buffer w).value ≤ length buffer)
        × (sent (os.send fd buffer w).world
            ≡ sent w ++ take (magnitude (os.send fd buffer w).value) buffer)
        × (patience (os.send fd buffer w).world ≤ patience w)
  pub failed :
      (fd : ℤ) (buffer : List ℕ) (w : W)
      → is_negative (os.send fd buffer w).value ≡ true
      → sent (os.send fd buffer w).world ≡ sent w
  pub interrupted :
      (fd : ℤ) (buffer : List ℕ) (w : W)
      → is_negative (os.send fd buffer w).value ≡ true
      → (os.send fd buffer w).errno ≡ eintr
      → patience (os.send fd buffer w).world < patience w

module _ {W : Type 0} (os : SocketCalls W) (sent : W → List ℕ) (patience : W → ℕ)
    (laws : IsSender os sent patience) where
  -- What was sent is the beginning of the buffer; after a success it is the whole.
  pub record IsSent (buffer : List ℕ) (w : W) (r : Status × W) : Type 0 where
    pub rest : List ℕ
    pub split : sent r.1 ++ rest ≡ sent w ++ buffer
    pub whole : r.0 ≡ done → rest ≡ []

  abbrev Ends : List ℕ → W → Option (Status × W) → Type 0
  Ends buffer w none = ⊥
  Ends buffer w (some r) = IsSent buffer w r

  further :
      (buffer rest : List ℕ) (w w' : W) (o : Option (Status × W))
      → sent w' ++ rest ≡ sent w ++ buffer
      → Ends rest w' o
      → Ends buffer w o
  further buffer rest w w' none e d = d
  further buffer rest w w' (some r) e d = record {
    rest = d.rest;
    split = d.split ∙ e;
    whole = d.whole;
  }

  stuck :
      (buffer : List ℕ) (w w' : W) (s : Status)
      → sent w' ≡ sent w
      → (s ≡ done → buffer ≡ [])
      → IsSent buffer w (s, w')
  stuck buffer w w' s e h = record { rest = buffer; split = ap (λ x. x ++ buffer) e; whole = h }

  empty : (buffer : List ℕ) → length buffer ≡ 0 → buffer ≡ []
  empty [] h = refl
  empty (x ∷ buffer) h = absurd (omega arith)

  write_rounds_lem :
      (fuel : ℕ) (fd : ℤ) (buffer : List ℕ) (w : W)
      → length buffer + patience w < fuel
      → Ends buffer w (write_rounds os fuel fd buffer w)
  unfolding write_rounds
  write_rounds_lem zero fd buffer w enough = absurd (omega arith)
  write_rounds_lem (suc fuel) fd buffer w enough =
      let out = os.send fd buffer w in
      if_elim (Ends buffer w) (length buffer == 0)
        (λ h. stuck buffer w w done refl λ _. empty buffer (ground arith))
        λ some_bytes.
          if_elim (Ends buffer w) (is_negative out.value)
            (λ bad.
              if_elim (Ends buffer w) (out.errno == eintr)
                (λ e.
                  let later = laws.interrupted fd buffer w bad (ground arith) in
                  further buffer buffer w out.world (write_rounds os fuel fd buffer out.world)
                    (ap (λ x. x ++ buffer) (laws.failed fd buffer w bad))
                    (write_rounds_lem fuel fd buffer out.world (omega arith)))
                λ _.
                  stuck buffer w out.world (err (from_errno out.errno))
                    (laws.failed fd buffer w bad) λ x. cc)
            λ good.
              let a = laws.accepted fd buffer w good in
              let n = magnitude out.value in
              if_elim (Ends buffer w) (n == 0)
                (λ none_taken.
                  further buffer buffer w out.world (some (err (from_errno epipe), out.world))
                    (nothing fd buffer w good (ground arith))
                    (stuck buffer out.world out.world (err (from_errno epipe)) refl λ x. cc))
                λ some_taken.
                  further buffer (drop n buffer) w out.world
                    (write_rounds os fuel fd (drop n buffer) out.world)
                    (rw a.1 (
                      append_assoc (sent w) (take n buffer) (drop n buffer)
                      ∙ ap (λ x. sent w ++ x) (take-append-drop n buffer)))
                    (write_rounds_lem fuel fd (drop n buffer) out.world
                      (ground (arith, length-drop n buffer, a)))
    where
      nothing :
          (fd : ℤ) (buffer : List ℕ) (w : W)
          → is_negative (os.send fd buffer w).value ≡ false
          → magnitude (os.send fd buffer w).value ≡ 0
          → sent (os.send fd buffer w).world ++ buffer ≡ sent w ++ buffer
      nothing fd buffer w good e =
          ap (λ x. x ++ buffer)
            ((laws.accepted fd buffer w good).1
              ∙ ap (λ n. sent w ++ take n buffer) e
              ∙ append-nil (sent w))

  -- Over a `send` that keeps its laws, `write_all` returns when it has more fuel than there are bytes
  -- and interruptions to come. The bytes sent are the first of the buffer, in order; after a success
  -- they are all of it.
  pub write_all_lem :
      (fuel : ℕ) (s : UniqueFd) (buffer : List ℕ) (w : W)
      → length buffer + patience w < fuel
      → (r : Status × W) × (write_all os fuel s buffer w ≡ some r) × IsSent buffer w r
  unfolding write_all
  write_all_lem fuel s buffer w enough = result (write_all os fuel s buffer w) (
      if_elim (Ends buffer w) (not (UniqueFd.valid s))
        (λ _. stuck buffer w w (err (from_errno ebadf)) refl λ x. cc)
        λ _.
          if_elim (Ends buffer w) (length buffer == 0)
            (λ h. stuck buffer w w done refl λ _. empty buffer (ground arith))
            λ _. write_rounds_lem fuel s.fd buffer w enough)
    where
      result :
          (o : Option (Status × W))
          → Ends buffer w o
          → (r : Status × W) × (o ≡ some r) × IsSent buffer w r
      result none d = absurd d
      result (some r) d = (r, refl, d)

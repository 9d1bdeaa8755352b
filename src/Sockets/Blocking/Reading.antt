-- ===== src/Sockets/Blocking/Reading.antt =====
-- `read_exact` ends, and what it stores.
use libsimplenet.Base.{
  ℕ, zero, suc, ℤ, is_negative, magnitude, ◌+◌, ◌-◌, ◌≤◌, ◌<◌, ◌≡◌, refl, ap, ◌∙◌, ◌==◌, not, true,
  false, Option, none, some, List, [], ◌∷◌, ◌++◌, append_assoc, take, length, length-append,
  if_elim, arith,
}
use libsimplenet.Core.{err, from_errno, Status, done}
use libsimplenet.Core.Errno.{ebadf, eintr, econnreset}
use libsimplenet.Core.UniqueFd
use libsimplenet.Core.UniqueFd.{UniqueFd}
use libsimplenet.Sockets.Calls.{SocketCalls}
use libsimplenet.Sockets.Blocking.{read_rounds, read_exact}

-- The bytes that one `recv` stores.
abbrev stored : {W : Type 0} → SocketCalls W → ℤ → ℕ → W → List ℕ
stored os fd size w = take (magnitude (os.recv fd size w).0.value) (os.recv fd size w).1

-- What `recv` is relied on for: it takes the next bytes that the peer has sent, no more than fit the
-- buffer, or none if it fails; and it is interrupted at most `patience` times.
pub record IsReceiver {W : Type 0} (os : SocketCalls W) (incoming : W → List ℕ) (patience : W → ℕ)
    : Type 0 where
  pub accepted :
      (fd : ℤ) (size : ℕ) (w : W)
      → is_negative (os.recv fd size w).0.value ≡ false
      → (magnitude (os.recv fd size w).0.value ≤ size)
        × (length (stored os fd size w) ≡ magnitude (os.recv fd size w).0.value)
        × (stored os fd size w ++ incoming (os.recv fd size w).0.world ≡ incoming w)
        × (patience (os.recv fd size w).0.world ≤ patience w)
  pub failed :
      (fd : ℤ) (size : ℕ) (w : W)
      → is_negative (os.recv fd size w).0.value ≡ true
      → incoming (os.recv fd size w).0.world ≡ incoming w
  pub interrupted :
      (fd : ℤ) (size : ℕ) (w : W)
      → is_negative (os.recv fd size w).0.value ≡ true
      → (os.recv fd size w).0.errno ≡ eintr
      → patience (os.recv fd size w).0.world < patience w

module _ {W : Type 0} (os : SocketCalls W) (incoming : W → List ℕ) (patience : W → ℕ)
    (laws : IsReceiver os incoming patience) where
  -- What is stored is the next bytes that came in, at most `size`, and `size` after a success.
  pub record IsReceived (size : ℕ) (w : W) (r : Status × List ℕ × W) : Type 0 where
    pub split : r.1 ++ incoming r.2 ≡ incoming w
    pub bound : length r.1 ≤ size
    pub whole : r.0 ≡ done → length r.1 ≡ size

  abbrev Ends : ℕ → W → Option (Status × List ℕ × W) → Type 0
  Ends size w none = ⊥
  Ends size w (some r) = IsReceived size w r

  later :
      (size : ℕ) (w w' : W) (o : Option (Status × List ℕ × W))
      → incoming w' ≡ incoming w
      → Ends size w' o
      → Ends size w o
  later size w w' none e d = d
  later size w w' (some r) e d = record { split = d.split ∙ e; bound = d.bound; whole = d.whole }

  stuck :
      (size : ℕ) (w w' : W) (s : Status)
      → incoming w' ≡ incoming w
      → (s ≡ done → 0 ≡ size)
      → IsReceived size w (s, [], w')
  stuck size w w' s e h = record { split = e; bound = omega arith; whole = h }

  abbrev prepend : List ℕ → Option (Status × List ℕ × W) → Option (Status × List ℕ × W)
  prepend bytes none = none
  prepend bytes (some r) = some (r.0, bytes ++ r.1, r.2)

  further :
      (size : ℕ) (bytes : List ℕ) (w w' : W) (o : Option (Status × List ℕ × W))
      → length bytes ≤ size
      → bytes ++ incoming w' ≡ incoming w
      → Ends (size - length bytes) w' o
      → Ends size w (prepend bytes o)
  further size bytes w w' none h e d = d
  further size bytes w w' (some r) h e d = record {
    split = append_assoc bytes r.1 (incoming r.2) ∙ ap (λ x. bytes ++ x) d.split ∙ e;
    bound = omega (arith, length-append bytes r.1, d.bound);
    whole = λ ended. omega (arith, length-append bytes r.1, d.whole ended);
  }

  nothing : (bytes rest all : List ℕ) → length bytes ≡ 0 → bytes ++ rest ≡ all → rest ≡ all
  nothing [] rest all h e = e
  nothing (x ∷ bytes) rest all h e = absurd (omega arith)

  read_rounds_lem :
      (fuel : ℕ) (fd : ℤ) (size : ℕ) (w : W)
      → size + patience w < fuel
      → Ends size w (read_rounds os fuel fd size w)
  unfolding read_rounds
  read_rounds_lem zero fd size w enough = absurd (omega arith)
  read_rounds_lem (suc fuel) fd size w enough =
      let out = (os.recv fd size w).0 in
      let n = magnitude out.value in
      if_elim (Ends size w) (size == 0) (λ h. stuck size w w done refl λ _. ground arith)
        λ _.
          if_elim (Ends size w) (is_negative out.value)
            (λ bad.
              if_elim (Ends size w) (out.errno == eintr)
                (λ e.
                  let fewer = laws.interrupted fd size w bad (ground arith) in
                  later size w out.world (read_rounds os fuel fd size out.world)
                    (laws.failed fd size w bad)
                    (read_rounds_lem fuel fd size out.world (omega arith)))
                λ _.
                  stuck size w out.world (err (from_errno out.errno)) (laws.failed fd size w bad)
                    λ x. cc)
            λ good.
              let a = laws.accepted fd size w good in
              if_elim (Ends size w) (n == 0)
                (λ ended.
                  let none_taken : n ≡ 0 = ground arith in
                  stuck size w out.world (err (from_errno econnreset))
                    (nothing (stored os fd size w) (incoming out.world) (incoming w)
                      (omega (arith, a, none_taken)) a.2)
                    λ x. cc)
                λ some_taken. opened (read_rounds os fuel fd (size - n) out.world) (
                  further size (stored os fd size w) w out.world
                    (read_rounds os fuel fd (size - n) out.world) (omega arith) a.2
                    (rw a.1 (read_rounds_lem fuel fd (size - n) out.world (ground (arith, a)))))
    where
      opened :
          (o : Option (Status × List ℕ × W))
          → Ends size w (prepend (stored os fd size w) o)
          → Ends size w
              (elim o [ none ↦ none | some r ↦ some (r.0, stored os fd size w ++ r.1, r.2) ])
      opened none d = d
      opened (some r) d = d

  -- Over a `recv` that keeps its laws, `read_exact` returns when it has more fuel than bytes to read
  -- and interruptions to come. It stores the next bytes of the stream, in order, at most as many as
  -- asked for, and exactly as many after a success; no byte is lost.
  pub read_exact_lem :
      (fuel : ℕ) (s : UniqueFd) (size : ℕ) (w : W)
      → size + patience w < fuel
      → (r : Status × List ℕ × W) × (read_exact os fuel s size w ≡ some r) × IsReceived size w r
  unfolding read_exact
  read_exact_lem fuel s size w enough = result (read_exact os fuel s size w) (
      if_elim (Ends size w) (not (UniqueFd.valid s))
        (λ _. stuck size w w (err (from_errno ebadf)) refl λ x. cc)
        λ _.
          if_elim (Ends size w) (size == 0) (λ h. stuck size w w done refl λ _. ground arith)
            λ _. read_rounds_lem fuel s.fd size w enough)
    where
      result :
          (o : Option (Status × List ℕ × W))
          → Ends size w o
          → (r : Status × List ℕ × W) × (o ≡ some r) × IsReceived size w r
      result none d = absurd d
      result (some r) d = (r, refl, d)

-- ===== src/IoOps/Delivery.antt =====
-- `async_write_all` delivers the whole buffer, or says how far it came; and the timed write is the
-- writer that `queued_writer` flushes through.
use libsimplenet.Base.{
  ℕ, zero, suc, ℤ, pos, ◌≤◌, ◌<◌, ◌==◌, ◌≡◌, refl, ap, ◌∙◌, if_elim, Option, none, some, List, [],
  ◌∷◌, ◌++◌, append_assoc, append-nil, subst, take, drop, length, length-drop, take-append-drop,
  arith,
}
use libsimplenet.Core.{Error, Result, from_errno, ok, err, Status, done}
use libsimplenet.Core.Errno.{epipe}
use libsimplenet.Core.UniqueFd.{UniqueFd}
use libsimplenet.Sockets.Calls.{SocketCalls}
use libsimplenet.Sockets.Nonblocking
use libsimplenet.WriteQueue.{Writer, QueuedWriter, flush}
use libsimplenet.WriteQueue.Flush.{IsWriter, IsFlushed, flush_lem}
use libsimplenet.WriteQueue.Enqueue.{IsWellFormed}
use libsimplenet.EventLoop.State.{value_or}
use libsimplenet.IoOps.Cancel.{CancelToken, stop_requested}
use libsimplenet.IoOps.Waiting.{Coroutines}
use libsimplenet.IoOps.Streams.{async_write_some, async_write_all}
use libsimplenet.IoOps.Timed.{Ambient, async_write_some_with_timeout}
use libsimplenet.IoOps.Loops.{Ends}
use libsimplenet.IoOps.Writing.{
  IsStream, IsWritten, async_write_some_lem, async_write_some_with_timeout_lem,
}

module _ {W : Type 0} (os : SocketCalls W) (co : Coroutines W) (env : Ambient W) (sent : W → List ℕ)
    (patience : W → ℕ) (laws : IsStream os co env sent patience) where
  -- What was sent is the beginning of the buffer; after a success it is the whole.
  abbrev pub IsDelivered : List ℕ → List ℕ → Status × W → Type 0
  IsDelivered x buffer (s, w) =
      (rest : List ℕ) × (sent w ++ rest ≡ x ++ buffer) × (s ≡ done → rest ≡ [])

  empty : (buffer : List ℕ) → length buffer ≡ 0 → buffer ≡ []
  empty [] h = refl
  empty (x ∷ buffer) h = absurd (omega arith)

  -- Over a stream that keeps its laws, `async_write_all` ends, given more rounds than there are bytes
  -- and more fuel for each write than the world has patience. What it has sent is the beginning of the
  -- buffer, in order; after a success it is the whole.
  pub async_write_all_lem :
      (rounds fuel : ℕ) (s : UniqueFd) (buffer : List ℕ) (w : W)
      → length buffer < rounds
      → patience w < fuel
      → Ends (IsDelivered (sent w) buffer) (async_write_all os co rounds fuel s buffer w)
  unfolding async_write_all
  async_write_all_lem zero fuel s buffer w short enough = absurd (omega arith)
  async_write_all_lem (suc rounds) fuel s buffer w short enough =
      if_elim (Ends (IsDelivered (sent w) buffer)) (length buffer == 0)
        (λ h. (buffer, refl, λ _. empty buffer (ground arith)))
        λ _.
          of_write
            (λ n w₁ h j.
              async_write_all_lem rounds fuel s (drop (suc n) buffer) w₁
                (omega (arith, length-drop (suc n) buffer)) (omega arith))
            (async_write_some os co fuel s buffer w)
            (async_write_some_lem os co env sent patience laws fuel s buffer w enough)
    where
      further :
          (rest : List ℕ) (w₁ : W) (o : Option (Status × W))
          → sent w₁ ++ rest ≡ sent w ++ buffer
          → Ends (IsDelivered (sent w₁) rest) o
          → Ends (IsDelivered (sent w) buffer) o
      further rest w₁ none e d = d
      further rest w₁ (some r) e d = (d.0, d.1 ∙ e, d.2)

      of_write :
          ((n : ℕ) (w₁ : W)
            → suc n ≤ length buffer
            → patience w₁ ≤ patience w
            → Ends
                (IsDelivered (sent w₁) (drop (suc n) buffer))
                (async_write_all os co rounds fuel s (drop (suc n) buffer) w₁))
          → (o : Option (Result ℕ × W))
          → Ends (IsWritten os co env sent patience laws (sent w) (patience w) buffer) o
          → Ends (IsDelivered (sent w) buffer) (elim o as (λ _. Option (Status × W)) [
            | none ↦ none
            | some (err e, w₁) ↦ some (err e, w₁)
            | some (ok zero, w₁) ↦ some (err (from_errno epipe), w₁)
            | some (ok (suc n), w₁) ↦ async_write_all os co rounds fuel s (drop (suc n) buffer) w₁
          ])
      of_write ih none d = d
      of_write ih (some (err e, w₁)) d = (buffer, ap (λ x. x ++ buffer) (d.0), λ q. cc)
      of_write ih (some (ok zero, w₁)) d =
          (buffer, ap (λ x. x ++ buffer) (d.1 ∙ append-nil (sent w)), λ q. cc)
      of_write ih (some (ok (suc n), w₁)) d =
          further (drop (suc n) buffer) w₁
            (async_write_all os co rounds fuel s (drop (suc n) buffer) w₁)
            (rw (d.1) (
              append_assoc (sent w) (take (suc n) buffer) (drop (suc n) buffer)
              ∙ ap (λ x. sent w ++ x) (take-append-drop (suc n) buffer)))
            (ih n w₁ d.0 d.2)

  -- The timed write as `queued_writer` uses it, with as much fuel as the world has patience. The value
  -- for a call that does not end is never taken.
  abbrev pub timed_write : CancelToken → ℤ → List ℕ → ℕ → W → Result ℕ × W
  timed_write token fd span timeout w =
      value_or
        (async_write_some_with_timeout env token os co (suc (patience w)) (record { fd = fd }) span
          (pos timeout) w)
        (err (from_errno epipe), w)

  abbrev pub timed_writer : CancelToken → Writer W
  timed_writer token = record {
    now = env.now;
    stop_requested = λ w. stop_requested token (env.flags w);
    write_some = timed_write token;
    shutdown_write = λ fd. Nonblocking.shutdown_write os (record { fd = fd });
  }

  timed_write_lem :
      (token : CancelToken) (fd : ℤ) (span : List ℕ) (timeout : ℕ) (w : W)
      → IsWritten os co env sent patience laws
          (sent w)
          (patience w)
          span
          (timed_write token fd span timeout w)
  timed_write_lem token fd span timeout w =
      of_ends
        (async_write_some_with_timeout env token os co (suc (patience w)) (record { fd = fd }) span
          (pos timeout) w)
        (async_write_some_with_timeout_lem os co env sent patience laws token (suc (patience w))
          (record { fd = fd }) span (pos timeout) w (omega arith))
    where
      of_ends :
          (o : Option (Result ℕ × W))
          → Ends (IsWritten os co env sent patience laws (sent w) (patience w) span) o
          → IsWritten os co env sent patience laws
              (sent w)
              (patience w)
              span
              (value_or o (err (from_errno epipe), w))
      of_ends none d = absurd d
      of_ends (some r) d = d

  -- Over a stream that keeps its laws, the timed write keeps the laws that `flush` relies on.
  pub timed_writer-IsWriter : (token : CancelToken) → IsWriter (timed_writer token) sent
  timed_writer-IsWriter token = record {
    reading = λ w. (laws.now (sent w) w refl).0;
    written = λ fd span timeout n w q.
        of_ok (timed_write token fd span timeout w) w span n
          (timed_write_lem token fd span timeout w) q;
    refused = λ fd span timeout e w q.
        of_err (timed_write token fd span timeout w) w span e
          (timed_write_lem token fd span timeout w) q;
  }
    where
      of_ok :
          (r : Result ℕ × W) (w : W) (span : List ℕ) (n : ℕ)
          → IsWritten os co env sent patience laws (sent w) (patience w) span r
          → r.0 ≡ ok n
          → (n ≤ length span) × (sent r.1 ≡ sent w ++ take n span)
      of_ok (ok m, w') w span n d q =
          subst (λ k. (k ≤ length span) × (sent w' ≡ sent w ++ take k span))
            (ap (λ r. elim r [ ok k ↦ k | err _ ↦ n ]) q) (d.0, d.1)
      of_ok (err e, w') w span n d q = cc

      of_err :
          (r : Result ℕ × W) (w : W) (span : List ℕ) (e : Error)
          → IsWritten os co env sent patience laws (sent w) (patience w) span r
          → r.0 ≡ err e
          → sent r.1 ≡ sent w
      of_err (ok m, w') w span e d q = cc
      of_err (err x, w') w span e d q = d.0

  -- The queue over the socket: a `flush` of a well-formed queue through the timed write returns, given
  -- more rounds than bytes queued. What the stream has sent and what is still queued are together what
  -- had been sent and was queued; after a success nothing is left.
  pub socket_flush_lem :
      (token : CancelToken) (rounds : ℕ) (timeout : ℤ) (q : QueuedWriter) (w : W)
      → IsWellFormed q
      → q.queued_bytes < rounds
      → (r : Status × QueuedWriter × W) × (flush (timed_writer token) rounds timeout q w ≡ some r)
        × IsFlushed (timed_writer token) sent q w r
  socket_flush_lem token = flush_lem (timed_writer token) sent (timed_writer-IsWriter token)

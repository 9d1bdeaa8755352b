-- ===== src/IoOps/Writing.antt =====
-- What the writing operations send: `async_write_some`, `async_write_all` and
-- `async_write_some_with_timeout`, over a `send` that takes prefixes.
use libsimplenet.Base.{
  ℕ, ℤ, is_negative, magnitude, pos_part, ◌+◌, ◌≤◌, ◌<◌, ◌==◌, ◌≡◌, refl, sym, ap, subst, ◌∙◌, not,
  true, false, if_elim, option_elim, Option, none, some, List, ◌++◌, append-nil, take, length,
  arith,
}
use libsimplenet.Core.{Error, Result, from_errno, ok, err, Status, result_elim}
use libsimplenet.Core.Errno.{eagain, etimedout}
use libsimplenet.Core.UniqueFd
use libsimplenet.Core.UniqueFd.{UniqueFd}
use libsimplenet.Sockets.Calls.{SocketCalls}
use libsimplenet.Sockets.Nonblocking
use libsimplenet.Sockets.Nonblocking.{is_would_block}
use libsimplenet.EventLoop.Waiters.{ms}
use libsimplenet.IoOps.Cancel.{CancelToken}
use libsimplenet.IoOps.Waiting.{
  Scheduler, Coroutines, readiness_wait, wait_writable, wait_writable_for,
}
use libsimplenet.IoOps.Streams.{async_write_some}
use libsimplenet.IoOps.Timed.{Ambient, async_write_some_with_timeout}
use libsimplenet.IoOps.Loops.{Ends, IsCalm, IsRetried, until_ready-Ends, until_deadline-Ends}

-- What is relied on outside of the sources: `send` takes a prefix of the bytes, or none if it fails;
-- it would block only so often; and the clock, new frames, the scheduler and the rest of the program
-- send nothing on this stream and do not make it block more often.
pub record IsStream {W : Type 0} (os : SocketCalls W) (co : Coroutines W) (env : Ambient W)
    (sent : W → List ℕ) (patience : W → ℕ) : Type 0 where
  pub accepted :
      (fd : ℤ) (buffer : List ℕ) (w : W)
      → is_negative (os.send fd buffer w).value ≡ false
      → (magnitude (os.send fd buffer w).value ≤ length buffer)
        × (sent (os.send fd buffer w).world
            ≡ sent w ++ take (magnitude (os.send fd buffer w).value) buffer)
        × (patience (os.send fd buffer w).world ≤ patience w)
  pub refused :
      (fd : ℤ) (buffer : List ℕ) (w : W)
      → is_negative (os.send fd buffer w).value ≡ true
      → (sent (os.send fd buffer w).world ≡ sent w)
        × (patience (os.send fd buffer w).world ≤ patience w)
  pub blocked :
      (fd : ℤ) (buffer : List ℕ) (w : W)
      → is_negative (os.send fd buffer w).value ≡ true
      → (os.send fd buffer w).errno ≡ eagain
      → patience (os.send fd buffer w).world < patience w
  pub now : (x : List ℕ) → IsCalm (λ w. sent w ≡ x) patience (λ w. (env.now w).1)
  pub frame : (x : List ℕ) → IsCalm (λ w. sent w ≡ x) patience (λ w. (co.frame w).1)
  pub others : (x : List ℕ) (handle : ℕ) → IsCalm (λ w. sent w ≡ x) patience (co.others handle)
  pub armed :
      (x : List ℕ) (s : Scheduler W) (fd : ℤ) (handle : ℕ) (t : Option ℤ) (e : Error)
      → co.scheduler ≡ some s
      → IsCalm (λ w. sent w ≡ x) patience (λ w. (s.wait_for_writable fd handle t e w).1)
  pub consumed :
      (x : List ℕ) (s : Scheduler W) (handle : ℕ)
      → co.scheduler ≡ some s
      → IsCalm (λ w. sent w ≡ x) patience (λ w. (s.consume_wait_result handle w).1)

module _ {W : Type 0} (os : SocketCalls W) (co : Coroutines W) (env : Ambient W) (sent : W → List ℕ)
    (patience : W → ℕ) (laws : IsStream os co env sent patience) where
  -- Waiting sends nothing.
  wait-IsCalm :
      (x : List ℕ) (fd : ℤ) (handle : ℕ) (t : Option ℤ) (e : Error)
      → IsCalm (λ w. sent w ≡ x) patience (λ w. (readiness_wait co handle fd false t e w).1)
  unfolding readiness_wait
  wait-IsCalm x fd handle t e w i =
      option_elim Q co.scheduler (λ _. (i, omega arith))
        λ s q.
          let waits = s.wait_for_writable fd handle t e w in
          let arming = laws.armed x s fd handle t e q w i in
          let away = laws.others x handle waits.1 arming.0 in
          let back = laws.consumed x s handle q (co.others handle waits.1) away.0 in
          result_elim Q waits.0
            (λ _ _.
              if_elim Q (handle == 0) (λ _. (away.0, omega (arith, arming.1, away.1)))
                λ _. (back.0, omega (arith, arming.1, away.1, back.1)))
            λ _ _. arming
    where
      Q : Status × W → Type 0
      Q r = (sent r.1 ≡ x) × (patience r.1 ≤ patience w)

  -- Nothing but `x` was sent, and at most `p` of patience is left.
  abbrev IsSoFar : List ℕ → ℕ → W → Type 0
  IsSoFar x p w = (sent w ≡ x) × (patience w ≤ p)

  IsSoFar-IsCalm :
      (x : List ℕ) (p : ℕ) (step : W → W)
      → IsCalm (λ w. sent w ≡ x) patience step
      → IsCalm (IsSoFar x p) patience step
  IsSoFar-IsCalm x p step calm w (i, j) = let c = calm w i in ((c.0, omega (arith, c.1)), c.1)

  in_frame-IsCalm :
      (x : List ℕ) (p : ℕ) (fd : ℤ) (t : Option ℤ)
      → IsCalm (IsSoFar x p) patience (λ w.
        (readiness_wait co (co.frame w).0 fd false t (from_errno etimedout) (co.frame w).1).1)
  in_frame-IsCalm x p fd t = IsSoFar-IsCalm x p _ λ w i.
      let made = laws.frame x w i in
      let waited = wait-IsCalm x fd (co.frame w).0 t (from_errno etimedout) (co.frame w).1 made.0 in
      (waited.0, omega (arith, made.1, waited.1))

  -- What a write of `span` leaves, when `x` had been sent before and the world had patience `p`: a
  -- prefix of the span is sent, whose length is the result, or nothing and the result is an error.
  abbrev pub IsWritten : List ℕ → ℕ → List ℕ → Result ℕ × W → Type 0
  IsWritten x p span (ok n, w) = (n ≤ length span) × (sent w ≡ x ++ take n span) × (patience w ≤ p)
  IsWritten x p span (err e, w) = (sent w ≡ x) × (patience w ≤ p)

  -- The same of one attempt at it, which may also use up patience.
  abbrev IsAttempt : List ℕ → ℕ → List ℕ → W → Result ℕ × W → Type 0
  IsAttempt x p span w (ok n, w') =
      (n ≤ length span) × (sent w' ≡ x ++ take n span) × (patience w' ≤ p)
  IsAttempt x p span w (err e, w') =
      IsSoFar x p w' × (is_would_block e ≡ true → patience w' < patience w)

  write_some-IsAttempt :
      (x : List ℕ) (p : ℕ) (s : UniqueFd) (span : List ℕ) (w : W)
      → IsSoFar x p w
      → IsAttempt x p span w (Nonblocking.write_some os s span w)
  unfolding Nonblocking.write_some is_would_block
  write_some-IsAttempt x p s span w (i, j) =
      let out = os.send s.fd span w in
      if_elim (IsAttempt x p span w) (not (UniqueFd.valid s)) (λ _. ((i, j), λ q. cc))
        λ _.
          if_elim (IsAttempt x p span w) (length span == 0)
            (λ _. (omega arith, i ∙ sym (append-nil x), j))
            λ _.
              if_elim (IsAttempt x p span w) (is_negative out.value)
                (λ bad.
                  let r = laws.refused s.fd span w bad in
                  ((r.0 ∙ i, omega (arith, r.1)), λ q. laws.blocked s.fd span w bad (ground arith)))
                λ good.
                  let a = laws.accepted s.fd span w good in
                  (a.0, a.1 ∙ ap (λ y. y ++ take (magnitude out.value) span) i, omega (arith, a.2))

  attempt-IsRetried :
      (x : List ℕ) (p : ℕ) (s : UniqueFd) (span : List ℕ)
      → IsRetried is_would_block
          (Nonblocking.write_some os s span)
          (IsSoFar x p)
          (IsWritten x p span)
          patience
  attempt-IsRetried x p s span = record {
    returned = λ w a i q.
        returned w (Nonblocking.write_some os s span w) a (write_some-IsAttempt x p s span w i) q;
    refused = λ w e i q.
        (refused w (Nonblocking.write_some os s span w) e (write_some-IsAttempt x p s span w i)
          q).0;
    blocked = λ w e i q.
        (refused w (Nonblocking.write_some os s span w) e (write_some-IsAttempt x p s span w i)
          q).1;
    failed = λ w e i. i;
  }
    where
      returned :
          (w : W) (r : Result ℕ × W) (a : ℕ)
          → IsAttempt x p span w r
          → r.0 ≡ ok a
          → IsWritten x p span (ok a, r.1)
      returned w (ok n, w') a d q =
          subst (λ m. IsWritten x p span (ok m, w')) (ap (λ r. elim r [ ok m ↦ m | err _ ↦ a ]) q) d
      returned w (err e, w') a d q = cc

      refused :
          (w : W) (r : Result ℕ × W) (e : Error)
          → IsAttempt x p span w r
          → r.0 ≡ err e
          → IsSoFar x p r.1 × (is_would_block e ≡ true → patience r.1 < patience w)
      refused w (ok n, w') e d q = cc
      refused w (err z, w') e d q =
          subst (λ y. IsSoFar x p w' × (is_would_block y ≡ true → patience w' < patience w))
            (ap (λ r. elim r [ ok _ ↦ e | err y ↦ y ]) q) d

  -- Over a stream that keeps its laws, `async_write_some` ends, given more fuel than the world has
  -- patience: it has sent a prefix of the span, of the length that it returns, or nothing if it
  -- returns an error.
  pub async_write_some_lem :
      (fuel : ℕ) (s : UniqueFd) (span : List ℕ) (w : W)
      → patience w < fuel
      → Ends (IsWritten (sent w) (patience w) span) (async_write_some os co fuel s span w)
  unfolding async_write_some wait_writable
  async_write_some_lem fuel s span w enough =
      let x = sent w in
      let p = patience w in
      until_ready-Ends (Nonblocking.write_some os s span) (IsSoFar x p) (IsWritten x p span)
        patience is_would_block (wait_writable co s.fd) (attempt-IsRetried x p s span)
        (in_frame-IsCalm x p s.fd none) fuel w (refl, omega arith) enough

  -- Over a stream that keeps its laws, `async_write_some_with_timeout` ends, whatever its timeout and
  -- its token are, given more fuel than the world has patience: it has sent a prefix of the span, of
  -- the length that it returns, or nothing if it returns an error.
  pub async_write_some_with_timeout_lem :
      (token : CancelToken) (fuel : ℕ) (s : UniqueFd) (span : List ℕ) (timeout : ℤ) (w : W)
      → patience w < fuel
      → Ends
          (IsWritten (sent w) (patience w) span)
          (async_write_some_with_timeout env token os co fuel s span timeout w)
  unfolding async_write_some_with_timeout wait_writable_for
  async_write_some_with_timeout_lem token fuel s span timeout w enough =
      let x = sent w in
      let p = patience w in
      let clock = IsSoFar-IsCalm x p (λ v. (env.now v).1) (laws.now x) in
      let read = clock w (refl, omega arith) in
      if_elim (Ends (IsWritten x p span)) (is_negative timeout) (λ _. (refl, omega arith))
        λ _.
          until_deadline-Ends (Nonblocking.write_some os s span) (IsSoFar x p) (IsWritten x p span)
            patience env token (wait_writable_for co s.fd) (attempt-IsRetried x p s span) clock
            (λ t. in_frame-IsCalm x p s.fd (some t)) fuel ((env.now w).0 + ms (pos_part timeout))
            (env.now w).1 read.0 (omega (arith, read.1))

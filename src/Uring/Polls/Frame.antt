-- ===== src/Uring/Polls/Frame.antt =====
-- A call on the ring touches the world and `submission_pending_`, and nothing else of the loop.
use libsimplenet.Base.{ℕ, ℤ, is_negative, ◌==◌, ◌||◌, ◌≡◌, not, Bool, true, false, if_elim, arith}
use libsimplenet.Core.{Error, ok, err, Status, done, result_elim}
use libsimplenet.Core.Errno.{ebusy, enoent}
use libsimplenet.System.{RingSystem}
use libsimplenet.Uring.Reactor
use libsimplenet.Uring.State.{UringEventLoop}
use libsimplenet.Uring.Polls.{
  fails_with, sent, pending, unless_missing, flush_submissions, queue_poll_add, queue_poll_remove,
}

module _ {W : Type 0} where
  abbrev pub touched : W → Bool → UringEventLoop W → UringEventLoop W
  touched w b l = record l { world = w; submission_pending = b }

  -- `P` holds of whatever status, with a loop that differs from `l` there only.
  abbrev pub Everywhere : UringEventLoop W → (Status × UringEventLoop W → Type 0) → Type 0
  Everywhere l P = (s : Status) (w : W) (b : Bool) → P (s, touched w b l)

  module _ (l : UringEventLoop W) (P : Status × UringEventLoop W → Type 0)
      (h : Everywhere l P) where
    pending_touches : (s : Status) (w : W) (b : Bool) → P (pending (s, touched w b l))
    pending_touches (ok _) w b = h done w true
    pending_touches (err e) w b = h (err e) w b

    unless_missing_touches : (s : Status) (w : W) (b : Bool) → P (unless_missing (s, touched w b l))
    unless_missing_touches s w b =
        if_elim P (fails_with enoent s) (λ _. h done w b) λ _. pending_touches s w b

module _ {W : Type 0} (os : RingSystem W) where
  pub flush_touches :
      (l : UringEventLoop W) (P : Status × UringEventLoop W → Type 0)
      → Everywhere l P
      → P (flush_submissions os l)
  unfolding flush_submissions
  flush_touches l P h =
      if_elim P (not l.submission_pending) (λ _. h done l.world l.submission_pending)
        λ _.
          result_elim P (Reactor.submit os.ring l.reactor l.world).0 (λ _ _. h done _ false)
            λ e _. h (err e) _ l.submission_pending

  -- A flush and what follows it when it went well.
  flushed_touches :
      (l : UringEventLoop W) (P : Status × UringEventLoop W → Type 0)
      (next : UringEventLoop W → Status × UringEventLoop W)
      → Everywhere l P
      → ((w : W) (b : Bool) → P (next (touched w b l)))
      → P (elim (flush_submissions os l).0 [
        | err e ↦ (err e, (flush_submissions os l).1)
        | ok _ ↦ next (flush_submissions os l).1
      ])
  flushed_touches l P next h k =
      flush_touches l (λ r. P (elim r.0 [ err e ↦ (err e, r.1) | ok _ ↦ next r.1 ]))
        λ s w b. result_elim P s (λ _ _. k w b) λ e _. h (err e) w b

  -- The loop when the ring has taken a free entry in world `v`, prepared the poll request in it, and
  -- the entry waits to be submitted.
  abbrev pub asked : ℕ → ℤ → ℕ → UringEventLoop W → W → UringEventLoop W
  asked token fd mask l v =
      let ring = l.reactor.ring in
      touched (os.ring.prep_poll_add ring fd mask token (os.ring.get_sqe ring v).1) true l

  module _ (token : ℕ) (fd : ℤ) (mask : ℕ) (l : UringEventLoop W)
      (P : Status × UringEventLoop W → Type 0)
      (asks : (v : W)
        → (os.ring.get_sqe l.reactor.ring v).0 ≡ true
        → P (done, asked token fd mask l v))
      (refused : (e : Error) (w : W) (b : Bool) → P (err e, touched w b l)) where
    submit_poll_add_asks :
        (w : W) (b : Bool)
        → P (
            pending
              (sent (Reactor.submit_poll_add os.ring l.reactor token fd mask w) (touched w b l)))
    unfolding Reactor.submit_poll_add
    submit_poll_add_asks w b =
        let Q = λ (r : Status × W). P (pending (sent r (touched w b l))) in
        if_elim Q (not (Reactor.valid l.reactor)) (λ _. refused _ _ b)
          λ _.
            if_elim Q (token == 0 || is_negative fd || mask == 0) (λ _. refused _ _ b)
              λ _.
                if_elim Q (not (os.ring.get_sqe l.reactor.ring w).0) (λ _. refused _ _ b)
                  λ free. asks w (ground arith)

    -- A request is refused, or it is prepared at the ring under its token.
    pub queue_poll_add_cases : P (queue_poll_add os token fd mask l)
    unfolding queue_poll_add
    queue_poll_add_cases =
        let add = λ (x : UringEventLoop W).
          sent (Reactor.submit_poll_add os.ring x.reactor token fd mask x.world) x in
        if_elim P (fails_with ebusy (add l).0)
          (λ _.
            flush_touches (add l).1
              (λ r. P (elim r.0 [ err e ↦ (err e, r.1) | ok _ ↦ pending (add r.1) ]))
              λ s w b. result_elim P s (λ _ _. submit_poll_add_asks w b) λ e _. refused e w b)
          λ _. submit_poll_add_asks l.world l.submission_pending

  pub queue_poll_add_touches :
      (token : ℕ) (fd : ℤ) (mask : ℕ) (l : UringEventLoop W)
      (P : Status × UringEventLoop W → Type 0)
      → Everywhere l P
      → P (queue_poll_add os token fd mask l)
  unfolding queue_poll_add
  queue_poll_add_touches token fd mask l P h =
      let add = λ (x : UringEventLoop W).
        sent (Reactor.submit_poll_add os.ring x.reactor token fd mask x.world) x in
      if_elim P (fails_with ebusy (add l).0)
        (λ _.
          flushed_touches (add l).1 P (λ x. pending (add x)) h λ w b. pending_touches l P h _ _ b)
        λ _. pending_touches l P h _ _ l.submission_pending

  pub queue_poll_remove_touches :
      (token : ℕ) (l : UringEventLoop W) (P : Status × UringEventLoop W → Type 0)
      → Everywhere l P
      → P (queue_poll_remove os token l)
  unfolding queue_poll_remove
  queue_poll_remove_touches token l P h =
      let remove = λ (x : UringEventLoop W).
        sent (Reactor.submit_poll_remove os.ring x.reactor token x.world) x in
      if_elim P (token == 0) (λ _. h done l.world l.submission_pending)
        λ _.
          if_elim P (fails_with ebusy (remove l).0)
            (λ _.
              flushed_touches (remove l).1 P (λ x. unless_missing (remove x)) h
                λ w b.
                  let r = remove (touched w b (remove l).1) in
                  unless_missing_touches l P h r.0 r.1.world b)
            λ _. unless_missing_touches l P h (remove l).0 (remove l).1.world l.submission_pending

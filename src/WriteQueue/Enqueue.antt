-- ===== src/WriteQueue/Enqueue.antt =====
-- The well-formedness of the write queue, the bytes that it holds, and what `enqueue` does to them.
use libsimplenet.Base.{
  if◌then◌else◌, ℕ, zero, suc, ◌+◌, ◌≤◌, ◌<◌, ◌≡◌, refl, sym, ◌==◌, leb, not, ◌&&◌, true, false,
  List, [], ◌∷◌, ◌++◌, append_assoc, append-nil, All, length, length-append, drop, arith, if_elim,
  sum_by, sum_by-append,
}
use libsimplenet.Core.{Result, ok, err, from_errno}
use libsimplenet.Core.Errno.{ebadf, ewouldblock}
use libsimplenet.Core.UniqueFd
use libsimplenet.Core.UniqueFd.{UniqueFd}
use libsimplenet.WriteQueue.{
  Watermarks, BackpressureState, QueuedWriter, queued_writer, state_of, enqueue_owned,
}

abbrev pub concat : List (List ℕ) → List ℕ
concat [] = []
concat (buffer ∷ queue) = buffer ++ concat queue

-- The abstract view: the bytes still to be written, in order.
abbrev pub contents : QueuedWriter → List ℕ
contents q = drop q.front_offset (concat q.queue)

-- The offset lies in the first buffer.
abbrev pub IsPlaced : List (List ℕ) → ℕ → Type 0
IsPlaced [] offset = offset ≡ 0
IsPlaced (buffer ∷ queue) offset = offset < length buffer

pub record IsWellFormed (q : QueuedWriter) : Type 0 where
  pub marked : (1 ≤ q.marks.low) × (q.marks.low ≤ q.marks.high)
  pub counted : q.front_offset + q.queued_bytes ≡ sum_by length q.queue
  pub placed : IsPlaced q.queue q.front_offset
  pub filled : All (λ b. 0 < length b) q.queue
  -- The high-watermark state has its hysteresis.
  pub high : q.high_watermark_active ≡ true → q.marks.low ≤ q.queued_bytes
  pub normal : q.high_watermark_active ≡ false → q.queued_bytes ≤ q.marks.high

pub length-concat : (m : List (List ℕ)) → length (concat m) ≡ sum_by length m
length-concat [] = refl
length-concat (b ∷ m) = omega (arith, length-append b (concat m), length-concat m)

concat-append : (m : List (List ℕ)) (b : List ℕ) → concat (m ++ b ∷ []) ≡ concat m ++ b
concat-append [] b = append-nil b
concat-append (c ∷ m) b = rw (concat-append m b) (sym (append_assoc c (concat m) b))

pub drop-append : (n : ℕ) (xs ys : List ℕ) → n ≤ length xs → drop n (xs ++ ys) ≡ drop n xs ++ ys
drop-append zero xs ys h = refl
drop-append (suc n) [] ys h = absurd (omega arith)
drop-append (suc n) (x ∷ xs) ys h = drop-append n xs ys (omega arith)

IsPlaced-append :
    (m : List (List ℕ)) (k : ℕ) (b : List ℕ)
    → IsPlaced m k
    → 0 < length b
    → IsPlaced (m ++ b ∷ []) k
IsPlaced-append [] k b p h = omega arith
IsPlaced-append (c ∷ m) k b p h = p

filled-append :
    (m : List (List ℕ)) (b : List ℕ)
    → All (λ b. 0 < length b) m
    → 0 < length b
    → All (λ b. 0 < length b) (m ++ b ∷ [])
filled-append [] b p h = (h, tt)
filled-append (c ∷ m) b (p, ps) h = (p, filled-append m b ps h)

-- A writer starts well-formed, whatever the watermarks.
pub queued_writer-IsWellFormed :
    (stream : UniqueFd) (marks : Watermarks) → IsWellFormed (queued_writer stream marks)
unfolding queued_writer
queued_writer-IsWellFormed stream marks = record {
  marked = ground arith;
  counted = refl;
  placed = refl;
  filled = tt;
  high = λ q. cc;
  normal = λ _. omega arith;
}

-- What an accepted call does: the bytes join the contents at the end, the answer is the state of
-- the watermark, and never more than the high mark is held besides the new bytes.
pub record IsAccepted (bytes : List ℕ) (q : QueuedWriter) (s : BackpressureState)
    (q' : QueuedWriter) : Type 0 where
  pub contents : contents q' ≡ contents q ++ bytes
  pub state : s ≡ state_of q'.high_watermark_active
  pub bound : 0 < length bytes → q'.queued_bytes ≤ q.marks.high + length bytes

abbrev pub IsEnqueued : List ℕ → QueuedWriter → Result BackpressureState × QueuedWriter → Type 0
IsEnqueued bytes q (ok s, q') = IsAccepted bytes q s q'
IsEnqueued bytes q (err e, q') = q' ≡ q

pub empty_bytes : (bytes : List ℕ) → length bytes ≡ 0 → bytes ≡ []
empty_bytes [] h = refl
empty_bytes (x ∷ bytes) h = absurd (omega arith)

none_of : (bytes : List ℕ) → 0 < length bytes → bytes ≡ [] → ⊥
none_of [] h e = omega arith
none_of (x ∷ bytes) h e = cc

module _ (bytes : List ℕ) (q : QueuedWriter) (v : IsWellFormed q) where
  contents-grown : drop q.front_offset (concat (q.queue ++ bytes ∷ [])) ≡ contents q ++ bytes
  contents-grown = rw (concat-append q.queue bytes) (
      drop-append q.front_offset (concat q.queue) bytes
        (omega (arith, length-concat q.queue, v.counted)))

  -- The ways through `enqueue`.
  enqueue_cases :
      (P : Result BackpressureState × QueuedWriter → Type 0)
      → P (err (from_errno ebadf), q)
      → (bytes ≡ [] → P (ok (state_of q.high_watermark_active), q))
      → P (err (from_errno ewouldblock), q)
      → (q.high_watermark_active ≡ false
          → 0 < length bytes
          → (let active =
                if leb q.marks.high (q.queued_bytes + length bytes) then true else false in
              P (
                ok (state_of active),
                record q {
                  queued_bytes = q.queued_bytes + length bytes;
                  queue = q.queue ++ bytes ∷ [];
                  high_watermark_active = active;
                },
              )))
      → P (enqueue_owned bytes q)
  unfolding enqueue_owned
  enqueue_cases P closed nothing full accepted =
      if_elim P (not (UniqueFd.valid q.stream)) (λ _. closed)
        λ _.
          if_elim P (length bytes == 0) (λ h. nothing (empty_bytes bytes (ground arith)))
            λ some_bytes.
              if_elim P (q.high_watermark_active && leb q.marks.low q.queued_bytes) (λ _. full)
                λ h.
                  let idle : q.high_watermark_active ≡ false = ground (arith, v.high) in
                  rw idle (accepted idle (ground arith))

  -- A well-formed writer stays so. A refused `enqueue` changes nothing. An accepted one appends the
  -- bytes to the contents, answers with the state of the watermark, and leaves at most the high mark
  -- and the new bytes queued if there are any new bytes.
  pub enqueue_owned_lem :
      IsWellFormed (enqueue_owned bytes q).1 × IsEnqueued bytes q (enqueue_owned bytes q)
  enqueue_owned_lem =
      enqueue_cases (λ r. IsWellFormed r.1 × IsEnqueued bytes q r) (v, refl)
        (λ e. (
          v,
          record {
            contents = rw e (sym (append-nil _));
            state = refl;
            bound = λ h. absurd (none_of bytes h e);
          },
        ))
        (v, refl)
        λ idle some_bytes. (
          record {
            marked = v.marked;
            counted = omega (arith, v.counted, sum_by-append length q.queue (bytes ∷ []));
            placed = IsPlaced-append q.queue q.front_offset bytes v.placed some_bytes;
            filled = filled-append q.queue bytes v.filled some_bytes;
            high = λ h. ground arith;
            normal = λ h. ground arith;
          },
          record {
            contents = contents-grown;
            state = refl;
            bound = λ _. omega (arith, v.normal idle);
          },
        )

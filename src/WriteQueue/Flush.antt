-- ===== src/WriteQueue/Flush.antt =====
-- What `flush` does with the queue: it returns, and what it wrote and what is left are together
-- what was queued.
use libsimplenet.Base.{
  ℕ, zero, suc, ℤ, is_negative, pos_part, ◌+◌, ◌-◌, ◌*◌, ◌≤◌, ◌<◌, ◌≡◌, refl, sym, ap, ◌∙◌, ◌==◌,
  leb, Bool, ◌&&◌, List, [], ◌∷◌, ◌++◌, append_assoc, append-nil, All, length, length-drop, take,
  drop, take-append-drop, arith, if_elim, sum_by, Bool-cases, inl, inr, if◌then◌else◌, Option, some,
  none,
}
use libsimplenet.Core.{Error, Result, ok, err, from_errno, Status, done}
use libsimplenet.Core.Errno.{einval, epipe}
use libsimplenet.WriteQueue.{
  Writer, QueuedWriter, update_backpressure_after_drain, front, pop_front, advance, remaining_span,
  slice_of, flush_rounds, flush,
}
use libsimplenet.WriteQueue.Enqueue.{
  concat, contents, empty_bytes, IsPlaced, IsWellFormed, length-concat, drop-append,
}

drop_nil : (n : ℕ) → drop {A = ℕ} n [] ≡ []
drop_nil zero = refl
drop_nil (suc n) = refl

drop-drop : (n k i : ℕ) (xs : List ℕ) → i ≡ k + n → drop n (drop k xs) ≡ drop i xs
drop-drop n zero i xs h = ap (λ j. drop j xs) (omega arith)
drop-drop n (suc k) i [] h = drop_nil n ∙ sym (drop_nil i)
drop-drop n (suc k) zero (x ∷ xs) h = absurd (omega arith)
drop-drop n (suc k) (suc i) (x ∷ xs) h = drop-drop n k i xs (omega arith)

take_all : (n : ℕ) (xs : List ℕ) → n ≡ length xs → take n xs ≡ xs
take_all zero [] h = refl
take_all zero (x ∷ xs) h = absurd (omega arith)
take_all (suc n) [] h = refl
take_all (suc n) (x ∷ xs) h = rw (take_all n xs (omega arith))

-- The queue and the offset after `n` more bytes of the first buffer were written.
abbrev has_ended : ℕ → ℕ → List (List ℕ) → Bool
has_ended n k m = k + n == length (front m)

abbrev offset_after : ℕ → ℕ → List (List ℕ) → ℕ
offset_after n k m = if has_ended n k m then 0 else k + n

abbrev queue_after : ℕ → ℕ → List (List ℕ) → List (List ℕ)
queue_after n k m = if has_ended n k m then pop_front m else m

record IsAdvanced (n k k' : ℕ) (m m' : List (List ℕ)) : Type 0 where
  placed : IsPlaced m' k'
  filled : All (λ b. 0 < length b) m'
  split : drop k (concat m) ≡ take n (drop k (front m)) ++ drop k' (concat m')
  count : k' + sum_by length m ≡ k + n + sum_by length m'

IsPlaced-first : (m : List (List ℕ)) → All (λ b. 0 < length b) m → IsPlaced m 0
IsPlaced-first [] f = refl
IsPlaced-first (b ∷ m) f = f.0

advanced :
    (n k : ℕ) (m : List (List ℕ))
    → 0 < n
    → n ≤ length (drop k (front m))
    → IsPlaced m k
    → All (λ b. 0 < length b) m
    → IsAdvanced n k (offset_after n k m) m (queue_after n k m)
advanced n k [] some_bytes h p f = absurd (omega (arith, length-drop {A = ℕ} k []))
advanced n k (b ∷ m) some_bytes h p (fb, fm) =
    let room = length-drop k b in
    let cut = drop-append k b (concat m) (omega arith) in
    elim (Bool-cases (k + n == length b)) [
      | inl e ↦ rw e (record {
        placed = IsPlaced-first m fm;
        filled = fm;
        split = cut ∙ ap (λ x. x ++ concat m) (sym (take_all n (drop k b) (ground (arith, room))));
        count = ground arith;
      })
      | inr e ↦ rw e (record {
        placed = ground (arith, room);
        filled = (fb, fm);
        split = rest (ground (arith, room)) cut;
        count = refl;
      })
    ]
  where
    rest :
        k + n < length b
        → drop k (b ++ concat m) ≡ drop k b ++ concat m
        → drop k (b ++ concat m) ≡ take n (drop k b) ++ drop (k + n) (b ++ concat m)
    rest inside cut =
        rw
          (
            cut,
            drop-append (k + n) b (concat m) (omega arith),
            sym (drop-drop n k (k + n) b refl),
            sym (append_assoc (take n (drop k b)) (drop n (drop k b)) (concat m)),
            take-append-drop n (drop k b),
          )
          refl

length-front : (m : List (List ℕ)) → length (front m) ≤ sum_by length m
length-front [] = omega arith
length-front (b ∷ m) = omega arith

module _ (n : ℕ) (q : QueuedWriter) (v : IsWellFormed q) where
  span_bound : n ≤ length (remaining_span q) → n ≤ q.queued_bytes
  span_bound h =
      omega (arith, length-drop q.front_offset (front q.queue), length-front q.queue, v.counted)

  -- After `n` bytes of the span were written they are gone from the front of the contents.
  advance_lem :
      0 < n
      → n ≤ length (remaining_span q)
      → IsWellFormed (advance n q)
        × ((advance n q).queued_bytes + n ≡ q.queued_bytes)
        × (contents q ≡ take n (remaining_span q) ++ contents (advance n q))
  unfolding advance update_backpressure_after_drain
  advance_lem some_bytes h =
      let a = advanced n q.front_offset q.queue some_bytes h v.placed v.filled in
      if_elim goal (q.high_watermark_active && leb (q.queued_bytes - n) q.marks.low)
        (λ drained. (
          record {
            marked = v.marked;
            counted = omega (arith, a.count, v.counted, span_bound h);
            placed = a.placed;
            filled = a.filled;
            high = λ x. cc;
            normal = λ _. ground (arith, v.marked);
          },
          omega (arith, span_bound h),
          a.split,
        ))
        λ more. (
          record {
            marked = v.marked;
            counted = omega (arith, a.count, v.counted, span_bound h);
            placed = a.placed;
            filled = a.filled;
            high = λ x. ground arith;
            normal = λ x. omega (arith, v.normal x);
          },
          omega (arith, span_bound h),
          a.split,
        )
    where
      goal : QueuedWriter → Type 0
      goal q' =
          IsWellFormed q'
          × (q'.queued_bytes + n ≡ q.queued_bytes)
          × (contents q ≡ take n (remaining_span q) ++ contents q')

-- What the queue relies on: a write that succeeds has sent a prefix of its span, and nothing else
-- sends. `sent` is what the stream has been given since it was opened.
pub record IsWriter {W : Type 0} (io : Writer W) (sent : W → List ℕ) : Type 0 where
  pub reading : (w : W) → sent (io.now w).1 ≡ sent w
  pub written :
      (fd : ℤ) (span : List ℕ) (timeout n : ℕ) (w : W)
      → (io.write_some fd span timeout w).0 ≡ ok n
      → (n ≤ length span) × (sent (io.write_some fd span timeout w).1 ≡ sent w ++ take n span)
  pub refused :
      (fd : ℤ) (span : List ℕ) (timeout : ℕ) (e : Error) (w : W)
      → (io.write_some fd span timeout w).0 ≡ err e
      → sent (io.write_some fd span timeout w).1 ≡ sent w

module _ {W : Type 0} (io : Writer W) (sent : W → List ℕ) where
  -- What a flush that began with `q` and `w` leaves: a well-formed queue; what was sent and what is
  -- left are together what had been sent and was queued; nothing is left after a success.
  pub record IsFlushed (q : QueuedWriter) (w : W) (r : Status × QueuedWriter × W) : Type 0 where
    pub kept : IsWellFormed r.1
    pub delivered : sent r.2 ++ contents r.1 ≡ sent w ++ contents q
    pub emptied : r.0 ≡ done → contents r.1 ≡ []

  abbrev Delivers : QueuedWriter → W → Option (Status × QueuedWriter × W) → Type 0
  Delivers q w none = ⊥
  Delivers q w (some r) = IsFlushed q w r

module _ {W : Type 0} (io : Writer W) (sent : W → List ℕ) (laws : IsWriter io sent) where
  -- A round that wrote is followed by the rest.
  after_write :
      (q q' : QueuedWriter) (w w' : W) (span : List ℕ) (o : Option (Status × QueuedWriter × W))
      → contents q ≡ span ++ contents q'
      → sent w' ≡ sent w ++ span
      → Delivers io sent q' w' o
      → Delivers io sent q w o
  after_write q q' w w' span none split grown d = d
  after_write q q' w w' span (some r) split grown d = record {
    kept = d.kept;
    delivered = d.delivered ∙ rw (grown, split) (append_assoc (sent w) span (contents q'));
    emptied = d.emptied;
  }

  -- Ended without having written.
  idle_end :
      (q : QueuedWriter) (w w' : W) (s : Status)
      → IsWellFormed q
      → sent w' ≡ sent w
      → (s ≡ done → contents q ≡ [])
      → IsFlushed io sent q w (s, q, w')
  idle_end q w w' s v same e = record {
    kept = v;
    delivered = ap (λ x. x ++ contents q) same;
    emptied = e;
  }

  no_contents : (q : QueuedWriter) → IsWellFormed q → q.queued_bytes ≡ 0 → contents q ≡ []
  no_contents q v h =
      empty_bytes (contents q) (
        omega
          (arith, length-drop q.front_offset (concat q.queue), length-concat q.queue, v.counted))

  flush_rounds_lem :
      (fuel deadline : ℕ) (q : QueuedWriter) (w : W)
      → IsWellFormed q
      → q.queued_bytes < fuel
      → Delivers io sent q w (flush_rounds io fuel deadline q w)
  unfolding flush_rounds
  flush_rounds_lem zero deadline q w v enough = absurd (omega arith)
  flush_rounds_lem (suc fuel) deadline q w v enough =
      if_elim (Delivers io sent q w) (q.queued_bytes == 0)
        (λ h. idle_end q w w done v refl λ _. no_contents q v (ground arith))
        λ _.
          if_elim (Delivers io sent q w) (io.stop_requested w)
            (λ _. idle_end q w w _ v refl λ x. cc)
            λ _.
              if_elim (Delivers io sent q w) (leb deadline (io.now w).0)
                (λ _. idle_end q w (io.now w).1 _ v (laws.reading w) λ x. cc)
                λ _.
                  by_answer (λ q' w' v' h. flush_rounds_lem fuel deadline q' w' v' h) written.0 refl
    where
      w₁ : W
      w₁ = (io.now w).1

      slice : ℕ
      slice = slice_of deadline (io.now w).0

      written : Result ℕ × W
      written = io.write_some q.stream.fd (remaining_span q) slice w₁

      by_answer :
          ((q' : QueuedWriter) (w' : W)
            → IsWellFormed q'
            → q'.queued_bytes < fuel
            → Delivers io sent q' w' (flush_rounds io fuel deadline q' w'))
          → (o : Result ℕ) → written.0 ≡ o
          → Delivers io sent q w (elim o [
            | err e ↦ some (err e, q, written.1)
            | ok zero ↦ some (err (from_errno epipe), q, written.1)
            | ok (suc n) ↦ flush_rounds io fuel deadline (advance (suc n) q) written.1
          ])
      by_answer later (err e) h =
          idle_end q w written.1 (err e) v
            (laws.refused q.stream.fd (remaining_span q) slice e w₁ h ∙ laws.reading w) λ x. cc
      by_answer later (ok zero) h =
          idle_end q w written.1 (err (from_errno epipe)) v
            ((laws.written q.stream.fd (remaining_span q) slice 0 w₁ h).1
              ∙ append-nil (sent w₁)
              ∙ laws.reading w)
            λ x. cc
      by_answer later (ok (suc n)) h =
          let l = laws.written q.stream.fd (remaining_span q) slice (suc n) w₁ h in
          let a = advance_lem (suc n) q v (omega arith) l.0 in
          after_write q (advance (suc n) q) w written.1 (take (suc n) (remaining_span q))
            (flush_rounds io fuel deadline (advance (suc n) q) written.1) a.2
            (l.1 ∙ ap (λ x. x ++ take (suc n) (remaining_span q)) (laws.reading w))
            (later (advance (suc n) q) written.1 a.0 (omega (arith, a.1)))

  result :
      (q : QueuedWriter) (w : W) (o : Option (Status × QueuedWriter × W))
      → Delivers io sent q w o
      → (r : Status × QueuedWriter × W) × (o ≡ some r) × IsFlushed io sent q w r
  result q w none d = absurd d
  result q w (some r) d = (r, refl, d)

  -- Over a writer that keeps its laws, `flush` of a well-formed queue returns when it has one round
  -- of fuel more than bytes queued. The bytes sent are then the first of those queued, in order, and
  -- the rest is still queued, in a well-formed queue; after a success nothing is left.
  pub flush_lem :
      (fuel : ℕ) (timeout : ℤ) (q : QueuedWriter) (w : W)
      → IsWellFormed q
      → q.queued_bytes < fuel
      → (r : Status × QueuedWriter × W) × (flush io fuel timeout q w ≡ some r)
        × IsFlushed io sent q w r
  unfolding flush
  flush_lem fuel timeout q w v enough =
      let deadline = (io.now w).0 + pos_part timeout * 1_000_000 in
      result q w (flush io fuel timeout q w) (
        if_elim (Delivers io sent q w) (is_negative timeout)
          (λ _. idle_end q w w (err (from_errno einval)) v refl λ x. cc)
          λ _.
            started q w (io.now w).1 (flush_rounds io fuel deadline q (io.now w).1) (laws.reading w)
              (flush_rounds_lem fuel deadline q (io.now w).1 v enough))
    where
      started :
          (q : QueuedWriter) (w w' : W) (o : Option (Status × QueuedWriter × W))
          → sent w' ≡ sent w
          → Delivers io sent q w' o
          → Delivers io sent q w o
      started q w w' none same d = d
      started q w w' (some r) same d = record {
        kept = d.kept;
        delivered = d.delivered ∙ ap (λ x. x ++ contents q) same;
        emptied = d.emptied;
      }

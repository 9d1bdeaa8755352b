-- ===== src/WriteQueue.antt =====
-- include/simplenet/runtime/write_queue.hpp and src/runtime/write_queue.cpp: the queue of outgoing
-- buffers with its two watermarks. A byte is a number. `std::size_t` counters are unbounded: the
-- bytes counted are in memory. What the queue awaits, asks and reads outside of itself is `Writer`.
pub mod Enqueue
pub mod Flush
pub mod Examples
use libsimplenet.Base.{
  ℕ, zero, suc, ℤ, is_negative, pos_part, ◌+◌, ◌-◌, ◌*◌, ◌/◌, ◌==◌, leb, ltb, min, max, Bool, true,
  false, not, ◌&&◌, Option, none, some, List, [], ◌∷◌, ◌++◌, length, drop, if◌then◌else◌,
}
use libsimplenet.Core.{Result, ok, err, Status, done, from_errno}
use libsimplenet.Core.Errno.{ebadf, ewouldblock, einval, ecanceled, etimedout, epipe}
use libsimplenet.Core.UniqueFd
use libsimplenet.Core.UniqueFd.{UniqueFd}

-- What `flush` uses: the clock in nanoseconds, the cancel token, a timed write of a span to the
-- stream with the timeout in milliseconds, and the stream's `shutdown_write`.
pub record Writer (W : Type 0) : Type 0 where
  pub now : W → ℕ × W
  pub stop_requested : W → Bool
  pub write_some : ℤ → List ℕ → ℕ → W → Result ℕ × W
  pub shutdown_write : ℤ → W → Status × W

pub record Watermarks : Type 0 where
  pub low : ℕ
  pub high : ℕ

pub data BackpressureState : Type 0 where
  normal high_watermark : BackpressureState

-- The class's fields, with the stream's descriptor.
pub record QueuedWriter : Type 0 where
  pub stream : UniqueFd
  pub marks : Watermarks
  pub queue : List (List ℕ)
  pub front_offset : ℕ
  pub queued_bytes : ℕ
  pub high_watermark_active : Bool

-- The constructor: both marks are made to satisfy 1 ≤ low ≤ high.
unfoldable pub queued_writer : UniqueFd → Watermarks → QueuedWriter
queued_writer stream marks =
    let low = if marks.low == 0 then 1 else marks.low in
    let high = if ltb marks.high low then low else marks.high in
    record {
      stream = stream;
      marks = record { low = low; high = high };
      queue = [];
      front_offset = 0;
      queued_bytes = 0;
      high_watermark_active = false;
    }

abbrev pub state_of : Bool → BackpressureState
state_of active = if active then high_watermark else normal

unfoldable pub enqueue_owned : List ℕ → QueuedWriter → Result BackpressureState × QueuedWriter
unfolding UniqueFd.valid
enqueue_owned bytes q =
    let queued = q.queued_bytes + length bytes in
    let active = if leb q.marks.high queued then true else q.high_watermark_active in
    if not (UniqueFd.valid q.stream)
    then (err (from_errno ebadf), q)
    else if length bytes == 0
    then (ok (state_of q.high_watermark_active), q)
    else if q.high_watermark_active && leb q.marks.low q.queued_bytes
    then (err (from_errno ewouldblock), q)
    else (
      ok (state_of active),
      record q {
        queued_bytes = queued;
        queue = q.queue ++ bytes ∷ [];
        high_watermark_active = active;
      },
    )

unfoldable pub update_backpressure_after_drain : QueuedWriter → QueuedWriter
update_backpressure_after_drain q =
    if q.high_watermark_active && leb q.queued_bytes q.marks.low
    then record q { high_watermark_active = false }
    else q

-- `queue_.front()` and `queue_.pop_front()`; `flush` calls neither on an empty queue.
abbrev pub front : List (List ℕ) → List ℕ
front [] = []
front (buffer ∷ queue) = buffer

abbrev pub pop_front : List (List ℕ) → List (List ℕ)
pop_front [] = []
pop_front (buffer ∷ queue) = queue

-- What a round of `flush` does after `n` bytes were written.
unfoldable pub advance : ℕ → QueuedWriter → QueuedWriter
unfolding update_backpressure_after_drain
advance n q =
    let front_offset = q.front_offset + n in
    let ended = front_offset == length (front q.queue) in
    update_backpressure_after_drain (record q {
      front_offset = if ended then 0 else front_offset;
      queued_bytes = q.queued_bytes - n;
      queue = if ended then pop_front q.queue else q.queue;
    })

-- The span that a round of `flush` writes, and the timeout that it gives it.
abbrev pub remaining_span : QueuedWriter → List ℕ
remaining_span q = drop q.front_offset (front q.queue)

abbrev pub slice_of : ℕ → ℕ → ℕ
slice_of deadline now = max 1 (min ((deadline - now) / 1_000_000) 100)

module _ {W : Type 0} (io : Writer W) where
  -- The `while` of `flush`, on fuel; `none` when that runs out.
  unfoldable pub flush_rounds : ℕ → ℕ → QueuedWriter → W → Option (Status × QueuedWriter × W)
  unfolding advance
  flush_rounds zero deadline q w = none
  flush_rounds (suc fuel) deadline q w =
      let (now, w₁) = io.now w in
      let written = io.write_some q.stream.fd (remaining_span q) (slice_of deadline now) w₁ in
      let onwards : Option (Status × QueuedWriter × W) = elim written.0 [
        | err e ↦ some (err e, q, written.1)
        | ok zero ↦ some (err (from_errno epipe), q, written.1)
        | ok (suc n) ↦ flush_rounds fuel deadline (advance (suc n) q) written.1
      ] in
      if q.queued_bytes == 0
      then some (done, q, w)
      else if io.stop_requested w
      then some (err (from_errno ecanceled), q, w)
      else if leb deadline now
      then some (err (from_errno etimedout), q, w₁)
      else onwards

  unfoldable pub flush : ℕ → ℤ → QueuedWriter → W → Option (Status × QueuedWriter × W)
  unfolding flush_rounds
  flush fuel timeout q w =
      let (now, w₁) = io.now w in
      if is_negative timeout
      then some (err (from_errno einval), q, w)
      else flush_rounds fuel (now + pos_part timeout * 1_000_000) q w₁

  -- `shutdown_write` follows a flush that went well.
  unfoldable pub graceful_shutdown : ℕ → ℤ → QueuedWriter → W → Option (Status × QueuedWriter × W)
  unfolding flush
  graceful_shutdown fuel timeout q w = elim (flush fuel timeout q w) [
    | none ↦ none
    | some (err e, q', w') ↦ some (err e, q', w')
    | some (ok _, q', w') ↦
        let shut = io.shutdown_write q'.stream.fd w' in some (shut.0, q', shut.1)
  ]

-- ===== src/WriteQueue/Examples.antt =====
-- The theorems on the write queue at a writer that takes two bytes at a time.
use libsimplenet.Base.{
  ℕ, pos, ◌≡◌, refl, ◌++◌, false, List, [], ◌∷◌, take, length, arith, Option, some, min,
}
use libsimplenet.Core.{ok, Status, done}
use libsimplenet.Core.UniqueFd.{UniqueFd}
use libsimplenet.WriteQueue.{Writer, Watermarks, QueuedWriter, queued_writer, enqueue_owned, flush}
use libsimplenet.WriteQueue.Enqueue.{
  IsWellFormed, queued_writer-IsWellFormed, IsEnqueued, enqueue_owned_lem,
}
use libsimplenet.WriteQueue.Flush.{IsWriter, IsFlushed, flush_lem}

-- The world is what was sent.
abbrev slow : Writer (List ℕ)
slow = record {
  now = λ w. (0, w);
  stop_requested = λ _. false;
  write_some = λ _ span _ w. (ok (min 2 (length span)), w ++ take (min 2 (length span)) span);
  shutdown_write = λ _ w. (done, w);
}

slow-IsWriter : IsWriter slow (λ w. w)
slow-IsWriter = record {
  reading = λ _. refl;
  written = λ fd span t n w h. (
    let same : min 2 (length span) ≡ n = cc in omega arith,
    let same : min 2 (length span) ≡ n = cc in rw same refl,
  );
  refused = λ _ _ _ _ _ h. cc;
}

abbrev open_stream : UniqueFd
open_stream = record { fd = pos 5 }

abbrev small_marks : Watermarks
small_marks = record { low = 2; high = 4 }

-- Two buffers, of which one byte was written.
abbrev half_written : QueuedWriter
half_written = record {
  stream = open_stream;
  marks = small_marks;
  queue = (1 ∷ 2 ∷ 3 ∷ []) ∷ (4 ∷ []) ∷ [];
  front_offset = 1;
  queued_bytes = 3;
  high_watermark_active = false;
}

half_written-IsWellFormed : IsWellFormed half_written
half_written-IsWellFormed = record {
  marked = (omega arith, omega arith);
  counted = refl;
  placed = omega arith;
  filled = (omega arith, (omega arith, tt));
  high = λ h. cc;
  normal = λ _. omega arith;
}

queued_writer-IsWellFormed_example : IsWellFormed (queued_writer open_stream small_marks)
queued_writer-IsWellFormed_example = queued_writer-IsWellFormed open_stream small_marks

enqueue_owned_lem_example :
    IsWellFormed (enqueue_owned (9 ∷ []) half_written).1
    × IsEnqueued (9 ∷ []) half_written (enqueue_owned (9 ∷ []) half_written)
enqueue_owned_lem_example = enqueue_owned_lem (9 ∷ []) half_written half_written-IsWellFormed

flush_lem_example :
    (r : Status × QueuedWriter × List ℕ) × (flush slow 4 (pos 1000) half_written (1 ∷ []) ≡ some r)
    × IsFlushed slow (λ w. w) half_written (1 ∷ []) r
flush_lem_example =
    flush_lem slow (λ w. w) slow-IsWriter 4 (pos 1000) half_written (1 ∷ [])
      half_written-IsWellFormed (omega arith)

-- All four bytes are out, and the stream is told of no error.
abbrev all_sent : Option (Status × QueuedWriter × List ℕ)
all_sent = some (
  done,
  record half_written { queue = []; front_offset = 0; queued_bytes = 0 },
  1 ∷ 2 ∷ 3 ∷ 4 ∷ [],
)

flush-half_written : flush slow 4 (pos 1000) half_written (1 ∷ []) ≡ all_sent
unfolding flush
flush-half_written = refl

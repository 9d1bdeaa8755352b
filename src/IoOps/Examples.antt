-- ===== src/IoOps/Examples.antt =====
-- The theorems on the awaited operations at a concrete program: a socket that takes two bytes of each
-- span and would block now and then, a scheduler that accepts every waiter, and a clock that ticks
-- at every reading.
use libsimplenet.Base.{
  ℕ, zero, suc, ℤ, pos, negsuc, is_negative, magnitude, ◌<◌, subst, some-injective, ◌+◌, ◌≤◌, ◌≡◌,
  ◌||◌, refl, min, true, false, length, take, none, some, List, [], ◌∷◌, ◌++◌, arith,
}
use libsimplenet.Core.{Status, done, Outcome}
use libsimplenet.Core.Errno.{eagain}
use libsimplenet.Core.UniqueFd.{UniqueFd}
use libsimplenet.Sockets.Calls.{SocketCalls}
use libsimplenet.WriteQueue.{Writer, QueuedWriter, flush}
use libsimplenet.WriteQueue.Enqueue.{IsWellFormed}
use libsimplenet.WriteQueue.Flush.{IsFlushed}
use libsimplenet.IoOps.Cancel.{null_token, stop_requested, request_stop, shares, request_stop_lem}
use libsimplenet.IoOps.Waiting.{wait_readable, Scheduler, Coroutines}
use libsimplenet.IoOps.Streams.{async_write_all}
use libsimplenet.IoOps.Timed.{Ambient}
use libsimplenet.IoOps.Sleep.{TimerCalls, get_sleep_timerfd, async_sleep}
use libsimplenet.IoOps.Loops.{Ends, IsCalm}
use libsimplenet.IoOps.Writing.{IsStream}
use libsimplenet.IoOps.Delivery.{IsDelivered, async_write_all_lem, timed_writer, socket_flush_lem}
use libsimplenet.IoOps.Lateness.{IsClock, EndsSlept, async_sleep_lem}

-- What was sent, how often the socket still would block, and the clock.
record World : Type 0 where
  sent : List ℕ
  blocks : ℕ
  clock : ℕ

abbrev answer : ℤ → World → Outcome World
answer v w = record { value = v; errno = 0; world = w }

abbrev send_two : List ℕ → ℕ → World → Outcome World
send_two buffer zero w =
    answer (pos (min 2 (length buffer)))
      (record w { sent = w.sent ++ take (min 2 (length buffer)) buffer })
send_two buffer (suc b) w = record {
  value = negsuc 0;
  errno = eagain;
  world = record w { blocks = b };
}

abbrev sockets : SocketCalls World
sockets = record {
  socket = λ _. answer (pos 3);
  close = λ _. answer (pos 0);
  connect = λ _ _. answer (pos 0);
  bind = λ _ _. answer (pos 0);
  listen = λ _ _. answer (pos 0);
  accept = λ _ _. answer (pos 4);
  set_reuse = λ _. answer (pos 0);
  set_sndbuf = λ _ _. answer (pos 0);
  get_error = λ _ w. (answer (pos 0) w, 0);
  get_name = λ _ w. (answer (pos 0) w, record { address = 0; sin_port = 0 });
  get_flags = λ _. answer (pos 0);
  set_nonblocking_flag = λ _ _. answer (pos 0);
  shutdown = λ _. answer (pos 0);
  send = λ _ buffer w. send_two buffer w.blocks w;
  recv = λ _ _ w. (answer (pos 0) w, []);
  send_to = λ _ _ _. answer (pos 0);
  recv_from = λ _ _ w. (answer (pos 0) w, [], record { address = 0; sin_port = 0 });
}

abbrev willing : Scheduler World
willing = record {
  schedule = λ _ w. w;
  on_task_completed = λ w. w;
  wait_for_readable = λ _ _ _ _ w. (done, w);
  wait_for_writable = λ _ _ _ _ w. (done, w);
  consume_wait_result = λ _ w. (done, w);
}

abbrev coroutines : Coroutines World
coroutines = record { scheduler = some willing; frame = λ w. (7, w); others = λ _ w. w }

abbrev ticking : Ambient World
ticking = record { now = λ w. (w.clock, record w { clock = w.clock + 1_000_000 }); flags = λ _. [] }

send_accepted :
    (b : ℕ) (buffer : List ℕ) (w : World)
    → w.blocks ≡ b
    → is_negative (send_two buffer b w).value ≡ false
    → (magnitude (send_two buffer b w).value ≤ length buffer)
      × ((send_two buffer b w).world.sent
          ≡ w.sent ++ take (magnitude (send_two buffer b w).value) buffer)
      × ((send_two buffer b w).world.blocks ≤ w.blocks)
send_accepted zero buffer w e good = (omega arith, refl, omega arith)
send_accepted (suc b) buffer w e good = cc

send_refused :
    (b : ℕ) (buffer : List ℕ) (w : World)
    → w.blocks ≡ b
    → is_negative (send_two buffer b w).value ≡ true
    → ((send_two buffer b w).world.sent ≡ w.sent) × ((send_two buffer b w).world.blocks < w.blocks)
send_refused zero buffer w e bad = cc
send_refused (suc b) buffer w e bad = (refl, omega arith)

of_scheduler :
    (s : Scheduler World) (P : Scheduler World → Type 0) → some willing ≡ some s → P willing → P s
of_scheduler s P e h = subst P (some-injective _ _ e) h

still :
    (x : List ℕ) (step : World → World)
    → ((w : World) → step w ≡ w)
    → IsCalm (λ w. w.sent ≡ x) (λ w. w.blocks) step
still x step same w i = rw (same w) (i, omega arith)

stream_laws : IsStream sockets coroutines ticking (λ w. w.sent) (λ w. w.blocks)
stream_laws = record {
  accepted = λ fd buffer w. send_accepted w.blocks buffer w refl;
  refused = λ fd buffer w bad.
      let r = send_refused w.blocks buffer w refl bad in (r.0, omega (arith, r.1));
  blocked = λ fd buffer w bad e. (send_refused w.blocks buffer w refl bad).1;
  now = λ x w i. (i, omega arith);
  frame = λ x. still x _ λ w. refl;
  others = λ x handle. still x _ λ w. refl;
  armed = λ x s fd handle t e q.
      of_scheduler s
        (λ y.
          IsCalm (λ w. w.sent ≡ x) (λ w. w.blocks) (λ w. (y.wait_for_writable fd handle t e w).1))
        q (still x _ λ w. refl);
  consumed = λ x s handle q.
      of_scheduler s
        (λ y. IsCalm (λ w. w.sent ≡ x) (λ w. w.blocks) (λ w. (y.consume_wait_result handle w).1)) q
        (still x _ λ w. refl);
}

-- Five bytes, three calls of `send` that take some and two that would block.
abbrev start : World
start = record { sent = 9 ∷ []; blocks = 2; clock = 0 }

abbrev stream : UniqueFd
stream = record { fd = pos 3 }

abbrev five : List ℕ
five = 1 ∷ 2 ∷ 3 ∷ 4 ∷ 5 ∷ []

async_write_all_lem_example :
    Ends
      (IsDelivered sockets coroutines ticking
        (λ w. w.sent)
        (λ w. w.blocks)
        stream_laws
        (9 ∷ [])
        five)
      (async_write_all sockets coroutines 6 3 stream five start)
async_write_all_lem_example =
    async_write_all_lem sockets coroutines ticking (λ w. w.sent) (λ w. w.blocks) stream_laws 6 3
      stream five start (omega arith) (omega arith)

abbrev queue : QueuedWriter
queue = record {
  stream = stream;
  marks = record { low = 2; high = 8 };
  queue = five ∷ [];
  front_offset = 1;
  queued_bytes = 4;
  high_watermark_active = false;
}

queue-IsWellFormed : IsWellFormed queue
queue-IsWellFormed = record {
  marked = (omega arith, omega arith);
  counted = refl;
  placed = omega arith;
  filled = (omega arith, tt);
  high = λ h. cc;
  normal = λ _. omega arith;
}

abbrev writer : Writer World
writer =
    timed_writer sockets coroutines ticking (λ w. w.sent) (λ w. w.blocks) stream_laws null_token

socket_flush_lem_example :
    (r : Status × QueuedWriter × World) × (flush writer 5 (pos 1000) queue start ≡ some r)
    × IsFlushed writer (λ w. w.sent) queue start r
socket_flush_lem_example =
    socket_flush_lem sockets coroutines ticking (λ w. w.sent) (λ w. w.blocks) stream_laws null_token
      5 (pos 1000) queue start queue-IsWellFormed (omega arith)

-- A timer that is there from the first call on.
abbrev timers : TimerCalls World
timers = record {
  timerfd_create = answer (pos 5);
  settime = λ _ _ _. answer (pos 0);
  read_timer = λ _. answer (pos 8);
  state = λ _. none;
  set_state = λ _ w. w;
  errno = λ _. 0;
}

ticking-IsClock : IsClock ticking timers coroutines
unfolding wait_readable
ticking-IsClock = record {
  steady = λ w. omega arith;
  moves = λ fd seconds nanoseconds w. omega arith;
}

-- Three milliseconds.
async_sleep_lem_example :
    EndsSlept ticking timers coroutines null_token 3_000_000
      (async_sleep ticking timers coroutines null_token 3_000_001 (pos 3) start)
unfolding get_sleep_timerfd
async_sleep_lem_example =
    async_sleep_lem ticking timers coroutines null_token ticking-IsClock 3_000_001 (pos 3) start
      refl (omega arith) (omega arith)

-- Two sources; the second is asked to stop.
request_stop_lem_example :
    stop_requested
      (record { state = some 1 })
      (request_stop (record { state = 1 }) (false ∷ false ∷ []))
    ≡ (shares (record { state = some 1 }) (record { state = 1 })
        || stop_requested (record { state = some 1 }) (false ∷ false ∷ []))
request_stop_lem_example =
    request_stop_lem (record { state = some 1 }) (record { state = 1 }) (false ∷ false ∷ [])
      (omega arith)

-- ===== src/Sockets/LoopExamples.antt =====
-- The theorems on `write_all` and `read_exact` at a kernel that transfers at most two bytes a call.
use libsimplenet.Base.{
  ℕ, pos, ◌≡◌, refl, ap, min, some, List, [], ◌∷◌, ◌++◌, take, drop, length, length-take,
  take-append-drop, arith,
}
use libsimplenet.Core.{Status, Outcome}
use libsimplenet.Core.UniqueFd.{UniqueFd}
use libsimplenet.Sockets.Calls.{SocketCalls}
use libsimplenet.Sockets.Blocking.{write_all, read_exact}
use libsimplenet.Sockets.Blocking.Loops.{IsSender, IsSent, write_all_lem}
use libsimplenet.Sockets.Blocking.Reading.{IsReceiver, IsReceived, read_exact_lem}

-- The world is what went out, or what is to come in.
abbrev after : ℕ → List ℕ → Outcome (List ℕ)
after n w = record { value = pos n; errno = 0; world = w }

abbrev stream : SocketCalls (List ℕ)
stream = record {
  socket = λ _. after 3;
  close = λ _. after 0;
  connect = λ _ _. after 0;
  bind = λ _ _. after 0;
  listen = λ _ _. after 0;
  accept = λ _ _. after 4;
  set_reuse = λ _. after 0;
  set_sndbuf = λ _ _. after 0;
  get_error = λ _ w. (after 0 w, 0);
  get_name = λ _ w. (after 0 w, record { address = 0; sin_port = 0 });
  get_flags = λ _. after 0;
  set_nonblocking_flag = λ _ _. after 0;
  shutdown = λ _. after 0;
  send = λ _ buffer w. after (min 2 (length buffer)) (w ++ take (min 2 (length buffer)) buffer);
  recv =
      λ _ size w. (after (length (take (min 2 size) w)) (drop (min 2 size) w), take (min 2 size) w);
  send_to = λ _ _ _. after 0;
  recv_from = λ _ _ w. (after 0 w, [], record { address = 0; sin_port = 0 });
}

take_whole : (xs : List ℕ) → take (length xs) xs ≡ xs
take_whole [] = refl
take_whole (x ∷ xs) = rw (take_whole xs) refl

stream-IsSender : IsSender stream (λ w. w) (λ _. 0)
stream-IsSender = record {
  accepted = λ fd buffer w good. (omega arith, refl, omega arith);
  failed = λ _ _ _ h. cc;
  interrupted = λ _ _ _ h. cc;
}

stream-IsReceiver : IsReceiver stream (λ w. w) (λ _. 0)
stream-IsReceiver = record {
  accepted = λ fd size w good. (
    omega (arith, length-take (min 2 size) w),
    ap length (take_whole (take (min 2 size) w)),
    rw (take_whole (take (min 2 size) w)) (take-append-drop (min 2 size) w),
    omega arith,
  );
  failed = λ _ _ _ h. cc;
  interrupted = λ _ _ _ h. cc;
}

abbrev socket : UniqueFd
socket = record { fd = pos 3 }

abbrev message : List ℕ
message = 1 ∷ 2 ∷ 3 ∷ 4 ∷ 5 ∷ []

write_all_lem_example :
    (r : Status × List ℕ) × (write_all stream 6 socket message [] ≡ some r)
    × IsSent stream (λ w. w) (λ _. 0) stream-IsSender message [] r
write_all_lem_example =
    write_all_lem stream (λ w. w) (λ _. 0) stream-IsSender 6 socket message [] (omega arith)

read_exact_lem_example :
    (r : Status × List ℕ × List ℕ) × (read_exact stream 4 socket 3 message ≡ some r)
    × IsReceived stream (λ w. w) (λ _. 0) stream-IsReceiver 3 message r
read_exact_lem_example =
    read_exact_lem stream (λ w. w) (λ _. 0) stream-IsReceiver 4 socket 3 message (omega arith)

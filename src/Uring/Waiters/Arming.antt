-- ===== src/Uring/Waiters/Arming.antt =====
-- `arm_waiter`: the waiter is installed with its poll request, or nothing has changed.
use libsimplenet.Base.{
  ℕ, ℤ, ℤ_discrete, ℕ_discrete, ◌+◌, ◌<◌, ◌^◌, ◌≡◌, refl, sym, not, Bool, true, false, length,
  if_pos, if◌then◌else◌, Option, none, some, Option-cases, inl, inr, arith,
}
use libsimplenet.Base.Table.{
  find, assign, try_emplace, find-assign, assign-try_emplace, erase-assign,
}
use libsimplenet.Base.Keys.{erase-missing}
use libsimplenet.Base.Weights.{sum_values, weight, sum_values-assign, AllEntries-assign}
use libsimplenet.Core.{Error, ok, err, Status, done}
use libsimplenet.System.{RingSystem}
use libsimplenet.EventLoop.State.{is_none}
use libsimplenet.EventLoop.Invariant.{bit}
use libsimplenet.Uring.State.{Registration, WaiterSlot, empty_slot, UringEventLoop}
use libsimplenet.Uring.Invariant.{pending_of, timed_of, IsClean, IsSettled, IsWellFormed}
use libsimplenet.Uring.Polls.{allocate_token, read_poll_mask, write_poll_mask}
use libsimplenet.Uring.Polls.Tokens.{allocate_token_lem}
use libsimplenet.Uring.Polls.Frame.{touched, asked, queue_poll_add_cases}
use libsimplenet.Uring.Waiters.{side, with_side, start_timer, finish_arming, install}
use libsimplenet.Uring.Waiters.Target.{slot_at, IsArmable, restored}

module _ {W : Type 0} where
  -- Nothing that a caller can observe of the waiters and their requests has changed.
  abbrev pub IsUnchanged : UringEventLoop W → UringEventLoop W → Type 0
  IsUnchanged l l' =
      (l'.waiters ≡ l.waiters)
      × (l'.inflight_polls ≡ l.inflight_polls)
      × (l'.pending_waiter_count ≡ l.pending_waiter_count)
      × (l'.timed_waiter_count ≡ l.timed_waiter_count)
      × (l'.ready_queue ≡ l.ready_queue)
      × (l'.wait_results ≡ l.wait_results)
      × (l'.loop_error ≡ l.loop_error)

-- The events that a waiter of either side asks for.
abbrev pub poll_mask : Bool → ℕ
poll_mask readable = if readable then read_poll_mask else write_poll_mask

-- The handle waits on its side of the slot, under a token whose request is in flight: the last that
-- was done to the world is that the ring, in `entry`, took a free entry and prepared the request in
-- it, and the entry waits to be submitted.
pub record IsWaiting {W : Type 0} (os : RingSystem W) (fd : ℤ) (handle : ℕ) (readable : Bool)
    (l l' : UringEventLoop W) : Type 0 where
  pub slot : WaiterSlot
  pub stored : find ℤ_discrete fd l'.waiters ≡ some slot
  pub waiter : (side readable slot).handle ≡ handle
  pub polled :
      find ℕ_discrete (side readable slot).token l'.inflight_polls
      ≡ some (record { fd = fd; readable = readable })
  pub entry : W
  pub free : (os.ring.get_sqe l.reactor.ring entry).0 ≡ true
  pub requested :
      l'.world
      ≡ os.ring.prep_poll_add l.reactor.ring fd
          (poll_mask readable)
          (side readable slot).token
          (os.ring.get_sqe l.reactor.ring entry).1
  pub unsubmitted : l'.submission_pending ≡ true
  pub ready : l'.ready_queue ≡ l.ready_queue
  pub results : l'.wait_results ≡ l.wait_results
  pub error : l'.loop_error ≡ l.loop_error

module _ {W : Type 0} (os : RingSystem W) (fd : ℤ) (handle : ℕ) (readable : Bool)
    (timeout : Option ℤ) (timeout_error : Error) (l : UringEventLoop W) where
  abbrev pub slot : WaiterSlot
  slot = slot_at fd l.waiters

  abbrev pub emplaced : UringEventLoop W
  emplaced = record l { waiters = try_emplace ℤ_discrete fd empty_slot l.waiters }

  -- The token that the call allocates, and what the timer leaves.
  abbrev token : ℕ
  token = (allocate_token emplaced).0

  abbrev pub timer : Option ℕ × UringEventLoop W
  timer = start_timer os timeout (allocate_token emplaced).1

  abbrev wanted : Registration
  wanted = record {
    handle = handle;
    deadline = timer.0;
    timeout_error = timeout_error;
    token = token;
  }

  abbrev armed : WaiterSlot
  armed = with_side readable wanted slot

  -- The loop when the poll request is about to be queued.
  abbrev begun : UringEventLoop W
  begun = record timer.1 {
    waiters = assign ℤ_discrete fd armed timer.1.waiters;
    deadline_index_dirty = true;
    pending_waiter_count = timer.1.pending_waiter_count + 1;
    inflight_polls =
        assign ℕ_discrete token (record { fd = fd; readable = readable }) timer.1.inflight_polls;
  }

  pub timer_fields :
      (timer.1.timed_waiter_count ≡ l.timed_waiter_count + bit (not (is_none timer.0)))
      × (timer.1.pending_waiter_count ≡ l.pending_waiter_count)
      × (timer.1.waiters ≡ try_emplace ℤ_discrete fd empty_slot l.waiters)
      × (timer.1.inflight_polls ≡ l.inflight_polls)
      × (timer.1.ready_queue ≡ l.ready_queue)
      × (timer.1.wait_results ≡ l.wait_results)
      × (timer.1.loop_error ≡ l.loop_error)
      × (timer.1.stop_requested ≡ l.stop_requested)
      × (timer.1.reactor ≡ l.reactor)
  unfolding start_timer allocate_token
  timer_fields = by_timeout timeout
    where
      by_timeout :
          (t : Option ℤ)
          → (let r = start_timer os t (allocate_token emplaced).1 in
              (r.1.timed_waiter_count ≡ l.timed_waiter_count + bit (not (is_none r.0)))
              × (r.1.pending_waiter_count ≡ l.pending_waiter_count)
              × (r.1.waiters ≡ try_emplace ℤ_discrete fd empty_slot l.waiters)
              × (r.1.inflight_polls ≡ l.inflight_polls)
              × (r.1.ready_queue ≡ l.ready_queue)
              × (r.1.wait_results ≡ l.wait_results)
              × (r.1.loop_error ≡ l.loop_error)
              × (r.1.stop_requested ≡ l.stop_requested)
              × (r.1.reactor ≡ l.reactor))
      by_timeout none = ground arith
      by_timeout (some t) = ground arith

  pub install_cases :
      (P : Status × UringEventLoop W → Type 0)
      → ((v : W)
          → (os.ring.get_sqe l.reactor.ring v).0 ≡ true
          → P (done, asked os token fd (poll_mask readable) begun v))
      → ((e : Error) (w : W) (b : Bool)
          → P (finish_arming os fd readable token armed (err e, touched w b begun)))
      → P (install os fd handle readable timeout timeout_error slot emplaced)
  unfolding install finish_arming
  install_cases P went_on failed =
      queue_poll_add_cases os token fd (poll_mask readable) begun
        (λ r. P (finish_arming os fd readable token armed r))
        (λ v free. went_on v (rw (sym (timer_fields.8)) free)) failed

  stored_table : assign ℤ_discrete fd armed timer.1.waiters ≡ assign ℤ_discrete fd armed l.waiters
  stored_table = rw (timer_fields.2) (assign-try_emplace ℤ_discrete fd armed empty_slot l.waiters)

  -- What a call behind the guards comes to.
  abbrev pub Outcome : Status × UringEventLoop W → Type 0
  Outcome (ok _, l') = IsWaiting os fd handle readable l l' × (IsWellFormed l → IsWellFormed l')
  Outcome (err e, l') = IsUnchanged l l' × (l'.deadline_index_dirty ≡ true)

  module _ (a : IsArmable fd readable l.waiters) (live : 0 < handle)
      (room : l.next_token + length l.inflight_polls + 2 < 2 ^ 64) where
    armed_counts :
        (pending_of armed ≡ pending_of slot + 1)
        × (timed_of armed ≡ timed_of slot + bit (not (is_none timer.0)))
    armed_counts = ground (arith, a.free)

    armed-IsClean : IsClean armed.readable × IsClean armed.writable
    armed-IsClean = ground (arith, a.clean_readable, a.clean_writable)

    armed-IsSettled : IsSettled fd armed
    armed-IsSettled = record {
      key = a.key;
      occupied = ground (arith, live);
      clean_readable = armed-IsClean.0;
      clean_writable = armed-IsClean.1;
    }

    weight_at :
        (w : WaiterSlot → ℕ) → w empty_slot ≡ 0 → weight w (find ℤ_discrete fd l.waiters) ≡ w slot
    weight_at w h = elim (Option-cases (find ℤ_discrete fd l.waiters)) [
      | inl e ↦ rw e (sym h)
      | inr (s, e) ↦ rw e refl
    ]

    counts_of :
        (w : WaiterSlot → ℕ)
        → w empty_slot ≡ 0
        → sum_values w (assign ℤ_discrete fd armed l.waiters) + w slot
          ≡ w armed + sum_values w l.waiters
    counts_of w h = rw (weight_at w h) at (sum_values-assign ℤ_discrete w fd armed l.waiters)

    begun-IsWellFormed : (w : W) (b : Bool) → IsWellFormed l → IsWellFormed (touched w b begun)
    begun-IsWellFormed w b v = record {
      counted = record {
        pending = rw stored_table (
            omega
              (arith, timer_fields, armed_counts, counts_of pending_of refl, v.counted.pending));
        timed =
            rw stored_table
              (omega (arith, timer_fields, armed_counts, counts_of timed_of refl, v.counted.timed));
      };
      settled =
          rw stored_table
            (AllEntries-assign ℤ_discrete IsSettled fd armed l.waiters armed-IsSettled v.settled);
      index = λ h. cc;
    }

    fresh : find ℕ_discrete token l.inflight_polls ≡ none
    fresh = (allocate_token_lem emplaced room).2

    armed_side :
        (b : Bool)
        → ((side b (with_side b wanted slot)).handle ≡ handle)
          × ((side b (with_side b wanted slot)).token ≡ token)
    armed_side true = (refl, refl)
    armed_side false = (refl, refl)

    asked-IsWaiting :
        (v : W)
        → (os.ring.get_sqe l.reactor.ring v).0 ≡ true
        → IsWaiting os fd handle readable l (asked os token fd (poll_mask readable) begun v)
    asked-IsWaiting v free = record {
      slot = armed;
      stored =
          rw (find-assign ℤ_discrete fd fd armed timer.1.waiters)
            (if_pos (ℤ_discrete fd fd) refl _ _);
      waiter = (armed_side readable).0;
      polled = rw ((armed_side readable).1, find-assign) (if_pos (ℕ_discrete token token) refl _ _);
      entry = v;
      free = free;
      requested = rw (timer_fields.8, (armed_side readable).1) refl;
      unsubmitted = refl;
      ready = timer_fields.4;
      results = timer_fields.5;
      error = timer_fields.6;
    }

    failed-IsUnchanged :
        (e : Error) (w : W) (b : Bool)
        → IsUnchanged l (finish_arming os fd readable token armed (err e, touched w b begun)).1
    unfolding finish_arming
    failed-IsUnchanged e w b = (
      rw (timer_fields.2) (restored fd readable l.waiters wanted a),
      rw (erase-assign, timer_fields.3) (erase-missing ℕ_discrete token l.inflight_polls fresh),
      ground (arith, timer_fields),
      ground (arith, timer_fields, a.free),
      timer_fields.4,
      timer_fields.5,
      timer_fields.6,
    )

    pub install_outcome :
        Outcome (install os fd handle readable timeout timeout_error slot emplaced)
    unfolding finish_arming
    install_outcome =
        install_cases Outcome (λ v free. (asked-IsWaiting v free, begun-IsWellFormed _ true))
          λ e w b. (failed-IsUnchanged e w b, refl)

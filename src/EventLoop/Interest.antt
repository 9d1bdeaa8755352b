-- ===== src/EventLoop/Interest.antt =====
-- `refresh_interest`: the epoll registration of one slot follows its waiters.
pub mod Outcome
use libsimplenet.Base.{ℕ, ℤ, ◌^◌, bit_or, ◌==◌, not, ◌&&◌, ◌||◌, if◌then◌else◌}
use libsimplenet.Core.{ok, err, Status, done}
use libsimplenet.System.{EpollCalls}
use libsimplenet.Reactor
use libsimplenet.Reactor.{Reactor}
use libsimplenet.EventLoop.State.{WaiterSlot, is_armed}

-- The event bits of <sys/epoll.h>.
abbrev pub epollin : ℕ
epollin = 0x1

abbrev pub epollout : ℕ
epollout = 0x4

abbrev pub epollerr : ℕ
epollerr = 0x8

abbrev pub epollhup : ℕ
epollhup = 0x10

abbrev pub epollrdhup : ℕ
epollrdhup = 0x2000

abbrev pub epollet : ℕ
epollet = 2 ^ 31

abbrev pub read_ready_mask : ℕ
read_ready_mask = bit_or (bit_or (bit_or epollin epollerr) epollhup) epollrdhup

abbrev pub write_ready_mask : ℕ
write_ready_mask = bit_or (bit_or epollout epollerr) epollhup

abbrev pub common_flags : ℕ
common_flags = bit_or (bit_or (bit_or epollet epollerr) epollhup) epollrdhup

-- `desired_mask`
unfoldable pub desired_mask : WaiterSlot → ℕ
desired_mask slot =
    let has_read_waiter = is_armed slot.readable in
    let has_write_waiter = is_armed slot.writable in
    if has_read_waiter || has_write_waiter
    then (let read_mask = if has_read_waiter then bit_or common_flags epollin else common_flags in
        if has_write_waiter then bit_or read_mask epollout else read_mask)
    else 0

-- The status of a refresh, the slot after it and the world after it.
pub record Refreshed (W : Type 0) : Type 0 where
  pub status : Status
  pub slot : WaiterSlot
  pub world : W

module _ {W : Type 0} where
  -- A successful control call is recorded in `registered_mask`.
  abbrev pub settle : WaiterSlot → ℕ → Status × W → Refreshed W
  settle slot mask (ok _, w) = record {
    status = done;
    slot = record slot { registered_mask = mask };
    world = w;
  }
  settle slot mask (err e, w) = record { status = err e; slot = slot; world = w }

module _ {W : Type 0} (os : EpollCalls W) where
  unfoldable pub refresh_interest : Reactor → ℤ → WaiterSlot → W → Refreshed W
  unfolding desired_mask
  refresh_interest reactor fd slot w =
      let desired = desired_mask slot in
      if slot.registered_mask == desired
      then record { status = done; slot = slot; world = w }
      else if slot.registered_mask == 0 && not (desired == 0)
      then settle slot desired (Reactor.add os reactor fd desired w)
      else if not (slot.registered_mask == 0) && desired == 0
      then settle slot 0 (Reactor.remove os reactor fd w)
      else settle slot desired (Reactor.modify os reactor fd desired w)

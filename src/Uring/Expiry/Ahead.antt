-- ===== src/Uring/Expiry/Ahead.antt =====
-- A finished sweep leaves no waiter whose deadline has come, and a next deadline that covers all.
use libsimplenet.Base.{ℕ, ℤ, ◌≡◌, if_elim, true, false, Option, List, [], ◌∷◌, arith}
use libsimplenet.Base.Weights.{AllEntries}
use libsimplenet.System.{RingSystem}
use libsimplenet.Uring.State.{Registration, WaiterSlot, UringEventLoop, is_vacant}
use libsimplenet.Uring.Invariant.{is_covered, IsCovered, IsSettled, IsClean}
use libsimplenet.Uring.Expiry.{is_expired, note_deadline, after_expiry, sweep}
use libsimplenet.Uring.Expiry.Rounds.{both_expired, slot_after, next_after, sweep_round}

-- No waiter of the slot is due.
abbrev pub IsAhead : ℕ → WaiterSlot → Type 0
IsAhead now s = (is_expired now s.readable ≡ false) × (is_expired now s.writable ≡ false)

note_deadline_covers :
    (r : Registration) (next : Option ℕ) → is_covered (note_deadline r next) r ≡ true
note_deadline_covers r next = ground arith

note_deadline_keeps :
    (r q : Registration) (next : Option ℕ)
    → is_covered next q ≡ true
    → is_covered (note_deadline r next) q ≡ true
note_deadline_keeps r q next h = ground arith

after_expiry-IsClean : (now : ℕ) (r : Registration) → IsClean r → IsClean (after_expiry now r)
after_expiry-IsClean now r h = ground (arith, h)

module _ {W : Type 0} (os : RingSystem W) where
  pub sweep-IsAhead :
      (now : ℕ) (m : List (ℤ × WaiterSlot)) (l : UringEventLoop W) (next : Option ℕ)
      → (sweep os now m l next).finished ≡ true
      → AllEntries (λ _ s. IsAhead now s) (sweep os now m l next).kept
  sweep-IsAhead now [] l next = unfold sweep in λ _. tt
  sweep-IsAhead now ((fd, s) ∷ rest) l next =
      let tail = sweep-IsAhead now rest (both_expired os now s l) (next_after os now s next) in
      sweep_round os (λ x. x.finished ≡ true → AllEntries (λ _ s. IsAhead now s) x.kept) now fd s
        rest l next (λ _ h. cc) (λ _ h. cc) λ h. ground (arith, tail h)

  next_after_covers :
      (now : ℕ) (s : WaiterSlot) (next : Option ℕ)
      → IsCovered (next_after os now s next) (slot_after os now s)
  next_after_covers now s next =
      let s' = slot_after os now s in
      (
        note_deadline_keeps s'.writable s'.readable (note_deadline s'.readable next)
            (note_deadline_covers s'.readable next),
        note_deadline_covers s'.writable (note_deadline s'.readable next),
      )

  -- What `next` covers stays covered, whatever the sweep finds.
  sweep_keeps_covered :
      (q : Registration) (now : ℕ) (m : List (ℤ × WaiterSlot)) (l : UringEventLoop W)
      (next : Option ℕ)
      → is_covered next q ≡ true
      → is_covered (sweep os now m l next).next q ≡ true
  sweep_keeps_covered q now [] l next h = unfold sweep in h
  sweep_keeps_covered q now ((fd, s) ∷ rest) l next h =
      let s' = slot_after os now s in
      let half = note_deadline_keeps s'.readable q next h in
      let covered = note_deadline_keeps s'.writable q (note_deadline s'.readable next) half in
      sweep_round os (λ x. is_covered x.next q ≡ true) now fd s rest l next (λ _. half)
        (λ _. covered)
        (sweep_keeps_covered q now rest (both_expired os now s l) (next_after os now s next)
          covered)

  pub sweep-IsCovered :
      (now : ℕ) (m : List (ℤ × WaiterSlot)) (l : UringEventLoop W) (next : Option ℕ)
      → (sweep os now m l next).finished ≡ true
      → AllEntries (λ _ s. IsCovered (sweep os now m l next).next s) (sweep os now m l next).kept
  sweep-IsCovered now [] l next = unfold sweep in λ _. tt
  sweep-IsCovered now ((fd, s) ∷ rest) l next =
      let s' = slot_after os now s in
      let l' = both_expired os now s l in
      let next' = next_after os now s next in
      let swept = sweep os now rest l' next' in
      let covers = next_after_covers now s next in
      let keeps = λ (q : Registration). sweep_keeps_covered q now rest l' next' in
      sweep_round os (λ x. x.finished ≡ true → AllEntries (λ _ s. IsCovered x.next s) x.kept) now fd
        s rest l next (λ _ h. cc) (λ _ h. cc)
        λ h.
          let tail = sweep-IsCovered now rest l' next' h in
          if_elim (AllEntries (λ _ x. IsCovered swept.next x)) (is_vacant s') (λ _. tail)
            λ _. ((keeps s'.readable covers.0, keeps s'.writable covers.1), tail)

  -- The slots that a finished sweep keeps are settled.
  pub sweep-IsSettled :
      (now : ℕ) (m : List (ℤ × WaiterSlot)) (l : UringEventLoop W) (next : Option ℕ)
      → AllEntries IsSettled m
      → (sweep os now m l next).finished ≡ true
      → AllEntries IsSettled (sweep os now m l next).kept
  sweep-IsSettled now [] l next h = unfold sweep in λ _. tt
  sweep-IsSettled now ((fd, s) ∷ rest) l next (hs, hm) =
      let tail = sweep-IsSettled now rest (both_expired os now s l) (next_after os now s next) hm in
      sweep_round os (λ x. x.finished ≡ true → AllEntries IsSettled x.kept) now fd s rest l next
        (λ _ h. cc) (λ _ h. cc)
        λ h.
          if_elim (AllEntries IsSettled) (is_vacant (slot_after os now s)) (λ _. tail h)
            λ v. (
              record {
                key = hs.key;
                occupied = v;
                clean_readable = after_expiry-IsClean now s.readable hs.clean_readable;
                clean_writable = after_expiry-IsClean now s.writable hs.clean_writable;
              },
              tail h,
            )

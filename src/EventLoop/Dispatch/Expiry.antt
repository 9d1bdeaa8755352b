-- ===== src/EventLoop/Dispatch/Expiry.antt =====
-- A finished sweep leaves no waiter whose deadline has come, and a next deadline that covers all.
use libsimplenet.Base.{ℕ, ℤ, ◌≡◌, inl, inr, if_elim, true, false, Option, List, [], ◌∷◌, arith}
use libsimplenet.Base.Weights.{AllEntries}
use libsimplenet.System.{LoopSystem}
use libsimplenet.EventLoop.State.{Registration, WaiterSlot, EventLoop, is_vacant}
use libsimplenet.EventLoop.Invariant.{
  is_covered, IsCovered, IsSettled, IsClean, refreshed-IsSettled,
}
use libsimplenet.EventLoop.Dispatch.{is_expired, note_deadline, after_expiry, sweep}
use libsimplenet.EventLoop.Dispatch.Steps.{
  expire_both, settle_slot_sides, settle_slot_cases, slot_after_expiry, after_round, slot_after,
  next_after, sweep_round,
}

-- No waiter of the slot is due.
abbrev pub IsAhead : ℕ → WaiterSlot → Type 0
IsAhead now s = (is_expired now s.readable ≡ false) × (is_expired now s.writable ≡ false)

note_deadline_covers :
    (r : Registration) (next : Option ℕ) → is_covered (note_deadline r next) r ≡ true
note_deadline_covers r next = ground arith

note_deadline_keeps :
    (r q : Registration) (next : Option ℕ)
    → is_covered next q ≡ true
    → is_covered (note_deadline r next) q ≡ true
note_deadline_keeps r q next h = ground arith

after_expiry-IsClean : (now : ℕ) (r : Registration) → IsClean r → IsClean (after_expiry now r)
after_expiry-IsClean now r h = ground (arith, h)

module _ {W : Type 0} (os : LoopSystem W) where
  pub sweep-IsAhead :
      (now : ℕ) (m : List (ℤ × WaiterSlot)) (l : EventLoop W) (next : Option ℕ)
      → (sweep os now m l next).finished ≡ true
      → AllEntries (λ _ s. IsAhead now s) (sweep os now m l next).kept
  sweep-IsAhead now [] l next = unfold sweep in λ _. tt
  sweep-IsAhead now ((fd, s) ∷ rest) l next =
      let tail =
        sweep-IsAhead now rest (after_round os now fd s l)
          (next_after os (slot_after os now fd s l) next) in
      sweep_round os (λ x. x.finished ≡ true → AllEntries (λ _ s. IsAhead now s) x.kept) now fd s
        rest l next (λ e h. cc)
        λ _ h. ground (arith, tail h, settle_slot_sides os now fd s (expire_both now s l))

  next_after_covers :
      (s : WaiterSlot) (next : Option ℕ) → is_vacant s ≡ false → IsCovered (next_after os s next) s
  next_after_covers s next v = ground (
    arith,
    note_deadline_covers s.readable next,
    note_deadline_keeps s.writable s.readable (note_deadline s.readable next),
    note_deadline_covers s.writable (note_deadline s.readable next),
  )

  -- What `next` covers stays covered, whatever the sweep finds.
  sweep_keeps_covered :
      (q : Registration) (now : ℕ) (m : List (ℤ × WaiterSlot)) (l : EventLoop W) (next : Option ℕ)
      → is_covered next q ≡ true
      → is_covered (sweep os now m l next).next q ≡ true
  sweep_keeps_covered q now [] l next h = unfold sweep in h
  sweep_keeps_covered q now ((fd, s) ∷ rest) l next h =
      let s' = slot_after os now fd s l in
      let covered : is_covered (next_after os s' next) q ≡ true = ground (
        arith,
        note_deadline_keeps s'.readable q next h,
        note_deadline_keeps s'.writable q (note_deadline s'.readable next),
      ) in
      let tail =
        sweep_keeps_covered q now rest (after_round os now fd s l) (next_after os s' next)
          covered in
      sweep_round os (λ x. is_covered x.next q ≡ true) now fd s rest l next (λ e. h) λ _. tail

  pub sweep-IsCovered :
      (now : ℕ) (m : List (ℤ × WaiterSlot)) (l : EventLoop W) (next : Option ℕ)
      → (sweep os now m l next).finished ≡ true
      → AllEntries (λ _ s. IsCovered (sweep os now m l next).next s) (sweep os now m l next).kept
  sweep-IsCovered now [] l next = unfold sweep in λ _. tt
  sweep-IsCovered now ((fd, s) ∷ rest) l next =
      let s' = slot_after os now fd s l in
      let l' = after_round os now fd s l in
      let tail = sweep-IsCovered now rest l' (next_after os s' next) in
      let keeps = λ (q : Registration). sweep_keeps_covered q now rest l' (next_after os s' next) in
      sweep_round os (λ x. x.finished ≡ true → AllEntries (λ _ s. IsCovered x.next s) x.kept) now fd
        s rest l next (λ e h. cc)
        λ _ h.
          if_elim
            (AllEntries (λ _ x. IsCovered (sweep os now rest l' (next_after os s' next)).next x))
            (is_vacant s') (λ _. tail h)
            λ v. (
              (
                keeps s'.readable (next_after_covers s' next v).0,
                keeps s'.writable (next_after_covers s' next v).1,
              ),
              tail h,
            )

  -- The slots that a finished sweep keeps are settled.
  pub sweep-IsSettled :
      (now : ℕ) (m : List (ℤ × WaiterSlot)) (l : EventLoop W) (next : Option ℕ)
      → AllEntries IsSettled m
      → (sweep os now m l next).finished ≡ true
      → AllEntries IsSettled (sweep os now m l next).kept
  sweep-IsSettled now [] l next h = unfold sweep in λ _. tt
  sweep-IsSettled now ((fd, s) ∷ rest) l next (hs, hm) =
      let tail =
        sweep-IsSettled now rest (after_round os now fd s l)
          (next_after os (slot_after os now fd s l) next) hm in
      sweep_round os (λ x. x.finished ≡ true → AllEntries IsSettled x.kept) now fd s rest l next
        (λ e h. cc)
        λ q h. elim (settle_slot_cases os now fd s (expire_both now s l) hs.mask) [
          | inl (_, e) ↦
              if_elim (AllEntries IsSettled) (is_vacant (slot_after os now fd s l)) (λ _. tail h)
                λ v. (
                  refreshed-IsSettled fd (slot_after_expiry now s) _ hs.key
                      (after_expiry-IsClean now s.readable hs.clean_readable)
                      (after_expiry-IsClean now s.writable hs.clean_writable) e v,
                  tail h,
                )
          | inr (x, e, _) ↦ cc
        ]

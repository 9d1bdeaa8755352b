-- ===== src/EventLoop/Interest/Outcome.antt =====
-- What `refresh_interest` leaves: the two outcomes that its callers tell apart.
use libsimplenet.Base.{ℕ, ℤ, ◌≡◌, refl, subst, ◌⊎◌, inl, inr, true, not, ◌&&◌, ◌==◌, if_elim, arith}
use libsimplenet.Core.{Error, Status, ok, err, done}
use libsimplenet.System.{EpollCalls}
use libsimplenet.Reactor
use libsimplenet.Reactor.{Reactor}
use libsimplenet.EventLoop.State.{WaiterSlot}
use libsimplenet.EventLoop.Interest.{Refreshed, settle, refresh_interest, desired_mask}

-- Either `m` is recorded as the mask of the slot, or the slot is as it was.
abbrev pub SettlesTo : {W : Type 0} → WaiterSlot → ℕ → Refreshed W → Type 0
SettlesTo s m r =
    ((r.status ≡ done) × (r.slot ≡ record s { registered_mask = m }))
    ⊎ ((e : Error) × (r.status ≡ err e) × (r.slot ≡ s))

settle_cases : {W : Type 0} (s : WaiterSlot) (m : ℕ) (p : Status × W) → SettlesTo s m (settle s m p)
settle_cases s m (ok _, w) = inl (refl, refl)
settle_cases s m (err e, w) = inr (e, refl, refl)

module _ {W : Type 0} (os : EpollCalls W) (reactor : Reactor) (fd : ℤ) (s : WaiterSlot)
    (w : W) where
  -- `refresh_interest` either succeeds, and the mask that the slot's waiters ask for is recorded as
  -- registered, or it returns an error and the slot is as it was.
  pub refresh_cases : SettlesTo s (desired_mask s) (refresh_interest os reactor fd s w)
  unfolding refresh_interest
  refresh_cases =
      if_elim outcome (s.registered_mask == desired_mask s) (λ same. inl (refl, kept same))
        λ _.
          if_elim outcome (s.registered_mask == 0 && not (desired_mask s == 0))
            (λ _. settle_cases s _ _)
            λ _.
              if_elim outcome (not (s.registered_mask == 0) && desired_mask s == 0)
                (λ both.
                  subst (λ m. SettlesTo s m (settle s 0 (Reactor.remove os reactor fd w)))
                    (cleared both) (settle_cases s 0 _))
                λ _. settle_cases s _ _
    where
      outcome : Refreshed W → Type 0
      outcome = SettlesTo s (desired_mask s)

      kept :
          (s.registered_mask == desired_mask s) ≡ true
          → s ≡ record s { registered_mask = desired_mask s }
      kept same = ground arith

      cleared :
          (not (s.registered_mask == 0) && desired_mask s == 0) ≡ true
          → ◌≡◌ {A = ℕ} 0 (desired_mask s)
      cleared both = ground arith

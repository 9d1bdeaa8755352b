-- ===== src/IoOps/Loops.antt =====
-- The retrying loops end, and a property of what they return follows from properties of a round.
use libsimplenet.Base.{
  ℕ, zero, suc, ℤ, pos, ◌≤◌, ◌<◌, ◌≡◌, refl, leb, not, Bool, true, if_elim, option_elim, Option,
  none, some, arith,
}
use libsimplenet.Core.{Error, Result, from_errno, ok, err, result_elim}
use libsimplenet.Core.Errno.{ecanceled, etimedout}
use libsimplenet.Sockets.Calls.{Step}
use libsimplenet.Sockets.Nonblocking.{is_would_block}
use libsimplenet.IoOps.Cancel.{CancelToken, stop_requested}
use libsimplenet.IoOps.Streams.{until_ready}
use libsimplenet.IoOps.Timed.{Ambient, slice, wait_failure, until_deadline}

-- The loop ended, and with a result that has the property.
abbrev pub Ends : {W A : Type 0} → (Result A × W → Type 0) → Option (Result A × W) → Type 0
Ends P none = ⊥
Ends P (some r) = P r

pub ends_lem :
    {W A : Type 0} (P : Result A × W → Type 0) (o : Option (Result A × W))
    → Ends P o
    → (r : Result A × W) × (o ≡ some r) × P r
ends_lem P none h = absurd h
ends_lem P (some r) h = (r, refl, h)

-- A step that keeps `I` and does not add to the patience that the world takes.
abbrev pub IsCalm : {W : Type 0} → (W → Type 0) → (W → ℕ) → (W → W) → Type 0
IsCalm {W} I patience step = (w : W) → I w → I (step w) × (patience (step w) ≤ patience w)

-- The rounds of a loop: between them `I` holds; what is returned has `P`; and a call that would block
-- takes some of the world's patience.
pub record IsRetried {W A : Type 0} (is_transient : Error → Bool) (attempt : Step W A)
    (I : W → Type 0) (P : Result A × W → Type 0) (patience : W → ℕ) : Type 0 where
  pub returned : (w : W) (a : A) → I w → (attempt w).0 ≡ ok a → P (ok a, (attempt w).1)
  pub refused : (w : W) (e : Error) → I w → (attempt w).0 ≡ err e → I (attempt w).1
  pub blocked :
      (w : W) (e : Error)
      → I w
      → (attempt w).0 ≡ err e
      → is_transient e ≡ true
      → patience (attempt w).1 < patience w
  pub failed : (w : W) (e : Error) → I w → P (err e, w)

module _ {W A : Type 0} (attempt : Step W A) (I : W → Type 0) (P : Result A × W → Type 0)
    (patience : W → ℕ) where
  pub until_ready-Ends :
      (is_transient : Error → Bool) (wait : Step W (Unit {0}))
      → IsRetried is_transient attempt I P patience
      → IsCalm I patience (λ w. (wait w).1)
      → (fuel : ℕ) (w : W) → I w
      → patience w < fuel
      → Ends P (until_ready fuel is_transient attempt wait w)
  unfolding until_ready
  until_ready-Ends is_transient wait laws calm zero w i enough = absurd (omega arith)
  until_ready-Ends is_transient wait laws calm (suc fuel) w i enough =
      result_elim (Ends P) (attempt w).0 (λ a q. laws.returned w a i q)
        λ e q.
          let i₁ = laws.refused w e i q in
          if_elim (Ends P) (is_transient e)
            (λ t.
              let less = laws.blocked w e i q t in
              let rest = calm (attempt w).1 i₁ in
              result_elim (Ends P) (wait (attempt w).1).0
                (λ _ _.
                  until_ready-Ends is_transient wait laws calm fuel (wait (attempt w).1).1 rest.0
                    (omega (arith, rest.1)))
                λ x _. laws.failed (wait (attempt w).1).1 x rest.0)
            λ _. laws.failed (attempt w).1 e i₁

  module _ (env : Ambient W) (token : CancelToken) (wait : ℤ → Step W (Unit {0}))
      (laws : IsRetried is_would_block attempt I P patience)
      (clock : IsCalm I patience (λ w. (env.now w).1))
      (calm : (t : ℤ) → IsCalm I patience (λ w. (wait t w).1)) where
    pub until_deadline-Ends :
        (fuel deadline : ℕ) (w : W)
        → I w
        → patience w < fuel
        → Ends P (until_deadline env token fuel deadline attempt wait w)
    unfolding until_deadline
    until_deadline-Ends zero deadline w i enough = absurd (omega arith)
    until_deadline-Ends (suc fuel) deadline w i enough =
        if_elim (Ends P) (stop_requested token (env.flags w))
          (λ _. laws.failed w (from_errno ecanceled) i)
          λ _.
            result_elim (Ends P) (attempt w).0 (λ a q. laws.returned w a i q)
              λ e q.
                let i₁ = laws.refused w e i q in
                if_elim (Ends P) (not (is_would_block e)) (λ _. laws.failed (attempt w).1 e i₁)
                  λ t.
                    let less = laws.blocked w e i q (ground arith) in
                    let w₁ = (attempt w).1 in
                    let w₂ = (env.now w₁).1 in
                    let span = pos (slice deadline (env.now w₁).0) in
                    let read = clock w₁ i₁ in
                    let rest = calm span w₂ read.0 in
                    if_elim (Ends P) (leb deadline (env.now w₁).0)
                      (λ _. laws.failed w₂ (from_errno etimedout) read.0)
                      λ _.
                        option_elim (Ends P) (wait_failure (wait span w₂).0)
                          (λ _.
                            until_deadline-Ends fuel deadline (wait span w₂).1 rest.0
                              (omega (arith, less, read.1, rest.1)))
                          λ x _. laws.failed (wait span w₂).1 x rest.0

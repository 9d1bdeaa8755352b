-- ===== src/Core/UniqueFd/Ownership.antt =====
-- A descriptor that is owned is closed once, however its owner is moved.
use libsimplenet.Base.{
  ℤ, pos, negsuc, ℤ_discrete, is_negative, ◌≡◌, ◌≢◌, refl, sym, ap, ◌∙◌, Bool, true, false, not,
  List, [], ◌∷◌, ◌++◌, if◌then◌else◌, if_pos, if_neg, arith, append-nil,
}
use libsimplenet.Core.UniqueFd.{
  UniqueFd, Closing, none_owned, valid, release, reset, destroy, move_assign,
}

-- What an object owns.
abbrev pub owned : UniqueFd → List ℤ
owned u = if not (is_negative u.fd) then u.fd ∷ [] else []

pub destroy_lem : (u : UniqueFd) → destroy u ≡ owned u
unfolding destroy reset valid ℤ_discrete
destroy_lem u = by_fd u.fd
  where
    by_fd : (fd : ℤ) → destroy (record { fd = fd }) ≡ owned (record { fd = fd })
    by_fd (pos n) = refl
    by_fd (negsuc n) = ground arith

none_owned_twice : (fd : ℤ) → is_negative fd ≡ true → owned (record { fd = fd }) ≡ []
none_owned_twice (pos n) h = cc
none_owned_twice (negsuc n) h = refl

reset_lem :
    (u : UniqueFd) (fd : ℤ)
    → (not (is_negative u.fd) ≡ true → u.fd ≢ fd)
    → (reset u fd).closed ++ owned (reset u fd).owner ≡ owned u ++ owned (record { fd = fd })
unfolding reset valid
reset_lem u fd apart = elim (ℤ_discrete u.fd fd) [
  | yes e ↦
      ap {A = Closing} (λ c. c.closed ++ owned c.owner) (if_pos (ℤ_discrete u.fd fd) e _ _)
      ∙ sym (append-nil (owned u))
      ∙ ap (λ x. owned u ++ x) (sym (none_owned_twice fd (negative (is_negative fd) refl e)))
  | no e ↦ ap {A = Closing} (λ c. c.closed ++ owned c.owner) (if_neg (ℤ_discrete u.fd fd) e _ _)
]
  where
    negative : (b : Bool) → is_negative fd ≡ b → u.fd ≡ fd → is_negative fd ≡ true
    negative true h e = h
    negative false h e = absurd (apart (ap (λ d. not (is_negative d)) e ∙ ap not h) e)

-- Moving one owner onto another and destroying both closes what each of them owned, the target's
-- descriptor first, and each once, provided that the two do not own the same descriptor.
pub move_assign_lem :
    (this other : UniqueFd)
    → (not (is_negative this.fd) ≡ true → this.fd ≢ other.fd)
    → (let moved = move_assign this other in
        moved.0.closed ++ (destroy moved.0.owner ++ destroy moved.1) ≡ owned this ++ owned other)
unfolding move_assign release
move_assign_lem this other apart =
    let moved = reset this other.fd in
    ap (λ x. moved.closed ++ x)
      (ap (λ y. destroy moved.owner ++ y) (destroy_lem none_owned)
        ∙ append-nil (destroy moved.owner)
        ∙ destroy_lem moved.owner)
    ∙ reset_lem this other.fd apart

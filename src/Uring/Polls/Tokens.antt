-- ===== src/Uring/Polls/Tokens.antt =====
-- `allocate_token` ends and gives a token that no request in flight has.
use libsimplenet.Base.{
  ℕ, zero, suc, ℕ_discrete, ◌+◌, ◌≤◌, ◌<◌, ◌^◌, ◌≡◌, refl, sym, ◌∙◌, length, none, List,
  Option-cases, inl, inr, if_elim, ◌==◌, arith,
}
use libsimplenet.Base.Table.{find, erase}
use libsimplenet.Base.Keys.{find-erase, length-erase}
use libsimplenet.Uring.State.{PollContext, UringEventLoop}
use libsimplenet.Uring.Polls.{next_after, find_token, allocate_token}

next_after_lem : (token : ℕ) → token + 1 < 2 ^ 64 → next_after token ≡ token + 1
next_after_lem token h = ground arith

-- A token that a search from `token` may give, with the next one.
abbrev IsFresh : ℕ → List (ℕ × PollContext) → ℕ × ℕ → Type 0
IsFresh token polls (found, next) =
    (0 < found) × (token ≤ found) × (find ℕ_discrete found polls ≡ none) × (next ≡ found + 1)

-- `rest` is what is left of the requests when those before `token` are crossed out.
find_token-IsFresh :
    (fuel token : ℕ) (polls rest : List (ℕ × PollContext))
    → 0 < token
    → token + fuel < 2 ^ 64
    → length rest < fuel
    → ((j : ℕ) → token ≤ j → find ℕ_discrete j polls ≡ find ℕ_discrete j rest)
    → IsFresh token polls (find_token fuel token polls)
unfolding find_token
find_token-IsFresh zero token polls rest live room short agree = absurd (omega arith)
find_token-IsFresh (suc fuel) token polls rest live room short agree =
    let step = next_after_lem token (omega arith) in
    if_elim (IsFresh token polls) (token == 0) (λ h. absurd (ground arith))
      λ _. elim (Option-cases (find ℕ_discrete token polls)) [
        | inl q ↦ rw q (live, omega arith, q, step)
        | inr (c, q) ↦
            let gone = length-erase ℕ_discrete token rest (sym (agree token (omega arith)) ∙ q) in
            let later =
              find_token-IsFresh fuel (token + 1) polls (erase ℕ_discrete token rest) (omega arith)
                (omega arith) (omega (arith, gone))
                λ j ahead.
                  agree j (omega arith)
                  ∙ sym (find-erase ℕ_discrete token j rest λ e. omega arith) in
            rw (q, step) (later.0, omega (arith, later.1), later.2, later.3)
      ]

-- From any token, with a round to spare for token 0.
search-IsFresh :
    (fuel token : ℕ) (polls : List (ℕ × PollContext))
    → token + fuel + 1 < 2 ^ 64
    → length polls < fuel
    → IsFresh token polls (find_token (suc fuel) token polls)
unfolding find_token
search-IsFresh fuel zero polls room short =
    let f =
      find_token-IsFresh fuel 1 polls polls (omega arith) (omega arith) short λ j ahead. refl in
    rw (next_after_lem 0 (omega arith)) (f.0, omega arith, f.2, f.3)
search-IsFresh fuel (suc t) polls room short =
    find_token-IsFresh (suc fuel) (suc t) polls polls (omega arith) (omega arith) (omega arith)
      λ j ahead. refl

module _ {W : Type 0} where
  -- Unless the token counter is about to wrap, `allocate_token` ends with a token that is not 0 and
  -- that no poll request in flight has, no smaller than the counter, which ends up right behind it.
  pub allocate_token_lem :
      (l : UringEventLoop W)
      → l.next_token + length l.inflight_polls + 2 < 2 ^ 64
      → (0 < (allocate_token l).0)
        × (l.next_token ≤ (allocate_token l).0)
        × (find ℕ_discrete (allocate_token l).0 l.inflight_polls ≡ none)
        × ((allocate_token l).1.next_token ≡ (allocate_token l).0 + 1)
  unfolding allocate_token find_token
  allocate_token_lem l room =
      search-IsFresh (suc (length l.inflight_polls)) l.next_token l.inflight_polls (omega arith)
        (omega arith)

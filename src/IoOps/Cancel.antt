-- ===== src/IoOps/Cancel.antt =====
-- include/simplenet/runtime/cancel.hpp: sources and tokens that share a flag. The flags live in a
-- store, in which a shared pointer is a position.
use libsimplenet.Base.{
  ℕ, zero, suc, ◌<◌, ◌==◌, ◌≡◌, refl, Bool, true, false, ◌||◌, Option, none, some, List, [], ◌∷◌,
  ◌++◌, length, arith,
}

-- `*state`, for a position in the store.
abbrev pub flag_at : ℕ → List Bool → Bool
flag_at i [] = false
flag_at zero (b ∷ flags) = b
flag_at (suc i) (b ∷ flags) = flag_at i flags

abbrev pub raise_at : ℕ → List Bool → List Bool
raise_at i [] = []
raise_at zero (b ∷ flags) = true ∷ flags
raise_at (suc i) (b ∷ flags) = b ∷ raise_at i flags

-- The `state_` of a token, which may be null, and of a source, which is not.
pub record CancelToken : Type 0 where
  pub state : Option ℕ

pub record CancelSource : Type 0 where
  pub state : ℕ

-- `cancel_token()`
abbrev pub null_token : CancelToken
null_token = record { state = none }

unfoldable pub stop_requested : CancelToken → List Bool → Bool
stop_requested t flags = elim t.state [ none ↦ false | some i ↦ flag_at i flags ]

-- `cancel_source()`: a new flag.
unfoldable pub cancel_source : List Bool → CancelSource × List Bool
cancel_source flags = (record { state = length flags }, flags ++ false ∷ [])

unfoldable pub token : CancelSource → CancelToken
token s = record { state = some s.state }

unfoldable pub request_stop : CancelSource → List Bool → List Bool
request_stop s flags = raise_at s.state flags

-- The token reads the flag of the source.
unfoldable pub shares : CancelToken → CancelSource → Bool
shares t s = elim t.state [ none ↦ false | some i ↦ i == s.state ]

flag-raise :
    (i j : ℕ) (flags : List Bool)
    → j < length flags
    → flag_at i (raise_at j flags) ≡ (i == j || flag_at i flags)
flag-raise i j [] h = absurd (omega arith)
flag-raise zero zero (b ∷ flags) h = refl
flag-raise zero (suc j) (b ∷ flags) h = ground arith
flag-raise (suc i) zero (b ∷ flags) h = ground arith
flag-raise (suc i) (suc j) (b ∷ flags) h =
    let rest = flag-raise i j flags (omega arith) in ground (arith, rest)

-- A request to stop, of a source whose flag is there, reaches every token of that source and no
-- other: each other token reads what it read before.
pub request_stop_lem :
    (t : CancelToken) (s : CancelSource) (flags : List Bool)
    → s.state < length flags
    → stop_requested t (request_stop s flags) ≡ (shares t s || stop_requested t flags)
unfolding stop_requested request_stop shares
request_stop_lem t s flags h = by_state t.state
  where
    by_state :
        (o : Option ℕ)
        → elim o as (λ _. Bool) [ none ↦ false | some i ↦ flag_at i (raise_at s.state flags) ] ≡ (
            elim o as (λ _. Bool) [ none ↦ false | some i ↦ i == s.state ]
            || elim o as (λ _. Bool) [ none ↦ false | some i ↦ flag_at i flags ])
    by_state none = refl
    by_state (some i) = flag-raise i s.state flags h

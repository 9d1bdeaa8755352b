-- ===== src/Base/Table.antt =====
-- Keyed tables: the `std::unordered_map`s of the sources, as association lists. The iteration order
-- of such a map is not specified; here it is the order of the list, which no theorem relies on.
use mathlib.Core.Path.{◌≡◌, refl}
use mathlib.Core.Logic.{ite}
use mathlib.Core.Option.{Option, none, some}
use mathlib.Core.List.{List, [], ◌∷◌}
use native.Mathlib.Omega.{arith}

module _ {K V : Type 0} (d : Discrete K) where
  unfoldable pub find : K → List (K × V) → Option V
  find k [] = none
  find k ((j, v) ∷ m) = ite (d j k) (some v) (find k m)

  -- `m[k] = v`
  unfoldable pub assign : K → V → List (K × V) → List (K × V)
  assign k v [] = (k, v) ∷ []
  assign k v ((j, w) ∷ m) = ite (d j k) ((k, v) ∷ m) ((j, w) ∷ assign k v m)

  -- `m.try_emplace(k)`: an entry that is there stays.
  unfoldable pub try_emplace : K → V → List (K × V) → List (K × V)
  try_emplace k v [] = (k, v) ∷ []
  try_emplace k v ((j, w) ∷ m) = ite (d j k) ((j, w) ∷ m) ((j, w) ∷ try_emplace k v m)

  unfoldable pub erase : K → List (K × V) → List (K × V)
  erase k [] = []
  erase k ((j, v) ∷ m) = ite (d j k) m ((j, v) ∷ erase k m)

  pub find-assign :
      (k j : K) (v : V) (m : List (K × V)) → find j (assign k v m) ≡ ite (d k j) (some v) (find j m)
  unfolding find assign
  find-assign k j v [] = refl
  find-assign k j v ((i, w) ∷ m) = ground (arith, find-assign k j v m)

  pub assign-try_emplace :
      (k : K) (v w : V) (m : List (K × V)) → assign k v (try_emplace k w m) ≡ assign k v m
  unfolding assign try_emplace
  assign-try_emplace k v w [] = ground arith
  assign-try_emplace k v w ((j, u) ∷ m) = ground (arith, assign-try_emplace k v w m)

  pub erase-try_emplace :
      (k : K) (w : V) (m : List (K × V)) → find k m ≡ none → erase k (try_emplace k w m) ≡ m
  unfolding find erase try_emplace
  erase-try_emplace k w [] h = ground arith
  erase-try_emplace k w ((j, u) ∷ m) h = ground (arith, erase-try_emplace k w m)

  pub find-try_emplace :
      (k : K) (w : V) (m : List (K × V)) {v : V} → find k m ≡ some v → try_emplace k w m ≡ m
  unfolding find try_emplace
  find-try_emplace k w [] h = cc
  find-try_emplace k w ((j, u) ∷ m) {v} h = ground (arith, find-try_emplace k w m {v = v})

  pub assign-find : (k : K) (v : V) (m : List (K × V)) → find k m ≡ some v → assign k v m ≡ m
  unfolding find assign
  assign-find k v [] h = cc
  assign-find k v ((j, u) ∷ m) h = ground (arith, assign-find k v m)

  pub assign-assign :
      (k : K) (v w : V) (m : List (K × V)) → assign k v (assign k w m) ≡ assign k v m
  unfolding assign
  assign-assign k v w [] = ground arith
  assign-assign k v w ((j, u) ∷ m) = ground (arith, assign-assign k v w m)

  pub erase-assign : (k : K) (v : V) (m : List (K × V)) → erase k (assign k v m) ≡ erase k m
  unfolding assign erase
  erase-assign k v [] = ground arith
  erase-assign k v ((j, u) ∷ m) = ground (arith, erase-assign k v m)

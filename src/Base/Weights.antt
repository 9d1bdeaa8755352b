-- ===== src/Base/Weights.antt =====
-- Sums and predicates over the values of a keyed table, and how the table's updates change them.
use Prim.Native.Nat.{ℕ, ◌+◌, ◌≤◌}
use mathlib.Core.Path.{◌≡◌, subst₂}
use mathlib.Core.Logic.{if_pos, if_neg}
use mathlib.Core.Option.{Option, none, some, some-injective}
use mathlib.Core.List.{List, [], ◌∷◌}
use native.Mathlib.Omega.{arith}
use libsimplenet.Base.Table.{find, assign, erase}

abbrev pub weight : {V : Type 0} → (V → ℕ) → Option V → ℕ
weight w none = 0
weight w (some v) = w v

module _ {K V : Type 0} where
  abbrev pub sum_values : (V → ℕ) → List (K × V) → ℕ
  sum_values w [] = 0
  sum_values w ((k, v) ∷ m) = w v + sum_values w m

  abbrev pub AllEntries : (K → V → Type 0) → List (K × V) → Type 0
  AllEntries P [] = Unit
  AllEntries P ((k, v) ∷ m) = P k v × AllEntries P m

  module _ (d : Discrete K) (w : V → ℕ) where
    -- A write replaces what the key's entry weighed.
    pub sum_values-assign :
        (k : K) (v : V) (m : List (K × V))
        → sum_values w (assign d k v m) + weight w (find d k m) ≡ w v + sum_values w m
    unfolding find assign
    sum_values-assign k v [] = omega arith
    sum_values-assign k v ((j, u) ∷ m) = ground (arith, sum_values-assign k v m)

    pub sum_values-erase :
        (k : K) (m : List (K × V))
        → sum_values w (erase d k m) + weight w (find d k m) ≡ sum_values w m
    unfolding find erase
    sum_values-erase k [] = omega arith
    sum_values-erase k ((j, u) ∷ m) = ground (arith, sum_values-erase k m)

    pub weight-le-sum_values : (k : K) (m : List (K × V)) → weight w (find d k m) ≤ sum_values w m
    unfolding find
    weight-le-sum_values k [] = omega arith
    weight-le-sum_values k ((j, u) ∷ m) = ground (arith, weight-le-sum_values k m)

  module _ (d : Discrete K) (P : K → V → Type 0) where
    pub AllEntries-assign :
        (k : K) (v : V) (m : List (K × V)) → P k v → AllEntries P m → AllEntries P (assign d k v m)
    unfolding assign
    AllEntries-assign k v [] p h = (p, tt)
    AllEntries-assign k v ((j, u) ∷ m) p (hu, hm) = ground (arith, AllEntries-assign k v m p hm)

    pub AllEntries-erase : (k : K) (m : List (K × V)) → AllEntries P m → AllEntries P (erase d k m)
    unfolding erase
    AllEntries-erase k [] h = tt
    AllEntries-erase k ((j, u) ∷ m) (hu, hm) = ground (arith, AllEntries-erase k m hm)

    pub AllEntries-find :
        (k : K) (m : List (K × V)) {v : V} → AllEntries P m → find d k m ≡ some v → P k v
    unfolding find
    AllEntries-find k [] h e = cc
    AllEntries-find k ((j, u) ∷ m) {v} (hu, hm) e = elim (d j k) [
      | yes p ↦ subst₂ P p (some-injective _ _ (rw (if_pos _ p) at e)) hu
      | no q ↦ AllEntries-find k m hm (rw (if_neg _ q) at e)
    ]

-- ===== src/Base/Keys.antt =====
-- Keyed tables with one entry for each key, as every table of the sources has.
use Prim.Native.Nat.{◌+◌}
use mathlib.Core.Path.{◌≡◌, refl}
use mathlib.Core.Logic.{◌≢◌}
use mathlib.Core.Option.{none, some}
use mathlib.Core.List.{List, [], ◌∷◌}
use native.Mathlib.Omega.{arith}
use libsimplenet.Base.Lists.{length}
use libsimplenet.Base.Table.{find, assign, erase, find-assign}

module _ {K V : Type 0} (d : Discrete K) where
  pub find-erase : (k j : K) (m : List (K × V)) → k ≢ j → find d j (erase d k m) ≡ find d j m
  unfolding find erase
  find-erase k j [] apart = refl
  find-erase k j ((i, v) ∷ m) apart = ground (arith, find-erase k j m apart)

  pub length-erase :
      (k : K) (m : List (K × V)) {v : V} → find d k m ≡ some v → length (erase d k m) + 1 ≡ length m
  unfolding find erase
  length-erase k [] h = cc
  length-erase k ((i, u) ∷ m) {v = w} h = ground (arith, length-erase k m {v = w})

  pub erase-missing : (k : K) (m : List (K × V)) → find d k m ≡ none → erase d k m ≡ m
  unfolding find erase
  erase-missing k [] h = refl
  erase-missing k ((i, v) ∷ m) h = ground (arith, erase-missing k m)

  abbrev pub IsKeyed : List (K × V) → Type 0
  IsKeyed [] = Unit
  IsKeyed ((k, v) ∷ m) = (find d k m ≡ none) × IsKeyed m

  pub find-erase-same : (k : K) (m : List (K × V)) → IsKeyed m → find d k (erase d k m) ≡ none
  unfolding find erase
  find-erase-same k [] h = refl
  find-erase-same k ((i, v) ∷ m) (hi, hm) = ground (arith, find-erase-same k m hm)

  pub erase-IsKeyed : (k : K) (m : List (K × V)) → IsKeyed m → IsKeyed (erase d k m)
  unfolding erase
  erase-IsKeyed k [] h = tt
  erase-IsKeyed k ((i, v) ∷ m) (hi, hm) = ground (arith, erase-IsKeyed k m hm, find-erase k i m)

  pub assign-IsKeyed : (k : K) (v : V) (m : List (K × V)) → IsKeyed m → IsKeyed (assign d k v m)
  unfolding assign find
  assign-IsKeyed k v [] h = (refl, tt)
  assign-IsKeyed k v ((i, w) ∷ m) (hi, hm) =
      ground (arith, assign-IsKeyed k v m hm, find-assign d k i v m)

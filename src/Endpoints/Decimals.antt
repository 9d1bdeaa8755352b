-- ===== src/Endpoints/Decimals.antt =====
-- The numbers that decimal texts denote, and that `parse_port` reads those of 16 bits and no other.
use libsimplenet.Base.{
  ℕ, zero, suc, ◌+◌, ◌-◌, ◌*◌, ◌≤◌, ◌<◌, ◌≡◌, ap, ◌∙◌, Option, ltb, ◌||◌, some, List, [], ◌∷◌, All,
  arith, if_elim, some-injective, length,
}
use libsimplenet.Endpoints.{parse_port}
use libsimplenet.Endpoints.Ports.{limit, IsPlain}

-- '0' to '9'
abbrev pub IsDigits : List ℕ → Type 0
IsDigits = All (λ c. (48 ≤ c) × (c ≤ 57))

-- The number that a text of digits denotes: each digit times its place's power of ten.
abbrev pub denoted : List ℕ → ℕ
denoted [] = 0
denoted (c ∷ text) = (c - 48) * limit (length text) + denoted text

pub digits-IsPlain : (text : List ℕ) → IsDigits text → IsPlain text
digits-IsPlain [] h = tt
digits-IsPlain (c ∷ text) (hc, h) = (ground arith, digits-IsPlain text h)

limit-positive : (n : ℕ) → 0 < limit n
limit-positive zero = omega arith
limit-positive (suc n) = omega (arith, limit-positive n)

shift : (port d t v : ℕ) → (port * 10 + d) * t + v ≡ port * (10 * t) + (d * t + v)
shift port d t v = omega arith

grows : (port t : ℕ) → 0 < t → port ≤ port * t
grows port zero h = absurd (omega arith)
grows port (suc t) h = omega arith

accumulated :
    (text : List ℕ) (port p : ℕ)
    → port < 65536
    → parse_port text port ≡ some p
    → IsDigits text × (p ≡ port * limit (length text) + denoted text) × (p < 65536)
unfolding parse_port
accumulated [] port p small =
    λ h. (tt, omega (arith, some-injective port p h), omega (arith, some-injective port p h))
accumulated (c ∷ text) port p small =
    if_elim (λ r. r ≡ some p → Out) (ltb c 48 || ltb 57 c) (λ _ h. cc)
      λ digit.
        if_elim (λ r. r ≡ some p → Out) (ltb 65535 (port * 10 + (c - 48))) (λ _ h. cc)
          λ fits h.
            let rest = accumulated text (port * 10 + (c - 48)) p (ground arith) h in
            (
              (ground arith, rest.0),
              omega (arith, rest.1, shift port (c - 48) (limit (length text)) (denoted text)),
              rest.2,
            )
  where
    Out : Type 0
    Out =
        IsDigits (c ∷ text)
        × (p ≡ port * limit (suc (length text)) + ((c - 48) * limit (length text) + denoted text))
        × (p < 65536)

accumulates :
    (text : List ℕ) (port : ℕ)
    → IsDigits text
    → port * limit (length text) + denoted text < 65536
    → parse_port text port ≡ some (port * limit (length text) + denoted text)
unfolding parse_port
accumulates [] port h small = ap some {x = port} {y = port * 1 + 0} (omega arith)
accumulates (c ∷ text) port (hc, h) small =
    let moved = shift port (c - 48) (limit (length text)) (denoted text) in
    let rest = accumulates text (port * 10 + (c - 48)) h (omega (arith, moved)) in
    let bound = grows (port * 10 + (c - 48)) (limit (length text)) (limit-positive (length text)) in
    let goal = λ (r : Option ℕ).
      r
      ≡ some (port * limit (suc (length text)) + ((c - 48) * limit (length text) + denoted text)) in
    if_elim goal (ltb c 48 || ltb 57 c) (λ bad. absurd (ground arith))
      λ _.
        if_elim goal (ltb 65535 (port * 10 + (c - 48))) (λ big. absurd (ground arith))
          λ _. rest ∙ ap some moved

-- What is read has digits only, and is what they denote.
pub parse_port-denotes :
    (text : List ℕ) (p : ℕ)
    → parse_port text 0 ≡ some p
    → IsDigits text × (p ≡ denoted text) × (p < 65536)
parse_port-denotes text p h =
    let r = accumulated text 0 p (omega arith) h in (r.0, omega (arith, r.1), r.2)

-- And what digits of 16 bits denote is read.
pub parse_port-denoted :
    (text : List ℕ) (p : ℕ)
    → IsDigits text
    → p ≡ denoted text
    → p < 65536
    → parse_port text 0 ≡ some p
parse_port-denoted text p h e small =
    accumulates text 0 h (omega arith)
    ∙ ap some {x = 0 * limit (length text) + denoted text} {y = p} (omega arith)

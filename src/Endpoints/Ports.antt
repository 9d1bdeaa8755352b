-- ===== src/Endpoints/Ports.antt =====
-- The port of an endpoint's text: what `parse_port` reads is what `to_string` writes.
use libsimplenet.Base.{
  ℕ, zero, suc, ◌+◌, ◌-◌, ◌*◌, ◌/◌, ◌%◌, ◌≤◌, ◌<◌, ◌≡◌, refl, ◌∙◌, ◌==◌, ltb, false, some, List, [],
  ◌∷◌, ◌++◌, All, arith, if_elim, some-injective, length, length-append,
}
use libsimplenet.Endpoints.{to_string, parse_port}

-- A text that is read is read up to any further digit.
parse_port-append :
    (text : List ℕ) (port p ch : ℕ)
    → parse_port text port ≡ some p
    → parse_port (text ++ ch ∷ []) port ≡ parse_port (ch ∷ []) p
unfolding parse_port
parse_port-append [] port p ch = λ h. rw (some-injective port p h) refl
parse_port-append (x ∷ text) port p ch =
    let rest = parse_port-append text (port * 10 + (x - 48)) p ch in ground (arith, rest)

one_digit :
    (p d n : ℕ) → d < 10 → n ≡ p * 10 + d → n < 65536 → parse_port ((48 + d) ∷ []) p ≡ some n
unfolding parse_port
one_digit p d n small e h = ground arith

-- The numbers of so many digits.
abbrev pub limit : ℕ → ℕ
limit zero = 1
limit (suc digits) = 10 * limit digits

more_digits : (digits n : ℕ) → n < limit (suc digits) → 10 ≤ n → 0 < digits
more_digits zero n h k = absurd (omega arith)
more_digits (suc digits) n h k = omega arith

pub parse_port-to_string :
    (digits n : ℕ)
    → n < limit digits
    → 0 < digits
    → n < 65536
    → parse_port (to_string digits n) 0 ≡ some n
unfolding to_string
parse_port-to_string zero n fits some_digits small = absurd (omega arith)
parse_port-to_string (suc digits) n fits some_digits small =
    if_elim (λ t. parse_port t 0 ≡ some n) (ltb n 10)
      (λ h. one_digit 0 n n (ground arith) (omega arith) (omega arith))
      λ h.
        parse_port-append (to_string digits (n / 10)) 0 (n / 10) (48 + n % 10) (
          parse_port-to_string digits (n / 10) (omega arith)
            (more_digits digits n fits (ground arith)) (omega arith))
        ∙ one_digit (n / 10) (n % 10) n (omega arith) (omega arith) small

pub All-append : (P : ℕ → Type 0) (xs ys : List ℕ) → All P xs → All P ys → All P (xs ++ ys)
All-append P [] ys p q = q
All-append P (x ∷ xs) ys (p, ps) q = (p, All-append P xs ys ps q)

-- No character of a number is the separator.
abbrev pub IsPlain : List ℕ → Type 0
IsPlain = All (λ c. (c == 58) ≡ false)

pub to_string-IsPlain : (digits n : ℕ) → IsPlain (to_string digits n)
unfolding to_string
to_string-IsPlain zero n = tt
to_string-IsPlain (suc digits) n =
    if_elim IsPlain (ltb n 10) (λ h. (ground arith, tt))
      λ _.
        All-append (λ c. (c == 58) ≡ false) (to_string digits (n / 10)) ((48 + n % 10) ∷ [])
          (to_string-IsPlain digits (n / 10)) (ground arith, tt)

pub length-to_string : (digits n : ℕ) → 0 < digits → 0 < length (to_string digits n)
unfolding to_string
length-to_string zero n h = absurd (omega arith)
length-to_string (suc digits) n h =
    let rest = length-append (to_string digits (n / 10)) ((48 + n % 10) ∷ []) in
    ground (arith, rest)

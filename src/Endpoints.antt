-- ===== src/Endpoints.antt =====
-- src/runtime/resolver.cpp, `parse_ipv4_endpoint` and `format_endpoint`: an endpoint as the text
-- `host:port`. A text is the list of its character codes.
pub mod Ports
pub mod Decimals
pub mod RoundTrip
pub mod Examples
use libsimplenet.Base.{
  ℕ, zero, suc, ◌+◌, ◌-◌, ◌*◌, ◌/◌, ◌%◌, ◌==◌, ltb, leb, ◌||◌, Option, none, some, List, [], ◌∷◌,
  ◌++◌, length, take, drop, if◌then◌else◌,
}
use libsimplenet.Core.{Result, ok, err, from_errno}
use libsimplenet.Core.Errno.{einval}
use libsimplenet.Sockets.Calls.{AddressCalls}
use libsimplenet.Sockets.Address.{Endpoint, c_str}

-- `value.rfind(c)`
unfoldable pub rfind : ℕ → List ℕ → Option ℕ
rfind c [] = none
rfind c (x ∷ value) = elim (rfind c value) [
  | some i ↦ some (suc i)
  | none ↦ if x == c then some 0 else none
]

-- `std::to_string`, with as many digits as `digits` allows.
unfoldable pub to_string : ℕ → ℕ → List ℕ
to_string zero n = []
to_string (suc digits) n =
    let rest = to_string digits (n / 10) in
    if ltb n 10 then (48 + n) ∷ [] else rest ++ (48 + n % 10) ∷ []

-- The loop over the port's characters.
unfoldable pub parse_port : List ℕ → ℕ → Option ℕ
parse_port [] port = some port
parse_port (ch ∷ text) port =
    let port' = port * 10 + (ch - 48) in
    let rest = parse_port text port' in
    if ltb ch 48 || ltb 57 ch then none else if ltb 65535 port' then none else rest

-- A `uint16_t` has at most five digits.
unfoldable pub format_endpoint : Endpoint → List ℕ
unfolding to_string
format_endpoint value = value.host ++ 58 ∷ to_string 5 value.port

module _ (net : AddressCalls) where
  unfoldable pub parse_ipv4_endpoint : List ℕ → Result Endpoint
  unfolding rfind parse_port c_str
  parse_ipv4_endpoint value = elim (rfind 58 value) [
    | none ↦ err (from_errno einval)
    | some separator ↦
        if separator == 0 || leb (length value) (separator + 1)
        then err (from_errno einval)
        else elim (parse_port (drop (separator + 1) value) 0) [
          | none ↦ err (from_errno einval)
          | some port ↦ elim (net.inet_pton (c_str (take separator value))) [
            | none ↦ err (from_errno einval)
            | some address ↦ ok (record { host = take separator value; port = port })
          ]
        ]
  ]

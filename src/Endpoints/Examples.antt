-- ===== src/Endpoints/Examples.antt =====
-- The theorems on endpoint texts, with an `inet_pton` that knows one address.
use libsimplenet.Base.{ℕ, ◌==◌, ◌≡◌, refl, none, some, List, if◌then◌else◌, arith, length}
use libsimplenet.Core.{ok, err, from_errno}
use libsimplenet.Core.Errno.{einval}
use libsimplenet.Sockets.Calls.{AddressCalls}
use libsimplenet.Sockets.Address.{codes}
use libsimplenet.Endpoints.{format_endpoint, parse_ipv4_endpoint}
use libsimplenet.Endpoints.RoundTrip.{
  parse_ipv4_endpoint-format_endpoint, Accepts, parse_ipv4_endpoint_lem,
}

-- Addresses of seven characters.
abbrev net : AddressCalls
net = record {
  inet_pton = λ text. if length text == 7 then some 1 else none;
  inet_ntop = λ _. none;
  htons = λ n. n;
  ntohs = λ n. n;
}

abbrev host : List ℕ
host = codes "1.2.3.4"

parse_ipv4_endpoint-format_endpoint_example :
    parse_ipv4_endpoint net (format_endpoint (record { host = host; port = 8080 }))
    ≡ ok (record { host = host; port = 8080 })
parse_ipv4_endpoint-format_endpoint_example =
    parse_ipv4_endpoint-format_endpoint net host 8080 1 (omega arith) (ground arith) (omega arith)
      refl

parse_ipv4_endpoint_lem_example :
    Accepts net (codes "1.2.3.4:80") (parse_ipv4_endpoint net (codes "1.2.3.4:80"))
parse_ipv4_endpoint_lem_example = parse_ipv4_endpoint_lem net (codes "1.2.3.4:80")

-- Texts that are refused or accepted.
endpoint_texts :
    (parse_ipv4_endpoint net (codes "1.2.3.4:65535") ≡ ok (record { host = host; port = 65535 }))
    × (parse_ipv4_endpoint net (codes "1.2.3.4:65536") ≡ err (from_errno einval))
    × (parse_ipv4_endpoint net (codes "1.2.3.4:") ≡ err (from_errno einval))
    × (format_endpoint (record { host = host; port = 80 }) ≡ codes "1.2.3.4:80")
unfolding parse_ipv4_endpoint format_endpoint
endpoint_texts = (refl, refl, refl, refl)

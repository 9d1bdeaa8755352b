-- ===== src/Endpoints/RoundTrip.antt =====
-- `parse_ipv4_endpoint` reads what `format_endpoint` writes, and what it accepts is well-formed.
use libsimplenet.Base.{
  ℕ, zero, suc, ◌+◌, ◌<◌, ◌≡◌, refl, ap, ◌∙◌, ◌==◌, leb, ◌||◌, none, some, List, [], ◌∷◌, ◌++◌, All,
  arith, if_elim, length, length-append, length-take, length-drop, take, drop, Option-cases, inl,
  inr,
}
use libsimplenet.Core.{Result, ok, err, from_errno}
use libsimplenet.Core.Errno.{einval}
use libsimplenet.Sockets.Calls.{AddressCalls}
use libsimplenet.Sockets.Address.{Endpoint, c_str}
use libsimplenet.Endpoints.{rfind, to_string, parse_port, format_endpoint, parse_ipv4_endpoint}
use libsimplenet.Endpoints.Decimals.{
  IsDigits, denoted, digits-IsPlain, parse_port-denotes, parse_port-denoted,
}
use libsimplenet.Endpoints.Ports.{
  parse_port-to_string, IsPlain, to_string-IsPlain, length-to_string,
}

-- A text without the separator.
rfind_plain : (text : List ℕ) → IsPlain text → rfind 58 text ≡ none
unfolding rfind
rfind_plain [] h = refl
rfind_plain (x ∷ text) (hx, h) = rw (rfind_plain text h, hx) refl

rfind-append :
    (host text : List ℕ) → IsPlain text → rfind 58 (host ++ 58 ∷ text) ≡ some (length host)
unfolding rfind
rfind-append [] text h = rw (rfind_plain text h) refl
rfind-append (x ∷ host) text h = rw (rfind-append host text h) refl

take-append : (xs ys : List ℕ) → take (length xs) (xs ++ ys) ≡ xs
take-append [] ys = refl
take-append (x ∷ xs) ys = rw (take-append xs ys) refl

drop_past : (xs ys : List ℕ) (c n : ℕ) → n ≡ length xs + 1 → drop n (xs ++ c ∷ ys) ≡ ys
drop_past [] ys c zero h = absurd (omega arith)
drop_past [] ys c (suc zero) h = refl
drop_past [] ys c (suc (suc n)) h = absurd (omega arith)
drop_past (x ∷ xs) ys c zero h = absurd (omega arith)
drop_past (x ∷ xs) ys c (suc n) h = drop_past xs ys c n (omega arith)

-- A text without NUL is its own C string.
c_str_whole : (text : List ℕ) → All (λ c. 0 < c) text → c_str text ≡ text
unfolding c_str
c_str_whole [] h = refl
c_str_whole (x ∷ text) (hx, h) = ground (arith, c_str_whole text h)

-- Where the separator is found.
rfind_split :
    (c : ℕ) (value : List ℕ) (i : ℕ)
    → rfind c value ≡ some i
    → value ≡ take i value ++ c ∷ drop (suc i) value
unfolding rfind
rfind_split c [] i = λ h. cc
rfind_split c (x ∷ value) i = elim (Option-cases (rfind c value)) [
  | inl e ↦ rw e (
      if_elim (λ o. o ≡ some i → split i) (x == c) (λ same h. first i (ground arith) (ground arith))
        λ _ h. cc)
  | inr (j, e) ↦ rw e λ h. later i j (ground arith) (rfind_split c value j e)
]
  where
    split : ℕ → Type 0
    split k = x ∷ value ≡ take k (x ∷ value) ++ c ∷ drop (suc k) (x ∷ value)

    first : (k : ℕ) → k ≡ 0 → x ≡ c → split k
    first k e same = rw e (ap (λ y. y ∷ value) same)

    later : (k j : ℕ) → k ≡ suc j → value ≡ take j value ++ c ∷ drop (suc j) value → split k
    later k j e rest = rw e (ap (λ t. x ∷ t) rest)

module _ (net : AddressCalls) where
  parse_parts :
      (value : List ℕ) (i port address : ℕ)
      → rfind 58 value ≡ some i
      → 0 < i
      → i + 1 < length value
      → parse_port (drop (i + 1) value) 0 ≡ some port
      → net.inet_pton (c_str (take i value)) ≡ some address
      → parse_ipv4_endpoint net value ≡ ok (record { host = take i value; port = port })
  unfolding parse_ipv4_endpoint
  parse_parts value i port address found some_host some_port read known =
      rw (found, parse_ipv4_endpoint)
        (if_elim (λ r. r ≡ ok (record { host = take i value; port = port }))
          (i == 0 || leb (length value) (i + 1)) (λ h. absurd (ground arith))
          λ _. rw (read, known) refl)

  -- An endpoint whose host is not empty, has no NUL and is accepted by `inet_pton`, and whose port
  -- has 16 bits, is parsed back from its text, whatever colons the host has.
  pub parse_ipv4_endpoint-format_endpoint :
      (host : List ℕ) (port address : ℕ)
      → 0 < length host
      → All (λ c. 0 < c) host
      → port < 65536
      → net.inet_pton host ≡ some address
      → parse_ipv4_endpoint net (format_endpoint (record { host = host; port = port }))
        ≡ ok (record { host = host; port = port })
  unfolding format_endpoint
  parse_ipv4_endpoint-format_endpoint host port address some_host plain small known =
      let text = host ++ 58 ∷ to_string 5 port in
      let taken = take-append host (58 ∷ to_string 5 port) in
      parse_parts text (length host) port address
        (rfind-append host (to_string 5 port) (to_string-IsPlain 5 port)) some_host
        (omega (
          arith,
          length-append host (58 ∷ to_string 5 port),
          length-to_string 5 port (omega arith),
        ))
        (rw (drop_past host (to_string 5 port) 58 (length host + 1) refl)
          (parse_port-to_string 5 port (omega arith) (omega arith) small))
        (rw (taken, c_str_whole host plain) known)
      ∙ ap (λ h. ok (record { host = h; port = port })) taken

  -- What the text of an endpoint is made of: a host that is not empty and that `inet_pton` accepts as
  -- a C string, a colon, and decimal digits, one at least, that denote the port, a number of 16 bits.
  pub record IsTextOf (value : List ℕ) (ep : Endpoint) : Type 0 where
    pub port_text : List ℕ
    pub address : ℕ
    pub whole : value ≡ ep.host ++ 58 ∷ port_text
    pub some_host : 0 < length ep.host
    pub some_port : 0 < length port_text
    pub digits : IsDigits port_text
    pub read : ep.port ≡ denoted port_text
    pub small : ep.port < 65536
    pub known : net.inet_pton (c_str ep.host) ≡ some address

  -- The text of an endpoint is accepted.
  parse_ipv4_endpoint-IsTextOf :
      (value : List ℕ) (ep : Endpoint) → IsTextOf value ep → parse_ipv4_endpoint net value ≡ ok ep
  parse_ipv4_endpoint-IsTextOf value ep t =
      let whole = ep.host ++ 58 ∷ t.port_text in
      let taken = take-append ep.host (58 ∷ t.port_text) in
      ap (parse_ipv4_endpoint net) t.whole
      ∙ parse_parts whole (length ep.host) ep.port t.address
          (rfind-append ep.host t.port_text (digits-IsPlain t.port_text t.digits)) t.some_host
          (omega (arith, length-append ep.host (58 ∷ t.port_text), t.some_port))
          (rw (drop_past ep.host t.port_text 58 (length ep.host + 1) refl)
            (parse_port-denoted t.port_text ep.port t.digits t.read t.small))
          (rw taken t.known)
      ∙ ap (λ h. ok (record { host = h; port = ep.port })) taken

  abbrev IsSound : List ℕ → Result Endpoint → Type 0
  IsSound value (ok ep) = IsTextOf value ep
  IsSound value (err e) = e ≡ from_errno einval

  parse_ipv4_endpoint-IsSound : (value : List ℕ) → IsSound value (parse_ipv4_endpoint net value)
  unfolding parse_ipv4_endpoint
  parse_ipv4_endpoint-IsSound value = elim (Option-cases (rfind 58 value)) [
    | inl e ↦ rw (e, parse_ipv4_endpoint) refl
    | inr (i, e) ↦
        rw (e, parse_ipv4_endpoint)
          (if_elim (IsSound value) (i == 0 || leb (length value) (i + 1)) (λ _. refl)
            λ inside. elim (Option-cases (parse_port (drop (i + 1) value) 0)) [
              | inl f ↦ rw f refl
              | inr (port, f) ↦ rw f (elim (Option-cases (net.inet_pton (c_str (take i value)))) [
                | inl g ↦ rw g refl
                | inr (address, g) ↦ rw g (record {
                  port_text = drop (i + 1) value;
                  address = address;
                  whole =
                      rfind_split 58 value i e
                      ∙ ap (λ n. take i value ++ 58 ∷ drop n value) {x = suc i} {y = i + 1}
                          (omega arith);
                  some_host = ground (arith, length-take i value);
                  some_port = ground (arith, length-drop (i + 1) value);
                  digits = (denotes i port f).0;
                  read = (denotes i port f).1;
                  small = (denotes i port f).2;
                  known = g;
                })
              ])
            ])
  ]
    where
      denotes :
          (i port : ℕ)
          → parse_port (drop (i + 1) value) 0 ≡ some port
          → IsDigits (drop (i + 1) value) × (port ≡ denoted (drop (i + 1) value)) × (port < 65536)
      denotes i port f = parse_port-denotes (drop (i + 1) value) port f

  -- The result is the endpoint whose text this is, or EINVAL if it is the text of none.
  abbrev pub Accepts : List ℕ → Result Endpoint → Type 0
  Accepts value (ok ep) = IsTextOf value ep
  Accepts value (err e) = (e ≡ from_errno einval) × ((ep : Endpoint) → ¬ IsTextOf value ep)

  -- `parse_ipv4_endpoint` accepts the texts that consist of a host that is not empty and that
  -- `inet_pton` accepts as a C string, a colon, and one or more decimal digits that denote a number
  -- below 65536, and returns that host and that number. It fails with EINVAL on every other text.
  pub parse_ipv4_endpoint_lem : (value : List ℕ) → Accepts value (parse_ipv4_endpoint net value)
  parse_ipv4_endpoint_lem value =
      of_result (parse_ipv4_endpoint net value) refl (parse_ipv4_endpoint-IsSound value)
    where
      of_result :
          (r : Result Endpoint)
          → parse_ipv4_endpoint net value ≡ r
          → IsSound value r
          → Accepts value r
      of_result (ok ep) q h = h
      of_result (err e) q h =
          (h, λ ep t. let accepted = parse_ipv4_endpoint-IsTextOf value ep t in cc)

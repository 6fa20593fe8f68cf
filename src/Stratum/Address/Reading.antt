-- ===== src/Stratum/Address/Reading.antt =====
-- Which hosts and ports `connect` reads in a pool address.
use ohmy_miner_etc.Common.{
  ℕ, suc, ◌+◌, ◌-◌, ◌*◌, ◌^◌, ◌%◌, ◌≤◌, ◌≡◌, ◌≢◌, refl, ap, ◌∙◌, List, [], ◌∷◌, ◌++◌, true, false,
  ◌&&◌, ◌||◌, none, some, arith, leb, ◌==◌, drop, length, All, ◌>>=◌, take-append_left,
}
use native.Mathlib.Nat.{pow-suc}
use ohmy_miner_etc.Stratum.Address.{
  find_last_colon, starts_protocol, after_protocol, strip_protocol, is_digit, is_space, skip_spaces,
  decimal, magnitude, signed_port, port_of, text_or, address_at, parse_address,
}

abbrev pub IsPlain : List ℕ → Type 0
IsPlain = All (λ c. c ≢ b':')

abbrev pub IsDigits : List ℕ → Type 0
IsDigits = All (λ c. (48 ≤ c) × (c ≤ 57))

-- The number that decimal digits denote.
abbrev pub decimal_value : List ℕ → ℕ
decimal_value [] = 0
decimal_value (c ∷ digits) = (c - 48) * 10 ^ length digits + decimal_value digits

find_last_colon-plain : (text : List ℕ) → IsPlain text → find_last_colon text ≡ none
unfolding find_last_colon
find_last_colon-plain [] h = refl
find_last_colon-plain (c ∷ text) h =
    let no : (c == b':') ≡ false = ground (arith, h.0) in
    rw (find_last_colon-plain text h.1) (rw no)

find_last_colon-append :
    (xs text : List ℕ) → IsPlain text → find_last_colon (xs ++ b':' ∷ text) ≡ some (length xs)
unfolding find_last_colon
find_last_colon-append [] text h = rw (find_last_colon-plain text h)
find_last_colon-append (x ∷ xs) text h = rw (find_last_colon-append xs text h)

starts_protocol-plain : (c : ℕ) (text : List ℕ) → c ≢ b':' → starts_protocol (c ∷ text) ≡ false
unfolding starts_protocol
starts_protocol-plain c [] h = refl
starts_protocol-plain c (x ∷ []) h = refl
starts_protocol-plain c (x ∷ y ∷ text) h = let no : (c == b':') ≡ false = ground (arith, h) in rw no

after_protocol-plain : (text : List ℕ) → IsPlain text → after_protocol text ≡ none
unfolding after_protocol
after_protocol-plain [] h = refl
after_protocol-plain (c ∷ text) h =
    rw (starts_protocol-plain c text h.0) (after_protocol-plain text h.1)

after_protocol-append :
    (protocol host : List ℕ)
    → IsPlain protocol
    → after_protocol (protocol ++ b':' ∷ b'/' ∷ b'/' ∷ host) ≡ some host
unfolding after_protocol starts_protocol
after_protocol-append [] host h = refl
after_protocol-append (c ∷ protocol) host h =
    rw (starts_protocol-plain c (protocol ++ b':' ∷ b'/' ∷ b'/' ∷ host) h.0)
      (after_protocol-append protocol host h.1)

weights : (v d p r : ℕ) → (10 * v + d) * p + r ≡ v * (p * 10) + (d * p + r)
weights v d p r = grind arith

is_digit-true : (c : ℕ) → (48 ≤ c) × (c ≤ 57) → is_digit c ≡ true
unfolding is_digit
is_digit-true c h = ground (arith, h.0, h.1)

decimal-lem :
    (value : ℕ) (digits : List ℕ)
    → IsDigits digits
    → decimal value digits ≡ value * 10 ^ length digits + decimal_value digits
unfolding decimal
decimal-lem value [] h = omega arith
decimal-lem value (c ∷ digits) h = rw (is_digit-true c h.0) (
    rw (pow-suc 10 (length digits)) (
      decimal-lem (10 * value + (c - 48)) digits h.1
      ∙ weights value (c - 48) (10 ^ length digits) (decimal_value digits)))

IsDigits-IsPlain : (digits : List ℕ) → IsDigits digits → IsPlain digits
IsDigits-IsPlain [] h = tt
IsDigits-IsPlain (c ∷ digits) h = (ground (arith, h.0), IsDigits-IsPlain digits h.1)

pub magnitude-lem :
    (limit : ℕ) (digits : List ℕ)
    → IsDigits digits
    → digits ≢ []
    → decimal_value digits ≤ limit
    → magnitude limit digits ≡ some (decimal_value digits)
unfolding magnitude
magnitude-lem limit [] h ne k = absurd (ne refl)
magnitude-lem limit (c ∷ digits) h ne k =
    let value : decimal 0 (c ∷ digits) ≡ decimal_value (c ∷ digits) =
      decimal-lem 0 (c ∷ digits) h ∙ omega arith in
    let fits : leb (decimal_value (c ∷ digits)) limit ≡ true = ground (arith, k) in
    rw (is_digit-true c h.0) (rw value (rw fits))

pub is_space-digit :
    (c : ℕ) (text : List ℕ) → (48 ≤ c) × (c ≤ 57) → skip_spaces (c ∷ text) ≡ c ∷ text
unfolding skip_spaces is_space
is_space-digit c text h =
    let blank : (c == 32 || (leb 9 c && leb c 13)) ≡ false = ground (arith, h) in rw blank

port_of-digits :
    (digits : List ℕ)
    → IsDigits digits
    → digits ≢ []
    → decimal_value digits ≤ 2147483647
    → port_of digits ≡ some (decimal_value digits % 65536)
unfolding port_of signed_port skip_spaces is_space
port_of-digits [] h ne k = absurd (ne refl)
port_of-digits (c ∷ digits) h ne k =
    let blank : (c == 32 || (leb 9 c && leb c 13)) ≡ false = ground (arith, h.0) in
    let minus : (c == b'-') ≡ false = ground (arith, h.0) in
    let plus : (c == b'+') ≡ false = ground (arith, h.0) in
    rw blank (rw minus (rw plus (rw (magnitude-lem 2147483647 (c ∷ digits) h ne k))))

drop-suc_append : (xs ys : List ℕ) (c : ℕ) → drop (suc (length xs)) (xs ++ c ∷ ys) ≡ ys
drop-suc_append [] ys c = refl
drop-suc_append (x ∷ xs) ys c = drop-suc_append xs ys c

parse_address-append :
    (before digits : List ℕ)
    → IsPlain digits
    → parse_address (before ++ b':' ∷ digits)
      ≡ port_of digits >>= λ port. some (strip_protocol before, port)
unfolding parse_address address_at
parse_address-append before digits h =
    ap (address_at (before ++ b':' ∷ digits)) (find_last_colon-append before digits h)
    ∙ rw (drop-suc_append before digits b':')
        (rw (take-append_left (length before) before (b':' ∷ digits) refl))

port_of-slash : (text : List ℕ) → port_of (b'/' ∷ text) ≡ none
unfolding port_of signed_port skip_spaces is_space magnitude is_digit
port_of-slash text = refl

-- The addresses that `connect` means to read, with and without a protocol and a port, for a host and
-- a protocol without a colon, and a port of decimal digits whose value is an `int`.
pub record IsRead (protocol host digits : List ℕ) : Type 0 where
  pub bare : parse_address host ≡ some (host, 3333)
  pub with_port : parse_address (host ++ b':' ∷ digits) ≡ some (host, decimal_value digits % 65536)
  pub with_protocol :
      parse_address ((protocol ++ b':' ∷ b'/' ∷ b'/' ∷ host) ++ b':' ∷ digits)
      ≡ some (host, decimal_value digits % 65536)
  pub without_port : parse_address (protocol ++ b':' ∷ b'/' ∷ b'/' ∷ host) ≡ none

strip_protocol-plain : (host : List ℕ) → IsPlain host → strip_protocol host ≡ host
unfolding strip_protocol
strip_protocol-plain host h = ap (text_or host) (after_protocol-plain host h)

strip_protocol-append :
    (protocol host : List ℕ)
    → IsPlain protocol
    → strip_protocol (protocol ++ b':' ∷ b'/' ∷ b'/' ∷ host) ≡ host
unfolding strip_protocol
strip_protocol-append protocol host h =
    ap (text_or (protocol ++ b':' ∷ b'/' ∷ b'/' ∷ host)) (after_protocol-append protocol host h)

-- Reading a pool address whose host and protocol have no colon and whose port is of digits, with a
-- value that fits in an int: "host" gives the host and the default port 3333; "host:port" and
-- "protocol://host:port" give the host and the port modulo 65536; and "protocol://host", without a
-- port, makes std::stoi throw.
pub parse_address-IsRead :
    (protocol host digits : List ℕ)
    → IsPlain protocol
    → IsPlain host
    → IsDigits digits
    → digits ≢ []
    → decimal_value digits ≤ 2147483647
    → IsRead protocol host digits
parse_address-IsRead protocol host digits p h d ne k = record {
  bare = unfold parse_address address_at in ap (address_at host) (find_last_colon-plain host h);
  with_port = parse_address-append host digits plain ∙ rw port (rw (strip_protocol-plain host h));
  with_protocol =
      parse_address-append (protocol ++ b':' ∷ b'/' ∷ b'/' ∷ host) digits plain
      ∙ rw port (rw (strip_protocol-append protocol host p));
  without_port =
      parse_address-append protocol (b'/' ∷ b'/' ∷ host) slashes ∙ rw (port_of-slash (b'/' ∷ host));
}
  where
    plain : IsPlain digits
    plain = IsDigits-IsPlain digits d

    port : port_of digits ≡ some (decimal_value digits % 65536)
    port = port_of-digits digits d ne k

    slashes : IsPlain (b'/' ∷ b'/' ∷ host)
    slashes = (ground arith, (ground arith, h))

-- ===== src/Stratum/Address.antt =====
-- The pool address that `connect` reads: `host:port`, or `protocol://host:port`.
pub mod Reading
use ohmy_miner_etc.Common.{
  ℕ, zero, suc, ◌+◌, ◌-◌, ◌*◌, ◌%◌, List, [], ◌∷◌, ◌++◌, Bool, true, false, ◌&&◌, ◌||◌, Option,
  none, some, if◌then◌else◌, ltb, leb, ◌==◌, take, drop, ◌>>=◌,
}

-- `find_last_of(':')`.
pub find_last_colon : List ℕ → Option ℕ
find_last_colon [] = none
find_last_colon (c ∷ text) = elim (find_last_colon text) [
  | none ↦ if c == b':' then some 0 else none
  | some i ↦ some (suc i)
]

pub starts_protocol : List ℕ → Bool
starts_protocol (a ∷ b ∷ c ∷ text) = a == b':' && (b == b'/' && c == b'/')
starts_protocol _ = false

-- What stands behind the first "://", if there is one.
pub after_protocol : List ℕ → Option (List ℕ)
after_protocol [] = none
after_protocol (c ∷ text) =
    let rest = after_protocol text in
    if starts_protocol (c ∷ text) then some (drop 2 text) else rest

abbrev pub text_or : List ℕ → Option (List ℕ) → List ℕ
text_or host none = host
text_or host (some rest) = rest

pub strip_protocol : List ℕ → List ℕ
strip_protocol host = text_or host (after_protocol host)

pub is_space : ℕ → Bool
is_space c = c == 32 || (leb 9 c && leb c 13)

pub is_digit : ℕ → Bool
is_digit c = leb 48 c && leb c 57

pub skip_spaces : List ℕ → List ℕ
skip_spaces [] = []
skip_spaces (c ∷ text) = let rest = skip_spaces text in if is_space c then rest else c ∷ text

-- The value of the digits at the front.
pub decimal : ℕ → List ℕ → ℕ
decimal value [] = value
decimal value (c ∷ text) =
    let rest = decimal (10 * value + (c - 48)) text in if is_digit c then rest else value

-- `std::stoi` of unsigned digits, within the range of `int`.
pub magnitude : ℕ → List ℕ → Option ℕ
magnitude limit [] = none
magnitude limit (c ∷ text) =
    let value = decimal 0 (c ∷ text) in if is_digit c && leb value limit then some value else none

-- `std::stoi`, and its conversion to `uint16_t`; `none` is an exception.
pub signed_port : List ℕ → Option ℕ
signed_port [] = none
signed_port (c ∷ text) =
    if c == b'-'
    then (magnitude 2147483648 text >>= λ value. some ((65536 - value % 65536) % 65536))
    else if c == b'+'
    then (magnitude 2147483647 text >>= λ value. some (value % 65536))
    else magnitude 2147483647 (c ∷ text) >>= λ value. some (value % 65536)

pub port_of : List ℕ → Option ℕ
port_of text = signed_port (skip_spaces text)

pub address_at : List ℕ → Option ℕ → Option (List ℕ × ℕ)
address_at pool_url none = some (pool_url, 3333)
address_at pool_url (some colon) = port_of (drop (suc colon) pool_url) >>= λ port.
    some (strip_protocol (take colon pool_url), port)

pub parse_address : List ℕ → Option (List ℕ × ℕ)
parse_address pool_url = address_at pool_url (find_last_colon pool_url)

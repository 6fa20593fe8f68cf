-- ===== src/Hex.antt =====
-- include/ohmy/hex_utils.hpp and src/utils/hex_utils.cpp: hexadecimal texts, as lists of byte codes,
-- to and from hashes and 64-bit numbers. An output parameter is an argument, its old value, and the
-- second part of the result, its new one.
pub mod Digits
pub mod Hash
pub mod Print
pub mod Number
mod Tests
use ohmy_miner_etc.Common.{
  ℕ, zero, suc, ◌+◌, ◌-◌, ◌*◌, ◌/◌, ◌%◌, ◌^◌, List, [], ◌∷◌, ◌++◌, Option, none, some, Bool, true,
  false, ◌&&◌, ◌||◌, bit_or, if◌then◌else◌, ltb, leb, ◌==◌, length, set, replicate, u8, u64,
}

-- `none` is the -1 of the source.
unfoldable pub hex_char_to_value : ℕ → Option ℕ
hex_char_to_value c =
    if leb b'0' c && leb c b'9'
    then some (c - b'0')
    else if leb b'a' c && leb c b'f'
    then some (c - b'a' + 10)
    else if leb b'A' c && leb c b'F'
    then some (c - b'A' + 10)
    else none

-- The digit that the streams of the standard library print under `std::hex`.
unfoldable pub hex_digit : ℕ → ℕ
hex_digit value = if leb value 9 then b'0' + value else b'a' + (value - 10)

pub strip_prefix : List ℕ → List ℕ
strip_prefix [] = []
strip_prefix (a ∷ []) = a ∷ []
strip_prefix (a ∷ b ∷ str) = if a == b'0' && (b == b'x' || b == b'X') then str else a ∷ b ∷ str

unfoldable pub pad_zeros : ℕ → List ℕ → List ℕ
pad_zeros n str = replicate (n - length str) b'0' ++ str

-- The loop that turns pairs of characters into bytes, from index `i` on.
pub decode_pairs : ℕ → List ℕ → List ℕ → Bool × List ℕ
decode_pairs i (c ∷ d ∷ str) hash = elim (hex_char_to_value c) [
  | none ↦ (false, hash)
  | some high ↦ elim (hex_char_to_value d) [
    | none ↦ (false, hash)
    | some low ↦ decode_pairs (i + 1) str (set hash i (u8 (bit_or (high * 2 ^ 4) low)))
  ]
]
decode_pairs i _ hash = (true, hash)

-- The common text of `hexToHash32` and `hexToHash64`, for a hash of `bytes` bytes.
pub hex_to_bytes : ℕ → List ℕ → List ℕ → Bool × List ℕ
hex_to_bytes bytes hex_str hash =
    let str = pad_zeros (2 * bytes) (strip_prefix hex_str) in
    if length str == 2 * bytes then decode_pairs 0 str hash else (false, hash)

pub hex_to_hash32 : List ℕ → List ℕ → Bool × List ℕ
unfolding hex_to_bytes
hex_to_hash32 = hex_to_bytes 32

pub hex_to_hash64 : List ℕ → List ℕ → Bool × List ℕ
unfolding hex_to_bytes
hex_to_hash64 = hex_to_bytes 64

-- `oss << std::hex << value`, with no leading zeros; 16 digits are enough for 64 bits.
unfoldable pub print_hex : ℕ → ℕ → List ℕ
print_hex zero value = []
print_hex (suc digits) value =
    let high = print_hex digits (value / 16) in
    if ltb value 16 then hex_digit value ∷ [] else high ++ hex_digit (value % 16) ∷ []

unfoldable pub hex_prefix : Bool → List ℕ
hex_prefix true = b'0' ∷ b'x' ∷ []
hex_prefix false = []

unfoldable pub print_bytes : List ℕ → List ℕ
print_bytes [] = []
print_bytes (b ∷ hash) = pad_zeros 2 (print_hex 16 b) ++ print_bytes hash

-- `hash32ToHex` and `hash64ToHex`; the hash carries its length.
unfoldable pub hash_to_hex : List ℕ → Bool → List ℕ
hash_to_hex hash with_prefix = hex_prefix with_prefix ++ print_bytes hash

pub read_digits : List ℕ → ℕ → Bool × ℕ
read_digits [] value = (true, value)
read_digits (c ∷ str) value = elim (hex_char_to_value c) [
  | none ↦ (false, value)
  | some val ↦ read_digits str (bit_or (u64 (value * 2 ^ 4)) val)
]

pub hex_to_uint64 : List ℕ → ℕ → Bool × ℕ
hex_to_uint64 hex_str value =
    let str = strip_prefix hex_str in
    if length str == 0 || ltb 16 (length str) then (false, value) else read_digits str 0

pub uint64_to_hex : ℕ → Bool → List ℕ
uint64_to_hex value with_prefix = hex_prefix with_prefix ++ print_hex 16 value

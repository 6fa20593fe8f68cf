-- ===== src/Hex/Print.antt =====
-- Hashes printed as hexadecimal texts read as themselves.
use ohmy_miner_etc.Common.{
  ℕ, ◌+◌, ◌*◌, ◌/◌, ◌%◌, ◌<◌, ◌≡◌, refl, ap, ◌∙◌, List, [], ◌∷◌, ◌++◌, some, Bool, true, arith,
  length, IsBytes,
}
use ohmy_miner_etc.Hex.{
  hex_digit, strip_prefix, pad_zeros, hex_to_bytes, hex_to_hash32, hex_to_hash64, hex_prefix,
  print_bytes, print_hex, hash_to_hex,
}
use ohmy_miner_etc.Hex.Digits.{
  hex_value, hex_value_step, hex_char_to_value-hex_digit, strip_prefix-hex_prefix,
}
use ohmy_miner_etc.Hex.Hash.{
  be_value, be_value-injective, too_long, bad_digit, reads, hex_to_bytes_reads,
}

byte_text :
    (b : ℕ) → b < 256 → pad_zeros 2 (print_hex 16 b) ≡ hex_digit (b / 16) ∷ hex_digit (b % 16) ∷ []
unfolding pad_zeros print_hex hex_digit
byte_text b h = ground arith

print_bytes_cons :
    (b : ℕ) (hash : List ℕ)
    → b < 256
    → print_bytes (b ∷ hash) ≡ hex_digit (b / 16) ∷ hex_digit (b % 16) ∷ print_bytes hash
unfolding print_bytes
print_bytes_cons b hash h = rw (byte_text b h)

length-print_bytes : (hash : List ℕ) → IsBytes hash → length (print_bytes hash) ≡ 2 * length hash
unfolding print_bytes
length-print_bytes [] h = refl
length-print_bytes (b ∷ hash) h = rw (byte_text b h.0) (omega (arith, length-print_bytes hash h.1))

hex_value-print_bytes :
    (acc : ℕ) (hash : List ℕ)
    → IsBytes hash
    → hex_value acc (print_bytes hash) ≡ some (be_value acc hash)
hex_value-print_bytes acc [] h = unfold print_bytes hex_value be_value in refl
hex_value-print_bytes acc (b ∷ hash) h =
    ap (hex_value acc) (print_bytes_cons b hash h.0)
    ∙ hex_value_step acc (hex_digit (b / 16)) (b / 16) _
        (hex_char_to_value-hex_digit (b / 16) (omega (arith, h.0)))
    ∙ hex_value_step (acc * 16 + b / 16) (hex_digit (b % 16)) (b % 16) _
        (hex_char_to_value-hex_digit (b % 16) (omega arith))
    ∙ ap (λ (t : ℕ). hex_value t (print_bytes hash)) value
    ∙ hex_value-print_bytes (acc * 256 + b) hash h.1
    ∙ unfold be_value in refl
  where
    value : (acc * 16 + b / 16) * 16 + b % 16 ≡ acc * 256 + b
    value = omega arith

hex_to_bytes-hash_to_hex :
    (n : ℕ) (hash old : List ℕ) (with_prefix : Bool)
    → length hash ≡ n
    → length old ≡ n
    → IsBytes hash
    → hex_to_bytes n (hash_to_hex hash with_prefix) old ≡ (true, hash)
unfolding hash_to_hex
hex_to_bytes-hash_to_hex n hash old with_prefix e eo h = elim (hex_to_bytes_reads n text old eo) [
  | too_long long _ ↦ absurd (omega (arith, ap length stripped, length-print_bytes hash h))
  | bad_digit _ bad _ ↦ absurd (ground (arith, worth, bad))
  | reads v read _ good same in_range worth' result ↦
      result
      ∙ ap (λ l. (true, l))
          (be_value-injective 0 0 read hash (omega arith) in_range h
            (ground (arith, worth, good))).1
]
  where
    text : List ℕ
    text = hex_prefix with_prefix ++ print_bytes hash

    stripped : strip_prefix text ≡ print_bytes hash
    stripped =
        strip_prefix-hex_prefix with_prefix (print_bytes hash) (be_value 0 hash)
          (hex_value-print_bytes 0 hash h)

    worth : hex_value 0 (strip_prefix text) ≡ some (be_value 0 hash)
    worth = ap (hex_value 0) stripped ∙ hex_value-print_bytes 0 hash h

-- A hash of 32 bytes that is printed, with or without "0x", reads as itself, whatever the 32 bytes
-- that it is read over.
pub hex_to_hash32-hash_to_hex :
    (hash old : List ℕ) (with_prefix : Bool)
    → length hash ≡ 32
    → length old ≡ 32
    → IsBytes hash
    → hex_to_hash32 (hash_to_hex hash with_prefix) old ≡ (true, hash)
unfolding hex_to_hash32
hex_to_hash32-hash_to_hex hash old with_prefix = hex_to_bytes-hash_to_hex 32 hash old with_prefix

-- A hash of 64 bytes that is printed, with or without "0x", reads as itself, whatever the 64 bytes
-- that it is read over.
pub hex_to_hash64-hash_to_hex :
    (hash old : List ℕ) (with_prefix : Bool)
    → length hash ≡ 64
    → length old ≡ 64
    → IsBytes hash
    → hex_to_hash64 (hash_to_hex hash with_prefix) old ≡ (true, hash)
unfolding hex_to_hash64
hex_to_hash64-hash_to_hex hash old with_prefix = hex_to_bytes-hash_to_hex 64 hash old with_prefix

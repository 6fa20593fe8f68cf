-- ===== src/Hex/Tests.antt =====
-- Runs of src/utils/hex_utils.cpp, those of tests/unit/test_hex_utils.cpp among them.
use ohmy_miner_etc.Common.{ℕ, ◌≡◌, refl, List, [], ◌∷◌, ◌++◌, true, false, arith, codes, replicate}
use ohmy_miner_etc.Hex.{
  hex_to_hash32, hash_to_hex, hex_to_uint64, uint64_to_hex, decode_pairs, strip_prefix, pad_zeros,
  hex_char_to_value, print_hex, hex_digit, hex_prefix, read_digits,
}
use ohmy_miner_etc.Hex.Hash.{HashReading, hex_to_hash32_reads}
use ohmy_miner_etc.Hex.Print.{hex_to_hash32-hash_to_hex}

abbrev blank32 : List ℕ
blank32 = replicate 32 0

abbrev sample32 : List ℕ
sample32 = replicate 30 0 ++ 0x12 ∷ 0xff ∷ []

short_text_is_padded : hex_to_hash32 (codes "0x12ff") blank32 ≡ (true, sample32)
unfolding hex_to_hash32 decode_pairs strip_prefix pad_zeros hex_char_to_value
short_text_is_padded = refl

bad_digit_fails : (hex_to_hash32 (codes "0x12fg") blank32).0 ≡ false
unfolding hex_to_hash32 decode_pairs strip_prefix pad_zeros hex_char_to_value
bad_digit_fails = refl

number_is_read : hex_to_uint64 (codes "0x1234567890abcdef") 7 ≡ (true, 0x1234567890abcdef)
unfolding hex_to_uint64 strip_prefix read_digits hex_char_to_value
number_is_read = refl

number_is_printed : uint64_to_hex 0x1234567890abcdef true ≡ codes "0x1234567890abcdef"
unfolding uint64_to_hex print_hex hex_prefix hex_digit
number_is_printed = refl

hex_to_hash32_reads_example :
    HashReading 32 (codes "0x12ff") blank32 (hex_to_hash32 (codes "0x12ff") blank32)
hex_to_hash32_reads_example = hex_to_hash32_reads (codes "0x12ff") blank32 (omega arith)

hex_to_hash32-hash_to_hex_example :
    hex_to_hash32 (hash_to_hex sample32 true) blank32 ≡ (true, sample32)
hex_to_hash32-hash_to_hex_example =
    hex_to_hash32-hash_to_hex sample32 blank32 true (omega arith) (omega arith) (omega arith)

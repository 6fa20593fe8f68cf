-- ===== src/Engine/Difficulty.antt =====
-- src/utils/difficulty.cpp, and the target of `OHMY_DEBUG_TARGET_HEX` in `onDifficultyUpdate`.
use ohmy_miner_etc.Common.{
  ℕ, zero, suc, ◌+◌, ◌-◌, ◌*◌, List, [], ◌∷◌, ◌&&◌, ◌||◌, Option, none, some, if◌then◌else◌, leb,
  ◌==◌, length, take, drop, replicate, u8,
}
use ohmy_miner_etc.Hex.{hex_char_to_value, strip_prefix}

unfoldable pub target_from_difficulty : ℕ → List ℕ
target_from_difficulty difficulty =
    if difficulty == 1
    then replicate 32 255
    else if difficulty == 2
    then 128 ∷ replicate 31 0
    else replicate 32 255

pub skip_blanks : List ℕ → List ℕ
skip_blanks [] = []
skip_blanks (c ∷ text) =
    let rest = skip_blanks text in if c == 32 || (leb 9 c && leb c 13) then rest else c ∷ text

pub hex_digits : ℕ → List ℕ → ℕ
hex_digits value [] = value
hex_digits value (c ∷ text) = elim (hex_char_to_value c) [
  | none ↦ value
  | some d ↦ hex_digits (value * 16 + d) text
]

-- `strtoul` in base 16, cast to a byte, of a text of two characters: for it, a prefix "0x" reads as
-- the digit 0.
pub signed_byte : List ℕ → ℕ
unfolding hex_digits
signed_byte [] = 0
signed_byte (c ∷ text) =
    if c == b'-'
    then u8 (256 - u8 (hex_digits 0 text))
    else if c == b'+'
    then u8 (hex_digits 0 text)
    else u8 (hex_digits 0 (c ∷ text))

pub byte_of : List ℕ → ℕ
unfolding signed_byte skip_blanks
byte_of text = signed_byte (skip_blanks text)

pub target_bytes : ℕ → List ℕ → List ℕ
unfolding byte_of
target_bytes zero hex = []
target_bytes (suc n) hex = byte_of (take 2 hex) ∷ target_bytes n (drop 2 hex)

pub debug_target : Option (List ℕ) → Option (List ℕ)
unfolding target_bytes
debug_target none = none
debug_target (some text) =
    let hex = strip_prefix text in if length hex == 64 then some (target_bytes 32 hex) else none

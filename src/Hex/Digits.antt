-- ===== src/Hex/Digits.antt =====
-- Hexadecimal digits: what a text of digits is worth, and the characters that are none.
use ohmy_miner_etc.Common.{
  ℕ, zero, suc, ◌+◌, ◌*◌, ◌<◌, ◌≡◌, refl, List, [], ◌∷◌, ◌++◌, Option, none, some, Bool, true,
  false, inl, inr, arith, replicate, Option-cases,
}
use ohmy_miner_etc.Hex.{hex_char_to_value, hex_digit, hex_prefix, strip_prefix}

-- What a text is worth in base 16, `acc` standing for the digits before it; `none` if a character
-- is no digit.
unfoldable pub hex_value : ℕ → List ℕ → Option ℕ
hex_value acc [] = some acc
hex_value acc (c ∷ str) = elim (hex_char_to_value c) [
  | none ↦ none
  | some d ↦ hex_value (acc * 16 + d) str
]

pub hex_char_to_value-lt : (c d : ℕ) → hex_char_to_value c ≡ some d → d < 16
unfolding hex_char_to_value
hex_char_to_value-lt c d h = ground arith

pub hex_char_to_value-hex_digit : (d : ℕ) → d < 16 → hex_char_to_value (hex_digit d) ≡ some d
unfolding hex_char_to_value hex_digit
hex_char_to_value-hex_digit d h = ground arith

pub hex_value-cons :
    (acc c : ℕ) (str : List ℕ) (v : ℕ)
    → hex_value acc (c ∷ str) ≡ some v
    → (d : ℕ) × (hex_char_to_value c ≡ some d) × (hex_value (acc * 16 + d) str ≡ some v)
unfolding hex_value
hex_value-cons acc c str v h = elim (Option-cases (hex_char_to_value c)) [
  | inl e ↦ absurd (ground arith)
  | inr (d, e) ↦ (d, e, ground arith)
]

pub hex_value_step :
    (acc c d : ℕ) (str : List ℕ)
    → hex_char_to_value c ≡ some d
    → hex_value acc (c ∷ str) ≡ hex_value (acc * 16 + d) str
unfolding hex_value
hex_value_step acc c d str h = rw (h, hex_value)

pub hex_value-append :
    (acc : ℕ) (xs ys : List ℕ) (v : ℕ)
    → hex_value acc xs ≡ some v
    → hex_value acc (xs ++ ys) ≡ hex_value v ys
unfolding hex_value
hex_value-append acc [] ys v h = ground arith
hex_value-append acc (c ∷ xs) ys v h = elim (Option-cases (hex_char_to_value c)) [
  | inl e ↦ ground arith
  | inr (d, e) ↦ ground (arith, hex_value-append (acc * 16 + d) xs ys v)
]

-- Leading zeros are worth nothing.
pub hex_value-replicate :
    (n : ℕ) (str : List ℕ) → hex_value 0 (replicate n b'0' ++ str) ≡ hex_value 0 str
unfolding hex_value hex_char_to_value
hex_value-replicate zero str = refl
hex_value-replicate (suc n) str = hex_value-replicate n str

-- A digit is never the `x` of a prefix, so a text of digits keeps its first two characters.
pub strip_prefix_digits :
    (acc : ℕ) (str : List ℕ) (v : ℕ) → hex_value acc str ≡ some v → strip_prefix str ≡ str
unfolding strip_prefix hex_value hex_char_to_value
strip_prefix_digits acc [] v h = refl
strip_prefix_digits acc (a ∷ []) v h = refl
strip_prefix_digits acc (a ∷ b ∷ str) v h = ground arith

pub strip_prefix-hex_prefix :
    (with_prefix : Bool) (str : List ℕ) (v : ℕ)
    → hex_value 0 str ≡ some v
    → strip_prefix (hex_prefix with_prefix ++ str) ≡ str
unfolding strip_prefix hex_prefix
strip_prefix-hex_prefix true str v h = refl
strip_prefix-hex_prefix false str v h = strip_prefix_digits 0 str v h

-- ===== src/Hex/Number.antt =====
-- 64-bit numbers as hexadecimal texts: `hexToUint64` and `uint64ToHex`.
use native.Mathlib.Nat.{pow-suc, one-le-pow}
use native.Mathlib.Decide.{dec_le}
use ohmy_miner_etc.Common.{
  ℕ, zero, suc, ◌+◌, ◌*◌, ◌/◌, ◌%◌, ◌^◌, ◌<◌, ◌≤◌, ◌≡◌, refl, ap, ◌∙◌, List, [], ◌∷◌, ◌++◌, none,
  some, Bool, true, false, ◌⊎◌, arith, length, u64, Option-cases, inl, inr, bit_or, length-append,
  ltb, Bool-cases, ltb→lt,
}
use ohmy_miner_etc.Common.Bits.{bit_or_shifted}
use ohmy_miner_etc.Hex.{
  hex_char_to_value, hex_digit, strip_prefix, hex_prefix, print_hex, read_digits, hex_to_uint64,
  uint64_to_hex,
}
use ohmy_miner_etc.Hex.Digits.{
  hex_value, hex_value-cons, hex_value_step, hex_value-append, hex_char_to_value-lt,
  hex_char_to_value-hex_digit, strip_prefix-hex_prefix,
}

-- A number read in base 16 is at least what stood before it, and grows by 16 for each digit.
hex_value-ge : (acc : ℕ) (str : List ℕ) (v : ℕ) → hex_value acc str ≡ some v → acc ≤ v
hex_value-ge acc [] v h = unfold hex_value in ground arith
hex_value-ge acc (c ∷ str) v h =
    let (d, e, t) = hex_value-cons acc c str v h in
    omega (arith, hex_value-ge (acc * 16 + d) str v t)

scale : (a b p : ℕ) → a ≤ b → a * p ≤ b * p
scale a b p h = grind arith

hex_value-lt :
    (n acc : ℕ) (str : List ℕ) (v : ℕ)
    → length str ≤ n
    → hex_value acc str ≡ some v
    → v < (acc + 1) * 16 ^ n
hex_value-lt n acc [] v l h =
    let e : acc ≡ v = unfold hex_value in ground arith in
    omega (arith, scale 1 (16 ^ n) (acc + 1) (one-le-pow n 16 (omega arith)), e)
hex_value-lt zero acc (c ∷ str) v l h = absurd (omega arith)
hex_value-lt (suc n) acc (c ∷ str) v l h =
    let (d, e, t) = hex_value-cons acc c str v h in
    omega (
      arith,
      hex_value-lt n (acc * 16 + d) str v (omega arith) t,
      scale (acc * 16 + d + 1) ((acc + 1) * 16) (16 ^ n)
          (omega (arith, hex_char_to_value-lt c d e)),
      ap (λ (p : ℕ). (acc + 1) * p) (pow-suc 16 n),
    )

read_digits_step :
    (c d acc : ℕ) (str : List ℕ)
    → hex_char_to_value c ≡ some d
    → acc * 16 + d < 2 ^ 64
    → read_digits (c ∷ str) acc ≡ read_digits str (acc * 16 + d)
unfolding read_digits
read_digits_step c d acc str e h = rw (e, read_digits) (ap (read_digits str) sum)
  where
    sum : bit_or (u64 (acc * 2 ^ 4)) d ≡ acc * 16 + d
    sum =
        let fits : u64 (acc * 2 ^ 4) ≡ acc * 2 ^ 4 = omega arith in
        rw fits (omega (arith, bit_or_shifted 4 acc d (omega (arith, hex_char_to_value-lt c d e))))

-- With no overflow on the way the loop computes the number.
read_digits-value :
    (str : List ℕ) (acc v : ℕ)
    → v < 2 ^ 64
    → hex_value acc str ≡ some v
    → read_digits str acc ≡ (true, v)
read_digits-value [] acc v p h = unfold read_digits hex_value in ground arith
read_digits-value (c ∷ str) acc v p h =
    let (d, e, t) = hex_value-cons acc c str v h in
    read_digits_step c d acc str e (omega (arith, hex_value-ge (acc * 16 + d) str v t))
    ∙ read_digits-value str (acc * 16 + d) v p t

read_digits_bad :
    (str : List ℕ) (acc value : ℕ) → hex_value acc str ≡ none → (read_digits str value).0 ≡ false
unfolding read_digits hex_value
read_digits_bad [] acc value h = ground arith
read_digits_bad (c ∷ str) acc value h = elim (Option-cases (hex_char_to_value c)) [
  | inl e ↦ ground arith
  | inr (d, e) ↦ ground (arith, read_digits_bad str (acc * 16 + d) (bit_or (u64 (value * 2 ^ 4)) d))
]

-- The outcomes of reading a 64-bit number.
pub data NumberReading (hex_str : List ℕ) (old : ℕ) (result : Bool × ℕ) : Type 0 where
  bad_size :
      (strip_prefix hex_str ≡ []) ⊎ (16 < length (strip_prefix hex_str))
      → result ≡ (false, old)
      → NumberReading hex_str old result
  bad_digit :
      0 < length (strip_prefix hex_str)
      → length (strip_prefix hex_str) ≤ 16
      → hex_value 0 (strip_prefix hex_str) ≡ none
      → result.0 ≡ false
      → NumberReading hex_str old result
  reads :
      (v : ℕ)
      → 0 < length (strip_prefix hex_str)
      → length (strip_prefix hex_str) ≤ 16
      → hex_value 0 (strip_prefix hex_str) ≡ some v
      → v < 2 ^ 64
      → result ≡ (true, v)
      → NumberReading hex_str old result

number_cases :
    (hex_str : List ℕ) (old : ℕ) (str : List ℕ)
    → strip_prefix hex_str ≡ str
    → NumberReading hex_str old (hex_to_uint64 hex_str old)
number_cases hex_str old [] e = bad_size (inl e) (unfold hex_to_uint64 in rw e)
number_cases hex_str old (c ∷ str) e = elim (dec_le (length (c ∷ str)) 16) [
  | no long ↦ bad_size (inr (rw e (omega arith))) (unfold hex_to_uint64 in rw e (ground arith))
  | yes fits ↦ elim (Option-cases (hex_value 0 (c ∷ str))) [
    | inl bad ↦
        bad_digit (rw e (omega arith)) (rw e fits) (rw e bad)
          (ap (λ r. r.0) (enters fits) ∙ read_digits_bad (c ∷ str) 0 0 bad)
    | inr (v, good) ↦
        reads v (rw e (omega arith)) (rw e fits) (rw e good)
          (omega (arith, hex_value-lt 16 0 (c ∷ str) v fits good))
          (enters fits
            ∙ read_digits-value (c ∷ str) 0 v
                (omega (arith, hex_value-lt 16 0 (c ∷ str) v fits good)) good)
  ]
]
  where
    enters : length (c ∷ str) ≤ 16 → hex_to_uint64 hex_str old ≡ read_digits (c ∷ str) 0
    enters fits = unfold hex_to_uint64 in rw e (ground arith)

-- Reading any text as a 64-bit number: without an "0x", no character or more than 16 leave the old
-- value and give false; a character that is no hexadecimal digit gives false; otherwise the result is
-- true and the value is the number that the digits denote, below 2^64.
pub hex_to_uint64_reads :
    (hex_str : List ℕ) (old : ℕ) → NumberReading hex_str old (hex_to_uint64 hex_str old)
hex_to_uint64_reads hex_str old = number_cases hex_str old (strip_prefix hex_str) refl

print_hex_small : (n v : ℕ) → ltb v 16 ≡ true → print_hex (suc n) v ≡ hex_digit v ∷ []
unfolding print_hex
print_hex_small n v h = rw h

print_hex_large :
    (n v : ℕ)
    → ltb v 16 ≡ false
    → print_hex (suc n) v ≡ print_hex n (v / 16) ++ hex_digit (v % 16) ∷ []
unfolding print_hex
print_hex_large n v h = rw h

hex_value-print_hex : (n v : ℕ) → v < 16 ^ n → hex_value 0 (print_hex n v) ≡ some v
hex_value-print_hex zero v h = unfold print_hex hex_value in ap some (omega arith)
hex_value-print_hex (suc n) v h = elim (Bool-cases (ltb v 16)) [
  | inl small ↦
      ap (hex_value 0) (print_hex_small n v small)
      ∙ hex_value_step 0 (hex_digit v) v [] (hex_char_to_value-hex_digit v (ltb→lt v 16 small))
      ∙ unfold hex_value in ap some (omega arith)
  | inr large ↦
      ap (hex_value 0) (print_hex_large n v large)
      ∙ hex_value-append 0 (print_hex n (v / 16)) (hex_digit (v % 16) ∷ []) (v / 16)
          (hex_value-print_hex n (v / 16) (omega (arith, pow-suc 16 n)))
      ∙ hex_value_step (v / 16) (hex_digit (v % 16)) (v % 16) []
          (hex_char_to_value-hex_digit (v % 16) (omega arith))
      ∙ unfold hex_value in ap some (omega arith)
]

length-print_hex : (n v : ℕ) → (length (print_hex n v) ≤ n)
unfolding print_hex
length-print_hex zero v = omega arith
length-print_hex (suc n) v = ground (
  arith,
  length-append (print_hex n (v / 16)) (hex_digit (v % 16) ∷ []),
  length-print_hex n (v / 16),
)

print_hex-pos : (n v : ℕ) → 0 < length (print_hex (suc n) v)
unfolding print_hex
print_hex-pos n v = ground (arith, length-append (print_hex n (v / 16)) (hex_digit (v % 16) ∷ []))

-- A 64-bit number that is printed, with or without "0x", reads as itself.
pub hex_to_uint64-uint64_to_hex :
    (v old : ℕ) (with_prefix : Bool)
    → v < 2 ^ 64
    → hex_to_uint64 (uint64_to_hex v with_prefix) old ≡ (true, v)
unfolding uint64_to_hex
hex_to_uint64-uint64_to_hex v old with_prefix h = elim (hex_to_uint64_reads text old) [
  | bad_size (inl e) _ ↦ absurd (omega (arith, ap length e, ap length stripped, print_hex-pos 15 v))
  | bad_size (inr long) _ ↦ absurd (omega (arith, ap length stripped, length-print_hex 16 v))
  | bad_digit _ _ bad _ ↦ absurd (ground (arith, worth, bad))
  | reads read _ _ good _ result ↦ result ∙ ap (λ (t : ℕ). (true, t)) (ground (arith, worth, good))
]
  where
    text : List ℕ
    text = hex_prefix with_prefix ++ print_hex 16 v

    stripped : strip_prefix text ≡ print_hex 16 v
    stripped =
        strip_prefix-hex_prefix with_prefix (print_hex 16 v) v
          (hex_value-print_hex 16 v (omega arith))

    worth : hex_value 0 (strip_prefix text) ≡ some v
    worth = ap (hex_value 0) stripped ∙ hex_value-print_hex 16 v (omega arith)

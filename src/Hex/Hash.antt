-- ===== src/Hex/Hash.antt =====
-- Hashes as hexadecimal texts: what `hexToHash32` and `hexToHash64` read.
use ohmy_miner_etc.Common.{
  ℕ, zero, suc, ◌+◌, ◌-◌, ◌*◌, ◌^◌, ◌<◌, ◌≤◌, ◌≡◌, refl, ap, ap₂, ◌∙◌, List, [], bit_or, ◌∷◌, ◌++◌,
  none, some, Bool, true, false, arith, replicate, length, set, u8, IsBytes, Option-cases, inl, inr,
  append_assoc, length-append, length-replicate,
}
use native.Mathlib.Decide.{dec_le}
use ohmy_miner_etc.Common.Bits.{bit_or_shifted}
use ohmy_miner_etc.Hex.{
  hex_char_to_value, strip_prefix, pad_zeros, decode_pairs, hex_to_bytes, hex_to_hash32,
  hex_to_hash64,
}
use ohmy_miner_etc.Hex.Digits.{hex_value, hex_value-cons, hex_char_to_value-lt, hex_value-replicate}

-- The big-endian number of a string of bytes, after the number `acc`.
unfoldable pub be_value : ℕ → List ℕ → ℕ
be_value acc [] = acc
be_value acc (b ∷ bytes) = be_value (acc * 256 + b) bytes

pub be_value-injective :
    (a b : ℕ) (xs ys : List ℕ)
    → length xs ≡ length ys
    → IsBytes xs
    → IsBytes ys
    → be_value a xs ≡ be_value b ys
    → (a ≡ b) × (xs ≡ ys)
unfolding be_value
be_value-injective a b [] [] e p q h = (h, refl)
be_value-injective a b [] (y ∷ ys) e p q h = absurd (omega arith)
be_value-injective a b (x ∷ xs) [] e p q h = absurd (omega arith)
be_value-injective a b (x ∷ xs) (y ∷ ys) e p q h =
    let ih = be_value-injective (a * 256 + x) (b * 256 + y) xs ys (omega arith) p.1 q.1 h in
    (omega (arith, ih.0, p.0, q.0), ap₂ ◌∷◌ (omega (arith, ih.0, p.0, q.0)) ih.1)

set_middle :
    (done : List ℕ) (r v : ℕ) (rest : List ℕ)
    → set (done ++ r ∷ rest) (length done) v ≡ (done ++ v ∷ []) ++ rest
set_middle [] r v rest = refl
set_middle (x ∷ done) r v rest = ap (◌∷◌ x) (set_middle done r v rest)

pair_byte : (high low : ℕ) → high < 16 → low < 16 → u8 (bit_or (high * 2 ^ 4) low) ≡ high * 16 + low
pair_byte high low p q = omega (arith, bit_or_shifted 4 high low q)

-- What the loop leaves in the array when it starts behind `done`.
record Decodes (acc v : ℕ) (done rest : List ℕ) (result : Bool × List ℕ) : Type 0 where
  pub bytes : List ℕ
  pub returns : result ≡ (true, done ++ bytes)
  pub same_length : length bytes ≡ length rest
  pub in_range : IsBytes bytes
  pub worth : be_value acc bytes ≡ v

decode_pairs_step :
    (i c d high low : ℕ) (str hash : List ℕ)
    → hex_char_to_value c ≡ some high
    → hex_char_to_value d ≡ some low
    → decode_pairs i (c ∷ d ∷ str) hash ≡ decode_pairs (i + 1) str (set hash i (high * 16 + low))
unfolding decode_pairs
decode_pairs_step i c d high low str hash p q =
    ground (arith, hex_char_to_value-lt c high, hex_char_to_value-lt d low, pair_byte high low)

be_value_pair :
    (acc high low : ℕ) (bytes : List ℕ)
    → be_value acc ((high * 16 + low) ∷ bytes) ≡ be_value ((acc * 16 + high) * 16 + low) bytes
unfolding be_value
be_value_pair acc high low bytes = ap (λ (t : ℕ). be_value t bytes) (omega arith)

decode_pairs-Decodes :
    (str : List ℕ) (acc v : ℕ) (done rest : List ℕ)
    → length str ≡ 2 * length rest
    → hex_value acc str ≡ some v
    → Decodes acc v done rest (decode_pairs (length done) str (done ++ rest))
decode_pairs-Decodes [] acc v done [] e h = record {
  bytes = [];
  returns = unfold decode_pairs in refl;
  same_length = refl;
  in_range = tt;
  worth = unfold be_value hex_value in ground arith;
}
decode_pairs-Decodes [] acc v done (r ∷ rest) e h = absurd (omega arith)
decode_pairs-Decodes (c ∷ []) acc v done rest e h = absurd (omega arith)
decode_pairs-Decodes (c ∷ d ∷ str) acc v done [] e h = absurd (omega arith)
decode_pairs-Decodes (c ∷ d ∷ str) acc v done (r ∷ rest) e h =
    let (high, ec, hc) = hex_value-cons acc c (d ∷ str) v h in
    let (low, ed, hd) = hex_value-cons (acc * 16 + high) d str v hc in
    let byte : ℕ = high * 16 + low in
    let ih =
      decode_pairs-Decodes str ((acc * 16 + high) * 16 + low) v (done ++ byte ∷ []) rest
        (omega arith) hd in
    record {
      bytes = byte ∷ ih.bytes;
      returns =
          decode_pairs_step (length done) c d high low str (done ++ r ∷ rest) ec ed
          ∙ ap₂ (λ k l. decode_pairs k str l) (omega (arith, length-append done (byte ∷ [])))
              (set_middle done r byte rest)
          ∙ ih.returns
          ∙ ap (λ l. (true, l)) (append_assoc done (byte ∷ []) ih.bytes);
      same_length = ap suc ih.same_length;
      in_range = (
        omega (arith, hex_char_to_value-lt c high ec, hex_char_to_value-lt d low ed),
        ih.in_range,
      );
      worth = be_value_pair acc high low ih.bytes ∙ ih.worth;
    }

decode_pairs_bad :
    (k : ℕ) (str : List ℕ) (acc i : ℕ) (hash : List ℕ)
    → length str ≡ 2 * k
    → hex_value acc str ≡ none
    → (decode_pairs i str hash).0 ≡ false
unfolding decode_pairs hex_value
decode_pairs_bad k [] acc i hash e h = ground arith
decode_pairs_bad k (c ∷ []) acc i hash e h = absurd (omega arith)
decode_pairs_bad zero (c ∷ d ∷ str) acc i hash e h = absurd (omega arith)
decode_pairs_bad (suc k) (c ∷ d ∷ str) acc i hash e h = elim (Option-cases (hex_char_to_value c)) [
  | inl ec ↦ ground arith
  | inr (high, ec) ↦ elim (Option-cases (hex_char_to_value d)) [
    | inl ed ↦ ground arith
    | inr (low, ed) ↦ ground (
      arith,
      decode_pairs_bad k str ((acc * 16 + high) * 16 + low) (i + 1)
          (set hash i (u8 (bit_or (high * 2 ^ 4) low))),
    )
  ]
]

-- The outcomes of reading a hash of `n` bytes from a text into the array `old`.
pub data HashReading (n : ℕ) (hex_str old : List ℕ) (result : Bool × List ℕ) : Type 0 where
  too_long :
      2 * n < length (strip_prefix hex_str)
      → result ≡ (false, old)
      → HashReading n hex_str old result
  bad_digit :
      length (strip_prefix hex_str) ≤ 2 * n
      → hex_value 0 (strip_prefix hex_str) ≡ none
      → result.0 ≡ false
      → HashReading n hex_str old result
  reads :
      (v : ℕ) (hash : List ℕ)
      → length (strip_prefix hex_str) ≤ 2 * n
      → hex_value 0 (strip_prefix hex_str) ≡ some v
      → length hash ≡ n
      → IsBytes hash
      → be_value 0 hash ≡ v
      → result ≡ (true, hash)
      → HashReading n hex_str old result

pub length-pad_zeros : (n : ℕ) (str : List ℕ) → length str ≤ n → length (pad_zeros n str) ≡ n
unfolding pad_zeros
length-pad_zeros n str h = omega (
  arith,
  length-append (replicate (n - length str) b'0') str,
  length-replicate {A = ℕ} (n - length str) b'0',
)

pub hex_value-pad_zeros : (n : ℕ) (str : List ℕ) → hex_value 0 (pad_zeros n str) ≡ hex_value 0 str
unfolding pad_zeros
hex_value-pad_zeros n str = hex_value-replicate (n - length str) str

pub pad_zeros_long : (n : ℕ) (str : List ℕ) → n < length str → pad_zeros n str ≡ str
unfolding pad_zeros
pad_zeros_long n str h = let e : n - length str ≡ 0 = omega arith in rw e

hex_to_bytes_fits :
    (n : ℕ) (hex_str old : List ℕ)
    → length (strip_prefix hex_str) ≤ 2 * n
    → hex_to_bytes n hex_str old ≡ decode_pairs 0 (pad_zeros (2 * n) (strip_prefix hex_str)) old
unfolding hex_to_bytes
hex_to_bytes_fits n hex_str old h = ground (arith, length-pad_zeros (2 * n) (strip_prefix hex_str))

hex_to_bytes_long :
    (n : ℕ) (hex_str old : List ℕ)
    → 2 * n < length (strip_prefix hex_str)
    → hex_to_bytes n hex_str old ≡ (false, old)
unfolding hex_to_bytes
hex_to_bytes_long n hex_str old h =
    rw (pad_zeros_long (2 * n) (strip_prefix hex_str) h) (ground arith)

pub hex_to_bytes_reads :
    (n : ℕ) (hex_str old : List ℕ)
    → length old ≡ n
    → HashReading n hex_str old (hex_to_bytes n hex_str old)
hex_to_bytes_reads n hex_str old e = elim (dec_le (length str) (2 * n)) [
  | no long ↦ too_long (omega arith) (hex_to_bytes_long n hex_str old (omega arith))
  | yes fits ↦ elim (Option-cases (hex_value 0 str)) [
    | inl bad ↦ bad_digit fits bad (
        rw (hex_to_bytes_fits n hex_str old fits) (
          decode_pairs_bad n (pad_zeros (2 * n) str) 0 0 old (length-pad_zeros (2 * n) str fits)
            (hex_value-pad_zeros (2 * n) str ∙ bad)))
    | inr (v, good) ↦
        let d : Decodes 0 v [] old (decode_pairs 0 (pad_zeros (2 * n) str) old) =
          decode_pairs-Decodes (pad_zeros (2 * n) str) 0 v [] old
            (omega (arith, length-pad_zeros (2 * n) str fits))
            (hex_value-pad_zeros (2 * n) str ∙ good) in
        reads v d.bytes fits good (d.same_length ∙ e) d.in_range d.worth
          (hex_to_bytes_fits n hex_str old fits ∙ d.returns)
  ]
]
  where
    str : List ℕ
    str = strip_prefix hex_str

-- Reading any text as a 32-byte hash, over an old value of 32 bytes: without an "0x" and with zeros in
-- front it has to be 64 characters, or nothing changes; if all of them are hexadecimal digits the
-- result is true and the hash is 32 bytes with the big-endian value that they denote; if some
-- character is no digit the result is false.
pub hex_to_hash32_reads :
    (hex_str old : List ℕ)
    → length old ≡ 32
    → HashReading 32 hex_str old (hex_to_hash32 hex_str old)
unfolding hex_to_hash32
hex_to_hash32_reads hex_str old e = hex_to_bytes_reads 32 hex_str old e

-- Reading any text as a 64-byte hash, over an old value of 64 bytes: as for 32 bytes, with 128
-- characters.
pub hex_to_hash64_reads :
    (hex_str old : List ℕ)
    → length old ≡ 64
    → HashReading 64 hex_str old (hex_to_hash64 hex_str old)
unfolding hex_to_hash64
hex_to_hash64_reads hex_str old e = hex_to_bytes_reads 64 hex_str old e

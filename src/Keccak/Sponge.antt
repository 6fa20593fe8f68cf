-- ===== src/Keccak/Sponge.antt =====
-- The absorbing loop and the padding of `Keccak::keccak` against the sponge over whole blocks.
use native.Mathlib.Nat.{div-add-mod', mod-lt, div-le_self}
use ohmy_miner_etc.Common.{
  ℕ, zero, suc, ◌+◌, ◌-◌, ◌*◌, ◌/◌, ◌%◌, ◌<◌, ◌≤◌, ◌≡◌, refl, sym, ap, ap₂, ◌∙◌, List, [], ◌∷◌,
  ◌++◌, arith, length, foldl, true, false, take, drop, replicate, set, bit_xor, ltb, length-append,
  length-replicate, length-drop, take_all,
}
use ohmy_miner_etc.Keccak.{
  at, state_size, state_bytes, keccak, absorb_block, absorb_full, last_block, rate_of,
}

-- The bytes that fill a block of which `q` are left: 0x01, zeros, 0x80.
pub padding : ℕ → List ℕ
padding zero = []
padding (suc zero) = 0x81 ∷ []
padding (suc (suc zeros)) = 0x01 ∷ (replicate zeros 0 ++ 0x80 ∷ [])

-- The first `count` blocks of a text.
pub blocks : ℕ → ℕ → List ℕ → List (List ℕ)
blocks zero rate text = []
blocks (suc count) rate text = take rate text ∷ blocks count rate (drop rate text)

at-append : (xs ys : List ℕ) (j : ℕ) → at (xs ++ ys) (length xs + j) ≡ at ys j
at-append [] ys j = ap (at ys) (omega arith)
at-append (x ∷ xs) ys j =
    let e : suc (length xs) + j ≡ suc (length xs + j) = omega arith in rw e (at-append xs ys j)

set-append : (xs ys : List ℕ) (j v : ℕ) → set (xs ++ ys) (length xs + j) v ≡ xs ++ set ys j v
set-append [] ys j v = ap (λ (i : ℕ). set ys i v) (omega arith)
set-append (x ∷ xs) ys j v =
    let e : suc (length xs) + j ≡ suc (length xs + j) = omega arith in
    rw e (ap (◌∷◌ x) (set-append xs ys j v))

take-append : (xs ys : List ℕ) (j : ℕ) → take (length xs + j) (xs ++ ys) ≡ xs ++ take j ys
take-append [] ys j = ap (λ (i : ℕ). take i ys) (omega arith)
take-append (x ∷ xs) ys j =
    let e : suc (length xs) + j ≡ suc (length xs + j) = omega arith in
    rw e (ap (◌∷◌ x) (take-append xs ys j))

at-replicate : (m j : ℕ) → at (replicate m 0) j ≡ 0
at-replicate zero j = refl
at-replicate (suc m) zero = refl
at-replicate (suc m) (suc j) = at-replicate m j

take-set-replicate :
    (m j v : ℕ) → j < m → take (suc j) (set (replicate m 0) j v) ≡ replicate j 0 ++ v ∷ []
take-set-replicate zero j v h = absurd (omega arith)
take-set-replicate (suc m) zero v h = refl
take-set-replicate (suc m) (suc j) v h = ap (◌∷◌ 0) (take-set-replicate m j v (omega arith))

-- The tail that the two changes of `temp` leave.
marked : ℕ → ℕ → List ℕ
marked m i = set (1 ∷ replicate m 0) i (bit_xor (at (1 ∷ replicate m 0) i) 0x80)

marked-padding : (m i : ℕ) → i ≤ m → take (suc i) (marked m i) ≡ padding (suc i)
unfolding marked padding
marked-padding m zero h = refl
marked-padding m (suc j) h = rw (at-replicate m j) (ap (◌∷◌ 1) (take-set-replicate m j 0x80 h))

at_end : (xs : List ℕ) (y : ℕ) (ys : List ℕ) → at (xs ++ y ∷ ys) (length xs) ≡ y
at_end [] y ys = refl
at_end (x ∷ xs) y ys = at_end xs y ys

set_end : (xs : List ℕ) (y v : ℕ) (ys : List ℕ) → set (xs ++ y ∷ ys) (length xs) v ≡ xs ++ v ∷ ys
set_end [] y v ys = refl
set_end (x ∷ xs) y v ys = ap (◌∷◌ x) (set_end xs y v ys)

last_block_lem :
    (content : List ℕ) (q m : ℕ)
    → length content + suc m ≡ 200
    → q ≤ m
    → last_block (length content + suc q) content ≡ content ++ padding (suc q)
last_block_lem content q m e h =
    unfold last_block in
    rw (size, last, start)
      (rw
        (
          at-append content (1 ∷ replicate m 0) q,
          set-append content (1 ∷ replicate m 0) q (bit_xor (at (1 ∷ replicate m 0) q) 0x80),
          take-append content (set (1 ∷ replicate m 0) q (bit_xor (at (1 ∷ replicate m 0) q) 0x80))
              (suc q),
        )
        (ap (λ l. content ++ l) (unfold marked in marked-padding m q h)))
  where
    size : 200 - length content ≡ suc m
    size = omega arith

    last : length content + suc q - 1 ≡ length content + q
    last = omega arith

    start :
        set
          (content ++ replicate (suc m) 0)
          (length content)
          (bit_xor (at (content ++ replicate (suc m) 0) (length content)) 0x01)
        ≡ content ++ 1 ∷ replicate m 0
    start = rw (at_end content 0 (replicate m 0)) (set_end content 0 1 (replicate m 0))

-- A block with room left is filled by the padding.
last_block-padding :
    (content : List ℕ) (rate : ℕ)
    → length content < rate
    → rate ≤ 200
    → last_block rate content ≡ content ++ padding (rate - length content)
last_block-padding content rate h k =
    ap (λ (r : ℕ). last_block r content) (omega arith)
    ∙ last_block_lem content (rate - length content - 1) (199 - length content) (omega arith)
        (omega arith)
    ∙ ap (λ (q : ℕ). content ++ padding q) (omega arith)

length-padding : (q : ℕ) → length (padding q) ≡ q
unfolding padding
length-padding zero = refl
length-padding (suc zero) = refl
length-padding (suc (suc zeros)) =
    omega (
      arith,
      length-append {A = ℕ} (replicate zeros 0) (0x80 ∷ []),
      length-replicate {A = ℕ} zeros 0,
    )

take-append_long : (n : ℕ) (xs ys : List ℕ) → n ≤ length xs → take n (xs ++ ys) ≡ take n xs
take-append_long zero xs ys h = refl
take-append_long (suc n) [] ys h = absurd (omega arith)
take-append_long (suc n) (x ∷ xs) ys h = ap (◌∷◌ x) (take-append_long n xs ys (omega arith))

drop-append_long : (n : ℕ) (xs ys : List ℕ) → n ≤ length xs → drop n (xs ++ ys) ≡ drop n xs ++ ys
drop-append_long zero xs ys h = refl
drop-append_long (suc n) [] ys h = absurd (omega arith)
drop-append_long (suc n) (x ∷ xs) ys h = drop-append_long n xs ys (omega arith)

blocks-append :
    (count rate : ℕ) (xs ys : List ℕ)
    → rate ≤ length xs
    → blocks (suc count) rate (xs ++ ys) ≡ take rate xs ∷ blocks count rate (drop rate xs ++ ys)
unfolding blocks
blocks-append count rate xs ys h =
    ap₂ ◌∷◌ (take-append_long rate xs ys h) (ap (blocks count rate) (drop-append_long rate xs ys h))

-- One round of the loop, and its end.
absorb_full_step :
    (fuel rate : ℕ) (content state : List ℕ)
    → rate ≤ length content
    → absorb_full (suc fuel) rate content state
      ≡ absorb_full fuel rate (drop rate content) (absorb_block state (take rate content))
unfolding absorb_full
absorb_full_step fuel rate content state h =
    let e : ltb (length content) rate ≡ false = ground arith in rw e

absorb_full_end :
    (fuel rate : ℕ) (content state : List ℕ)
    → length content < rate
    → absorb_full fuel rate content state ≡ (state, content)
unfolding absorb_full
absorb_full_end zero rate content state h = refl
absorb_full_end (suc fuel) rate content state h =
    let e : ltb (length content) rate ≡ true = ground arith in rw e

-- The state after the last block.
abbrev finish : ℕ → List ℕ × List ℕ → List ℕ
finish rate p = absorb_block p.0 (last_block rate p.1)

module _ (rate : ℕ) (small : rate ≤ 200) where
  absorb_all :
      (k fuel r : ℕ) (content state : List ℕ)
      → k ≤ fuel
      → length content ≡ k * rate + r
      → r < rate
      → finish rate (absorb_full fuel rate content state)
        ≡ foldl absorb_block state (blocks (suc k) rate (content ++ padding (rate - r)))
  absorb_all zero fuel r content state f e h =
      ap (finish rate) (absorb_full_end fuel rate content state (omega arith))
      ∙ ap (absorb_block state) (
          last_block-padding content rate (omega arith) small
          ∙ ap (λ (q : ℕ). content ++ padding q) (omega arith)
          ∙ sym (
              take_all rate (content ++ padding (rate - r)) (
                omega
                  (arith, length-append content (padding (rate - r)), length-padding (rate - r)))))
      ∙ unfold blocks in refl
  absorb_all (suc k) zero r content state f e h = absurd (omega arith)
  absorb_all (suc k) (suc fuel) r content state f e h =
      ap (finish rate) (absorb_full_step fuel rate content state long)
      ∙ absorb_all k fuel r (drop rate content) (absorb_block state (take rate content))
          (omega arith) (omega (arith, length-drop rate content)) h
      ∙ sym (
          ap (foldl absorb_block state)
            (blocks-append (suc k) rate content (padding (rate - r)) long))
    where
      long : rate ≤ length content
      long = omega arith

-- The text that is absorbed: the input and a padding up to a whole number of blocks.
pub padded : ℕ → List ℕ → List ℕ
padded rate content = content ++ padding (rate - length content % rate)

pub padded_blocks : ℕ → List ℕ → List (List ℕ)
padded_blocks rate content = blocks (suc (length content / rate)) rate (padded rate content)

-- For every input and every output length from 1 to 99 bytes the absorbing loop and the last block
-- of `keccak` amount to absorbing, one after the other and from the zero state, the blocks of the
-- input padded by 0x01, zeros and 0x80 (by 0x81 where one byte is left); the output is the first
-- bytes of the state.
pub keccak_sponge :
    (content : List ℕ) (output_len : ℕ)
    → 0 < output_len
    → output_len < 100
    → keccak content output_len
      ≡ take output_len (
          state_bytes (
            foldl absorb_block
              (replicate state_size 0)
              (padded_blocks (rate_of output_len) content)))
unfolding padded_blocks padded
keccak_sponge content output_len lo hi =
    unfold keccak in
    ap (λ s. take output_len (state_bytes s))
      (absorb_all (rate_of output_len) (unfold rate_of in omega arith)
        (length content / rate_of output_len) (length content) (length content % rate_of output_len)
        content (replicate state_size 0) (div-le_self (length content) (rate_of output_len))
        (sym (div-add-mod' (length content) (rate_of output_len)))
        (mod-lt (length content) (unfold rate_of in omega arith)))

-- ===== src/Keccak.antt =====
-- include/ohmy/keccak.hpp and src/core/keccak.cpp: the Keccak-f[1600] permutation on 25 lanes, and the
-- sponge over it. The host is little-endian (x86-64), which the casts of the state to bytes rely on.
-- `x >> (64 - n)` at n = 0 is a shift by 64, which C++ leaves undefined: the count is taken modulo
-- 64, as the x86-64 shift instructions do.
pub mod Lanes
pub mod Round
pub mod Bounds
pub mod Sponge
mod Tests
use ohmy_miner_etc.Common.{
  ℕ, zero, suc, ◌+◌, ◌-◌, ◌*◌, ◌/◌, ◌%◌, ◌^◌, List, [], ◌∷◌, ◌++◌, map, foldl, Bool, bit_and,
  bit_or, bit_xor, if◌then◌else◌, ltb, get_or, set, take, drop, replicate, length, u8, u64, max_u64,
}

abbrev pub state_size : ℕ
state_size = 25

abbrev pub round_constants : List ℕ
round_constants =
    0x0000000000000001 ∷ 0x0000000000008082 ∷ 0x800000000000808a ∷ 0x8000000080008000
    ∷ 0x000000000000808b ∷ 0x0000000080000001 ∷ 0x8000000080008081 ∷ 0x8000000000008009
    ∷ 0x000000000000008a ∷ 0x0000000000000088 ∷ 0x0000000080008009 ∷ 0x000000008000000a
    ∷ 0x000000008000808b ∷ 0x800000000000008b ∷ 0x8000000000008089 ∷ 0x8000000000008003
    ∷ 0x8000000000008002 ∷ 0x8000000000000080 ∷ 0x000000000000800a ∷ 0x800000008000000a
    ∷ 0x8000000080008081 ∷ 0x8000000000008080 ∷ 0x0000000080000001 ∷ 0x8000000080008008 ∷ []

abbrev pub rotation_offsets : List ℕ
rotation_offsets =
    0 ∷ 1 ∷ 62 ∷ 28 ∷ 27 ∷ 36 ∷ 44 ∷ 6 ∷ 55 ∷ 20 ∷ 3 ∷ 10 ∷ 43 ∷ 25 ∷ 39 ∷ 41 ∷ 45 ∷ 15 ∷ 21 ∷ 8
    ∷ 18 ∷ 2 ∷ 61 ∷ 56 ∷ 14 ∷ []

unfoldable pub rotl64 : ℕ → ℕ → ℕ
rotl64 x n = bit_or (u64 (x * 2 ^ n)) (x / 2 ^ ((64 - n) % 64))

abbrev pub not64 : ℕ → ℕ
not64 x = max_u64 - x

-- `for (i = 0; i < 8; ++i) u |= (uint64_t)x[i] << (8 * i)`, from byte `i` on.
unfoldable pub load64_from : ℕ → List ℕ → ℕ → ℕ
load64_from i [] u = u
load64_from i (x ∷ bytes) u = load64_from (i + 1) bytes (bit_or u (u64 (x * 2 ^ (8 * i))))

unfoldable pub load64 : List ℕ → ℕ
unfolding load64_from
load64 bytes = load64_from 0 (take 8 bytes) 0

unfoldable pub store64_from : ℕ → ℕ → ℕ → List ℕ
store64_from zero i u = []
store64_from (suc left) i u = u8 (u / 2 ^ (8 * i)) ∷ store64_from left (i + 1) u

unfoldable pub store64 : ℕ → List ℕ
unfolding store64_from
store64 u = store64_from 8 0 u

-- The nested loops `for (x = 0; x < 5; ++x) for (y = 0; y < 5; ++y)`.
abbrev pub row : ℕ → List (ℕ × ℕ)
row x = (x, 0) ∷ (x, 1) ∷ (x, 2) ∷ (x, 3) ∷ (x, 4) ∷ []

abbrev pub cells : List (ℕ × ℕ)
cells = row 0 ++ row 1 ++ row 2 ++ row 3 ++ row 4

abbrev pub columns : List ℕ
columns = 0 ∷ 1 ∷ 2 ∷ 3 ∷ 4 ∷ []

abbrev pub at : List ℕ → ℕ → ℕ
at xs i = get_or xs i 0

unfoldable pub column_parity : List ℕ → ℕ → ℕ
column_parity state x =
    bit_xor
      (bit_xor (bit_xor (bit_xor (at state x) (at state (x + 5))) (at state (x + 10)))
        (at state (x + 15)))
      (at state (x + 20))

unfoldable pub theta : List ℕ → List ℕ
unfolding column_parity rotl64
theta state =
    let c = map (column_parity state) columns in
    let d = map (λ x. bit_xor (at c ((x + 4) % 5)) (rotl64 (at c ((x + 1) % 5)) 1)) columns in
    foldl (λ s p. set s (p.0 + 5 * p.1) (bit_xor (at s (p.0 + 5 * p.1)) (at d p.0))) state cells

-- The array `b` is uninitialised in the source.
unfoldable pub rho_pi_into : List ℕ → List ℕ → List ℕ
unfolding rotl64
rho_pi_into b state =
    foldl
      (λ s p.
        set s (p.1 + 5 * ((2 * p.0 + 3 * p.1) % 5))
          (rotl64 (at state (p.0 + 5 * p.1)) (at rotation_offsets (p.0 + 5 * p.1))))
      b cells

unfoldable pub chi : List ℕ → List ℕ → List ℕ
chi b state =
    foldl
      (λ s p. set s (p.0 + 5 * p.1) (
        bit_xor (at b (p.0 + 5 * p.1))
          (bit_and (not64 (at b ((p.0 + 1) % 5 + 5 * p.1))) (at b ((p.0 + 2) % 5 + 5 * p.1)))))
      state cells

unfoldable pub iota : ℕ → List ℕ → List ℕ
iota constant state = set state 0 (bit_xor (at state 0) constant)

unfoldable pub keccak_round : List ℕ → ℕ → List ℕ
unfolding theta rho_pi_into chi iota
keccak_round state constant =
    let mixed = theta state in
    let b = rho_pi_into (replicate state_size 0) mixed in iota constant (chi b mixed)

unfoldable pub keccak_f1600 : List ℕ → List ℕ
keccak_f1600 state = foldl keccak_round state round_constants

-- The state as the bytes that a `uint8_t*` sees, and back.
unfoldable pub state_bytes : List ℕ → List ℕ
state_bytes [] = []
state_bytes (lane ∷ state) = store64 lane ++ state_bytes state

unfoldable pub lanes_of : ℕ → List ℕ → List ℕ
lanes_of zero bytes = []
lanes_of (suc n) bytes = load64 bytes ∷ lanes_of n (drop 8 bytes)

-- Both absorbing loops: the first bytes of the state, as many as the block has, are changed.
unfoldable pub xor_bytes : List ℕ → List ℕ → List ℕ
xor_bytes bytes [] = bytes
xor_bytes [] (b ∷ block) = []
xor_bytes (s ∷ bytes) (b ∷ block) = bit_xor s b ∷ xor_bytes bytes block

unfoldable pub absorb_block : List ℕ → List ℕ → List ℕ
absorb_block state block = keccak_f1600 (lanes_of state_size (xor_bytes (state_bytes state) block))

-- `while (len >= rate)`, with the state and what is left of the data.
unfoldable pub absorb_full : ℕ → ℕ → List ℕ → List ℕ → List ℕ × List ℕ
absorb_full zero rate content state = (state, content)
absorb_full (suc fuel) rate content state =
    let rest = absorb_full fuel rate (drop rate content) (absorb_block state (take rate content)) in
    if ltb (length content) rate then (state, content) else rest

unfoldable pub last_block : ℕ → List ℕ → List ℕ
last_block rate content =
    let temp = content ++ replicate (200 - length content) 0 in
    let started = set temp (length content) (bit_xor (at temp (length content)) 0x01) in
    take rate (set started (rate - 1) (bit_xor (at started (rate - 1)) 0x80))

unfoldable pub rate_of : ℕ → ℕ
rate_of output_len = 200 - 2 * output_len

unfoldable pub keccak : List ℕ → ℕ → List ℕ
keccak content output_len =
    let rate = rate_of output_len in
    let (state, rest) = absorb_full (length content) rate content (replicate state_size 0) in
    take output_len (state_bytes (absorb_block state (last_block rate rest)))

unfoldable pub keccak256 : List ℕ → List ℕ
keccak256 content = keccak content 32

unfoldable pub keccak512 : List ℕ → List ℕ
keccak512 content = keccak content 64

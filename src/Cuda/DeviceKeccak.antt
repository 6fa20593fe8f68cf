-- ===== src/Cuda/DeviceKeccak.antt =====
-- src/cuda/kernels/keccak_dev.cuh, with the tables of src/cuda/kernels/keccak_constants.cu: Keccak on
-- the card. A card is little-endian, and a shift of a 64-bit word by 64 gives 0 there.
pub mod Host
pub mod Tests
use ohmy_miner_etc.Common.{
  ℕ, zero, suc, ◌+◌, ◌-◌, ◌*◌, ◌/◌, ◌%◌, ◌^◌, List, [], ◌∷◌, ◌++◌, map, foldl, bit_and, bit_or,
  bit_xor, if◌then◌else◌, ltb, set, take, drop, replicate, length, u32, u64,
}
use ohmy_miner_etc.Keccak.{at, cells, columns, not64, state_bytes, lanes_of, xor_bytes}

abbrev pub c_fnv_prime : ℕ
c_fnv_prime = 0x01000193

abbrev pub c_keccak_round_constants : List ℕ
c_keccak_round_constants =
    0x0000000000000001 ∷ 0x0000000000008082 ∷ 0x800000000000808a ∷ 0x8000000080008000
    ∷ 0x000000000000808b ∷ 0x0000000080000001 ∷ 0x8000000080008081 ∷ 0x8000000000008009
    ∷ 0x000000000000008a ∷ 0x0000000000000088 ∷ 0x0000000080008009 ∷ 0x000000008000000a
    ∷ 0x000000008000808b ∷ 0x800000000000008b ∷ 0x8000000000008089 ∷ 0x8000000000008003
    ∷ 0x8000000000008002 ∷ 0x8000000000000080 ∷ 0x000000000000800a ∷ 0x800000008000000a
    ∷ 0x8000000080008081 ∷ 0x8000000000008080 ∷ 0x0000000080000001 ∷ 0x8000000080008008 ∷ []

abbrev pub c_keccak_rotation_offsets : List ℕ
c_keccak_rotation_offsets =
    0 ∷ 1 ∷ 62 ∷ 28 ∷ 27 ∷ 36 ∷ 44 ∷ 6 ∷ 55 ∷ 20 ∷ 3 ∷ 10 ∷ 43 ∷ 25 ∷ 39 ∷ 41 ∷ 45 ∷ 15 ∷ 21 ∷ 8
    ∷ 18 ∷ 2 ∷ 61 ∷ 56 ∷ 14 ∷ []

pub rotl64_dev : ℕ → ℕ → ℕ
rotl64_dev x n = bit_or (u64 (x * 2 ^ n)) (x / 2 ^ (64 - n))

pub theta_dev : List ℕ → List ℕ
unfolding rotl64_dev
theta_dev state =
    let c =
      map
        (λ x.
          bit_xor
            (bit_xor (bit_xor (bit_xor (at state x) (at state (x + 5))) (at state (x + 10)))
              (at state (x + 15)))
            (at state (x + 20)))
        columns in
    let d = map (λ x. bit_xor (at c ((x + 4) % 5)) (rotl64_dev (at c ((x + 1) % 5)) 1)) columns in
    foldl (λ s p. set s (p.0 + 5 * p.1) (bit_xor (at s (p.0 + 5 * p.1)) (at d p.0))) state cells

-- A step of the loop over the cells, for a rotation.
pub rho_pi_cell : (ℕ → ℕ → ℕ) → List ℕ → List ℕ → ℕ × ℕ → List ℕ
rho_pi_cell rotate state s p =
    set s (p.1 + 5 * ((2 * p.0 + 3 * p.1) % 5))
      (rotate (at state (p.0 + 5 * p.1)) (at c_keccak_rotation_offsets (p.0 + 5 * p.1)))

-- The array `b` is uninitialised in the source.
pub rho_pi_dev : List ℕ → List ℕ → List ℕ
unfolding rho_pi_cell
rho_pi_dev b state = foldl (rho_pi_cell rotl64_dev state) b cells

pub chi_dev : List ℕ → List ℕ → List ℕ
chi_dev b state =
    foldl
      (λ s p. set s (p.0 + 5 * p.1) (
        bit_xor (at b (p.0 + 5 * p.1))
          (bit_and (not64 (at b ((p.0 + 1) % 5 + 5 * p.1))) (at b ((p.0 + 2) % 5 + 5 * p.1)))))
      state cells

pub keccak_round_dev : List ℕ → ℕ → List ℕ
keccak_round_dev state constant =
    let mixed = theta_dev state in
    let after = chi_dev (rho_pi_dev (replicate 25 0) mixed) mixed in
    set after 0 (bit_xor (at after 0) constant)

pub keccak_f1600_dev : List ℕ → List ℕ
keccak_f1600_dev state = foldl keccak_round_dev state c_keccak_round_constants

-- The first bytes of the state, as many as the block has, are changed, and it is permuted.
pub absorb_dev : List ℕ → List ℕ → List ℕ
absorb_dev state block = keccak_f1600_dev (lanes_of 25 (xor_bytes (state_bytes state) block))

-- `while (len >= rate)`, with what is left of the data and the state.
pub absorb_while : ℕ → ℕ → List ℕ → List ℕ → List ℕ × List ℕ
absorb_while zero rate bytes state = (bytes, state)
absorb_while (suc fuel) rate bytes state =
    let rest = absorb_while fuel rate (drop rate bytes) (absorb_dev state (take rate bytes)) in
    if ltb (length bytes) rate then (bytes, state) else rest

-- The last block: the rest of the data, zeros behind it, and the two marks.
pub tail_block : ℕ → List ℕ → List ℕ
tail_block rate bytes =
    let block = bytes ++ replicate (200 - length bytes) 0 in
    let marked = set block (length bytes) (bit_xor (at block (length bytes)) 0x01) in
    take rate (set marked (rate - 1) (bit_xor (at marked (rate - 1)) 0x80))

pub keccak_absorb_squeeze : List ℕ → ℕ → List ℕ
keccak_absorb_squeeze bytes out_len =
    let rate = 200 - 2 * out_len in
    let (rest, state) = absorb_while (length bytes) rate bytes (replicate 25 0) in
    take out_len (state_bytes (absorb_dev state (tail_block rate rest)))

unfoldable pub keccak256_dev : List ℕ → List ℕ
keccak256_dev bytes = keccak_absorb_squeeze bytes 32

unfoldable pub keccak512_dev : List ℕ → List ℕ
keccak512_dev bytes = keccak_absorb_squeeze bytes 64

unfoldable pub fnv1a_dev : ℕ → ℕ → ℕ
fnv1a_dev a b = bit_xor (u32 (a * 0x01000193)) b

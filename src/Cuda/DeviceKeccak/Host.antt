-- ===== src/Cuda/DeviceKeccak/Host.antt =====
-- The hashes of the card against those of the host.
use ohmy_miner_etc.Common.{
  ℕ, zero, suc, ◌+◌, ◌-◌, ◌*◌, ◌/◌, ◌%◌, ◌^◌, ◌<◌, ◌≡◌, refl, sym, ap, ◌∙◌, List, [], ◌∷◌, arith,
  length, foldl, set, bit_or, take, drop, replicate, u64, All-get_or, ltb, Bool-cases, inl, inr,
}
use ohmy_miner_etc.Common.Bits.{bit_or-lt, bit_or_self, bit_or-zero}
use ohmy_miner_etc.Keccak.{
  at, cells, rotl64, theta, rho_pi_into, chi, iota, keccak_round, keccak_f1600, round_constants,
  keccak, load64_from, load64, absorb_full, absorb_block, last_block, rate_of, state_bytes,
  lanes_of, xor_bytes,
}
use ohmy_miner_etc.Keccak.Lanes.{IsLane, IsLanes, length-lanes_of}
use ohmy_miner_etc.Keccak.Bounds.{theta-IsLanes, keccak_round-IsLanes}
use ohmy_miner_etc.Cuda.DeviceKeccak.{
  rotl64_dev, theta_dev, rho_pi_cell, rho_pi_dev, chi_dev, keccak_round_dev, keccak_f1600_dev,
  absorb_dev, absorb_while, tail_block, keccak_absorb_squeeze, c_keccak_rotation_offsets,
}

-- The two rotations differ in their shift by 64, which leaves a word as it is on both sides.
rotl64_dev-rotl64 : (x n : ℕ) → IsLane x → n < 64 → rotl64_dev x n ≡ rotl64 x n
unfolding rotl64_dev rotl64
rotl64_dev-rotl64 x zero h k =
    let a : x / 2 ^ 64 ≡ 0 = omega arith in
    let b : u64 (x * 2 ^ 0) ≡ x = omega arith in
    let c : x / 2 ^ 0 ≡ x = omega arith in rw (a, b, c) (bit_or-zero x ∙ sym (bit_or_self x))
rotl64_dev-rotl64 x (suc n) h k = let e : (64 - suc n) % 64 ≡ 64 - suc n = omega arith in rw e refl

foldl_cong :
    (f g : List ℕ → ℕ × ℕ → List ℕ)
    → ((s : List ℕ) (p : ℕ × ℕ) → f s p ≡ g s p)
    → (b : List ℕ) (ps : List (ℕ × ℕ)) → foldl f b ps ≡ foldl g b ps
foldl_cong f g h b [] = refl
foldl_cong f g h b (p ∷ ps) = ap (λ s. foldl f s ps) (h b p) ∙ foldl_cong f g h (g b p) ps

rho_pi_dev-rho_pi_into :
    (b state : List ℕ) → IsLanes state → rho_pi_dev b state ≡ rho_pi_into b state
unfolding rho_pi_dev rho_pi_into rho_pi_cell
rho_pi_dev-rho_pi_into b state h =
    foldl_cong (rho_pi_cell rotl64_dev state) (rho_pi_cell rotl64 state)
      (λ s p. ap (set s (p.1 + 5 * ((2 * p.0 + 3 * p.1) % 5))) (
        rotl64_dev-rotl64 (at state (p.0 + 5 * p.1)) (at c_keccak_rotation_offsets (p.0 + 5 * p.1))
          (All-get_or IsLane state (p.0 + 5 * p.1) 0 h (omega arith))
          (All-get_or (λ n. n < 64) c_keccak_rotation_offsets (p.0 + 5 * p.1) 0 (omega arith)
            (omega arith))))
      b cells

keccak_round_dev-keccak_round :
    (state : List ℕ) (c : ℕ)
    → length state ≡ 25
    → IsLanes state
    → keccak_round_dev state c ≡ keccak_round state c
unfolding keccak_round_dev keccak_round theta theta_dev chi chi_dev iota rotl64 rotl64_dev
keccak_round_dev-keccak_round state c e h =
    ap (λ b. iota c (chi b (theta state)))
      (rho_pi_dev-rho_pi_into (replicate 25 0) (theta state) (theta-IsLanes state e h))

rounds_dev :
    (state cs : List ℕ)
    → length state ≡ 25
    → IsLanes state
    → IsLanes cs
    → foldl keccak_round_dev state cs ≡ foldl keccak_round state cs
rounds_dev state [] e h l = refl
rounds_dev state (c ∷ cs) e h l =
    let kept = keccak_round-IsLanes state c e h l.0 in
    ap (λ s. foldl keccak_round_dev s cs) (keccak_round_dev-keccak_round state c e h)
    ∙ rounds_dev (keccak_round state c) cs kept.0 kept.1 l.1

pub keccak_f1600_dev-keccak_f1600 :
    (state : List ℕ)
    → length state ≡ 25
    → IsLanes state
    → keccak_f1600_dev state ≡ keccak_f1600 state
unfolding keccak_f1600_dev keccak_f1600
keccak_f1600_dev-keccak_f1600 state e h = rounds_dev state round_constants e h (omega arith)

load64_from-IsLane : (i : ℕ) (bytes : List ℕ) (u : ℕ) → IsLane u → IsLane (load64_from i bytes u)
unfolding load64_from
load64_from-IsLane i [] u h = h
load64_from-IsLane i (x ∷ bytes) u h =
    load64_from-IsLane (i + 1) bytes (bit_or u (u64 (x * 2 ^ (8 * i))))
      (bit_or-lt 64 u (u64 (x * 2 ^ (8 * i))) h (omega arith))

lanes_of-IsLanes : (n : ℕ) (bytes : List ℕ) → IsLanes (lanes_of n bytes)
unfolding lanes_of load64
lanes_of-IsLanes zero bytes = tt
lanes_of-IsLanes (suc n) bytes =
    (load64_from-IsLane 0 (take 8 bytes) 0 (omega arith), lanes_of-IsLanes n (drop 8 bytes))

pub absorb_dev-absorb_block :
    (state block : List ℕ) → absorb_dev state block ≡ absorb_block state block
unfolding absorb_dev absorb_block
absorb_dev-absorb_block state block =
    keccak_f1600_dev-keccak_f1600 (lanes_of 25 (xor_bytes (state_bytes state) block))
      (length-lanes_of 25 (xor_bytes (state_bytes state) block))
      (lanes_of-IsLanes 25 (xor_bytes (state_bytes state) block))

abbrev swap : List ℕ × List ℕ → List ℕ × List ℕ
swap p = (p.1, p.0)

absorb_while-absorb_full :
    (fuel rate : ℕ) (bytes state : List ℕ)
    → absorb_while fuel rate bytes state ≡ swap (absorb_full fuel rate bytes state)
unfolding absorb_while absorb_full
absorb_while-absorb_full zero rate bytes state = refl
absorb_while-absorb_full (suc fuel) rate bytes state = elim (Bool-cases (ltb (length bytes) rate)) [
  | inl e ↦ rw e refl
  | inr e ↦
      rw (e, absorb_dev-absorb_block state (take rate bytes))
        (absorb_while-absorb_full fuel rate (drop rate bytes)
          (absorb_block state (take rate bytes)))
]

-- For every input and every output length below 100 bytes, where the loop over whole blocks ends, the
-- hash that the card computes is the hash of the host.
pub keccak_absorb_squeeze-keccak :
    (bytes : List ℕ) (out_len : ℕ)
    → out_len < 100
    → keccak_absorb_squeeze bytes out_len ≡ keccak bytes out_len
unfolding keccak_absorb_squeeze keccak tail_block last_block rate_of
keccak_absorb_squeeze-keccak bytes out_len h =
    rw (absorb_while-absorb_full (length bytes) (200 - 2 * out_len) bytes (replicate 25 0))
      (ap (λ s. take out_len (state_bytes s)) (absorb_dev-absorb_block _ _))

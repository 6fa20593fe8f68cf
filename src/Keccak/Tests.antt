-- ===== src/Keccak/Tests.antt =====
-- Runs of src/core/keccak.cpp: the vectors of tests/unit/test_ethash.cpp.
use ohmy_miner_etc.Common.{
  foldl, take, replicate, ◌^◌, ℕ, ◌≡◌, refl, List, [], ◌∷◌, ◌++◌, false, arith, codes,
}
use ohmy_miner_etc.Hex.{hash_to_hex, hex_prefix, print_bytes, print_hex, hex_digit, pad_zeros}
use ohmy_miner_etc.Keccak.{
  state_size, keccak256, keccak, absorb_full, absorb_block, last_block, rate_of, keccak_f1600,
  keccak_round, state_bytes, lanes_of, store64, load64, xor_bytes,
}
use ohmy_miner_etc.Keccak.Round.{round_map, plane, lanes, lfsr_constants, keccak_f1600-rounds}
use ohmy_miner_etc.Keccak.Sponge.{padded_blocks, keccak_sponge}

empty_vector :
    hash_to_hex (keccak256 []) false
    ≡ codes "c5d2460186f7233c927e7db2dcc703c0e500b653ca82273b7bfad8045d85a470"
unfolding hash_to_hex hex_prefix print_bytes print_hex hex_digit pad_zeros keccak256 keccak
    absorb_full absorb_block last_block rate_of keccak_f1600 keccak_round state_bytes lanes_of
    store64 load64 xor_bytes
empty_vector = refl

abbrev counting_state : List ℕ
counting_state = 1 ∷ 2 ∷ 3 ∷ 4 ∷ 5 ∷ replicate 19 6 ++ 2 ^ 63 ∷ []

abbrev message : List ℕ
message = codes "hello"

keccak_f1600-rounds_example :
    keccak_f1600 counting_state ≡ lanes (foldl round_map (plane counting_state) lfsr_constants)
keccak_f1600-rounds_example = keccak_f1600-rounds counting_state refl

keccak_sponge_example :
    keccak message 32
    ≡ take 32 (
        state_bytes
          (foldl absorb_block (replicate state_size 0) (padded_blocks (rate_of 32) message)))
keccak_sponge_example = keccak_sponge message 32 (omega arith) (omega arith)

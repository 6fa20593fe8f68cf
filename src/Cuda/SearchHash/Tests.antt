-- ===== src/Cuda/SearchHash/Tests.antt =====
-- Hashes of src/cuda/kernels/search_kernel.cu.
use ohmy_miner_etc.Common.{ℕ, ◌<◌, ◌≡◌, refl, arith, replicate, if◌then◌else◌, ltb}
use ohmy_miner_etc.Cuda.SearchHash.{SearchInput, texture_hash}
use ohmy_miner_etc.Cuda.SearchHash.Agreement.{texture_hash-Agree}

abbrev pub sample : SearchInput
sample = record {
  dag = λ i. i;
  dag_size = 4096;
  header_hash = replicate 32 3;
  seed_hash = replicate 32 4;
  target_be = replicate 32 128;
}

-- The same first 32 KiB of the DAG, another size and another seed hash.
abbrev shortened : SearchInput
shortened = record sample {
  dag = λ i. if ltb i 8192 then i else 0;
  dag_size = 32768;
  seed_hash = replicate 32 9;
}

texture_hash-Agree_example : texture_hash sample 7 ≡ texture_hash shortened 7
texture_hash-Agree_example = texture_hash-Agree sample shortened 7 shortened_agrees refl
  where
    shortened_agrees : (i : ℕ) → i < 8192 → i ≡ (if ltb i 8192 then i else 0)
    shortened_agrees i h = ground arith

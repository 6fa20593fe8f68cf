-- ===== src/Cuda/SearchKernel.antt =====
-- src/cuda/kernels/search_kernel.cu: the threads of the three search kernels and their launch functions.
-- A grid runs its threads in an order that the card chooses, a parameter; a thread writes only the slot
-- that its own atomicAdd has given it, so a thread is one step. Thread indices are computed in 32 bits.
pub mod Target
pub mod Output
pub mod Launches
pub mod Nonces
pub mod Found
pub mod Tests
use ohmy_miner_etc.Common.{
  ℕ, zero, suc, ◌+◌, ◌-◌, ◌*◌, ◌/◌, ◌%◌, ◌^◌, List, [], ◌∷◌, ◌++◌, Bool, true, false, ◌||◌, bit_xor,
  if◌then◌else◌, ltb, leb, ◌==◌, set, get_or, take, foldl, u8, u32, u64,
}
use ohmy_miner_etc.Keccak.{lanes_of}
use ohmy_miner_etc.Ethash.{nonce_bytes, words_of, word_bytes}
use ohmy_miner_etc.Pipeline.{DeviceSolution}
use ohmy_miner_etc.Cuda.DeviceKeccak.{keccak256_dev, keccak512_dev, fnv1a_dev}
use ohmy_miner_etc.Cuda.SearchHash.{
  SearchInput, Digest, seed_of, dag_words, fnv_words, pair_index, pair_words, mix_pairs,
  compress_mix, finish_hash, search_hash, pair_words_optimized, mix_optimized, optimized_hash,
  twice_each, num_parents, texels, parent_texels, texture_parent, mix_texels, texture_digest,
  texture_hash,
}

-- What the threads of a grid write.
pub record SearchOutput : Type 0 where
  pub solutions : List DeviceSolution
  pub solution_count : ℕ

-- `cmp` with its three values -1, 0 and 1.
pub data Comparison : Type 0 where
  below : Comparison
  same : Comparison
  above : Comparison

-- The loop over the bytes, up to the first that differs.
pub compare_target : List ℕ → List ℕ → Comparison
compare_target (a ∷ result) (b ∷ target) =
    let rest = compare_target result target in
    if ltb a b then below else (if ltb b a then above else rest)
compare_target _ _ = same

-- `cmp <= 0`
pub is_solution : Comparison → Bool
is_solution above = false
is_solution _ = true

-- atomicAdd, and the slot that it gives when there is one.
pub store_solution : ℕ → ℕ → Digest → SearchOutput → SearchOutput
store_solution max_solutions nonce digest out =
    let idx = out.solution_count in
    let counted = record out { solution_count = u32 (idx + 1) } in
    if ltb idx max_solutions
    then record counted {
      solutions =
          set out.solutions idx (record { nonce = nonce; mix_hash = digest.0; result = digest.1 });
    }
    else counted

-- What a thread does with a nonce, for one of the three bodies.
pub try_nonce : (SearchInput → ℕ → Digest) → SearchInput → ℕ → SearchOutput → ℕ → SearchOutput
unfolding is_solution
try_nonce hash input max_solutions out nonce =
    let digest = hash input nonce in
    let stored = store_solution max_solutions nonce digest out in
    if is_solution (compare_target (take 32 digest.1) (take 32 input.target_be))
    then stored
    else out

-- The nonces of a thread of each kernel.
pub base_nonce : ℕ → ℕ → ℕ
base_nonce start_nonce thread = u64 (start_nonce + u32 thread)

pub batch_from : ℕ → ℕ → ℕ → List ℕ
batch_from base zero offset = []
batch_from base (suc left) offset = u64 (base + offset) ∷ batch_from base left (offset + 1)

pub optimized_nonces : ℕ → ℕ → ℕ → List ℕ
unfolding batch_from
optimized_nonces start_nonce nonces_per_thread thread =
    batch_from (u64 (start_nonce + u32 (u32 thread * nonces_per_thread))) nonces_per_thread 0

pub texture_nonces : ℕ → ℕ → ℕ → List ℕ
unfolding batch_from
texture_nonces start_nonce nonces_per_thread thread =
    batch_from (u64 (start_nonce + u64 (u32 thread * nonces_per_thread))) nonces_per_thread 0

-- A thread of each kernel.
pub search_kernel : SearchInput → ℕ → ℕ → SearchOutput → ℕ → SearchOutput
unfolding base_nonce
search_kernel input start_nonce max_solutions out thread =
    try_nonce search_hash input max_solutions out (base_nonce start_nonce thread)

pub search_kernel_optimized : SearchInput → ℕ → ℕ → ℕ → SearchOutput → ℕ → SearchOutput
search_kernel_optimized input start_nonce nonces_per_thread max_solutions out thread =
    foldl (try_nonce optimized_hash input max_solutions) out
      (optimized_nonces start_nonce nonces_per_thread thread)

pub search_kernel_texture : SearchInput → ℕ → ℕ → ℕ → SearchOutput → ℕ → SearchOutput
search_kernel_texture input start_nonce nonces_per_thread max_solutions out thread =
    foldl (try_nonce texture_hash input max_solutions) out
      (texture_nonces start_nonce nonces_per_thread thread)

-- The blocks of a launch, an `int`: CUDA refuses a grid of no block, or of a negative number.
pub valid_blocks : ℕ → ℕ
valid_blocks blocks = if ltb blocks (2 ^ 31) then blocks else 0

pub base_threads : ℕ → ℕ
unfolding valid_blocks
base_threads search_count = valid_blocks (u32 (u64 (search_count + 1024 - 1) / 1024)) * 1024

-- `totalThreads` is an `int`, and so is the sum with the block size: one that does not fit is
-- negative or overflows, and no grid is taken to start.
pub batch_threads : ℕ → ℕ → ℕ → ℕ
unfolding valid_blocks
batch_threads threads_per_block search_count nonces_per_thread =
    let total_threads = u32 (u64 (search_count + nonces_per_thread - 1) / nonces_per_thread) in
    let rounded = total_threads + threads_per_block - 1 in
    valid_blocks (if ltb rounded (2 ^ 31) then rounded / threads_per_block else 0)
    * threads_per_block

pub optimized_threads : ℕ → ℕ → ℕ
unfolding batch_threads
optimized_threads search_count nonces_per_thread = batch_threads 512 search_count nonces_per_thread

pub texture_threads : ℕ → ℕ → ℕ
unfolding batch_threads
texture_threads search_count nonces_per_thread = batch_threads 1024 search_count nonces_per_thread

-- The launch functions: the threads of the grid run in the order that `schedule` gives for their
-- number.
pub launch_ethash_search : (ℕ → List ℕ) → SearchInput → ℕ → ℕ → ℕ → SearchOutput → SearchOutput
launch_ethash_search schedule input start_nonce search_count max_solutions out =
    foldl (search_kernel input start_nonce max_solutions) out (schedule (base_threads search_count))

pub launch_ethash_search_optimized :
    (ℕ → List ℕ) → SearchInput → ℕ → ℕ → ℕ → ℕ → SearchOutput → SearchOutput
launch_ethash_search_optimized schedule input start_nonce search_count nonces_per_thread
      max_solutions out =
    foldl (search_kernel_optimized input start_nonce nonces_per_thread max_solutions) out
      (schedule (optimized_threads search_count nonces_per_thread))

pub launch_ethash_search_texture :
    (ℕ → List ℕ) → SearchInput → ℕ → ℕ → ℕ → ℕ → SearchOutput → SearchOutput
launch_ethash_search_texture schedule input start_nonce search_count nonces_per_thread max_solutions
      out =
    foldl (search_kernel_texture input start_nonce nonces_per_thread max_solutions) out
      (schedule (texture_threads search_count nonces_per_thread))

-- ===== src/Cuda/SearchKernel/Tests.antt =====
-- Launches of src/cuda/kernels/search_kernel.cu, and orders in which a card may run the threads.
use native.Mathlib.Decide.{dec_lt}
use ohmy_miner_etc.Common.{
  ◌*◌, ℕ, zero, suc, ◌+◌, ◌<◌, ◌≤◌, ◌≡◌, ◌∙◌, refl, inl, inr, List, [], ◌∷◌, arith, length,
  replicate, IsBytes, Bool-cases, ◌^◌,
}
use ohmy_miner_etc.Pipeline.{DeviceSolution}
use ohmy_miner_etc.Cuda.SearchKernel.{
  base_nonce, base_threads, valid_blocks, optimized_nonces, texture_nonces, batch_from,
  launch_ethash_search, launch_ethash_search_optimized, launch_ethash_search_texture,
}
use ohmy_miner_etc.Cuda.SearchHash.{SearchInput, Digest, search_hash, optimized_hash, texture_hash}
use ohmy_miner_etc.Cuda.SearchKernel.Output.{wins, winners, stored}
use ohmy_miner_etc.Cuda.SearchKernel.Launches.{
  nonces_of_threads, base_tried, optimized_tried, texture_tried, empty_output, launches-stored,
}
use ohmy_miner_etc.Cuda.SearchKernel.Nonces.{Listed, IsComplete}
use ohmy_miner_etc.Cuda.SearchHash.Tests.{sample}

pub replicate-IsBytes : (n b : ℕ) → b < 256 → IsBytes (replicate n b)
replicate-IsBytes zero b h = tt
replicate-IsBytes (suc n) b h = (h, replicate-IsBytes n b h)

abbrev count_from : ℕ → ℕ → List ℕ
count_from zero t = []
count_from (suc n) t = t ∷ count_from n (t + 1)

count_from-Listed : (n t k : ℕ) → t ≤ k → k < t + n → Listed k (count_from n t)
count_from-Listed zero t k h l = absurd (omega arith)
count_from-Listed (suc n) t k h l = elim (dec_lt t k) [
  | yes later ↦ inr (count_from-Listed n (t + 1) k (omega arith) (omega arith))
  | no now ↦ inl (omega arith)
]

-- The threads by their index.
abbrev pub in_order : ℕ → List ℕ
in_order threads = count_from threads 0

pub in_order-IsComplete : IsComplete in_order
in_order-IsComplete threads t h = count_from-Listed threads 0 t (omega arith) (omega arith)

-- No more winners than nonces.
pub length-winners :
    (hash : SearchInput → ℕ → Digest) (input : SearchInput) (nonces : List ℕ)
    → length (winners hash input nonces) ≤ length nonces
unfolding winners
length-winners hash input [] = omega arith
length-winners hash input (n ∷ nonces) = elim (Bool-cases (wins hash input n)) [
  | inl e ↦ let ih = length-winners hash input nonces in rw e (omega (arith, ih))
  | inr e ↦ let ih = length-winners hash input nonces in rw e (omega (arith, ih))
]

length-single :
    (nonce : ℕ → ℕ) (threads : List ℕ)
    → length (nonces_of_threads (λ t. nonce t ∷ []) threads) ≡ length threads
unfolding nonces_of_threads
length-single nonce [] = refl
length-single nonce (t ∷ threads) = omega (arith, length-single nonce threads)

length-count_from : (n t : ℕ) → length (count_from n t) ≡ n
length-count_from zero t = refl
length-count_from (suc n) t = omega (arith, length-count_from n (t + 1))

pub length-base_tried :
    (start count : ℕ) → length (base_tried in_order start count) ≡ base_threads count
length-base_tried start count =
    length-single (base_nonce start) (in_order (base_threads count))
    ∙ length-count_from (base_threads count) 0

-- A launch of the plain kernel for three nonces runs a block of 1024 threads, and one for ten million
-- 9766 blocks.
pub base_threads_lem : (base_threads 3 ≡ 1024) × (base_threads 10000000 ≡ 9766 * 1024)
unfolding base_threads valid_blocks
base_threads_lem = (refl, refl)

abbrev pub slot : DeviceSolution
slot = record { nonce = 0; mix_hash = []; result = [] }

-- Three threads, the last one first.
abbrev backwards : ℕ → List ℕ
backwards threads = 2 ∷ 1 ∷ 0 ∷ []

three_tried :
    (length (base_tried backwards 10 3) ≡ 3)
    × (length (optimized_tried backwards 10 3 1) ≡ 3)
    × (length (texture_tried backwards 10 3 1) ≡ 3)
unfolding nonces_of_threads optimized_nonces texture_nonces batch_from
three_tried = (refl, refl, refl)

launches-stored_example :
    (launch_ethash_search backwards sample 10 3 2 (empty_output (slot ∷ slot ∷ []))
      ≡ stored 2 (slot ∷ slot ∷ []) (winners search_hash sample (base_tried backwards 10 3)))
    × (launch_ethash_search_optimized backwards sample 10 3 1 2 (empty_output (slot ∷ slot ∷ []))
        ≡ stored 2
            (slot ∷ slot ∷ [])
            (winners optimized_hash sample (optimized_tried backwards 10 3 1)))
    × (launch_ethash_search_texture backwards sample 10 3 1 2 (empty_output (slot ∷ slot ∷ []))
        ≡ stored 2
            (slot ∷ slot ∷ [])
            (winners texture_hash sample (texture_tried backwards 10 3 1)))
launches-stored_example =
    launches-stored backwards sample 10 3 1 2 (slot ∷ slot ∷ []) refl
      (few_winners search_hash sample (base_tried backwards 10 3) three_tried.0)
      (few_winners optimized_hash sample (optimized_tried backwards 10 3 1) three_tried.1)
      (few_winners texture_hash sample (texture_tried backwards 10 3 1) three_tried.2)
  where
    few_winners :
        (hash : SearchInput → ℕ → Digest) (input : SearchInput) (nonces : List ℕ)
        → length nonces ≡ 3
        → length (winners hash input nonces) < 2 ^ 32
    few_winners hash input nonces e = omega (arith, length-winners hash input nonces)

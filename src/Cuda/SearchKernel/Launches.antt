-- ===== src/Cuda/SearchKernel/Launches.antt =====
-- A launch of each kernel: the nonces of its threads, and the buffer that it leaves.
use ohmy_miner_etc.Common.{ℕ, ◌^◌, ◌<◌, ◌≡◌, refl, sym, ◌∙◌, List, [], ◌∷◌, ◌++◌, length, foldl}
use ohmy_miner_etc.Pipeline.{DeviceSolution}
use ohmy_miner_etc.Cuda.SearchKernel.{
  SearchOutput, try_nonce, base_nonce, optimized_nonces, texture_nonces, search_kernel,
  search_kernel_optimized, search_kernel_texture, base_threads, optimized_threads, texture_threads,
  launch_ethash_search, launch_ethash_search_optimized, launch_ethash_search_texture,
}
use ohmy_miner_etc.Cuda.SearchHash.{SearchInput, search_hash, optimized_hash, texture_hash}
use ohmy_miner_etc.Cuda.SearchKernel.Output.{winners, stored, run-stored}

unfoldable pub nonces_of_threads : (ℕ → List ℕ) → List ℕ → List ℕ
nonces_of_threads nonces [] = []
nonces_of_threads nonces (t ∷ threads) = nonces t ++ nonces_of_threads nonces threads

foldl-append {ℓ} :
    {A : Type ℓ} (f : A → ℕ → A) (a : A) (xs ys : List ℕ)
    → foldl f a (xs ++ ys) ≡ foldl f (foldl f a xs) ys
foldl-append f a [] ys = refl
foldl-append f a (x ∷ xs) ys = foldl-append f (f a x) xs ys

-- Threads one after the other are their nonces one after the other.
threads-nonces {ℓ} :
    {A : Type ℓ} (f : A → ℕ → A) (nonces : ℕ → List ℕ) (out : A) (threads : List ℕ)
    → foldl (λ o t. foldl f o (nonces t)) out threads
      ≡ foldl f out (nonces_of_threads nonces threads)
unfolding nonces_of_threads
threads-nonces f nonces out [] = refl
threads-nonces f nonces out (t ∷ threads) =
    threads-nonces f nonces (foldl f out (nonces t)) threads
    ∙ sym (foldl-append f out (nonces t) (nonces_of_threads nonces threads))

-- The nonces of a launch of each kernel, in the order in which the card runs the threads.
abbrev pub base_tried : (ℕ → List ℕ) → ℕ → ℕ → List ℕ
base_tried schedule start count =
    nonces_of_threads (λ t. base_nonce start t ∷ []) (schedule (base_threads count))

abbrev pub optimized_tried : (ℕ → List ℕ) → ℕ → ℕ → ℕ → List ℕ
optimized_tried schedule start count per_thread =
    nonces_of_threads (optimized_nonces start per_thread)
      (schedule (optimized_threads count per_thread))

abbrev pub texture_tried : (ℕ → List ℕ) → ℕ → ℕ → ℕ → List ℕ
texture_tried schedule start count per_thread =
    nonces_of_threads (texture_nonces start per_thread)
      (schedule (texture_threads count per_thread))

abbrev pub empty_output : List DeviceSolution → SearchOutput
empty_output slots = record { solutions = slots; solution_count = 0 }

pub launch-stored :
    (schedule : ℕ → List ℕ) (input : SearchInput) (start count max_solutions : ℕ)
    (slots : List DeviceSolution)
    → length slots ≡ max_solutions
    → length (winners search_hash input (base_tried schedule start count)) < 2 ^ 32
    → launch_ethash_search schedule input start count max_solutions (empty_output slots)
      ≡ stored max_solutions slots (winners search_hash input (base_tried schedule start count))
unfolding launch_ethash_search search_kernel
launch-stored schedule input start count max_solutions slots e a =
    threads-nonces (try_nonce search_hash input max_solutions) (λ t. base_nonce start t ∷ [])
      (empty_output slots) (schedule (base_threads count))
    ∙ run-stored search_hash input max_solutions (base_tried schedule start count) slots e a

pub optimized-stored :
    (schedule : ℕ → List ℕ) (input : SearchInput) (start count per_thread max_solutions : ℕ)
    (slots : List DeviceSolution)
    → length slots ≡ max_solutions
    → length (winners optimized_hash input (optimized_tried schedule start count per_thread))
      < 2 ^ 32
    → launch_ethash_search_optimized schedule input start count per_thread max_solutions
        (empty_output slots)
      ≡ stored max_solutions slots
          (winners optimized_hash input (optimized_tried schedule start count per_thread))
unfolding launch_ethash_search_optimized search_kernel_optimized
optimized-stored schedule input start count per_thread max_solutions slots e a =
    threads-nonces (try_nonce optimized_hash input max_solutions)
      (optimized_nonces start per_thread) (empty_output slots)
      (schedule (optimized_threads count per_thread))
    ∙ run-stored optimized_hash input max_solutions
        (optimized_tried schedule start count per_thread) slots e a

-- In whatever order the card runs the threads of a launch, and with fewer than 2^32 solutions: the
-- buffer begins with the solutions of the nonces that the threads try and whose result meets the
-- target, as many as it has room for, in the order in which they are found; each has its nonce, its
-- compressed mix and its result; the rest of the buffer is as before; and the count is that of all
-- solutions, those without room included. This holds of each of the three kernels.
pub launches-stored :
    (schedule : ℕ → List ℕ) (input : SearchInput) (start count per_thread max_solutions : ℕ)
    (slots : List DeviceSolution)
    → length slots ≡ max_solutions
    → length (winners search_hash input (base_tried schedule start count)) < 2 ^ 32
    → length (winners optimized_hash input (optimized_tried schedule start count per_thread))
      < 2 ^ 32
    → length (winners texture_hash input (texture_tried schedule start count per_thread)) < 2 ^ 32
    → (launch_ethash_search schedule input start count max_solutions (empty_output slots)
        ≡ stored max_solutions slots (winners search_hash input (base_tried schedule start count)))
      × (launch_ethash_search_optimized schedule input start count per_thread max_solutions
            (empty_output slots)
          ≡ stored max_solutions slots
              (winners optimized_hash input (optimized_tried schedule start count per_thread)))
      × (launch_ethash_search_texture schedule input start count per_thread max_solutions
            (empty_output slots)
          ≡ stored max_solutions slots
              (winners texture_hash input (texture_tried schedule start count per_thread)))
unfolding launch_ethash_search_texture search_kernel_texture
launches-stored schedule input start count per_thread max_solutions slots e a b c = (
  launch-stored schedule input start count max_solutions slots e a,
  optimized-stored schedule input start count per_thread max_solutions slots e b,
  threads-nonces (try_nonce texture_hash input max_solutions) (texture_nonces start per_thread)
        (empty_output slots) (schedule (texture_threads count per_thread))
      ∙ run-stored texture_hash input max_solutions (texture_tried schedule start count per_thread)
          slots e c,
)

-- ===== src/Cuda/DagKernel/Fill.antt =====
-- What the batches leave in the memory of the card.
use ohmy_miner_etc.Common.{
  ℕ, ◌+◌, ◌/◌, ◌^◌, ◌<◌, ◌≤◌, ◌≡◌, ◌⊎◌, inl, inr, refl, ◌∙◌, List, [], ◌∷◌, false, arith, foldl,
  u32, u64, leb, ◌==◌, if◌then◌else◌, Bool-cases, if-elim, if-true, if-false, subst,
}
use ohmy_miner_etc.Cuda.DagKernel.{Memory, store, write_item, dag_item_kernel, batch_grid}
use ohmy_miner_etc.Cuda.SearchKernel.Nonces.{Listed}

-- A thread of an item writes at each of its eight words the index of the word, and nothing else.
write_item_lem :
    (d : ℕ) (dag : Memory) (p : ℕ) → write_item d dag p ≡ (if p / 8 == d then u64 p else dag p)
unfolding write_item store
write_item_lem d dag p = elim (Bool-cases (p / 8 == d)) [
  | inl e ↦ rw e (ground (arith, e))
  | inr n ↦ rw n (ground (arith, n))
]

-- A word that holds its index keeps it; a word outside the batch keeps its value.
module _ (start count : ℕ) where
  thread_keeps :
      (t : ℕ) (dag : Memory) (p : ℕ) → dag p ≡ u64 p → dag_item_kernel start count dag t p ≡ u64 p
  unfolding dag_item_kernel
  thread_keeps t dag p e = elim (Bool-cases (leb count (u32 t))) [
    | inl out ↦ rw out e
    | inr run ↦ rw run (
        write_item_lem (start + u32 t) dag p
        ∙ if-elim (λ v. v ≡ u64 p) (p / 8 == start + u32 t) refl e)
  ]

  thread_fills :
      (t : ℕ) (dag : Memory) (p : ℕ)
      → t < count
      → t < 2 ^ 32
      → p / 8 ≡ start + t
      → dag_item_kernel start count dag t p ≡ u64 p
  unfolding dag_item_kernel
  thread_fills t dag p h w e =
      let same : u32 t ≡ t = omega arith in
      let run : leb count t ≡ false = ground arith in
      rw (same, run)
        (write_item_lem (start + t) dag p ∙ if-true (u64 p) (dag p) (ground (arith, e)))

  thread_outside :
      (t : ℕ) (dag : Memory) (p : ℕ)
      → (p / 8 < start) ⊎ (start + count ≤ p / 8)
      → dag_item_kernel start count dag t p ≡ dag p
  unfolding dag_item_kernel
  thread_outside t dag p o = elim (Bool-cases (leb count (u32 t))) [
    | inl out ↦ rw out refl
    | inr run ↦
        rw run (write_item_lem (start + u32 t) dag p ∙ if-false (u64 p) (dag p) (apart t p o run))
  ]
    where
      apart :
          (t p : ℕ)
          → (p / 8 < start) ⊎ (start + count ≤ p / 8)
          → leb count (u32 t) ≡ false
          → (p / 8 == start + u32 t) ≡ false
      apart t p (inl lt) run = ground (arith, run, lt)
      apart t p (inr ge) run = ground (arith, run, ge)

  pub threads_keep :
      (order : List ℕ) (dag : Memory) (p : ℕ)
      → dag p ≡ u64 p
      → foldl (dag_item_kernel start count) dag order p ≡ u64 p
  threads_keep [] dag p e = e
  threads_keep (t ∷ order) dag p e =
      threads_keep order (dag_item_kernel start count dag t) p (thread_keeps t dag p e)

  pub threads_fill :
      (t : ℕ) (order : List ℕ) (dag : Memory) (p : ℕ)
      → Listed t order
      → t < count
      → t < 2 ^ 32
      → p / 8 ≡ start + t
      → foldl (dag_item_kernel start count) dag order p ≡ u64 p
  threads_fill t [] dag p l h w e = absurd l
  threads_fill t (s ∷ order) dag p (inl q) h w e =
      threads_keep order (dag_item_kernel start count dag s) p (
        subst (λ (r : ℕ). dag_item_kernel start count dag r p ≡ u64 p) q
          (thread_fills t dag p h w e))
  threads_fill t (s ∷ order) dag p (inr l) h w e =
      threads_fill t order (dag_item_kernel start count dag s) p l h w e

  pub threads_outside :
      (order : List ℕ) (dag : Memory) (p : ℕ)
      → (p / 8 < start) ⊎ (start + count ≤ p / 8)
      → foldl (dag_item_kernel start count) dag order p ≡ dag p
  threads_outside [] dag p o = refl
  threads_outside (t ∷ order) dag p o =
      threads_outside order (dag_item_kernel start count dag t) p o ∙ thread_outside t dag p o

pub batch_grid-above : (count t : ℕ) → count ≤ 2 ^ 20 → t < count → t < batch_grid count
unfolding batch_grid
batch_grid-above count t h k = omega arith

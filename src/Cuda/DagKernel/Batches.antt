-- ===== src/Cuda/DagKernel/Batches.antt =====
-- The loop over the batches of `generateDagGpu`: when it ends, and what it leaves.
use native.Mathlib.Decide.{dec_lt}
use ohmy_miner_etc.Common.{
  ℕ, zero, suc, ◌+◌, ◌-◌, ◌*◌, ◌/◌, ◌%◌, ◌^◌, ◌<◌, ◌≤◌, ◌≡◌, inr, refl, ◌∙◌, List, none, some, true,
  false, arith, foldl, min, u32, u64, ltb, subst,
}
use ohmy_miner_etc.Cuda.DagKernel.{
  Memory, dag_item_kernel, batch_size, batch_grid, generate_dag_gpu,
}
use ohmy_miner_etc.Cuda.SearchKernel.Nonces.{IsComplete}
use ohmy_miner_etc.Cuda.DagKernel.Fill.{
  threads_keep, threads_fill, threads_outside, batch_grid-above,
}

-- A memory whose first items hold, at each word, the index of the word; the rest is as before.
pub record IsFilled (num_items : ℕ) (before after : Memory) : Type 0 where
  pub items : (p : ℕ) → p / 8 < num_items → after p ≡ u64 p
  pub others : (p : ℕ) → num_items ≤ p / 8 → after p ≡ before p

module _ (schedule : ℕ → List ℕ) (complete : IsComplete schedule) (num : ℕ) (before : Memory) where
  abbrev threads : ℕ → List ℕ
  threads start = schedule (batch_grid (min batch_size (num - start)))

  abbrev batch : ℕ → Memory → Memory
  batch start dag = foldl (dag_item_kernel start (min batch_size (num - start))) dag (threads start)

  batch-items :
      (start : ℕ) (dag : Memory)
      → IsFilled start before dag
      → (p : ℕ) → p / 8 < min num (start + batch_size)
      → batch start dag p ≡ u64 p
  batch-items start dag f p h = elim (dec_lt (p / 8) start) [
    | yes old ↦
        threads_keep start (min batch_size (num - start)) (threads start) dag p (f.items p old)
    | no new ↦
        threads_fill start (min batch_size (num - start)) (p / 8 - start) (threads start) dag p
          (complete _ (p / 8 - start) (
            batch_grid-above (min batch_size (num - start)) (p / 8 - start) (omega arith)
              (omega arith)))
          (omega arith) (omega arith) (omega arith)
  ]

  batch-IsFilled :
      (start : ℕ) (dag : Memory)
      → start < num
      → IsFilled start before dag
      → IsFilled (min num (start + batch_size)) before (batch start dag)
  batch-IsFilled start dag h f = record {
    items = batch-items start dag f;
    others = λ p o.
        threads_outside start (min batch_size (num - start)) (threads start) dag p
          (inr (omega arith))
        ∙ f.others p (omega arith);
  }

  -- The step of the loop and its end.
  generate_step :
      (fuel start : ℕ) (dag : Memory)
      → start < num
      → generate_dag_gpu schedule (suc fuel) start num dag
        ≡ generate_dag_gpu schedule fuel (u32 (start + batch_size)) num (batch start dag)
  unfolding generate_dag_gpu
  generate_step fuel start dag h = let e : ltb start num ≡ true = ground arith in rw e refl

  generate_end :
      (fuel start : ℕ) (dag : Memory)
      → num ≤ start
      → generate_dag_gpu schedule (suc fuel) start num dag ≡ some dag
  unfolding generate_dag_gpu
  generate_end fuel start dag h = let e : ltb start num ≡ false = ground arith in rw e refl

  generate-from :
      (fuel start : ℕ) (dag : Memory)
      → num ≤ 2 ^ 32 - batch_size
      → num + batch_size ≤ start + fuel * batch_size
      → start < num + batch_size
      → IsFilled (min num start) before dag
      → (after : Memory) × (generate_dag_gpu schedule fuel start num dag ≡ some after)
        × IsFilled num before after
  generate-from zero start dag fits enough low f = absurd (omega arith)
  generate-from (suc fuel) start dag fits enough low f = elim (dec_lt start num) [
    | yes more ↦
        let wrap : u32 (start + batch_size) ≡ start + batch_size = omega arith in
        rw (generate_step fuel start dag more, wrap)
          (generate-from fuel (start + batch_size) (batch start dag) fits (omega arith)
            (omega arith)
            (batch-IsFilled start dag more
              (subst (λ (n : ℕ). IsFilled n before dag) (omega arith) f)))
    | no over ↦ (
      dag,
      generate_end fuel start dag (omega arith),
      subst (λ (n : ℕ). IsFilled n before dag) (omega arith) f,
    )
  ]

  -- In whatever order the card runs the threads of each batch: with at most 2^32 - 2^20 items the
  -- loop of generateDagGpu ends, after at most one batch for each 2^20 items begun; then every word
  -- of the first items holds its index, and every word behind them what it held before.
  pub generate_dag_gpu-IsFilled :
      num ≤ 2 ^ 32 - batch_size
      → (after : Memory) × (generate_dag_gpu schedule (num / batch_size + 2) 0 num before
          ≡ some after)
        × IsFilled num before after
  generate_dag_gpu-IsFilled fits =
      generate-from (num / batch_size + 2) 0 before fits (omega arith) (omega arith)
        (record { items = λ p h. absurd (omega arith); others = λ p h. refl })

module _ (schedule : ℕ → List ℕ) (num : ℕ) (before : Memory) where
  endless :
      (fuel k : ℕ) (dag : Memory)
      → 2 ^ 32 - batch_size < num
      → k < 4096
      → generate_dag_gpu schedule fuel (k * batch_size) num dag ≡ none
  unfolding generate_dag_gpu
  endless zero k dag h b = refl
  endless (suc fuel) k dag h b =
      let e : ltb (k * batch_size) num ≡ true = ground arith in
      let wrap : u32 (k * batch_size + batch_size) ≡ (k + 1) % 4096 * batch_size = omega arith in
      rw (e, wrap) (endless fuel ((k + 1) % 4096) _ h (omega arith))

  -- With more than 2^32 - 2^20 items, in whatever order the card runs the threads, the loop of
  -- generateDagGpu never ends: whatever the fuel, it is used up, since the 32-bit start of a batch wraps to 0 before it reaches the number of items.
  pub generate_dag_gpu-endless :
      (fuel : ℕ) → 2 ^ 32 - batch_size < num → generate_dag_gpu schedule fuel 0 num before ≡ none
  generate_dag_gpu-endless fuel h = endless fuel 0 before h (omega arith)

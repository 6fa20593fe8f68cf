-- ===== src/Cuda/SearchKernel/Nonces.antt =====
-- The nonces that a grid tries.
use ohmy_miner_etc.Common.{
  ℕ, zero, suc, ◌+◌, ◌-◌, ◌*◌, ◌/◌, ◌%◌, ◌^◌, ◌<◌, ◌≤◌, ◌≡◌, ◌⊎◌, inl, inr, ap, subst, List, [],
  ◌∷◌, ◌++◌, arith, u32, u64,
}
use native.Mathlib.Decide.{dec_lt}
use native.Mathlib.Nat.{div-add-mod', mod-lt, div-le_self}
use ohmy_miner_etc.Cuda.SearchKernel.{
  base_nonce, optimized_nonces, texture_nonces, batch_from, valid_blocks, base_threads,
  batch_threads, optimized_threads, texture_threads,
}
use ohmy_miner_etc.Cuda.SearchKernel.Launches.{
  nonces_of_threads, base_tried, optimized_tried, texture_tried,
}

-- An element of a list.
abbrev pub Listed : {A : Type 0} → A → List A → Type 0
Listed a [] = ⊥
Listed a (x ∷ xs) = (a ≡ x) ⊎ Listed a xs

-- A schedule of a grid names each of its threads.
abbrev pub IsComplete : (ℕ → List ℕ) → Type 0
IsComplete schedule = (threads t : ℕ) → t < threads → Listed t (schedule threads)

pub Listed-append_left : {A : Type 0} (a : A) (xs ys : List A) → Listed a xs → Listed a (xs ++ ys)
Listed-append_left a [] ys h = absurd h
Listed-append_left a (x ∷ xs) ys (inl e) = inl e
Listed-append_left a (x ∷ xs) ys (inr h) = inr (Listed-append_left a xs ys h)

Listed-append_right : {A : Type 0} (a : A) (xs ys : List A) → Listed a ys → Listed a (xs ++ ys)
Listed-append_right a [] ys h = h
Listed-append_right a (x ∷ xs) ys h = inr (Listed-append_right a xs ys h)

Listed-threads :
    (nonces : ℕ → List ℕ) (n t : ℕ) (threads : List ℕ)
    → Listed t threads
    → Listed n (nonces t)
    → Listed n (nonces_of_threads nonces threads)
unfolding nonces_of_threads
Listed-threads nonces n t [] h k = absurd h
Listed-threads nonces n t (s ∷ threads) (inl e) k =
    Listed-append_left n (nonces s) (nonces_of_threads nonces threads)
      (subst (λ (r : ℕ). Listed n (nonces r)) e k)
Listed-threads nonces n t (s ∷ threads) (inr h) k =
    Listed-append_right n (nonces s) (nonces_of_threads nonces threads)
      (Listed-threads nonces n t threads h k)

Listed-batch :
    (left offset base o : ℕ)
    → offset ≤ o
    → o < offset + left
    → Listed (u64 (base + o)) (batch_from base left offset)
unfolding batch_from
Listed-batch zero offset base o p q = absurd (omega arith)
Listed-batch (suc left) offset base o p q = elim (dec_lt offset o) [
  | yes lt ↦ inr (Listed-batch left (offset + 1) base o (omega arith) (omega arith))
  | no ge ↦ inl (ap (λ (k : ℕ). u64 (base + k)) (omega arith))
]

mul_mono : (a b k : ℕ) → a ≤ b → a * k ≤ b * k
mul_mono a b k h = grind arith

-- The count of threads for a batch, rounded up.
module _ (count per_thread : ℕ) (few : count ≤ 2 ^ 31 - 2 ^ 11) (lo : 0 < per_thread)
    (hi : per_thread ≤ 256) where
  quotient : ℕ
  quotient = (count + per_thread - 1) / per_thread

  quotient-above : (t o : ℕ) → t * per_thread + o < count → t < quotient
  unfolding quotient
  quotient-above t o h = elim (dec_lt t ((count + per_thread - 1) / per_thread)) [
    | yes lt ↦ lt
    | no ge ↦ absurd (
        omega (
          arith,
          div-add-mod' (count + per_thread - 1) per_thread,
          mod-lt (count + per_thread - 1) lo,
          mul_mono ((count + per_thread - 1) / per_thread) t per_thread (omega arith),
        ))
  ]

  quotient-le : quotient ≤ count + per_thread - 1
  unfolding quotient
  quotient-le = div-le_self (count + per_thread - 1) per_thread

  total_threads_lem : u32 (u64 (count + per_thread - 1) / per_thread) ≡ quotient
  unfolding quotient
  total_threads_lem =
      let e : u64 (count + per_thread - 1) ≡ count + per_thread - 1 = omega arith in
      rw e (omega (arith, div-le_self (count + per_thread - 1) per_thread))

  optimized_threads-above :
      (t o : ℕ) → t * per_thread + o < count → t < optimized_threads count per_thread
  unfolding optimized_threads batch_threads valid_blocks
  optimized_threads-above t o h =
      rw total_threads_lem (ground (arith, quotient-above t o h, quotient-le))

  texture_threads-above :
      (t o : ℕ) → t * per_thread + o < count → t < texture_threads count per_thread
  unfolding texture_threads batch_threads valid_blocks
  texture_threads-above t o h =
      rw total_threads_lem (ground (arith, quotient-above t o h, quotient-le))

  batch-Listed :
      (start k : ℕ)
      → start + count ≤ 2 ^ 64
      → k < count
      → Listed (start + k) (batch_from (u64 (start + k / per_thread * per_thread)) per_thread 0)
  batch-Listed start k s h =
      let base = start + k / per_thread * per_thread in
      subst (λ (n : ℕ). Listed n (batch_from (u64 base) per_thread 0))
        (omega (arith, div-add-mod' k per_thread))
        (Listed-batch per_thread 0 (u64 base) (k % per_thread) (omega arith)
          (omega (arith, mod-lt k lo)))

  optimized_nonces-Listed :
      (start k : ℕ)
      → start + count ≤ 2 ^ 64
      → k < count
      → Listed (start + k) (optimized_nonces start per_thread (k / per_thread))
  unfolding optimized_nonces
  optimized_nonces-Listed start k s h =
      let split = div-add-mod' k per_thread in
      let small = div-le_self k per_thread in
      let a : u32 (k / per_thread) ≡ k / per_thread = omega arith in
      let b : u32 (k / per_thread * per_thread) ≡ k / per_thread * per_thread = omega arith in
      rw (a, b) (batch-Listed start k s h)

  texture_nonces-Listed :
      (start k : ℕ)
      → start + count ≤ 2 ^ 64
      → k < count
      → Listed (start + k) (texture_nonces start per_thread (k / per_thread))
  unfolding texture_nonces
  texture_nonces-Listed start k s h =
      let split = div-add-mod' k per_thread in
      let small = div-le_self k per_thread in
      let a : u32 (k / per_thread) ≡ k / per_thread = omega arith in
      let b : u64 (k / per_thread * per_thread) ≡ k / per_thread * per_thread = omega arith in
      rw (a, b) (batch-Listed start k s h)

  base_nonce-Listed :
      (start k : ℕ)
      → start + count ≤ 2 ^ 64
      → k < count
      → (k < base_threads count) × Listed (start + k) (base_nonce start k ∷ [])
  unfolding base_nonce base_threads valid_blocks
  base_nonce-Listed start k s h = (ground arith, inl (omega arith))

  -- In whatever order the card runs the threads, each of them once at least: a launch of any of the
  -- three kernels tries every nonce from the start nonce on, as many as are asked for, when these are
  -- at most 2^31 - 2^11, none lies beyond 2^64, and a thread takes 1 to 256 nonces.
  pub launches-cover :
      (schedule : ℕ → List ℕ) (start k : ℕ)
      → IsComplete schedule
      → start + count ≤ 2 ^ 64
      → k < count
      → Listed (start + k) (base_tried schedule start count)
        × Listed (start + k) (optimized_tried schedule start count per_thread)
        × Listed (start + k) (texture_tried schedule start count per_thread)
  launches-cover schedule start k complete s h =
      let split : k / per_thread * per_thread + k % per_thread < count =
        omega (arith, div-add-mod' k per_thread) in
      let base = base_nonce-Listed start k s h in
      (
        Listed-threads (λ t. base_nonce start t ∷ []) (start + k) k (schedule (base_threads count))
            (complete (base_threads count) k base.0) base.1,
        Listed-threads (optimized_nonces start per_thread) (start + k) (k / per_thread)
            (schedule (optimized_threads count per_thread))
            (complete (optimized_threads count per_thread) (k / per_thread)
              (optimized_threads-above (k / per_thread) (k % per_thread) split))
            (optimized_nonces-Listed start k s h),
        Listed-threads (texture_nonces start per_thread) (start + k) (k / per_thread)
            (schedule (texture_threads count per_thread))
            (complete (texture_threads count per_thread) (k / per_thread)
              (texture_threads-above (k / per_thread) (k % per_thread) split))
            (texture_nonces-Listed start k s h),
      )

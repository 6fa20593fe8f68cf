-- ===== src/Cuda/SearchKernel/Output.antt =====
-- What a grid leaves in the buffer of solutions, whatever the order of its threads.
use ohmy_miner_etc.Common.{
  ℕ, zero, suc, ◌+◌, ◌^◌, ◌<◌, ◌≤◌, ◌≡◌, refl, sym, ap, ap₂, ◌∙◌, List, [], ◌∷◌, ◌++◌, true, false,
  arith, length, foldl, take, drop, set, ltb, if◌then◌else◌, Bool-cases, inl, inr, length-set,
  append_assoc, length-append, u32, Bool,
}
use ohmy_miner_etc.Pipeline.{DeviceSolution}
use ohmy_miner_etc.Cuda.SearchKernel.{
  SearchOutput, compare_target, is_solution, store_solution, try_nonce,
}
use ohmy_miner_etc.Cuda.SearchHash.{SearchInput, Digest}

-- A nonce whose result meets the target.
unfoldable pub wins : (SearchInput → ℕ → Digest) → SearchInput → ℕ → Bool
wins hash input nonce =
    is_solution (compare_target (take 32 (hash input nonce).1) (take 32 input.target_be))

unfoldable pub found : (SearchInput → ℕ → Digest) → SearchInput → ℕ → DeviceSolution
found hash input nonce = record {
  nonce = nonce;
  mix_hash = (hash input nonce).0;
  result = (hash input nonce).1;
}

-- The solutions of the nonces that win, in order.
unfoldable pub winners : (SearchInput → ℕ → Digest) → SearchInput → List ℕ → List DeviceSolution
winners hash input [] = []
winners hash input (n ∷ nonces) =
    let rest = winners hash input nonces in
    if wins hash input n then found hash input n ∷ rest else rest

-- The buffer after the winners, and the count.
unfoldable pub stored : ℕ → List DeviceSolution → List DeviceSolution → SearchOutput
stored max_solutions slots ws = record {
  solutions = take max_solutions ws ++ drop (length ws) slots;
  solution_count = length ws;
}

-- Solutions written one behind the other, from a slot on.
write_from : ℕ → List DeviceSolution → List DeviceSolution → List DeviceSolution
write_from i slots [] = slots
write_from i slots (w ∷ ws) = write_from (i + 1) (set slots i w) ws

set_outside :
    (slots : List DeviceSolution) (i : ℕ) (w : DeviceSolution)
    → length slots ≤ i
    → set slots i w ≡ slots
set_outside [] i w h = refl
set_outside (s ∷ slots) zero w h = absurd (omega arith)
set_outside (s ∷ slots) (suc i) w h = ap (◌∷◌ s) (set_outside slots i w (omega arith))

set-append :
    (done slots : List DeviceSolution) (s w : DeviceSolution)
    → set (done ++ s ∷ slots) (length done) w ≡ (done ++ w ∷ []) ++ slots
set-append [] slots s w = refl
set-append (d ∷ done) slots s w = ap (◌∷◌ d) (set-append done slots s w)

length-append_one :
    (done : List DeviceSolution) (w : DeviceSolution) → length (done ++ w ∷ []) ≡ length done + 1
length-append_one [] w = refl
length-append_one (d ∷ done) w = omega (arith, length-append_one done w)

write_outside :
    (ws slots : List DeviceSolution) (i : ℕ) → length slots ≤ i → write_from i slots ws ≡ slots
unfolding write_from
write_outside [] slots i h = refl
write_outside (w ∷ ws) slots i h =
    rw (set_outside slots i w h) (write_outside ws slots (i + 1) (omega arith))

write_from-append :
    (ws done slots : List DeviceSolution)
    → write_from (length done) (done ++ slots) ws
      ≡ done ++ (take (length slots) ws ++ drop (length ws) slots)
unfolding write_from
write_from-append [] done [] = refl
write_from-append [] done (s ∷ slots) = refl
write_from-append (w ∷ ws) done [] =
    write_outside (w ∷ ws) (done ++ []) (length done) (omega (arith, length-append done []))
write_from-append (w ∷ ws) done (s ∷ slots) =
    rw (set-append done slots s w, sym (length-append_one done w))
      (write_from-append ws (done ++ w ∷ []) slots ∙ append_assoc done (w ∷ []) _)

-- One nonce, and many.
module _ (hash : SearchInput → ℕ → Digest) (input : SearchInput) (max_solutions : ℕ) where
  try_nonce_win :
      (slots : List DeviceSolution) (i n : ℕ)
      → length slots ≡ max_solutions
      → i + 1 < 2 ^ 32
      → wins hash input n ≡ true
      → try_nonce hash input max_solutions (record { solutions = slots; solution_count = i }) n
        ≡ record { solutions = set slots i (found hash input n); solution_count = i + 1 }
  unfolding try_nonce store_solution wins found
  try_nonce_win slots i n e h w =
      let fits : u32 (i + 1) ≡ i + 1 = omega arith in
      elim (Bool-cases (ltb i max_solutions)) [
        | inl room ↦ rw (w, room, fits) refl
        | inr full ↦
            rw (w, full, fits)
              (ap (λ l. record { solutions = l; solution_count = i + 1 })
                (sym (set_outside slots i (found hash input n) (ground (arith, full)))))
      ]

  try_nonce_lose :
      (out : SearchOutput) (n : ℕ)
      → wins hash input n ≡ false
      → try_nonce hash input max_solutions out n ≡ out
  unfolding try_nonce wins
  try_nonce_lose out n w = rw w refl

  try_nonce-write :
      (nonces : List ℕ) (slots : List DeviceSolution) (i : ℕ)
      → length slots ≡ max_solutions
      → i + length (winners hash input nonces) < 2 ^ 32
      → foldl
          (try_nonce hash input max_solutions)
          (record { solutions = slots; solution_count = i })
          nonces
        ≡ record {
          solutions = write_from i slots (winners hash input nonces);
          solution_count = i + length (winners hash input nonces);
        }
  unfolding winners write_from
  try_nonce-write [] slots i e h =
      ap (λ (k : ℕ). record { solutions = slots; solution_count = k }) (omega arith)
  try_nonce-write (n ∷ nonces) slots i e h = elim (Bool-cases (wins hash input n)) [
    | inl w ↦ rw w (
        ap (λ o. foldl (try_nonce hash input max_solutions) o nonces)
          (try_nonce_win slots i n e (more w h) w)
        ∙ try_nonce-write nonces (set slots i (found hash input n)) (i + 1)
            (length-set slots i (found hash input n) ∙ e) (shift w h)
        ∙ ap
            (λ (k : ℕ). record {
              solutions =
                  write_from (i + 1) (set slots i (found hash input n)) (winners hash input nonces);
              solution_count = k;
            })
            (omega arith))
    | inr l ↦ rw l (
        ap (λ o. foldl (try_nonce hash input max_solutions) o nonces) (try_nonce_lose _ n l)
        ∙ try_nonce-write nonces slots i e (same_count l h))
  ]
    where
      more :
          wins hash input n ≡ true
          → i + length (winners hash input (n ∷ nonces)) < 2 ^ 32
          → i + 1 < 2 ^ 32
      more w h = ground (arith, w, h)

      shift :
          wins hash input n ≡ true
          → i + length (winners hash input (n ∷ nonces)) < 2 ^ 32
          → i + 1 + length (winners hash input nonces) < 2 ^ 32
      shift w h = ground (arith, w, h)

      same_count :
          wins hash input n ≡ false
          → i + length (winners hash input (n ∷ nonces)) < 2 ^ 32
          → i + length (winners hash input nonces) < 2 ^ 32
      same_count w h = ground (arith, w, h)

  pub run-stored :
      (nonces : List ℕ) (slots : List DeviceSolution)
      → length slots ≡ max_solutions
      → length (winners hash input nonces) < 2 ^ 32
      → foldl
          (try_nonce hash input max_solutions)
          (record { solutions = slots; solution_count = 0 })
          nonces
        ≡ stored max_solutions slots (winners hash input nonces)
  unfolding write_from stored
  run-stored nonces slots e h =
      try_nonce-write nonces slots 0 e (omega arith)
      ∙ ap₂ (λ l (k : ℕ). record { solutions = l; solution_count = k })
          (write_from-append (winners hash input nonces) [] slots
            ∙ ap
                (λ (k : ℕ).
                  take k (winners hash input nonces)
                  ++ drop (length (winners hash input nonces)) slots)
                e)
          (omega arith)

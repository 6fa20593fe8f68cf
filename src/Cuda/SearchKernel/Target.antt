-- ===== src/Cuda/SearchKernel/Target.antt =====
-- The comparison of a result with the target: both are numbers of 32 bytes, the first byte highest.
use ohmy_miner_etc.Common.{
  ℕ, ◌+◌, ◌*◌, ◌^◌, ◌<◌, ◌≤◌, ◌≡◌, ◌↔◌, refl, ap, ap₂, List, [], ◌∷◌, true, arith, length, ltb,
  IsBytes, ltb→lt, Bool-cases, inl, inr,
}
use native.Mathlib.Nat.{pow-suc}
use ohmy_miner_etc.Cuda.SearchKernel.{compare_target, is_solution}

unfoldable pub value_be : List ℕ → ℕ
value_be [] = 0
value_be (b ∷ bytes) = b * 256 ^ length bytes + value_be bytes

mul_above : (a b k : ℕ) → a < b → a * k + k ≤ b * k
mul_above a b k h = grind arith

pub value_be-lt : (bytes : List ℕ) → IsBytes bytes → value_be bytes < 256 ^ length bytes
unfolding value_be
value_be-lt [] h = omega arith
value_be-lt (b ∷ bytes) h = omega (
  arith,
  value_be-lt bytes h.1,
  mul_above b 256 (256 ^ length bytes) h.0,
  pow-suc 256 (length bytes),
)

equal_heads :
    (a b : ℕ) (result target : List ℕ)
    → a ≡ b
    → 256 ^ length result ≡ 256 ^ length target
    → (is_solution (compare_target result target) ≡ true) ↔ (value_be result ≤ value_be target)
    → (is_solution (compare_target result target) ≡ true)
      ↔ (a * 256 ^ length result + value_be result ≤ b * 256 ^ length target + value_be target)
equal_heads a b result target e q ih =
    let m = ap₂ (λ (x y : ℕ). x * y) e q in
    (λ t. omega (arith, m, ih.0 t), λ p. ih.1 (omega (arith, m, p)))

-- A result is taken for a solution exactly when, as a big-endian number, it is at most the target.
pub is_solution-le :
    (result target : List ℕ)
    → length result ≡ length target
    → IsBytes result
    → IsBytes target
    → (is_solution (compare_target result target) ≡ true) ↔ (value_be result ≤ value_be target)
unfolding is_solution compare_target value_be
is_solution-le [] [] e h k = (λ _. omega arith, λ _. refl)
is_solution-le [] (b ∷ target) e h k = absurd (omega arith)
is_solution-le (a ∷ result) [] e h k = absurd (omega arith)
is_solution-le (a ∷ result) (b ∷ target) e h k =
    let q : length result ≡ length target = omega arith in
    let pq = ap (λ (n : ℕ). 256 ^ n) q in
    let am = ap (λ (t : ℕ). a * t) pq in
    let va = value_be-lt result h.1 in
    let vb = value_be-lt target k.1 in
    elim (Bool-cases (ltb a b)) [
      | inl lt ↦ rw lt (
        (λ _. omega (arith, am, pq, va, mul_above a b (256 ^ length target) (ltb→lt a b lt))),
        (λ _. refl),
      )
      | inr ge ↦ rw ge (elim (Bool-cases (ltb b a)) [
        | inl gt ↦ rw gt (
          (λ f. cc),
          (λ p.
              absurd (
                omega (arith, p, am, pq, vb, mul_above b a (256 ^ length target) (ltb→lt b a gt)))),
        )
        | inr le ↦ rw le (
            equal_heads a b result target (ground (arith, ge, le)) pq
              (is_solution-le result target q h.1 k.1))
      ])
    ]

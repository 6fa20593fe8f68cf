-- ===== src/Cuda/SearchKernel/Found.antt =====
-- Which nonces win, and what is found of them.
use ohmy_miner_etc.Common.{
  ℕ, ◌≤◌, ◌≡◌, ◌↔◌, inl, inr, refl, sym, ap, ◌∙◌, List, [], ◌∷◌, true, arith, length, take_all,
  IsBytes, Bool-cases,
}
use ohmy_miner_etc.Pipeline.{DeviceSolution}
use ohmy_miner_etc.Cuda.SearchHash.{SearchInput, Digest, search_hash}
use ohmy_miner_etc.Cuda.SearchKernel.Target.{value_be, is_solution-le}
use ohmy_miner_etc.Cuda.SearchKernel.Output.{wins, found, winners}
use ohmy_miner_etc.Cuda.SearchKernel.Nonces.{Listed}
use ohmy_miner_etc.Cuda.SearchHash.Result.{result_of, result-IsBytes}

-- A nonce wins exactly when its result, as a number, is at most the target.
pub wins-le :
    (input : SearchInput) (nonce : ℕ)
    → length input.target_be ≡ 32
    → IsBytes input.target_be
    → (wins search_hash input nonce ≡ true)
      ↔ (value_be (result_of input nonce) ≤ value_be input.target_be)
unfolding wins
wins-le input nonce e h =
    let b = result-IsBytes input nonce in
    rw
      (
        take_all 32 (result_of input nonce) (omega (arith, b.0)),
        take_all 32 input.target_be (omega arith),
      )
      (is_solution-le (result_of input nonce) input.target_be (b.0 ∙ sym e) b.1 h)

module _ (hash : SearchInput → ℕ → Digest) (input : SearchInput) where
  pub winners-Listed :
      (n : ℕ) (nonces : List ℕ)
      → Listed n nonces
      → wins hash input n ≡ true
      → Listed (found hash input n) (winners hash input nonces)
  unfolding winners
  winners-Listed n [] h w = h
  winners-Listed n (m ∷ nonces) (inl e) w =
      let w' : wins hash input m ≡ true = ap (wins hash input) (sym e) ∙ w in
      rw w' (inl (ap (found hash input) e))
  winners-Listed n (m ∷ nonces) (inr h) w = elim (Bool-cases (wins hash input m)) [
    | inl t ↦ rw t (inr (winners-Listed n nonces h w))
    | inr f ↦ rw f (winners-Listed n nonces h w)
  ]

  pub Listed-winners :
      (s : DeviceSolution) (nonces : List ℕ)
      → Listed s (winners hash input nonces)
      → (n : ℕ) × Listed n nonces × (wins hash input n ≡ true) × (s ≡ found hash input n)
  unfolding winners
  Listed-winners s [] h = absurd h
  Listed-winners s (m ∷ nonces) h = elim (Bool-cases (wins hash input m)) [
    | inl t ↦ elim (rw t at h) [
      | inl e ↦ (m, inl refl, t, e)
      | inr k ↦ let r = Listed-winners s nonces k in (r.0, inr r.1, r.2, r.3)
    ]
    | inr f ↦ let r = Listed-winners s nonces (rw f at h) in (r.0, inr r.1, r.2, r.3)
  ]

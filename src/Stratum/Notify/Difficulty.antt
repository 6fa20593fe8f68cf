-- ===== src/Stratum/Notify/Difficulty.antt =====
-- What `mining.set_difficulty` makes of the difficulty that a pool sends.
use native.Mathlib.Nat.{div-mul-le_self, div-add-mod', mod-lt}
use ohmy_miner_etc.Common.{
  ℕ, zero, suc, ◌+◌, ◌*◌, ◌/◌, ◌%◌, ◌<◌, ◌≤◌, ◌≡◌, refl, sym, ap, ◌∙◌, List, [], ◌∷◌, true, Option,
  none, some, arith, if◌then◌else◌, if-true, ltb, leb, max_u64, subst,
}
use ohmy_miner_etc.Stratum.{Client, Event, difficulty_changed}
use ohmy_miner_etc.Stratum.Json.{JsonLibrary}
use ohmy_miner_etc.Stratum.Notify.{
  target_of, read_difficulty, take_difficulty, set_difficulty, or_unchanged,
}

-- The 64-bit target of a difficulty: the largest number whose product with it fits 64 bits.
pub record IsTarget (difficulty target : ℕ) : Type 0 where
  pub fits : target * difficulty ≤ max_u64
  pub largest : 0 < difficulty → max_u64 < (target + 1) * difficulty
  pub unlimited : difficulty ≡ 0 → target ≡ max_u64

quotient-fits : (d : ℕ) → 0 < d → (max_u64 / d * d ≤ max_u64) × (max_u64 < (max_u64 / d + 1) * d)
quotient-fits d h =
    let whole : max_u64 / d * d + max_u64 % d ≡ max_u64 = div-add-mod' max_u64 d in
    let below : max_u64 % d < d = mod-lt max_u64 h in
    let next : (max_u64 / d + 1) * d ≡ max_u64 / d * d + d = step (max_u64 / d) d in
    (div-mul-le_self max_u64 d, omega (arith, whole, below, next))
  where
    step : (q d : ℕ) → (q + 1) * d ≡ q * d + d
    step q d = grind arith

target_of-IsTarget : (difficulty : ℕ) → IsTarget difficulty (target_of difficulty)
unfolding target_of
target_of-IsTarget zero = record {
  fits = omega arith;
  largest = λ h. absurd (omega (arith, h));
  unlimited = λ _. refl;
}
target_of-IsTarget (suc d) =
    let positive : ltb 0 (suc d) ≡ true = ground arith in
    let q = quotient-fits (suc d) (omega arith) in
    subst (IsTarget (suc d)) (sym (if-true (max_u64 / suc d) max_u64 positive))
      record { fits = q.0; largest = λ _. q.1; unlimited = λ e. absurd (omega (arith, e)) }

module _ (J : JsonLibrary) (stale : List ℕ) where
  open J use {Json, size}

  -- A difficulty that the pool sends is taken with the 64-bit target that belongs to it, the largest
  -- number whose product with the difficulty fits 64 bits, or the maximum for 0; nothing else of the
  -- client changes, and the difficulty is handed to the callback when there is one. If it cannot be
  -- read, nothing changes.
  pub set_difficulty-IsTarget :
      (c : Client) (params : Json)
      → 1 ≤ size params
      → ((difficulty : ℕ)
          → read_difficulty J stale params ≡ some difficulty
          → (target : ℕ) × IsTarget difficulty target
            × (set_difficulty J stale c params ≡ (
              record c {
                current_difficulty = difficulty;
                current_job = record (c.current_job) { target = target };
              },
              if c.on_difficulty then difficulty_changed difficulty ∷ [] else [],
            )))
        × (read_difficulty J stale params ≡ none → set_difficulty J stale c params ≡ (c, []))
  unfolding set_difficulty take_difficulty
  set_difficulty-IsTarget c params h =
      let enough : leb 1 (size params) ≡ true = ground (arith, h) in
      let take : Option ℕ → Client × List Event =
        λ o. or_unchanged J stale c o (take_difficulty J stale c) in
      let entered : set_difficulty J stale c params ≡ take (read_difficulty J stale params) =
        if-true (take (read_difficulty J stale params)) (c, []) enough in
      (
        (λ difficulty e.
            (target_of difficulty, target_of-IsTarget difficulty, entered ∙ ap take e)),
        λ e. entered ∙ ap take e,
      )

-- ===== src/Cuda/Callback/Answers.antt =====
-- The answers of the pool to the solutions of a callback, and what the loop counts of them.
use ohmy_miner_etc.Common.{
  ℕ, suc, ◌+◌, ◌^◌, ◌<◌, ◌≤◌, ◌≡◌, inl, inr, refl, ap, ap₂, ◌∙◌, List, [], ◌∷◌, Bool, true, false,
  none, some, Bool-cases, if-true, if-false, ◌⊎◌, ◌++◌, arith, length, u32, if◌then◌else◌,
}
use ohmy_miner_etc.Types.{Solution}
use ohmy_miner_etc.Stratum.{Client}
use ohmy_miner_etc.Stratum.Json.{JsonLibrary}
use ohmy_miner_etc.Stratum.Session.{submit_solution, submit_throws, count_message}
use ohmy_miner_etc.Stratum.Session.Submit.{IsSubmitted, submit_solution-IsSubmitted}
use ohmy_miner_etc.Cuda.Callback.{submit_each, thrown_at}

module _ (J : JsonLibrary) (stale : List ℕ) where
  -- The answers of the pool to the solutions, one after the other.
  pub answers : Client → List Solution → List Bool
  answers c [] = []
  answers c (s ∷ solutions) = let r = submit_solution J stale c s in r.1 ∷ answers r.0 solutions

  pub client_after : Client → List Solution → Client
  client_after c [] = c
  client_after c (s ∷ solutions) = client_after (submit_solution J stale c s).0 solutions

pub rejections : List Bool → ℕ
rejections [] = 0
rejections (true ∷ bs) = rejections bs
rejections (false ∷ bs) = suc (rejections bs)

pub acceptances : List Bool → ℕ
acceptances [] = 0
acceptances (true ∷ bs) = suc (acceptances bs)
acceptances (false ∷ bs) = acceptances bs

rejections-length : (bs : List Bool) → acceptances bs + rejections bs ≡ length bs
unfolding rejections acceptances
rejections-length [] = refl
rejections-length (true ∷ bs) = omega (arith, rejections-length bs)
rejections-length (false ∷ bs) = omega (arith, rejections-length bs)

module _ (J : JsonLibrary) (stale : List ℕ) where
  length-answers :
      (c : Client) (solutions : List Solution)
      → length (answers J stale c solutions) ≡ length solutions
  unfolding answers
  length-answers c [] = refl
  length-answers c (s ∷ solutions) =
      ap suc (length-answers (submit_solution J stale c s).0 solutions)

  -- What the counts of the loop come to from a first answer on.
  abbrev IsCounted : Client → List Solution → ℕ → ℕ → Type 0
  IsCounted c solutions successes failures = submit_each J stale c solutions successes failures ≡ (
    client_after J stale c solutions,
    successes + acceptances (answers J stale c solutions),
    failures + rejections (answers J stale c solutions),
  )

  first_counted :
      (r : Client × Bool) (solutions : List Solution) (successes failures : ℕ)
      → ((a b : ℕ) → a + b + length solutions < 2 ^ 32 → IsCounted r.0 solutions a b)
      → successes + failures + suc (length solutions) < 2 ^ 32
      → submit_each J stale r.0 solutions
          (if r.1 then u32 (successes + 1) else successes)
          (if r.1 then failures else u32 (failures + 1))
        ≡ (
          client_after J stale r.0 solutions,
          successes + acceptances (r.1 ∷ answers J stale r.0 solutions),
          failures + rejections (r.1 ∷ answers J stale r.0 solutions),
        )
  unfolding acceptances rejections
  first_counted (c, true) solutions successes failures ih h =
      let e : u32 (successes + 1) ≡ successes + 1 = omega arith in
      rw e (
        ih (successes + 1) failures (omega arith)
        ∙ ap
            (λ (n : ℕ). (
              client_after J stale c solutions,
              n,
              failures + rejections (answers J stale c solutions),
            ))
            (omega arith))
  first_counted (c, false) solutions successes failures ih h =
      let e : u32 (failures + 1) ≡ failures + 1 = omega arith in
      rw e (
        ih successes (failures + 1) (omega arith)
        ∙ ap
            (λ (n : ℕ). (
              client_after J stale c solutions,
              successes + acceptances (answers J stale c solutions),
              n,
            ))
            (omega arith))

  pub submit_each-IsCounted :
      (c : Client) (solutions : List Solution) (successes failures : ℕ)
      → successes + failures + length solutions < 2 ^ 32
      → IsCounted c solutions successes failures
  unfolding submit_each client_after answers
  submit_each-IsCounted c [] successes failures h =
      unfold acceptances rejections in ap₂ (λ (a b : ℕ). (c, a, b)) (omega arith) (omega arith)
  submit_each-IsCounted c (s ∷ solutions) successes failures h =
      let r = submit_solution J stale c s in
      first_counted r solutions successes failures (submit_each-IsCounted r.0 solutions) h

  -- No submission throws.
  abbrev pub AreDumped : Client → List Solution → Type 0
  AreDumped c [] = Unit
  AreDumped c (s ∷ solutions) =
      (submit_throws J stale c s ≡ false) × AreDumped (submit_solution J stale c s).0 solutions

  -- The first submission that throws, and the client that the handler finds: the solutions before it
  -- are submitted, and the id of its own request is counted.
  pub record IsThrown (c : Client) (solutions : List Solution) (d : Client) : Type 0 where
    pub before : List Solution
    pub at : Solution
    pub after : List Solution
    pub split : solutions ≡ before ++ at ∷ after
    pub dumped : AreDumped c before
    pub throws : submit_throws J stale (client_after J stale c before) at ≡ true
    pub client : d ≡ count_message (client_after J stale c before)

  abbrev IsCaught : Client → List Solution → Type 0
  IsCaught c solutions =
      ((thrown_at J stale c solutions ≡ none) × AreDumped c solutions)
      ⊎ ((d : Client) × (thrown_at J stale c solutions ≡ some d) × IsThrown c solutions d)

  pub thrown_at-IsCaught : (c : Client) (solutions : List Solution) → IsCaught c solutions
  unfolding thrown_at client_after
  thrown_at-IsCaught c [] = inl (refl, tt)
  thrown_at-IsCaught c (s ∷ solutions) =
      let d = (submit_solution J stale c s).0 in
      let rest = thrown_at J stale d solutions in
      elim (Bool-cases (submit_throws J stale c s)) [
        | inl e ↦ inr (
          count_message c,
          if-true (some (count_message c)) rest e,
          record {
            before = [];
            at = s;
            after = solutions;
            split = refl;
            dumped = tt;
            throws = e;
            client = refl;
          },
        )
        | inr e ↦ elim (thrown_at-IsCaught d solutions) [
          | inl h ↦ inl (if-false (some (count_message c)) rest e ∙ h.0, (e, h.1))
          | inr (f, t, h) ↦ inr (
            f,
            if-false (some (count_message c)) rest e ∙ t,
            record {
              before = s ∷ h.before;
              at = h.at;
              after = h.after;
              split = ap (◌∷◌ s) h.split;
              dumped = (e, h.dumped);
              throws = h.throws;
              client = h.client;
            },
          )
        ]
      ]

  -- Requests go out for the accepted solutions, and for no more than there are.
  pub sent_bounds :
      (c : Client) (solutions : List Solution)
      → (acceptances (answers J stale c solutions) + length c.sent
          ≤ length (client_after J stale c solutions).sent)
        × (length (client_after J stale c solutions).sent ≤ length c.sent + length solutions)
  unfolding client_after answers acceptances
  sent_bounds c [] = (omega arith, omega arith)
  sent_bounds c (s ∷ solutions) =
      let r = submit_solution J stale c s in
      first_sent r (answers J stale r.0 solutions) (submit_solution-IsSubmitted J stale c s)
        (sent_bounds r.0 solutions)
    where
      first_sent :
          (r : Client × Bool) (bs : List Bool)
          → IsSubmitted J stale c s r
          → (acceptances bs + length r.0.sent ≤ length (client_after J stale r.0 solutions).sent)
            × (length (client_after J stale r.0 solutions).sent
                ≤ length r.0.sent + length solutions)
          → (acceptances (r.1 ∷ bs) + length c.sent
              ≤ length (client_after J stale r.0 solutions).sent)
            × (length (client_after J stale r.0 solutions).sent
                ≤ length c.sent + suc (length solutions))
      first_sent (d, true) bs i h = elim i.log [
        | inl l ↦ absurd (ground (arith, l.0))
        | inr l ↦ (omega (arith, ap length l, h.0), omega (arith, ap length l, h.1))
      ]
      first_sent (d, false) bs i h = elim i.log [
        | inl l ↦ (omega (arith, ap length l.1, h.0), omega (arith, ap length l.1, h.1))
        | inr l ↦ (omega (arith, ap length l, h.0), omega (arith, ap length l, h.1))
      ]

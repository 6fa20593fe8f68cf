-- ===== src/Cuda/Callback/Submitted.antt =====
-- What the callback submits, and what its error tracker says afterwards.
use ohmy_miner_etc.Common.{
  ℕ, zero, suc, ◌+◌, ◌^◌, ◌<◌, ◌≤◌, ◌≡◌, ◌⊎◌, inl, inr, refl, sym, subst, ap, List, [], ◌∷◌, true,
  false, Option, none, some, arith, length, u32, if◌then◌else◌, ltb, ◌==◌, Bool-cases,
}
use ohmy_miner_etc.Types.{Solution}
use ohmy_miner_etc.Stratum.{Client}
use ohmy_miner_etc.Stratum.Json.{JsonLibrary}
use ohmy_miner_etc.Cuda.Callback.{
  ResultCallbackData, CallbackErrorTracker, record_error, null_data, null_client,
  failed_submissions, exception_in_callback, thrown_at, caught, submit_results, process_results,
}
use ohmy_miner_etc.Cuda.Callback.Answers.{
  AreDumped, IsThrown, thrown_at-IsCaught, answers, client_after, rejections, acceptances,
  submit_each-IsCounted, sent_bounds,
}

abbrev pub solutions_of : Option ResultCallbackData → List Solution
solutions_of none = []
solutions_of (some d) = d.solutions

-- The tracker after so many failures.
pub reported : CallbackErrorTracker → (failures submissions : ℕ) → CallbackErrorTracker
reported t zero submissions = t
reported t (suc failures) submissions =
    record_error t (failed_submissions (suc failures) submissions)

-- The five ways a callback ends: without data, without solutions, without a client, with an exception,
-- and after it has submitted the solutions.
pub data IsReported (J : JsonLibrary) (stale : List ℕ) (t : CallbackErrorTracker) (c : Client)
    : Option ResultCallbackData → CallbackErrorTracker × Client → Type 0 where
  no_data : IsReported J stale t c none (record_error t null_data, c)
  no_solutions :
      {d : ResultCallbackData} → d.solutions ≡ [] → IsReported J stale t c (some d) (t, c)
  no_client :
      {d : ResultCallbackData}
      → 0 < length d.solutions
      → d.has_client ≡ false
      → IsReported J stale t c (some d) (record_error t null_client, c)
  threw :
      {d : ResultCallbackData} {c' : Client}
      → d.has_client ≡ true
      → IsThrown J stale c d.solutions c'
      → IsReported J stale t c (some d) (record_error t exception_in_callback, c')
  submitted :
      {d : ResultCallbackData}
      → 0 < length d.solutions
      → d.has_client ≡ true
      → AreDumped J stale c d.solutions
      → acceptances (answers J stale c d.solutions) + length c.sent
        ≤ length (client_after J stale c d.solutions).sent
      → length (client_after J stale c d.solutions).sent ≤ length c.sent + length d.solutions
      → IsReported J stale t c (some d) (
        reported t (rejections (answers J stale c d.solutions)) (length d.solutions),
        client_after J stale c d.solutions,
      )

module _ (J : JsonLibrary) (stale : List ℕ) (t : CallbackErrorTracker) (c : Client)
    (d : ResultCallbackData) where
  unsubmitted : length d.solutions ≡ 0 → submit_results J stale t c d ≡ (t, c)
  unfolding submit_results
  unsubmitted e = rw e refl

  unconnected :
      0 < length d.solutions
      → length d.solutions < 2 ^ 32
      → d.has_client ≡ false
      → submit_results J stale t c d ≡ (record_error t null_client, c)
  unfolding submit_results
  unconnected more h e =
      let f : (u32 (length d.solutions) == 0) ≡ false = ground arith in rw f (rw e refl)

  thrown_lem :
      (c' : Client)
      → 0 < length d.solutions
      → length d.solutions < 2 ^ 32
      → d.has_client ≡ true
      → thrown_at J stale c d.solutions ≡ some c'
      → submit_results J stale t c d ≡ (record_error t exception_in_callback, c')
  unfolding submit_results caught
  thrown_lem c' more h e thrown =
      let f : (u32 (length d.solutions) == 0) ≡ false = ground arith in rw f (rw e (rw thrown refl))

  counted :
      0 < length d.solutions
      → length d.solutions < 2 ^ 32
      → d.has_client ≡ true
      → thrown_at J stale c d.solutions ≡ none
      → submit_results J stale t c d ≡ (
        reported t (rejections (answers J stale c d.solutions)) (length d.solutions),
        client_after J stale c d.solutions,
      )
  unfolding submit_results caught
  counted more h e dumped =
      let w : u32 (length d.solutions) ≡ length d.solutions = omega arith in
      let f : (length d.solutions == 0) ≡ false = ground arith in
      let n = rejections (answers J stale c d.solutions) in
      let z : 0 + n ≡ n = omega arith in
      rw w (
        rw f (
          rw e (
            rw dumped (
              rw (submit_each-IsCounted J stale c d.solutions 0 0 (omega arith))
                (rw z (report n))))))
    where
      report :
          (n : ℕ)
          → ◌≡◌ {A = CallbackErrorTracker × Client}
              (if ltb 0 n
                then (
                  record_error t (failed_submissions n (length d.solutions)),
                  client_after J stale c d.solutions,
                )
                else (t, client_after J stale c d.solutions))
              (reported t n (length d.solutions), client_after J stale c d.solutions)
      report zero = unfold reported in refl
      report (suc n) =
          let more : ltb 0 (suc n) ≡ true = ground arith in rw more (unfold reported in refl)

decide_empty : (solutions : List Solution) → (solutions ≡ []) ⊎ (0 < length solutions)
decide_empty [] = inl refl
decide_empty (s ∷ solutions) = inr (omega arith)

-- The callback with fewer than 2^32 solutions: without data or without a client it does nothing but
-- record that error, without solutions nothing. Otherwise it submits the solutions in their order, up
-- to the first whose request is not UTF-8, if there is one: then it records the exception, the
-- solutions before that one have been submitted, and the id of its request is counted. If there is
-- none, each solution is submitted once, at least as many requests go out as solutions are accepted and at most as many as there
-- are, and the tracker is unchanged when none was rejected, else it records how many of how many
-- were.
pub process_results-IsReported :
    (J : JsonLibrary) (stale : List ℕ) (t : CallbackErrorTracker) (c : Client)
    (d : Option ResultCallbackData)
    → length (solutions_of d) < 2 ^ 32
    → IsReported J stale t c d (process_results J stale t c d)
unfolding process_results
process_results-IsReported J stale t c none h = no_data
process_results-IsReported J stale t c (some d) h =
    let sent = sent_bounds J stale c d.solutions in
    let Reports = λ (r : CallbackErrorTracker × Client). IsReported J stale t c (some d) r in
    elim (decide_empty d.solutions) [
      | inl e ↦ subst Reports (sym (unsubmitted J stale t c d (ap length e))) (no_solutions e)
      | inr more ↦ elim (Bool-cases d.has_client) [
        | inl e ↦ elim (thrown_at-IsCaught J stale c d.solutions) [
          | inl quiet ↦
              subst Reports (sym (counted J stale t c d more h e quiet.0))
                (submitted more e quiet.1 sent.0 sent.1)
          | inr (c', thrown, is_thrown) ↦
              subst Reports (sym (thrown_lem J stale t c d c' more h e thrown)) (threw e is_thrown)
        ]
        | inr e ↦ subst Reports (sym (unconnected J stale t c d more h e)) (no_client more e)
      ]
    ]

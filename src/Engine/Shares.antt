-- ===== src/Engine/Shares.antt =====
-- The shares that the engine submits and counts.
use ohmy_miner_etc.Common.{
  ℕ, ◌+◌, ◌<◌, ◌≤◌, ◌^◌, ◌≡◌, refl, sym, ap, ◌∙◌, ◌⊎◌, inl, inr, List, [], ◌∷◌, ◌++◌, append_assoc,
  All, All-append, Bool, true, false, arith, length,
}
use ohmy_miner_etc.Types.{Solution}
use ohmy_miner_etc.Stratum.{Client, Request}
use ohmy_miner_etc.Stratum.Json.{JsonLibrary}
use ohmy_miner_etc.Stratum.Session.{submit_solution, submission}
use ohmy_miner_etc.Stratum.Session.Submit.{IsSubmitted, submit_solution-IsSubmitted}
use ohmy_miner_etc.Cuda.SearchKernel.Nonces.{Listed}
use ohmy_miner_etc.Engine.{MiningEngine, count_share, process_solutions}

-- The request for one of the solutions, under the job id of the batch, by a client with the job and the
-- worker of the given one.
abbrev pub IsRequestFor : Client → List Solution → List ℕ → Request → Type 0
IsRequestFor c solutions job_id request =
    (d : Client) × (s : Solution) × Listed s solutions
    × (d.current_job ≡ c.current_job)
    × (d.current_worker ≡ c.current_worker)
    × (request ≡ submission d (record s { job_id = job_id }))

-- What submitting the solutions of a batch counts and sends.
pub record AreSubmitted (J : JsonLibrary) (stale : List ℕ) (e : MiningEngine)
    (solutions : List Solution) (job_id : List ℕ) (f : MiningEngine) : Type 0 where
  pub counted :
      f.accepted_shares + f.rejected_shares
      ≡ e.accepted_shares + e.rejected_shares + length solutions
  pub more : e.accepted_shares ≤ f.accepted_shares
  pub sent : length f.client.sent ≤ length e.client.sent + length solutions
  pub accepted : f.accepted_shares + length e.client.sent ≤ e.accepted_shares + length f.client.sent
  pub job : f.client.current_job ≡ e.client.current_job
  pub worker : f.client.current_worker ≡ e.client.current_worker
  pub requests : List Request
  pub log : f.client.sent ≡ requests ++ e.client.sent
  pub request_for : All (IsRequestFor e.client solutions job_id) requests

-- What a submission appends to the log.
logged :
    {A : Type 0} (c d : Client) (s : Solution) (job_id : List ℕ)
    → (A × (d.sent ≡ c.sent)) ⊎ (d.sent ≡ submission c (record s { job_id = job_id }) ∷ c.sent)
    → (requests : List Request) × (d.sent ≡ requests ++ c.sent)
      × All (IsRequestFor c (s ∷ []) job_id) requests
logged c d s job_id (inl l) = ([], l.1, tt)
logged c d s job_id (inr e) =
    (submission c (record s { job_id = job_id }) ∷ [], e, ((c, s, inl refl, refl, refl, refl), tt))

-- The requests of some of the solutions are requests of all of them.
widen :
    (c d : Client) (some_of solutions : List Solution) (job_id : List ℕ)
    → d.current_job ≡ c.current_job
    → d.current_worker ≡ c.current_worker
    → ((s : Solution) → Listed s some_of → Listed s solutions)
    → (requests : List Request) → All (IsRequestFor d some_of job_id) requests
    → All (IsRequestFor c solutions job_id) requests
widen c d some_of solutions job_id job worker more [] h = tt
widen c d some_of solutions job_id job worker more (r ∷ requests) ((a, s, l, j, w, e), rest) = (
  (a, s, more s l, j ∙ job, w ∙ worker, e),
  widen c d some_of solutions job_id job worker more requests rest,
)

Listed-first :
    (s solution : Solution) (solutions : List Solution)
    → Listed s (solution ∷ [])
    → Listed s (solution ∷ solutions)
Listed-first s solution solutions (inl e) = inl e
Listed-first s solution solutions (inr h) = absurd h

module _ (J : JsonLibrary) (stale : List ℕ) where
  count_share-AreSubmitted :
      (e : MiningEngine) (solution : Solution) (job_id : List ℕ) (r : Client × Bool)
      → e.accepted_shares + e.rejected_shares + 1 < 2 ^ 32
      → IsSubmitted J stale e.client (record solution { job_id = job_id }) r
      → AreSubmitted J stale e (solution ∷ []) job_id (count_share e r)
  unfolding count_share
  count_share-AreSubmitted e solution job_id (client, true) small h = record {
    counted = omega arith;
    more = omega arith;
    sent = elim h.log [ inl l ↦ absurd (ground (arith, l.0)) | inr l ↦ omega (arith, ap length l) ];
    accepted = elim h.log [
      | inl l ↦ absurd (ground (arith, l.0))
      | inr l ↦ omega (arith, ap length l)
    ];
    job = h.job;
    worker = h.worker;
    requests = (logged e.client client solution job_id h.log).0;
    log = (logged e.client client solution job_id h.log).1;
    request_for = (logged e.client client solution job_id h.log).2;
  }
  count_share-AreSubmitted e solution job_id (client, false) small h = record {
    counted = omega arith;
    more = omega arith;
    sent = elim h.log [ inl l ↦ omega (arith, ap length l.1) | inr l ↦ omega (arith, ap length l) ];
    accepted = elim h.log [
      | inl l ↦ omega (arith, ap length l.1)
      | inr l ↦ omega (arith, ap length l)
    ];
    job = h.job;
    worker = h.worker;
    requests = (logged e.client client solution job_id h.log).0;
    log = (logged e.client client solution job_id h.log).1;
    request_for = (logged e.client client solution job_id h.log).2;
  }

  -- A batch of solutions, when the two counters have room for it: each solution is counted exactly once,
  -- as accepted or as rejected; at most one request goes out for each; no more shares are
  -- counted as accepted than requests went out; every request that goes out is the submission of one of
  -- the solutions, under the job id of the batch, for the job and the worker of the client; and this
  -- job and worker do not change meanwhile.
  pub process_solutions-AreSubmitted :
      (e : MiningEngine) (solutions : List Solution) (job_id : List ℕ)
      → e.accepted_shares + e.rejected_shares + length solutions < 2 ^ 32
      → AreSubmitted J stale e solutions job_id (process_solutions J stale e solutions job_id)
  unfolding process_solutions
  process_solutions-AreSubmitted e [] job_id small = record {
    counted = omega arith;
    more = omega arith;
    sent = omega arith;
    accepted = omega arith;
    job = refl;
    worker = refl;
    requests = [];
    log = refl;
    request_for = tt;
  }
  process_solutions-AreSubmitted e (solution ∷ solutions) job_id small =
      let labelled : Solution = record solution { job_id = job_id } in
      let r = submit_solution J stale e.client labelled in
      let f = count_share e r in
      let first =
        count_share-AreSubmitted e solution job_id r (omega arith)
          (submit_solution-IsSubmitted J stale e.client labelled) in
      let rest = process_solutions-AreSubmitted f solutions job_id (omega (arith, first.counted)) in
      record {
        counted = omega (arith, first.counted, rest.counted);
        more = omega (arith, first.more, rest.more);
        sent = omega (arith, first.sent, rest.sent);
        accepted = omega (arith, first.accepted, rest.accepted);
        job = rest.job ∙ first.job;
        worker = rest.worker ∙ first.worker;
        requests = rest.requests ++ first.requests;
        log =
            rest.log
            ∙ ap (◌++◌ rest.requests) first.log
            ∙ sym (append_assoc rest.requests first.requests e.client.sent);
        request_for =
            All-append (IsRequestFor e.client (solution ∷ solutions) job_id) rest.requests
              first.requests
              (widen e.client f.client solutions (solution ∷ solutions) job_id first.job
                first.worker (λ s l. inr l) rest.requests rest.request_for)
              (widen e.client e.client (solution ∷ []) (solution ∷ solutions) job_id refl refl
                (λ s l. Listed-first s solution solutions l) first.requests first.request_for);
      }

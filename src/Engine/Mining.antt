-- ===== src/Engine/Mining.antt =====
-- An iteration of the mining loop with the device manager in it, from the job to the shares.
use ohmy_miner_etc.Common.{
  ℕ, ◌+◌, ◌^◌, ◌<◌, ◌≤◌, ◌≡◌, ◌≢◌, ◌∙◌, ◌⊎◌, inl, inr, sym, ap, subst, List, [], not, if-false,
  true, false, length, arith, IsBytes, ◌==◌,
}
use ohmy_miner_etc.Types.{Solution}
use ohmy_miner_etc.Stratum.Json.{JsonLibrary}
use ohmy_miner_etc.Launcher.Choice.{IsCached}
use ohmy_miner_etc.Executor.{solution_of}
use ohmy_miner_etc.Cuda.SearchHash.{SearchInput, search_hash}
use ohmy_miner_etc.Cuda.SearchHash.Result.{result_of}
use ohmy_miner_etc.Cuda.SearchKernel.Target.{value_be}
use ohmy_miner_etc.Cuda.SearchKernel.Output.{found, winners}
use ohmy_miner_etc.Cuda.SearchKernel.Nonces.{Listed, IsComplete}
use ohmy_miner_etc.Cuda.DeviceManager.{Card, DeviceManager, max_found, search_now}
use ohmy_miner_etc.Cuda.DeviceManager.Launched.{tried}
use ohmy_miner_etc.Cuda.DeviceManager.Found.{input, launched, search_sync-length, search_sync-found}
use ohmy_miner_etc.Engine.{MiningEngine, Searcher, mine}
use ohmy_miner_etc.Engine.Shares.{AreSubmitted, process_solutions-AreSubmitted}

-- The search of the loop, on a device manager.
pub searcher_of : Card → DeviceManager → Searcher
searcher_of card m header seed target start count =
    (search_now card m header seed target start count []).2

module _ (J : JsonLibrary) (stale : List ℕ) (card : Card) (m : DeviceManager)
    (e : MiningEngine) where
  -- The solutions of an iteration.
  abbrev pub handed_out : List Solution
  handed_out =
      searcher_of card m e.current_job.header_hash e.current_job.seed_hash e.current_target 0
        10000000

  -- What its kernels are launched with, and the nonces that their threads try.
  abbrev pub job_input : SearchInput
  job_input =
      input card m e.current_job.header_hash e.current_job.seed_hash e.current_target 0 10000000

  abbrev pub job_tried : List ℕ
  job_tried = tried card (
      launched card m e.current_job.header_hash e.current_job.seed_hash e.current_target 0 10000000)

  -- An engine with a job and a difficulty, with room for 16 shares in its counters, and a manager that is
  -- initialized, with a DAG, its stream and a buffer of 16 solutions, whose launcher has cached 1 to
  -- 256 nonces for a thread if anything; a target of 32 bytes; and threads that, in whatever order the
  -- card runs them, find fewer than 2^32 solutions. Then an iteration counts each solution that it
  -- gets once, as accepted or as rejected, sends at most one request for each, each under the id of
  -- the job, counts no more as accepted than it has sent, and keeps the job; and every nonce below 10000000 whose result for the
  -- job is at most the target is among these solutions, unless there are 16.
  pub mine-found :
      (k : ℕ)
      → e.has_job ≡ true
      → e.last_difficulty ≢ 0
      → e.accepted_shares + e.rejected_shares + max_found < 2 ^ 32
      → m.pipeline_initialized ≡ true
      → m.stream_compute ≢ 0
      → m.d_dag ≢ 0
      → IsCached m.kernel_config
      → length card.fresh ≡ max_found
      → IsComplete card.schedule
      → length e.current_target ≡ 32
      → IsBytes e.current_target
      → length (winners search_hash job_input job_tried) < 2 ^ 32
      → k < 10000000
      → value_be (result_of job_input (0 + k)) ≤ value_be e.current_target
      → AreSubmitted J stale
          (record e { last_logged = e.current_job.job_id })
          handed_out
          e.current_job.job_id
          (mine J stale (searcher_of card m) e)
        × (Listed (solution_of m.current_job_id (found search_hash job_input (0 + k))) handed_out
            ⊎ (length handed_out ≡ max_found))
  unfolding mine searcher_of search_now
  mine-found k job difficulty small on streamed present cached room complete size bytes less below
        le =
      let due : (e.last_difficulty == 0) ≡ false = ground (arith, difficulty) in
      let header = e.current_job.header_hash in
      let seed = e.current_job.seed_hash in
      let counted =
        search_sync-length card m header seed e.current_target 0 10000000 present cached room less
          on streamed in
      let submitted =
        process_solutions-AreSubmitted J stale (record e { last_logged = e.current_job.job_id })
          handed_out e.current_job.job_id (omega (arith, counted.0, counted.1)) in
      (
        subst
            (AreSubmitted J stale (record e { last_logged = e.current_job.job_id }) handed_out
              e.current_job.job_id)
            (sym (if-false e _ (ap not job) ∙ if-false e _ due)) submitted,
        elim (search_sync-found card m header seed e.current_target 0 10000000 present cached room
            less on streamed k complete size bytes (omega arith) (omega arith) below le) [
              | inl l ↦ inl l
              | inr full ↦ inr (counted.0 ∙ full)
            ],
      )

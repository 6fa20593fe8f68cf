-- ===== src/Cuda/DeviceManager/Async.antt =====
-- An asynchronous search on an initialized pipeline: what the manager adds to a tick.
use ohmy_miner_etc.Common.{
  ℕ, ◌+◌, ◌*◌, ◌≤◌, ◌≡◌, refl, ap, ◌∙◌, List, map, take, length, min, true, false, not, if-false,
  Option, some, arith, max_u64, get_elem?, ◌>>=◌,
}
use ohmy_miner_etc.Types.{Solution}
use ohmy_miner_etc.Pipeline.{Buffers}
use ohmy_miner_etc.Pipeline.Ready.{IsSized}
use ohmy_miner_etc.Executor.{Kernel, Search, success, solution_of, run_async_tick}
use ohmy_miner_etc.Executor.Accounts.{accounts, total}
use ohmy_miner_etc.Executor.Results.{run_async_tick-IsTicked}
use ohmy_miner_etc.Cuda.DeviceManager.{
  Card, DeviceManager, max_found, search_of, work_of, search_now, after_tick, search_async,
}

-- The hashes counted and in flight.
abbrev pub accounted : DeviceManager → ℕ
accounted m = m.total_hashes + total m.pending_counts

after_tick-accounted :
    (m : DeviceManager) (count : ℕ) (s : Search) (found : ℕ)
    → accounts s + count ≤ max_u64
    → accounted (after_tick m count (s, found)).0 ≡ accounts s + count
unfolding after_tick
after_tick-accounted m count s found h = omega arith

-- On an initialized manager whose current stream has completed its batch, and with room in the
-- counters: a call of searchAsync hands out the solutions of the completed batch, at most 16, under
-- the current job id; but the hashes counted and in flight grow by twice the new batch: the executor
-- counts it when it completes, and the manager has already counted it.
pub search_async-counts_twice :
    (kernel : Kernel) (card : Card) (m : DeviceManager) (d : Buffers) (header seed target : List ℕ)
    (start count : ℕ) (solutions : List Solution)
    → m.pipeline_initialized ≡ true
    → m.pipeline.initialized ≡ true
    → IsSized m.pipeline
    → length m.pending_counts ≡ m.pipeline.num_streams
    → get_elem? m.pipeline.device m.pipeline.stream_idx ≡ some d
    → accounted m + 2 * count ≤ max_u64
    → min d.solution_count max_found ≤ length d.solutions
    → (m' : DeviceManager) × (search_async kernel card success m header seed target start count
          solutions
        ≡ some (
          m',
          min d.solution_count max_found,
          map (solution_of m.current_job_id) (take (min d.solution_count max_found) d.solutions),
        ))
      × (accounted m' ≡ accounted m + 2 * count)
unfolding search_async search_of work_of
search_async-counts_twice kernel card m d header seed target start count solutions on ready sized
      counts at_d room enough =
    let work = work_of m header seed target start count in
    let (s, ticked, is) =
      run_async_tick-IsTicked kernel work max_found m.current_job_id (search_of m solutions)
        m.pipeline d refl ready sized counts at_d (omega arith) enough in
    let r = after_tick m count (s, min d.solution_count max_found) in
    let step = λ (o : Option (Search × ℕ)). o >>= λ x. some (after_tick m count x) in
    let off : not m.pipeline_initialized ≡ false = ground (arith, on) in
    (
      r.0,
      if-false (some (search_now card m header seed target start count solutions))
            (step (
              run_async_tick kernel work max_found m.current_job_id (search_of m solutions)
                success))
            off
          ∙ ap step ticked
          ∙ unfold after_tick in
            ap (λ (l : List Solution). some (r.0, min d.solution_count max_found, l)) is.out,
      after_tick-accounted m count s (min d.solution_count max_found) (omega (arith, is.accounts))
          ∙ omega (arith, is.accounts),
    )

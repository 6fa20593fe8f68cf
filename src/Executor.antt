-- ===== src/Executor.antt =====
-- src/cuda/pipeline/search_executor.cpp with include/ohmy/cuda/pipeline/search_executor.hpp. The
-- kernel is a parameter: the count and the solutions that it writes for the address and the size of
-- the DAG of a work, the header, seed hash and target in the buffers of the device, from a first
-- nonce, for a number of nonces, with room for a number of solutions. The milliseconds that the executor adds up are not modelled.
pub mod Accounts
pub mod Results
pub mod Turns
pub mod Rounds
pub mod Tests
use ohmy_miner_etc.Common.{
  ℕ, zero, suc, ◌+◌, min, List, [], ◌∷◌, ◌++◌, map, Bool, true, false, not, ◌&&◌, ◌||◌, Option,
  none, some, if◌then◌else◌, ltb, ◌==◌, length, get_elem?, get_or, set, take, replicate, u64, ◌>>=◌,
}
use ohmy_miner_etc.Types.{Solution}
use ohmy_miner_etc.Pipeline.{
  DeviceSolution, Buffers, PipelineManager, buffers_at, advance_stream, stage_work, collect_results,
}

abbrev pub Kernel : Type 0
Kernel =
    (d_dag dag_size : ℕ) (header seed_hash target : List ℕ) (start_nonce count max_solutions : ℕ)
    → ℕ × List DeviceSolution

pub record SearchWork : Type 0 where
  pub d_dag : ℕ
  pub dag_size : ℕ
  pub header_hash : List ℕ
  pub seed_hash : List ℕ
  pub target_be : List ℕ
  pub start_nonce : ℕ
  pub count : ℕ
  pub job_id : List ℕ
  pub epoch : ℕ

-- What `cudaEventQuery` gives.
pub data EventStatus : Type 0 where
  success : EventStatus
  not_ready : EventStatus
  failed : EventStatus

-- The executor with the pipeline it points to, and what a tick changes besides.
pub record Search : Type 0 where
  pub pipeline : Option PipelineManager
  pub pending_counts : List ℕ
  pub out_solutions : List Solution
  pub total_hashes : ℕ

pub solution_of : List ℕ → DeviceSolution → Solution
solution_of job_id s = record {
  nonce = s.nonce;
  mix_hash = s.mix_hash;
  result = s.result;
  job_id = job_id;
}

-- The launch on a buffer of the device; a null DAG, or no room for solutions, launches nothing.
pub launch_on : Kernel → SearchWork → ℕ → Buffers → Buffers
launch_on kernel work max_solutions b =
    let r =
      kernel work.d_dag work.dag_size b.header b.seed_hash b.target work.start_nonce work.count
        max_solutions in
    if work.d_dag == 0 || max_solutions == 0
    then b
    else record b { solution_count = r.0; solutions = r.1 }

-- `runSync` on a buffer of the device: the count that is returned, the buffer, and the solutions.
pub run_sync : Kernel → SearchWork → ℕ → Buffers → List Solution → ℕ × Buffers × List Solution
unfolding launch_on solution_of
run_sync kernel work max_solutions b out_solutions =
    let loaded : Buffers = record b {
      solution_count = 0;
      header = take 32 work.header_hash;
      seed_hash = take 32 work.seed_hash;
      target = take 32 work.target_be;
    } in
    let after = launch_on kernel work max_solutions loaded in
    let num_solutions = min after.solution_count max_solutions in
    if ltb 0 after.solution_count
    then (num_solutions, after, map (solution_of work.job_id) (take num_solutions after.solutions))
    else (0, after, out_solutions)

-- The counts in flight, one for each stream.
pub sized_counts : ℕ → List ℕ → List ℕ
sized_counts streams counts = if length counts == streams then counts else replicate streams 0

pub collected_solutions : List ℕ → ℕ → List DeviceSolution → List Solution
unfolding solution_of
collected_solutions job_id found solutions =
    if ltb 0 found then map (solution_of job_id) (take found solutions) else []

pub launch_at : Kernel → SearchWork → ℕ → PipelineManager → ℕ → Option PipelineManager
unfolding launch_on
launch_at kernel work max_solutions p idx = get_elem? p.device idx >>= λ d.
    some (record p { device = set p.device idx (launch_on kernel work max_solutions d) })

-- A stream whose event is complete: its results, its hashes, and the new work on it.
pub finish_tick :
    Kernel → SearchWork → ℕ → List ℕ → Search → PipelineManager → List ℕ → Option (Search × ℕ)
unfolding collected_solutions launch_at
finish_tick kernel work max_solutions job_id s p counts =
    let i = p.stream_idx in
    collect_results p i max_solutions >>= λ collected. get_elem? collected.0.host i >>= λ h.
    let found = if ltb 0 collected.1 then min collected.1 max_solutions else collected.1 in
    stage_work collected.0 i work.header_hash work.seed_hash work.target_be >>= λ staged.
    launch_at kernel work max_solutions staged i >>= λ launched. some (
      record s {
        pipeline = some (advance_stream launched);
        pending_counts = set counts i work.count;
        out_solutions = collected_solutions job_id found h.solutions;
        total_hashes = u64 (s.total_hashes + get_or counts i 0);
      },
      found,
    )

pub query_tick :
    Kernel
    → SearchWork
    → ℕ
    → List ℕ
    → Search
    → PipelineManager
    → List ℕ
    → EventStatus
    → Option (Search × ℕ)
unfolding finish_tick
query_tick kernel work max_solutions job_id s p counts not_ready =
    some (record s { pipeline = some (advance_stream p); pending_counts = counts }, 0)
query_tick kernel work max_solutions job_id s p counts failed = none
query_tick kernel work max_solutions job_id s p counts success =
    finish_tick kernel work max_solutions job_id s p counts

-- `none` is the exception of a `CUDA_CHECK`, or an access without buffers.
pub tick_on :
    Kernel
    → SearchWork
    → ℕ
    → List ℕ
    → Search
    → Option PipelineManager
    → EventStatus
    → Option (Search × ℕ)
unfolding query_tick sized_counts
tick_on kernel work max_solutions job_id s none status = some (s, 0)
tick_on kernel work max_solutions job_id s (some p) status =
    if not p.initialized
    then some (s, 0)
    else query_tick kernel work max_solutions job_id s p
        (sized_counts p.num_streams s.pending_counts) status

pub run_async_tick : Kernel → SearchWork → ℕ → List ℕ → Search → EventStatus → Option (Search × ℕ)
unfolding tick_on
run_async_tick kernel work max_solutions job_id s status =
    tick_on kernel work max_solutions job_id s s.pipeline status

-- ===== src/Cuda/DeviceManager.antt =====
-- src/cuda/device_manager.cu: the manager of the devices, on the pipeline, the executor, the launcher and
-- the kernels. The card is a parameter: the order in which it runs the threads of a grid, the words of
-- the DAG, and what a new buffer of solutions holds. Addresses are numbers, 0 the null pointer; a
-- buffer that a search allocates stands at 1. Negative device ids are `none`. A CUDA call that fails
-- throws; but for those of the initialization and of a tick the calls are taken to succeed, and the
-- times that are added up are not modelled.
pub mod Launched
pub mod Found
pub mod MultiGpu
pub mod Async
pub mod Pipelined
pub mod Tests
use ohmy_miner_etc.Common.{
  ℕ, zero, suc, ◌+◌, ◌-◌, List, [], ◌∷◌, map, take, length, min, Bool, true, false, not, ◌&&◌, ◌||◌,
  Option, none, some, if◌then◌else◌, ltb, leb, ◌==◌, u64, ◌>>=◌,
}
use ohmy_miner_etc.Types.{Solution}
use ohmy_miner_etc.Launcher.{
  KernelLaunchParams, Environment, KernelEnvConfig, Launch, search, search_optimized,
  search_texture, auto, launch_search_kernel,
}
use ohmy_miner_etc.Pipeline.{
  DeviceSolution, Buffers, PipelineManager, new_pipeline, initialize, queue_search,
  get_finished_stream, get_results,
}
use ohmy_miner_etc.Executor.{Kernel, SearchWork, EventStatus, Search, solution_of, run_async_tick}
use ohmy_miner_etc.Cuda.SearchKernel.{
  SearchOutput, launch_ethash_search, launch_ethash_search_optimized, launch_ethash_search_texture,
}
use ohmy_miner_etc.Cuda.SearchHash.{SearchInput}
use ohmy_miner_etc.Cuda.DeviceState.{
  DeviceState, Devices, find, insert, add_device, initialize_all_devices,
}

pub record Card : Type 0 where
  pub schedule : ℕ → List ℕ
  pub dag : ℕ → ℕ
  pub fresh : List DeviceSolution
  pub environment : Environment

pub record MiningJobContext : Type 0 where
  pub job_id : List ℕ
  pub header_hash : List ℕ
  pub seed_hash : List ℕ
  pub target_be : List ℕ
  pub epoch : ℕ
  pub is_valid : Bool

-- `kernel_config` is what the launcher has cached, and `pending_counts` what the executor has.
pub record DeviceManager : Type 0 where
  pub d_dag : ℕ
  pub dag_size : ℕ
  pub pipeline : PipelineManager
  pub pending_counts : List ℕ
  pub kernel_config : Option KernelEnvConfig
  pub stream_compute : ℕ
  pub total_hashes : ℕ
  pub pipeline_initialized : Bool
  pub current_job_id : List ℕ
  pub current_epoch : ℕ
  pub device_states : Devices
  pub is_multi_gpu_mode : Bool
  pub mining_running : Bool
  pub job_context : Option MiningJobContext

pub new_manager : DeviceManager
new_manager = record {
  d_dag = 0;
  dag_size = 0;
  pipeline = new_pipeline;
  pending_counts = [];
  kernel_config = none;
  stream_compute = 0;
  total_hashes = 0;
  pipeline_initialized = false;
  current_job_id = [];
  current_epoch = 0;
  device_states = [];
  is_multi_gpu_mode = false;
  mining_running = false;
  job_context = none;
}

-- What `initDevice` and `initDeviceZeroCopy` do once the DAG stands at `d_dag`; the result is `none`
-- when the pipeline throws.
pub finish_init : ℕ → DeviceManager → PipelineManager × Option ℕ → DeviceManager × Option Bool
finish_init stream m (p, none) = (record m { pipeline = p }, none)
finish_init stream m (p, some n) =
    (record m { pipeline = p; stream_compute = stream; pipeline_initialized = true }, some true)

pub init_device_zero_copy :
    Buffers → ℕ → Option ℕ → ℕ → ℕ → DeviceManager → ℕ → ℕ → DeviceManager × Option Bool
unfolding finish_init
init_device_zero_copy fresh budget env free_mem stream m d_dag dag_size =
    finish_init stream (record m { d_dag = d_dag; dag_size = dag_size })
      (initialize fresh budget env m.pipeline free_mem)

pub set_mining_job_context : DeviceManager → List ℕ → ℕ → DeviceManager
set_mining_job_context m job_id epoch = record m { current_job_id = job_id; current_epoch = epoch }

abbrev pub max_found : ℕ
max_found = 16

-- What a launch leaves in the buffer of solutions.
pub run_launch : Card → SearchInput → Option Launch → SearchOutput → SearchOutput
run_launch card input none out = out
run_launch card input (some (search p)) out =
    launch_ethash_search card.schedule input p.start_nonce p.search_count p.max_solutions out
run_launch card input (some (search_optimized p n)) out =
    launch_ethash_search_optimized card.schedule input p.start_nonce p.search_count n
      p.max_solutions out
run_launch card input (some (search_texture p n)) out =
    launch_ethash_search_texture card.schedule input p.start_nonce p.search_count n p.max_solutions
      out

pub search_input : Card → ℕ → List ℕ → List ℕ → List ℕ → SearchInput
search_input card dag_size header_hash seed_hash target_be = record {
  dag = card.dag;
  dag_size = dag_size;
  header_hash = header_hash;
  seed_hash = seed_hash;
  target_be = target_be;
}

-- The parameters of a launch: there is no texture, and the launcher chooses the kernel.
pub launch_params : ℕ → ℕ → ℕ → ℕ → ℕ → KernelLaunchParams
launch_params d_dag dag_size stream start_nonce count = record {
  d_dag = d_dag;
  dag_size = dag_size;
  d_header = 1;
  d_seed_hash = 1;
  d_target_be = 1;
  start_nonce = start_nonce;
  search_count = count;
  d_solutions = 1;
  d_solution_count = 1;
  max_solutions = max_found;
  stream = stream;
  tex_dag = 0;
  variant = auto;
}

-- The count that is returned and the solutions that the caller gets: the vector is left as it is when
-- nothing was found.
pub read_solutions : List ℕ → SearchOutput → List Solution → ℕ × List Solution
read_solutions job_id out solutions =
    let found = min out.solution_count max_found in
    if ltb 0 out.solution_count
    then (found, map (solution_of job_id) (take found out.solutions))
    else (0, solutions)

pub launch_and_read :
    Card
    → DeviceManager
    → SearchInput
    → KernelLaunchParams
    → ℕ
    → List Solution
    → DeviceManager × ℕ × List Solution
launch_and_read card m input params count solutions =
    let (launch, config) = launch_search_kernel m.kernel_config card.environment params in
    let out =
      run_launch card input launch (record { solutions = card.fresh; solution_count = 0 }) in
    let r = read_solutions m.current_job_id out solutions in
    (record m { total_hashes = u64 (m.total_hashes + count); kernel_config = config }, r.0, r.1)

-- The manager, the count and the solutions afterwards.
pub search_sync :
    Card
    → DeviceManager
    → List ℕ
    → List ℕ
    → List ℕ
    → ℕ
    → ℕ
    → List Solution
    → DeviceManager × ℕ × List Solution
search_sync card m header_hash seed_hash target_be start_nonce count solutions =
    let input = search_input card m.dag_size header_hash seed_hash target_be in
    let params = launch_params m.d_dag m.dag_size m.stream_compute start_nonce count in
    if not m.pipeline_initialized || m.stream_compute == 0
    then (m, 0, solutions)
    else launch_and_read card m input params count solutions

-- `search` is the synchronous one.
unfoldable pub search_now :
    Card
    → DeviceManager
    → List ℕ
    → List ℕ
    → List ℕ
    → ℕ
    → ℕ
    → List Solution
    → DeviceManager × ℕ × List Solution
search_now = search_sync

-- The executor's view of the manager, and what a tick has changed in it.
unfoldable pub search_of : DeviceManager → List Solution → Search
search_of m solutions = record {
  pipeline = some m.pipeline;
  pending_counts = m.pending_counts;
  out_solutions = solutions;
  total_hashes = m.total_hashes;
}

pub pipeline_or : PipelineManager → Option PipelineManager → PipelineManager
pipeline_or p none = p
pipeline_or p (some q) = q

pub after_tick : DeviceManager → ℕ → Search × ℕ → DeviceManager × ℕ × List Solution
unfolding pipeline_or
after_tick m count (s, found) = (
  record m {
    pipeline = pipeline_or m.pipeline s.pipeline;
    pending_counts = s.pending_counts;
    total_hashes = u64 (s.total_hashes + count);
  },
  found,
  s.out_solutions,
)

-- The job id and the epoch of the work are left empty.
pub work_of : DeviceManager → List ℕ → List ℕ → List ℕ → ℕ → ℕ → SearchWork
work_of m header_hash seed_hash target_be start_nonce count = record {
  d_dag = m.d_dag;
  dag_size = m.dag_size;
  header_hash = header_hash;
  seed_hash = seed_hash;
  target_be = target_be;
  start_nonce = start_nonce;
  count = count;
  job_id = [];
  epoch = 0;
}

-- `none` is an exception of the tick.
pub search_async :
    Kernel
    → Card
    → EventStatus
    → DeviceManager
    → List ℕ
    → List ℕ
    → List ℕ
    → ℕ
    → ℕ
    → List Solution
    → Option (DeviceManager × ℕ × List Solution)
search_async kernel card status m header_hash seed_hash target_be start_nonce count solutions =
    if not m.pipeline_initialized
    then some (search_now card m header_hash seed_hash target_be start_nonce count solutions)
    else run_async_tick kernel (work_of m header_hash seed_hash target_be start_nonce count)
        max_found m.current_job_id (search_of m solutions) status
      >>= λ r. some (after_tick m count r)

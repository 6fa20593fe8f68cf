-- ===== src/Cuda/DeviceManager/MultiGpu.antt =====
-- src/cuda/device_manager.cu: the methods for several devices, over the map of their states.
pub mod Single
use ohmy_miner_etc.Common.{
  ℕ, zero, suc, ◌+◌, ◌-◌, List, [], ◌∷◌, map, take, length, min, Bool, true, false, not, ◌&&◌, ◌||◌,
  Option, none, some, if◌then◌else◌, ltb, leb, ◌==◌, u64, ◌>>=◌,
}
use ohmy_miner_etc.Types.{Solution}
use ohmy_miner_etc.Launcher.{
  KernelLaunchParams, Environment, KernelEnvConfig, Launch, search, search_optimized,
  search_texture, auto, launch_search_kernel,
}
use ohmy_miner_etc.Pipeline.{
  DeviceSolution, Buffers, PipelineManager, new_pipeline, initialize, queue_search,
  get_finished_stream, get_results,
}
use ohmy_miner_etc.Executor.{Kernel, SearchWork, EventStatus, Search, solution_of, run_async_tick}
use ohmy_miner_etc.Cuda.SearchKernel.{
  SearchOutput, launch_ethash_search, launch_ethash_search_optimized, launch_ethash_search_texture,
}
use ohmy_miner_etc.Cuda.SearchHash.{SearchInput}
use ohmy_miner_etc.Cuda.DeviceState.{
  DeviceState, Devices, find, insert, add_device, initialize_all_devices,
}
use ohmy_miner_etc.Cuda.DeviceManager.{
  Card, MiningJobContext, DeviceManager, new_manager, finish_init, init_device_zero_copy,
  set_mining_job_context, max_found, run_launch, search_input, launch_params, read_solutions,
  launch_and_read, search_sync, search_now, search_of, pipeline_or, after_tick, work_of,
  search_async,
}

-- The devices of the multi-GPU mode.
pub init_all : (ℕ → ℕ) → DeviceManager → ℕ → ℕ → DeviceManager × ℕ
init_all budgets m device_count dag_size =
    let r = initialize_all_devices budgets device_count dag_size m.device_states in
    (record m { device_states = r.0 }, r.1)

pub init_device_with_multi_gpu : ℕ → DeviceManager → ℕ → ℕ → DeviceManager × Bool
init_device_with_multi_gpu budget m device_id dag_size =
    let r = add_device budget device_id dag_size m.device_states in
    (record m { device_states = r.0 }, r.1)

pub count_initialized : Devices → ℕ
count_initialized [] = 0
count_initialized ((i, s) ∷ devices) =
    let rest = count_initialized devices in if s.initialized then rest + 1 else rest

pub get_device_count : DeviceManager → ℕ
unfolding count_initialized
get_device_count m = if m.is_multi_gpu_mode then count_initialized m.device_states else 0

pub state_initialized : Option DeviceState → Bool
state_initialized none = false
state_initialized (some s) = s.initialized

pub is_device_initialized : DeviceManager → ℕ → Bool
unfolding state_initialized
is_device_initialized m device_id =
    m.is_multi_gpu_mode && state_initialized (find device_id m.device_states)

-- A search on a device, on the nonces from its offset on; a state that is missing or not initialized
-- gives 0.
pub search_state :
    Card
    → DeviceManager
    → ℕ
    → List ℕ
    → List ℕ
    → List ℕ
    → List Solution
    → Option DeviceState
    → DeviceManager × ℕ × List Solution
search_state card m id header_hash seed_hash target_be solutions none = (m, 0, solutions)
search_state card m id header_hash seed_hash target_be solutions (some s) =
    let input = search_input card s.dag_size header_hash seed_hash target_be in
    let params = launch_params 1 s.dag_size 1 s.nonce_offset s.nonce_range in
    let r = launch_and_read card m input params 0 solutions in
    let counted = record s { total_hashes = u64 (s.total_hashes + s.nonce_range) } in
    if s.initialized
    then (
      record (r.0) {
        total_hashes = m.total_hashes;
        device_states = insert id counted m.device_states;
      },
      r.1,
      r.2,
    )
    else (m, 0, solutions)

pub search_device :
    Card
    → DeviceManager
    → Option ℕ
    → List ℕ
    → List ℕ
    → List ℕ
    → List Solution
    → DeviceManager × ℕ × List Solution
unfolding search_state
search_device card m none header_hash seed_hash target_be solutions = (m, 0, solutions)
search_device card m (some id) header_hash seed_hash target_be solutions =
    if not m.is_multi_gpu_mode || leb (length m.device_states) id
    then (m, 0, solutions)
    else search_state card m id header_hash seed_hash target_be solutions (find id m.device_states)

-- A device whose thread still runs is joined with its stop flag cleared, which never returns: `none`.
pub start_threads : Devices → Option Devices
start_threads [] = some []
start_threads ((i, s) ∷ devices) =
    let started = record s { stop_requested = false; thread_errors = 0; mining_thread = true } in
    start_threads devices >>= λ rest.
    if not s.initialized
    then some ((i, s) ∷ rest)
    else if s.mining_thread
    then none
    else some ((i, started) ∷ rest)

pub start_mining_all_devices : DeviceManager → List ℕ → List ℕ → List ℕ → Option DeviceManager
unfolding start_threads
start_mining_all_devices m header_hash seed_hash target_be =
    let context : MiningJobContext = record {
      job_id = take 32 header_hash;
      header_hash = header_hash;
      seed_hash = seed_hash;
      target_be = take 32 target_be;
      epoch = m.current_epoch;
      is_valid = true;
    } in
    if not m.is_multi_gpu_mode
    then some m
    else start_threads m.device_states >>= λ devices.
        some
          (record m { device_states = devices; mining_running = true; job_context = some context })

pub stop_threads : Devices → Devices
stop_threads [] = []
stop_threads ((i, s) ∷ devices) =
    let stopped = record s {
      stop_requested = true;
      mining_thread = false;
      thread_running = false;
    } in
    let flagged = record s { stop_requested = true } in
    let rest = stop_threads devices in
    if not s.initialized
    then (i, s) ∷ rest
    else if s.mining_thread
    then (i, stopped) ∷ rest
    else (i, flagged) ∷ rest

pub stop_all_mining : DeviceManager → DeviceManager
unfolding stop_threads
stop_all_mining m =
    if not m.is_multi_gpu_mode
    then m
    else record m { device_states = stop_threads m.device_states; mining_running = false }

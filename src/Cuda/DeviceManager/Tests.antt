-- ===== src/Cuda/DeviceManager/Tests.antt =====
-- Searches of src/cuda/device_manager.cu.
use ohmy_miner_etc.Common.{
  ◌++◌, ℕ, ◌+◌, ◌*◌, ◌<◌, ◌^◌, ◌≤◌, ◌≡◌, ◌⊎◌, refl, ap, ◌-◌, List, [], ◌∷◌, map, take, min, length,
  true, false, none, some, arith, replicate, codes, All,
}
use ohmy_miner_etc.Launcher.{
  search, launch_search_kernel, env_config, read_environment, is_one, nonces_of, is_launchable,
  resolve, launch_resolved,
}
use ohmy_miner_etc.Executor.{SearchWork, Search, success, solution_of}
use ohmy_miner_etc.Executor.Tests.{done_batch, pipeline_done, idle_kernel}
use ohmy_miner_etc.Cuda.SearchHash.{SearchInput, search_hash}
use ohmy_miner_etc.Cuda.SearchKernel.Nonces.{Listed}
use ohmy_miner_etc.Cuda.SearchKernel.Output.{found, winners}
use ohmy_miner_etc.Cuda.SearchKernel.Launches.{base_tried}
use ohmy_miner_etc.Cuda.SearchKernel.{base_threads}
use ohmy_miner_etc.Cuda.SearchKernel.Tests.{
  base_threads_lem, in_order, in_order-IsComplete, replicate-IsBytes, length-winners, slot,
  length-base_tried,
}
use ohmy_miner_etc.Cuda.SearchKernel.Target.{value_be, value_be-lt}
use ohmy_miner_etc.Cuda.SearchHash.Result.{result_of, result-IsBytes}
use ohmy_miner_etc.Cuda.DeviceManager.{
  search_of, Card, DeviceManager, new_manager, launch_params, max_found, search_sync, search_async,
}
use ohmy_miner_etc.Cuda.DeviceManager.MultiGpu.{
  init_all, search_device, get_device_count, is_device_initialized, start_mining_all_devices,
  stop_all_mining,
}
use ohmy_miner_etc.Cuda.DeviceManager.Launched.{tried}
use ohmy_miner_etc.Cuda.DeviceManager.Found.{
  input, params, launched, IsTried, search_sync-found, search_sync_sound,
}
use ohmy_miner_etc.Cuda.DeviceManager.MultiGpu.Single.{init_every, apply, run, run-IsSingle}
use ohmy_miner_etc.Cuda.DeviceManager.Pipelined.{kernel_of, sought as sought_by, run_ticks-found}
use ohmy_miner_etc.Executor.Turns.{Tick, run_ticks}
use ohmy_miner_etc.Cuda.DeviceManager.Async.{accounted, search_async-counts_twice}

abbrev pub card : Card
card = record {
  schedule = in_order;
  dag = λ i. i;
  fresh = replicate 16 slot;
  environment = record {
    use_optimized_kernel = none;
    use_texture_kernel = none;
    nonces_per_thread = none;
  };
}

-- A manager whose first stream has just completed a batch.
abbrev pub manager : DeviceManager
manager = record {
  d_dag = 4096;
  dag_size = 1073741824;
  pipeline = pipeline_done;
  pending_counts = 500 ∷ 600 ∷ 700 ∷ [];
  kernel_config = none;
  stream_compute = 7;
  total_hashes = 40;
  pipeline_initialized = true;
  current_job_id = codes "j1";
  current_epoch = 2;
  device_states = [];
  is_multi_gpu_mode = false;
  mining_running = false;
  job_context = none;
}

abbrev header : List ℕ
header = replicate 32 3

abbrev seed : List ℕ
seed = replicate 32 4

-- Every result meets this target.
abbrev target : List ℕ
target = replicate 32 255

launched_plain :
    (work_header work_seed work_target : List ℕ) (start count : ℕ)
    → launched card manager work_header work_seed work_target start count
      ≡ some (search (params card manager work_header work_seed work_target start count))
unfolding launch_params launch_search_kernel env_config read_environment is_one nonces_of
    is_launchable resolve launch_resolved
launched_plain work_header work_seed work_target start count = refl

pub fewer :
    (work_header work_seed work_target : List ℕ) (start count : ℕ)
    → base_threads count < 2 ^ 32
    → length (
        winners search_hash
          (input card manager work_header work_seed work_target start count)
          (tried card (launched card manager work_header work_seed work_target start count)))
      < 2 ^ 32
unfolding tried launch_params
fewer work_header work_seed work_target start count few =
    rw (launched_plain work_header work_seed work_target start count) (
      omega (
        arith,
        few,
        length-winners search_hash
            (input card manager work_header work_seed work_target start count)
            (base_tried in_order start count),
        length-base_tried start count,
      ))

highest : value_be (replicate 32 255) ≡ 2 ^ 256 - 1
unfolding value_be
highest = refl

pub meets : (i : SearchInput) (n : ℕ) → value_be (result_of i n) ≤ value_be (replicate 32 255)
meets i n =
    let (size, bytes) = result-IsBytes i n in
    omega (arith, highest, value_be-lt (result_of i n) bytes, ap (λ (k : ℕ). 256 ^ k) size)

abbrev sought : SearchInput
sought = input card manager header seed target 10 3

few_found :
    length (winners search_hash sought (tried card (launched card manager header seed target 10 3)))
    < 2 ^ 32
few_found = fewer header seed target 10 3 (omega (arith, base_threads_lem.0))

search_sync-found_example :
    Listed
      (solution_of
        (codes "j1")
        (found search_hash (input card manager header seed target 10 3) (10 + 2)))
      (search_sync card manager header seed target 10 3 []).2
    ⊎ ((search_sync card manager header seed target 10 3 []).1 ≡ max_found)
search_sync-found_example =
    search_sync-found card manager header seed target 10 3 (λ e. ground (arith, e)) tt refl
      few_found refl (λ e. ground (arith, e)) 2 in_order-IsComplete refl
      (replicate-IsBytes 32 255 (omega arith)) (omega arith) (omega arith) (omega arith)
      (meets sought 12)

search_sync_sound_example :
    ((search_sync card manager header seed target 10 3 []).1 ≤ max_found)
    × All
        (IsTried card manager header seed target 10 3)
        (search_sync card manager header seed target 10 3 []).2
search_sync_sound_example =
    search_sync_sound card manager header seed target 10 3 (λ e. ground (arith, e)) tt refl
      few_found refl (λ e. ground (arith, e)) refl (replicate-IsBytes 32 255 (omega arith))

search_async-counts_twice_example :
    (m' : DeviceManager) × (search_async idle_kernel card success manager header seed target 10 1000
        []
      ≡ some (
        m',
        min 1 max_found,
        map (solution_of (codes "j1")) (take (min 1 max_found) done_batch.solutions),
      ))
    × (accounted m' ≡ accounted manager + 2 * 1000)
search_async-counts_twice_example =
    search_async-counts_twice idle_kernel card manager done_batch header seed target 10 1000 [] refl
      refl
      record {
        at_least = omega arith;
        at_most = omega arith;
        index = omega arith;
        host = omega arith;
        device = omega arith;
        streams = omega arith;
      }
      refl refl (omega arith) (omega arith)

-- Two devices are initialized, both with success.
abbrev two_devices : DeviceManager
two_devices = (init_all (λ i. 16) new_manager 2 4096).0

run-IsSingle_example :
    (get_device_count two_devices ≡ 0)
    × (is_device_initialized two_devices 1 ≡ false)
    × (search_device card two_devices (some 1) header seed target [] ≡ (two_devices, 0, []))
    × (start_mining_all_devices two_devices header seed target ≡ some two_devices)
    × (stop_all_mining two_devices ≡ two_devices)
unfolding run apply
run-IsSingle_example =
    run-IsSingle idle_kernel card (init_every (λ i. 16) 2 4096 ∷ []) two_devices refl 1 header seed
      target []

abbrev batch : SearchWork
batch = record {
  d_dag = 4096;
  dag_size = 1073741824;
  header_hash = header;
  seed_hash = seed;
  target_be = target;
  start_nonce = 10;
  count = 3;
  job_id = [];
  epoch = 0;
}

-- One of the other two streams still runs.
abbrev between : List Tick
between =
    record { work = batch; job_id = codes "j1"; completed = false }
    ∷ record { work = batch; job_id = codes "j2"; completed = true }
    ∷ []

run_ticks-found_example :
    (r : Search) × (run_ticks
        (kernel_of card manager)
        max_found
        (record { work = batch; job_id = codes "j1"; completed = true } ∷ between
          ++ record { work = batch; job_id = codes "j2"; completed = true } ∷ [])
        (search_of manager [])
      ≡ some r)
    × (r.out_solutions
        ≡ map (solution_of (codes "j2")) (take max_found (sought_by card manager batch)))
unfolding search_of
run_ticks-found_example =
    run_ticks-found card manager batch (λ e. ground (arith, e)) tt refl few_found
      (search_of manager []) pipeline_done batch (codes "j1") (codes "j2") between refl refl
      record {
        at_least = omega arith;
        at_most = omega arith;
        index = omega arith;
        host = omega arith;
        device = omega arith;
        streams = omega arith;
      }
      refl

-- ===== src/Cuda/DeviceState.antt =====
-- src/cuda/core/device_state.cpp, src/cuda/modules/device_initializer.cu and
-- src/cuda/threading/mining_thread.cu: what a card holds for a device, its initialization, which may
-- fail at any CUDA call, its release, and the loop of its mining thread.
pub mod Release
pub mod Devices
pub mod Tests
use ohmy_miner_etc.Common.{
  ℕ, zero, suc, ◌+◌, ◌-◌, ◌^◌, List, [], ◌∷◌, Bool, true, false, not, ◌&&◌, ◌||◌, Option, none,
  some, if◌then◌else◌, ltb, ◌==◌, foldl, u32,
}

-- The handles of a DeviceState.
pub data Resource : Type 0 where
  d_dag : Resource
  d_header : Resource
  d_seed_hash : Resource
  d_target : Resource
  d_solutions : Resource
  d_solution_count : Resource
  stream_compute : Resource
  stream_memory : Resource
  stream_io : Resource
  start_event : Resource
  stop_event : Resource
  memory_done_event : Resource
  kernel_done_event : Resource
  results_done_event : Resource

abbrev pub resource_id : Resource → ℕ
resource_id d_dag = 0
resource_id d_header = 1
resource_id d_seed_hash = 2
resource_id d_target = 3
resource_id d_solutions = 4
resource_id d_solution_count = 5
resource_id stream_compute = 6
resource_id stream_memory = 7
resource_id stream_io = 8
resource_id start_event = 9
resource_id stop_event = 10
resource_id memory_done_event = 11
resource_id kernel_done_event = 12
resource_id results_done_event = 13

-- `held` tells which handles are not null, and `live` how many objects of a kind the card keeps for
-- this device. A thread is joinable or not there.
pub record DeviceState : Type 0 where
  pub device_id : ℕ
  pub initialized : Bool
  pub dag_size : ℕ
  pub nonce_offset : ℕ
  pub nonce_range : ℕ
  pub total_hashes : ℕ
  pub held : Resource → Bool
  pub live : Resource → ℕ
  pub mining_thread : Bool
  pub thread_running : Bool
  pub stop_requested : Bool
  pub thread_errors : ℕ

-- A new state, with the id and the size that its maker sets.
pub new_state : ℕ → ℕ → DeviceState
new_state device_id dag_size = record {
  device_id = device_id;
  initialized = false;
  dag_size = dag_size;
  nonce_offset = 0;
  nonce_range = 2 ^ 32 - 1;
  total_hashes = 0;
  held = λ r. false;
  live = λ r. 0;
  mining_thread = false;
  thread_running = false;
  stop_requested = false;
  thread_errors = 0;
}

pub is_same : Resource → Resource → Bool
is_same r s = resource_id r == resource_id s

-- cudaMalloc, cudaStreamCreate or cudaEventCreate that succeeds.
pub acquire : Resource → DeviceState → DeviceState
unfolding is_same
acquire r s = record s {
  held = λ x. if is_same r x then true else s.held x;
  live = λ x. if is_same r x then s.live x + 1 else s.live x;
}

-- `if (p) cudaFree(p), p = nullptr`
pub release : DeviceState → Resource → DeviceState
unfolding is_same
release s r =
    if s.held r
    then record s {
      held = λ x. if is_same r x then false else s.held x;
      live = λ x. if is_same r x then s.live x - 1 else s.live x;
    }
    else s

-- The calls of `initDevice` in order: those that make nothing, and those that fill a handle.
pub data InitCall : Type 0 where
  set_device : InitCall
  copy_dag : InitCall
  create : Resource → InitCall

abbrev pub init_calls : List InitCall
init_calls =
    set_device
    ∷ create d_dag
    ∷ copy_dag
    ∷ create d_header
    ∷ create d_seed_hash
    ∷ create d_target
    ∷ create d_solutions
    ∷ create d_solution_count
    ∷ create stream_compute
    ∷ create stream_memory
    ∷ create stream_io
    ∷ create start_event
    ∷ create stop_event
    ∷ create memory_done_event
    ∷ create kernel_done_event
    ∷ create results_done_event
    ∷ []

pub perform : InitCall → DeviceState → DeviceState
unfolding acquire
perform set_device s = s
perform copy_dag s = s
perform (create r) s = acquire r s

-- The calls up to the first that fails, after `budget` that do not; whether all have succeeded.
pub perform_all : ℕ → List InitCall → DeviceState → DeviceState × Bool
unfolding perform
perform_all budget [] s = (s, true)
perform_all zero (c ∷ calls) s = (s, false)
perform_all (suc budget) (c ∷ calls) s = perform_all budget calls (perform c s)

abbrev pub released : List Resource
released =
    d_dag ∷ d_header ∷ d_seed_hash ∷ d_target ∷ stream_compute ∷ stream_memory ∷ stream_io
    ∷ start_event ∷ stop_event ∷ memory_done_event ∷ kernel_done_event ∷ results_done_event ∷ []

-- The thread is told to stop and joined first.
pub stop_thread : DeviceState → DeviceState
stop_thread s =
    if s.mining_thread
    then record s { stop_requested = true; thread_running = false; mining_thread = false }
    else s

pub cleanup : DeviceState → DeviceState
unfolding stop_thread release
cleanup s = record (foldl release (stop_thread s) released) { initialized = false }

pub init_device : ℕ → DeviceState → DeviceState × Bool
unfolding perform_all
init_device budget s =
    let r = perform_all budget init_calls s in
    if r.1 then (record (r.0) { initialized = true }, true) else (cleanup r.0, false)

-- The devices of the manager, by id in increasing order: `std::map<int, std::unique_ptr<DeviceState>>`.
abbrev pub Devices : Type 0
Devices = List (ℕ × DeviceState)

unfoldable pub find : ℕ → Devices → Option DeviceState
find id [] = none
find id ((i, s) ∷ devices) = if i == id then some s else find id devices

pub insert : ℕ → DeviceState → Devices → Devices
insert id s [] = (id, s) ∷ []
insert id s ((i, t) ∷ devices) =
    let rest = insert id s devices in
    if i == id
    then (id, s) ∷ devices
    else (if ltb id i then (id, s) ∷ (i, t) ∷ devices else (i, t) ∷ rest)

-- One device, into the map when it could be initialized.
pub add_device : ℕ → ℕ → ℕ → Devices → Devices × Bool
unfolding init_device
add_device budget id dag_size devices =
    let r = init_device budget (new_state id dag_size) in
    if r.1 then (insert id r.0 devices, true) else (devices, false)

-- The loop of `initializeAllDevices` from device `i` on, with the count of successes: `budgets`
-- tells for each device how many calls succeed.
pub add_devices : (ℕ → ℕ) → ℕ → ℕ → ℕ → Devices → ℕ → Devices × ℕ
add_devices budgets zero i dag_size devices count = (devices, count)
add_devices budgets (suc left) i dag_size devices count =
    let r = add_device (budgets i) i dag_size devices in
    add_devices budgets left (i + 1) dag_size r.0 (if r.1 then count + 1 else count)

-- A negative count of devices counts as 0: both give 0 and leave the map as it is.
pub initialize_all_devices : (ℕ → ℕ) → ℕ → ℕ → Devices → Devices × ℕ
initialize_all_devices budgets device_count dag_size devices =
    add_devices budgets device_count 0 dag_size devices 0

-- What the loop of the mining thread sees when it tests: the flag of its state, set by another thread.
-- `none`: the observations are used up, and the thread still runs. A failed `cudaSetDevice` ends it.
pub mining_loop : List Bool → Option (Unit {0})
mining_loop [] = none
mining_loop (stop ∷ observed) = let rest = mining_loop observed in if stop then some tt else rest

pub mining_thread_loop : Bool → List Bool → DeviceState → Option DeviceState
unfolding mining_loop
mining_thread_loop set_device_ok observed s =
    let after = elim (mining_loop observed) as (λ _. Option DeviceState) [
      | none ↦ none
      | some _ ↦ some (record s { thread_running = false })
    ] in
    if set_device_ok
    then after
    else some (record s { thread_running = false; thread_errors = u32 (s.thread_errors + 1) })

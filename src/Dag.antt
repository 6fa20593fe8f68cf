-- ===== src/Dag.antt =====
-- src/dag/dag_generator.cpp: the generator of the DAG. The memory of the GPU is the list of the
-- addresses that are allocated; how the CUDA calls and the file system turn out is an argument. The
-- content of the DAG is that of the device and is not kept here.
pub mod Memory
pub mod Size
pub mod Tests
use ohmy_miner_etc.Common.{
  ℕ, zero, suc, ◌+◌, ◌*◌, List, [], ◌∷◌, Bool, true, false, not, ◌&&◌, ◌||◌, Option, none, some,
  if◌then◌else◌, ltb, ◌==◌, u32,
}
use ohmy_miner_etc.Ethash.{get_dataset_size}

-- `host_data` is whether `dagData_` is set, and `d_dag` the address on the GPU; `live` and
-- `current_epoch` and the rest are the fields.
pub record DagGenerator : Type 0 where
  pub current_epoch : ℕ
  pub host_data : Bool
  pub d_dag : Option ℕ
  pub dag_size : ℕ
  pub cache_dir : List ℕ
  pub live : List ℕ

pub new_generator : List ℕ → DagGenerator
new_generator live = record {
  current_epoch = 0;
  host_data = false;
  d_dag = none;
  dag_size = 0;
  cache_dir = [];
  live = live;
}

pub data Outcome : Type 0 where
  returned : Bool → Outcome
  thrown : Outcome
  terminated : Outcome

-- The CUDA calls of `generate`, in the order of the code, with whether the progress thread starts; an
-- allocation gives an address.
pub record Calls : Type 0 where
  pub cache_address : Option ℕ
  pub first_info : Bool
  pub dag_address : Option ℕ
  pub second_info : Bool
  pub copied : Bool
  pub monitored : Bool
  pub generated : Bool
  pub host_allocated : Bool

-- `cudaFree`.
pub free : List ℕ → ℕ → List ℕ
free [] address = []
free (a ∷ live) address = let rest = free live address in if a == address then live else a ∷ rest

-- The kernel runs beside a progress thread. If the thread does not start, the handler frees both; an
-- exception of the kernel finds the thread joinable, and ends the process before the handler.
pub run_kernel : Calls → DagGenerator → ℕ → ℕ → ℕ → DagGenerator × Outcome
unfolding free
run_kernel calls g epoch cache dag =
    let both = dag ∷ cache ∷ g.live in
    if not calls.copied
    then (record g { live = free (free both cache) dag }, returned false)
    else if not calls.monitored
    then (record g { live = free (free both cache) dag }, returned false)
    else if not calls.generated
    then (record g { live = both }, terminated)
    else (
      record g {
        host_data = calls.host_allocated;
        live = free both cache;
        d_dag = some dag;
        current_epoch = epoch;
      },
      returned calls.host_allocated,
    )

pub with_dag : Calls → DagGenerator → ℕ → ℕ → Option ℕ → DagGenerator × Outcome
unfolding run_kernel free
with_dag calls g epoch cache none =
    (record g { live = free (cache ∷ g.live) cache }, returned false)
with_dag calls g epoch cache (some dag) =
    if not calls.second_info
    then (record g { live = dag ∷ cache ∷ g.live }, thrown)
    else run_kernel calls g epoch cache dag

pub with_cache : Calls → DagGenerator → ℕ → Option ℕ → DagGenerator × Outcome
unfolding with_dag
with_cache calls g epoch none = (g, returned false)
with_cache calls g epoch (some cache) =
    if not calls.first_info
    then (record g { live = cache ∷ g.live }, thrown)
    else with_dag calls g epoch cache calls.dag_address

-- The result is whether the pointer returned is not null.
pub generate : Calls → DagGenerator → ℕ → Bool → DagGenerator × Outcome
unfolding with_cache
generate calls g epoch use_gpu =
    let emptied : DagGenerator = record g {
      dag_size = get_dataset_size epoch;
      host_data = false;
    } in
    if g.current_epoch == epoch && g.host_data
    then (g, returned true)
    else if not use_gpu
    then (emptied, returned false)
    else with_cache calls emptied epoch calls.cache_address

pub has_epoch : DagGenerator → ℕ → Bool
has_epoch g epoch = g.current_epoch == epoch && g.host_data

pub free_host_memory : DagGenerator → DagGenerator
free_host_memory g = record g { host_data = false }

pub set_cache_dir : DagGenerator → List ℕ → DagGenerator
set_cache_dir g path = record g { cache_dir = path }

pub free_optional : List ℕ → Option ℕ → List ℕ
unfolding free
free_optional live none = live
free_optional live (some address) = free live address

pub cleanup : DagGenerator → DagGenerator
unfolding free_optional
cleanup g = record g {
  host_data = false;
  d_dag = none;
  dag_size = 0;
  live = free_optional g.live g.d_dag;
}

pub is_empty : List ℕ → Bool
is_empty [] = true
is_empty (c ∷ text) = false

-- `file` is the size of the cache file, if it exists and opens.
pub load_file : DagGenerator → ℕ → Bool → Bool → ℕ → DagGenerator × Bool
unfolding cleanup
load_file g epoch allocated read size =
    if ltb size 64 || not (size == get_dataset_size epoch)
    then (g, false)
    else if not allocated
    then (cleanup g, false)
    else if not read
    then (cleanup (record (cleanup g) { host_data = true; dag_size = size }), false)
    else (record (cleanup g) { host_data = true; dag_size = size }, true)

pub load_from_cache : DagGenerator → ℕ → Option ℕ → Bool → Bool → DagGenerator × Bool
unfolding load_file is_empty
load_from_cache g epoch none allocated read = (g, false)
load_from_cache g epoch (some size) allocated read =
    if is_empty g.cache_dir then (g, false) else load_file g epoch allocated read size

-- Whether the file is written, with the bytes that are read from the host memory.
pub save_to_cache : DagGenerator → Bool → Bool → Bool × ℕ
unfolding is_empty
save_to_cache g opened written =
    if is_empty g.cache_dir || not g.host_data
    then (false, 0)
    else if not opened
    then (false, 0)
    else (written, g.dag_size)

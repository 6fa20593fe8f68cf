-- ===== src/Pipeline.antt =====
-- src/cuda/pipeline/pipeline_manager.cpp with include/ohmy/cuda/pipeline/pipeline_manager.hpp. The
-- copies of a stream run in order, so each is done where it is queued; a `CUDA_CHECK` that fails is an
-- exception, and `none` its result.
pub mod Ready
pub mod Access
pub mod Tests
use ohmy_miner_etc.Common.{
  ℕ, zero, suc, ◌+◌, ◌-◌, ◌*◌, ◌/◌, ◌%◌, ◌^◌, min, max, List, [], ◌∷◌, ◌++◌, Bool, true, false,
  Option, none, some, if◌then◌else◌, ltb, leb, ◌==◌, length, get_elem?, set, take, drop, replicate,
  u64, ◌>>=◌,
}
use ohmy_miner_etc.Types.{Solution}

pub record DeviceSolution : Type 0 where
  pub nonce : ℕ
  pub mix_hash : List ℕ
  pub result : List ℕ

-- The buffers of a stream on the host or on the device.
pub record Buffers : Type 0 where
  pub header : List ℕ
  pub seed_hash : List ℕ
  pub target : List ℕ
  pub solution_count : ℕ
  pub solutions : List DeviceSolution

pub record WorkItem : Type 0 where
  pub header_hash : List ℕ
  pub seed_hash : List ℕ
  pub target_be : List ℕ
  pub start_nonce : ℕ
  pub count : ℕ

-- `streams` counts the streams with their events.
pub record PipelineManager : Type 0 where
  pub num_streams : ℕ
  pub stream_idx : ℕ
  pub initialized : Bool
  pub pending_work : List WorkItem
  pub finished_work : List ℕ
  pub host : List Buffers
  pub device : List Buffers
  pub streams : ℕ

pub new_pipeline : PipelineManager
new_pipeline = record {
  num_streams = 0;
  stream_idx = 0;
  initialized = false;
  pending_work = [];
  finished_work = [];
  host = [];
  device = [];
  streams = 0;
}

abbrev pub min_streams : ℕ
min_streams = 2

abbrev pub max_streams : ℕ
max_streams = 8

pub queue_search : PipelineManager → List ℕ → List ℕ → List ℕ → ℕ → ℕ → PipelineManager
queue_search p header_hash seed_hash target_be start_nonce count =
    let item : WorkItem = record {
      header_hash = header_hash;
      seed_hash = seed_hash;
      target_be = take 32 target_be;
      start_nonce = start_nonce;
      count = count;
    } in
    let pending = p.pending_work ++ item ∷ [] in
    record p {
      pending_work = pending;
      finished_work = p.finished_work ++ (length pending - 1) ∷ [];
    }

-- `none` is -1.
pub get_finished_stream : PipelineManager → Option ℕ
get_finished_stream p = if length p.finished_work == 0 then none else some 0

pub get_results : PipelineManager → ℕ → PipelineManager × List Solution
get_results p stream_idx = (record p { finished_work = drop 1 p.finished_work }, [])

-- `static_cast<int>`, and `std::max` and `std::min` with the bounds: an `int` of at least 2^31 is
-- negative, and below the minimum.
pub optimal_streams : ℕ → ℕ
optimal_streams free_mem =
    let streams = u64 (free_mem * 90) / 100 / 640 % 2 ^ 32 in
    min (if ltb streams (2 ^ 31) then max min_streams streams else min_streams) max_streams

-- `atoi` of `OHMY_NUM_STREAMS`, where a negative number counts as 0: both are clamped to the minimum.
pub stream_count : Option ℕ → ℕ → ℕ
unfolding optimal_streams
stream_count none free_mem = max min_streams (min (optimal_streams free_mem) max_streams)
stream_count (some wanted) free_mem = max min_streams (min wanted max_streams)

-- `fresh` is what new memory holds, and `budget` how many groups of five host buffers, five device
-- buffers, or a stream and three events can be allocated, in this order, before an allocation fails.
pub initialize : Buffers → ℕ → Option ℕ → PipelineManager → ℕ → PipelineManager × Option ℕ
unfolding stream_count
initialize fresh budget env p free_mem =
    let n = stream_count env free_mem in
    let grown : PipelineManager = record p {
      num_streams = n;
      host = p.host ++ replicate (min n budget) fresh;
      device = p.device ++ replicate (min n (budget - n)) fresh;
      streams = p.streams + min n (budget - 2 * n);
    } in
    if p.initialized
    then (p, some p.num_streams)
    else if leb (3 * n) budget
    then (record grown { initialized = true; stream_idx = 0 }, some n)
    else (grown, none)

pub cleanup : PipelineManager → PipelineManager
cleanup p =
    if p.initialized
    then record p {
      num_streams = 0;
      stream_idx = 0;
      initialized = false;
      host = [];
      device = [];
      streams = 0;
    }
    else p

-- With no streams the remainder is undefined in C++.
unfoldable pub advance_stream : PipelineManager → PipelineManager
advance_stream p = record p { stream_idx = (p.stream_idx + 1) % p.num_streams }

-- The two sets of buffers of a stream; `none` for an index that has none.
abbrev pub buffers_at : PipelineManager → ℕ → Option (Buffers × Buffers)
buffers_at p idx = get_elem? p.host idx >>= λ h. get_elem? p.device idx >>= λ d. some (h, d)

pub stage_work : PipelineManager → ℕ → List ℕ → List ℕ → List ℕ → Option PipelineManager
stage_work p idx header_hash seed_hash target_be = buffers_at p idx >>= λ b.
    let staged : Buffers → Buffers = λ x. record x {
      header = take 32 header_hash;
      seed_hash = take 32 seed_hash;
      target = take 32 target_be;
      solution_count = 0;
    } in
    some (record p { host = set p.host idx (staged b.0); device = set p.device idx (staged b.1) })

-- The count and the first `max_solutions` solutions of the device, in the buffers of the host.
pub collect_results : PipelineManager → ℕ → ℕ → Option (PipelineManager × ℕ)
collect_results p idx max_solutions = buffers_at p idx >>= λ b.
    let copied : Buffers = record (b.0) {
      solution_count = b.1.solution_count;
      solutions = take max_solutions b.1.solutions ++ drop max_solutions b.0.solutions;
    } in
    some (record p { host = set p.host idx copied }, b.1.solution_count)

-- ===== src/Executor/Tests.antt =====
-- Ticks of src/cuda/pipeline/search_executor.cpp.
use ohmy_miner_etc.Common.{min, ◌≡◌, refl, [], ◌∷◌, some, arith, replicate, codes}
use ohmy_miner_etc.Pipeline.{DeviceSolution, Buffers, PipelineManager}
use ohmy_miner_etc.Pipeline.Tests.{fresh, started}
use ohmy_miner_etc.Executor.{Kernel, SearchWork, Search, success, run_async_tick}
use ohmy_miner_etc.Executor.Results.{IsTicked, run_async_tick-IsTicked}

abbrev one_solution : DeviceSolution
one_solution = record { nonce = 77; mix_hash = replicate 32 1; result = replicate 32 2 }

abbrev pub done_batch : Buffers
done_batch = record fresh { solution_count = 1; solutions = one_solution ∷ [] }

abbrev pub pipeline_done : PipelineManager
pipeline_done = record started { device = done_batch ∷ fresh ∷ fresh ∷ [] }

abbrev pub idle_kernel : Kernel
idle_kernel d_dag dag_size header seed_hash target start_nonce count max_solutions = (0, [])

abbrev work : SearchWork
work = record {
  d_dag = 4096;
  dag_size = 1073741824;
  header_hash = replicate 32 5;
  seed_hash = replicate 32 6;
  target_be = replicate 32 255;
  start_nonce = 0;
  count = 1000;
  job_id = codes "j2";
  epoch = 0;
}

abbrev searching : Search
searching = record {
  pipeline = some pipeline_done;
  pending_counts = 500 ∷ 600 ∷ 700 ∷ [];
  out_solutions = [];
  total_hashes = 40;
}

run_async_tick-IsTicked_example :
    (r : Search) × (run_async_tick idle_kernel work 16 (codes "j2") searching success
      ≡ some (r, min 1 16))
    × IsTicked idle_kernel work 16 (codes "j2") searching pipeline_done done_batch r
run_async_tick-IsTicked_example =
    run_async_tick-IsTicked idle_kernel work 16 (codes "j2") searching pipeline_done done_batch refl
      refl
      record {
        at_least = omega arith;
        at_most = omega arith;
        index = omega arith;
        host = omega arith;
        device = omega arith;
        streams = omega arith;
      }
      refl refl (omega arith) (omega arith)

-- ===== src/Pipeline/Tests.antt =====
-- Runs of src/cuda/pipeline/pipeline_manager.cpp.
use ohmy_miner_etc.Common.{◌≡◌, refl, [], ◌∷◌, true, none, some, replicate}
use ohmy_miner_etc.Pipeline.{
  Buffers, PipelineManager, new_pipeline, initialize, stream_count, optimal_streams,
}
use ohmy_miner_etc.Pipeline.Ready.{Reach, built, step, initialized, IsSized, reach-IsReady}

abbrev pub fresh : Buffers
fresh = record {
  header = replicate 32 0;
  seed_hash = replicate 32 0;
  target = replicate 32 0;
  solution_count = 0;
  solutions = [];
}

abbrev pub started : PipelineManager
started = record {
  num_streams = 3;
  stream_idx = 0;
  initialized = true;
  pending_work = [];
  finished_work = [];
  host = fresh ∷ fresh ∷ fresh ∷ [];
  device = fresh ∷ fresh ∷ fresh ∷ [];
  streams = 3;
}

three_streams : initialize fresh 9 (some 3) new_pipeline 8000000000 ≡ (started, some 3)
unfolding initialize stream_count new_pipeline
three_streams = refl

enough_memory : stream_count none 8000000000 ≡ 8
unfolding stream_count optimal_streams
enough_memory = refl

started_Reach : Reach (initialize fresh 9 (some 3) new_pipeline 8000000000).0
started_Reach =
    step new_pipeline (initialize fresh 9 (some 3) new_pipeline 8000000000).0 built
      (initialized fresh 9 (some 3) 8000000000)

started_on : (initialize fresh 9 (some 3) new_pipeline 8000000000).0.initialized ≡ true
unfolding initialize stream_count new_pipeline
started_on = refl

reach-IsReady_example : IsSized (initialize fresh 9 (some 3) new_pipeline 8000000000).0
reach-IsReady_example =
    reach-IsReady (initialize fresh 9 (some 3) new_pipeline 8000000000).0 started_Reach started_on

-- ===== src/Engine/Tests.antt =====
-- Runs of src/core/mining_engine.cpp and of src/utils/difficulty.cpp.
use ohmy_miner_etc.Common.{
  inr, ◌+◌, ◌⊎◌, length, ◌≡◌, refl, [], ◌∷◌, true, false, none, some, arith, codes, replicate,
}
use ohmy_miner_etc.Ethash.{get_dataset_size}
use ohmy_miner_etc.Dag.Size.{new_generator-IsSizedDag}
use ohmy_miner_etc.Dag.{new_generator}
use ohmy_miner_etc.Dag.Tests.{fine}
use ohmy_miner_etc.Stratum.{bytes}
use ohmy_miner_etc.Stratum.Tests.{library, blank, no_job, online, solution, accepted_text}
use ohmy_miner_etc.Engine.{
  MiningEngine, new_engine, Device, Searcher, process_solutions, iterate, mine, mine_throws,
}
use ohmy_miner_etc.Engine.Difficulty.{target_from_difficulty}
use ohmy_miner_etc.Engine.Invariant.{Reached, started, iterated, IsDagOf, reached-IsDagOf}
use ohmy_miner_etc.Executor.{solution_of}
use ohmy_miner_etc.Cuda.SearchHash.{search_hash}
use ohmy_miner_etc.Cuda.SearchKernel.Output.{found}
use ohmy_miner_etc.Cuda.SearchKernel.Nonces.{Listed}
use ohmy_miner_etc.Cuda.SearchKernel.Tests.{
  in_order-IsComplete, replicate-IsBytes, base_threads_lem,
}
use ohmy_miner_etc.Cuda.DeviceManager.{max_found}
use ohmy_miner_etc.Cuda.DeviceManager.Tests.{card, manager, fewer, meets}
use ohmy_miner_etc.Engine.Mining.{searcher_of, handed_out, job_input, mine-found}
use ohmy_miner_etc.Engine.Shares.{AreSubmitted, process_solutions-AreSubmitted}

-- Any difficulty but 2 has the target of difficulty 1.
high_difficulty : target_from_difficulty 4000000000 ≡ replicate 32 255
unfolding target_from_difficulty
high_difficulty = refl

abbrev engine : MiningEngine
engine = new_engine (online (bytes accepted_text ∷ []) (true ∷ [])) (new_generator []) no_job

process_solutions-AreSubmitted_example :
    AreSubmitted library blank engine
      (solution ∷ solution ∷ [])
      (codes "j1")
      (process_solutions library blank engine (solution ∷ solution ∷ []) (codes "j1"))
unfolding new_engine
process_solutions-AreSubmitted_example =
    process_solutions-AreSubmitted library blank engine (solution ∷ solution ∷ []) (codes "j1")
      (omega arith)

-- An engine with a job of the epoch of its DAG, which waits for a difficulty.
abbrev waiting : MiningEngine
waiting = record engine {
  has_job = true;
  current_job = no_job;
  current_dag_epoch = 0;
  device_dag = some (4096, get_dataset_size 0);
}

abbrev device : Device
device address size = some true

abbrev no_search : Searcher
no_search header seed target start count = []

waits : iterate library blank device (λ n. fine 200) none no_search false waiting ≡ some waiting
unfolding iterate mine mine_throws new_engine
waits = refl

waiting_Reached : Reached library blank waiting
unfolding new_engine
waiting_Reached =
    iterated device (λ n. fine 200) none no_search false waiting waiting
      (started waiting record {
        sized = new_generator-IsSizedDag [];
        dag = inr (4096, refl, λ e. ground (arith, e));
        ready = λ _. record {
          epoch_is = refl;
          is_job = record { epoch_range = omega arith; block = refl };
        };
      })
      waits

reached-IsDagOf_example : IsDagOf waiting
reached-IsDagOf_example = reached-IsDagOf library blank waiting waiting_Reached refl

-- An engine with a job and a difficulty, and a target that every result meets.
abbrev mining : MiningEngine
mining = record waiting { last_difficulty = 4; current_target = replicate 32 255 }

mine-found_example :
    AreSubmitted library blank
      (record mining { last_logged = mining.current_job.job_id })
      (handed_out library blank card manager mining)
      mining.current_job.job_id
      (mine library blank (searcher_of card manager) mining)
    × (Listed
          (solution_of
            (codes "j1")
            (found search_hash (job_input library blank card manager mining) (0 + 5)))
          (handed_out library blank card manager mining)
        ⊎ (length (handed_out library blank card manager mining) ≡ max_found))
unfolding new_engine
mine-found_example =
    mine-found library blank card manager mining 5 refl (λ e. ground (arith, e)) (omega arith) refl
      (λ e. ground (arith, e)) (λ e. ground (arith, e)) tt refl in_order-IsComplete refl
      (replicate-IsBytes 32 255 (omega arith))
      (fewer mining.current_job.header_hash mining.current_job.seed_hash mining.current_target 0
        10000000 (omega (arith, base_threads_lem.1)))
      (omega arith) (meets (job_input library blank card manager mining) (0 + 5))

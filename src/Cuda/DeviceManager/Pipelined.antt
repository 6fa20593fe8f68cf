-- ===== src/Cuda/DeviceManager/Pipelined.antt =====
-- Asynchronous searches on the card: the executor's ticks with the launcher and the kernels in them.
use ohmy_miner_etc.Common.{
  ℕ, zero, suc, ◌+◌, ◌^◌, ◌<◌, ◌≤◌, ◌≡◌, ◌≢◌, ap, ◌∙◌, min, List, [], ◌∷◌, ◌++◌, map, length, take,
  drop, true, some, arith,
}
use ohmy_miner_etc.Launcher.{KernelLaunchParams, launch_search_kernel}
use ohmy_miner_etc.Launcher.Choice.{IsCached}
use ohmy_miner_etc.Pipeline.{DeviceSolution, PipelineManager}
use ohmy_miner_etc.Pipeline.Ready.{IsSized}
use ohmy_miner_etc.Executor.{Kernel, SearchWork, Search, solution_of}
use ohmy_miner_etc.Executor.Turns.{Tick, run_ticks}
use ohmy_miner_etc.Executor.Rounds.{found_for, run_ticks-collected}
use ohmy_miner_etc.Cuda.SearchHash.{search_hash}
use ohmy_miner_etc.Cuda.SearchKernel.{SearchOutput}
use ohmy_miner_etc.Cuda.SearchKernel.Output.{winners, stored}
use ohmy_miner_etc.Cuda.DeviceManager.{
  Card, DeviceManager, max_found, run_launch, search_input, launch_params,
}
use ohmy_miner_etc.Cuda.DeviceManager.Launched.{tried, take-stored}
use ohmy_miner_etc.Cuda.DeviceManager.Found.{input, launched, stored_lem}

-- The kernel that the executor runs: the launcher's choice, on the buffers of a stream.
pub kernel_of : Card → DeviceManager → Kernel
kernel_of card m d_dag dag_size header seed target start count max_solutions =
    let params : KernelLaunchParams =
      record (launch_params d_dag dag_size m.stream_compute start count) {
        max_solutions = max_solutions;
      } in
    let out =
      run_launch card (search_input card dag_size header seed target)
        (launch_search_kernel m.kernel_config card.environment params).0
        (record { solutions = card.fresh; solution_count = 0 }) in
    (out.solution_count, out.solutions)

-- The buffer of solutions is long enough for those that are counted.
length-stored :
    (n : ℕ) (found slots : List DeviceSolution)
    → length slots ≡ n
    → min (length found) n ≤ length (take n found ++ drop (length found) slots)
length-stored zero found slots e = omega arith
length-stored (suc n) [] slots e = omega arith
length-stored (suc n) (w ∷ found) [] e = absurd (omega arith)
length-stored (suc n) (w ∷ found) (x ∷ slots) e =
    omega (arith, length-stored n found slots (omega arith))

module _ (card : Card) (m : DeviceManager) (work : SearchWork) where
  abbrev pub header : List ℕ
  header = take 32 work.header_hash

  abbrev pub seed : List ℕ
  seed = take 32 work.seed_hash

  abbrev pub target : List ℕ
  target = take 32 work.target_be

  -- The manager with the DAG of the work.
  abbrev pub on_work : DeviceManager
  on_work = record m { d_dag = work.d_dag; dag_size = work.dag_size }

  -- The solutions that the threads find for the work.
  abbrev pub sought : List DeviceSolution
  sought =
      winners search_hash (input card on_work header seed target work.start_nonce work.count)
        (tried card (launched card on_work header seed target work.start_nonce work.count))

  module _ (present : work.d_dag ≢ 0) (cached : IsCached m.kernel_config)
      (room : length card.fresh ≡ max_found) (less : length sought < 2 ^ 32) where
    found_lem :
        found_for (kernel_of card m) max_found work
        ≡ (length sought, take max_found sought ++ drop (length sought) card.fresh)
    unfolding kernel_of launch_params stored
    found_lem =
        ap (λ (out : SearchOutput). (out.solution_count, out.solutions))
          (stored_lem card on_work header seed target work.start_nonce work.count present cached
            room less)

    -- On a manager whose launcher has cached 1 to 256 nonces for a thread if anything, with
    -- an initialized pipeline and a buffer of 16 solutions: a tick launches a work with a DAG, the
    -- one on the card, of any size, for
    -- which the threads, in whatever order the card runs them, find fewer than 2^32 solutions; the
    -- other streams have a tick each, for any works, and may be complete or still running; and the
    -- last tick comes to the first stream again, complete. Then all ticks return, and the last hands
    -- out the solutions of the work whose result is at most the target, in the order found and at most
    -- 16 of them, under the job id that is then current.
    pub run_ticks-found :
        (s : Search) (p : PipelineManager) (work' : SearchWork) (job_id job_id' : List ℕ)
        (ticks : List Tick)
        → s.pipeline ≡ some p
        → p.initialized ≡ true
        → IsSized p
        → length ticks + 1 ≡ p.num_streams
        → (r : Search) × (run_ticks
              (kernel_of card m)
              max_found
              (record { work = work; job_id = job_id; completed = true } ∷ ticks
                ++ record { work = work'; job_id = job_id'; completed = true } ∷ [])
              s
            ≡ some r)
          × (r.out_solutions ≡ map (solution_of job_id') (take max_found sought))
    run_ticks-found s p work' job_id job_id' ticks sp ready sized round =
        let (r, run, out) =
          run_ticks-collected (kernel_of card m) max_found s p work work' job_id job_id' ticks sp
            ready sized present (λ e. ground (arith, e)) round
            (rw found_lem (length-stored max_found sought card.fresh room)) in
        (
          r,
          run,
          out
              ∙ rw found_lem (
                  ap (map (solution_of job_id'))
                    (take-stored max_found sought (drop (length sought) card.fresh))),
        )

-- ===== src/Cuda/DeviceManager/Found.antt =====
-- A synchronous search, from the nonces asked for to the solutions that the caller gets, through the
-- launcher's choice of a kernel.
use ohmy_miner_etc.Common.{
  length-map, length-take, All, take, ◌⊎◌, take_all, ℕ, ◌+◌, ◌-◌, ◌^◌, ◌<◌, ◌≤◌, ◌≡◌, ◌≢◌, inl, inr,
  sym, ap, ◌∙◌, subst, List, [], map, length, min, true, false, Option, some, arith, ◌==◌, IsBytes,
}
use ohmy_miner_etc.Types.{Solution}
use ohmy_miner_etc.Pipeline.{DeviceSolution}
use ohmy_miner_etc.Executor.{solution_of}
use ohmy_miner_etc.Launcher.{KernelLaunchParams, Launch, launch_search_kernel, KernelEnvConfig}
use ohmy_miner_etc.Launcher.Choice.{
  IsCached, IsUsable, IsLaunchOf, IsLaunched, launch_search_kernel-IsLaunched,
}
use ohmy_miner_etc.Cuda.SearchHash.{SearchInput, search_hash}
use ohmy_miner_etc.Cuda.SearchKernel.Target.{value_be}
use ohmy_miner_etc.Cuda.SearchKernel.Output.{found, winners, stored}
use ohmy_miner_etc.Cuda.SearchKernel.Launches.{empty_output}
use ohmy_miner_etc.Cuda.SearchKernel.Nonces.{Listed, IsComplete}
use ohmy_miner_etc.Cuda.SearchKernel.Found.{wins-le, winners-Listed, Listed-winners}
use ohmy_miner_etc.Cuda.SearchHash.Result.{result_of}
use ohmy_miner_etc.Cuda.DeviceManager.{
  Card, DeviceManager, max_found, run_launch, search_input, launch_params, read_solutions,
  launch_and_read, search_sync,
}
use native.Mathlib.Decide.{dec_lt}
use ohmy_miner_etc.Cuda.DeviceManager.Launched.{
  tried, run_launch-stored, tried-cover, read-stored, Listed-take, Listed-map, map-Listed,
  Listed-All,
}

module _ (card : Card) (m : DeviceManager) (header seed target : List ℕ) (start count : ℕ) where
  abbrev pub input : SearchInput
  input = search_input card m.dag_size header seed target

  abbrev pub params : KernelLaunchParams
  params = launch_params m.d_dag m.dag_size m.stream_compute start count

  abbrev pub launched : Option Launch
  launched = (launch_search_kernel m.kernel_config card.environment params).0

  -- A solution with a nonce that a thread has tried, its mix, its result, which is at most the
  -- target, and the current job id.
  abbrev pub IsTried : Solution → Type 0
  IsTried s =
      (n : ℕ) × Listed n (tried card launched)
      × (value_be (result_of input n) ≤ value_be target)
      × (s ≡ solution_of m.current_job_id (found search_hash input n))

  module _ (present : m.d_dag ≢ 0) (cached : IsCached m.kernel_config)
      (room : length card.fresh ≡ max_found)
      (less : length (winners search_hash input (tried card launched)) < 2 ^ 32) where
    is_launched :
        IsLaunched m.kernel_config card.environment params
          (launch_search_kernel m.kernel_config card.environment params)
    is_launched = launch_search_kernel-IsLaunched m.kernel_config card.environment params cached

    usable : IsUsable params
    unfolding launch_params
    usable = (
      present,
      (λ e. ground (arith, e)),
      (λ e. ground (arith, e)),
      (λ e. ground (arith, e)),
      (λ e. ground (arith, e)),
      (λ e. ground (arith, e)),
      λ e. ground (arith, e),
    )

    -- The solutions of the launch.
    abbrev pub ws : List DeviceSolution
    ws = winners search_hash input (tried card launched)

    launch_lem : (launch : Launch) × (launched ≡ some launch) × IsLaunchOf params launch
    launch_lem =
        let (launch, config, same, of, in_force, chosen) = is_launched.launched usable in
        (launch, ap (λ (r : Option Launch × Option KernelEnvConfig). r.0) same, of)

    -- What the launch leaves.
    pub stored_lem :
        run_launch card input launched (empty_output card.fresh) ≡ stored max_found card.fresh ws
    stored_lem =
        let t = launch_lem in
        subst
          (λ (l : Option Launch).
            length (winners search_hash input (tried card l)) < 2 ^ 32
            → run_launch card input l (empty_output card.fresh)
              ≡ stored max_found card.fresh (winners search_hash input (tried card l)))
          (sym t.1) (run_launch-stored card m header seed target start count t.0 t.2 room) less

    module _ (on : m.pipeline_initialized ≡ true) (streamed : m.stream_compute ≢ 0) where
      abbrev after : DeviceManager × ℕ × List Solution
      after = search_sync card m header seed target start count []

      search_sync_lem :
          (after.1 ≡ min (length ws) max_found)
          × (after.2 ≡ map (solution_of m.current_job_id) (take max_found ws))
      unfolding search_sync launch_and_read
      search_sync_lem =
          let streams : (m.stream_compute == 0) ≡ false = ground (arith, streamed) in
          let e =
            ap (λ out. read_solutions m.current_job_id out []) stored_lem
            ∙ read-stored m.current_job_id card.fresh ws in
          rw (on, streams)
            (ap (λ (r : ℕ × List Solution). r.0) e, ap (λ (r : ℕ × List Solution). r.1) e)

      -- The count is that of the solutions handed out.
      pub search_sync-length :
          (length (search_sync card m header seed target start count []).2
            ≡ (search_sync card m header seed target start count []).1)
          × ((search_sync card m header seed target start count []).1 ≤ max_found)
      search_sync-length =
          let all = ap (length {A = Solution}) search_sync_lem.1 in
          let mapped = length-map (take max_found ws) (solution_of m.current_job_id) in
          let taken = length-take max_found ws in
          (omega (arith, all, mapped, taken, search_sync_lem.0), omega (arith, search_sync_lem.0))

      -- A synchronous search on an initialized manager, with a DAG and its stream, through the
      -- launcher's choice of the plain or the optimized kernel, in whatever order the card runs the
      -- threads, for at most 2^31 - 2^11 nonces below 2^64 and a target of 32 bytes, when the threads
      -- find fewer than 2^32 solutions: every nonce asked for whose result, as a big-endian number, is
      -- at most the target is among the solutions handed out, with its mix, its result and the current
      -- job id, unless the count returned is 16, the room of the buffer.
      pub search_sync-found :
          (k : ℕ)
          → IsComplete card.schedule
          → length target ≡ 32
          → IsBytes target
          → count ≤ 2 ^ 31 - 2 ^ 11
          → start + count ≤ 2 ^ 64
          → k < count
          → value_be (result_of input (start + k)) ≤ value_be target
          → Listed
              (solution_of m.current_job_id (found search_hash input (start + k)))
              (search_sync card m header seed target start count []).2
            ⊎ ((search_sync card m header seed target start count []).1 ≡ max_found)
      search_sync-found k complete e bytes small fits h le =
          let (launch, same, of) = launch_lem in
          let win =
            (wins-le input (start + k) (unfold search_input in e) (unfold search_input in bytes)).1
              (unfold search_input in le) in
          let in_tried =
            subst (λ (l : Option Launch). Listed (start + k) (tried card l)) (sym same)
              (tried-cover card m header seed target start count launch k of complete small fits
                h) in
          let in_ws =
            winners-Listed search_hash input (start + k) (tried card launched) in_tried win in
          elim (dec_lt max_found (length ws)) [
            | yes more ↦ inr (search_sync_lem.0 ∙ omega arith)
            | no room ↦ inl (
                subst (Listed (solution_of m.current_job_id (found search_hash input (start + k))))
                  (sym (
                    search_sync_lem.1
                    ∙ ap (map (solution_of m.current_job_id))
                        (take_all max_found ws (omega arith))))
                  (Listed-map (solution_of m.current_job_id) (found search_hash input (start + k))
                    ws in_ws))
          ]

      -- On an initialized manager, with a DAG and its stream, a target of 32 bytes, and when the threads
      -- find fewer than 2^32 solutions, a synchronous search counts at most 16 solutions; each that it
      -- hands out is a nonce that a thread has tried, with its mix, its result and the current job id,
      -- and this result, as a big-endian number, is at most the target.
      pub search_sync_sound :
          length target ≡ 32
          → IsBytes target
          → ((search_sync card m header seed target start count []).1 ≤ max_found)
            × All IsTried (search_sync card m header seed target start count []).2
      search_sync_sound e bytes = (
        omega (arith, search_sync_lem.0),
        Listed-All IsTried (search_sync card m header seed target start count []).2 is_tried,
      )
        where
          is_tried :
              (s : Solution)
              → Listed s (search_sync card m header seed target start count []).2
              → IsTried s
          is_tried s h =
              let (d, in_ws, same) =
                map-Listed (solution_of m.current_job_id) s (take max_found ws)
                  (subst (Listed s) search_sync_lem.1 h) in
              let (n, in_tried, win, is_found) =
                Listed-winners search_hash input d (tried card launched)
                  (Listed-take d max_found ws in_ws) in
              (
                n,
                in_tried,
                unfold search_input in (wins-le input n e bytes).0 win,
                same ∙ ap (solution_of m.current_job_id) is_found,
              )

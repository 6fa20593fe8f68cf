-- ===== src/Executor/Rounds.antt =====
-- A batch from the tick that launches it to the next turn of its stream.
use ohmy_miner_etc.Common.{
  ℕ, ◌+◌, ◌≤◌, ◌≡◌, ◌≢◌, ◌⊎◌, inl, inr, refl, ap, ◌∙◌, min, List, [], ◌∷◌, ◌++◌, map, true, false,
  some, arith, ◌==◌, length, get_elem?, get_elem?-lt, take, ◌>>=◌,
}
use ohmy_miner_etc.Pipeline.{DeviceSolution, Buffers, PipelineManager}
use ohmy_miner_etc.Pipeline.Ready.{IsSized}
use ohmy_miner_etc.Pipeline.Access.{staged}
use ohmy_miner_etc.Executor.{Kernel, SearchWork, Search, solution_of, launch_on}
use ohmy_miner_etc.Executor.Results.{relaunched, ticked, collected_lem}
use ohmy_miner_etc.Executor.Turns.{
  Tick, run_ticks, IsOn, counts_of, completed_tick, completed-IsTurn, run_ticks-append, ticks-kept,
  launched-device,
}

module _ (kernel : Kernel) (max_solutions : ℕ) where
  -- What the kernel finds for a work.
  abbrev pub found_for : SearchWork → ℕ × List DeviceSolution
  found_for work =
      kernel work.d_dag work.dag_size (take 32 work.header_hash) (take 32 work.seed_hash)
        (take 32 work.target_be) work.start_nonce work.count max_solutions

  relaunched_lem :
      (work : SearchWork) (job_id : List ℕ) (d : Buffers)
      → work.d_dag ≢ 0
      → max_solutions ≢ 0
      → relaunched kernel work max_solutions job_id d
        ≡ record (staged work.header_hash work.seed_hash work.target_be d) {
          solution_count = (found_for work).0;
          solutions = (found_for work).1;
        }
  unfolding relaunched launch_on
  relaunched_lem work job_id d dag room =
      let there : (work.d_dag == 0) ≡ false = ground (arith, dag) in
      let some_room : (max_solutions == 0) ≡ false = ground (arith, room) in
      rw (there, some_room) refl

  -- What a complete batch of a stream is handed out as.
  collected :
      (s : Search) (p : PipelineManager) (h d : Buffers) (work : SearchWork) (job_id : List ℕ)
      → min d.solution_count max_solutions ≤ length d.solutions
      → (ticked kernel work max_solutions job_id s p
          (counts_of kernel max_solutions s p)
          h
          d).0.out_solutions
        ≡ map (solution_of job_id) (take (min d.solution_count max_solutions) d.solutions)
  unfolding ticked
  collected s p h d work job_id enough = collected_lem kernel work max_solutions job_id h d enough

  -- On an initialized pipeline with as many streams as there are ticks before the last, of which the
  -- first and the last find the batch of their stream complete and the others may find theirs still
  -- running: all ticks return; and the solutions handed out by the last are those that the kernel has
  -- found for the work of the first, as many as are counted and at most the maximum, under the job id
  -- that is current at the last tick, with whatever works and job ids in between.
  pub run_ticks-collected :
      (s : Search) (p : PipelineManager) (work work' : SearchWork) (job_id job_id' : List ℕ)
      (ticks : List Tick)
      → s.pipeline ≡ some p
      → p.initialized ≡ true
      → IsSized p
      → work.d_dag ≢ 0
      → max_solutions ≢ 0
      → length ticks + 1 ≡ p.num_streams
      → min (found_for work).0 max_solutions ≤ length (found_for work).1
      → (r : Search) × (run_ticks kernel max_solutions
            (record { work = work; job_id = job_id; completed = true } ∷ ticks
              ++ record { work = work'; job_id = job_id'; completed = true } ∷ [])
            s
          ≡ some r)
        × (r.out_solutions
            ≡ map
                (solution_of job_id')
                (take (min (found_for work).0 max_solutions) (found_for work).1))
  unfolding run_ticks
  run_ticks-collected s p work work' job_id job_id' ticks sp ready sized dag room round enough =
      let on : IsOn s p = record { pipeline = sp; on = ready; sized = sized } in
      let (h, eh) = get_elem?-lt p.host p.stream_idx (omega (arith, sized.index, sized.host)) in
      let (d, ed) = get_elem?-lt p.device p.stream_idx (omega (arith, sized.index, sized.device)) in
      let first = completed_tick kernel max_solutions s p h d work job_id on eh ed in
      let turn = completed-IsTurn kernel max_solutions s p h d work job_id on in
      let (a, q, run, is_on, at, same) =
        ticks-kept kernel max_solutions ticks _ turn.next p.stream_idx turn.is_on
          (omega (arith, turn.streams, sized.index)) (omega (arith, turn.streams))
          (begin turn.index turn.streams) in
      let at_launched : get_elem? q.device q.stream_idx ≡ some (loaded d) =
        ap (get_elem? q.device) at
        ∙ same
        ∙ launched-device kernel max_solutions s p turn.next h d work job_id
            (omega (arith, sized.index, sized.device)) turn.is_on.pipeline
        ∙ ap some (relaunched_lem work job_id d dag room) in
      let (h', eh') =
        get_elem?-lt q.host q.stream_idx (omega (arith, is_on.sized.index, is_on.sized.host)) in
      (
        (ticked kernel work' max_solutions job_id' a q (counts_of kernel max_solutions a q) h'
            (loaded d)).0,
        ap (λ o. o >>= λ x. run_ticks kernel max_solutions (ticks ++ last ∷ []) x.0) first
            ∙ run_ticks-append kernel max_solutions ticks (last ∷ []) _ a run
            ∙ ap (λ o. o >>= λ x. run_ticks kernel max_solutions [] x.0)
                (completed_tick kernel max_solutions a q h' (loaded d) work' job_id' is_on eh'
                  at_launched),
        collected a q h' (loaded d) work' job_id' enough,
      )
    where
      last : Tick
      last = record { work = work'; job_id = job_id'; completed = true }

      loaded : Buffers → Buffers
      loaded d = record (staged work.header_hash work.seed_hash work.target_be d) {
        solution_count = (found_for work).0;
        solutions = (found_for work).1;
      }

      begin :
          {i n : ℕ}
          → (i ≡ p.stream_idx + 1) ⊎ ((i ≡ 0) × (p.stream_idx + 1 ≡ p.num_streams))
          → n ≡ p.num_streams
          → (i + length ticks ≡ p.stream_idx) ⊎ (i + length ticks ≡ p.stream_idx + n)
      begin (inl e) f = inr (omega arith)
      begin (inr e) f = inl (omega (arith, e.0, e.1))

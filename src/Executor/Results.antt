-- ===== src/Executor/Results.antt =====
-- What a tick hands out and leaves behind on a stream whose batch is complete.
use ohmy_miner_etc.Common.{
  ℕ, zero, suc, ◌+◌, ◌%◌, ◌<◌, ◌≤◌, ◌≡◌, refl, ap, ◌∙◌, min, List, [], map, true, false, not,
  Option, some, arith, if◌then◌else◌, if-true, if-false, ltb, ◌==◌, length, length-set, get_elem?,
  get_elem?-lt, get_elem?-set_self, get_or, set, take, drop, take-take_append, u64, max_u64,
}
use ohmy_miner_etc.Pipeline.{DeviceSolution, Buffers, PipelineManager, advance_stream}
use ohmy_miner_etc.Pipeline.Ready.{IsSized}
use ohmy_miner_etc.Pipeline.Access.{copied, staged, collect_results-some, stage_work-some}
use ohmy_miner_etc.Executor.{
  Kernel, SearchWork, success, Search, solution_of, launch_on, sized_counts, finish_tick,
  query_tick, tick_on, run_async_tick, launch_at, collected_solutions,
}
use ohmy_miner_etc.Executor.Accounts.{total-set, get_or-le-total, accounts}

sized_counts_lem :
    (streams : ℕ) (counts : List ℕ) → length counts ≡ streams → sized_counts streams counts ≡ counts
unfolding sized_counts
sized_counts_lem streams counts e =
    let same : (length counts == streams) ≡ true = ground (arith, e) in rw same

module _ (kernel : Kernel) (work : SearchWork) (max_solutions : ℕ) (job_id : List ℕ) where
  -- The buffers of the device with the new work on them.
  unfoldable pub relaunched : Buffers → Buffers
  relaunched d =
      launch_on kernel work max_solutions (staged work.header_hash work.seed_hash work.target_be d)

  unfoldable pub found_of : ℕ → ℕ
  found_of count = if ltb 0 count then min count max_solutions else count

  -- The outcome of a tick on a stream with buffers `h` and `d`.
  unfoldable pub ticked : Search → PipelineManager → List ℕ → Buffers → Buffers → Search × ℕ
  ticked s p counts h d = (
    record s {
      pipeline = some (
          advance_stream (record p {
            host =
                set (set p.host p.stream_idx (copied max_solutions h d)) p.stream_idx (
                  staged work.header_hash work.seed_hash work.target_be (copied max_solutions h d));
            device =
                set
                  (set p.device p.stream_idx
                    (staged work.header_hash work.seed_hash work.target_be d))
                  p.stream_idx (relaunched d);
          }));
      pending_counts = set counts p.stream_idx work.count;
      out_solutions =
          collected_solutions job_id (found_of d.solution_count)
            (copied max_solutions h d).solutions;
      total_hashes = u64 (s.total_hashes + get_or counts p.stream_idx 0);
    },
    found_of d.solution_count,
  )

  pub finish_tick-some :
      (s : Search) (p : PipelineManager) (counts : List ℕ) (h d : Buffers)
      → p.stream_idx < length p.host
      → p.stream_idx < length p.device
      → get_elem? p.host p.stream_idx ≡ some h
      → get_elem? p.device p.stream_idx ≡ some d
      → finish_tick kernel work max_solutions job_id s p counts ≡ some (ticked s p counts h d)
  unfolding finish_tick ticked found_of relaunched launch_at
  finish_tick-some s p counts h d lh ld eh ed =
      let i = p.stream_idx in
      let c = copied max_solutions h d in
      let e = staged work.header_hash work.seed_hash work.target_be d in
      let hc : get_elem? (set p.host i c) i ≡ some c = get_elem?-set_self p.host i c lh in
      let de : get_elem? (set p.device i e) i ≡ some e = get_elem?-set_self p.device i e ld in
      rw (collect_results-some p i max_solutions h d eh ed) (
        rw hc (
          rw
            (stage_work-some (record p { host = set p.host i c }) i work.header_hash work.seed_hash
              work.target_be c d hc ed)
            (rw de)))

  found_of_lem : (count : ℕ) → found_of count ≡ min count max_solutions
  unfolding found_of
  found_of_lem count = ground arith

  kept :
      (m : ℕ) (xs ys : List DeviceSolution)
      → take m xs ≡ take m ys
      → collected_solutions job_id m xs ≡ map (solution_of job_id) (take m ys)
  unfolding collected_solutions
  kept zero xs ys e = refl
  kept (suc m) xs ys e =
      let positive : ltb 0 (suc m) ≡ true = ground arith in
      if-true (map (solution_of job_id) (take (suc m) xs)) [] positive
      ∙ ap (map (solution_of job_id)) e

  pub collected_lem :
      (h d : Buffers)
      → min d.solution_count max_solutions ≤ length d.solutions
      → collected_solutions job_id (found_of d.solution_count) (copied max_solutions h d).solutions
        ≡ map (solution_of job_id) (take (min d.solution_count max_solutions) d.solutions)
  collected_lem h d enough =
      let m = min d.solution_count max_solutions in
      ap (λ n. collected_solutions job_id n (copied max_solutions h d).solutions)
        (found_of_lem d.solution_count)
      ∙ kept m (copied max_solutions h d).solutions d.solutions (
          take-take_append m max_solutions d.solutions (drop max_solutions h.solutions)
            (omega arith) enough)

  -- What a tick does on the current stream, whose device buffers are `d`.
  pub record IsTicked (s : Search) (p : PipelineManager) (d : Buffers) (r : Search) : Type 0 where
    pub accounts : accounts r ≡ accounts s + work.count
    pub total : r.total_hashes ≡ s.total_hashes + get_or s.pending_counts p.stream_idx 0
    pub pending : r.pending_counts ≡ set s.pending_counts p.stream_idx work.count
    pub out :
        r.out_solutions
        ≡ map (solution_of job_id) (take (min d.solution_count max_solutions) d.solutions)
    pub next : PipelineManager
    pub pipeline : r.pipeline ≡ some next
    pub device : get_elem? next.device p.stream_idx ≡ some (relaunched d)
    pub stream : next.stream_idx ≡ (p.stream_idx + 1) % p.num_streams

  ticked-IsTicked :
      (s : Search) (p : PipelineManager) (h d : Buffers)
      → p.stream_idx < length p.device
      → p.stream_idx < length s.pending_counts
      → accounts s ≤ max_u64
      → min d.solution_count max_solutions ≤ length d.solutions
      → IsTicked s p d (ticked s p s.pending_counts h d).0
  unfolding ticked advance_stream
  ticked-IsTicked s p h d ld lc small enough = record {
    accounts = omega (
      arith,
      total-set s.pending_counts p.stream_idx work.count lc,
      get_or-le-total s.pending_counts p.stream_idx,
    );
    total = omega (arith, get_or-le-total s.pending_counts p.stream_idx);
    pending = refl;
    out = collected_lem h d enough;
    next = advance_stream launched;
    pipeline = refl;
    device =
        get_elem?-set_self (set p.device p.stream_idx e) p.stream_idx (relaunched d)
          (omega (arith, length-set p.device p.stream_idx e, ld));
    stream = refl;
  }
    where
      e : Buffers
      e = staged work.header_hash work.seed_hash work.target_be d

      launched : PipelineManager
      launched = record p {
        host =
            set (set p.host p.stream_idx (copied max_solutions h d)) p.stream_idx
              (staged work.header_hash work.seed_hash work.target_be (copied max_solutions h d));
        device = set (set p.device p.stream_idx e) p.stream_idx (relaunched d);
      }

  -- A tick whose current stream has completed its batch, on a pipeline that is initialized, with a count
  -- in flight for each stream, totals that fit in 64 bits, and a batch that left as many solutions as
  -- it counted, up to the maximum: the tick returns, with no exception; it hands out exactly the
  -- first solutions of that batch, at most the maximum, all under the current job id; the hashes of
  -- the batch, as many as were in flight on the stream, are added to the total, and the new batch is in
  -- flight on it in their place, so that the sum grows by exactly the new batch; the new work is launched on this stream, and the next stream
  -- in turn becomes the current one.
  pub run_async_tick-IsTicked :
      (s : Search) (p : PipelineManager) (d : Buffers)
      → s.pipeline ≡ some p
      → p.initialized ≡ true
      → IsSized p
      → length s.pending_counts ≡ p.num_streams
      → get_elem? p.device p.stream_idx ≡ some d
      → accounts s ≤ max_u64
      → min d.solution_count max_solutions ≤ length d.solutions
      → (r : Search) × (run_async_tick kernel work max_solutions job_id s success
          ≡ some (r, min d.solution_count max_solutions))
        × IsTicked s p d r
  unfolding run_async_tick tick_on query_tick ticked
  run_async_tick-IsTicked s p d sp on sized counts ed small enough =
      let lh : p.stream_idx < length p.host = omega (arith, sized.index, sized.host) in
      let ld : p.stream_idx < length p.device = omega (arith, sized.index, sized.device) in
      let lc : p.stream_idx < length s.pending_counts = omega (arith, sized.index, counts) in
      let (h, eh) = get_elem?-lt p.host p.stream_idx lh in
      let tick : Option PipelineManager → Option (Search × ℕ) =
        λ o. tick_on kernel work max_solutions job_id s o success in
      let finish : List ℕ → Option (Search × ℕ) =
        λ c. finish_tick kernel work max_solutions job_id s p c in
      let ready : not p.initialized ≡ false = ground arith in
      let r = (ticked s p s.pending_counts h d).0 in
      (
        r,
        ap tick sp
            ∙ if-false (some (s, 0)) (finish (sized_counts p.num_streams s.pending_counts)) ready
            ∙ ap finish (sized_counts_lem p.num_streams s.pending_counts counts)
            ∙ finish_tick-some s p s.pending_counts h d lh ld eh ed
            ∙ ap (λ n. some (r, n)) (found_of_lem d.solution_count),
        ticked-IsTicked s p h d ld lc small enough,
      )

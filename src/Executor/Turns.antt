-- ===== src/Executor/Turns.antt =====
-- Ticks one after the other, and the turns of the streams.
use native.Mathlib.Nat.{mod-eq_of_lt, mod-eq-sub-mod, mod-lt}
use native.Mathlib.Decide.{dec_lt}
use ohmy_miner_etc.Common.{
  ℕ, zero, suc, ◌+◌, ◌%◌, ◌<◌, ◌≡◌, ◌≢◌, ◌⊎◌, inl, inr, refl, sym, ap, ◌∙◌, List, [], ◌∷◌, ◌++◌,
  Bool, true, false, not, Option, some, arith, if-false, length, length-set, get_elem?,
  get_elem?-lt, get_elem?-set_self, set, ◌>>=◌, >>=-eq-some,
}
use mathlib.Core.Option.{some-injective}
use ohmy_miner_etc.Pipeline.{Buffers, PipelineManager, advance_stream}
use ohmy_miner_etc.Pipeline.Ready.{IsSized}
use ohmy_miner_etc.Pipeline.Access.{staged}
use ohmy_miner_etc.Executor.{
  Kernel, SearchWork, EventStatus, success, not_ready, Search, sized_counts, finish_tick,
  query_tick, tick_on, run_async_tick,
}
use ohmy_miner_etc.Executor.Results.{relaunched, ticked, finish_tick-some}

-- A call of `runAsyncTick`: its work, the current job id, and whether the batch of the current stream is
-- complete or still runs.
pub record Tick : Type 0 where
  pub work : SearchWork
  pub job_id : List ℕ
  pub completed : Bool

abbrev pub status_of : Bool → EventStatus
status_of true = success
status_of false = not_ready

unfoldable pub run_ticks : Kernel → ℕ → List Tick → Search → Option Search
run_ticks kernel max_solutions [] s = some s
run_ticks kernel max_solutions (t ∷ ticks) s =
    run_async_tick kernel t.work max_solutions t.job_id s (status_of t.completed) >>= λ r.
    run_ticks kernel max_solutions ticks r.0

get_elem?-set_other :
    (xs : List Buffers) (i j : ℕ) (v : Buffers) → j ≢ i → get_elem? (set xs i v) j ≡ get_elem? xs j
get_elem?-set_other [] i j v n = refl
get_elem?-set_other (x ∷ xs) zero zero v n = absurd (n refl)
get_elem?-set_other (x ∷ xs) zero (suc j) v n = refl
get_elem?-set_other (x ∷ xs) (suc i) zero v n = refl
get_elem?-set_other (x ∷ xs) (suc i) (suc j) v n = get_elem?-set_other xs i j v λ e. n (ap suc e)

-- A search on a pipeline that is initialized.
pub record IsOn (s : Search) (p : PipelineManager) : Type 0 where
  pub pipeline : s.pipeline ≡ some p
  pub on : p.initialized ≡ true
  pub sized : IsSized p

-- The next turn: one stream on, and the buffers of the other streams as they were.
pub record IsTurn (p : PipelineManager) (r : Search) : Type 0 where
  pub next : PipelineManager
  pub is_on : IsOn r next
  pub streams : next.num_streams ≡ p.num_streams
  pub index :
      (next.stream_idx ≡ p.stream_idx + 1)
      ⊎ ((next.stream_idx ≡ 0) × (p.stream_idx + 1 ≡ p.num_streams))
  pub others : (j : ℕ) → j ≢ p.stream_idx → get_elem? next.device j ≡ get_elem? p.device j

next_index : (i n : ℕ) → i < n → ((i + 1) % n ≡ i + 1) ⊎ (((i + 1) % n ≡ 0) × (i + 1 ≡ n))
next_index i n h = elim (dec_lt (i + 1) n) [
  | yes more ↦ inl (mod-eq_of_lt more)
  | no last ↦ inr (
    mod-eq-sub-mod {n = i + 1} {m = n} (omega arith)
        ∙ ap (λ (k : ℕ). k % n) (omega arith)
        ∙ mod-eq_of_lt (omega arith),
    omega arith,
  )
]

advance-IsTurn :
    (s : Search) (p q : PipelineManager)
    → IsSized p
    → q.initialized ≡ true
    → q.num_streams ≡ p.num_streams
    → q.stream_idx ≡ p.stream_idx
    → q.streams ≡ p.streams
    → length q.host ≡ length p.host
    → length q.device ≡ length p.device
    → ((j : ℕ) → j ≢ p.stream_idx → get_elem? q.device j ≡ get_elem? p.device j)
    → s.pipeline ≡ some (advance_stream q)
    → IsTurn p s
unfolding advance_stream
advance-IsTurn s p q sized on n i streams host device others e =
    let at : (q.stream_idx + 1) % q.num_streams ≡ (p.stream_idx + 1) % p.num_streams =
      ap (λ (k : ℕ). (k + 1) % q.num_streams) i ∙ ap (λ (k : ℕ). (p.stream_idx + 1) % k) n in
    record {
      next = advance_stream q;
      is_on = record {
        pipeline = e;
        on = on;
        sized = record {
          at_least = omega (arith, n, sized.at_least);
          at_most = omega (arith, n, sized.at_most);
          index = mod-lt (q.stream_idx + 1) (omega (arith, n, sized.at_least));
          host = omega (arith, n, host, sized.host);
          device = omega (arith, n, device, sized.device);
          streams = omega (arith, n, streams, sized.streams);
        };
      };
      streams = n;
      index = elim (next_index p.stream_idx p.num_streams sized.index) [
        | inl e ↦ inl (at ∙ e)
        | inr l ↦ inr (at ∙ l.0, l.1)
      ];
      others = others;
    }

module _ (kernel : Kernel) (max_solutions : ℕ) where
  abbrev pub counts_of : Search → PipelineManager → List ℕ
  counts_of s p = sized_counts p.num_streams s.pending_counts

  -- A tick whose stream is complete.
  pub completed_tick :
      (s : Search) (p : PipelineManager) (h d : Buffers) (work : SearchWork) (job_id : List ℕ)
      → IsOn s p
      → get_elem? p.host p.stream_idx ≡ some h
      → get_elem? p.device p.stream_idx ≡ some d
      → run_async_tick kernel work max_solutions job_id s success
        ≡ some (ticked kernel work max_solutions job_id s p (counts_of s p) h d)
  unfolding run_async_tick tick_on query_tick
  completed_tick s p h d work job_id on eh ed =
      let lh : p.stream_idx < length p.host = omega (arith, on.sized.index, on.sized.host) in
      let ld : p.stream_idx < length p.device = omega (arith, on.sized.index, on.sized.device) in
      let ready : not p.initialized ≡ false = ap not on.on in
      let tick : Option PipelineManager → Option (Search × ℕ) =
        λ o. tick_on kernel work max_solutions job_id s o success in
      ap tick on.pipeline
      ∙ if-false (some (s, 0)) (finish_tick kernel work max_solutions job_id s p (counts_of s p))
          ready
      ∙ finish_tick-some kernel work max_solutions job_id s p (counts_of s p) h d lh ld eh ed

  pub completed-IsTurn :
      (s : Search) (p : PipelineManager) (h d : Buffers) (work : SearchWork) (job_id : List ℕ)
      → IsOn s p
      → IsTurn p (ticked kernel work max_solutions job_id s p (counts_of s p) h d).0
  unfolding ticked
  completed-IsTurn s p h d work job_id on =
      advance-IsTurn _ p _ on.sized on.on refl refl refl (length-set _ _ _ ∙ length-set p.host _ _)
        (length-set _ _ _ ∙ length-set p.device _ _)
        (λ j n. get_elem?-set_other _ p.stream_idx j _ n ∙ get_elem?-set_other p.device _ j _ n)
        refl

  running_tick :
      (s : Search) (p : PipelineManager) (work : SearchWork) (job_id : List ℕ)
      → IsOn s p
      → run_async_tick kernel work max_solutions job_id s not_ready
        ≡ some (record s { pipeline = some (advance_stream p); pending_counts = counts_of s p }, 0)
  unfolding run_async_tick tick_on query_tick
  running_tick s p work job_id on =
      let ready : not p.initialized ≡ false = ap not on.on in
      let tick : Option PipelineManager → Option (Search × ℕ) =
        λ o. tick_on kernel work max_solutions job_id s o not_ready in
      ap tick on.pipeline ∙ if-false (some (s, 0)) _ ready

  tick-IsTurn :
      (s : Search) (p : PipelineManager) (work : SearchWork) (job_id : List ℕ) (completed : Bool)
      → IsOn s p
      → (r : Search × ℕ) × (run_async_tick kernel work max_solutions job_id s (status_of completed)
          ≡ some r)
        × IsTurn p r.0
  tick-IsTurn s p work job_id true on =
      let (h, eh) =
        get_elem?-lt p.host p.stream_idx (omega (arith, on.sized.index, on.sized.host)) in
      let (d, ed) =
        get_elem?-lt p.device p.stream_idx (omega (arith, on.sized.index, on.sized.device)) in
      (
        ticked kernel work max_solutions job_id s p (counts_of s p) h d,
        completed_tick s p h d work job_id on eh ed,
        completed-IsTurn s p h d work job_id on,
      )
  tick-IsTurn s p work job_id false on = (
    _,
    running_tick s p work job_id on,
    advance-IsTurn _ p p on.sized on.on refl refl refl refl refl (λ j n. refl) refl,
  )

  pub run_ticks-append :
      (ticks more : List Tick) (s r : Search)
      → run_ticks kernel max_solutions ticks s ≡ some r
      → run_ticks kernel max_solutions (ticks ++ more) s ≡ run_ticks kernel max_solutions more r
  unfolding run_ticks
  run_ticks-append [] more s r e = ap (run_ticks kernel max_solutions more) (some-injective _ _ e)
  run_ticks-append (t ∷ ticks) more s r e =
      let (a, first, rest) =
        >>=-eq-some (run_async_tick kernel t.work max_solutions t.job_id s (status_of t.completed))
          (λ x. run_ticks kernel max_solutions ticks x.0) e in
      ap (λ o. o >>= λ x. run_ticks kernel max_solutions (ticks ++ more) x.0) first
      ∙ run_ticks-append ticks more a.0 r rest

  -- As many ticks as it takes to come to stream `i`, without touching it before.
  pub ticks-kept :
      (ticks : List Tick) (s : Search) (p : PipelineManager) (i : ℕ)
      → IsOn s p
      → i < p.num_streams
      → length ticks < p.num_streams
      → (p.stream_idx + length ticks ≡ i) ⊎ (p.stream_idx + length ticks ≡ i + p.num_streams)
      → (r : Search) × (q : PipelineManager) × (run_ticks kernel max_solutions ticks s ≡ some r)
        × IsOn r q
        × (q.stream_idx ≡ i)
        × (get_elem? q.device i ≡ get_elem? p.device i)
  unfolding run_ticks
  ticks-kept [] s p i on lt few far = (s, p, refl, on, here far, refl)
    where
      here : (p.stream_idx + 0 ≡ i) ⊎ (p.stream_idx + 0 ≡ i + p.num_streams) → p.stream_idx ≡ i
      here (inl e) = omega arith
      here (inr e) = absurd (omega (arith, on.sized.index))
  ticks-kept (t ∷ ticks) s p i on lt few far =
      let (a, first, turn) = tick-IsTurn s p t.work t.job_id t.completed on in
      let (r, q, run, is_on, at, same) =
        ticks-kept ticks a.0 turn.next i turn.is_on (omega (arith, turn.streams))
          (omega (arith, turn.streams)) (nearer turn far) in
      (
        r,
        q,
        ap (λ o. o >>= λ x. run_ticks kernel max_solutions ticks x.0) first ∙ run,
        is_on,
        at,
        same ∙ turn.others i (λ e. elsewhere e far),
      )
    where
      nearer :
          {r : Search} (turn : IsTurn p r)
          → (p.stream_idx + suc (length ticks) ≡ i)
            ⊎ (p.stream_idx + suc (length ticks) ≡ i + p.num_streams)
          → (turn.next.stream_idx + length ticks ≡ i)
            ⊎ (turn.next.stream_idx + length ticks ≡ i + turn.next.num_streams)
      nearer turn far = ground (arith, far, turn.index, turn.streams)

      elsewhere :
          i ≡ p.stream_idx
          → (p.stream_idx + suc (length ticks) ≡ i)
            ⊎ (p.stream_idx + suc (length ticks) ≡ i + p.num_streams)
          → ⊥
      elsewhere e far = ground (arith, e, far, few)

  pub launched-device :
      (s : Search) (p q : PipelineManager) (h d : Buffers) (work : SearchWork) (job_id : List ℕ)
      → p.stream_idx < length p.device
      → (ticked kernel work max_solutions job_id s p (counts_of s p) h d).0.pipeline ≡ some q
      → get_elem? q.device p.stream_idx ≡ some (relaunched kernel work max_solutions job_id d)
  unfolding ticked advance_stream
  launched-device s p q h d work job_id lt e =
      sym (ap (λ (x : PipelineManager). get_elem? x.device p.stream_idx) (some-injective _ _ e))
      ∙ get_elem?-set_self _ p.stream_idx (relaunched kernel work max_solutions job_id d) (
          omega (
            arith,
            length-set p.device p.stream_idx
                (staged work.header_hash work.seed_hash work.target_be d),
          ))

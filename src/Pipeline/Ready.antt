-- ===== src/Pipeline/Ready.antt =====
-- The invariant of the pipeline: an initialized pipeline has 2 to 8 streams and buffers for each.
use ohmy_miner_etc.Common.{
  ℕ, ◌+◌, ◌-◌, ◌*◌, ◌%◌, ◌<◌, ◌≤◌, ◌≡◌, refl, sym, min, List, ◌++◌, true, Option, none, some, inl,
  inr, arith, if◌then◌else◌, if-elim, if-true, if-false, leb, length, length-append,
  length-replicate, length-set, replicate, leb→le, Bool-cases, subst, >>=-eq-some,
}
use native.Mathlib.Nat.{mod-lt}
use ohmy_miner_etc.Pipeline.{
  Buffers, WorkItem, PipelineManager, new_pipeline, queue_search, get_results, stream_count,
  initialize, cleanup, advance_stream, buffers_at, stage_work, collect_results,
}

pub record IsSized (p : PipelineManager) : Type 0 where
  pub at_least : 2 ≤ p.num_streams
  pub at_most : p.num_streams ≤ 8
  pub index : p.stream_idx < p.num_streams
  pub host : p.num_streams ≤ length p.host
  pub device : p.num_streams ≤ length p.device
  pub streams : p.num_streams ≤ p.streams

abbrev pub IsReady : PipelineManager → Type 0
IsReady p = p.initialized ≡ true → IsSized p

-- What a call may make of a pipeline; a call that throws leaves what it has done so far.
pub data Call (p : PipelineManager) : PipelineManager → Type 0 where
  initialized :
      (fresh : Buffers) (budget : ℕ) (env : Option ℕ) (free_mem : ℕ)
      → Call p (initialize fresh budget env p free_mem).0
  cleaned : Call p (cleanup p)
  advanced : Call p (advance_stream p)
  queued :
      (header seed target : List ℕ) (start count : ℕ)
      → Call p (queue_search p header seed target start count)
  got : (stream_idx : ℕ) → Call p (get_results p stream_idx).0
  staged :
      (q : PipelineManager) (idx : ℕ) (header seed target : List ℕ)
      → stage_work p idx header seed target ≡ some q
      → Call p q
  collected :
      (q : PipelineManager) (idx max_solutions count : ℕ)
      → collect_results p idx max_solutions ≡ some (q, count)
      → Call p q

stream_count_range :
    (env : Option ℕ) (free_mem : ℕ)
    → (2 ≤ stream_count env free_mem) × (stream_count env free_mem ≤ 8)
unfolding stream_count
stream_count_range none free_mem = (omega arith, omega arith)
stream_count_range (some wanted) free_mem = (omega arith, omega arith)

-- What the three loops leave, before the flag is set.
grown : Buffers → ℕ → ℕ → PipelineManager → PipelineManager
grown fresh budget n p = record p {
  num_streams = n;
  host = p.host ++ replicate (min n budget) fresh;
  device = p.device ++ replicate (min n (budget - n)) fresh;
  streams = p.streams + min n (budget - 2 * n);
}

grown-IsReady :
    (fresh : Buffers) (budget n : ℕ) (p : PipelineManager)
    → (2 ≤ n) × (n ≤ 8)
    → 3 * n ≤ budget
    → IsReady (record (grown fresh budget n p) { initialized = true; stream_idx = 0 })
unfolding grown
grown-IsReady fresh budget n p r enough e = record {
  at_least = r.0;
  at_most = r.1;
  index = omega (arith, r.0);
  host = omega (
    arith,
    length-append p.host (replicate (min n budget) fresh),
    length-replicate (min n budget) fresh,
  );
  device = omega (
    arith,
    length-append p.device (replicate (min n (budget - n)) fresh),
    length-replicate (min n (budget - n)) fresh,
  );
  streams = omega arith;
}

initialize-IsReady :
    (fresh : Buffers) (budget : ℕ) (env : Option ℕ) (p : PipelineManager) (free_mem : ℕ)
    → IsReady p
    → IsReady (initialize fresh budget env p free_mem).0
unfolding initialize grown
initialize-IsReady fresh budget env p free_mem h =
    let n = stream_count env free_mem in
    let Good : PipelineManager × Option ℕ → Type 0 = λ r. IsReady r.0 in
    let done : PipelineManager × Option ℕ =
      (record (grown fresh budget n p) { initialized = true; stream_idx = 0 }, some n) in
    let thrown : PipelineManager × Option ℕ = (grown fresh budget n p, none) in
    elim (Bool-cases p.initialized) [
      | inl on ↦
          subst Good
            (sym (if-true (p, some p.num_streams) (if leb (3 * n) budget then done else thrown) on))
            h
      | inr off ↦
          subst Good
            (sym
              (if-false (p, some p.num_streams) (if leb (3 * n) budget then done else thrown) off))
            (elim (Bool-cases (leb (3 * n) budget)) [
              | inl enough ↦ subst Good (sym (if-true done thrown enough)) (
                  grown-IsReady fresh budget n p (stream_count_range env free_mem)
                    (leb→le (3 * n) budget enough))
              | inr few ↦
                  subst Good (sym (if-false done thrown few)) (λ e. absurd (ground (arith, e, off)))
            ])
    ]

cleanup-IsReady : (p : PipelineManager) → IsReady p → IsReady (cleanup p)
unfolding cleanup
cleanup-IsReady p h = if-elim IsReady p.initialized (λ e. absurd (ground (arith, e))) h

advance_stream-IsReady : (p : PipelineManager) → IsReady p → IsReady (advance_stream p)
unfolding advance_stream
advance_stream-IsReady p h e =
    let s = h e in
    let low : (p.stream_idx + 1) % p.num_streams < p.num_streams =
      mod-lt (p.stream_idx + 1) (omega (arith, s.at_least)) in
    record {
      at_least = s.at_least;
      at_most = s.at_most;
      index = low;
      host = s.host;
      device = s.device;
      streams = s.streams;
    }

-- Replacing the contents of buffers keeps the invariant.
resized :
    (p : PipelineManager) (host device : List Buffers)
    → length host ≡ length p.host
    → length device ≡ length p.device
    → IsReady p
    → IsReady (record p { host = host; device = device })
resized p host device a b h e =
    let s = h e in
    record {
      at_least = s.at_least;
      at_most = s.at_most;
      index = s.index;
      host = omega (arith, a, s.host);
      device = omega (arith, b, s.device);
      streams = s.streams;
    }

-- The queue of the pipeline has no part in it.
resized_queue :
    (p : PipelineManager) (pending : List WorkItem) (finished : List ℕ)
    → IsReady p
    → IsReady (record p { pending_work = pending; finished_work = finished })
resized_queue p pending finished h e =
    let s = h e in
    record {
      at_least = s.at_least;
      at_most = s.at_most;
      index = s.index;
      host = s.host;
      device = s.device;
      streams = s.streams;
    }

-- The outcome of a call that may have no buffers.
abbrev AfterReady : {A : Type 0} → (A → PipelineManager) → Option A → Type 0
AfterReady f none = Unit
AfterReady f (some r) = IsReady (f r)

stage_work-IsReady :
    (p q : PipelineManager) (idx : ℕ) (header seed target : List ℕ)
    → stage_work p idx header seed target ≡ some q
    → IsReady p
    → IsReady q
unfolding stage_work
stage_work-IsReady p q idx header seed target h ready =
    let (b, _, k) = >>=-eq-some (buffers_at p idx) _ h in
    subst (AfterReady (λ r. r)) k
      (resized p _ _ (length-set p.host idx _) (length-set p.device idx _) ready)

collect_results-IsReady :
    (p q : PipelineManager) (idx max_solutions count : ℕ)
    → collect_results p idx max_solutions ≡ some (q, count)
    → IsReady p
    → IsReady q
unfolding collect_results
collect_results-IsReady p q idx max_solutions count h ready =
    let (b, _, k) = >>=-eq-some (buffers_at p idx) _ h in
    subst (AfterReady {A = PipelineManager × ℕ} (λ r. r.0)) k
      (resized p _ p.device (length-set p.host idx _) refl ready)

-- Whatever calls are made, in any order, and wherever an allocation fails.
pub data Reach : PipelineManager → Type 0 where
  built : Reach new_pipeline
  step : (p q : PipelineManager) → Reach p → Call p q → Reach q

call-IsReady : (p q : PipelineManager) → Call p q → IsReady p → IsReady q
unfolding queue_search get_results
call-IsReady p _ (initialized fresh budget env free_mem) h =
    initialize-IsReady fresh budget env p free_mem h
call-IsReady p _ cleaned h = cleanup-IsReady p h
call-IsReady p _ advanced h = advance_stream-IsReady p h
call-IsReady p _ (queued header seed target start count) h = resized_queue p _ _ h
call-IsReady p _ (got stream_idx) h = resized_queue p _ _ h
call-IsReady p q (staged _ idx header seed target e) h =
    stage_work-IsReady p q idx header seed target e h
call-IsReady p q (collected _ idx max_solutions count e) h =
    collect_results-IsReady p q idx max_solutions count e h

-- However the calls of the pipeline follow each other, and wherever an allocation fails: when the
-- pipeline is initialized it has 2 to 8 streams, the current stream is one of them, and every stream
-- has its host buffers, its device buffers and its events.
pub reach-IsReady : (p : PipelineManager) → Reach p → p.initialized ≡ true → IsSized p
unfolding new_pipeline
reach-IsReady _ built e = absurd (ground (arith, e))
reach-IsReady q (step p _ reach call) e = call-IsReady p q call (reach-IsReady p reach) e

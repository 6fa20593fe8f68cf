-- ===== src/Pipeline/Access.antt =====
-- What staging and collecting do on a stream that has buffers.
use ohmy_miner_etc.Common.{ℕ, ◌≡◌, List, ◌++◌, some, get_elem?, set, take, drop}
use ohmy_miner_etc.Pipeline.{Buffers, PipelineManager, stage_work, collect_results}

abbrev pub copied : ℕ → Buffers → Buffers → Buffers
copied max_solutions h d = record h {
  solution_count = d.solution_count;
  solutions = take max_solutions d.solutions ++ drop max_solutions h.solutions;
}

abbrev pub staged : List ℕ → List ℕ → List ℕ → Buffers → Buffers
staged header_hash seed_hash target_be b = record b {
  header = take 32 header_hash;
  seed_hash = take 32 seed_hash;
  target = take 32 target_be;
  solution_count = 0;
}

pub collect_results-some :
    (p : PipelineManager) (idx max_solutions : ℕ) (h d : Buffers)
    → get_elem? p.host idx ≡ some h
    → get_elem? p.device idx ≡ some d
    → collect_results p idx max_solutions
      ≡ some (record p { host = set p.host idx (copied max_solutions h d) }, d.solution_count)
unfolding collect_results
collect_results-some p idx max_solutions h d eh ed = rw eh (rw ed)

pub stage_work-some :
    (p : PipelineManager) (idx : ℕ) (header_hash seed_hash target_be : List ℕ) (h d : Buffers)
    → get_elem? p.host idx ≡ some h
    → get_elem? p.device idx ≡ some d
    → stage_work p idx header_hash seed_hash target_be
      ≡ some (record p {
        host = set p.host idx (staged header_hash seed_hash target_be h);
        device = set p.device idx (staged header_hash seed_hash target_be d);
      })
unfolding stage_work
stage_work-some p idx header_hash seed_hash target_be h d eh ed = rw eh (rw ed)

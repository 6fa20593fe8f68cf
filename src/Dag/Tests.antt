-- ===== src/Dag/Tests.antt =====
-- Runs of src/dag/dag_generator.cpp.
use ohmy_miner_etc.Common.{ℕ, ◌≡◌, refl, [], ◌∷◌, true, some, arith}
use ohmy_miner_etc.Dag.{Calls, new_generator, generate, with_cache, with_dag, run_kernel, free}
use ohmy_miner_etc.Dag.Memory.{IsLedger, generate-IsLedger}

abbrev pub fine : ℕ → Calls
fine address = record {
  cache_address = some 100;
  first_info = true;
  dag_address = some address;
  second_info = true;
  copied = true;
  monitored = true;
  generated = true;
  host_allocated = true;
}

-- The DAG of an epoch is still allocated when the next one is there.
both_stay :
    (generate (fine 300) (generate (fine 200) (new_generator []) 1 true).0 2 true).0.live
    ≡ 300 ∷ 200 ∷ []
unfolding generate with_cache with_dag run_kernel free new_generator
both_stay = refl

generate-IsLedger_example :
    IsLedger (new_generator []) 1 (generate (fine 200) (new_generator []) 1 true)
generate-IsLedger_example = generate-IsLedger (fine 200) (new_generator []) 1 true (ground arith)

-- ===== src/Ethash/Tests.antt =====
-- Runs of src/core/ethash.cpp.
use ohmy_miner_etc.Common.{
  ℕ, ◌+◌, ◌*◌, ◌/◌, ◌%◌, ◌^◌, ◌<◌, ◌≤◌, ◌≡◌, refl, ◌↔◌, List, [], ◌∷◌, some, arith, ltb, length,
  take, replicate, u32, IsBytes,
}
use ohmy_miner_etc.Ethash.{
  get_dataset_size, dag_epoch, get_epoch, zero_hash, epoch_from_seed_hash, compute_hashimoto,
  verify_solution, dag_index, dag_offset,
}
use ohmy_miner_etc.Ethash.Epoch.{Scan, epoch_from_seed_hash-Scan}
use ohmy_miner_etc.Ethash.Hashimoto.{le_value, verify_solution-compute_hashimoto, dag_offset_lem}

-- tests/unit/test_ethash.cpp: block 15000000.
epoch_of_block : get_epoch 15000000 ≡ 500
unfolding get_epoch
epoch_of_block = refl

first_sizes : get_dataset_size 0 ≡ 1073741824
unfolding get_dataset_size dag_epoch
first_sizes = refl

abbrev small_dag : List ℕ
small_dag = replicate 128 3

epoch_from_seed_hash-Scan_example : Scan 2000 0 zero_hash zero_hash (epoch_from_seed_hash zero_hash)
epoch_from_seed_hash-Scan_example = epoch_from_seed_hash-Scan zero_hash

verify_solution-compute_hashimoto_example :
    let r = compute_hashimoto zero_hash 42 (some small_dag) in
    (length r.0 ≡ 32)
    × IsBytes r.0
    × (length r.1 ≡ 32)
    × IsBytes r.1
    × (verify_solution zero_hash 42 r.0 r.1 1000 ≡ ltb (le_value (take 8 r.1)) 1000)
verify_solution-compute_hashimoto_example =
    verify_solution-compute_hashimoto zero_hash 42 small_dag 1000 (omega arith)

dag_offset_lem_example :
    let idx = dag_index 3 (u32 (length small_dag / 64)) 42 (9 ∷ 8 ∷ []) in
    (dag_offset idx + 64 ≤ length small_dag)
    × ((dag_offset idx ≡ idx * 64) ↔ (idx < 2 ^ 26))
    × (dag_offset idx ≡ (idx % 2 ^ 26) * 64)
dag_offset_lem_example = dag_offset_lem 3 small_dag 42 (9 ∷ 8 ∷ []) (omega arith)

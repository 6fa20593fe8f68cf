-- ===== src/Cuda/DagKernel/Tests.antt =====
-- Runs of src/cuda/dag_kernel.cu.
use ohmy_miner_etc.Common.{◌≡◌, ◌-◌, ◌/◌, ◌+◌, ◌^◌, refl, none, some, arith, replicate}
use ohmy_miner_etc.Keccak.{keccak_f1600}
use ohmy_miner_etc.Cuda.SearchKernel.Tests.{in_order, in_order-IsComplete}
use ohmy_miner_etc.Cuda.DagKernel.{Memory, batch_size, keccak_f1600_dag, generate_dag_gpu}
use ohmy_miner_etc.Cuda.DagKernel.Permutation.{keccak_f1600_dag-keccak_f1600}
use ohmy_miner_etc.Cuda.DagKernel.Batches.{
  IsFilled, generate_dag_gpu-IsFilled, generate_dag_gpu-endless,
}

abbrev blank_memory : Memory
blank_memory p = 0

keccak_f1600_dag-keccak_f1600_example :
    keccak_f1600_dag (replicate 25 0) ≡ keccak_f1600 (replicate 25 0)
keccak_f1600_dag-keccak_f1600_example =
    keccak_f1600_dag-keccak_f1600 (replicate 25 0) refl (omega arith)

generate_dag_gpu-IsFilled_example :
    (after : Memory) × (generate_dag_gpu in_order (3000000 / batch_size + 2) 0 3000000 blank_memory
      ≡ some after)
    × IsFilled 3000000 blank_memory after
generate_dag_gpu-IsFilled_example =
    generate_dag_gpu-IsFilled in_order in_order-IsComplete 3000000 blank_memory (omega arith)

generate_dag_gpu-endless_example : generate_dag_gpu in_order 5000 0 (2 ^ 32 - 1) blank_memory ≡ none
generate_dag_gpu-endless_example =
    generate_dag_gpu-endless in_order (2 ^ 32 - 1) blank_memory 5000 (omega arith)

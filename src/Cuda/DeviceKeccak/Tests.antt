-- ===== src/Cuda/DeviceKeccak/Tests.antt =====
-- Hashes of src/cuda/kernels/keccak_dev.cuh.
use ohmy_miner_etc.Common.{◌≡◌, arith, replicate}
use ohmy_miner_etc.Keccak.{keccak}
use ohmy_miner_etc.Cuda.DeviceKeccak.{keccak_absorb_squeeze}
use ohmy_miner_etc.Cuda.DeviceKeccak.Host.{keccak_absorb_squeeze-keccak}

keccak_absorb_squeeze-keccak_example :
    keccak_absorb_squeeze (replicate 200 7) 32 ≡ keccak (replicate 200 7) 32
keccak_absorb_squeeze-keccak_example =
    keccak_absorb_squeeze-keccak (replicate 200 7) 32 (omega arith)

-- ===== src/Cuda/SearchHash/Result.antt =====
-- The result of a nonce in the plain kernel.
use ohmy_miner_etc.Common.{ℕ, ◌≡◌, List, arith, length, IsBytes}
use ohmy_miner_etc.Keccak.{keccak256}
use ohmy_miner_etc.Keccak.Bounds.{keccak-IsBytes}
use ohmy_miner_etc.Cuda.DeviceKeccak.{keccak256_dev}
use ohmy_miner_etc.Cuda.DeviceKeccak.Host.{keccak_absorb_squeeze-keccak}
use ohmy_miner_etc.Cuda.SearchHash.{SearchInput, search_hash, finish_hash}

keccak256_dev-keccak256 : (bytes : List ℕ) → keccak256_dev bytes ≡ keccak256 bytes
unfolding keccak256_dev keccak256
keccak256_dev-keccak256 bytes = keccak_absorb_squeeze-keccak bytes 32 (omega arith)

-- The result is 32 bytes.
pub result-IsBytes :
    (input : SearchInput) (nonce : ℕ)
    → (length (search_hash input nonce).1 ≡ 32) × IsBytes (search_hash input nonce).1
unfolding search_hash finish_hash
result-IsBytes input nonce = rw (keccak256_dev-keccak256 _) (let b = keccak-IsBytes _ in (b.0, b.1))

abbrev pub result_of : SearchInput → ℕ → List ℕ
result_of input nonce = (search_hash input nonce).1

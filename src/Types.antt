-- ===== src/Types.antt =====
-- include/ohmy/types.hpp. Hashes and texts are lists of byte codes.
use ohmy_miner_etc.Common.{ℕ, List}

pub record MiningJob : Type 0 where
  pub job_id : List ℕ
  pub seed_hash : List ℕ
  pub header_hash : List ℕ
  pub target : ℕ
  pub block_number : ℕ
  pub epoch : ℕ

pub record Solution : Type 0 where
  pub nonce : ℕ
  pub mix_hash : List ℕ
  pub result : List ℕ
  pub job_id : List ℕ

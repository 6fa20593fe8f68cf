-- ===== src/Executor/Accounts.antt =====
-- The hashes that ticks count: each batch once, when it is complete.
use ohmy_miner_etc.Common.{
  ℕ, zero, suc, ◌+◌, ◌<◌, ◌≤◌, ◌≡◌, List, [], ◌∷◌, arith, length, get_or, set,
}
use ohmy_miner_etc.Executor.{SearchWork, EventStatus, success, not_ready, failed, Search}

-- The hashes in flight on all streams.
abbrev pub total : List ℕ → ℕ
total [] = 0
total (n ∷ counts) = n + total counts

pub total-set :
    (counts : List ℕ) (i v : ℕ)
    → i < length counts
    → total (set counts i v) + get_or counts i 0 ≡ total counts + v
total-set [] i v h = absurd (omega arith)
total-set (n ∷ counts) zero v h = omega arith
total-set (n ∷ counts) (suc i) v h = omega (arith, total-set counts i v (omega arith))

pub get_or-le-total : (counts : List ℕ) (i : ℕ) → get_or counts i 0 ≤ total counts
get_or-le-total [] i = omega arith
get_or-le-total (n ∷ counts) zero = omega arith
get_or-le-total (n ∷ counts) (suc i) = omega (arith, get_or-le-total counts i)

-- The hashes that a tick puts in flight.
abbrev pub launched_count : SearchWork → EventStatus → ℕ
launched_count work success = work.count
launched_count work not_ready = 0
launched_count work failed = 0

abbrev pub accounts : Search → ℕ
accounts s = s.total_hashes + total s.pending_counts

-- ===== src/Ethash/Epoch.antt =====
-- `epochFromSeedHash` against the seed hashes that `calculateCache` computes.
use ohmy_miner_etc.Common.{
  ℕ, zero, suc, ◌+◌, ◌<◌, ◌≤◌, ◌≡◌, ◌≢◌, refl, ap, ◌∙◌, ◌⊎◌, inl, inr, arith, List, Bool-cases,
  list_eq, eq-of-list_eq, list_eq_refl, max_u32, true, false, length, IsBytes, IsByte,
  All-replicate,
}
use native.Mathlib.Decide.{dec_le}
use ohmy_miner_etc.Keccak.{keccak256}
use ohmy_miner_etc.Keccak.Bounds.{keccak-IsBytes}
use ohmy_miner_etc.Ethash.{seed_from, scan_epochs, epoch_from_seed_hash, zero_hash}

-- What the scan finds within `left` steps from `cur`: the first hit, or none.
pub data Scan (left epoch : ℕ) (cur seed_hash : List ℕ) (result : ℕ) : Type 0 where
  found :
      (k : ℕ)
      → k < left
      → seed_from k cur ≡ seed_hash
      → ((j : ℕ) → j < k → seed_from j cur ≢ seed_hash)
      → result ≡ epoch + k
      → Scan left epoch cur seed_hash result
  missing :
      ((j : ℕ) → j < left → seed_from j cur ≢ seed_hash)
      → result ≡ max_u32
      → Scan left epoch cur seed_hash result

-- A miss, and a result for the steps that follow it, make a result.
after_miss :
    (left epoch : ℕ) (cur seed_hash : List ℕ) {result : ℕ}
    → cur ≢ seed_hash
    → Scan left (epoch + 1) (keccak256 cur) seed_hash result
    → Scan (suc left) epoch cur seed_hash result
after_miss left epoch cur seed_hash miss (found k below hit first e) =
    found (suc k) (omega arith) (unfold seed_from in hit) earlier (omega arith)
  where
    earlier : (j : ℕ) → j < suc k → seed_from j cur ≢ seed_hash
    earlier zero h = unfold seed_from in miss
    earlier (suc j) h = unfold seed_from in first j (omega arith)
after_miss left epoch cur seed_hash miss (missing none_below e) = missing earlier e
  where
    earlier : (j : ℕ) → j < suc left → seed_from j cur ≢ seed_hash
    earlier zero h = unfold seed_from in miss
    earlier (suc j) h = unfold seed_from in none_below j (omega arith)

scan_hit :
    (left epoch : ℕ) (cur seed_hash : List ℕ)
    → list_eq cur seed_hash ≡ true
    → scan_epochs (suc left) epoch cur seed_hash ≡ epoch
unfolding scan_epochs
scan_hit left epoch cur seed_hash h = rw h

scan_miss :
    (left epoch : ℕ) (cur seed_hash : List ℕ)
    → list_eq cur seed_hash ≡ false
    → scan_epochs (suc left) epoch cur seed_hash
      ≡ scan_epochs left (epoch + 1) (keccak256 cur) seed_hash
unfolding scan_epochs
scan_miss left epoch cur seed_hash h = rw h

ne-of-list_eq : (xs ys : List ℕ) → list_eq xs ys ≡ false → xs ≢ ys
ne-of-list_eq xs ys h e = ground (arith, list_eq_refl xs, ap (list_eq xs) e)

found_here :
    (left epoch : ℕ) (cur seed_hash : List ℕ)
    → list_eq cur seed_hash ≡ true
    → Scan (suc left) epoch cur seed_hash (scan_epochs (suc left) epoch cur seed_hash)
found_here left epoch cur seed_hash h =
    found 0 (omega arith) (unfold seed_from in eq-of-list_eq cur seed_hash h)
      (λ j k. absurd (omega arith)) (scan_hit left epoch cur seed_hash h ∙ omega arith)

scan_epochs-Scan :
    (left epoch : ℕ) (cur seed_hash : List ℕ)
    → Scan left epoch cur seed_hash (scan_epochs left epoch cur seed_hash)
scan_epochs-Scan zero epoch cur seed_hash =
    missing (λ j h. absurd (omega arith)) (unfold scan_epochs in refl)
scan_epochs-Scan (suc left) epoch cur seed_hash = elim (Bool-cases (list_eq cur seed_hash)) [
  | inl hit ↦ found_here left epoch cur seed_hash hit
  | inr miss ↦ rw (scan_miss left epoch cur seed_hash miss) (
      after_miss left epoch cur seed_hash (ne-of-list_eq cur seed_hash miss)
        (scan_epochs-Scan left (epoch + 1) (keccak256 cur) seed_hash))
]

-- The epoch found is the first one below 2000 whose seed hash is the given one; if there is none,
-- the result is UINT32_MAX.
pub epoch_from_seed_hash-Scan :
    (seed_hash : List ℕ) → Scan 2000 0 zero_hash seed_hash (epoch_from_seed_hash seed_hash)
unfolding epoch_from_seed_hash
epoch_from_seed_hash-Scan seed_hash = scan_epochs-Scan 2000 0 zero_hash seed_hash

-- The seed hash of an epoch below 2000 is recognised: what is found is an epoch with that very seed
-- hash, and not a later one.
pub epoch_from_seed_hash-seed_from :
    (epoch : ℕ)
    → epoch < 2000
    → (epoch_from_seed_hash (seed_from epoch zero_hash) ≤ epoch)
      × (seed_from (epoch_from_seed_hash (seed_from epoch zero_hash)) zero_hash
          ≡ seed_from epoch zero_hash)
epoch_from_seed_hash-seed_from epoch h =
    recognised (epoch_from_seed_hash-Scan (seed_from epoch zero_hash))
  where
    same : (r k : ℕ) → r ≡ 0 + k → r ≡ k
    same r k e = omega arith

    recognised :
        {result : ℕ}
        → Scan 2000 0 zero_hash (seed_from epoch zero_hash) result
        → (result ≤ epoch) × (seed_from result zero_hash ≡ seed_from epoch zero_hash)
    recognised {result = r} (found k below hit first e) = elim (dec_le k epoch) [
      | no late ↦ absurd (first epoch (omega arith) refl)
      | yes early ↦ (omega arith, ap (λ (n : ℕ). seed_from n zero_hash) (same r k e) ∙ hit)
    ]
    recognised (missing none_below e) = absurd (none_below epoch h refl)

-- A result is an epoch below 2000 or UINT32_MAX.
pub epoch_from_seed_hash_range :
    (seed_hash : List ℕ)
    → (epoch_from_seed_hash seed_hash < 2000) ⊎ (epoch_from_seed_hash seed_hash ≡ max_u32)
epoch_from_seed_hash_range seed_hash = range (epoch_from_seed_hash-Scan seed_hash)
  where
    range :
        {result : ℕ} → Scan 2000 0 zero_hash seed_hash result → (result < 2000) ⊎ (result ≡ max_u32)
    range (found k below hit first e) = inl (omega arith)
    range (missing none_below e) = inr e

zero_hash-IsHash : (length zero_hash ≡ 32) × IsBytes zero_hash
zero_hash-IsHash = (refl, All-replicate IsByte 32 0 (omega arith))

hash_chain-IsHash :
    (epoch : ℕ) (seed : List ℕ)
    → (length seed ≡ 32) × IsBytes seed
    → (length (seed_from epoch seed) ≡ 32) × IsBytes (seed_from epoch seed)
unfolding seed_from
hash_chain-IsHash zero seed h = h
hash_chain-IsHash (suc epoch) seed h =
    let b = keccak-IsBytes seed in hash_chain-IsHash epoch (keccak256 seed) (b.0, b.1)

pub seed_from-IsHash :
    (epoch : ℕ) → (length (seed_from epoch zero_hash) ≡ 32) × IsBytes (seed_from epoch zero_hash)
seed_from-IsHash epoch = hash_chain-IsHash epoch zero_hash zero_hash-IsHash

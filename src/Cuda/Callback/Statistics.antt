-- ===== src/Cuda/Callback/Statistics.antt =====
-- The statistics of a device over its callbacks, and the mutex in their text.
use ohmy_miner_etc.Common.{
  ℕ, ◌+◌, ◌≤◌, ◌≡◌, refl, ap, ◌∙◌, List, [], ◌∷◌, false, Option, none, some, arith, length, u64,
  max_u64, if-false, ◌>>=◌,
}
use ohmy_miner_etc.Cuda.Callback.{
  ResultCallbackData, DeviceStats, guarded, update_from_callback, get_hashrate, to_string,
}

-- The callbacks of a device, one after the other.
pub update_all : DeviceStats → List ResultCallbackData → Option DeviceStats
update_all s [] = some s
update_all s (d ∷ callbacks) = update_from_callback s d >>= λ r. update_all r.0 callbacks

unfoldable pub sum_of : (ResultCallbackData → ℕ) → List ResultCallbackData → ℕ
sum_of f [] = 0
sum_of f (d ∷ callbacks) = f d + sum_of f callbacks

abbrev found_in : ResultCallbackData → ℕ
found_in d = length d.solutions

updated : DeviceStats → ResultCallbackData → DeviceStats
updated s d = record s {
  total_hashes = u64 (s.total_hashes + d.device_hashes);
  total_time_ms = u64 (s.total_time_ms + d.device_milliseconds);
  solutions_found = u64 (s.solutions_found + length d.solutions);
  callback_invocations = u64 (s.callback_invocations + 1);
  locked = false;
}

update_from_callback-free :
    (s : DeviceStats) (d : ResultCallbackData)
    → s.locked ≡ false
    → update_from_callback s d ≡ some (updated s d, tt)
unfolding update_from_callback guarded updated
update_from_callback-free s d free =
    let done : Option (DeviceStats × Unit {0}) = some (updated s d, tt) in if-false none done free

-- With room in the counters, any number of callbacks on statistics whose mutex is free: each update
-- returns, and the totals grow by the hashes, the milliseconds, the solutions and the number of the
-- callbacks; the errors stay, and the mutex is free again.
pub update_all-sums :
    (s : DeviceStats) (callbacks : List ResultCallbackData)
    → s.locked ≡ false
    → s.total_hashes + sum_of (λ d. d.device_hashes) callbacks ≤ max_u64
    → s.total_time_ms + sum_of (λ d. d.device_milliseconds) callbacks ≤ max_u64
    → s.solutions_found + sum_of (λ d. length d.solutions) callbacks ≤ max_u64
    → s.callback_invocations + length callbacks ≤ max_u64
    → (t : DeviceStats) × (update_all s callbacks ≡ some t)
      × (t.locked ≡ false)
      × (t.total_hashes ≡ s.total_hashes + sum_of (λ d. d.device_hashes) callbacks)
      × (t.total_time_ms ≡ s.total_time_ms + sum_of (λ d. d.device_milliseconds) callbacks)
      × (t.solutions_found ≡ s.solutions_found + sum_of (λ d. length d.solutions) callbacks)
      × (t.callback_invocations ≡ s.callback_invocations + length callbacks)
      × (t.error_count ≡ s.error_count)
unfolding update_all sum_of updated
update_all-sums s [] free a b c d =
    (s, refl, free, omega arith, omega arith, omega arith, omega arith, refl)
update_all-sums s (x ∷ callbacks) free a b c d =
    let (t, run, unlocked, h, m, f, n, e) =
      update_all-sums (updated s x) callbacks refl (omega arith) (omega arith) (omega arith)
        (omega arith) in
    (
      t,
      ap (λ (o : Option (DeviceStats × Unit {0})). o >>= λ r. update_all r.0 callbacks)
            (update_from_callback-free s x free)
          ∙ run,
      unlocked,
      omega (arith, h),
      omega (arith, m),
      omega (arith, f),
      omega (arith, n),
      e,
    )

-- The text of the statistics is never finished, whatever they hold: it is made under the mutex, and
-- asks for the rate, which waits for the same mutex.
pub to_string-blocks : (s : DeviceStats) → to_string s ≡ none
unfolding to_string get_hashrate guarded
to_string-blocks s = ground arith

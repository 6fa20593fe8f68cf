-- ===== src/Cuda/Callback.antt =====
-- src/cuda/result_callback.cu and src/cuda/result_callback.hpp: the callback that submits the solutions
-- of a stream to the pool, its error tracker, and the statistics of a device with their mutex. The
-- text of an error is a value, with the numbers in it; the debug log and the latency are not
-- modelled. A `std::mutex` that its own thread locks again never lets it go on.
pub mod Answers
pub mod Submitted
pub mod Statistics
pub mod Tests
use ohmy_miner_etc.Common.{
  ℕ, zero, suc, ◌+◌, ◌^◌, List, [], ◌∷◌, Bool, true, false, Option, none, some, if◌then◌else◌, ltb,
  ◌==◌, length, u32, u64, ◌>>=◌,
}
use ohmy_miner_etc.Types.{Solution}
use ohmy_miner_etc.Stratum.{Client}
use ohmy_miner_etc.Stratum.Json.{JsonLibrary}
use ohmy_miner_etc.Stratum.Session.{submit_solution, submit_throws, count_message}

-- The data of a callback; `has_client` tells whether the pointer to the pool client is not null, and
-- the milliseconds are those of the `float` cut to an integer.
pub record ResultCallbackData : Type 0 where
  pub solutions : List Solution
  pub has_client : Bool
  pub job_id : List ℕ
  pub epoch : ℕ
  pub device_id : Option ℕ
  pub device_hashes : ℕ
  pub device_milliseconds : ℕ

pub data CallbackError : Type 0 where
  null_data : CallbackError
  null_client : CallbackError
  failed_submissions : (failures submissions : ℕ) → CallbackError
  exception_in_callback : CallbackError

-- `lastError` is `none` for the empty text.
pub record CallbackErrorTracker : Type 0 where
  pub last_error : Option CallbackError
  pub has_error : Bool

pub record_error : CallbackErrorTracker → CallbackError → CallbackErrorTracker
record_error t e = record { last_error = some e; has_error = true }

pub clear_error : CallbackErrorTracker → CallbackErrorTracker
clear_error t = record { last_error = none; has_error = false }

module _ (J : JsonLibrary) (stale : List ℕ) where
  -- The loop over the solutions: the client, and the counts of successes and failures.
  pub submit_each : Client → List Solution → ℕ → ℕ → Client × ℕ × ℕ
  submit_each c [] successes failures = (c, successes, failures)
  submit_each c (s ∷ solutions) successes failures =
      let r = submit_solution J stale c s in
      submit_each r.0 solutions (if r.1 then u32 (successes + 1) else successes)
        (if r.1 then failures else u32 (failures + 1))

  -- The client when the submission of one of the solutions throws, if any does.
  pub thrown_at : Client → List Solution → Option Client
  thrown_at c [] = none
  thrown_at c (s ∷ solutions) =
      let rest = thrown_at (submit_solution J stale c s).0 solutions in
      if submit_throws J stale c s then some (count_message c) else rest

  -- The handler around the loop.
  pub caught :
      CallbackErrorTracker
      → Option Client
      → CallbackErrorTracker × Client
      → CallbackErrorTracker × Client
  unfolding record_error
  caught t none r = r
  caught t (some c) r = (record_error t exception_in_callback, c)

  pub submit_results :
      CallbackErrorTracker → Client → ResultCallbackData → CallbackErrorTracker × Client
  unfolding record_error thrown_at caught
  submit_results t c d =
      let count = u32 (length d.solutions) in
      let (c', successes, failures) = submit_each c d.solutions 0 0 in
      let failed = record_error t (failed_submissions failures count) in
      if count == 0
      then (t, c)
      else (if d.has_client
          then caught t (thrown_at c d.solutions) (if ltb 0 failures then (failed, c') else (t, c'))
          else (record_error t null_client, c))

  pub process_results :
      CallbackErrorTracker → Client → Option ResultCallbackData → CallbackErrorTracker × Client
  unfolding submit_results record_error
  process_results t c none = (record_error t null_data, c)
  process_results t c (some d) = submit_results t c d

-- The statistics of a device; `locked` is the state of the mutex.
pub record DeviceStats : Type 0 where
  pub device_id : Option ℕ
  pub total_hashes : ℕ
  pub total_time_ms : ℕ
  pub solutions_found : ℕ
  pub callback_invocations : ℕ
  pub error_count : ℕ
  pub last_error : Option CallbackError
  pub locked : Bool

pub new_stats : Option ℕ → DeviceStats
new_stats device_id = record {
  device_id = device_id;
  total_hashes = 0;
  total_time_ms = 0;
  solutions_found = 0;
  callback_invocations = 0;
  error_count = 0;
  last_error = none;
  locked = false;
}

-- `std::lock_guard`: the body runs with the mutex locked, and leaves it unlocked; `none` when it never
-- gets the mutex.
pub guarded {ℓ} :
    {A : Type ℓ} → DeviceStats → (DeviceStats → Option (DeviceStats × A)) → Option (DeviceStats × A)
guarded s body =
    let run =
      body (record s { locked = true }) >>= λ r. some (record (r.0) { locked = false }, r.1) in
    if s.locked then none else run

unfoldable pub update_from_callback :
    DeviceStats → ResultCallbackData → Option (DeviceStats × Unit {0})
unfolding guarded
update_from_callback s d = guarded s λ t. some (
  record t {
    total_hashes = u64 (t.total_hashes + d.device_hashes);
    total_time_ms = u64 (t.total_time_ms + d.device_milliseconds);
    solutions_found = u64 (t.solutions_found + length d.solutions);
    callback_invocations = u64 (t.callback_invocations + 1);
  },
  tt,
)

pub count_error : DeviceStats → CallbackError → Option (DeviceStats × Unit {0})
unfolding guarded
count_error s e =
    guarded s
      λ t. some (record t { error_count = u64 (t.error_count + 1); last_error = some e }, tt)

-- The rate as the pair of hashes and milliseconds that it is the quotient of; 0 by 1 without time.
pub get_hashrate : DeviceStats → Option (DeviceStats × (ℕ × ℕ))
unfolding guarded
get_hashrate s =
    guarded s
      λ t. some (t, if t.total_time_ms == 0 then (0, 1) else (t.total_hashes, t.total_time_ms))

-- The text is made under the lock, with the rate in it: here the fields that it shows.
pub to_string : DeviceStats → Option (DeviceStats × (DeviceStats × (ℕ × ℕ)))
unfolding guarded get_hashrate
to_string s = guarded s λ t. get_hashrate t >>= λ r. some (r.0, (t, r.1))

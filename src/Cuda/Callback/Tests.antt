-- ===== src/Cuda/Callback/Tests.antt =====
-- Callbacks of src/cuda/result_callback.cu.
use ohmy_miner_etc.Common.{[], ◌∷◌, true, false, none, some, arith}
use ohmy_miner_etc.Stratum.{Client, bytes}
use ohmy_miner_etc.Stratum.Tests.{library, online, accepted_text, solution}
use ohmy_miner_etc.Cuda.Callback.{ResultCallbackData, CallbackErrorTracker, process_results}
use ohmy_miner_etc.Cuda.Callback.Submitted.{IsReported, process_results-IsReported}

abbrev quiet : CallbackErrorTracker
quiet = record { last_error = none; has_error = false }

abbrev sender : Client
sender = online (bytes accepted_text ∷ []) (true ∷ [])

abbrev two_found : ResultCallbackData
two_found = record {
  solutions = solution ∷ solution ∷ [];
  has_client = true;
  job_id = [];
  epoch = 3;
  device_id = some 0;
  device_hashes = 1000;
  device_milliseconds = 20;
}

process_results-IsReported_example :
    IsReported library [] quiet sender
      (some two_found)
      (process_results library [] quiet sender (some two_found))
process_results-IsReported_example =
    process_results-IsReported library [] quiet sender (some two_found) (omega arith)

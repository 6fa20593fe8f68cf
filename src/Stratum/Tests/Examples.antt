-- ===== src/Stratum/Tests/Examples.antt =====
-- The statements about the pool client at concrete clients.
use ohmy_miner_etc.Common.{
  some, none, ℕ, ◌+◌, ◌≡◌, refl, List, [], ◌∷◌, map, true, arith, if◌then◌else◌, codes, replicate,
  u64,
}
use ohmy_miner_etc.Types.{MiningJob}
use ohmy_miner_etc.Hex.{hash_to_hex}
use ohmy_miner_etc.Ethash.{seed_from, zero_hash}
use ohmy_miner_etc.Stratum.{Client, bytes, would_block, closed, job_received}
use ohmy_miner_etc.Stratum.Frame.{objects_of}
use ohmy_miner_etc.Stratum.Frame.Objects.{Body, done, plain, quoted, nested, raw, object}
use ohmy_miner_etc.Stratum.Frame.Delivery.{stream, objects_of-stream}
use ohmy_miner_etc.Stratum.Notify.{process_messages, notify}
use ohmy_miner_etc.Stratum.Notify.Messages.{
  IsProcessed, process_messages-IsProcessed, process_messages-stream,
}
use ohmy_miner_etc.Stratum.Notify.Order.{AreHandled}
use ohmy_miner_etc.Stratum.Notify.Params.{IsJobFor, notify-IsWork}
use ohmy_miner_etc.Stratum.Address.Reading.{IsRead, parse_address-IsRead}
use ohmy_miner_etc.Stratum.Session.{submission, submit_solution}
use ohmy_miner_etc.Stratum.Session.Share.{IsShare, submission-IsShare}
use ohmy_miner_etc.Stratum.Session.Submit.{
  IsAcceptance, IsSubmitted, submit_solution-IsSubmitted, submit_solution-answered,
}
use ohmy_miner_etc.Stratum.Notify.Difficulty.{IsTarget, set_difficulty-IsTarget}
use ohmy_miner_etc.Stratum.{difficulty_changed}
use ohmy_miner_etc.Stratum.Notify.{set_difficulty, read_difficulty}
use ohmy_miner_etc.Stratum.Tests.{
  no_job, numbers, Value, flagged, library, blank, online, solution, accepted_text,
}

-- {"a":{}} on one line.
abbrev body : Body
body = quoted (raw b'a' ∷ []) (plain b':' (nested done done))

abbrev beginning : List ℕ
beginning = codes "{\"a\":"

abbrev missing : List ℕ
missing = codes "{}}"

objects_of-stream_example :
    objects_of (stream (body ∷ body ∷ []) beginning) ≡ map object (body ∷ body ∷ [])
objects_of-stream_example =
    objects_of-stream (body ∷ body ∷ []) body beginning missing (ground arith) (ground arith) refl
      (ground arith)

abbrev listening : Client
listening = online (bytes (stream (body ∷ []) beginning) ∷ closed ∷ []) []

process_messages-stream_example :
    AreHandled library blank
      (record listening { answers = closed ∷ [] })
      (map object (body ∷ []))
      (process_messages library blank listening)
process_messages-stream_example =
    process_messages-stream library blank listening (closed ∷ []) (body ∷ []) body beginning missing
      refl refl refl (ground arith) (ground arith) refl (ground arith)

process_messages-IsProcessed_example :
    IsProcessed listening (process_messages library blank listening)
process_messages-IsProcessed_example = process_messages-IsProcessed library blank listening

abbrev head : List ℕ
head = replicate 32 7

abbrev pool_params : Value
pool_params =
    flagged (codes "j1" ∷ hash_to_hex (seed_from 3 zero_hash) true ∷ hash_to_hex head true ∷ [])

notify-IsWork_example :
    (job : MiningJob) × IsJobFor job (codes "j1") head 3 4000000000
    × (notify library blank listening pool_params
        ≡ (record listening { current_job = job }, if true then job_received job ∷ [] else []))
notify-IsWork_example =
    notify-IsWork library blank listening pool_params (codes "j1") head 3 true refl record {
      enough = omega arith;
      clean = λ h. (true, refl);
      id_text = refl;
      seed_text = refl;
      header_text = refl;
      header_length = refl;
      header_bytes = omega arith;
      period_range = omega arith;
    }

parse_address-IsRead_example : IsRead (codes "stratum+tcp") (codes "pool.example") (codes "4444")
parse_address-IsRead_example =
    parse_address-IsRead (codes "stratum+tcp") (codes "pool.example") (codes "4444") (ground arith)
      (ground arith) (omega arith) (ground arith) (omega arith)

submission-IsShare_example : IsShare listening solution blank (submission listening solution)
submission-IsShare_example =
    submission-IsShare listening solution blank (omega arith) refl (refl, omega arith)
      (refl, omega arith)

abbrev answering : Client
answering = online (bytes accepted_text ∷ would_block ∷ []) (true ∷ [])

submit_solution-answered_example :
    ((submit_solution library blank answering solution).0 ≡ record answering {
      message_id = u64 (3 + 1);
      deliveries = [];
      sent = submission answering solution ∷ [];
      answers = would_block ∷ [];
    })
    × ((submit_solution library blank answering solution).1 ≡ true
        → IsAcceptance library blank accepted_text)
    × (IsAcceptance library blank accepted_text
        → (submit_solution library blank answering solution).1 ≡ true)
submit_solution-answered_example =
    submit_solution-answered library blank answering solution accepted_text (would_block ∷ []) []
      refl refl refl refl (ground arith)

submit_solution-IsSubmitted_example :
    IsSubmitted library blank answering solution (submit_solution library blank answering solution)
submit_solution-IsSubmitted_example = submit_solution-IsSubmitted library blank answering solution

abbrev difficulty_params : Value
difficulty_params = numbers (4000000000 ∷ [])

set_difficulty-IsTarget_example :
    ((difficulty : ℕ)
      → read_difficulty library blank difficulty_params ≡ some difficulty
      → (target : ℕ) × IsTarget difficulty target
        × (set_difficulty library blank listening difficulty_params ≡ (
          record listening {
            current_difficulty = difficulty;
            current_job = record no_job { target = target };
          },
          if true then difficulty_changed difficulty ∷ [] else [],
        )))
    × (read_difficulty library blank difficulty_params ≡ none
        → set_difficulty library blank listening difficulty_params ≡ (listening, []))
set_difficulty-IsTarget_example =
    set_difficulty-IsTarget library blank listening difficulty_params (omega arith)

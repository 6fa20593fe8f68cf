-- ===== src/Stratum/Session/Tests.antt =====
-- A session of two calls.
use ohmy_miner_etc.Common.{ℕ, ◌+◌, ◌*◌, ◌≤◌, ◌≡◌, List, [], ◌∷◌, true, some, arith, codes}
use ohmy_miner_etc.Stratum.{Client, bytes, new_client}
use ohmy_miner_etc.Stratum.Address.Reading.{parse_address-IsRead}
use ohmy_miner_etc.Stratum.Session.{Dial, accepted, connect, settle, submit_solution}
use ohmy_miner_etc.Stratum.Session.Requests.{IsNumbered}
use ohmy_miner_etc.Stratum.Session.Run.{Run, started, connected, submitted, run-IsNumbered}
use ohmy_miner_etc.Stratum.Tests.{library, blank, no_job, solution, accepted_text}

abbrev dial : List ℕ → ℕ → Dial
dial host port = accepted

abbrev first : Client
first =
    new_client (codes "pool.example") (codes "0x12") no_job (bytes accepted_text ∷ []) (true ∷ [])

abbrev second : Client
second = record first { open_socket = true; connected = true }

first_connects : connect dial first ≡ some (second, true)
unfolding connect settle new_client
first_connects =
    rw
      (parse_address-IsRead (codes "stratum+tcp") (codes "pool.example") (codes "4444")
        (ground arith) (ground arith) (omega arith) (ground arith) (omega arith)).bare

abbrev third : Client
third = (submit_solution library blank second solution).0

third_Run : Run library blank 2 third
third_Run = submitted 1 second solution (
    connected 0 first second true dial
      (started (codes "pool.example") (codes "0x12") no_job (bytes accepted_text ∷ []) (true ∷ []))
      first_connects)

run-IsNumbered_example : IsNumbered third × (third.message_id ≤ 1 + 2 * 2)
run-IsNumbered_example = run-IsNumbered library blank 2 third third_Run (omega arith)

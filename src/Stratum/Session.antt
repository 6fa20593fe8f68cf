-- ===== src/Stratum/Session.antt =====
-- Connecting, subscribing, authorizing and submitting: the requests of the pool client.
pub mod Requests
pub mod Share
pub mod Submit
pub mod Numbered
pub mod Run
pub mod Tests
use ohmy_miner_etc.Common.{
  ℕ, zero, suc, ◌+◌, ◌/◌, ◌%◌, List, [], ◌∷◌, ◌++◌, Bool, true, false, not, ◌&&◌, ◌||◌, Option,
  none, some, if◌then◌else◌, ltb, leb, list_eq, length, codes, u64, max_u64, ◌>>=◌,
}
use ohmy_miner_etc.Types.{MiningJob, Solution}
use ohmy_miner_etc.Hex.{hex_digit, hash_to_hex}
use ohmy_miner_etc.Stratum.{
  disconnect, Client, Event, Received, bytes, would_block, failed, closed, next_answer, Request,
  subscribe, authorize, suggest_difficulty, submit,
}
use ohmy_miner_etc.Stratum.Json.{JsonLibrary}
use ohmy_miner_etc.Stratum.Address.{parse_address}
use ohmy_miner_etc.Stratum.Notify.{notify_method, process_notification}

-- How `gethostbyname`, `socket` and `connect` turn out for a host and a port.
pub data Dial : Type 0 where
  unresolved : Dial
  no_socket : Dial
  refused : Dial
  accepted : Dial

pub settle : Client → Dial → Client × Bool
settle c unresolved = (c, false)
settle c no_socket = (record c { open_socket = false }, false)
settle c refused = (record c { open_socket = false }, false)
settle c accepted = (record c { open_socket = true; connected = true }, true)

-- `none` is the exception of `std::stoi`, which nothing in the client catches.
pub connect : (List ℕ → ℕ → Dial) → Client → Option (Client × Bool)
unfolding settle
connect dial c = parse_address c.pool_url >>= λ address. some (settle c (dial address.0 address.1))

pub is_connected : Client → Bool
is_connected c = c.connected

pub next_delivery : List Bool → Bool × List Bool
next_delivery [] = (false, [])
next_delivery (ok ∷ rest) = (ok, rest)

pub send_message : Client → Request → Client × Bool
unfolding next_delivery
send_message c request =
    let d = next_delivery c.deliveries in
    if not c.open_socket
    then (c, false)
    else if d.0
    then (record c { deliveries = d.1; sent = request ∷ c.sent }, true)
    else (record c { deliveries = d.1 }, false)

pub received_text : Client → Received → Client × List ℕ
received_text c (bytes message) = (c, message)
received_text c would_block = (c, [])
received_text c failed = (c, [])
received_text c closed = (disconnect c, [])

pub receive_message : Client → Client × List ℕ
unfolding received_text
receive_message c =
    let r = next_answer c.answers in
    if c.open_socket then received_text (record c { answers = r.1 }) r.0 else (c, [])

-- A request and the answer to it, which is empty when one of the two fails.
pub exchange : Client → Request → Client × List ℕ
unfolding send_message receive_message
exchange c request =
    let s = send_message c request in if s.1 then receive_message s.0 else (s.0, [])

-- `messageId_++`.
pub count_message : Client → Client
count_message c = record c { message_id = u64 (c.message_id + 1) }

pub worker_of : Client → List ℕ → List ℕ
worker_of c worker_name =
    if list_eq worker_name [] then c.wallet_address else c.wallet_address ++ b'.' ∷ worker_name

-- `sug` of the environment; `none` when it is not set.
pub suggest : Option ℕ → Client → Client
unfolding count_message
suggest none c = c
suggest (some sug) c =
    if ltb 0 sug
    then (send_message (count_message c) (suggest_difficulty c.message_id sug)).0
    else c

-- `%016PRIx64`.
pub fixed_hex : ℕ → ℕ → List ℕ
fixed_hex zero value = []
fixed_hex (suc digits) value = fixed_hex digits (value / 16) ++ hex_digit (value % 16) ∷ []

pub nonce_text : ℕ → List ℕ
unfolding fixed_hex
nonce_text = fixed_hex 16

pub submission : Client → Solution → Request
unfolding nonce_text
submission c solution =
    submit c.message_id (if list_eq c.current_worker [] then c.wallet_address else c.current_worker)
      (if list_eq solution.job_id [] then c.current_job.job_id else solution.job_id)
      (nonce_text solution.nonce) (hash_to_hex c.current_job.header_hash true)
      (hash_to_hex solution.mix_hash true)

-- `dump` of a request: it throws for a worker or a job id that is not UTF-8. In the operations below the
-- texts are UTF-8, but for the callers of `submit_solution`, which ask `submit_throws`.
pub request_dumps : (List ℕ → Bool) → Request → Bool
request_dumps dumps (subscribe id) = true
request_dumps dumps (authorize id worker) = dumps worker
request_dumps dumps (suggest_difficulty id difficulty) = true
request_dumps dumps (submit id worker job_id nonce header mix) = dumps worker && dumps job_id

module _ (J : JsonLibrary) (stale : List ℕ) where
  open J use {
    Json, parse, dumps, contains, member, element, size, is_null, is_boolean, is_array, get_string,
    get_bool,
  }

  pub keep_subscription : Client → Option (List ℕ) → Client × Bool
  keep_subscription c none = (c, false)
  keep_subscription c (some id) = (record c { subscription_id = id }, true)

  pub take_subscription : Client → Option Json → Client × Bool
  unfolding keep_subscription
  take_subscription c none = (c, false)
  take_subscription c (some result) =
      if is_null result
      then (c, false)
      else if is_array result && leb 2 (size result)
      then keep_subscription c (element result 1 >>= get_string)
      else (c, true)

  pub subscribe_answer : Client → Option Json → Client × Bool
  unfolding take_subscription
  subscribe_answer c none = (c, false)
  subscribe_answer c (some resp) =
      if contains resp (codes "result")
      then take_subscription c (member resp (codes "result"))
      else (c, false)

  pub subscribe_pool : Client → Client × Bool
  unfolding subscribe_answer exchange
  subscribe_pool c =
      let answer = exchange (count_message c) (subscribe c.message_id) in
      if c.connected
      then (if list_eq answer.1 []
          then (answer.0, false)
          else subscribe_answer answer.0 (parse answer.1))
      else (c, false)

  -- `resp["result"].get<bool>()`, where the answer has a result: `none` for an exception.
  pub result_of : Json → Option Bool
  result_of resp =
      if contains resp (codes "result")
      then member resp (codes "result") >>= get_bool
      else some false

  pub method_of : Json → Option (List ℕ)
  method_of resp =
      if contains resp (codes "method")
      then member resp (codes "method") >>= get_string
      else some []

  -- Some pools send a job in place of the answer; it is processed and counts as a success.
  pub authorize_notified : Option ℕ → Client → Json → Option (List ℕ) → Client × Bool × List Event
  unfolding suggest
  authorize_notified env c resp none = (c, false, [])
  authorize_notified env c resp (some method) =
      let r = process_notification J stale c resp in
      if list_eq method notify_method then (suggest env r.0, true, r.1) else (c, false, [])

  pub authorize_result : Option ℕ → Client → Json → Option Bool → Client × Bool × List Event
  unfolding authorize_notified method_of
  authorize_result env c resp none = (c, false, [])
  authorize_result env c resp (some true) = (suggest env c, true, [])
  authorize_result env c resp (some false) = authorize_notified env c resp (method_of resp)

  pub authorize_answer : Option ℕ → Client → Option Json → Client × Bool × List Event
  unfolding authorize_result result_of
  authorize_answer env c none = (c, false, [])
  authorize_answer env c (some resp) = authorize_result env c resp (result_of resp)

  pub authorize_worker : Option ℕ → Client → List ℕ → Client × Bool × List Event
  unfolding authorize_answer exchange count_message worker_of
  authorize_worker env c worker_name =
      let worker = worker_of c worker_name in
      let named : Client = record c { current_worker = worker } in
      let answer = exchange (count_message named) (authorize c.message_id worker) in
      if c.connected
      then (if list_eq answer.1 []
          then (answer.0, false, [])
          else authorize_answer env answer.0 (parse answer.1))
      else (c, false, [])

  -- A share is accepted by the Boolean `true` and nothing else.
  pub is_accepted : Option Json → Bool
  is_accepted none = false
  is_accepted (some resp) = contains resp (codes "result") && elim (member resp (codes "result")) [
    | none ↦ false
    | some result ↦ is_boolean result && elim (get_bool result) [ none ↦ false | some b ↦ b ]
  ]

  pub submit_solution : Client → Solution → Client × Bool
  unfolding submission exchange count_message is_accepted
  submit_solution c solution =
      let answer = exchange (count_message c) (submission c solution) in
      if c.connected
      then (answer.0, not (list_eq answer.1 []) && is_accepted (parse answer.1))
      else (c, false)

  -- The exception of `dump` in `submitSolution`: the id is counted, and nothing is sent.
  pub submit_throws : Client → Solution → Bool
  unfolding request_dumps
  submit_throws c solution = c.connected && not (request_dumps dumps (submission c solution))

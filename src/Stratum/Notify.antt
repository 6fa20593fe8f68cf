-- ===== src/Stratum/Notify.antt =====
-- `processNotification` and `processMessages` of the pool client.
pub mod Jobs
pub mod Order
pub mod Messages
pub mod Params
pub mod Difficulty
use ohmy_miner_etc.Common.{
  ℕ, zero, suc, ◌+◌, ◌-◌, ◌*◌, ◌/◌, List, [], ◌∷◌, ◌++◌, Bool, true, false, not, ◌&&◌, ◌||◌, Option,
  none, some, if◌then◌else◌, ltb, leb, ◌==◌, list_eq, codes, u32, max_u32, max_u64, ◌>>=◌,
}
use ohmy_miner_etc.Types.{MiningJob}
use ohmy_miner_etc.Hex.{hex_to_hash32}
use ohmy_miner_etc.Ethash.{epoch_from_seed_hash}
use ohmy_miner_etc.Stratum.{
  Client, Event, aborted, job_received, difficulty_changed, Received, bytes, would_block, failed,
  closed, next_answer, disconnect,
}
use ohmy_miner_etc.Stratum.Json.{JsonLibrary}
use ohmy_miner_etc.Stratum.Frame.{objects_of}

abbrev pub notify_method : List ℕ
notify_method = codes "mining.notify"

abbrev pub set_difficulty_method : List ℕ
set_difficulty_method = codes "mining.set_difficulty"

pub derived_epoch : List ℕ → ℕ
derived_epoch seed_hash =
    let found = epoch_from_seed_hash seed_hash in if found == max_u32 then 0 else found

pub target_of : ℕ → ℕ
target_of difficulty = if ltb 0 difficulty then max_u64 / difficulty else max_u64

-- The job that `mining.notify` makes of its fields.
pub make_job : List ℕ → List ℕ → List ℕ → ℕ → MiningJob
make_job job_id seed_hash header_hash difficulty =
    let epoch = derived_epoch seed_hash in
    record {
      job_id = job_id;
      seed_hash = seed_hash;
      header_hash = header_hash;
      target = difficulty;
      block_number = u32 (epoch * 30000);
      epoch = epoch;
    }

-- `stale` is what the memory of a new `MiningJob` holds before its hashes are set.
module _ (J : JsonLibrary) (stale : List ℕ) where
  open J use {
    Json, parse, contains, member, element, size, is_integer, is_float, get_string, get_bool,
    get_uint64, rounded,
  }

  abbrev pub text_at : Json → ℕ → Option (List ℕ)
  text_at params i = element params i >>= get_string

  -- A hash that cannot be read is only warned of.
  pub read_job : Json → ℕ → Option MiningJob
  read_job params difficulty = text_at params 0 >>= λ job_id. text_at params 1 >>= λ seed_hex.
      text_at params 2 >>= λ header_hex.
      (if ltb 3 (size params) then element params 3 >>= get_bool else some true) >>= λ clean_jobs.
      some (
        make_job job_id (hex_to_hash32 seed_hex stale).1 (hex_to_hash32 header_hex stale).1
          difficulty)

  pub read_difficulty : Json → Option ℕ
  read_difficulty params = element params 0 >>= λ p.
      if is_integer p then get_uint64 p else if is_float p then some (rounded p) else some 1

  pub take_job : Client → MiningJob → Client × List Event
  take_job c job = (record c { current_job = job }, if c.on_job then job_received job ∷ [] else [])

  pub take_difficulty : Client → ℕ → Client × List Event
  unfolding target_of
  take_difficulty c difficulty = (
    record c {
      current_difficulty = difficulty;
      current_job = record (c.current_job) { target = target_of difficulty };
    },
    if c.on_difficulty then difficulty_changed difficulty ∷ [] else [],
  )

  -- A `json::exception` leaves the client as it is: it comes before any assignment.
  abbrev pub or_unchanged {ℓ} :
      {A : Type ℓ} → Client → Option A → (A → Client × List Event) → Client × List Event
  or_unchanged c none k = (c, [])
  or_unchanged c (some a) k = k a

  pub notify : Client → Json → Client × List Event
  unfolding read_job take_job
  notify c params =
      if leb 3 (size params)
      then or_unchanged c (read_job params c.current_difficulty) (take_job c)
      else (c, [])

  pub set_difficulty : Client → Json → Client × List Event
  unfolding read_difficulty take_difficulty
  set_difficulty c params =
      if leb 1 (size params)
      then or_unchanged c (read_difficulty params) (take_difficulty c)
      else (c, [])

  -- `message["params"]` of a constant value, which has to be there.
  abbrev pub with_params : Client → Json → (Json → Client × List Event) → Client × List Event
  with_params c message k =
      if contains message (codes "params")
      then or_unchanged c (member message (codes "params")) k
      else (c, aborted ∷ [])

  pub dispatch : Client → Json → List ℕ → Client × List Event
  unfolding notify set_difficulty
  dispatch c message method =
      if list_eq method notify_method
      then with_params c message (notify c)
      else if list_eq method set_difficulty_method
      then with_params c message (set_difficulty c)
      else (c, [])

  pub process_notification : Client → Json → Client × List Event
  unfolding dispatch
  process_notification c message =
      or_unchanged c (member message (codes "method") >>= get_string) (dispatch c message)

  -- One object of a buffer, parsed or not, with whether it was a notification.
  pub process_parsed : Client → Option Json → Client × Bool × List Event
  unfolding process_notification
  process_parsed c none = (c, false, [])
  process_parsed c (some message) =
      let r = process_notification c message in
      if contains message (codes "method") then (r.0, true, r.1) else (c, false, [])

  pub process_object : Client → List ℕ → Client × Bool × List Event
  unfolding process_parsed
  process_object c text = process_parsed c (parse text)

  pub process_objects : Client → List (List ℕ) → Client × Bool × List Event
  unfolding process_object
  process_objects c [] = (c, false, [])
  process_objects c (text ∷ objects) =
      let first = process_object c text in
      let rest = process_objects first.0 objects in (rest.0, first.1 || rest.1, first.2 ++ rest.2)

  -- The answer of the socket is consumed; without one there is nothing to read.
  pub process_answer : Client → Received → Client × Bool × List Event
  unfolding process_objects disconnect
  process_answer c (bytes message) = process_objects c (objects_of message)
  process_answer c would_block = (c, false, [])
  process_answer c failed = (c, false, [])
  process_answer c closed = (disconnect c, false, [])

  pub process_messages : Client → Client × Bool × List Event
  unfolding process_answer next_answer
  process_messages c =
      let r = next_answer c.answers in
      if not c.connected || not c.open_socket
      then (c, false, [])
      else process_answer (record c { answers = r.1 }) r.0

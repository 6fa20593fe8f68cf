-- ===== src/Stratum.antt =====
-- include/ohmy/stratum_client.hpp and src/network/stratum_client.cpp: the pool client. What the socket
-- answers is a script in the state, what is sent a log; the JSON library is a parameter. A callback is
-- an event that the client emits.
pub mod Json
pub mod Frame
pub mod Address
pub mod Notify
pub mod Session
pub mod Tests
use ohmy_miner_etc.Common.{
  ℕ, suc, ◌+◌, max_u64, if◌then◌else◌, List, [], ◌∷◌, ◌++◌, Bool, true, false, Option, none, some,
}
use ohmy_miner_etc.Types.{MiningJob}

-- What one `recv` gives.
pub data Received : Type 0 where
  bytes : List ℕ → Received
  would_block : Received
  failed : Received
  closed : Received

-- The requests that the client writes, each with its id.
pub data Request : Type 0 where
  subscribe : ℕ → Request
  authorize : ℕ → List ℕ → Request
  suggest_difficulty : ℕ → ℕ → Request
  submit : ℕ → List ℕ → List ℕ → List ℕ → List ℕ → List ℕ → Request

-- What the client hands on. `aborted` is a notification without "params", at which the JSON library's
-- assertion ends the process, or with NDEBUG nothing is defined: what stands behind it is not reached.
pub data Event : Type 0 where
  aborted : Event
  job_received : MiningJob → Event
  difficulty_changed : ℕ → Event

-- The fields of `StratumClient::Impl`, with the script of the socket: `answers` for `recv`,
-- `deliveries` for `send` (whether it succeeds), and the requests sent so far, the latest first.
-- `open_socket` says that `socket_` is not -1.
pub record Client : Type 0 where
  pub pool_url : List ℕ
  pub wallet_address : List ℕ
  pub connected : Bool
  pub open_socket : Bool
  pub message_id : ℕ
  pub current_difficulty : ℕ
  pub subscription_id : List ℕ
  pub current_job : MiningJob
  pub on_job : Bool
  pub on_difficulty : Bool
  pub current_worker : List ℕ
  pub answers : List Received
  pub deliveries : List Bool
  pub sent : List Request

pub request_id : Request → ℕ
request_id (subscribe id) = id
request_id (authorize id _) = id
request_id (suggest_difficulty id _) = id
request_id (submit id _ _ _ _ _) = id

-- The next answer of the socket, and the script behind it; without one there is nothing to read.
pub next_answer : List Received → Received × List Received
next_answer [] = (would_block, [])
next_answer (answer ∷ rest) = (answer, rest)

-- A new client, with what the memory of its job holds and the scripts of its socket.
pub new_client : List ℕ → List ℕ → MiningJob → List Received → List Bool → Client
new_client url wallet job script delivered = record {
  pool_url = url;
  wallet_address = wallet;
  connected = false;
  open_socket = false;
  message_id = 1;
  current_difficulty = max_u64;
  subscription_id = [];
  current_job = job;
  on_job = false;
  on_difficulty = false;
  current_worker = [];
  answers = script;
  deliveries = delivered;
  sent = [];
}

pub set_on_job : Client → Client
set_on_job c = record c { on_job = true }

pub set_on_difficulty : Client → Client
set_on_difficulty c = record c { on_difficulty = true }

pub disconnect : Client → Client
disconnect c = if c.open_socket then record c { open_socket = false; connected = false } else c

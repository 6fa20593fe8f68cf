-- ===== src/Stratum/Tests.antt =====
-- Messages of a pool, with a JSON library for a few of them.
pub mod Examples
use ohmy_miner_etc.Common.{
  ℕ, ◌+◌, ◌==◌, ◌^◌, ◌≡◌, ◌≢◌, refl, List, [], ◌∷◌, ◌++◌, length, get_elem?, Bool, true, false,
  Option, none, some, arith, if◌then◌else◌, list_eq, codes, replicate, max_u64, ◌>>=◌,
}
use ohmy_miner_etc.Types.{MiningJob, Solution}
use ohmy_miner_etc.Stratum.{Client, Received, bytes, Event}
use ohmy_miner_etc.Stratum.Json.{JsonLibrary}

pub data Value : Type 0 where
  text : List ℕ → Value
  texts : List (List ℕ) → Value
  notification : List (List ℕ) → Value
  number : ℕ → Value
  numbers : List ℕ → Value
  acceptance : Value
  flagged : List (List ℕ) → Value

abbrev pub member_of : Value → List ℕ → Option Value
member_of (notification params) key =
    if list_eq key (codes "method")
    then some (text (codes "mining.notify"))
    else if list_eq key (codes "params")
    then some (texts params)
    else none
member_of acceptance key = if list_eq key (codes "result") then some acceptance else none
member_of (text t) key = none
member_of (texts ts) key = none
member_of (number n) key = none
member_of (numbers ns) key = none
member_of (flagged ts) key = none

abbrev pub is_some : Option Value → Bool
is_some none = false
is_some (some v) = true

abbrev pub element_of : Value → ℕ → Option Value
element_of (texts ts) i = get_elem? ts i >>= λ t. some (text t)
element_of (text t) i = none
element_of (number n) i = none
element_of (numbers ns) i = get_elem? ns i >>= λ n. some (number n)
element_of (notification params) i = none
element_of acceptance i = none
element_of (flagged ts) i =
    if i == length ts then some acceptance else get_elem? ts i >>= λ t. some (text t)

abbrev pub size_of : Value → ℕ
size_of (texts ts) = length ts
size_of (text t) = 1
size_of (number n) = 1
size_of (numbers ns) = length ns
size_of (notification params) = 2
size_of acceptance = 1
size_of (flagged ts) = length ts + 1

abbrev pub string_of : Value → Option (List ℕ)
string_of (text t) = some t
string_of (texts ts) = none
string_of (number n) = none
string_of (numbers ns) = none
string_of (notification params) = none
string_of acceptance = none
string_of (flagged ts) = none

abbrev pub is_true : Value → Bool
is_true acceptance = true
is_true (text t) = false
is_true (texts ts) = false
is_true (number n) = false
is_true (numbers ns) = false
is_true (notification params) = false
is_true (flagged ts) = false

abbrev pub number_of : Value → Option ℕ
number_of (number n) = some n
number_of (numbers ns) = none
number_of (text t) = none
number_of (texts ts) = none
number_of (notification params) = none
number_of acceptance = none
number_of (flagged ts) = none

abbrev pub is_number : Option ℕ → Bool
is_number none = false
is_number (some n) = true

-- The messages that the library parses: an acceptance, and anything else a job.
abbrev pub accepted_text : List ℕ
accepted_text = codes "{\"result\":true}"

abbrev pub library : JsonLibrary
library = record {
  Json = Value;
  parse = λ t.
      if list_eq t accepted_text then some acceptance else some (notification (t ∷ t ∷ t ∷ []));
  contains = λ v key. is_some (member_of v key);
  member = member_of;
  element = element_of;
  size = size_of;
  is_null = λ v. false;
  is_boolean = is_true;
  is_array = λ v. false;
  is_integer = λ v. is_number (number_of v);
  is_float = λ v. false;
  get_string = string_of;
  get_bool = λ v. some (is_true v);
  get_uint64 = number_of;
  rounded = λ v. 0;
  dumps = λ t. true;
}

abbrev pub blank : List ℕ
blank = replicate 32 0

abbrev pub no_job : MiningJob
no_job = record {
  job_id = [];
  seed_hash = blank;
  header_hash = replicate 32 9;
  target = 0;
  block_number = 0;
  epoch = 0;
}

abbrev pub online : List Received → List Bool → Client
online answers deliveries = record {
  pool_url = codes "pool.example:4444";
  wallet_address = codes "0x12";
  connected = true;
  open_socket = true;
  message_id = 3;
  current_difficulty = 4000000000;
  subscription_id = [];
  current_job = no_job;
  on_job = true;
  on_difficulty = true;
  current_worker = codes "0x12.rig1";
  answers = answers;
  deliveries = deliveries;
  sent = [];
}

abbrev pub solution : Solution
solution = record {
  nonce = 0xdeadbeef;
  mix_hash = replicate 32 4;
  result = replicate 32 5;
  job_id = codes "j1";
}

-- ===== src/Settings.antt =====
-- src/utils/config.cpp with include/ohmy/config.hpp: the configuration manager. Its map has these keys
-- only; reading one that is missing makes it, with an empty text. What a file holds is not looked
-- at: loading it is whether it can be opened and is JSON, a parameter. The arguments are those behind
-- the name of the program.
pub mod Options
use ohmy_miner_etc.Common.{
  ℕ, List, [], ◌∷◌, Bool, true, false, ◌||◌, Option, none, some, if◌then◌else◌, ◌==◌, list_eq,
  codes,
}

pub data Key : Type 0 where
  pool_url : Key
  wallet : Key
  worker : Key
  devices : Key
  threads : Key
  log_file : Key
  use_tls : Key

abbrev pub key_id : Key → ℕ
key_id pool_url = 0
key_id wallet = 1
key_id worker = 2
key_id devices = 3
key_id threads = 4
key_id log_file = 5
key_id use_tls = 6

abbrev pub Settings : Type 0
Settings = Key → Option (List ℕ)

pub assign : Settings → Key → List ℕ → Settings
assign settings key value k = if key_id key == key_id k then some value else settings k

-- `config_[key]`: the value, and the map with the key in it.
pub indexed : Settings → Key → Option (List ℕ) → List ℕ × Settings
unfolding assign
indexed settings key none = ([], assign settings key [])
indexed settings key (some value) = (value, settings)

pub index : Settings → Key → List ℕ × Settings
unfolding indexed
index settings key = indexed settings key (settings key)

pub record PoolConfig : Type 0 where
  pub url : List ℕ
  pub wallet_address : List ℕ
  pub worker_name : List ℕ
  pub tls : Bool

pub get_pool_config : Settings → PoolConfig × Settings
unfolding index
get_pool_config settings =
    let (url, s1) = index settings pool_url in
    let (wallet_text, s2) = index s1 wallet in
    let (worker_text, s3) = index s2 worker in
    let (tls_text, s4) = index s3 use_tls in
    (
      record {
        url = url;
        wallet_address = wallet_text;
        worker_name = worker_text;
        tls = list_eq tls_text (codes "true");
      },
      s4,
    )

-- What the loop takes an argument for.
pub data Word : Type 0 where
  option : Key → Word
  file : Word
  usage : Word
  other : Word

pub word_of : List ℕ → Word
word_of arg =
    if list_eq arg (codes "--pool")
    then option pool_url
    else if list_eq arg (codes "--wallet")
    then option wallet
    else if list_eq arg (codes "--worker")
    then option worker
    else if list_eq arg (codes "--devices")
    then option devices
    else if list_eq arg (codes "--threads")
    then option threads
    else if list_eq arg (codes "--log")
    then option log_file
    else if list_eq arg (codes "--config")
    then file
    else if list_eq arg (codes "--help") || list_eq arg (codes "-h")
    then usage
    else other

-- An option that awaits its value; a last one without a value is passed over.
pub data Pending : Type 0 where
  nothing : Pending
  value_of : Key → Pending
  file_name : Pending

pub take_word : Word → Settings → (Pending → Settings × Bool) → Settings × Bool
take_word (option key) settings next = next (value_of key)
take_word file settings next = next file_name
take_word usage settings next = (settings, false)
take_word other settings next = next nothing

-- The loop over the arguments; `--config` ends it with the result of the loading.
pub parse_words : (List ℕ → Bool) → List (List ℕ) → Pending → Settings → Settings × Bool
unfolding take_word word_of assign
parse_words load [] pending settings = (settings, true)
parse_words load (arg ∷ rest) nothing settings =
    take_word (word_of arg) settings (λ pending. parse_words load rest pending settings)
parse_words load (arg ∷ rest) (value_of key) settings =
    parse_words load rest nothing (assign settings key arg)
parse_words load (arg ∷ rest) file_name settings = (settings, load arg)

pub parse_settings : (List ℕ → Bool) → List (List ℕ) → Settings → Settings × Bool
unfolding parse_words
parse_settings load arguments settings = parse_words load arguments nothing settings

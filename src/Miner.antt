-- ===== src/Miner.antt =====
-- src/miner_main.cpp: the command line. The arguments are those behind the
-- name of the program.
pub mod Arguments
pub mod Tests
use ohmy_miner_etc.Common.{
  ℕ, zero, suc, ◌+◌, List, [], ◌∷◌, ◌++◌, Bool, true, false, not, ◌&&◌, ◌||◌, Option, none, some,
  if◌then◌else◌, ◌==◌, list_eq, codes, ◌>>=◌,
}
use ohmy_miner_etc.Stratum.Address.{magnitude, skip_spaces}

-- An `int`: `negative n` is -n.
pub data Integer : Type 0 where
  natural : ℕ → Integer
  negative : ℕ → Integer

-- `cacheDir` has no option, and always its default.
pub record Config : Type 0 where
  pub pool_url : List ℕ
  pub wallet_address : List ℕ
  pub worker_name : List ℕ
  pub device_id : Integer
  pub verbose : Bool

pub default_config : Config
default_config = record {
  pool_url = [];
  wallet_address = [];
  worker_name = [];
  device_id = natural 0;
  verbose = false;
}

-- `refused` is the result false; `thrown` an exception of `std::stoi`, outside of the handler of `main`.
pub data Parsed : Type 0 where
  accepted : Config → Parsed
  refused : Parsed
  thrown : Parsed

pub signed_integer : List ℕ → Option Integer
signed_integer [] = none
signed_integer (c ∷ text) =
    if c == b'-'
    then (magnitude 2147483648 text >>= λ value. some (negative value))
    else if c == b'+'
    then (magnitude 2147483647 text >>= λ value. some (natural value))
    else (magnitude 2147483647 (c ∷ text) >>= λ value. some (natural value))

pub stoi : List ℕ → Option Integer
stoi text = signed_integer (skip_spaces text)

-- The options that `parseArgs` of the program compares an argument with, in its order.
pub data Name : Type 0 where
  help : Name
  pool : Name
  wallet : Name
  worker : Name
  device : Name
  verbosity : Name
  unknown : Name

pub name_of : List ℕ → Name
name_of arg =
    if list_eq arg (codes "--help") || list_eq arg (codes "-h")
    then help
    else if list_eq arg (codes "--pool")
    then pool
    else if list_eq arg (codes "--wallet")
    then wallet
    else if list_eq arg (codes "--worker")
    then worker
    else if list_eq arg (codes "--device")
    then device
    else if list_eq arg (codes "--verbose") || list_eq arg (codes "-v")
    then verbosity
    else unknown

-- The checks behind the loop.
pub validate : Config → Parsed
validate config =
    if list_eq config.pool_url []
    then refused
    else if list_eq config.wallet_address []
    then refused
    else accepted config

pub device_option : Config → Option Integer → Option Config
device_option config none = none
device_option config (some id) = some (record config { device_id = id })

-- An option with its value; `none` is an exception.
pub with_value : Name → List ℕ → Config → Option Config
unfolding device_option stoi
with_value pool value config = some (record config { pool_url = value })
with_value wallet value config = some (record config { wallet_address = value })
with_value worker value config = some (record config { worker_name = value })
with_value device value config = device_option config (stoi value)
with_value _ value config = some config

pub take_option : Name → Config → (Option Name → Config → Parsed) → Parsed
take_option help config next = refused
take_option unknown config next = refused
take_option verbosity config next = next none (record config { verbose = true })
take_option pool config next = next (some pool) config
take_option wallet config next = next (some wallet) config
take_option worker config next = next (some worker) config
take_option device config next = next (some device) config

pub take_value : Option Config → (Config → Parsed) → Parsed
take_value none next = thrown
take_value (some config) next = next config

-- The loop over the arguments, with the option that awaits its value; one that gets none is unknown
-- to the program.
pub parse_loop : List (List ℕ) → Option Name → Config → Parsed
unfolding take_option take_value with_value validate name_of
parse_loop [] none config = validate config
parse_loop [] (some name) config = refused
parse_loop (arg ∷ rest) none config =
    take_option (name_of arg) config (λ name c. parse_loop rest name c)
parse_loop (arg ∷ rest) (some name) config =
    take_value (with_value name arg config) (λ c. parse_loop rest none c)

pub parse_args : List (List ℕ) → Config → Parsed
unfolding parse_loop
parse_args arguments config = parse_loop arguments none config

-- ===== src/Launcher.antt =====
-- src/cuda/kernels/kernel_launcher.cpp: which kernel a search is launched with. Pointers are addresses,
-- 0 the null pointer; the kernels themselves are CUDA code, so a launch is a value.
pub mod Variant
pub mod Choice
pub mod Tests
use ohmy_miner_etc.Common.{
  ℕ, zero, suc, List, Bool, true, false, not, ◌&&◌, ◌||◌, Option, none, some, if◌then◌else◌, ltb,
  leb, ◌==◌, list_eq, codes,
}

pub data KernelVariant : Type 0 where
  auto : KernelVariant
  base : KernelVariant
  optimized : KernelVariant
  texture : KernelVariant

pub record KernelLaunchParams : Type 0 where
  pub d_dag : ℕ
  pub dag_size : ℕ
  pub d_header : ℕ
  pub d_seed_hash : ℕ
  pub d_target_be : ℕ
  pub start_nonce : ℕ
  pub search_count : ℕ
  pub d_solutions : ℕ
  pub d_solution_count : ℕ
  pub max_solutions : ℕ
  pub stream : ℕ
  pub tex_dag : ℕ
  pub variant : KernelVariant

-- The environment that the launcher reads, with `atoi` of the third variable, where a negative number
-- counts as 0: both are refused alike.
pub record Environment : Type 0 where
  pub use_optimized_kernel : Option (List ℕ)
  pub use_texture_kernel : Option (List ℕ)
  pub nonces_per_thread : Option ℕ

pub record KernelEnvConfig : Type 0 where
  pub use_optimized : Bool
  pub use_texture : Bool
  pub nonces_per_thread : ℕ

-- A call of one of the three launch functions.
pub data Launch : Type 0 where
  search : KernelLaunchParams → Launch
  search_optimized : KernelLaunchParams → ℕ → Launch
  search_texture : KernelLaunchParams → ℕ → Launch

unfoldable pub is_one : Option (List ℕ) → Bool
is_one none = false
is_one (some text) = list_eq text (codes "1")

unfoldable pub nonces_of : Option ℕ → ℕ
nonces_of none = 1
nonces_of (some v) = if ltb 0 v && leb v 256 then v else 1

unfoldable pub read_environment : Environment → KernelEnvConfig
unfolding is_one nonces_of
read_environment env = record {
  use_optimized = is_one env.use_optimized_kernel;
  use_texture = is_one env.use_texture_kernel;
  nonces_per_thread = nonces_of env.nonces_per_thread;
}

-- `envCfg()`: `none` before the first call, which reads the environment; later calls keep what it read.
unfoldable pub env_config : Option KernelEnvConfig → Environment → KernelEnvConfig
unfolding read_environment
env_config none env = read_environment env
env_config (some config) env = config

unfoldable pub is_launchable : KernelLaunchParams → Bool
is_launchable p = not (
    p.d_dag == 0
    || p.d_header == 0
    || p.d_seed_hash == 0
    || p.d_target_be == 0
    || p.d_solutions == 0
    || p.d_solution_count == 0
    || p.max_solutions == 0)

unfoldable pub resolve : KernelEnvConfig → KernelVariant → KernelVariant
resolve config auto =
    if config.use_texture then texture else if config.use_optimized then optimized else base
resolve config base = base
resolve config optimized = optimized
resolve config texture = texture

unfoldable pub launch_resolved : KernelEnvConfig → KernelLaunchParams → KernelVariant → Launch
launch_resolved config p texture =
    if p.tex_dag == 0
    then (if config.use_optimized then search_optimized p config.nonces_per_thread else search p)
    else search_texture p config.nonces_per_thread
launch_resolved config p optimized = search_optimized p config.nonces_per_thread
launch_resolved config p base = search p
launch_resolved config p auto = search p

-- The launch, if any, and the configuration that is kept.
unfoldable pub launch_search_kernel :
    Option KernelEnvConfig
    → Environment
    → KernelLaunchParams
    → Option Launch × Option KernelEnvConfig
unfolding env_config is_launchable resolve launch_resolved
launch_search_kernel cached env p =
    let config = env_config cached env in
    if is_launchable p
    then (some (launch_resolved config p (resolve config p.variant)), some config)
    else (none, cached)

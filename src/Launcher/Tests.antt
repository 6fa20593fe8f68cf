-- ===== src/Launcher/Tests.antt =====
-- Launches of src/cuda/kernels/kernel_launcher.cpp.
use ohmy_miner_etc.Common.{◌≡◌, refl, none, some, codes, list_eq}
use ohmy_miner_etc.Launcher.{
  auto, KernelLaunchParams, Environment, launch_search_kernel, search_optimized, is_one, nonces_of,
  read_environment, env_config, is_launchable, resolve, launch_resolved,
}
use ohmy_miner_etc.Launcher.Choice.{IsLaunched, launch_search_kernel-IsLaunched}

abbrev params : KernelLaunchParams
params = record {
  d_dag = 4096;
  dag_size = 1073741824;
  d_header = 16;
  d_seed_hash = 48;
  d_target_be = 80;
  start_nonce = 0;
  search_count = 10000000;
  d_solutions = 112;
  d_solution_count = 1200;
  max_solutions = 16;
  stream = 1;
  tex_dag = 0;
  variant = auto;
}

abbrev tuned : Environment
tuned = record {
  use_optimized_kernel = some (codes "1");
  use_texture_kernel = some (codes "1");
  nonces_per_thread = some 300;
}

-- Without a texture the optimized kernel is launched, and a number of nonces out of range counts as 1.
falls_back : (launch_search_kernel none tuned params).0 ≡ some (search_optimized params 1)
unfolding launch_search_kernel env_config read_environment is_one nonces_of is_launchable resolve
    launch_resolved list_eq
falls_back = refl

launch_search_kernel-IsLaunched_example :
    IsLaunched none tuned params (launch_search_kernel none tuned params)
launch_search_kernel-IsLaunched_example = launch_search_kernel-IsLaunched none tuned params tt

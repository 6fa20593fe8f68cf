-- ===== src/Launcher/Choice.antt =====
-- What the launcher launches.
use ohmy_miner_etc.Common.{
  ap, List, ◌&&◌, ltb, leb, codes, list_eq_refl, eq-of-list_eq, ℕ, ◌≤◌, ◌≡◌, ◌≢◌, refl, sym, inl,
  inr, true, false, Option, none, some, arith, if◌then◌else◌, if-elim, if-true, if-false, ◌==◌,
  Bool-cases, subst,
}
use ohmy_miner_etc.Launcher.{
  KernelVariant, auto, base, optimized, texture, KernelLaunchParams, Environment, KernelEnvConfig,
  Launch, search, search_optimized, search_texture, nonces_of, read_environment, env_config, is_one,
  is_launchable, resolve, launch_resolved, launch_search_kernel,
}
use ohmy_miner_etc.Launcher.Variant.{IsChosen, resolved-IsChosen}

-- A configuration with a usable number of nonces for each thread.
abbrev pub IsConfig : KernelEnvConfig → Type 0
IsConfig config = (1 ≤ config.nonces_per_thread) × (config.nonces_per_thread ≤ 256)

abbrev pub IsCached : Option KernelEnvConfig → Type 0
IsCached none = Unit
IsCached (some config) = IsConfig config

-- A launch of these parameters: only with pointers and room for solutions, with the texture kernel
-- only when there is a texture, and with 1 to 256 nonces for each thread.
abbrev pub IsLaunchOf : KernelLaunchParams → Launch → Type 0
IsLaunchOf p (search q) = q ≡ p
IsLaunchOf p (search_optimized q nonces) = (q ≡ p) × (1 ≤ nonces) × (nonces ≤ 256)
IsLaunchOf p (search_texture q nonces) = (q ≡ p) × (p.tex_dag ≢ 0) × (1 ≤ nonces) × (nonces ≤ 256)

nonces_of_range : (v : Option ℕ) → (1 ≤ nonces_of v) × (nonces_of v ≤ 256)
unfolding nonces_of
nonces_of_range none = (omega arith, omega arith)
nonces_of_range (some v) = ground arith

env_config-IsConfig :
    (cached : Option KernelEnvConfig) (env : Environment)
    → IsCached cached
    → IsConfig (env_config cached env)
unfolding env_config read_environment
env_config-IsConfig none env h = nonces_of_range env.nonces_per_thread
env_config-IsConfig (some config) env h = h

launch_resolved-IsLaunchOf :
    (config : KernelEnvConfig) (p : KernelLaunchParams) (variant : KernelVariant)
    → IsConfig config
    → IsLaunchOf p (launch_resolved config p variant)
unfolding launch_resolved
launch_resolved-IsLaunchOf config p auto h = refl
launch_resolved-IsLaunchOf config p base h = refl
launch_resolved-IsLaunchOf config p optimized h = (refl, h.0, h.1)
launch_resolved-IsLaunchOf config p texture h = elim (Bool-cases (p.tex_dag == 0)) [
  | inl absent ↦ subst (IsLaunchOf p) (sym (if-true fallback textured absent)) fallback-IsLaunchOf
  | inr present ↦
      subst (IsLaunchOf p) (sym (if-false fallback textured present))
        (refl, (λ z. ground (arith, z, present)), h.0, h.1)
]
  where
    fallback : Launch
    fallback =
        if config.use_optimized then search_optimized p config.nonces_per_thread else search p

    textured : Launch
    textured = search_texture p config.nonces_per_thread

    fallback-IsLaunchOf : IsLaunchOf p fallback
    fallback-IsLaunchOf =
        if-elim (IsLaunchOf p) config.use_optimized
          {x = search_optimized p config.nonces_per_thread} {y = search p} (refl, h.0, h.1) refl

-- Pointers and room for solutions are there.
abbrev pub IsUsable : KernelLaunchParams → Type 0
IsUsable p =
    (p.d_dag ≢ 0)
    × (p.d_header ≢ 0)
    × (p.d_seed_hash ≢ 0)
    × (p.d_target_be ≢ 0)
    × (p.d_solutions ≢ 0)
    × (p.d_solution_count ≢ 0)
    × (p.max_solutions ≢ 0)

IsUsable-is_launchable : (p : KernelLaunchParams) → IsUsable p → is_launchable p ≡ true
unfolding is_launchable
IsUsable-is_launchable p (a, b, c, d, e, f, g) = ground (arith, a, b, c, d, e, f, g)

is_launchable-IsUsable : (p : KernelLaunchParams) → is_launchable p ≡ true → IsUsable p
unfolding is_launchable
is_launchable-IsUsable p h = (
  (λ z. ground (arith, h, z)),
  (λ z. ground (arith, h, z)),
  (λ z. ground (arith, h, z)),
  (λ z. ground (arith, h, z)),
  (λ z. ground (arith, h, z)),
  (λ z. ground (arith, h, z)),
  λ z. ground (arith, h, z),
)

-- What the environment asks for: a flag is on exactly for the text "1", and a number of nonces from
-- 1 to 256 is taken.
pub record IsAsked (env : Environment) (config : KernelEnvConfig) : Type 0 where
  pub optimized_on : env.use_optimized_kernel ≡ some (codes "1") → config.use_optimized ≡ true
  pub optimized_off : config.use_optimized ≡ true → env.use_optimized_kernel ≡ some (codes "1")
  pub texture_on : env.use_texture_kernel ≡ some (codes "1") → config.use_texture ≡ true
  pub texture_off : config.use_texture ≡ true → env.use_texture_kernel ≡ some (codes "1")
  pub nonces :
      (v : ℕ) → env.nonces_per_thread ≡ some v → 1 ≤ v → v ≤ 256 → config.nonces_per_thread ≡ v

is_one-some : (o : Option (List ℕ)) → o ≡ some (codes "1") → is_one o ≡ true
unfolding is_one
is_one-some o e = rw e (list_eq_refl (codes "1"))

some-is_one : (o : Option (List ℕ)) → is_one o ≡ true → o ≡ some (codes "1")
unfolding is_one
some-is_one none h = absurd (ground (arith, h))
some-is_one (some text) h = ap some (eq-of-list_eq text (codes "1") h)

nonces_of-some : (o : Option ℕ) (v : ℕ) → o ≡ some v → 1 ≤ v → v ≤ 256 → nonces_of o ≡ v
unfolding nonces_of
nonces_of-some o v e lo hi =
    let inside : (ltb 0 v && leb v 256) ≡ true = ground (arith, lo, hi) in rw e (if-true v 1 inside)

read_environment-IsAsked : (env : Environment) → IsAsked env (read_environment env)
unfolding read_environment
read_environment-IsAsked env = record {
  optimized_on = is_one-some env.use_optimized_kernel;
  optimized_off = some-is_one env.use_optimized_kernel;
  texture_on = is_one-some env.use_texture_kernel;
  texture_off = some-is_one env.use_texture_kernel;
  nonces = nonces_of-some env.nonces_per_thread;
}

-- The configuration in force: the one that was read before, or what the environment asks for.
abbrev pub IsInForce : Option KernelEnvConfig → Environment → KernelEnvConfig → Type 0
IsInForce none env config = IsAsked env config
IsInForce (some old) env config = config ≡ old

env_config-IsInForce :
    (cached : Option KernelEnvConfig) (env : Environment)
    → IsInForce cached env (env_config cached env)
unfolding env_config
env_config-IsInForce none env = read_environment-IsAsked env
env_config-IsInForce (some old) env = refl

-- What the launcher keeps and launches.
pub record IsLaunched (cached : Option KernelEnvConfig) (env : Environment) (p : KernelLaunchParams)
    (r : Option Launch × Option KernelEnvConfig) : Type 0 where
  pub refused : ¬ IsUsable p → r ≡ (none, cached)
  pub launched :
      IsUsable p
      → (launch : Launch) × (config : KernelEnvConfig) × (r ≡ (some launch, some config))
        × IsLaunchOf p launch
        × IsInForce cached env config
        × IsChosen config p launch
  pub keeps : IsCached r.1

-- A call of the launcher: with a null pointer or no room for solutions nothing is launched and the
-- cached configuration stays as it was; otherwise a kernel is launched, with the given parameters,
-- the texture kernel only for a texture that exists, and 1 to 256 nonces for each thread, whatever
-- the environment holds; a configuration that was read before is kept as it is, and otherwise the one
-- that is kept has the flags and, from 1 to 256, the number that the environment asks for. The kernel
-- is the one that the variant names; when nothing is named, or there is no texture for the texture
-- kernel, it is the one that the configuration asks for.
pub launch_search_kernel-IsLaunched :
    (cached : Option KernelEnvConfig) (env : Environment) (p : KernelLaunchParams)
    → IsCached cached
    → IsLaunched cached env p (launch_search_kernel cached env p)
unfolding launch_search_kernel
launch_search_kernel-IsLaunched cached env p h = record {
  refused = λ bad. if-false started (none, cached) (unusable bad);
  launched = λ yes. (
    launch,
    config,
    if-true started (none, cached) (IsUsable-is_launchable p yes),
    launch_resolved-IsLaunchOf config p (resolve config p.variant) is_config,
    env_config-IsInForce cached env,
    resolved-IsChosen config p p.variant refl,
  );
  keeps =
      if-elim {A = Option Launch × Option KernelEnvConfig} (λ r. IsCached r.1) (is_launchable p)
        is_config h;
}
  where
    config : KernelEnvConfig
    config = env_config cached env

    is_config : IsConfig config
    is_config = env_config-IsConfig cached env h

    launch : Launch
    launch = launch_resolved config p (resolve config p.variant)

    started : Option Launch × Option KernelEnvConfig
    started = (some launch, some config)

    unusable : ¬ IsUsable p → is_launchable p ≡ false
    unusable bad = elim (Bool-cases (is_launchable p)) [
      | inl e ↦ absurd (bad (is_launchable-IsUsable p e))
      | inr e ↦ e
    ]

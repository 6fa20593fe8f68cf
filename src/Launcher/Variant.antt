-- ===== src/Launcher/Variant.antt =====
-- Which kernel src/cuda/kernels/kernel_launcher.cpp picks for a variant.
use ohmy_miner_etc.Common.{
  ◌≡◌, ◌≢◌, ◌⊎◌, refl, sym, inl, inr, Bool, true, false, arith, if◌then◌else◌, if-true, if-false,
  ◌==◌, Bool-cases, subst,
}
use ohmy_miner_etc.Launcher.{
  KernelVariant, auto, base, optimized, texture, KernelLaunchParams, KernelEnvConfig, Launch,
  search, search_optimized, search_texture, resolve, launch_resolved,
}

-- The texture kernel is asked for, by the parameters or by the configuration.
abbrev pub WantsTexture : KernelEnvConfig → KernelLaunchParams → Type 0
WantsTexture config p = (p.variant ≡ texture) ⊎ ((p.variant ≡ auto) × (config.use_texture ≡ true))

-- The plain or the optimized kernel, as the configuration says.
abbrev pub plain_launch : KernelEnvConfig → KernelLaunchParams → Launch
plain_launch config p =
    if config.use_optimized then search_optimized p config.nonces_per_thread else search p

-- Which kernel a variant comes to: what it names, but without a texture, or with nothing named and no
-- texture asked for, what the configuration says.
pub data IsChosen (config : KernelEnvConfig) (p : KernelLaunchParams) : Launch → Type 0 where
  named_base : p.variant ≡ base → IsChosen config p (search p)
  named_optimized :
      p.variant ≡ optimized → IsChosen config p (search_optimized p config.nonces_per_thread)
  textured :
      WantsTexture config p
      → p.tex_dag ≢ 0
      → IsChosen config p (search_texture p config.nonces_per_thread)
  untextured : WantsTexture config p → p.tex_dag ≡ 0 → IsChosen config p (plain_launch config p)
  unnamed :
      p.variant ≡ auto → config.use_texture ≡ false → IsChosen config p (plain_launch config p)

texture-IsChosen :
    (config : KernelEnvConfig) (p : KernelLaunchParams)
    → WantsTexture config p
    → IsChosen config p (launch_resolved config p texture)
unfolding launch_resolved
texture-IsChosen config p wants = elim (Bool-cases (p.tex_dag == 0)) [
  | inl absent ↦
      subst (IsChosen config p)
        (sym (if-true (plain_launch config p) (search_texture p config.nonces_per_thread) absent))
        (untextured wants (ground (arith, absent)))
  | inr present ↦
      subst (IsChosen config p)
        (sym (if-false (plain_launch config p) (search_texture p config.nonces_per_thread) present))
        (textured wants (λ z. ground (arith, z, present)))
]

plain-IsChosen :
    (config : KernelEnvConfig) (p : KernelLaunchParams) (o : Bool)
    → config.use_optimized ≡ o
    → p.variant ≡ auto
    → config.use_texture ≡ false
    → IsChosen config p (launch_resolved config p (if o then optimized else base))
unfolding launch_resolved
plain-IsChosen config p true e v t =
    subst (IsChosen config p) (if-true (search_optimized p config.nonces_per_thread) (search p) e)
      (unnamed v t)
plain-IsChosen config p false e v t =
    subst (IsChosen config p) (if-false (search_optimized p config.nonces_per_thread) (search p) e)
      (unnamed v t)

pub resolved-IsChosen :
    (config : KernelEnvConfig) (p : KernelLaunchParams) (v : KernelVariant)
    → p.variant ≡ v
    → IsChosen config p (launch_resolved config p (resolve config v))
unfolding resolve
resolved-IsChosen config p auto e =
    let plain : KernelVariant = if config.use_optimized then optimized else base in
    elim (Bool-cases config.use_texture) [
      | inl on ↦
          subst (λ v. IsChosen config p (launch_resolved config p v))
            (sym (if-true texture plain on)) (texture-IsChosen config p (inr (e, on)))
      | inr off ↦
          subst (λ v. IsChosen config p (launch_resolved config p v))
            (sym (if-false texture plain off))
            (plain-IsChosen config p config.use_optimized refl e off)
    ]
resolved-IsChosen config p base e = unfold launch_resolved in named_base e
resolved-IsChosen config p optimized e = unfold launch_resolved in named_optimized e
resolved-IsChosen config p texture e = texture-IsChosen config p (inl e)

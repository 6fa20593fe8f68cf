-- ===== src/Cuda/DeviceManager/Launched.antt =====
-- A launch through the launcher's choice of a kernel, on a manager's parameters.
use ohmy_miner_etc.Common.{
  All, zero, take, drop, ◌++◌, ℕ, suc, ◌+◌, ◌-◌, ◌^◌, ◌<◌, ◌≤◌, ◌≡◌, inl, inr, refl, sym, ap, ◌∙◌,
  subst, List, [], ◌∷◌, map, length, min, true, Option, none, some, arith, ltb,
}
use ohmy_miner_etc.Pipeline.{DeviceSolution}
use ohmy_miner_etc.Executor.{solution_of}
use ohmy_miner_etc.Launcher.{
  KernelLaunchParams, Launch, search, search_optimized, search_texture, launch_search_kernel,
}
use ohmy_miner_etc.Launcher.Choice.{IsLaunchOf}
use ohmy_miner_etc.Cuda.SearchKernel.{launch_ethash_search, launch_ethash_search_optimized}
use ohmy_miner_etc.Cuda.SearchHash.{SearchInput, search_hash, optimized_hash}
use ohmy_miner_etc.Cuda.SearchHash.Agreement.{optimized_hash-search_hash}
use ohmy_miner_etc.Cuda.SearchKernel.Output.{winners, stored}
use ohmy_miner_etc.Cuda.SearchKernel.Launches.{
  base_tried, optimized_tried, texture_tried, empty_output, launch-stored, optimized-stored,
}
use ohmy_miner_etc.Cuda.SearchKernel.Nonces.{Listed, IsComplete, launches-cover}
use ohmy_miner_etc.Cuda.DeviceManager.{
  Card, DeviceManager, max_found, run_launch, search_input, launch_params, read_solutions,
}

winners-optimized :
    (input : SearchInput) (nonces : List ℕ)
    → winners optimized_hash input nonces ≡ winners search_hash input nonces
winners-optimized input nonces =
    ap (λ h. winners h input nonces) (λ i a n. optimized_hash-search_hash a n i)

-- The solutions that the buffer has room for.
pub take-stored :
    (n : ℕ) (ws rest : List DeviceSolution)
    → take (min (length ws) n) (take n ws ++ rest) ≡ take n ws
take-stored zero ws rest = let e : min (length ws) 0 ≡ 0 = omega arith in rw e refl
take-stored (suc n) [] rest = let e : min 0 (suc n) ≡ 0 = omega arith in rw e refl
take-stored (suc n) (w ∷ ws) rest =
    let e : min (suc (length ws)) (suc n) ≡ suc (min (length ws) n) = omega arith in
    rw e (ap (◌∷◌ w) (take-stored n ws rest))

-- What the host reads: at most sixteen solutions.
pub read-stored :
    (job_id : List ℕ) (slots ws : List DeviceSolution)
    → read_solutions job_id (stored max_found slots ws) []
      ≡ (min (length ws) max_found, map (solution_of job_id) (take max_found ws))
unfolding read_solutions stored
read-stored job_id slots [] = refl
read-stored job_id slots (w ∷ ws) =
    let some_found : ltb 0 (suc (length ws)) ≡ true = ground arith in
    rw some_found (
      ap
        (λ (l : List DeviceSolution). (min (suc (length ws)) max_found, map (solution_of job_id) l))
        (take-stored max_found (w ∷ ws) (drop (suc (length ws)) slots)))

pub Listed-take : {A : Type 0} (a : A) (n : ℕ) (xs : List A) → Listed a (take n xs) → Listed a xs
Listed-take a zero xs h = absurd h
Listed-take a (suc n) [] h = absurd h
Listed-take a (suc n) (x ∷ xs) (inl e) = inl e
Listed-take a (suc n) (x ∷ xs) (inr h) = inr (Listed-take a n xs h)

pub Listed-map :
    {A B : Type 0} (f : A → B) (a : A) (xs : List A) → Listed a xs → Listed (f a) (map f xs)
Listed-map f a [] h = h
Listed-map f a (x ∷ xs) (inl e) = inl (ap f e)
Listed-map f a (x ∷ xs) (inr h) = inr (Listed-map f a xs h)

pub map-Listed :
    {A B : Type 0} (f : A → B) (b : B) (xs : List A)
    → Listed b (map f xs)
    → (a : A) × Listed a xs × (b ≡ f a)
map-Listed f b [] h = absurd h
map-Listed f b (x ∷ xs) (inl e) = (x, inl refl, e)
map-Listed f b (x ∷ xs) (inr h) = let r = map-Listed f b xs h in (r.0, inr r.1, r.2)

pub Listed-All :
    {A : Type 0} (P : A → Type 0) (xs : List A) → ((a : A) → Listed a xs → P a) → All P xs
Listed-All P [] h = tt
Listed-All P (x ∷ xs) h = (h x (inl refl), Listed-All P xs λ a l. h a (inr l))

-- The nonces that the threads of a launch try.
unfoldable pub tried : Card → Option Launch → List ℕ
tried card none = []
tried card (some (search p)) = base_tried card.schedule p.start_nonce p.search_count
tried card (some (search_optimized p n)) =
    optimized_tried card.schedule p.start_nonce p.search_count n
tried card (some (search_texture p n)) = texture_tried card.schedule p.start_nonce p.search_count n

module _ (card : Card) (m : DeviceManager) (header seed target : List ℕ) (start count : ℕ) where
  abbrev pub input : SearchInput
  input = search_input card m.dag_size header seed target

  abbrev pub params : KernelLaunchParams
  params = launch_params m.d_dag m.dag_size m.stream_compute start count

  abbrev pub launched : Option Launch
  launched = (launch_search_kernel m.kernel_config card.environment params).0

  room_of : (p : KernelLaunchParams) → p ≡ params → p.max_solutions ≡ max_found
  unfolding launch_params
  room_of p e = ap (λ (q : KernelLaunchParams). q.max_solutions) e

  -- Either kernel leaves the solutions of the nonces that it tries.
  pub run_launch-stored :
      (launch : Launch)
      → IsLaunchOf params launch
      → length card.fresh ≡ max_found
      → length (winners search_hash input (tried card (some launch))) < 2 ^ 32
      → run_launch card input (some launch) (empty_output card.fresh)
        ≡ stored max_found card.fresh (winners search_hash input (tried card (some launch)))
  unfolding run_launch tried
  run_launch-stored (search p) e room less =
      ap
        (λ (n : ℕ).
          launch_ethash_search card.schedule input p.start_nonce p.search_count n
            (empty_output card.fresh))
        (room_of p e)
      ∙ launch-stored card.schedule input p.start_nonce p.search_count max_found card.fresh room
          (omega arith)
  run_launch-stored (search_optimized p n) (e, lo, hi) room less =
      let nonces = optimized_tried card.schedule p.start_nonce p.search_count n in
      ap
        (λ (k : ℕ).
          launch_ethash_search_optimized card.schedule input p.start_nonce p.search_count n k
            (empty_output card.fresh))
        (room_of p e)
      ∙ optimized-stored card.schedule input p.start_nonce p.search_count n max_found card.fresh
          room (omega (arith, ap (length {A = DeviceSolution}) (winners-optimized input nonces)))
      ∙ ap (stored max_found card.fresh) (winners-optimized input nonces)
  run_launch-stored (search_texture p n) (e, textured, lo, hi) room less =
      absurd (textured (unfold launch_params in refl))

  -- The nonces asked for are among them.
  pub tried-cover :
      (launch : Launch) (k : ℕ)
      → IsLaunchOf params launch
      → IsComplete card.schedule
      → count ≤ 2 ^ 31 - 2 ^ 11
      → start + count ≤ 2 ^ 64
      → k < count
      → Listed (start + k) (tried card (some launch))
  unfolding tried launch_params
  tried-cover (search p) k e complete few fits h =
      subst
        (λ (q : KernelLaunchParams).
          Listed (start + k) (base_tried card.schedule q.start_nonce q.search_count))
        (sym e)
        (launches-cover count 1 few (omega arith) (omega arith) card.schedule start k complete fits
          h).0
  tried-cover (search_optimized p n) k (e, lo, hi) complete few fits h =
      subst
        (λ (q : KernelLaunchParams).
          Listed (start + k) (optimized_tried card.schedule q.start_nonce q.search_count n))
        (sym e) (launches-cover count n few lo hi card.schedule start k complete fits h).1
  tried-cover (search_texture p n) k (e, textured, lo, hi) complete few fits h =
      absurd (textured refl)

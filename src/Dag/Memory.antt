-- ===== src/Dag/Memory.antt =====
-- The GPU memory that the generator of the DAG holds.
use ohmy_miner_etc.Common.{
  ℕ, ◌+◌, ◌<◌, ◌≡◌, ◌≢◌, refl, ap, ◌∙◌, ◌⊎◌, inl, inr, List, ◌∷◌, Bool, true, false, not, ◌&&◌,
  Option, none, some, arith, if-elim, ◌==◌, length,
}
use ohmy_miner_etc.Ethash.{get_dataset_size}
use ohmy_miner_etc.Dag.{
  DagGenerator, Outcome, returned, thrown, terminated, Calls, free, run_kernel, with_dag,
  with_cache, generate,
}

-- A generation that ended well: the new DAG is the one that the generator points to.
pub record IsGenerated (g : DagGenerator) (epoch : ℕ) (d : DagGenerator) : Type 0 where
  pub dag : ℕ
  pub live : d.live ≡ dag ∷ g.live
  pub d_dag : d.d_dag ≡ some dag
  pub current_epoch : d.current_epoch ≡ epoch

-- What a generation leaves on the GPU: when it returns, either what was there before, with the
-- pointer of the generator as it was, or one more DAG; when it throws or ends the process, at least
-- the cache as well, which nothing points to.
abbrev pub IsLedger : DagGenerator → ℕ → DagGenerator × Outcome → Type 0
IsLedger g epoch (d, returned ok) =
    (((d.live ≡ g.live) × (d.d_dag ≡ g.d_dag)) × (d.current_epoch ≡ g.current_epoch))
    ⊎ IsGenerated g epoch d
IsLedger g epoch (d, thrown) = (d.d_dag ≡ g.d_dag) × (length g.live < length d.live)
IsLedger g epoch (d, terminated) = (d.d_dag ≡ g.d_dag) × (length g.live + 2 ≡ length d.live)

free-head : (address : ℕ) (live : List ℕ) → free (address ∷ live) address ≡ live
unfolding free
free-head address live = let same : (address == address) ≡ true = ground arith in rw same

free-second :
    (a address : ℕ) (live : List ℕ) → a ≢ address → free (a ∷ address ∷ live) address ≡ a ∷ live
unfolding free
free-second a address live ne =
    let other : (a == address) ≡ false = ground (arith, ne) in
    let same : (address == address) ≡ true = ground arith in rw other (rw same)

abbrev IsApart : ℕ → Option ℕ → Type 0
IsApart cache none = Unit
IsApart cache (some dag) = dag ≢ cache

run_kernel-IsLedger :
    (calls : Calls) (g : DagGenerator) (epoch cache dag : ℕ)
    → dag ≢ cache
    → IsLedger g epoch (run_kernel calls g epoch cache dag)
unfolding run_kernel
run_kernel-IsLedger calls g epoch cache dag ne =
    let both_freed =
      ap (λ l. free l dag) (free-second dag cache g.live ne) ∙ free-head dag g.live in
    if-elim (IsLedger g epoch) (not calls.copied) (inl ((both_freed, refl), refl)) (
      if-elim (IsLedger g epoch) (not calls.monitored) (inl ((both_freed, refl), refl)) (
        if-elim (IsLedger g epoch) (not calls.generated) (refl, omega arith)
          (inr record {
            dag = dag;
            live = free-second dag cache g.live ne;
            d_dag = refl;
            current_epoch = refl;
          })))

with_dag-IsLedger :
    (calls : Calls) (g : DagGenerator) (epoch cache : ℕ) (address : Option ℕ)
    → IsApart cache address
    → IsLedger g epoch (with_dag calls g epoch cache address)
unfolding with_dag
with_dag-IsLedger calls g epoch cache none ne = inl ((free-head cache g.live, refl), refl)
with_dag-IsLedger calls g epoch cache (some dag) ne =
    if-elim (IsLedger g epoch) (not calls.second_info) (refl, omega arith)
      (run_kernel-IsLedger calls g epoch cache dag ne)

abbrev pub AreApart : Option ℕ → Option ℕ → Type 0
AreApart none address = Unit
AreApart (some cache) address = IsApart cache address

with_cache-IsLedger :
    (calls : Calls) (g : DagGenerator) (epoch : ℕ) (address : Option ℕ)
    → AreApart address calls.dag_address
    → IsLedger g epoch (with_cache calls g epoch address)
unfolding with_cache
with_cache-IsLedger calls g epoch none ne = inl ((refl, refl), refl)
with_cache-IsLedger calls g epoch (some cache) ne =
    if-elim (IsLedger g epoch) (not calls.first_info) (refl, omega arith)
      (with_dag-IsLedger calls g epoch cache calls.dag_address ne)

-- Every way that a generation can end, when the two allocations of the GPU have different addresses:
-- if it returns, the memory of the GPU is as before and the generator points to what it did, or there
-- is exactly one more allocation, the new DAG, to which the generator points, under the new epoch;
-- the cache is free again, and the DAG of an earlier epoch is not freed. If it throws, the cache at
-- least is leaked; if the kernel throws, the process ends with the cache and the DAG allocated.
pub generate-IsLedger :
    (calls : Calls) (g : DagGenerator) (epoch : ℕ) (use_gpu : Bool)
    → AreApart calls.cache_address calls.dag_address
    → IsLedger g epoch (generate calls g epoch use_gpu)
unfolding generate
generate-IsLedger calls g epoch use_gpu ne =
    let emptied : DagGenerator = record g {
      dag_size = get_dataset_size epoch;
      host_data = false;
    } in
    if-elim (IsLedger g epoch) (g.current_epoch == epoch && g.host_data) (inl ((refl, refl), refl))
      (if-elim (IsLedger g epoch) (not use_gpu) (inl ((refl, refl), refl)) (
        of_emptied g epoch (get_dataset_size epoch)
          (with_cache calls emptied epoch calls.cache_address)
          (with_cache-IsLedger calls emptied epoch calls.cache_address ne)))
  where
    of_emptied :
        (g : DagGenerator) (epoch size : ℕ) (r : DagGenerator × Outcome)
        → IsLedger (record g { dag_size = size; host_data = false }) epoch r
        → IsLedger g epoch r
    of_emptied g epoch size (d, returned ok) (inl h) = inl h
    of_emptied g epoch size (d, returned ok) (inr h) =
        inr record { dag = h.dag; live = h.live; d_dag = h.d_dag; current_epoch = h.current_epoch }
    of_emptied g epoch size (d, thrown) h = h
    of_emptied g epoch size (d, terminated) h = h

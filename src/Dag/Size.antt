-- ===== src/Dag/Size.antt =====
-- The size that the generator of src/dag/dag_generator.cpp keeps with a DAG.
use ohmy_miner_etc.Common.{
  List, ℕ, ◌≡◌, ◌∙◌, refl, sym, ap, inl, inr, subst, Bool, true, false, not, ◌&&◌, Option, none,
  some, arith, if◌then◌else◌, if-elim, if-true, if-false, Bool-cases, ◌==◌, ==_iff,
}
use ohmy_miner_etc.Ethash.{get_dataset_size}
use ohmy_miner_etc.Dag.{
  DagGenerator, Outcome, returned, thrown, terminated, Calls, new_generator, run_kernel, with_dag,
  with_cache, generate, free_host_memory,
}

-- With a DAG, the size is that of the dataset of its epoch.
abbrev pub IsSizedDag : DagGenerator → Type 0
IsSizedDag g = g.host_data ≡ true → g.dag_size ≡ get_dataset_size g.current_epoch

-- The same behind a generation that returns, with the size of the given epoch if it succeeds.
abbrev pub IsSizedResult : ℕ → DagGenerator × Outcome → Type 0
IsSizedResult epoch (d, returned ok) =
    IsSizedDag d × (ok ≡ true → d.dag_size ≡ get_dataset_size epoch)
IsSizedResult epoch (d, thrown) = Unit
IsSizedResult epoch (d, terminated) = Unit

module _ (calls : Calls) (g : DagGenerator) (epoch : ℕ)
    (sized : g.dag_size ≡ get_dataset_size epoch) (emptied : g.host_data ≡ false) where
  -- Without a DAG there is nothing to show.
  no_dag : IsSizedDag g × (false ≡ true → g.dag_size ≡ get_dataset_size epoch)
  no_dag = ((λ t. absurd (ground (arith, t, emptied))), λ t. absurd (ground (arith, t)))

  run_kernel-IsSizedResult :
      (cache dag : ℕ) → IsSizedResult epoch (run_kernel calls g epoch cache dag)
  unfolding run_kernel
  run_kernel-IsSizedResult cache dag = if-elim (IsSizedResult epoch) (not calls.copied) no_dag (
      if-elim (IsSizedResult epoch) (not calls.monitored) no_dag
        (if-elim (IsSizedResult epoch) (not calls.generated) tt ((λ _. sized), λ _. sized)))

  with_dag-IsSizedResult :
      (cache : ℕ) (address : Option ℕ) → IsSizedResult epoch (with_dag calls g epoch cache address)
  unfolding with_dag
  with_dag-IsSizedResult cache none = no_dag
  with_dag-IsSizedResult cache (some dag) =
      if-elim (IsSizedResult epoch) (not calls.second_info) tt (run_kernel-IsSizedResult cache dag)

  with_cache-IsSizedResult :
      (address : Option ℕ) → IsSizedResult epoch (with_cache calls g epoch address)
  unfolding with_cache
  with_cache-IsSizedResult none = no_dag
  with_cache-IsSizedResult (some cache) =
      if-elim (IsSizedResult epoch) (not calls.first_info) tt
        (with_dag-IsSizedResult cache calls.dag_address)

-- A generation keeps the size with the DAG, and one that succeeds has the size of its epoch.
pub generate-IsSizedResult :
    (calls : Calls) (g : DagGenerator) (epoch : ℕ) (use_gpu : Bool)
    → IsSizedDag g
    → IsSizedResult epoch (generate calls g epoch use_gpu)
unfolding generate
generate-IsSizedResult calls g epoch use_gpu h =
    let emptied : DagGenerator = record g {
      dag_size = get_dataset_size epoch;
      host_data = false;
    } in
    let made : DagGenerator × Outcome =
      if not use_gpu
      then (emptied, returned false)
      else with_cache calls emptied epoch calls.cache_address in
    elim (Bool-cases (g.current_epoch == epoch && g.host_data)) [
      | inl same ↦
          subst (IsSizedResult epoch) (sym (if-true (g, returned true) made same)) (
            h,
            λ _. h (has same) ∙ ap get_dataset_size ((==_iff g.current_epoch epoch).0 (at same)),
          )
      | inr other ↦ subst (IsSizedResult epoch) (sym (if-false (g, returned true) made other)) (
          if-elim (IsSizedResult epoch) (not use_gpu)
            ((λ t. absurd (ground (arith, t))), λ t. absurd (ground (arith, t)))
            (with_cache-IsSizedResult calls emptied epoch refl refl calls.cache_address))
    ]
  where
    has : (g.current_epoch == epoch && g.host_data) ≡ true → g.host_data ≡ true
    has e = ground (arith, e)

    at : (g.current_epoch == epoch && g.host_data) ≡ true → (g.current_epoch == epoch) ≡ true
    at e = ground (arith, e)

pub free_host_memory-IsSizedDag : (g : DagGenerator) → IsSizedDag (free_host_memory g)
unfolding free_host_memory
free_host_memory-IsSizedDag g t = absurd (ground (arith, t))

pub new_generator-IsSizedDag : (live : List ℕ) → IsSizedDag (new_generator live)
unfolding new_generator
new_generator-IsSizedDag live t = absurd (ground (arith, t))

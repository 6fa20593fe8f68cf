-- ===== src/Engine/Prepared.antt =====
-- Preparing the DAG of a job, in onJobReceived and initializeDag of src/core/mining_engine.cpp.
use ohmy_miner_etc.Common.{
  ℕ, ◌≢◌, ◌⊎◌, max_u32, ◌≡◌, refl, sym, ap, ◌∙◌, inl, inr, Bool, true, false, not, ◌||◌, Option,
  none, some, arith, if◌then◌else◌, if-true, if-false, ◌==◌, Bool-cases, subst, ◌>>=◌, ==_iff,
}
use ohmy_miner_etc.Types.{MiningJob}
use ohmy_miner_etc.Ethash.{get_dataset_size}
use ohmy_miner_etc.Dag.Size.{
  IsSizedDag, IsSizedResult, generate-IsSizedResult, free_host_memory-IsSizedDag,
}
use ohmy_miner_etc.Dag.{DagGenerator, Outcome, returned, thrown, terminated, Calls, generate}
use ohmy_miner_etc.Stratum.Notify.Jobs.{IsJob}
use ohmy_miner_etc.Engine.{
  MiningEngine, Device, dag_pointer, take_dag, use_dag, after_dag, initialize_dag, on_job_received,
}

-- The DAG that the device was given last: none, as long as no epoch is kept, or one with an address and
-- with the size of the dataset of that epoch.
abbrev pub HasDag : Option (ℕ × ℕ) → ℕ → Type 0
HasDag given epoch =
    (epoch ≡ max_u32)
    ⊎ ((address : ℕ) × (given ≡ some (address, get_dataset_size epoch)) × (address ≢ 0))

-- With a job, the epoch that is kept is the one of the job, and the job is well-formed.
pub record IsReady (job : MiningJob) (epoch : ℕ) : Type 0 where
  pub epoch_is : epoch ≡ job.epoch
  pub is_job : IsJob job

-- What the mining loop keeps up.
pub record IsMiningState (g : DagGenerator) (given : Option (ℕ × ℕ)) (epoch : ℕ) (has_job : Bool)
    (job : MiningJob) : Type 0 where
  pub sized : IsSizedDag g
  pub dag : HasDag given epoch
  pub ready : has_job ≡ true → IsReady job epoch

abbrev pub IsMining : MiningEngine → Type 0
IsMining e = IsMiningState e.dag_generator e.device_dag e.current_dag_epoch e.has_job e.current_job

-- The outcome of a call that may throw.
abbrev pub After {ℓ} : {A : Type ℓ} → (A → Type 0) → Option A → Type 0
After P none = Unit
After P (some a) = P a

pub After->>= :
    {A B : Type 0} (P : A → Type 0) (Q : B → Type 0) (o : Option A) (k : A → Option B)
    → After P o
    → ((a : A) → P a → After Q (k a))
    → After Q (o >>= k)
After->>= P Q none k h n = tt
After->>= P Q (some a) k h n = n a h

After-any : {A : Type 0} (o : Option A) → After (λ _. Unit {0}) o
After-any none = tt
After-any (some a) = tt

-- What preparing the DAG of a job leaves: the job, and on success its DAG.
record IsPrepared (wanted : MiningJob) (r : MiningEngine × Bool) : Type 0 where
  job : r.0.current_job ≡ wanted
  sized : IsSizedDag r.0.dag_generator
  dag : HasDag r.0.device_dag r.0.current_dag_epoch
  ready : r.1 ≡ true → r.0.current_dag_epoch ≡ wanted.epoch

failed-IsPrepared :
    (e : MiningEngine) (g : DagGenerator)
    → HasDag e.device_dag e.current_dag_epoch
    → IsSizedDag g
    → IsPrepared e.current_job (record e { dag_generator = g }, false)
failed-IsPrepared e g dag sized = record {
  job = refl;
  sized = sized;
  dag = dag;
  ready = λ t. absurd (ground (arith, t));
}

take_dag-IsPrepared :
    (e : MiningEngine) (g : DagGenerator) (initialized : Bool)
    → HasDag e.device_dag e.current_dag_epoch
    → IsSizedDag g
    → g.dag_size ≡ get_dataset_size e.current_job.epoch
    → dag_pointer g ≢ 0
    → IsPrepared e.current_job (take_dag e e.current_job.epoch g initialized)
unfolding take_dag
take_dag-IsPrepared e g true dag sized size present = record {
  job = refl;
  sized = free_host_memory-IsSizedDag g;
  dag = inr (dag_pointer g, ap (λ (n : ℕ). some (dag_pointer g, n)) size, present);
  ready = λ _. refl;
}
take_dag-IsPrepared e g false dag sized size present = failed-IsPrepared e g dag sized

use_dag-IsPrepared :
    (device : Device) (e : MiningEngine) (g : DagGenerator) (has_data : Bool)
    → HasDag e.device_dag e.current_dag_epoch
    → IsSizedDag g
    → (has_data ≡ true → g.dag_size ≡ get_dataset_size e.current_job.epoch)
    → After (IsPrepared e.current_job) (use_dag device e e.current_job.epoch g has_data)
unfolding use_dag
use_dag-IsPrepared device e g has_data dag sized size =
    let P = IsPrepared e.current_job in
    let kept : Option (MiningEngine × Bool) = some (record e { dag_generator = g }, false) in
    let taken : Option (MiningEngine × Bool) = device (dag_pointer g) g.dag_size >>= λ initialized.
    some (take_dag e e.current_job.epoch g initialized) in
    elim (Bool-cases (not has_data || g.dag_size == 0 || dag_pointer g == 0)) [
      | inl bad ↦ subst (After P) (sym (if-true kept taken bad)) (failed-IsPrepared e g dag sized)
      | inr good ↦ subst (After P) (sym (if-false kept taken good)) (
          After->>= (λ _. Unit {0}) P (device (dag_pointer g) g.dag_size) _
            (After-any (device (dag_pointer g) g.dag_size))
            (λ ok _. take_dag-IsPrepared e g ok dag sized (size (has good)) (present good)))
    ]
  where
    has : (not has_data || g.dag_size == 0 || dag_pointer g == 0) ≡ false → has_data ≡ true
    has e = ground (arith, e)

    present : (not has_data || g.dag_size == 0 || dag_pointer g == 0) ≡ false → dag_pointer g ≢ 0
    present e z = ground (arith, e, z)

after_dag-IsPrepared :
    (device : Device) (e : MiningEngine) (o : DagGenerator × Outcome)
    → HasDag e.device_dag e.current_dag_epoch
    → IsSizedResult e.current_job.epoch o
    → After (IsPrepared e.current_job) (after_dag device e e.current_job.epoch o)
unfolding after_dag
after_dag-IsPrepared device e (g, returned has_data) dag h =
    use_dag-IsPrepared device e g has_data dag h.0 h.1
after_dag-IsPrepared device e (g, thrown) dag h = tt
after_dag-IsPrepared device e (g, terminated) dag h = tt

prepared-IsMining :
    (job : MiningJob) (r : MiningEngine × Bool)
    → IsJob job
    → IsPrepared job r
    → IsMining (if r.1 then r.0 else record (r.0) { has_job = false })
prepared-IsMining job (f, true) h p = record {
  sized = p.sized;
  dag = p.dag;
  ready = λ _. record {
    epoch_is = p.ready refl ∙ ap (λ j. j.epoch) (sym p.job);
    is_job = subst IsJob (sym p.job) h;
  };
}
prepared-IsMining job (f, false) h p = record {
  sized = p.sized;
  dag = p.dag;
  ready = λ on. absurd (ground (arith, on));
}

pub on_job_received-IsMining :
    (device : Device) (calls : Calls) (e : MiningEngine) (job : MiningJob)
    → IsJob job
    → IsMining e
    → After IsMining (on_job_received device calls e job)
unfolding on_job_received initialize_dag
on_job_received-IsMining device calls e job h k =
    let given : MiningEngine = record e { current_job = job; has_job = true } in
    let keep : MiningEngine × Bool → Option MiningEngine =
      λ r. some (if r.1 then r.0 else record (r.0) { has_job = false }) in
    let renewed =
      after_dag device given job.epoch (generate calls e.dag_generator job.epoch true) >>= keep in
    elim (Bool-cases (job.epoch == e.current_dag_epoch)) [
      | inl same ↦ subst (After IsMining) (sym (if-true (some given) renewed same)) record {
        sized = k.sized;
        dag = k.dag;
        ready = λ _. record {
          epoch_is = sym ((==_iff job.epoch e.current_dag_epoch).0 same);
          is_job = h;
        };
      }
      | inr other ↦ subst (After IsMining) (sym (if-false (some given) renewed other)) (
          After->>= (IsPrepared job) IsMining _ keep
            (after_dag-IsPrepared device given (generate calls e.dag_generator job.epoch true) k.dag
              (generate-IsSizedResult calls e.dag_generator job.epoch true k.sized))
            (λ r p. prepared-IsMining job r h p))
    ]

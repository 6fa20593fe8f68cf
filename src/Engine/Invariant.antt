-- ===== src/Engine/Invariant.antt =====
-- The engine mines only with a DAG that was generated for the epoch of its job.
use ohmy_miner_etc.Common.{
  ℕ, suc, ◌≢◌, ◌≡◌, refl, ap, ◌∙◌, inl, inr, List, [], ◌∷◌, Bool, true, false, not, Option, none,
  some, arith, if◌then◌else◌, if-elim, ◌==◌, All, subst,
}
use ohmy_miner_etc.Types.{MiningJob, Solution}
use ohmy_miner_etc.Ethash.{get_dataset_size}
use ohmy_miner_etc.Dag.Size.{IsSizedDag}
use ohmy_miner_etc.Dag.{DagGenerator, Calls}
use ohmy_miner_etc.Stratum.{Client, Event, aborted, job_received, difficulty_changed}
use ohmy_miner_etc.Stratum.Json.{JsonLibrary}
use ohmy_miner_etc.Stratum.Notify.{process_messages}
use ohmy_miner_etc.Stratum.Notify.Jobs.{IsJob, IsJobEvent}
use ohmy_miner_etc.Stratum.Notify.Messages.{process_messages-IsProcessed}
use ohmy_miner_etc.Stratum.Session.{submit_solution}
use ohmy_miner_etc.Engine.{
  MiningEngine, new_engine, Device, on_job_received, first_target, update_target,
  on_difficulty_update, handle_events, Searcher, count_share, process_solutions, mine, mine_throws,
  iterate,
}
use ohmy_miner_etc.Engine.Difficulty.{debug_target}
use ohmy_miner_etc.Engine.Prepared.{IsMining, After, After->>=, on_job_received-IsMining}

-- The device has a DAG with an address and with the size of the dataset of the job's epoch, this is the
-- epoch that is kept, and the job is well-formed.
pub record IsDagOf (e : MiningEngine) : Type 0 where
  pub epoch : e.current_dag_epoch ≡ e.current_job.epoch
  pub job : IsJob e.current_job
  pub address : ℕ
  pub device : e.device_dag ≡ some (address, get_dataset_size e.current_job.epoch)
  pub not_null : address ≢ 0

first_target-IsMining :
    (e : MiningEngine) (difficulty : ℕ) (o : Option (List ℕ))
    → IsMining e
    → IsMining (first_target e difficulty o)
unfolding first_target
first_target-IsMining e difficulty none h = h
first_target-IsMining e difficulty (some target) h = h

update_target-IsMining :
    (env : Option (List ℕ)) (e : MiningEngine) (difficulty : ℕ) (o : Option Bool)
    → IsMining e
    → IsMining (update_target env e difficulty o)
unfolding update_target
update_target-IsMining env e difficulty none h =
    first_target-IsMining e difficulty (debug_target env) h
update_target-IsMining env e difficulty (some true) h = h
update_target-IsMining env e difficulty (some false) h = h

count_share-IsMining :
    (e : MiningEngine) (r : Client × Bool) → IsMining e → IsMining (count_share e r)
unfolding count_share
count_share-IsMining e (client, true) h = h
count_share-IsMining e (client, false) h = h

handle_events-IsMining :
    (device : Device) (calls : ℕ → Calls) (env : Option (List ℕ)) (e : MiningEngine)
    (events : List Event)
    → All IsJobEvent events
    → IsMining e
    → After IsMining (handle_events device calls env e events)
unfolding handle_events on_difficulty_update
handle_events-IsMining device calls env e [] hs h = h
handle_events-IsMining device calls env e (aborted ∷ events) hs h = tt
handle_events-IsMining device calls env e (job_received job ∷ events) hs h =
    After->>= IsMining IsMining (on_job_received device (calls 0) e job) _
      (on_job_received-IsMining device (calls 0) e job hs.0 h)
      (λ f k. handle_events-IsMining device (λ n. calls (suc n)) env f events hs.1 k)
handle_events-IsMining device calls env e (difficulty_changed difficulty ∷ events) hs h =
    let d : MiningEngine = record e { last_difficulty = difficulty } in
    handle_events-IsMining device (λ n. calls (suc n)) env
      (update_target env d difficulty e.debug_override) events hs.1
      (update_target-IsMining env d difficulty e.debug_override h)

module _ (J : JsonLibrary) (stale : List ℕ) where
  process_solutions-IsMining :
      (e : MiningEngine) (solutions : List Solution) (job_id : List ℕ)
      → IsMining e
      → IsMining (process_solutions J stale e solutions job_id)
  unfolding process_solutions
  process_solutions-IsMining e [] job_id h = h
  process_solutions-IsMining e (solution ∷ solutions) job_id h =
      let r = submit_solution J stale e.client (record solution { job_id = job_id }) in
      process_solutions-IsMining (count_share e r) solutions job_id (count_share-IsMining e r h)

  mine-IsMining :
      (searcher : Searcher) (e : MiningEngine) → IsMining e → IsMining (mine J stale searcher e)
  unfolding mine
  mine-IsMining searcher e h =
      let job = e.current_job in
      let found = searcher job.header_hash job.seed_hash e.current_target 0 10000000 in
      if-elim IsMining (not e.has_job) h (
        if-elim IsMining (e.last_difficulty == 0) h
          (process_solutions-IsMining (record e { last_logged = job.job_id }) found job.job_id h))

  iterate-IsMining :
      (device : Device) (calls : ℕ → Calls) (env : Option (List ℕ)) (searcher : Searcher)
      (due : Bool) (e : MiningEngine)
      → IsMining e
      → After IsMining (iterate J stale device calls env searcher due e)
  unfolding iterate
  iterate-IsMining device calls env searcher due e h =
      let r = process_messages J stale e.client in
      let given : MiningEngine = record e { client = r.0 } in
      After->>= IsMining IsMining (if due then handle_events device calls env given r.2 else some e)
        (λ f. if mine_throws J stale searcher f then none else some (mine J stale searcher f))
        (if-elim (After IsMining) due
          (handle_events-IsMining device calls env given r.2
            (process_messages-IsProcessed J stale e.client).events h)
          h)
        (λ f k.
          if-elim (After IsMining) (mine_throws J stale searcher f) tt (mine-IsMining searcher f k))

-- A new engine has no job.
pub new_engine-IsMining :
    (client : Client) (dag : DagGenerator) (job : MiningJob)
    → IsSizedDag dag
    → IsMining (new_engine client dag job)
unfolding new_engine
new_engine-IsMining client dag job sized = record {
  sized = sized;
  dag = inl refl;
  ready = λ on. absurd (ground (arith, on));
}

-- The engines that the loop of `run` can reach, whatever the pool, the device and the clock do, from
-- a new engine or any other that has no job, or has its DAG.
pub data Reached (J : JsonLibrary) (stale : List ℕ) : MiningEngine → Type 0 where
  started : (e : MiningEngine) → IsMining e → Reached J stale e
  iterated :
      (device : Device) (calls : ℕ → Calls) (env : Option (List ℕ)) (searcher : Searcher)
      (due : Bool) (e f : MiningEngine)
      → Reached J stale e
      → iterate J stale device calls env searcher due e ≡ some f
      → Reached J stale f

reached-IsMining :
    (J : JsonLibrary) (stale : List ℕ) (e : MiningEngine) → Reached J stale e → IsMining e
reached-IsMining J stale e (started _ h) = h
reached-IsMining J stale f (iterated device calls env searcher due e _ reached h) =
    subst (After IsMining) h (
      iterate-IsMining J stale device calls env searcher due e (reached-IsMining J stale e reached))

-- However often the mining loop of a new engine goes round, or of one that satisfies this already,
-- and whatever happens in it: when the engine has a job, the DAG that the device was given last has an
-- address and the size of the dataset of the epoch of that job, the epoch kept for it is that of
-- the job, and the job is well-formed, with an epoch below 2000 and the first block of that epoch.
pub reached-IsDagOf :
    (J : JsonLibrary) (stale : List ℕ) (e : MiningEngine)
    → Reached J stale e
    → e.has_job ≡ true
    → IsDagOf e
reached-IsDagOf J stale e reached on =
    let h = reached-IsMining J stale e reached in
    let ready = h.ready on in
    elim h.dag [
      | inl unset ↦ absurd (omega (arith, unset, ready.epoch_is, ready.is_job.epoch_range))
      | inr (address, device, present) ↦ record {
        epoch = ready.epoch_is;
        job = ready.is_job;
        address = address;
        device = device ∙ ap (λ (n : ℕ). some (address, get_dataset_size n)) ready.epoch_is;
        not_null = present;
      }
    ]

-- ===== src/Engine.antt =====
-- src/core/mining_engine.cpp and src/utils/difficulty.cpp: the mining engine. The search of the device
-- manager is CUDA code, and a parameter; `none` is an exception that `main` catches,
-- or the end of the process.
pub mod Difficulty
pub mod Prepared
pub mod Invariant
pub mod Shares
pub mod Mining
pub mod Tests
use ohmy_miner_etc.Common.{
  ℕ, zero, suc, ◌+◌, ◌*◌, List, [], ◌∷◌, ◌++◌, Bool, true, false, not, ◌&&◌, ◌||◌, Option, none,
  some, if◌then◌else◌, ltb, ◌==◌, list_eq, u32, u64, max_u32, replicate, ◌>>=◌,
}
use ohmy_miner_etc.Types.{MiningJob, Solution}
use ohmy_miner_etc.Dag.{
  DagGenerator, Outcome, returned, thrown, terminated, Calls, generate, free_host_memory,
}
use ohmy_miner_etc.Stratum.{Client, Event, aborted, job_received, difficulty_changed}
use ohmy_miner_etc.Stratum.Json.{JsonLibrary}
use ohmy_miner_etc.Stratum.Notify.{process_messages}
use ohmy_miner_etc.Stratum.Session.{submit_solution, submit_throws, is_connected}
use ohmy_miner_etc.Engine.Difficulty.{target_from_difficulty, debug_target}

-- `debug_override` is the pair of statics of `onDifficultyUpdate`: `none` before the first call, and then
-- whether the environment gave a target. `last_logged` is the job that was logged last. `device_dag` is
-- the address and the size that the device manager was last given.
pub record MiningEngine : Type 0 where
  pub client : Client
  pub dag_generator : DagGenerator
  pub has_job : Bool
  pub current_job : MiningJob
  pub current_target : List ℕ
  pub last_difficulty : ℕ
  pub current_dag_epoch : ℕ
  pub device_dag : Option (ℕ × ℕ)
  pub accepted_shares : ℕ
  pub rejected_shares : ℕ
  pub last_logged : List ℕ
  pub debug_override : Option Bool

pub new_engine : Client → DagGenerator → MiningJob → MiningEngine
new_engine client dag job = record {
  client = client;
  dag_generator = dag;
  has_job = false;
  current_job = job;
  current_target = replicate 32 255;
  last_difficulty = 0;
  current_dag_epoch = max_u32;
  device_dag = none;
  accepted_shares = 0;
  rejected_shares = 0;
  last_logged = [];
  debug_override = none;
}

-- `initDeviceZeroCopy` on the address and the size of the DAG: what it returns, or `none` when it
-- throws.
abbrev pub Device : Type 0
Device = ℕ → ℕ → Option Bool

pub dag_pointer : DagGenerator → ℕ
dag_pointer g = elim g.d_dag [ none ↦ 0 | some address ↦ address ]

pub take_dag : MiningEngine → ℕ → DagGenerator → Bool → MiningEngine × Bool
unfolding dag_pointer
take_dag e epoch g initialized =
    if initialized
    then (
      record e {
        dag_generator = free_host_memory g;
        current_dag_epoch = epoch;
        device_dag = some (dag_pointer g, g.dag_size);
      },
      true,
    )
    else (record e { dag_generator = g }, false)

pub use_dag : Device → MiningEngine → ℕ → DagGenerator → Bool → Option (MiningEngine × Bool)
unfolding dag_pointer take_dag
use_dag device e epoch g has_data =
    let kept : MiningEngine = record e { dag_generator = g } in
    if not has_data || g.dag_size == 0 || dag_pointer g == 0
    then some (kept, false)
    else (device (dag_pointer g) g.dag_size >>= λ initialized.
        some (take_dag e epoch g initialized))

pub after_dag : Device → MiningEngine → ℕ → DagGenerator × Outcome → Option (MiningEngine × Bool)
unfolding use_dag
after_dag device e epoch (g, returned has_data) = use_dag device e epoch g has_data
after_dag device e epoch (g, thrown) = none
after_dag device e epoch (g, terminated) = none

pub initialize_dag : Device → Calls → MiningEngine → ℕ → Option (MiningEngine × Bool)
unfolding after_dag
initialize_dag device calls e epoch =
    after_dag device e epoch (generate calls e.dag_generator epoch true)

pub on_job_received : Device → Calls → MiningEngine → MiningJob → Option MiningEngine
unfolding initialize_dag
on_job_received device calls e job =
    let given : MiningEngine = record e { current_job = job; has_job = true } in
    if job.epoch == e.current_dag_epoch
    then some given
    else (initialize_dag device calls given job.epoch >>= λ r.
        some (if r.1 then r.0 else record (r.0) { has_job = false }))

pub first_target : MiningEngine → ℕ → Option (List ℕ) → MiningEngine
first_target e difficulty none = record e {
  current_target = target_from_difficulty difficulty;
  debug_override = some false;
}
first_target e difficulty (some target) = record e {
  current_target = target;
  debug_override = some true;
}

-- `env` is `OHMY_DEBUG_TARGET_HEX`, which is read on the first call only.
pub update_target : Option (List ℕ) → MiningEngine → ℕ → Option Bool → MiningEngine
unfolding first_target
update_target env e difficulty none = first_target e difficulty (debug_target env)
update_target env e difficulty (some true) = e
update_target env e difficulty (some false) = record e {
  current_target = target_from_difficulty difficulty;
}

pub on_difficulty_update : Option (List ℕ) → MiningEngine → ℕ → MiningEngine
unfolding update_target
on_difficulty_update env e difficulty =
    update_target env (record e { last_difficulty = difficulty }) difficulty e.debug_override

-- The callbacks of a batch of messages, in order; each DAG has its own calls of CUDA.
pub handle_events :
    Device → (ℕ → Calls) → Option (List ℕ) → MiningEngine → List Event → Option MiningEngine
unfolding on_job_received on_difficulty_update
handle_events device calls env e [] = some e
handle_events device calls env e (aborted ∷ events) = none
handle_events device calls env e (job_received job ∷ events) =
    on_job_received device (calls 0) e job >>= λ f.
    handle_events device (λ n. calls (suc n)) env f events
handle_events device calls env e (difficulty_changed difficulty ∷ events) =
    handle_events device (λ n. calls (suc n)) env (on_difficulty_update env e difficulty) events

-- The search of the device: header hash, seed hash, target, first nonce and number of nonces.
abbrev pub Searcher : Type 0
Searcher = List ℕ → List ℕ → List ℕ → ℕ → ℕ → List Solution

-- The answer of the pool to a share.
pub count_share : MiningEngine → Client × Bool → MiningEngine
count_share e (client, true) = record e {
  client = client;
  accepted_shares = u32 (e.accepted_shares + 1);
}
count_share e (client, false) = record e {
  client = client;
  rejected_shares = u32 (e.rejected_shares + 1);
}

module _ (J : JsonLibrary) (stale : List ℕ) where
  -- Where `submit_throws` of a submission holds, the code leaves the loop with the exception.
  pub process_solutions : MiningEngine → List Solution → List ℕ → MiningEngine
  unfolding count_share
  process_solutions e [] job_id = e
  process_solutions e (solution ∷ solutions) job_id =
      process_solutions
        (count_share e (submit_solution J stale e.client (record solution { job_id = job_id })))
        solutions job_id

  -- The part of an iteration that mines, where no submission throws (`mine_throws`): nothing without a
  -- job or a difficulty.
  pub mine : Searcher → MiningEngine → MiningEngine
  unfolding process_solutions
  mine searcher e =
      let job = e.current_job in
      let found = searcher job.header_hash job.seed_hash e.current_target 0 10000000 in
      if not e.has_job
      then e
      else if e.last_difficulty == 0
      then e
      else process_solutions (record e { last_logged = job.job_id }) found job.job_id

  -- Whether the submission of a solution throws, which nothing before `main` catches: for a worker or a
  -- job id that is not UTF-8, and so at the first solution or at none.
  pub first_throws : MiningEngine → List Solution → Bool
  first_throws e [] = false
  first_throws e (solution ∷ solutions) =
      submit_throws J stale e.client (record solution { job_id = e.current_job.job_id })

  pub mine_throws : Searcher → MiningEngine → Bool
  unfolding first_throws
  mine_throws searcher e =
      let job = e.current_job in
      let found = searcher job.header_hash job.seed_hash e.current_target 0 10000000 in
      e.has_job && not (e.last_difficulty == 0) && first_throws e found

  -- One iteration of the loop of `run` at a connected client; `due` is whether 100 ms have passed.
  pub iterate :
      Device → (ℕ → Calls) → Option (List ℕ) → Searcher → Bool → MiningEngine → Option MiningEngine
  unfolding handle_events mine mine_throws
  iterate device calls env searcher due e =
      let r = process_messages J stale e.client in
      (if due then handle_events device calls env (record e { client = r.0 }) r.2 else some e)
      >>= λ f. if mine_throws searcher f then none else some (mine searcher f)

-- The rate of a device in MH/s and the seconds since the start give the statistics.
pub total_hashes : ℕ → ℕ → ℕ
total_hashes device_hashrate elapsed = u64 (device_hashrate * elapsed)

pub hash_rate : ℕ → ℕ
hash_rate device_hashrate = u64 (device_hashrate * 1000000)

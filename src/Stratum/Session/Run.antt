-- ===== src/Stratum/Session/Run.antt =====
-- Whole sessions: the client from its construction through any sequence of calls.
use ohmy_miner_etc.Common.{
  ℕ, suc, ◌+◌, ◌*◌, ◌≤◌, ◌≡◌, refl, List, Bool, Option, none, some, true, false, if-elim, arith,
  max_u64, subst, >>=-eq-some,
}
use ohmy_miner_etc.Types.{MiningJob, Solution}
use ohmy_miner_etc.Stratum.{Client, Received, new_client, set_on_job, set_on_difficulty, disconnect}
use ohmy_miner_etc.Stratum.Json.{JsonLibrary}
use ohmy_miner_etc.Stratum.Notify.{process_messages}
use ohmy_miner_etc.Stratum.Address.{parse_address}
use ohmy_miner_etc.Stratum.Session.{
  Dial, connect, subscribe_pool, authorize_worker, submit_solution,
}
use ohmy_miner_etc.Stratum.Session.Requests.{IsNumbered}
use ohmy_miner_etc.Stratum.Session.Numbered.{
  Numbers, same, more, submit_solution-Numbers, process_messages-Numbers, subscribe_pool-Numbers,
  authorize_worker-Numbers, settle-Numbers,
}

-- The clients that a number of calls can reach, with whatever the network and the socket do.
pub data Run (J : JsonLibrary) (stale : List ℕ) : ℕ → Client → Type 0 where
  started :
      (url wallet : List ℕ) (job : MiningJob) (answers : List Received) (deliveries : List Bool)
      → Run J stale 0 (new_client url wallet job answers deliveries)
  connected :
      (calls : ℕ) (c d : Client) (ok : Bool) (dial : List ℕ → ℕ → Dial)
      → Run J stale calls c
      → connect dial c ≡ some (d, ok)
      → Run J stale (suc calls) d
  disconnected :
      (calls : ℕ) (c : Client) → Run J stale calls c → Run J stale (suc calls) (disconnect c)
  subscribed :
      (calls : ℕ) (c : Client)
      → Run J stale calls c
      → Run J stale (suc calls) (subscribe_pool J stale c).0
  authorized :
      (calls : ℕ) (c : Client) (env : Option ℕ) (worker_name : List ℕ)
      → Run J stale calls c
      → Run J stale (suc calls) (authorize_worker J stale env c worker_name).0
  heard_jobs :
      (calls : ℕ) (c : Client) → Run J stale calls c → Run J stale (suc calls) (set_on_job c)
  heard_difficulties :
      (calls : ℕ) (c : Client) → Run J stale calls c → Run J stale (suc calls) (set_on_difficulty c)
  processed :
      (calls : ℕ) (c : Client)
      → Run J stale calls c
      → Run J stale (suc calls) (process_messages J stale c).0
  submitted :
      (calls : ℕ) (c : Client) (solution : Solution)
      → Run J stale calls c
      → Run J stale (suc calls) (submit_solution J stale c solution).0

disconnect-Numbers : (c : Client) → Numbers 0 c (disconnect c)
unfolding disconnect
disconnect-Numbers c =
    if-elim (Numbers 0 c) c.open_socket
      (same c (record c { open_socket = false; connected = false }) refl refl) (same c c refl refl)

set_on_job-Numbers : (c : Client) → Numbers 0 c (set_on_job c)
unfolding set_on_job
set_on_job-Numbers c = same c (record c { on_job = true }) refl refl

set_on_difficulty-Numbers : (c : Client) → Numbers 0 c (set_on_difficulty c)
unfolding set_on_difficulty
set_on_difficulty-Numbers c = same c (record c { on_difficulty = true }) refl refl

-- The outcome of a call that may throw.
abbrev After : (Client → Type 0) → Option (Client × Bool) → Type 0
After P none = Unit
After P (some r) = P r.0

connect-Numbers :
    (c d : Client) (ok : Bool) (dial : List ℕ → ℕ → Dial)
    → connect dial c ≡ some (d, ok)
    → Numbers 0 c d
unfolding connect
connect-Numbers c d ok dial h =
    let (address, _, k) = >>=-eq-some (parse_address c.pool_url) _ h in
    subst (After (Numbers 0 c)) k (settle-Numbers c (dial address.0 address.1))

-- The state after a number of calls: the ids of the requests sent, and the counter, which is at most
-- two further for each call.
IsRun : ℕ → Client → Type 0
IsRun calls c = IsNumbered c × (c.message_id ≤ 1 + 2 * calls)

next_call :
    (calls : ℕ) (c d : Client)
    → (1 + 2 * suc calls ≤ max_u64)
    → Numbers 2 c d
    → (1 + 2 * calls ≤ max_u64 → IsRun calls c)
    → IsRun (suc calls) d
unfolding IsRun
next_call calls c d le n h =
    let r = h (omega arith) in let s = n (omega (arith, r.1)) r.0 in (s.0, omega (arith, r.1, s.1))

-- In a session of at most 2^63 - 1 calls, in any order, whatever the network does and the pool
-- answers, the requests that went out have distinct ids: each has a greater id than the ones before
-- it, all are below the counter, and the counter has not wrapped around.
pub run-IsNumbered :
    (J : JsonLibrary) (stale : List ℕ) (calls : ℕ) (c : Client)
    → Run J stale calls c
    → 1 + 2 * calls ≤ max_u64
    → IsNumbered c × (c.message_id ≤ 1 + 2 * calls)
unfolding IsRun
run-IsNumbered J stale _ _ (started url wallet job answers deliveries) le =
    unfold new_client in (tt, omega arith)
run-IsNumbered J stale _ _ (connected calls c d ok dial run h) le =
    next_call calls c d le (more 0 2 c d (omega arith) (connect-Numbers c d ok dial h))
      (run-IsNumbered J stale calls c run)
run-IsNumbered J stale _ _ (disconnected calls c run) le =
    next_call calls c (disconnect c) le
      (more 0 2 c (disconnect c) (omega arith) (disconnect-Numbers c))
      (run-IsNumbered J stale calls c run)
run-IsNumbered J stale _ _ (subscribed calls c run) le =
    let d = (subscribe_pool J stale c).0 in
    next_call calls c d le (more 1 2 c d (omega arith) (subscribe_pool-Numbers J stale c))
      (run-IsNumbered J stale calls c run)
run-IsNumbered J stale _ _ (authorized calls c env worker_name run) le =
    next_call calls c (authorize_worker J stale env c worker_name).0 le
      (authorize_worker-Numbers J stale env c worker_name) (run-IsNumbered J stale calls c run)
run-IsNumbered J stale _ _ (heard_jobs calls c run) le =
    next_call calls c (set_on_job c) le
      (more 0 2 c (set_on_job c) (omega arith) (set_on_job-Numbers c))
      (run-IsNumbered J stale calls c run)
run-IsNumbered J stale _ _ (heard_difficulties calls c run) le =
    next_call calls c (set_on_difficulty c) le
      (more 0 2 c (set_on_difficulty c) (omega arith) (set_on_difficulty-Numbers c))
      (run-IsNumbered J stale calls c run)
run-IsNumbered J stale _ _ (processed calls c run) le =
    let d = (process_messages J stale c).0 in
    next_call calls c d le (more 0 2 c d (omega arith) (process_messages-Numbers J stale c))
      (run-IsNumbered J stale calls c run)
run-IsNumbered J stale _ _ (submitted calls c solution run) le =
    let d = (submit_solution J stale c solution).0 in
    next_call calls c d le (more 1 2 c d (omega arith) (submit_solution-Numbers J stale c solution))
      (run-IsNumbered J stale calls c run)

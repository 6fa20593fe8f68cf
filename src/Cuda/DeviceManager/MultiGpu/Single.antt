-- ===== src/Cuda/DeviceManager/MultiGpu/Single.antt =====
-- The multi-GPU mode: the calls of a manager, in any order, never switch it on.
use ohmy_miner_etc.Common.{
  ℕ, ◌≡◌, refl, sym, ap, ◌∙◌, List, [], ◌∷◌, false, Option, none, some, arith, ◌>>=◌, >>=-eq-some,
  not, Bool-cases, inl, inr,
}
use ohmy_miner_etc.Types.{Solution}
use ohmy_miner_etc.Pipeline.{Buffers, PipelineManager, initialize}
use ohmy_miner_etc.Executor.{Kernel, EventStatus, Search}
use mathlib.Core.Option.{some-injective}
use ohmy_miner_etc.Cuda.DeviceManager.{
  Card, DeviceManager, new_manager, finish_init, init_device_zero_copy, set_mining_job_context,
  launch_and_read, search_sync, search_now, after_tick, search_async,
}
use ohmy_miner_etc.Cuda.DeviceManager.MultiGpu.{
  init_all, init_device_with_multi_gpu, get_device_count, is_device_initialized, search_device,
  start_mining_all_devices, stop_all_mining,
}

-- A call of a method, with its arguments and what the card and the environment do in it.
pub data Call : Type 0 where
  init_zero_copy :
      (fresh : Buffers) (budget : ℕ) (env : Option ℕ) (free_mem stream d_dag dag_size : ℕ) → Call
  set_context : (job_id : List ℕ) (epoch : ℕ) → Call
  sync : (header seed target : List ℕ) (start count : ℕ) (solutions : List Solution) → Call
  async :
      (status : EventStatus) (header seed target : List ℕ) (start count : ℕ)
      (solutions : List Solution)
      → Call
  init_every : (budgets : ℕ → ℕ) (device_count dag_size : ℕ) → Call
  init_one : (budget device_id dag_size : ℕ) → Call
  on_device :
      (device_id : Option ℕ) (header seed target : List ℕ) (solutions : List Solution) → Call
  start_all : (header seed target : List ℕ) → Call
  stop_all : Call

-- The manager after a call; `none` is an exception, or a call that does not return.
unfoldable pub apply : Kernel → Card → DeviceManager → Call → Option DeviceManager
apply kernel card m (init_zero_copy fresh budget env free_mem stream d_dag dag_size) =
    some (init_device_zero_copy fresh budget env free_mem stream m d_dag dag_size).0
apply kernel card m (set_context job_id epoch) = some (set_mining_job_context m job_id epoch)
apply kernel card m (sync header seed target start count solutions) =
    some (search_now card m header seed target start count solutions).0
apply kernel card m (async status header seed target start count solutions) =
    search_async kernel card status m header seed target start count solutions >>= λ r. some r.0
apply kernel card m (init_every budgets device_count dag_size) =
    some (init_all budgets m device_count dag_size).0
apply kernel card m (init_one budget device_id dag_size) =
    some (init_device_with_multi_gpu budget m device_id dag_size).0
apply kernel card m (on_device device_id header seed target solutions) =
    some (search_device card m device_id header seed target solutions).0
apply kernel card m (start_all header seed target) = start_mining_all_devices m header seed target
apply kernel card m stop_all = some (stop_all_mining m)

unfoldable pub run : Kernel → Card → List Call → DeviceManager → Option DeviceManager
unfolding apply
run kernel card [] m = some m
run kernel card (c ∷ calls) m = apply kernel card m c >>= run kernel card calls

finish_init-mode :
    (stream : ℕ) (m : DeviceManager) (r : PipelineManager × Option ℕ)
    → (finish_init stream m r).0.is_multi_gpu_mode ≡ m.is_multi_gpu_mode
unfolding finish_init
finish_init-mode stream m (p, none) = refl
finish_init-mode stream m (p, some n) = refl

search_sync-mode :
    (card : Card) (m : DeviceManager) (header seed target : List ℕ) (start count : ℕ)
    (solutions : List Solution)
    → (search_sync card m header seed target start count solutions).0.is_multi_gpu_mode
      ≡ m.is_multi_gpu_mode
unfolding search_sync launch_and_read
search_sync-mode card m header seed target start count solutions = ground arith

abbrev Outcome : Type 0
Outcome = DeviceManager × ℕ × List Solution

after_tick-mode :
    (m : DeviceManager) (count : ℕ) (r : Search × ℕ)
    → (after_tick m count r).0.is_multi_gpu_mode ≡ m.is_multi_gpu_mode
unfolding after_tick
after_tick-mode m count (s, found) = refl

search_async-mode :
    (kernel : Kernel) (card : Card) (status : EventStatus) (m : DeviceManager)
    (header seed target : List ℕ) (start count : ℕ) (solutions : List Solution) (r : Outcome)
    → search_async kernel card status m header seed target start count solutions ≡ some r
    → r.0.is_multi_gpu_mode ≡ m.is_multi_gpu_mode
unfolding search_async search_now
search_async-mode kernel card status m header seed target start count solutions r e =
    elim (Bool-cases (not m.pipeline_initialized)) [
      | inl off ↦
          sym (ap (λ (o : Outcome). o.0.is_multi_gpu_mode) (some-injective _ _ (rw off at e)))
          ∙ search_sync-mode card m header seed target start count solutions
      | inr on ↦
          let t = >>=-eq-some _ (λ x. some (after_tick m count x)) (rw on at e) in
          sym (ap (λ (o : Outcome). o.0.is_multi_gpu_mode) (some-injective _ _ t.2))
          ∙ after_tick-mode m count t.0
    ]

-- A manager that is the outcome of a call.
same-mode :
    (m m' : DeviceManager)
    → some m ≡ some m'
    → m.is_multi_gpu_mode ≡ false
    → m'.is_multi_gpu_mode ≡ false
same-mode m m' e h =
    sym (ap (λ (x : DeviceManager). x.is_multi_gpu_mode) (some-injective _ _ e)) ∙ h

-- Off stays off, whatever the call.
apply-off :
    (kernel : Kernel) (card : Card) (m m' : DeviceManager) (c : Call)
    → m.is_multi_gpu_mode ≡ false
    → apply kernel card m c ≡ some m'
    → m'.is_multi_gpu_mode ≡ false
unfolding apply init_device_zero_copy set_mining_job_context search_now init_all
    init_device_with_multi_gpu search_device start_mining_all_devices stop_all_mining
apply-off kernel card m m' (init_zero_copy fresh budget env free_mem stream d_dag dag_size) h e =
    same-mode _ m' e (
      finish_init-mode stream (record m { d_dag = d_dag; dag_size = dag_size })
        (initialize fresh budget env m.pipeline free_mem)
      ∙ h)
apply-off kernel card m m' (set_context job_id epoch) h e = ground arith
apply-off kernel card m m' (sync header seed target start count solutions) h e =
    same-mode _ m' e (search_sync-mode card m header seed target start count solutions ∙ h)
apply-off kernel card m m' (async status header seed target start count solutions) h e =
    let t = >>=-eq-some _ (λ (r : Outcome). some r.0) e in
    same-mode _ m' t.2
      (search_async-mode kernel card status m header seed target start count solutions t.0 t.1 ∙ h)
apply-off kernel card m m' (init_every budgets device_count dag_size) h e = ground arith
apply-off kernel card m m' (init_one budget device_id dag_size) h e = ground arith
apply-off kernel card m m' (on_device none header seed target solutions) h e = ground arith
apply-off kernel card m m' (on_device (some id) header seed target solutions) h e = ground arith
apply-off kernel card m m' (start_all header seed target) h e = ground arith
apply-off kernel card m m' stop_all h e = ground arith

run-off :
    (kernel : Kernel) (card : Card) (calls : List Call) (m m' : DeviceManager)
    → m.is_multi_gpu_mode ≡ false
    → run kernel card calls m ≡ some m'
    → m'.is_multi_gpu_mode ≡ false
unfolding run
run-off kernel card [] m m' h e = same-mode m m' e h
run-off kernel card (c ∷ calls) m m' h e =
    let t = >>=-eq-some (apply kernel card m c) (run kernel card calls) e in
    run-off kernel card calls t.0 m' (apply-off kernel card m t.0 c h t.1) t.2

-- After any calls of a manager, in any order and with any outcome of the card, the initialization of
-- all devices and of single ones included: the manager reports no device, each device as not
-- initialized, a search on a device finds nothing and changes nothing, and starting and stopping the
-- mining threads do nothing, since nothing ever switches the multi-GPU mode on.
pub run-IsSingle :
    (kernel : Kernel) (card : Card) (calls : List Call) (m : DeviceManager)
    → run kernel card calls new_manager ≡ some m
    → (device_id : ℕ) (header seed target : List ℕ) (solutions : List Solution)
    → (get_device_count m ≡ 0)
      × (is_device_initialized m device_id ≡ false)
      × (search_device card m (some device_id) header seed target solutions ≡ (m, 0, solutions))
      × (start_mining_all_devices m header seed target ≡ some m)
      × (stop_all_mining m ≡ m)
unfolding get_device_count is_device_initialized search_device start_mining_all_devices
    stop_all_mining
run-IsSingle kernel card calls m e device_id header seed target solutions =
    let off = run-off kernel card calls new_manager m (unfold new_manager in refl) e in
    rw off (refl, refl, refl, refl, refl)

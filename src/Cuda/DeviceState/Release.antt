-- ===== src/Cuda/DeviceState/Release.antt =====
-- What `initDevice` and `cleanup` leave on the card.
use native.Mathlib.Decide.{dec_lt}
use ohmy_miner_etc.Common.{
  ℕ, zero, suc, ◌-◌, ◌<◌, ◌≤◌, ◌≡◌, refl, ap, ◌∙◌, List, [], ◌∷◌, Bool, true, false, not, subst,
  ◌&&◌, arith, foldl, if◌then◌else◌, leb, ◌==◌, All,
}
use ohmy_miner_etc.Cuda.DeviceState.{
  Resource, d_dag, d_header, d_seed_hash, d_target, d_solutions, d_solution_count, stream_compute,
  stream_memory, stream_io, start_event, stop_event, memory_done_event, kernel_done_event,
  results_done_event, DeviceState, new_state, is_same, acquire, release, perform, perform_all,
  released, stop_thread, cleanup, init_device,
}

-- A table of the first values of a test.
abbrev passes : (ℕ → Bool) → ℕ → Bool
passes test zero = true
passes test (suc last) = if test last then passes test last else false

passes-at : (test : ℕ → Bool) (size i : ℕ) → i < size → passes test size ≡ true → test i ≡ true
passes-at test zero i below all = absurd (omega arith)
passes-at test (suc last) i below all =
    let earlier : i < last → passes test last ≡ true → test i ≡ true = passes-at test last i in
    ground (arith, earlier)

-- A handle that is null stays null, and one that is released becomes null.
release-held : (s : DeviceState) (r x : Resource) → s.held x ≡ false → (release s r).held x ≡ false
unfolding release is_same
release-held s r x h = ground (arith, h)

release-null : (s : DeviceState) (r : Resource) → (release s r).held r ≡ false
unfolding release is_same
release-null s r = ground arith

released-held :
    (rs : List Resource) (s : DeviceState) (x : Resource)
    → s.held x ≡ false
    → (foldl release s rs).held x ≡ false
released-held [] s x h = h
released-held (r ∷ rs) s x h = released-held rs (release s r) x (release-held s r x h)

released-null :
    (rs : List Resource) (s : DeviceState) → All (λ x. (foldl release s rs).held x ≡ false) rs
released-null [] s = tt
released-null (r ∷ rs) s =
    (released-held rs (release s r) r (release-null s r), released-null rs (release s r))

release-idle : (s : DeviceState) (r : Resource) → s.held r ≡ false → release s r ≡ s
unfolding release
release-idle s r h = rw h refl

releases-idle :
    (rs : List Resource) (s : DeviceState) → All (λ x. s.held x ≡ false) rs → foldl release s rs ≡ s
releases-idle [] s h = refl
releases-idle (r ∷ rs) s h =
    ap (λ t. foldl release t rs) (release-idle s r h.0) ∙ releases-idle rs s h.1

release-thread : (s : DeviceState) (r : Resource) → (release s r).mining_thread ≡ s.mining_thread
unfolding release
release-thread s r = ground arith

releases-thread :
    (rs : List Resource) (s : DeviceState) → (foldl release s rs).mining_thread ≡ s.mining_thread
releases-thread [] s = refl
releases-thread (r ∷ rs) s = releases-thread rs (release s r) ∙ release-thread s r

stop_thread-thread : (s : DeviceState) → (stop_thread s).mining_thread ≡ false
unfolding stop_thread
stop_thread-thread s = ground arith

stop_thread-idle : (s : DeviceState) → s.mining_thread ≡ false → stop_thread s ≡ s
unfolding stop_thread
stop_thread-idle s h = rw h refl

cleanup-thread : (s : DeviceState) → (cleanup s).mining_thread ≡ false
unfolding cleanup
cleanup-thread s = releases-thread released (stop_thread s) ∙ stop_thread-thread s

cleanup-null : (s : DeviceState) → All (λ x. (cleanup s).held x ≡ false) released
unfolding cleanup
cleanup-null s = released-null released (stop_thread s)

mark_released : DeviceState → DeviceState
mark_released s = record s { initialized = false }

cleanup-parts :
    (s : DeviceState) → cleanup s ≡ mark_released (foldl release (stop_thread s) released)
unfolding cleanup mark_released
cleanup-parts s = refl

mark_released-cleanup : (s : DeviceState) → mark_released (cleanup s) ≡ cleanup s
unfolding cleanup mark_released
mark_released-cleanup s = refl

-- Cleaning up twice is cleaning up once, as the header of DeviceState promises.
pub cleanup-cleanup : (s : DeviceState) → cleanup (cleanup s) ≡ cleanup s
cleanup-cleanup s =
    cleanup-parts (cleanup s)
    ∙ ap (λ t. mark_released (foldl release t released))
        (stop_thread-idle (cleanup s) (cleanup-thread s))
    ∙ ap mark_released (releases-idle released (cleanup s) (cleanup-null s))
    ∙ mark_released-cleanup s

-- The two buffers of solutions are not among what `cleanup` frees.
pub leaked : ℕ → Resource → ℕ
leaked calls d_solutions = if leb 7 calls then 1 else 0
leaked calls d_solution_count = if leb 8 calls then 1 else 0
leaked calls _ = 0

abbrev outcome : ℕ → ℕ → ℕ → DeviceState × Bool
outcome budget id dag_size = init_device budget (new_state id dag_size)

-- A failure in one of the calls: not initialized, and only those buffers are left.
as_told : ℕ → ℕ → Resource → ℕ → Bool
as_told id dag_size r budget =
    let o = outcome budget id dag_size in
    not o.1
    && not (o.0).initialized
    && (o.0).live r == leaked budget r
    && (cleanup o.0).live r == leaked budget r

as_told_table : (id dag_size : ℕ) (r : Resource) → passes (as_told id dag_size r) 16 ≡ true
unfolding as_told init_device perform_all perform acquire cleanup release stop_thread new_state
    is_same leaked
as_told_table id dag_size d_dag = refl
as_told_table id dag_size d_header = refl
as_told_table id dag_size d_seed_hash = refl
as_told_table id dag_size d_target = refl
as_told_table id dag_size d_solutions = refl
as_told_table id dag_size d_solution_count = refl
as_told_table id dag_size stream_compute = refl
as_told_table id dag_size stream_memory = refl
as_told_table id dag_size stream_io = refl
as_told_table id dag_size start_event = refl
as_told_table id dag_size stop_event = refl
as_told_table id dag_size memory_done_event = refl
as_told_table id dag_size kernel_done_event = refl
as_told_table id dag_size results_done_event = refl

failed-init_device :
    (budget id dag_size : ℕ) (r : Resource)
    → budget < 16
    → ((outcome budget id dag_size).1 ≡ false)
      × ((outcome budget id dag_size).0.initialized ≡ false)
      × ((outcome budget id dag_size).0.live r ≡ leaked budget r)
      × ((cleanup (outcome budget id dag_size).0).live r ≡ leaked budget r)
unfolding as_told
failed-init_device budget id dag_size r h =
    let t = passes-at (as_told id dag_size r) 16 budget h (as_told_table id dag_size r) in
    (ground (arith, t), ground (arith, t), ground (arith, t), ground (arith, t))

-- Sixteen calls and more.
abbrev beyond : ℕ → ℕ
beyond k =
    suc (suc (suc (suc (suc (suc (suc (suc (suc (suc (suc (suc (suc (suc (suc (suc k)))))))))))))))

abbrev IsReady : DeviceState × Bool → Resource → Type 0
IsReady o r =
    (o.1 ≡ true)
    × (o.0.initialized ≡ true)
    × (o.0.live r ≡ 1)
    × ((cleanup o.0).live r ≡ leaked 16 r)

beyond-IsReady : (k id dag_size : ℕ) (r : Resource) → IsReady (outcome (beyond k) id dag_size) r
unfolding init_device perform_all perform acquire cleanup release stop_thread new_state is_same
    leaked
beyond-IsReady k id dag_size d_dag = (refl, refl, refl, refl)
beyond-IsReady k id dag_size d_header = (refl, refl, refl, refl)
beyond-IsReady k id dag_size d_seed_hash = (refl, refl, refl, refl)
beyond-IsReady k id dag_size d_target = (refl, refl, refl, refl)
beyond-IsReady k id dag_size d_solutions = (refl, refl, refl, refl)
beyond-IsReady k id dag_size d_solution_count = (refl, refl, refl, refl)
beyond-IsReady k id dag_size stream_compute = (refl, refl, refl, refl)
beyond-IsReady k id dag_size stream_memory = (refl, refl, refl, refl)
beyond-IsReady k id dag_size stream_io = (refl, refl, refl, refl)
beyond-IsReady k id dag_size start_event = (refl, refl, refl, refl)
beyond-IsReady k id dag_size stop_event = (refl, refl, refl, refl)
beyond-IsReady k id dag_size memory_done_event = (refl, refl, refl, refl)
beyond-IsReady k id dag_size kernel_done_event = (refl, refl, refl, refl)
beyond-IsReady k id dag_size results_done_event = (refl, refl, refl, refl)

leaked-all : (budget : ℕ) (r : Resource) → 16 ≤ budget → leaked 16 r ≡ leaked budget r
unfolding leaked
leaked-all budget d_dag h = refl
leaked-all budget d_header h = refl
leaked-all budget d_seed_hash h = refl
leaked-all budget d_target h = refl
leaked-all budget d_solutions h = ground arith
leaked-all budget d_solution_count h = ground arith
leaked-all budget stream_compute h = refl
leaked-all budget stream_memory h = refl
leaked-all budget stream_io h = refl
leaked-all budget start_event h = refl
leaked-all budget stop_event h = refl
leaked-all budget memory_done_event h = refl
leaked-all budget kernel_done_event h = refl
leaked-all budget results_done_event h = refl

-- initDevice makes sixteen CUDA calls. When the first that fails comes after fewer: it returns false
-- with the device not initialized, and all that was made is released, but for the buffer of solutions
-- and the count, which stay on the card if they were made. When none fails: it returns true with the
-- device initialized and one object for each handle. A cleanup afterwards leaves the same two.
pub init_device-leaked :
    (budget id dag_size : ℕ) (r : Resource)
    → ((init_device budget (new_state id dag_size)).1 ≡ leb 16 budget)
      × ((init_device budget (new_state id dag_size)).0.initialized ≡ leb 16 budget)
      × ((init_device budget (new_state id dag_size)).0.live r
          ≡ (if leb 16 budget then 1 else leaked budget r))
      × ((cleanup (init_device budget (new_state id dag_size)).0).live r ≡ leaked budget r)
init_device-leaked budget id dag_size r = elim (dec_lt budget 16) [
  | yes few ↦
      let t = failed-init_device budget id dag_size r few in
      let e : leb 16 budget ≡ false = ground arith in rw e (t.0, t.1, t.2, t.3)
  | no all ↦
      let t : IsReady (outcome budget id dag_size) r =
        subst (λ (n : ℕ). IsReady (outcome n id dag_size) r) (omega arith)
          (beyond-IsReady (budget - 16) id dag_size r) in
      let e : leb 16 budget ≡ true = ground arith in
      rw e (t.0, t.1, t.2, t.3 ∙ leaked-all budget r (omega arith))
]

-- ===== src/Stratum/Notify/Jobs.antt =====
-- What notifications do to the client, and the jobs that it hands on.
use ohmy_miner_etc.Common.{
  ℕ, ◌*◌, ◌<◌, ◌≡◌, refl, subst, List, [], true, Option, none, some, arith, if◌then◌else◌, ltb, leb,
  list_eq, codes, All, ◌>>=◌, >>=-eq-some, if-elim,
}
use ohmy_miner_etc.Types.{MiningJob}
use ohmy_miner_etc.Hex.{hex_to_hash32}
use ohmy_miner_etc.Ethash.Epoch.{epoch_from_seed_hash_range}
use ohmy_miner_etc.Stratum.{Client, Event, aborted, job_received, difficulty_changed}
use ohmy_miner_etc.Stratum.Json.{JsonLibrary}
use ohmy_miner_etc.Stratum.Notify.{
  make_job, text_at, derived_epoch, read_job, read_difficulty, take_job, take_difficulty, notify,
  set_difficulty, process_notification, dispatch, or_unchanged, with_params, notify_method,
  set_difficulty_method,
}

-- The epoch of a job is one that the scan can find, and the block number, 30000 for each epoch, does
-- not wrap.
pub record IsJob (job : MiningJob) : Type 0 where
  pub epoch_range : job.epoch < 2000
  pub block : job.block_number ≡ job.epoch * 30000

abbrev pub IsJobEvent : Event → Type 0
IsJobEvent (job_received job) = IsJob job
IsJobEvent (difficulty_changed d) = Unit
IsJobEvent aborted = Unit

derived_epoch-lt : (seed_hash : List ℕ) → derived_epoch seed_hash < 2000
unfolding derived_epoch
derived_epoch-lt seed_hash = ground (arith, epoch_from_seed_hash_range seed_hash)

make_job-IsJob :
    (job_id seed_hash header_hash : List ℕ) (difficulty : ℕ)
    → IsJob (make_job job_id seed_hash header_hash difficulty)
unfolding make_job
make_job-IsJob job_id seed_hash header_hash difficulty =
    let low = derived_epoch-lt seed_hash in record { epoch_range = low; block = omega (arith, low) }

-- The outcome of an attempt, none or a job, in which every job is well-formed.
abbrev some-IsJob : (o : Option MiningJob) → Type 0
some-IsJob none = Unit
some-IsJob (some job) = IsJob job

-- What a notification may change: the job and the difficulty.
abbrev pub Notified : Client → Client → Type 0
Notified c d =
    d ≡ record c { current_job = d.current_job; current_difficulty = d.current_difficulty }

-- An outcome of a notification at a client whose job is well-formed.
pub record IsNotified (c : Client) (r : Client × List Event) : Type 0 where
  pub frame : Notified c r.0
  pub job : IsJob c.current_job → IsJob r.0.current_job
  pub events : All IsJobEvent r.1

pub unchanged : (c : Client) → IsNotified c (c, [])
unchanged c = record { frame = refl; job = λ h. h; events = tt }

module _ (J : JsonLibrary) (stale : List ℕ) where
  open J use {Json, contains, element, member, size, get_string, get_bool}

  read_job-IsJob :
      (params : Json) (difficulty : ℕ) (job : MiningJob)
      → read_job J stale params difficulty ≡ some job
      → IsJob job
  unfolding read_job
  read_job-IsJob params difficulty job h =
      let (job_id, _, h1) = >>=-eq-some (text_at J stale params 0) _ h in
      let (seed_hex, _, h2) = >>=-eq-some (text_at J stale params 1) _ h1 in
      let (header_hex, _, h3) = >>=-eq-some (text_at J stale params 2) _ h2 in
      let (clean, _, h4) =
        >>=-eq-some (if ltb 3 (size params) then element params 3 >>= get_bool else some true) _
          h3 in
      subst some-IsJob h4 (
        make_job-IsJob job_id (hex_to_hash32 seed_hex stale).1 (hex_to_hash32 header_hex stale).1
          difficulty)

  take_job-IsNotified :
      (c : Client) (job : MiningJob) → IsJob job → IsNotified c (take_job J stale c job)
  unfolding take_job
  take_job-IsNotified c job is_job = record {
    frame = refl;
    job = λ _. is_job;
    events = if-elim (All IsJobEvent) c.on_job (is_job, tt) tt;
  }

  take_difficulty-IsNotified :
      (c : Client) (difficulty : ℕ) → IsNotified c (take_difficulty J stale c difficulty)
  unfolding take_difficulty
  take_difficulty-IsNotified c difficulty = record {
    frame = refl;
    job = λ h. record { epoch_range = h.epoch_range; block = h.block };
    events = if-elim (All IsJobEvent) c.on_difficulty (tt, tt) tt;
  }

  or_unchanged-IsNotified :
      {A : Type 0} (c : Client) (o : Option A) (k : A → Client × List Event)
      → ((a : A) → o ≡ some a → IsNotified c (k a))
      → IsNotified c (or_unchanged J stale c o k)
  or_unchanged-IsNotified c none k h = unchanged c
  or_unchanged-IsNotified c (some a) k h = h a refl

  notify-IsNotified : (c : Client) (params : Json) → IsNotified c (notify J stale c params)
  unfolding notify
  notify-IsNotified c params =
      if-elim (IsNotified c) (leb 3 (size params))
        (or_unchanged-IsNotified c (read_job J stale params c.current_difficulty)
          (take_job J stale c)
          (λ job h. take_job-IsNotified c job (read_job-IsJob params c.current_difficulty job h)))
        (unchanged c)

  set_difficulty-IsNotified :
      (c : Client) (params : Json) → IsNotified c (set_difficulty J stale c params)
  unfolding set_difficulty
  set_difficulty-IsNotified c params =
      if-elim (IsNotified c) (leb 1 (size params))
        (or_unchanged-IsNotified c (read_difficulty J stale params) (take_difficulty J stale c)
          (λ d h. take_difficulty-IsNotified c d))
        (unchanged c)

  with_params-IsNotified :
      (c : Client) (message : Json) (k : Json → Client × List Event)
      → ((p : Json) → IsNotified c (k p))
      → IsNotified c (with_params J stale c message k)
  with_params-IsNotified c message k h =
      if-elim (IsNotified c) (contains message (codes "params"))
        (or_unchanged-IsNotified c (member message (codes "params")) k (λ p _. h p))
        record { frame = refl; job = λ j. j; events = (tt, tt) }

  dispatch-IsNotified :
      (c : Client) (message : Json) (method : List ℕ)
      → IsNotified c (dispatch J stale c message method)
  unfolding dispatch
  dispatch-IsNotified c message method =
      if-elim (IsNotified c) (list_eq method notify_method)
        (with_params-IsNotified c message (notify J stale c) (notify-IsNotified c))
        (if-elim (IsNotified c) (list_eq method set_difficulty_method)
          (with_params-IsNotified c message (set_difficulty J stale c)
            (set_difficulty-IsNotified c))
          (unchanged c))

  pub process_notification-IsNotified :
      (c : Client) (message : Json) → IsNotified c (process_notification J stale c message)
  unfolding process_notification
  process_notification-IsNotified c message =
      or_unchanged-IsNotified c (member message (codes "method") >>= get_string)
        (dispatch J stale c message) (λ method _. dispatch-IsNotified c message method)

-- ===== src/Stratum/Notify/Params.antt =====
-- What `mining.notify` makes of the parameters that a pool sends.
use ohmy_miner_etc.Common.{
  ℕ, ◌<◌, ◌≤◌, ◌≡◌, ◌∙◌, inl, inr, ◌>>=◌, if-true, if-false, Bool-cases, refl, List, [], ◌∷◌, Bool,
  true, false, some, arith, if◌then◌else◌, ltb, leb, ◌==◌, length, IsBytes, max_u32,
}
use ohmy_miner_etc.Types.{MiningJob}
use ohmy_miner_etc.Hex.{hash_to_hex}
use ohmy_miner_etc.Hex.Print.{hex_to_hash32-hash_to_hex}
use ohmy_miner_etc.Ethash.{epoch_from_seed_hash, seed_from, zero_hash}
use ohmy_miner_etc.Ethash.Epoch.{epoch_from_seed_hash-seed_from, seed_from-IsHash}
use ohmy_miner_etc.Stratum.{Client, job_received}
use ohmy_miner_etc.Stratum.Json.{JsonLibrary}
use ohmy_miner_etc.Stratum.Notify.{make_job, text_at, derived_epoch, read_job, take_job, notify}

-- A job for a header and the seed of an epoch.
pub record IsJobFor (job : MiningJob) (name head : List ℕ) (period difficulty : ℕ) : Type 0 where
  pub job_id : job.job_id ≡ name
  pub header_hash : job.header_hash ≡ head
  pub seed_hash : job.seed_hash ≡ seed_from period zero_hash
  pub target : job.target ≡ difficulty
  pub epoch_le : job.epoch ≤ period
  pub epoch_seed : seed_from job.epoch zero_hash ≡ seed_from period zero_hash

make_job-IsJobFor :
    (job_id header : List ℕ) (epoch difficulty : ℕ)
    → epoch < 2000
    → IsJobFor
        (make_job job_id (seed_from epoch zero_hash) header difficulty)
        job_id
        header
        epoch
        difficulty
unfolding make_job derived_epoch
make_job-IsJobFor job_id header epoch difficulty h =
    let found = epoch_from_seed_hash-seed_from epoch h in
    let known : (epoch_from_seed_hash (seed_from epoch zero_hash) == max_u32) ≡ false =
      ground (arith, found) in
    record {
      job_id = refl;
      header_hash = refl;
      seed_hash = refl;
      target = refl;
      epoch_le = rw known found.0;
      epoch_seed = rw known found.1;
    }

module _ (J : JsonLibrary) (stale : List ℕ) where
  open J use {Json, element, size, get_bool}

  -- The parameters that a pool sends for an epoch below 2000: an id, the seed hash of the epoch and
  -- the header hash in hexadecimal, with or without "0x", and a Boolean if anything follows.
  pub record IsWork (params : Json) (name head : List ℕ) (period : ℕ) (with_prefix : Bool)
      : Type 0 where
    pub enough : 3 ≤ size params
    pub clean : 3 < size params → (b : Bool) × (element params 3 >>= get_bool ≡ some b)
    pub id_text : text_at J stale params 0 ≡ some name
    pub seed_text :
        text_at J stale params 1 ≡ some (hash_to_hex (seed_from period zero_hash) with_prefix)
    pub header_text : text_at J stale params 2 ≡ some (hash_to_hex head with_prefix)
    pub header_length : length head ≡ 32
    pub header_bytes : IsBytes head
    pub period_range : period < 2000

  -- The flag that is read, or `true` without one.
  clean_flag :
      (params : Json) (name head : List ℕ) (period : ℕ) (with_prefix : Bool)
      → IsWork params name head period with_prefix
      → (b : Bool) × ((if ltb 3 (size params) then element params 3 >>= get_bool else some true)
          ≡ some b)
  clean_flag params name head period with_prefix w = elim (Bool-cases (ltb 3 (size params))) [
    | inl more ↦
        let (b, e) = w.clean (ground (arith, more)) in
        (b, if-true (element params 3 >>= get_bool) (some true) more ∙ e)
    | inr few ↦ (true, if-false (element params 3 >>= get_bool) (some true) few)
  ]

  read_job-IsWork :
      (params : Json) (name head : List ℕ) (period difficulty : ℕ) (with_prefix : Bool)
      → length stale ≡ 32
      → IsWork params name head period with_prefix
      → read_job J stale params difficulty
        ≡ some (make_job name (seed_from period zero_hash) head difficulty)
  unfolding read_job
  read_job-IsWork params name head period difficulty with_prefix old w =
      let seed = seed_from-IsHash period in
      let (b, flag) = clean_flag params name head period with_prefix w in
      let read_seed =
        hex_to_hash32-hash_to_hex (seed_from period zero_hash) stale with_prefix seed.0 old
          seed.1 in
      let read_header =
        hex_to_hash32-hash_to_hex head stale with_prefix w.header_length old w.header_bytes in
      rw w.id_text (rw w.seed_text (rw w.header_text (rw flag (rw read_seed (rw read_header)))))

  -- A well-formed `mining.notify`, with the flag for clean jobs or without it: the client takes a job with exactly the id, header hash and seed
  -- hash that the pool sent, the difficulty as its target, and an epoch that has that seed hash and
  -- is not a later one; and hands this job to the callback, when there is one.
  pub notify-IsWork :
      (c : Client) (params : Json) (name head : List ℕ) (period : ℕ) (with_prefix : Bool)
      → length stale ≡ 32
      → IsWork params name head period with_prefix
      → (job : MiningJob) × IsJobFor job name head period c.current_difficulty
        × (notify J stale c params
            ≡ (record c { current_job = job }, if c.on_job then job_received job ∷ [] else []))
  unfolding notify take_job
  notify-IsWork c params name head period with_prefix old w =
      let enough : leb 3 (size params) ≡ true = ground (arith, w.enough) in
      let job_read =
        read_job-IsWork params name head period c.current_difficulty with_prefix old w in
      (
        make_job name (seed_from period zero_hash) head c.current_difficulty,
        make_job-IsJobFor name head period c.current_difficulty w.period_range,
        rw enough (rw job_read),
      )

-- ===== src/Stratum/Session/Share.antt =====
-- What the request for a share says.
use ohmy_miner_etc.Common.{
  ℕ, zero, suc, ◌/◌, ◌%◌, ◌^◌, ◌<◌, ◌≡◌, ◌≢◌, list_eq_refl, refl, ap, ◌∙◌, ◌⊎◌, inl, inr, List, [],
  ◌∷◌, true, false, some, arith, if◌then◌else◌, if-false, if-true, list_eq, eq-of-list_eq, length,
  length-append, IsBytes, Bool-cases,
}
use native.Mathlib.Nat.{pow-suc}
use ohmy_miner_etc.Types.{Solution}
use ohmy_miner_etc.Hex.{
  hex_prefix, hex_digit, hash_to_hex, hex_to_hash32, hex_to_uint64, strip_prefix,
}
use ohmy_miner_etc.Hex.Digits.{
  hex_value, hex_value-append, hex_value_step, hex_char_to_value-hex_digit, strip_prefix-hex_prefix,
}
use ohmy_miner_etc.Hex.Print.{hex_to_hash32-hash_to_hex}
use ohmy_miner_etc.Hex.Number.{hex_to_uint64_reads, bad_size, bad_digit, reads}
use ohmy_miner_etc.Stratum.{Client, Request, submit}
use ohmy_miner_etc.Stratum.Session.{fixed_hex, nonce_text, submission}

length-fixed_hex : (n value : ℕ) → length (fixed_hex n value) ≡ n
unfolding fixed_hex
length-fixed_hex zero value = refl
length-fixed_hex (suc n) value = omega (
  arith,
  length-append (fixed_hex n (value / 16)) (hex_digit (value % 16) ∷ []),
  length-fixed_hex n (value / 16),
)

hex_value-fixed_hex : (n value : ℕ) → value < 16 ^ n → hex_value 0 (fixed_hex n value) ≡ some value
unfolding fixed_hex
hex_value-fixed_hex zero value h = unfold hex_value in ap some (omega arith)
hex_value-fixed_hex (suc n) value h =
    hex_value-append 0 (fixed_hex n (value / 16)) (hex_digit (value % 16) ∷ []) (value / 16)
      (hex_value-fixed_hex n (value / 16) (omega (arith, pow-suc 16 n)))
    ∙ hex_value_step (value / 16) (hex_digit (value % 16)) (value % 16) []
        (hex_char_to_value-hex_digit (value % 16) (omega arith))
    ∙ unfold hex_value in ap some (omega arith)

-- The nonce of a share is written with 16 digits, and they read as the nonce.
hex_to_uint64-nonce_text :
    (nonce old : ℕ) → nonce < 2 ^ 64 → hex_to_uint64 (nonce_text nonce) old ≡ (true, nonce)
unfolding nonce_text hex_prefix
hex_to_uint64-nonce_text nonce old h = elim (hex_to_uint64_reads (fixed_hex 16 nonce) old) [
  | bad_size (inl e) _ ↦
      absurd (omega (arith, ap length e, ap length stripped, length-fixed_hex 16 nonce))
  | bad_size (inr long) _ ↦ absurd (omega (arith, ap length stripped, length-fixed_hex 16 nonce))
  | bad_digit _ _ bad _ ↦ absurd (ground (arith, worth, bad))
  | reads read _ _ good _ result ↦ result ∙ ap (λ (t : ℕ). (true, t)) (ground (arith, worth, good))
]
  where
    stripped : strip_prefix (fixed_hex 16 nonce) ≡ fixed_hex 16 nonce
    stripped =
        strip_prefix-hex_prefix false (fixed_hex 16 nonce) nonce
          (hex_value-fixed_hex 16 nonce (omega arith))

    worth : hex_value 0 (strip_prefix (fixed_hex 16 nonce)) ≡ some nonce
    worth = ap (hex_value 0) stripped ∙ hex_value-fixed_hex 16 nonce (omega arith)

-- A request to submit a share that carries the solution: the texts in it read as its nonce, its mix
-- hash and the header hash of the current job.
pub record IsShare (c : Client) (solution : Solution) (old : List ℕ) (request : Request)
    : Type 0 where
  pub id : ℕ
  pub worker : List ℕ
  pub job_id : List ℕ
  pub nonce : List ℕ
  pub header : List ℕ
  pub mix : List ℕ
  pub is_submit : request ≡ submit id worker job_id nonce header mix
  pub id_is : id ≡ c.message_id
  pub worker_is :
      ((c.current_worker ≡ []) × (worker ≡ c.wallet_address))
      ⊎ ((c.current_worker ≢ []) × (worker ≡ c.current_worker))
  pub job_is :
      ((solution.job_id ≡ []) × (job_id ≡ c.current_job.job_id))
      ⊎ ((solution.job_id ≢ []) × (job_id ≡ solution.job_id))
  pub nonce_length : length nonce ≡ 16
  pub nonce_is : hex_to_uint64 nonce 0 ≡ (true, solution.nonce)
  pub header_is : hex_to_hash32 header old ≡ (true, c.current_job.header_hash)
  pub mix_is : hex_to_hash32 mix old ≡ (true, solution.mix_hash)

-- `current.empty() ? fallback : current`.
fallback_lem :
    (text fallback : List ℕ)
    → ((text ≡ []) × ((if list_eq text [] then fallback else text) ≡ fallback))
      ⊎ ((text ≢ []) × ((if list_eq text [] then fallback else text) ≡ text))
fallback_lem text fallback = elim (Bool-cases (list_eq text [])) [
  | inl e ↦ inl (eq-of-list_eq text [] e, if-true fallback text e)
  | inr e ↦ inr (filled e, if-false fallback text e)
]
  where
    filled : list_eq text [] ≡ false → text ≢ []
    filled e z =
        let t : list_eq text [] ≡ true = ap (λ (l : List ℕ). list_eq l []) z ∙ list_eq_refl [] in
        absurd (ground (arith, e, t))

-- A pool that reads the share of a solution, whose nonce is a 64-bit number and whose mix hash and
-- current header hash are 32 bytes, gets back the nonce, the mix hash and the header hash; the
-- request has the id of the counter, the worker that was authorized, or the wallet when none was,
-- and the job id of the solution, or of the current job when it has none.
pub submission-IsShare :
    (c : Client) (solution : Solution) (old : List ℕ)
    → solution.nonce < 2 ^ 64
    → length old ≡ 32
    → (length solution.mix_hash ≡ 32) × IsBytes solution.mix_hash
    → (length c.current_job.header_hash ≡ 32) × IsBytes c.current_job.header_hash
    → IsShare c solution old (submission c solution)
unfolding submission
submission-IsShare c solution old n o m h = record {
  id = c.message_id;
  worker = if list_eq c.current_worker [] then c.wallet_address else c.current_worker;
  job_id = if list_eq solution.job_id [] then c.current_job.job_id else solution.job_id;
  nonce = nonce_text solution.nonce;
  header = hash_to_hex c.current_job.header_hash true;
  mix = hash_to_hex solution.mix_hash true;
  is_submit = refl;
  id_is = refl;
  worker_is = fallback_lem c.current_worker c.wallet_address;
  job_is = fallback_lem solution.job_id c.current_job.job_id;
  nonce_length = unfold nonce_text in length-fixed_hex 16 solution.nonce;
  nonce_is = hex_to_uint64-nonce_text solution.nonce 0 n;
  header_is = hex_to_hash32-hash_to_hex c.current_job.header_hash old true h.0 o h.1;
  mix_is = hex_to_hash32-hash_to_hex solution.mix_hash old true m.0 o m.1;
}

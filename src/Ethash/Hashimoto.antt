-- ===== src/Ethash/Hashimoto.antt =====
-- `computeHashimoto` and `verifySolution`: shapes, reads of the dataset, and how the two fit.
use native.Mathlib.Nat.{mod-lt}
use ohmy_miner_etc.Common.{
  ℕ, zero, suc, ◌+◌, ◌*◌, ◌/◌, ◌%◌, ◌^◌, ◌<◌, ◌≤◌, ◌≡◌, refl, ap, ◌∙◌, ◌↔◌, List, [], ◌∷◌, ◌++◌,
  some, true, false, arith, length, take, drop, u32, ltb, list_eq_refl, length-take, IsByte,
  IsBytes, All-take, none,
}
use ohmy_miner_etc.Keccak.{keccak256, keccak512}
use ohmy_miner_etc.Keccak.{load64}
use ohmy_miner_etc.Keccak.Lanes.{load64_value}
use ohmy_miner_etc.Keccak.Bounds.{keccak-IsBytes}
use ohmy_miner_etc.Ethash.{
  words_of, word_bytes, mix_dag, compress, compute_hashimoto, verify_solution, result_value,
  nonce_bytes, dag_index, dag_offset,
}
use ohmy_miner_etc.Ethash.Items.{
  length-fnv_mix, length-words_of, length-word_bytes, word_bytes-IsBytes, keccak512-IsHash64,
}

length-mix_dag :
    (left i : ℕ) (dag : List ℕ) (dag_items nonce : ℕ) (mix : List ℕ)
    → length (mix_dag left i dag dag_items nonce mix) ≡ length mix
unfolding mix_dag
length-mix_dag zero i dag dag_items nonce mix = refl
length-mix_dag (suc left) i dag dag_items nonce mix =
    length-mix_dag left (i + 1) dag dag_items nonce _ ∙ length-fnv_mix mix _

length-compress : (mix : List ℕ) → length mix ≡ 16 → length (compress mix) ≡ 8
unfolding compress
length-compress mix e = length-fnv_mix (take 8 mix) (drop 8 mix) ∙ omega (arith, length-take 8 mix)

-- The code that is run on a dataset of at least one item.
hashimoto_run :
    (header_hash : List ℕ) (nonce : ℕ) (dag : List ℕ)
    → 64 ≤ length dag
    → (mix : List ℕ) × (length mix ≡ 16)
      × (compute_hashimoto header_hash nonce (some dag) ≡ (
        word_bytes (compress mix),
        keccak256 (header_hash ++ nonce_bytes nonce ++ word_bytes (compress mix)),
      ))
hashimoto_run header_hash nonce dag h = (
  mix,
  length-mix_dag 64 0 dag (u32 (length dag / 64)) nonce start
      ∙ length-words_of 16 (keccak512 (header_hash ++ nonce_bytes nonce))
          (keccak512-IsHash64 (header_hash ++ nonce_bytes nonce)).0,
  unfold compute_hashimoto in (let e : ltb (length dag) 64 ≡ false = ground arith in rw e),
)
  where
    start : List ℕ
    start = words_of (keccak512 (header_hash ++ nonce_bytes nonce))

    mix : List ℕ
    mix = mix_dag 64 0 dag (u32 (length dag / 64)) nonce start

-- The little-endian number of a string of bytes.
pub le_value : List ℕ → ℕ
le_value [] = 0
le_value (b ∷ bytes) = b + 256 * le_value bytes

result_value_lem :
    (bytes : List ℕ) → length bytes ≡ 8 → IsBytes bytes → result_value 0 bytes 0 ≡ le_value bytes
result_value_lem (a ∷ b ∷ c ∷ d ∷ e ∷ f ∷ g ∷ i ∷ []) l h =
    unfold result_value load64 in
    load64_value a b c d e f g i h.0 h.1.0 h.1.1.0 h.1.1.1.0 h.1.1.1.1.0 h.1.1.1.1.1.0
      h.1.1.1.1.1.1.0 h.1.1.1.1.1.1.1.0
    ∙ unfold le_value in omega arith
result_value_lem bytes l h = absurd (omega arith)

verify_same :
    (header_hash : List ℕ) (nonce : ℕ) (mix_hash result : List ℕ) (target : ℕ)
    → keccak256 (header_hash ++ nonce_bytes nonce ++ mix_hash) ≡ result
    → verify_solution header_hash nonce mix_hash result target
      ≡ ltb (result_value 0 (take 8 result) 0) target
unfolding verify_solution
verify_same header_hash nonce mix_hash result target e = rw (e, list_eq_refl result) (ground arith)

-- For every header, nonce and dataset of at least 64 bytes the mix hash and the result are 32 bytes
-- each, and `verifySolution` accepts the pair that `computeHashimoto` gave exactly when the first
-- eight bytes of the result, read as a little-endian number, are below the target.
pub verify_solution-compute_hashimoto :
    (header_hash : List ℕ) (nonce : ℕ) (dag : List ℕ) (target : ℕ)
    → 64 ≤ length dag
    → let r = compute_hashimoto header_hash nonce (some dag) in
      (length r.0 ≡ 32)
      × IsBytes r.0
      × (length r.1 ≡ 32)
      × IsBytes r.1
      × (verify_solution header_hash nonce r.0 r.1 target ≡ ltb (le_value (take 8 r.1)) target)
verify_solution-compute_hashimoto header_hash nonce dag target h =
    let (mix, size, run) = hashimoto_run header_hash nonce dag h in
    rw run (
      accepted (word_bytes (compress mix))
        (omega (arith, length-word_bytes (compress mix), length-compress mix size))
        (word_bytes-IsBytes (compress mix)))
  where
    accepted :
        (mix_hash : List ℕ)
        → length mix_hash ≡ 32
        → IsBytes mix_hash
        → let result = keccak256 (header_hash ++ nonce_bytes nonce ++ mix_hash) in
          (length mix_hash ≡ 32)
          × IsBytes mix_hash
          × (length result ≡ 32)
          × IsBytes result
          × (verify_solution header_hash nonce mix_hash result target
              ≡ ltb (le_value (take 8 result)) target)
    accepted mix_hash size bytes =
        let result = keccak256 (header_hash ++ nonce_bytes nonce ++ mix_hash) in
        let out = keccak-IsBytes (header_hash ++ nonce_bytes nonce ++ mix_hash) in
        let value : result_value 0 (take 8 result) 0 ≡ le_value (take 8 result) =
          result_value_lem (take 8 result) (omega (arith, length-take 8 result, out.0))
            (All-take IsByte 8 result out.1) in
        (
          size,
          bytes,
          out.0,
          out.1,
          verify_same header_hash nonce mix_hash result target refl
              ∙ ap (λ (v : ℕ). ltb v target) value,
        )

-- A null dataset, or one of less than an item, gives zero hashes.
hashimoto_refused :
    (header_hash : List ℕ) (nonce : ℕ) (dag : List ℕ)
    → length dag < 64
    → compute_hashimoto header_hash nonce (some dag) ≡ compute_hashimoto header_hash nonce none
unfolding compute_hashimoto
hashimoto_refused header_hash nonce dag h =
    let e : ltb (length dag) 64 ≡ true = ground arith in rw e

-- No access of Hashimoto reads outside the dataset; but the offset is that of the item that the
-- index names exactly if the index is below 2^26, that is within the first 4 GiB: behind that the
-- 32-bit product wraps, and the item that is read is another one.
pub dag_offset_lem :
    (i : ℕ) (dag : List ℕ) (nonce : ℕ) (mix : List ℕ)
    → 0 < u32 (length dag / 64)
    → let idx = dag_index i (u32 (length dag / 64)) nonce mix in
      (dag_offset idx + 64 ≤ length dag)
      × ((dag_offset idx ≡ idx * 64) ↔ (idx < 2 ^ 26))
      × (dag_offset idx ≡ (idx % 2 ^ 26) * 64)
dag_offset_lem i dag nonce mix h =
    offset (dag_index i (u32 (length dag / 64)) nonce mix) (unfold dag_index in mod-lt _ h)
  where
    offset :
        (idx : ℕ)
        → idx < u32 (length dag / 64)
        → (dag_offset idx + 64 ≤ length dag)
          × ((dag_offset idx ≡ idx * 64) ↔ (idx < 2 ^ 26))
          × (dag_offset idx ≡ (idx % 2 ^ 26) * 64)
    offset idx below =
        unfold dag_offset in (omega arith, (λ e. omega arith, λ k. omega arith), omega arith)

-- ===== src/Cuda/SearchHash/Agreement.antt =====
-- The hashes of the three kernels against each other.
use ohmy_miner_etc.Common.{
  ℕ, zero, suc, get_or, ◌+◌, ◌*◌, ◌<◌, ◌≤◌, ◌≡◌, refl, ap, ap₂, ◌∙◌, List, ◌∷◌, ◌++◌, arith, u32,
}
use ohmy_miner_etc.Keccak.{lanes_of}
use ohmy_miner_etc.Ethash.{words_of, word_bytes}
use ohmy_miner_etc.Cuda.DeviceKeccak.{keccak256_dev}
use ohmy_miner_etc.Cuda.SearchHash.{
  SearchInput, finish_hash, texture_digest, twice_each, compress_mix, seed_of, search_hash,
  optimized_hash, texture_hash, dag_words, pair_words, fnv_words, pair_index, pair_words_optimized,
  mix_pairs, mix_optimized, texels, parent_texels, texture_parent, mix_texels, num_parents,
}

pair_words_optimized-pair_words :
    (dag : ℕ → ℕ) (pair : ℕ) → pair_words_optimized dag pair ≡ pair_words dag pair
unfolding pair_words_optimized pair_words
pair_words_optimized-pair_words dag pair =
    ap
      (λ (second : ℕ).
        dag_words dag 16 (2 * u32 (u32 (pair * 2) * 8)) ++ dag_words dag 16 (2 * second))
      (omega arith)

mix_optimized-mix_pairs :
    (left i : ℕ) (dag : ℕ → ℕ) (pairs s0 : ℕ) (mix : List ℕ)
    → mix_optimized left i dag pairs s0 mix ≡ mix_pairs left i dag pairs s0 mix
unfolding mix_optimized mix_pairs
mix_optimized-mix_pairs zero i dag pairs s0 mix = refl
mix_optimized-mix_pairs (suc left) i dag pairs s0 mix =
    ap (λ item. mix_optimized left (i + 1) dag pairs s0 (fnv_words mix item))
      (pair_words_optimized-pair_words dag (pair_index pairs s0 i mix))
    ∙ mix_optimized-mix_pairs left (i + 1) dag pairs s0
        (fnv_words mix (pair_words dag (pair_index pairs s0 i mix)))

-- For every DAG of every size, also where the 32-bit index of a pair wraps: the optimized kernel
-- computes the compressed mix and the result that the plain kernel computes.
pub optimized_hash-search_hash :
    (input : SearchInput) (nonce : ℕ) → optimized_hash input nonce ≡ search_hash input nonce
unfolding optimized_hash search_hash
optimized_hash-search_hash input nonce =
    ap (finish_hash input.seed_hash) (mix_optimized-mix_pairs 64 0 input.dag _ _ _)

abbrev Agree : (ℕ → ℕ) → (ℕ → ℕ) → Type 0
Agree dag dag' = (i : ℕ) → i < 8192 → dag i ≡ dag' i

module _ (dag dag' : ℕ → ℕ) (agree : Agree dag dag') where
  texels-Agree :
      (count first : ℕ)
      → first + 2 * count ≤ 8193
      → texels dag count first ≡ texels dag' count first
  unfolding texels
  texels-Agree zero first h = refl
  texels-Agree (suc count) first h =
      ap₂ ◌∷◌ (agree first (omega arith)) (texels-Agree count (first + 2) (omega arith))

  parent_texels-Agree :
      (parent : ℕ) → parent < 256 → parent_texels dag parent ≡ parent_texels dag' parent
  unfolding parent_texels
  parent_texels-Agree parent h =
      ap₂ ◌++◌ (texels-Agree 16 (2 * (parent * 16)) (omega arith))
        (texels-Agree 16 (2 * (parent * 16) + 1) (omega arith))

  mix_texels-Agree :
      (left round seed0 : ℕ) (mix : List ℕ)
      → mix_texels left round dag seed0 mix ≡ mix_texels left round dag' seed0 mix
  unfolding mix_texels
  mix_texels-Agree zero round seed0 mix = refl
  mix_texels-Agree (suc left) round seed0 mix =
      ap (λ item. mix_texels left (round + 1) dag seed0 (fnv_words mix item))
        (parent_texels-Agree (texture_parent seed0 round mix)
          (unfold texture_parent num_parents in omega arith))
      ∙ mix_texels-Agree left (round + 1) seed0
          (fnv_words mix (parent_texels dag' (texture_parent seed0 round mix)))

  texture_digest-Agree : (seed : List ℕ) → texture_digest dag seed ≡ texture_digest dag' seed
  unfolding texture_digest
  texture_digest-Agree seed =
      ap
        (λ mix.
          (word_bytes (compress_mix mix), keccak256_dev (word_bytes (compress_mix mix) ++ seed)))
        (mix_texels-Agree 64 0 (get_or (lanes_of 8 seed) 0 0) (twice_each (words_of seed)))

-- Two DAGs that agree on their first 8192 words, 32 KiB, give the same hash of every nonce in the
-- texture kernel: it uses nothing else of the DAG, and neither its size nor the seed hash.
pub texture_hash-Agree :
    (input input' : SearchInput) (nonce : ℕ)
    → ((i : ℕ) → i < 8192 → input.dag i ≡ input'.dag i)
    → input.header_hash ≡ input'.header_hash
    → texture_hash input nonce ≡ texture_hash input' nonce
unfolding texture_hash
texture_hash-Agree input input' nonce agree same_header =
    texture_digest-Agree input.dag input'.dag agree (seed_of input.header_hash nonce)
    ∙ ap (λ header. texture_digest input'.dag (seed_of header nonce)) same_header

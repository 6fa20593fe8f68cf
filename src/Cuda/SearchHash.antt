-- ===== src/Cuda/SearchHash.antt =====
-- src/cuda/kernels/search_kernel.cu: the hash of a nonce in each of the three search kernels. Hashes are
-- lists of bytes; the DAG is the function from an index to the 32-bit word that stands there, so that
-- the 64-bit word k is the words 2k and 2k + 1.
pub mod Result
pub mod Agreement
pub mod Tests
use ohmy_miner_etc.Common.{
  ℕ, zero, suc, ◌+◌, ◌-◌, ◌*◌, ◌/◌, ◌%◌, ◌^◌, List, [], ◌∷◌, ◌++◌, Bool, true, false, ◌||◌, bit_xor,
  if◌then◌else◌, ltb, leb, ◌==◌, set, get_or, take, foldl, u8, u32, u64,
}
use ohmy_miner_etc.Keccak.{lanes_of}
use ohmy_miner_etc.Ethash.{nonce_bytes, words_of, word_bytes}
use ohmy_miner_etc.Pipeline.{DeviceSolution}
use ohmy_miner_etc.Cuda.DeviceKeccak.{keccak256_dev, keccak512_dev, fnv1a_dev}

-- What a kernel is launched with and only reads; `header_hash`, `seed_hash` and `target_be` are bytes.
pub record SearchInput : Type 0 where
  pub dag : ℕ → ℕ
  pub dag_size : ℕ
  pub header_hash : List ℕ
  pub seed_hash : List ℕ
  pub target_be : List ℕ

-- The compressed mix and the result of a nonce.
abbrev pub Digest : Type 0
Digest = List ℕ × List ℕ

-- seed = keccak512(headerHash || nonceLE)
pub seed_of : List ℕ → ℕ → List ℕ
seed_of header_hash nonce = keccak512_dev (take 32 header_hash ++ nonce_bytes nonce)

-- `count` words of the DAG from the word `first` on.
pub dag_words : (ℕ → ℕ) → ℕ → ℕ → List ℕ
dag_words dag zero first = []
dag_words dag (suc count) first = dag first ∷ dag_words dag count (first + 1)

-- `mix[w] = fnv1a(mix[w], item[w])` for each word.
pub fnv_words : List ℕ → List ℕ → List ℕ
fnv_words (m ∷ mix) (d ∷ item) = fnv1a_dev m d ∷ fnv_words mix item
fnv_words mix _ = mix

pub pair_index : ℕ → ℕ → ℕ → List ℕ → ℕ
pair_index pairs s0 i mix = fnv1a_dev (bit_xor i s0) (get_or mix (i % 32) 0) % pairs

-- The 128 bytes of a pair: two items of sixteen words, at 32-bit indices of 64-bit words.
pub pair_words : (ℕ → ℕ) → ℕ → List ℕ
pair_words dag pair =
    dag_words dag 16 (2 * u32 (u32 (pair * 2) * 8))
    ++ dag_words dag 16 (2 * u32 (u32 (u32 (pair * 2) + 1) * 8))

-- The accesses from number `i` on.
pub mix_pairs : ℕ → ℕ → (ℕ → ℕ) → ℕ → ℕ → List ℕ → List ℕ
mix_pairs zero i dag pairs s0 mix = mix
mix_pairs (suc left) i dag pairs s0 mix =
    mix_pairs left (i + 1) dag pairs s0 (fnv_words mix (pair_words dag (pair_index pairs s0 i mix)))

-- Each word of the result is made of four words of the mix.
pub compress_mix : List ℕ → List ℕ
compress_mix (a ∷ b ∷ c ∷ d ∷ mix) = fnv1a_dev (fnv1a_dev (fnv1a_dev a b) c) d ∷ compress_mix mix
compress_mix _ = []

pub finish_hash : List ℕ → List ℕ → Digest
finish_hash seed_hash mix =
    let compressed = word_bytes (compress_mix mix) in
    (compressed, keccak256_dev (compressed ++ take 32 seed_hash))

-- The body of `ethash_search_kernel` up to the comparison.
pub search_hash : SearchInput → ℕ → Digest
unfolding pair_index pair_words seed_of finish_hash
search_hash input nonce =
    let seed = words_of (seed_of input.header_hash nonce) in
    finish_hash input.seed_hash
      (mix_pairs 64 0 input.dag (u32 (input.dag_size / 128)) (get_or seed 0 0) (seed ++ seed))

-- The optimized kernel computes the second offset from the first, in 64 bits.
pub pair_words_optimized : (ℕ → ℕ) → ℕ → List ℕ
pair_words_optimized dag pair =
    let dag_offset = u32 (u32 (pair * 2) * 8) in
    dag_words dag 16 (2 * dag_offset) ++ dag_words dag 16 (2 * (dag_offset + 8))

pub mix_optimized : ℕ → ℕ → (ℕ → ℕ) → ℕ → ℕ → List ℕ → List ℕ
mix_optimized zero i dag pairs s0 mix = mix
mix_optimized (suc left) i dag pairs s0 mix =
    mix_optimized left (i + 1) dag pairs s0
      (fnv_words mix (pair_words_optimized dag (pair_index pairs s0 i mix)))

-- The body of the loop of `ethash_search_kernel_optimized` up to the comparison.
pub optimized_hash : SearchInput → ℕ → Digest
unfolding pair_index pair_words_optimized seed_of finish_hash
optimized_hash input nonce =
    let seed = words_of (seed_of input.header_hash nonce) in
    finish_hash input.seed_hash
      (mix_optimized 64 0 input.dag (u32 (input.dag_size / 128)) (get_or seed 0 0) (seed ++ seed))

-- The texture kernel repeats each word of the seed.
pub twice_each : List ℕ → List ℕ
twice_each [] = []
twice_each (w ∷ words) = w ∷ w ∷ twice_each words

pub num_parents : ℕ
num_parents = 256

-- The texels of a parent: the low words mix into the first half, the high words into the second.
pub texels : (ℕ → ℕ) → ℕ → ℕ → List ℕ
texels dag zero first = []
texels dag (suc count) first = dag first ∷ texels dag count (first + 2)

pub parent_texels : (ℕ → ℕ) → ℕ → List ℕ
parent_texels dag parent =
    texels dag 16 (2 * (parent * 16)) ++ texels dag 16 (2 * (parent * 16) + 1)

pub texture_parent : ℕ → ℕ → List ℕ → ℕ
texture_parent seed0 round mix =
    fnv1a_dev (u32 (bit_xor seed0 round)) (get_or mix (round % 16) 0) % num_parents

pub mix_texels : ℕ → ℕ → (ℕ → ℕ) → ℕ → List ℕ → List ℕ
mix_texels zero round dag seed0 mix = mix
mix_texels (suc left) round dag seed0 mix =
    mix_texels left (round + 1) dag seed0
      (fnv_words mix (parent_texels dag (texture_parent seed0 round mix)))

-- The body of the loop of `ethash_search_kernel_texture` up to the comparison, from the seed on.
pub texture_digest : (ℕ → ℕ) → List ℕ → Digest
unfolding num_parents texture_parent parent_texels
texture_digest dag seed =
    let mix = mix_texels 64 0 dag (get_or (lanes_of 8 seed) 0 0) (twice_each (words_of seed)) in
    let compressed = word_bytes (compress_mix mix) in
    (compressed, keccak256_dev (compressed ++ seed))

pub texture_hash : SearchInput → ℕ → Digest
unfolding texture_digest
texture_hash input nonce = texture_digest input.dag (seed_of input.header_hash nonce)

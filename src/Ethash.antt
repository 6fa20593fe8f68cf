-- ===== src/Ethash.antt =====
-- include/ohmy/ethash.hpp and src/core/ethash.cpp: sizes and epochs, the light cache, dataset items,
-- Hashimoto and the check of a solution. Hashes and cache items are lists of bytes; where the source
-- casts them to 32-bit words, the model does so too, on a little-endian host.
pub mod Sizes
pub mod Epoch
pub mod Items
pub mod Hashimoto
mod Tests
use ohmy_miner_etc.Common.{
  ℕ, zero, suc, ◌+◌, ◌-◌, ◌*◌, ◌/◌, ◌%◌, ◌^◌, List, [], ◌∷◌, ◌++◌, Option, none, some, Bool, true,
  false, ◌&&◌, ◌||◌, bit_or, bit_xor, if◌then◌else◌, ltb, leb, ◌==◌, list_eq, length, set, get_or,
  take, drop, replicate, u8, u32, u64, max_u32,
}
use ohmy_miner_etc.Keccak.{keccak256, keccak512, state_bytes, lanes_of}

abbrev pub epoch_length : ℕ
epoch_length = 30000

abbrev pub dataset_parents : ℕ
dataset_parents = 256

abbrev pub cache_rounds : ℕ
cache_rounds = 3

abbrev pub fnv_prime : ℕ
fnv_prime = 0x01000193

abbrev pub max_epoch_scan : ℕ
max_epoch_scan = 2000

unfoldable pub fnv1a : ℕ → ℕ → ℕ
fnv1a a b = bit_xor (u32 (a * fnv_prime)) b

-- `mix[i] = fnv1a(mix[i], data[i])` for each word of `mix`.
unfoldable pub fnv_mix : List ℕ → List ℕ → List ℕ
fnv_mix (m ∷ mix) (d ∷ words) = fnv1a m d ∷ fnv_mix mix words
fnv_mix mix _ = mix

-- The words that a `uint32_t*` to the bytes sees, and the bytes of words.
unfoldable pub words_of : List ℕ → List ℕ
words_of (a ∷ b ∷ c ∷ d ∷ bytes) = (a + b * 2 ^ 8 + c * 2 ^ 16 + d * 2 ^ 24) ∷ words_of bytes
words_of _ = []

unfoldable pub word_bytes : List ℕ → List ℕ
word_bytes [] = []
word_bytes (w ∷ words) =
    u8 w ∷ u8 (w / 2 ^ 8) ∷ u8 (w / 2 ^ 16) ∷ u8 (w / 2 ^ 24) ∷ word_bytes words

-- The epoch that sizes are computed from: halved after the ECIP-1099 fork.
pub dag_epoch : ℕ → ℕ
dag_epoch epoch = if leb 390 epoch then 195 + (epoch - 390) / 2 else epoch

pub get_dataset_size : ℕ → ℕ
get_dataset_size epoch = u64 (2 ^ 30 + 2 ^ 23 * dag_epoch epoch) / 128 * 128

pub get_cache_size : ℕ → ℕ
get_cache_size epoch = u64 (2 ^ 24 + 2 ^ 17 * dag_epoch epoch) / 64 * 64

pub get_epoch : ℕ → ℕ
get_epoch block_number = u32 (block_number / epoch_length)

abbrev pub zero_hash : List ℕ
zero_hash = replicate 32 0

-- `for (i = 0; i < epoch; ++i) seedHash = keccak256(seedHash)`.
pub seed_from : ℕ → List ℕ → List ℕ
seed_from zero seed = seed
seed_from (suc epoch) seed = seed_from epoch (keccak256 seed)

-- `cache[i] = keccak512(cache[i - 1])` for the items after the first, which is `item`.
pub chain : ℕ → List ℕ → List (List ℕ)
chain zero item = []
chain (suc left) item = item ∷ chain left (keccak512 item)

abbrev pub item_at : List (List ℕ) → ℕ → List ℕ
item_at cache i = get_or cache i []

-- The 64-bit words of one list combined with those of another.
pub xor_words : List ℕ → List ℕ → List ℕ
xor_words (x ∷ xs) (y ∷ ys) = bit_xor x y ∷ xor_words xs ys
xor_words xs _ = []

pub memo_item : List (List ℕ) → ℕ → List ℕ
memo_item cache i =
    let num_items = length cache in
    let prev = if i == 0 then num_items - 1 else i - 1 in
    let neighbor = u32 (get_or (words_of (item_at cache i)) 0 0 % num_items) in
    keccak512 (
      state_bytes (
        xor_words (xor_words (lanes_of 8 (item_at cache i)) (lanes_of 8 (item_at cache prev)))
          (lanes_of 8 (item_at cache neighbor))))

-- One round of RandMemoHash, in place, from item `i` on.
pub memo_round : ℕ → ℕ → List (List ℕ) → List (List ℕ)
memo_round zero i cache = cache
memo_round (suc left) i cache = memo_round left (i + 1) (set cache i (memo_item cache i))

pub memo_rounds : ℕ → List (List ℕ) → List (List ℕ)
memo_rounds zero cache = cache
memo_rounds (suc left) cache = memo_rounds left (memo_round (length cache) 0 cache)

-- `calculateCache` for a number of items.
pub build_cache : ℕ → ℕ → List (List ℕ)
build_cache epoch num_items =
    memo_rounds cache_rounds (chain num_items (keccak512 (seed_from epoch zero_hash)))

pub calculate_cache : ℕ → List (List ℕ)
calculate_cache epoch = build_cache epoch (get_cache_size epoch / 64)

-- The loop over the parents of a dataset item, from parent `i` on.
pub mix_parents : ℕ → ℕ → List (List ℕ) → ℕ → List ℕ → List ℕ
mix_parents zero i cache index mix = mix
mix_parents (suc left) i cache index mix =
    let parent = fnv1a (bit_xor index i) (get_or mix (i % 16) 0) % u32 (length cache) in
    mix_parents left (i + 1) cache index (fnv_mix mix (words_of (item_at cache parent)))

pub calculate_dataset_item : List (List ℕ) → ℕ → List ℕ
calculate_dataset_item cache index =
    let first = words_of (item_at cache (index % u32 (length cache))) in
    let seeded = set first 0 (bit_xor (get_or first 0 0) index) in
    let mix = words_of (keccak512 (word_bytes seeded)) in
    keccak512 (word_bytes (mix_parents dataset_parents 0 cache index mix))

pub scan_epochs : ℕ → ℕ → List ℕ → List ℕ → ℕ
scan_epochs zero epoch cur seed_hash = max_u32
scan_epochs (suc left) epoch cur seed_hash =
    let rest = scan_epochs left (epoch + 1) (keccak256 cur) seed_hash in
    if list_eq cur seed_hash then epoch else rest

pub epoch_from_seed_hash : List ℕ → ℕ
epoch_from_seed_hash seed_hash = scan_epochs max_epoch_scan 0 zero_hash seed_hash

-- A nonce as eight bytes, little-endian.
unfoldable pub nonce_bytes : ℕ → List ℕ
nonce_bytes nonce =
    u8 nonce
    ∷ u8 (nonce / 2 ^ 8)
    ∷ u8 (nonce / 2 ^ 16)
    ∷ u8 (nonce / 2 ^ 24)
    ∷ u8 (nonce / 2 ^ 32)
    ∷ u8 (nonce / 2 ^ 40)
    ∷ u8 (nonce / 2 ^ 48)
    ∷ u8 (nonce / 2 ^ 56)
    ∷ []

-- `resultValue |= result[i] << (8 * i)` for the first eight bytes.
pub result_value : ℕ → List ℕ → ℕ → ℕ
result_value i [] value = value
result_value i (b ∷ bytes) value = result_value (i + 1) bytes (bit_or value (u64 (b * 2 ^ (8 * i))))

pub verify_solution : List ℕ → ℕ → List ℕ → List ℕ → ℕ → Bool
verify_solution header_hash nonce mix_hash result target =
    if leb target (result_value 0 (take 8 result) 0)
    then false
    else list_eq (keccak256 (header_hash ++ nonce_bytes nonce ++ mix_hash)) result

-- The index of access `i`, and the offset of an item: `idx * 64` in 32-bit arithmetic.
pub dag_index : ℕ → ℕ → ℕ → List ℕ → ℕ
dag_index i dag_items nonce mix = fnv1a (bit_xor (u32 nonce) i) (get_or mix (i % 16) 0) % dag_items

pub dag_offset : ℕ → ℕ
dag_offset idx = u32 (idx * 64)

-- The loop over the dataset, from access `i` on.
unfoldable pub mix_dag : ℕ → ℕ → List ℕ → ℕ → ℕ → List ℕ → List ℕ
mix_dag zero i dag dag_items nonce mix = mix
mix_dag (suc left) i dag dag_items nonce mix =
    let offset = dag_offset (dag_index i dag_items nonce mix) in
    mix_dag left (i + 1) dag dag_items nonce (fnv_mix mix (words_of (take 64 (drop offset dag))))

unfoldable pub compress : List ℕ → List ℕ
compress mix = fnv_mix (take 8 mix) (drop 8 mix)

-- The dataset is `none` for a null pointer; otherwise its size is that of the list. The code divides by
-- the number of items modulo 2^32: for a size of which that is 0 it has no result, and the one here
-- stands for none of its runs.
-- The result is the mix hash and the final hash.
pub compute_hashimoto : List ℕ → ℕ → Option (List ℕ) → List ℕ × List ℕ
compute_hashimoto header_hash nonce none = (replicate 32 0, replicate 32 0)
compute_hashimoto header_hash nonce (some dag) =
    if ltb (length dag) 64
    then (replicate 32 0, replicate 32 0)
    else (let dag_items = u32 (length dag / 64) in
        let mix = words_of (keccak512 (header_hash ++ nonce_bytes nonce)) in
        let mix_hash = word_bytes (compress (mix_dag 64 0 dag dag_items nonce mix)) in
        (mix_hash, keccak256 (header_hash ++ nonce_bytes nonce ++ mix_hash)))

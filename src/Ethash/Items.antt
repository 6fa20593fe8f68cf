-- ===== src/Ethash/Items.antt =====
-- The words of hashes and the shapes of cache and dataset items.
use ohmy_miner_etc.Common.{
  ℕ, zero, suc, ◌+◌, ◌*◌, ◌^◌, ◌<◌, ◌≡◌, refl, ap, ap₂, ◌∙◌, List, [], ◌∷◌, arith, length, set, All,
  All-set, IsBytes, length-set,
}
use ohmy_miner_etc.Common.Bits.{bit_xor-lt}
use ohmy_miner_etc.Keccak.{keccak512}
use ohmy_miner_etc.Keccak.Bounds.{keccak-IsBytes}
use ohmy_miner_etc.Ethash.{
  fnv1a, fnv_mix, words_of, word_bytes, chain, memo_item, memo_round, memo_rounds, build_cache,
  cache_rounds, seed_from, zero_hash,
}

abbrev pub IsWord : ℕ → Type 0
IsWord w = w < 2 ^ 32

abbrev pub IsWords : List ℕ → Type 0
IsWords = All IsWord

-- A hash of 64 bytes.
abbrev pub IsHash64 : List ℕ → Type 0
IsHash64 item = (length item ≡ 64) × IsBytes item

abbrev pub IsCache : List (List ℕ) → Type 0
IsCache = All IsHash64

pub keccak512-IsHash64 : (content : List ℕ) → IsHash64 (keccak512 content)
keccak512-IsHash64 content = let b = keccak-IsBytes content in (b.2, b.3)

pub fnv1a-IsWord : (a b : ℕ) → IsWord b → IsWord (fnv1a a b)
unfolding fnv1a
fnv1a-IsWord a b h = bit_xor-lt 32 _ b (omega arith) h

pub fnv_mix-IsWords :
    (mix words : List ℕ) → IsWords mix → IsWords words → IsWords (fnv_mix mix words)
fnv_mix-IsWords [] words p q = unfold fnv_mix in tt
fnv_mix-IsWords (m ∷ mix) [] p q = unfold fnv_mix in p
fnv_mix-IsWords (m ∷ mix) (d ∷ words) p q =
    let rest = fnv_mix-IsWords mix words p.1 q.1 in mixed rest
  where
    mixed : IsWords (fnv_mix mix words) → IsWords (fnv_mix (m ∷ mix) (d ∷ words))
    mixed rest = unfold fnv_mix in (fnv1a-IsWord m d q.0, rest)

pub length-fnv_mix : (mix words : List ℕ) → length (fnv_mix mix words) ≡ length mix
unfolding fnv_mix
length-fnv_mix [] words = refl
length-fnv_mix (m ∷ mix) [] = refl
length-fnv_mix (m ∷ mix) (d ∷ words) = ap suc (length-fnv_mix mix words)

pub words_of-IsWords : (bytes : List ℕ) → IsBytes bytes → IsWords (words_of bytes)
unfolding words_of
words_of-IsWords (a ∷ b ∷ c ∷ d ∷ bytes) h =
    (omega (arith, h.0, h.1.0, h.1.1.0, h.1.1.1.0), words_of-IsWords bytes h.1.1.1.1)
words_of-IsWords _ h = tt

pub length-words_of : (n : ℕ) (bytes : List ℕ) → length bytes ≡ 4 * n → length (words_of bytes) ≡ n
unfolding words_of
length-words_of zero [] e = refl
length-words_of (suc n) (a ∷ b ∷ c ∷ d ∷ bytes) e = ap suc (length-words_of n bytes (omega arith))
length-words_of n bytes e = absurd (omega arith)

pub length-word_bytes : (words : List ℕ) → length (word_bytes words) ≡ 4 * length words
unfolding word_bytes
length-word_bytes [] = refl
length-word_bytes (w ∷ words) = omega (arith, length-word_bytes words)

pub word_bytes-IsBytes : (words : List ℕ) → IsBytes (word_bytes words)
unfolding word_bytes
word_bytes-IsBytes [] = tt
word_bytes-IsBytes (w ∷ words) =
    (omega arith, (omega arith, (omega arith, (omega arith, word_bytes-IsBytes words))))

-- The cast to words and back loses nothing.
pub words_of-word_bytes : (words : List ℕ) → IsWords words → words_of (word_bytes words) ≡ words
unfolding words_of word_bytes
words_of-word_bytes [] h = refl
words_of-word_bytes (w ∷ words) h = ap₂ ◌∷◌ (omega (arith, h.0)) (words_of-word_bytes words h.1)

chain-IsCache : (left : ℕ) (item : List ℕ) → IsHash64 item → IsCache (chain left item)
unfolding chain
chain-IsCache zero item h = tt
chain-IsCache (suc left) item h = (h, chain-IsCache left (keccak512 item) (keccak512-IsHash64 item))

length-chain : (left : ℕ) (item : List ℕ) → length (chain left item) ≡ left
unfolding chain
length-chain zero item = refl
length-chain (suc left) item = ap suc (length-chain left (keccak512 item))

memo_item-IsHash64 : (cache : List (List ℕ)) (i : ℕ) → IsHash64 (memo_item cache i)
unfolding memo_item
memo_item-IsHash64 cache i = keccak512-IsHash64 _

memo_round-IsCache :
    (left i : ℕ) (cache : List (List ℕ))
    → IsCache cache
    → IsCache (memo_round left i cache) × (length (memo_round left i cache) ≡ length cache)
unfolding memo_round
memo_round-IsCache zero i cache h = (h, refl)
memo_round-IsCache (suc left) i cache h =
    let ih =
      memo_round-IsCache left (i + 1) (set cache i (memo_item cache i))
        (All-set IsHash64 cache i (memo_item cache i) h (memo_item-IsHash64 cache i)) in
    (ih.0, ih.1 ∙ length-set cache i (memo_item cache i))

memo_rounds-IsCache :
    (left : ℕ) (cache : List (List ℕ))
    → IsCache cache
    → IsCache (memo_rounds left cache) × (length (memo_rounds left cache) ≡ length cache)
unfolding memo_rounds
memo_rounds-IsCache zero cache h = (h, refl)
memo_rounds-IsCache (suc left) cache h =
    let once = memo_round-IsCache (length cache) 0 cache h in
    let ih = memo_rounds-IsCache left (memo_round (length cache) 0 cache) once.0 in
    (ih.0, ih.1 ∙ once.1)

-- A cache has as many items as asked for, and each item is 64 bytes, whatever the rounds of
-- RandMemoHash pick.
pub build_cache-IsCache :
    (epoch num_items : ℕ)
    → IsCache (build_cache epoch num_items) × (length (build_cache epoch num_items) ≡ num_items)
unfolding build_cache
build_cache-IsCache epoch num_items =
    let first = keccak512 (seed_from epoch zero_hash) in
    let r =
      memo_rounds-IsCache cache_rounds (chain num_items first)
        (chain-IsCache num_items first (keccak512-IsHash64 (seed_from epoch zero_hash))) in
    (r.0, r.1 ∙ length-chain num_items first)

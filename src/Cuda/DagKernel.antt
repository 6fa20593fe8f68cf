-- ===== src/Cuda/DagKernel.antt =====
-- src/cuda/dag_kernel.cu: the hashes of the DAG kernel, its threads, and the batches that fill the DAG.
-- The memory of the card is the function from an index to the 64-bit word that stands there. A launch
-- runs its threads in an order that the card chooses; CUDA_CHECK only prints in this file.
pub mod Permutation
pub mod Fill
pub mod Batches
pub mod Tests
use ohmy_miner_etc.Common.{
  ℕ, zero, suc, ◌+◌, ◌-◌, ◌*◌, ◌/◌, ◌%◌, ◌^◌, List, [], ◌∷◌, ◌++◌, Option, none, some, Bool,
  bit_and, bit_or, bit_xor, if◌then◌else◌, ltb, leb, ◌==◌, set, take, drop, map, foldl, replicate,
  length, min, u8, u32, u64,
}
use ohmy_miner_etc.Keccak.{at, cells, columns, not64}

pub fnv1a_device : ℕ → ℕ → ℕ
fnv1a_device hash value = u32 (bit_xor hash value * 0x01000193)

abbrev pub dag_rndc : List ℕ
dag_rndc =
    0x0000000000000001 ∷ 0x0000000000008082 ∷ 0x800000000000808a ∷ 0x8000000080008000
    ∷ 0x000000000000808b ∷ 0x0000000080000001 ∷ 0x8000000080008081 ∷ 0x8000000000008009
    ∷ 0x000000000000008a ∷ 0x0000000000000088 ∷ 0x0000000080008009 ∷ 0x000000008000000a
    ∷ 0x000000008000808b ∷ 0x800000000000008b ∷ 0x8000000000008089 ∷ 0x8000000000008003
    ∷ 0x8000000000008002 ∷ 0x8000000000000080 ∷ 0x000000000000800a ∷ 0x800000008000000a
    ∷ 0x8000000080008081 ∷ 0x8000000000008080 ∷ 0x0000000080000001 ∷ 0x8000000080008008 ∷ []

-- The two tables `keccakf_piln` and `keccakf_rotc`, entry by entry: where a lane goes, and by how
-- much it is rotated.
abbrev pub dag_lanes : List (ℕ × ℕ)
dag_lanes =
    (10, 1)
    ∷ (7, 3)
    ∷ (11, 6)
    ∷ (17, 10)
    ∷ (18, 15)
    ∷ (3, 21)
    ∷ (5, 28)
    ∷ (16, 36)
    ∷ (8, 45)
    ∷ (21, 55)
    ∷ (24, 2)
    ∷ (4, 14)
    ∷ (15, 27)
    ∷ (23, 41)
    ∷ (19, 56)
    ∷ (13, 8)
    ∷ (12, 25)
    ∷ (2, 43)
    ∷ (20, 62)
    ∷ (14, 18)
    ∷ (22, 39)
    ∷ (9, 61)
    ∷ (6, 20)
    ∷ (1, 44)
    ∷ []

-- `(x << n) | (x >> (64 - n))`
pub rotate_dag : ℕ → ℕ → ℕ
rotate_dag x n = bit_or (u64 (x * 2 ^ n)) (x / 2 ^ (64 - n))

pub column_dag : List ℕ → ℕ → ℕ
column_dag state x =
    bit_xor
      (bit_xor (bit_xor (bit_xor (at state x) (at state (x + 5))) (at state (x + 10)))
        (at state (x + 15)))
      (at state (x + 20))

pub theta_dag : List ℕ → List ℕ
unfolding column_dag rotate_dag
theta_dag state =
    let c = map (column_dag state) columns in
    let d = map (λ x. bit_xor (at c ((x + 4) % 5)) (rotate_dag (at c ((x + 1) % 5)) 1)) columns in
    foldl (λ s p. set s (p.1 * 5 + p.0) (bit_xor (at s (p.1 * 5 + p.0)) (at d p.0))) state cells

-- One turn of the loop over the tables: the lane goes into its place, and the old one is carried on.
pub move_lane : List ℕ × ℕ → ℕ × ℕ → List ℕ × ℕ
unfolding rotate_dag
move_lane (state, t) (j, n) = (set state j (rotate_dag t n), at state j)

pub rho_pi_dag : List ℕ → List ℕ
unfolding move_lane
rho_pi_dag state = (foldl move_lane (state, at state 1) dag_lanes).0

-- A row in place, from a copy of its lanes.
pub chi_row : List ℕ → ℕ → List ℕ
chi_row state y =
    let c = map (λ x. at state (y * 5 + x)) columns in
    foldl
      (λ s x.
        set s (y * 5 + x)
          (bit_xor (at s (y * 5 + x)) (bit_and (not64 (at c ((x + 1) % 5))) (at c ((x + 2) % 5)))))
      state columns

pub round_dag : List ℕ → ℕ → List ℕ
unfolding theta_dag rho_pi_dag chi_row
round_dag state constant =
    let after = foldl chi_row (rho_pi_dag (theta_dag state)) columns in
    set after 0 (bit_xor (at after 0) constant)

pub keccak_f1600_dag : List ℕ → List ℕ
keccak_f1600_dag state = foldl round_dag state dag_rndc

-- A byte is added to the state at an offset of the block.
pub absorb_byte : List ℕ → ℕ → ℕ → List ℕ
absorb_byte state offset byte =
    set state (offset / 8) (bit_xor (at state (offset / 8)) (u64 (byte * 2 ^ (8 * (offset % 8)))))

-- The loop over the bytes, with the state and the size of the block so far.
pub absorb_bytes : List ℕ → List ℕ → ℕ → List ℕ × ℕ
absorb_bytes [] state block_size = (state, block_size)
absorb_bytes (byte ∷ bytes) state block_size =
    let state' = absorb_byte state block_size byte in
    let full = block_size + 1 == 72 in
    absorb_bytes bytes (if full then keccak_f1600_dag state' else state')
      (if full then 0 else block_size + 1)

pub squeeze_bytes : ℕ → ℕ → List ℕ → List ℕ
squeeze_bytes zero i state = []
squeeze_bytes (suc left) i state =
    u8 (at state (i / 8) / 2 ^ (8 * (i % 8))) ∷ squeeze_bytes left (i + 1) state

pub keccak512_device : List ℕ → List ℕ
keccak512_device bytes =
    let (state, block_size) = absorb_bytes bytes (replicate 25 0) 0 in
    let padded = absorb_byte (absorb_byte state block_size 0x01) 71 0x80 in
    squeeze_bytes 64 0 (keccak_f1600_dag padded)

-- The memory of the card.
abbrev pub Memory : Type 0
Memory = ℕ → ℕ

pub store : Memory → ℕ → ℕ → Memory
store memory i v p = if i == p then v else memory p

abbrev pub item_words : List ℕ
item_words = 0 ∷ 1 ∷ 2 ∷ 3 ∷ 4 ∷ 5 ∷ 6 ∷ 7 ∷ []

-- `dagItem[i] = dagIndex * 8 + i`
pub write_item : ℕ → Memory → Memory
unfolding store
write_item dag_index dag =
    foldl (λ m i. store m (dag_index * 8 + i) (u64 (dag_index * 8 + i))) dag item_words

-- A thread: `size_t dagIndex = (size_t)startIndex + idx`.
pub dag_item_kernel : ℕ → ℕ → Memory → ℕ → Memory
dag_item_kernel start_index num_items dag thread =
    let written = write_item (start_index + u32 thread) dag in
    if leb num_items (u32 thread) then dag else written

abbrev pub batch_size : ℕ
batch_size = 1024 * 1024

-- The threads of the launch of a batch: `blocks` is `(count + 255) / 256`, in 32 bits.
pub batch_grid : ℕ → ℕ
batch_grid count = u32 (count + 256 - 1) / 256 * 256

-- `start += batchSize` wraps. `none`: the loop has not ended within the fuel.
pub generate_dag_gpu : (ℕ → List ℕ) → ℕ → ℕ → ℕ → Memory → Option Memory
generate_dag_gpu schedule zero start num_dag_items dag = none
generate_dag_gpu schedule (suc fuel) start num_dag_items dag =
    let count = min batch_size (num_dag_items - start) in
    let filled = foldl (dag_item_kernel start count) dag (schedule (batch_grid count)) in
    let rest = generate_dag_gpu schedule fuel (u32 (start + batch_size)) num_dag_items filled in
    if ltb start num_dag_items then rest else some dag

-- ===== src/Ethash/Sizes.antt =====
-- Epoch numbers and sizes: `getDatasetSize`, `getCacheSize` and `getEpoch`.
use ohmy_miner_etc.Common.{ℕ, ◌+◌, ◌*◌, ◌/◌, ◌^◌, ◌<◌, ◌≤◌, ◌≡◌, ◌⊎◌, ◌↔◌, arith, u32}
use ohmy_miner_etc.Ethash.{dag_epoch, get_dataset_size, get_cache_size, get_epoch, epoch_length}

dag_epoch_lem :
    (epoch : ℕ)
    → ((epoch < 390) × (dag_epoch epoch ≡ epoch)) ⊎ ((390 ≤ epoch) × (dag_epoch epoch ≡ epoch / 2))
unfolding dag_epoch
dag_epoch_lem epoch = ground arith

-- On each side of the fork a later epoch never has a smaller dataset or cache.
pub sizes_mono :
    (a b : ℕ)
    → a ≤ b
    → b < 2 ^ 32
    → (b < 390) ⊎ (390 ≤ a)
    → (get_dataset_size a ≤ get_dataset_size b) × (get_cache_size a ≤ get_cache_size b)
unfolding get_dataset_size get_cache_size dag_epoch
sizes_mono a b h k side = ground arith

-- The item count of a dataset fits 32 bits at every epoch that a seed hash can give; and the
-- dataset is larger than 4 GiB exactly from epoch 385 to 389 and from epoch 770 on.
pub dataset_items_fit :
    (epoch : ℕ)
    → epoch < 2000
    → (u32 (get_dataset_size epoch / 64) * 64 ≡ get_dataset_size epoch)
      × ((2 ^ 32 < get_dataset_size epoch) ↔ (((385 ≤ epoch) × (epoch < 390)) ⊎ (770 ≤ epoch)))
unfolding get_dataset_size dag_epoch
dataset_items_fit epoch h = ground arith

-- A block lies in the 30000 blocks of its epoch, as long as the epoch number fits 32 bits.
pub get_epoch_bounds :
    (block : ℕ)
    → block < 30000 * 2 ^ 32
    → (get_epoch block * epoch_length ≤ block) × (block < (get_epoch block + 1) * epoch_length)
unfolding get_epoch
get_epoch_bounds block h = omega arith

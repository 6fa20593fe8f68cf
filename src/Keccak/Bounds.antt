-- ===== src/Keccak/Bounds.antt =====
-- The permutation keeps 25 lanes of 64 bits, and the hashes are bytes of the length asked for.
use native.Mathlib.Nat.{div-le_self}
use ohmy_miner_etc.Common.{
  ℕ, ◌+◌, ◌-◌, ◌*◌, ◌/◌, ◌%◌, ◌^◌, ◌≤◌, ◌≡◌, refl, List, [], ◌∷◌, ◌++◌, bit_xor, arith, length,
  foldl, ◌==◌, ◌&&◌, u64, All-append, All-get_or, All-take, length-take, IsByte, IsBytes,
  Bool-cases, inl, inr, take,
}
use ohmy_miner_etc.Common.Bits.{bit_xor-lt, bit_or-lt, bit_and-le}
use ohmy_miner_etc.Keccak.{
  rotl64, not64, keccak_f1600, state_bytes, keccak, keccak256, keccak512, absorb_block, lanes_of,
  xor_bytes, theta, keccak_round,
}
use ohmy_miner_etc.Keccak.Lanes.{
  IsLane, IsLanes, length-state_bytes, state_bytes-IsBytes, length-lanes_of,
}
use ohmy_miner_etc.Keccak.Round.{
  Plane, lanes, plane, sheet, parity, theta_map, rho_pi_map, chi_map, iota_map, round_map,
  lfsr_constants, keccak_f1600-rounds, theta-lanes, lanes-plane, keccak_round-lanes,
}

abbrev IsWide : Plane → Type 0
IsWide a = (x y : ℕ) → IsLane (a x y)

xor-IsLane : (x y : ℕ) → IsLane x → IsLane y → IsLane (bit_xor x y)
xor-IsLane x y p q = bit_xor-lt 64 x y p q

rotl64-IsLane : (x n : ℕ) → IsLane x → IsLane (rotl64 x n)
unfolding rotl64
rotl64-IsLane x n p =
    bit_or-lt 64 (u64 (x * 2 ^ n)) (x / 2 ^ ((64 - n) % 64)) (omega arith)
      (omega (arith, p, div-le_self x (2 ^ ((64 - n) % 64))))

parity-IsLane : (a : Plane) → IsWide a → (x : ℕ) → IsLane (parity a x)
parity-IsLane a h x =
    xor-IsLane _ _
      (xor-IsLane _ _ (xor-IsLane _ _ (xor-IsLane _ _ (h x 0) (h x 1)) (h x 2)) (h x 3)) (h x 4)

theta-IsWide : (a : Plane) → IsWide a → IsWide (theta_map a)
theta-IsWide a h x y = xor-IsLane _ _ (h x y) (
    xor-IsLane _ _ (parity-IsLane a h ((x + 4) % 5))
      (rotl64-IsLane _ 1 (parity-IsLane a h ((x + 1) % 5))))

rho_pi-IsWide : (a : Plane) → IsWide a → IsWide (rho_pi_map a)
rho_pi-IsWide a h x y = rotl64-IsLane _ _ (h ((x + 3 * y) % 5) x)

chi-IsWide : (a : Plane) → IsWide a → IsWide (chi_map a)
chi-IsWide a h x y =
    xor-IsLane _ _ (h x y)
      (omega (arith, bit_and-le (not64 (a ((x + 1) % 5) y)) (a ((x + 2) % 5) y)))

iota-IsWide : (c : ℕ) (a : Plane) → IsLane c → IsWide a → IsWide (iota_map c a)
iota-IsWide c a l h x y = elim (Bool-cases (x == 0 && y == 0)) [
  | inl e ↦ rw e (xor-IsLane _ _ (h x y) l)
  | inr e ↦ rw e (h x y)
]

rounds-IsWide : (cs : List ℕ) (a : Plane) → IsLanes cs → IsWide a → IsWide (foldl round_map a cs)
rounds-IsWide [] a l h = h
rounds-IsWide (c ∷ cs) a l h =
    rounds-IsWide cs (round_map a c) l.1
      (iota-IsWide c _ l.0 (chi-IsWide _ (rho_pi-IsWide _ (theta-IsWide a h))))

sheet-IsLanes : (a : Plane) → IsWide a → (y : ℕ) → IsLanes (sheet a y)
sheet-IsLanes a h y = (h 0 y, (h 1 y, (h 2 y, (h 3 y, (h 4 y, tt)))))

lanes-IsLanes : (a : Plane) → IsWide a → IsLanes (lanes a)
lanes-IsLanes a h =
    All-append IsLane (sheet a 0) (sheet a 1 ++ sheet a 2 ++ sheet a 3 ++ sheet a 4)
      (sheet-IsLanes a h 0)
      (All-append IsLane (sheet a 1) (sheet a 2 ++ sheet a 3 ++ sheet a 4) (sheet-IsLanes a h 1) (
        All-append IsLane (sheet a 2) (sheet a 3 ++ sheet a 4) (sheet-IsLanes a h 2)
          (All-append IsLane (sheet a 3) (sheet a 4) (sheet-IsLanes a h 3) (sheet-IsLanes a h 4))))

lfsr_constants-IsLanes : IsLanes lfsr_constants
unfolding lfsr_constants
lfsr_constants-IsLanes = omega arith

plane-IsWide : (state : List ℕ) → IsLanes state → IsWide (plane state)
plane-IsWide state h x y = All-get_or IsLane state (x + 5 * y) 0 h (omega arith)

pub theta-IsLanes : (state : List ℕ) → length state ≡ 25 → IsLanes state → IsLanes (theta state)
theta-IsLanes state e h =
    rw (lanes-plane state e, theta-lanes (plane state))
      (lanes-IsLanes _ (theta-IsWide (plane state) (plane-IsWide state h)))

pub keccak_round-IsLanes :
    (state : List ℕ) (c : ℕ)
    → length state ≡ 25
    → IsLanes state
    → IsLane c
    → (length (keccak_round state c) ≡ 25) × IsLanes (keccak_round state c)
keccak_round-IsLanes state c e h l =
    rw (lanes-plane state e, keccak_round-lanes (plane state) c)
      (refl, lanes-IsLanes _ (rounds-IsWide (c ∷ []) (plane state) (l, tt) (plane-IsWide state h)))

-- The permutation maps 25 lanes to 25 lanes, with no bit above the 64th.
pub keccak_f1600-IsLanes :
    (state : List ℕ)
    → length state ≡ 25
    → IsLanes state
    → (length (keccak_f1600 state) ≡ 25) × IsLanes (keccak_f1600 state)
keccak_f1600-IsLanes state e h = rw (keccak_f1600-rounds state e) (
  refl,
  lanes-IsLanes _ (
      rounds-IsWide lfsr_constants (plane state) lfsr_constants-IsLanes
        λ x y. All-get_or IsLane state (x + 5 * y) 0 h (omega arith)),
)

length-keccak_f1600 : (state : List ℕ) → length state ≡ 25 → length (keccak_f1600 state) ≡ 25
length-keccak_f1600 state e = rw (keccak_f1600-rounds state e)

length-absorb_block : (state block : List ℕ) → length (absorb_block state block) ≡ 25
unfolding absorb_block
length-absorb_block state block =
    length-keccak_f1600 (lanes_of 25 (xor_bytes (state_bytes state) block))
      (length-lanes_of 25 (xor_bytes (state_bytes state) block))

take_state :
    (n : ℕ) (state block : List ℕ)
    → n ≤ 200
    → (length (take n (state_bytes (absorb_block state block))) ≡ n)
      × IsBytes (take n (state_bytes (absorb_block state block)))
take_state n state block h = (
  omega (
    arith,
    length-take n (state_bytes (absorb_block state block)),
    length-state_bytes (absorb_block state block),
    length-absorb_block state block,
  ),
  All-take IsByte n (state_bytes (absorb_block state block))
      (state_bytes-IsBytes (absorb_block state block)),
)

keccak_output :
    (content : List ℕ) (n : ℕ)
    → n ≤ 200
    → (length (keccak content n) ≡ n) × IsBytes (keccak content n)
keccak_output content n h = unfold keccak in take_state n _ _ h

-- Whatever the input, `keccak256` gives 32 bytes and `keccak512` 64 bytes.
pub keccak-IsBytes :
    (content : List ℕ)
    → (length (keccak256 content) ≡ 32)
      × IsBytes (keccak256 content)
      × (length (keccak512 content) ≡ 64)
      × IsBytes (keccak512 content)
unfolding keccak256 keccak512
keccak-IsBytes content =
    let a = keccak_output content 32 (omega arith) in
    let b = keccak_output content 64 (omega arith) in (a.0, a.1, b.0, b.1)

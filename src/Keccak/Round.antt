-- ===== src/Keccak/Round.antt =====
-- The loops of one round against the step mappings of Keccak-f, given lane by lane.
use ohmy_miner_etc.Common.{
  ℕ, zero, suc, ◌+◌, ◌-◌, ◌*◌, ◌/◌, ◌%◌, ◌^◌, ◌≡◌, refl, sym, ap, ◌∙◌, List, [], ◌∷◌, ◌++◌, bit_and,
  bit_xor, arith, length, map, foldl, if◌then◌else◌, ◌==◌, ◌&&◌, replicate, ltb, set,
}
use ohmy_miner_etc.Keccak.{
  at, rotl64, not64, rotation_offsets, round_constants, theta, rho_pi_into, chi, iota, keccak_round,
  keccak_f1600,
}

-- The constants of the standard: x^t modulo x^8 + x^6 + x^5 + x^4 + 1 gives the bits of the round
-- constants, and the walk (x, y) → (y, 2x + 3y) the rotations.
abbrev lfsr : ℕ → ℕ
lfsr zero = 1
lfsr (suc t) = let next = lfsr t * 2 in if ltb next 256 then next else bit_xor next 0x171

abbrev lfsr_constant : ℕ → ℕ
lfsr_constant round =
    foldl (λ c j. c + lfsr (j + 7 * round) % 2 * 2 ^ (2 ^ j - 1)) 0 (0 ∷ 1 ∷ 2 ∷ 3 ∷ 4 ∷ 5 ∷ 6 ∷ [])

abbrev count_from : ℕ → ℕ → List ℕ
count_from zero i = []
count_from (suc n) i = i ∷ count_from n (i + 1)

unfoldable pub lfsr_constants : List ℕ
lfsr_constants = map lfsr_constant (count_from 24 0)

rho_walk : ℕ → ℕ → ℕ → ℕ → List ℕ → List ℕ
rho_walk zero t x y offsets = offsets
rho_walk (suc left) t x y offsets =
    rho_walk left (t + 1) y ((2 * x + 3 * y) % 5)
      (set offsets (x + 5 * y) ((t + 1) * (t + 2) / 2 % 64))

pub walk_offsets : List ℕ
unfolding rho_walk
walk_offsets = rho_walk 24 0 1 0 (replicate 25 0)

lfsr_constants_lem : lfsr_constants ≡ round_constants
unfolding lfsr_constants
lfsr_constants_lem = refl

walk_offsets_lem : walk_offsets ≡ rotation_offsets
unfolding walk_offsets
walk_offsets_lem = refl

-- A state as a function of the coordinates x and y.
abbrev pub Plane : Type 0
Plane = ℕ → ℕ → ℕ

abbrev pub parity : Plane → ℕ → ℕ
parity a x = bit_xor (bit_xor (bit_xor (bit_xor (a x 0) (a x 1)) (a x 2)) (a x 3)) (a x 4)

abbrev pub theta_map : Plane → Plane
theta_map a x y =
    bit_xor (a x y) (bit_xor (parity a ((x + 4) % 5)) (rotl64 (parity a ((x + 1) % 5)) 1))

-- Lane (x, y) comes from lane (x + 3y, x).
abbrev pub rho_pi_map : Plane → Plane
rho_pi_map a x y = rotl64 (a ((x + 3 * y) % 5) x) (at walk_offsets ((x + 3 * y) % 5 + 5 * x))

abbrev pub chi_map : Plane → Plane
chi_map a x y = bit_xor (a x y) (bit_and (not64 (a ((x + 1) % 5) y)) (a ((x + 2) % 5) y))

abbrev pub iota_map : ℕ → Plane → Plane
iota_map constant a x y = if x == 0 && y == 0 then bit_xor (a x y) constant else a x y

abbrev pub round_map : Plane → ℕ → Plane
round_map a constant = iota_map constant (chi_map (rho_pi_map (theta_map a)))

abbrev pub sheet : Plane → ℕ → List ℕ
sheet a y = a 0 y ∷ a 1 y ∷ a 2 y ∷ a 3 y ∷ a 4 y ∷ []

-- The array that holds a plane: lane (x, y) at index x + 5y.
abbrev pub lanes : Plane → List ℕ
lanes a = sheet a 0 ++ sheet a 1 ++ sheet a 2 ++ sheet a 3 ++ sheet a 4

abbrev pub plane : List ℕ → Plane
plane state x y = at state (x + 5 * y)

pub theta-lanes : (a : Plane) → theta (lanes a) ≡ lanes (theta_map a)
unfolding theta
theta-lanes a = refl

-- Whatever the uninitialised array holds, each of its lanes is written.
pub rho_pi_into-lanes : (b a : Plane) → rho_pi_into (lanes b) (lanes a) ≡ lanes (rho_pi_map a)
unfolding rho_pi_into walk_offsets
rho_pi_into-lanes b a = refl

chi-lanes : (b a : Plane) → chi (lanes b) (lanes a) ≡ lanes (chi_map b)
unfolding chi
chi-lanes b a = refl

iota-lanes : (constant : ℕ) (a : Plane) → iota constant (lanes a) ≡ lanes (iota_map constant a)
unfolding iota
iota-lanes constant a = refl

pub keccak_round-lanes :
    (a : Plane) (constant : ℕ) → keccak_round (lanes a) constant ≡ lanes (round_map a constant)
unfolding keccak_round walk_offsets
keccak_round-lanes a constant = refl

rounds-lanes :
    (a : Plane) (constants : List ℕ)
    → foldl keccak_round (lanes a) constants ≡ lanes (foldl round_map a constants)
rounds-lanes a [] = refl
rounds-lanes a (c ∷ constants) =
    ap (λ s. foldl keccak_round s constants) (keccak_round-lanes a c)
    ∙ rounds-lanes (round_map a c) constants

pub lanes-plane : (state : List ℕ) → length state ≡ 25 → state ≡ lanes (plane state)
lanes-plane
      (a0 ∷ a1 ∷ a2 ∷ a3 ∷ a4 ∷ a5 ∷ a6 ∷ a7 ∷ a8 ∷ a9 ∷ a10 ∷ a11 ∷ a12 ∷ a13 ∷ a14 ∷ a15 ∷ a16
        ∷ a17 ∷ a18 ∷ a19 ∷ a20 ∷ a21 ∷ a22 ∷ a23 ∷ a24 ∷ [])
      h =
    refl
lanes-plane state h = absurd (omega arith)

-- On any 25 lanes the loops of `keccak_f1600` compute the 24 rounds of Keccak-f[1600], each as the
-- step mappings define it lane by lane, with the rotations and the round constants that the walk and
-- the shift register of the standard generate.
pub keccak_f1600-rounds :
    (state : List ℕ)
    → length state ≡ 25
    → keccak_f1600 state ≡ lanes (foldl round_map (plane state) lfsr_constants)
keccak_f1600-rounds state h =
    ap keccak_f1600 (lanes-plane state h)
    ∙ unfold keccak_f1600 in
      rounds-lanes (plane state) round_constants
      ∙ ap (λ cs. lanes (foldl round_map (plane state) cs)) (sym lfsr_constants_lem)

-- ===== src/Cuda/DagKernel/Permutation.antt =====
-- The permutation of the DAG kernel, which moves the lanes in place, against that of the host.
use ohmy_miner_etc.Common.{
  ℕ, ◌*◌, ◌/◌, ◌^◌, ◌≡◌, refl, sym, ap, ◌∙◌, List, [], ◌∷◌, arith, length, set, All-get_or, foldl,
  replicate, u64,
}
use ohmy_miner_etc.Common.Bits.{bit_or_self}
use ohmy_miner_etc.Keccak.{
  at, columns, rotl64, theta, rho_pi_into, chi, iota, keccak_round, keccak_f1600, round_constants,
}
use ohmy_miner_etc.Keccak.Lanes.{IsLane, IsLanes}
use ohmy_miner_etc.Keccak.Round.{Plane, lanes, plane, lanes-plane, rho_pi_map, rho_pi_into-lanes}
use ohmy_miner_etc.Keccak.Bounds.{theta-IsLanes, keccak_round-IsLanes}
use ohmy_miner_etc.Cuda.DagKernel.{theta_dag, rho_pi_dag, chi_row, round_dag, keccak_f1600_dag}

rotl64-zero : (x : ℕ) → IsLane x → rotl64 x 0 ≡ x
unfolding rotl64
rotl64-zero x h =
    let b : u64 (x * 2 ^ 0) ≡ x = omega arith in
    let c : x / 2 ^ 0 ≡ x = omega arith in rw (b, c) (bit_or_self x)

theta_dag-theta : (state : List ℕ) → theta_dag state ≡ theta state
unfolding theta_dag theta
theta_dag-theta state = refl

abbrev zeros : List ℕ
zeros = replicate 25 0

-- The chain of moves puts each lane where the host does; lane 0 stays.
rho_pi_dag-lanes : (a : Plane) → rho_pi_dag (lanes a) ≡ set (rho_pi_into zeros (lanes a)) 0 (a 0 0)
unfolding rho_pi_dag rho_pi_into
rho_pi_dag-lanes a = refl

set_rotated :
    (a : Plane)
    → set (rho_pi_into zeros (lanes a)) 0 (rotl64 (a 0 0) 0) ≡ rho_pi_into zeros (lanes a)
unfolding rho_pi_into
set_rotated a = refl

rho_pi_dag-rho_pi_into :
    (state : List ℕ)
    → length state ≡ 25
    → IsLane (at state 0)
    → rho_pi_dag state ≡ rho_pi_into zeros state
rho_pi_dag-rho_pi_into state e h = rw (lanes-plane state e) (
    rho_pi_dag-lanes (plane state)
    ∙ ap (set (rho_pi_into zeros (lanes (plane state))) 0) (sym (rotl64-zero (at state 0) h))
    ∙ set_rotated (plane state))

chi_rows : (b a : Plane) → foldl chi_row (lanes b) columns ≡ chi (lanes b) (lanes a)
unfolding chi_row chi
chi_rows b a = refl

chi_rows-chi :
    (mixed : List ℕ)
    → length mixed ≡ 25
    → foldl chi_row (rho_pi_into zeros mixed) columns ≡ chi (rho_pi_into zeros mixed) mixed
chi_rows-chi mixed e =
    rw (lanes-plane mixed e, rho_pi_into-lanes (λ x y. 0) (plane mixed))
      (chi_rows (rho_pi_map (plane mixed)) (plane mixed))

length-theta : (state : List ℕ) → length state ≡ 25 → length (theta state) ≡ 25
unfolding theta
length-theta state e = rw (lanes-plane state e)

round_dag-keccak_round :
    (state : List ℕ) (c : ℕ)
    → length state ≡ 25
    → IsLanes state
    → round_dag state c ≡ keccak_round state c
unfolding round_dag keccak_round iota
round_dag-keccak_round state c e h =
    let mixed = theta state in
    ap (λ m. iota c (foldl chi_row (rho_pi_dag m) columns)) (theta_dag-theta state)
    ∙ ap (λ b. iota c (foldl chi_row b columns))
        (rho_pi_dag-rho_pi_into mixed (length-theta state e)
          (All-get_or IsLane mixed 0 0 (theta-IsLanes state e h) (omega arith)))
    ∙ ap (iota c) (chi_rows-chi mixed (length-theta state e))

rounds_dag :
    (state cs : List ℕ)
    → length state ≡ 25
    → IsLanes state
    → IsLanes cs
    → foldl round_dag state cs ≡ foldl keccak_round state cs
rounds_dag state [] e h l = refl
rounds_dag state (c ∷ cs) e h l =
    let kept = keccak_round-IsLanes state c e h l.0 in
    ap (λ s. foldl round_dag s cs) (round_dag-keccak_round state c e h)
    ∙ rounds_dag (keccak_round state c) cs kept.0 kept.1 l.1

-- On any 25 lanes of 64 bits the permutation of the DAG kernel, which carries one lane after the
-- other to its place and mixes the rows in place, is the permutation of the host.
pub keccak_f1600_dag-keccak_f1600 :
    (state : List ℕ)
    → length state ≡ 25
    → IsLanes state
    → keccak_f1600_dag state ≡ keccak_f1600 state
unfolding keccak_f1600_dag keccak_f1600
keccak_f1600_dag-keccak_f1600 state e h = rounds_dag state round_constants e h (omega arith)

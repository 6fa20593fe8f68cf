-- ===== src/Keccak/Lanes.antt =====
-- Lanes and bytes: loading and storing little-endian words, and the byte view of the state.
use ohmy_miner_etc.Common.{
  ℕ, zero, suc, ◌+◌, ◌*◌, ◌/◌, ◌^◌, ◌<◌, ◌≡◌, refl, ap, ap₂, ◌∙◌, List, [], ◌∷◌, ◌++◌, bit_or,
  arith, length, drop, u8, u64, All, IsByte, IsBytes, All-append, length-append,
}
use ohmy_miner_etc.Common.Bits.{shifted_bit_or}
use ohmy_miner_etc.Keccak.{load64, store64, state_bytes, lanes_of}

abbrev pub IsLane : ℕ → Type 0
IsLane x = x < 2 ^ 64

abbrev pub IsLanes : List ℕ → Type 0
IsLanes = All IsLane

or_above : (k u x : ℕ) → u < 2 ^ k → x * 2 ^ k < 2 ^ 64 → bit_or u (u64 (x * 2 ^ k)) ≡ u + x * 2 ^ k
or_above k u x p q =
    let fits : u64 (x * 2 ^ k) ≡ x * 2 ^ k = omega arith in rw fits (shifted_bit_or k x u p)

pub load64_value :
    (a b c d e f g h : ℕ)
    → a < 256
    → b < 256
    → c < 256
    → d < 256
    → e < 256
    → f < 256
    → g < 256
    → h < 256
    → load64 (a ∷ b ∷ c ∷ d ∷ e ∷ f ∷ g ∷ h ∷ [])
      ≡ a + b * 2 ^ 8 + c * 2 ^ 16 + d * 2 ^ 24 + e * 2 ^ 32 + f * 2 ^ 40 + g * 2 ^ 48 + h * 2 ^ 56
unfolding load64
load64_value a b c d e f g h ha hb hc hd he hf hg hh =
    rw
      (
        or_above 0 0 a (omega arith) (omega arith),
        or_above 8 (0 + a * 2 ^ 0) b (omega arith) (omega arith),
        or_above 16 (0 + a * 2 ^ 0 + b * 2 ^ 8) c (omega arith) (omega arith),
        or_above 24 (0 + a * 2 ^ 0 + b * 2 ^ 8 + c * 2 ^ 16) d (omega arith) (omega arith),
        or_above 32 (0 + a * 2 ^ 0 + b * 2 ^ 8 + c * 2 ^ 16 + d * 2 ^ 24) e (omega arith)
            (omega arith),
        or_above 40 (0 + a * 2 ^ 0 + b * 2 ^ 8 + c * 2 ^ 16 + d * 2 ^ 24 + e * 2 ^ 32) f
            (omega arith) (omega arith),
        or_above 48 (0 + a * 2 ^ 0 + b * 2 ^ 8 + c * 2 ^ 16 + d * 2 ^ 24 + e * 2 ^ 32 + f * 2 ^ 40)
            g (omega arith) (omega arith),
        or_above 56
            (0
              + a * 2 ^ 0
              + b * 2 ^ 8
              + c * 2 ^ 16
              + d * 2 ^ 24
              + e * 2 ^ 32
              + f * 2 ^ 40
              + g * 2 ^ 48)
            h (omega arith) (omega arith),
      )
      (omega arith)

store64-IsBytes : (u : ℕ) → IsBytes (store64 u)
unfolding store64
store64-IsBytes u = omega arith

length-store64 : (u : ℕ) → length (store64 u) ≡ 8
unfolding store64
length-store64 u = refl

pub load64-store64 : (u : ℕ) → IsLane u → load64 (store64 u) ≡ u
unfolding store64
load64-store64 u h =
    load64_value (u8 (u / 2 ^ 0)) (u8 (u / 2 ^ 8)) (u8 (u / 2 ^ 16)) (u8 (u / 2 ^ 24))
      (u8 (u / 2 ^ 32)) (u8 (u / 2 ^ 40)) (u8 (u / 2 ^ 48)) (u8 (u / 2 ^ 56)) (omega arith)
      (omega arith) (omega arith) (omega arith) (omega arith) (omega arith) (omega arith)
      (omega arith)
    ∙ omega arith

pub load64-IsLane :
    (a b c d e f g h : ℕ)
    → a < 256
    → b < 256
    → c < 256
    → d < 256
    → e < 256
    → f < 256
    → g < 256
    → h < 256
    → IsLane (load64 (a ∷ b ∷ c ∷ d ∷ e ∷ f ∷ g ∷ h ∷ []))
load64-IsLane a b c d e f g h ha hb hc hd he hf hg hh =
    omega (arith, load64_value a b c d e f g h ha hb hc hd he hf hg hh)

bytes_eq :
    (s a b c d e f g h : ℕ)
    → u8 (s / 2 ^ 0) ≡ a
    → u8 (s / 2 ^ 8) ≡ b
    → u8 (s / 2 ^ 16) ≡ c
    → u8 (s / 2 ^ 24) ≡ d
    → u8 (s / 2 ^ 32) ≡ e
    → u8 (s / 2 ^ 40) ≡ f
    → u8 (s / 2 ^ 48) ≡ g
    → u8 (s / 2 ^ 56) ≡ h
    → store64 s ≡ a ∷ b ∷ c ∷ d ∷ e ∷ f ∷ g ∷ h ∷ []
unfolding store64
bytes_eq s a b c d e f g h pa pb pc pd pe pf pg ph = cc

pub store64-load64 :
    (a b c d e f g h : ℕ)
    → a < 256
    → b < 256
    → c < 256
    → d < 256
    → e < 256
    → f < 256
    → g < 256
    → h < 256
    → store64 (load64 (a ∷ b ∷ c ∷ d ∷ e ∷ f ∷ g ∷ h ∷ [])) ≡ a ∷ b ∷ c ∷ d ∷ e ∷ f ∷ g ∷ h ∷ []
store64-load64 a b c d e f g h ha hb hc hd he hf hg hh =
    ap store64 (load64_value a b c d e f g h ha hb hc hd he hf hg hh)
    ∙ bytes_eq
        (a
          + b * 2 ^ 8
          + c * 2 ^ 16
          + d * 2 ^ 24
          + e * 2 ^ 32
          + f * 2 ^ 40
          + g * 2 ^ 48
          + h * 2 ^ 56)
        a b c d e f g h (omega arith) (omega arith) (omega arith) (omega arith) (omega arith)
        (omega arith) (omega arith) (omega arith)

load64-take : (u : ℕ) (rest : List ℕ) → load64 (store64 u ++ rest) ≡ load64 (store64 u)
unfolding load64 store64
load64-take u rest = refl

drop-store64 : (u : ℕ) (rest : List ℕ) → drop 8 (store64 u ++ rest) ≡ rest
unfolding store64
drop-store64 u rest = refl

-- The bytes of lanes below 2^64, loaded again, are these lanes: the byte view loses nothing.
pub lanes_of-state_bytes :
    (state : List ℕ) → IsLanes state → lanes_of (length state) (state_bytes state) ≡ state
unfolding lanes_of state_bytes
lanes_of-state_bytes [] h = refl
lanes_of-state_bytes (u ∷ state) h =
    ap₂ ◌∷◌ (load64-take u (state_bytes state) ∙ load64-store64 u h.0) (
      ap (lanes_of (length state)) (drop-store64 u (state_bytes state))
      ∙ lanes_of-state_bytes state h.1)

pub length-state_bytes : (state : List ℕ) → length (state_bytes state) ≡ 8 * length state
unfolding state_bytes
length-state_bytes [] = refl
length-state_bytes (u ∷ state) = omega (
  arith,
  length-append (store64 u) (state_bytes state),
  length-store64 u,
  length-state_bytes state,
)

pub state_bytes-IsBytes : (state : List ℕ) → IsBytes (state_bytes state)
unfolding state_bytes
state_bytes-IsBytes [] = tt
state_bytes-IsBytes (u ∷ state) =
    All-append IsByte (store64 u) (state_bytes state) (store64-IsBytes u)
      (state_bytes-IsBytes state)

pub length-lanes_of : (n : ℕ) (bytes : List ℕ) → length (lanes_of n bytes) ≡ n
unfolding lanes_of
length-lanes_of zero bytes = refl
length-lanes_of (suc n) bytes = ap suc (length-lanes_of n (drop 8 bytes))

load64_first :
    (a b c d e f g i : ℕ) (rest : List ℕ)
    → load64 (a ∷ b ∷ c ∷ d ∷ e ∷ f ∷ g ∷ i ∷ rest) ≡ load64 (a ∷ b ∷ c ∷ d ∷ e ∷ f ∷ g ∷ i ∷ [])
unfolding load64
load64_first a b c d e f g i rest = refl

state_bytes-cons :
    (u : ℕ) (state : List ℕ) → state_bytes (u ∷ state) ≡ store64 u ++ state_bytes state
unfolding state_bytes
state_bytes-cons u state = refl

lanes_of-suc :
    (n : ℕ) (bytes : List ℕ) → lanes_of (suc n) bytes ≡ load64 bytes ∷ lanes_of n (drop 8 bytes)
unfolding lanes_of
lanes_of-suc n bytes = refl

-- Lanes that are loaded from 8 bytes each show these bytes, and are below 2^64.
pub state_bytes-lanes_of :
    (n : ℕ) (bytes : List ℕ)
    → length bytes ≡ 8 * n
    → IsBytes bytes
    → (state_bytes (lanes_of n bytes) ≡ bytes) × IsLanes (lanes_of n bytes)
state_bytes-lanes_of zero [] l h = (unfold state_bytes lanes_of in refl, unfold lanes_of in tt)
state_bytes-lanes_of zero (x ∷ bytes) l h = absurd (omega arith)
state_bytes-lanes_of (suc n) (a ∷ b ∷ c ∷ d ∷ e ∷ f ∷ g ∷ i ∷ bytes) l h =
    let ih = state_bytes-lanes_of n bytes (omega arith) h.1.1.1.1.1.1.1.1 in
    rw (lanes_of-suc n, load64_first a b c d e f g i bytes)
      (
        state_bytes-cons (load64 (a ∷ b ∷ c ∷ d ∷ e ∷ f ∷ g ∷ i ∷ [])) (lanes_of n bytes)
            ∙ ap₂ ◌++◌
                (store64-load64 a b c d e f g i h.0 h.1.0 h.1.1.0 h.1.1.1.0 h.1.1.1.1.0
                  h.1.1.1.1.1.0 h.1.1.1.1.1.1.0 h.1.1.1.1.1.1.1.0)
                ih.0,
        (
          load64-IsLane a b c d e f g i h.0 h.1.0 h.1.1.0 h.1.1.1.0 h.1.1.1.1.0 h.1.1.1.1.1.0
              h.1.1.1.1.1.1.0 h.1.1.1.1.1.1.1.0,
          ih.1,
        ),
      )
state_bytes-lanes_of (suc n) bytes l h = absurd (omega arith)

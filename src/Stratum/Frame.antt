-- ===== src/Stratum/Frame.antt =====
-- The scanner of `processMessages`: it cuts the JSON objects out of what one `recv` gave.
pub mod Objects
pub mod Delivery
use ohmy_miner_etc.Common.{
  ℕ, zero, suc, ◌+◌, ◌-◌, List, [], ◌∷◌, ◌++◌, Bool, true, false, not, ◌||◌, if◌then◌else◌, ◌==◌,
  take, drop, length,
}

pub record Scanner : Type 0 where
  pub brace_count : ℕ
  pub in_string : Bool
  pub escaped : Bool

abbrev pub start_scanner : Scanner
start_scanner = record { brace_count = 0; in_string = false; escaped = false }

-- One character, and whether it closes the object. The count is never below 1 where it is taken
-- down, since the scan starts at an opening brace.
pub step : Scanner → ℕ → Scanner × Bool
step s c =
    if s.escaped
    then (record s { escaped = false }, false)
    else if c == b'\\'
    then (record s { escaped = true }, false)
    else if c == b'"'
    then (record s { in_string = not s.in_string }, false)
    else if s.in_string
    then (s, false)
    else if c == b'{'
    then (record s { brace_count = s.brace_count + 1 }, false)
    else if c == b'}'
    then (record s { brace_count = s.brace_count - 1 }, s.brace_count - 1 == 0)
    else (s, false)

-- The inner loop: the final count of braces, and how many characters it went over.
pub find_end : Scanner → List ℕ → ℕ → ℕ × ℕ
find_end s [] taken = (s.brace_count, taken)
find_end s (c ∷ text) taken =
    let next = step s c in
    let rest = find_end next.0 text (taken + 1) in
    if next.1 then (next.0.brace_count, taken + 1) else rest

pub is_blank : ℕ → Bool
is_blank c = c == b' ' || c == b'\n' || c == b'\r'

pub skip_blanks : List ℕ → List ℕ
unfolding is_blank
skip_blanks [] = []
skip_blanks (c ∷ text) = if is_blank c then skip_blanks text else c ∷ text

-- The outer loop, from a text on; every round goes over a character at least.
pub cut_objects : ℕ → List ℕ → List (List ℕ)
cut_objects zero text = []
cut_objects (suc fuel) text = elim (skip_blanks text) [
  | [] ↦ []
  | c ∷ rest ↦
      let message = c ∷ rest in
      let (brace_count, json_end) = find_end start_scanner message 0 in
      let skipped = cut_objects fuel rest in
      let later = take json_end message ∷ cut_objects fuel (drop json_end message) in
      if c == b'{' then if brace_count == 0 then later else [] else skipped
]

-- The objects in a message, in order.
pub objects_of : List ℕ → List (List ℕ)
objects_of message = cut_objects (length message) message

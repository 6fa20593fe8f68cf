-- ===== src/Stratum/Frame/Objects.antt =====
-- Which objects the scanner finds: those that are there in full, in order.
use ohmy_miner_etc.Common.{
  ℕ, ◌+◌, ◌-◌, ◌<◌, ◌≤◌, ◌≡◌, ◌≢◌, refl, sym, ap, ◌∙◌, List, [], ◌∷◌, ◌++◌, Bool, true, false, not,
  length, arith, length-append, append_assoc, append-nil, All, Bool-cases, inl, inr,
}
use ohmy_miner_etc.Stratum.Frame.{Scanner, start_scanner, step, find_end}

-- The shape of a JSON object, as far as braces and strings go.
pub data Letter : Type 0 where
  raw : ℕ → Letter
  escape : ℕ → Letter

pub data Body : Type 0 where
  done : Body
  plain : ℕ → Body → Body
  quoted : List Letter → Body → Body
  nested : Body → Body → Body

abbrev pub letters : List Letter → List ℕ
letters [] = []
letters (raw c ∷ s) = c ∷ letters s
letters (escape c ∷ s) = b'\\' ∷ c ∷ letters s

abbrev pub render : Body → List ℕ
render done = []
render (plain c b) = c ∷ render b
render (quoted s b) = b'"' ∷ (letters s ++ b'"' ∷ render b)
render (nested a b) = b'{' ∷ (render a ++ b'}' ∷ render b)

-- A raw letter is neither a quote nor a backslash, and a plain character no brace either.
abbrev pub IsLetter : Letter → Type 0
IsLetter (raw c) = (c ≢ b'"') × (c ≢ b'\\')
IsLetter (escape c) = Unit

abbrev pub IsWellFormed : Body → Type 0
IsWellFormed done = Unit
IsWellFormed (plain c b) = ((c ≢ b'"') × (c ≢ b'\\') × (c ≢ b'{') × (c ≢ b'}')) × IsWellFormed b
IsWellFormed (quoted s b) = All IsLetter s × IsWellFormed b
IsWellFormed (nested a b) = IsWellFormed a × IsWellFormed b

abbrev pub object : Body → List ℕ
object b = b'{' ∷ (render b ++ b'}' ∷ [])

abbrev scanning : ℕ → Bool → Scanner
scanning n inside = record { brace_count = n; in_string = inside; escaped = false }

-- One character of each kind.
scan_raw :
    (n c : ℕ) (text : List ℕ) (taken : ℕ)
    → c ≢ b'"'
    → c ≢ b'\\'
    → find_end (scanning n true) (c ∷ text) taken ≡ find_end (scanning n true) text (taken + 1)
unfolding find_end step
scan_raw n c text taken p q = ground arith

scan_escape :
    (n c : ℕ) (text : List ℕ) (taken : ℕ)
    → find_end (scanning n true) (b'\\' ∷ c ∷ text) taken
      ≡ find_end (scanning n true) text (taken + 1 + 1)
unfolding find_end step
scan_escape n c text taken = refl

scan_plain :
    (n c : ℕ) (text : List ℕ) (taken : ℕ)
    → c ≢ b'"'
    → c ≢ b'\\'
    → c ≢ b'{'
    → c ≢ b'}'
    → find_end (scanning n false) (c ∷ text) taken ≡ find_end (scanning n false) text (taken + 1)
unfolding find_end step
scan_plain n c text taken p q r s = ground arith

scan_quote :
    (n : ℕ) (inside : Bool) (text : List ℕ) (taken : ℕ)
    → find_end (scanning n inside) (b'"' ∷ text) taken
      ≡ find_end (scanning n (not inside)) text (taken + 1)
unfolding find_end step
scan_quote n inside text taken = refl

scan_open :
    (n : ℕ) (text : List ℕ) (taken : ℕ)
    → find_end (scanning n false) (b'{' ∷ text) taken
      ≡ find_end (scanning (n + 1) false) text (taken + 1)
unfolding find_end step
scan_open n text taken = refl

scan_close :
    (n : ℕ) (text : List ℕ) (taken : ℕ)
    → find_end (scanning (n + 1 + 1) false) (b'}' ∷ text) taken
      ≡ find_end (scanning (n + 1) false) text (taken + 1)
unfolding find_end step
scan_close n text taken = let e : n + 1 + 1 - 1 ≡ n + 1 = omega arith in rw e (ground arith)

scan_last :
    (text : List ℕ) (taken : ℕ)
    → find_end (scanning (0 + 1) false) (b'}' ∷ text) taken ≡ (0, taken + 1)
unfolding find_end step
scan_last text taken = refl

letters_scan :
    (s : List Letter) (n : ℕ) (rest : List ℕ) (taken : ℕ)
    → All IsLetter s
    → find_end (scanning n true) (letters s ++ rest) taken
      ≡ find_end (scanning n true) rest (taken + length (letters s))
letters_scan [] n rest taken h = ap (find_end (scanning n true) rest) (omega arith)
letters_scan (raw c ∷ s) n rest taken h =
    scan_raw n c (letters s ++ rest) taken h.0.0 h.0.1
    ∙ letters_scan s n rest (taken + 1) h.1
    ∙ ap (find_end (scanning n true) rest) (omega arith)
letters_scan (escape c ∷ s) n rest taken h =
    scan_escape n c (letters s ++ rest) taken
    ∙ letters_scan s n rest (taken + 1 + 1) h.1
    ∙ ap (find_end (scanning n true) rest) (omega arith)

render_scan :
    (b : Body) (n : ℕ) (rest : List ℕ) (taken : ℕ)
    → IsWellFormed b
    → find_end (scanning (n + 1) false) (render b ++ rest) taken
      ≡ find_end (scanning (n + 1) false) rest (taken + length (render b))
render_scan done n rest taken h = ap (find_end (scanning (n + 1) false) rest) (omega arith)
render_scan (plain c b) n rest taken h =
    scan_plain (n + 1) c (render b ++ rest) taken h.0.0 h.0.1 h.0.2 h.0.3
    ∙ render_scan b n rest (taken + 1) h.1
    ∙ ap (find_end (scanning (n + 1) false) rest) (omega arith)
render_scan (quoted s b) n rest taken h =
    scan_quote (n + 1) false _ taken
    ∙ ap (λ t. find_end (scanning (n + 1) true) t (taken + 1))
        (append_assoc (letters s) (b'"' ∷ render b) rest)
    ∙ letters_scan s (n + 1) (b'"' ∷ (render b ++ rest)) (taken + 1) h.0
    ∙ scan_quote (n + 1) true (render b ++ rest) (taken + 1 + length (letters s))
    ∙ render_scan b n rest (taken + 1 + length (letters s) + 1) h.1
    ∙ ap (find_end (scanning (n + 1) false) rest)
        (omega (arith, length-append (letters s) (b'"' ∷ render b)))
render_scan (nested a b) n rest taken h =
    scan_open (n + 1) _ taken
    ∙ ap (λ t. find_end (scanning (n + 1 + 1) false) t (taken + 1))
        (append_assoc (render a) (b'}' ∷ render b) rest)
    ∙ render_scan a (n + 1) (b'}' ∷ (render b ++ rest)) (taken + 1) h.0
    ∙ scan_close n (render b ++ rest) (taken + 1 + length (render a))
    ∙ render_scan b n rest (taken + 1 + length (render a) + 1) h.1
    ∙ ap (find_end (scanning (n + 1) false) rest)
        (omega (arith, length-append (render a) (b'}' ∷ render b)))

-- The scan of an object stops at its closing brace.
pub object_scan :
    (b : Body) (rest : List ℕ)
    → IsWellFormed b
    → find_end start_scanner (object b ++ rest) 0 ≡ (0, length (object b))
object_scan b rest h =
    scan_open 0 ((render b ++ b'}' ∷ []) ++ rest) 0
    ∙ ap (λ t. find_end (scanning (0 + 1) false) t (0 + 1))
        (append_assoc (render b) (b'}' ∷ []) rest)
    ∙ render_scan b 0 (b'}' ∷ rest) (0 + 1) h
    ∙ scan_last rest (0 + 1 + length (render b))
    ∙ ap (λ (k : ℕ). (0, k)) (omega (arith, length-append (render b) (b'}' ∷ [])))

step_pos :
    (s : Scanner) (c : ℕ) → 0 < s.brace_count → (step s c).1 ≡ false → 0 < (step s c).0.brace_count
unfolding step
step_pos s c h e = ground arith

find_end_on :
    (s : Scanner) (c : ℕ) (text : List ℕ) (taken : ℕ)
    → (step s c).1 ≡ false
    → find_end s (c ∷ text) taken ≡ find_end (step s c).0 text (taken + 1)
unfolding find_end
find_end_on s c text taken h = rw h

find_end_stop :
    (s : Scanner) (c : ℕ) (text : List ℕ) (taken : ℕ)
    → (step s c).1 ≡ true
    → find_end s (c ∷ text) taken ≡ ((step s c).0.brace_count, taken + 1)
unfolding find_end
find_end_stop s c text taken h = rw h

-- A scan that closes within a text closes there whatever follows.
find_end_prefix :
    (text : List ℕ) (s : Scanner) (taken k : ℕ) (rest : List ℕ)
    → 0 < s.brace_count
    → find_end s text taken ≡ (0, k)
    → (find_end s (text ++ rest) taken ≡ (0, k)) × (k ≤ taken + length text)
find_end_prefix [] s taken k rest h e = absurd (unfold find_end in omega (arith, ap (λ r. r.0) e))
find_end_prefix (c ∷ text) s taken k rest h e = elim (Bool-cases (step s c).1) [
  | inl stop ↦
      let here = find_end_stop s c text taken stop in
      (
        find_end_stop s c (text ++ rest) taken stop ∙ sym here ∙ e,
        omega (arith, ap (λ r. r.1) (sym here ∙ e)),
      )
  | inr on ↦
      let ih =
        find_end_prefix text (step s c).0 (taken + 1) k rest (step_pos s c h on)
          (sym (find_end_on s c text taken on) ∙ e) in
      (find_end_on s c (text ++ rest) taken on ∙ ih.0, omega (arith, ih.1))
]

-- So no proper prefix of an object closes.
pub truncated_scan :
    (b : Body) (c : ℕ) (text rest : List ℕ)
    → IsWellFormed b
    → (c ∷ text) ++ rest ≡ object b
    → rest ≢ []
    → (find_end start_scanner (c ∷ text) 0).0 ≢ 0
truncated_scan b c text [] h e ne zero_count = absurd (ne refl)
truncated_scan b c text (r ∷ rest) h e ne zero_count = omega (
  arith,
  early.1,
  ap (λ p. p.1) (sym early.0 ∙ whole),
  ap length e,
  length-append text (r ∷ rest),
)
  where
    opens : c ≡ b'{'
    opens = ground (arith, e)

    result : ℕ × ℕ
    result = find_end (scanning (0 + 1) false) text (0 + 1)

    enters : find_end start_scanner (c ∷ text) 0 ≡ result
    enters = ap (λ (k : ℕ). find_end start_scanner (k ∷ text) 0) opens ∙ scan_open 0 text 0

    early :
        (find_end (scanning (0 + 1) false) (text ++ r ∷ rest) (0 + 1) ≡ (0, result.1))
        × (result.1 ≤ 0 + 1 + length text)
    early =
        find_end_prefix text (scanning (0 + 1) false) (0 + 1) result.1 (r ∷ rest) (omega arith)
          (ap (λ (k : ℕ). (k, result.1)) (sym (ap (λ p. p.0) enters) ∙ zero_count))

    whole : find_end (scanning (0 + 1) false) (text ++ r ∷ rest) (0 + 1) ≡ (0, length (object b))
    whole =
        sym (scan_open 0 (text ++ r ∷ rest) 0)
        ∙ ap (λ t. find_end start_scanner t 0)
            (ap (λ (k : ℕ). k ∷ (text ++ r ∷ rest)) (sym opens) ∙ e ∙ sym (append-nil (object b)))
        ∙ object_scan b [] h

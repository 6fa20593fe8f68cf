-- ===== src/Stratum/Frame/Delivery.antt =====
-- What `processMessages` takes out of one buffer.
use ohmy_miner_etc.Common.{
  ℕ, zero, suc, ◌≤◌, ◌≡◌, ◌≢◌, refl, ap, ap₂, ◌∙◌, List, [], ◌∷◌, ◌++◌, map, ◌==◌, length, arith,
  length-append, take-append_left, drop-append_left, All, false,
}
use ohmy_miner_etc.Stratum.Frame.{start_scanner, find_end, skip_blanks, cut_objects, objects_of}
use ohmy_miner_etc.Stratum.Frame.Objects.{Body, object, IsWellFormed, object_scan, truncated_scan}

-- Objects on lines of their own, and what stands behind the last line.
abbrev pub stream : List Body → List ℕ → List ℕ
stream [] tail = tail
stream (b ∷ bodies) tail = object b ++ b'\n' ∷ stream bodies tail

cut_object :
    (fuel : ℕ) (b : Body) (rest : List ℕ)
    → IsWellFormed b
    → cut_objects (suc fuel) (object b ++ rest) ≡ object b ∷ cut_objects fuel rest
unfolding cut_objects skip_blanks
cut_object fuel b rest h = rw (object_scan b rest h) (
    ap₂ ◌∷◌ (take-append_left (length (object b)) (object b) rest refl)
      (ap (cut_objects fuel) (drop-append_left (length (object b)) (object b) rest refl)))

cut_blank : (fuel : ℕ) (rest : List ℕ) → cut_objects fuel (b'\n' ∷ rest) ≡ cut_objects fuel rest
unfolding cut_objects skip_blanks
cut_blank zero rest = refl
cut_blank (suc fuel) rest = refl

cut_open :
    (fuel : ℕ) (text : List ℕ)
    → (find_end start_scanner (b'{' ∷ text) 0).0 ≢ 0
    → cut_objects (suc fuel) (b'{' ∷ text) ≡ []
unfolding cut_objects skip_blanks
cut_open fuel text h =
    let e : ((find_end start_scanner (b'{' ∷ text) 0).0 == 0) ≡ false = ground arith in rw e

cut_truncated :
    (fuel : ℕ) (b : Body) (text rest : List ℕ)
    → IsWellFormed b
    → text ++ rest ≡ object b
    → rest ≢ []
    → cut_objects fuel text ≡ []
cut_truncated zero b text rest h e ne = unfold cut_objects in refl
cut_truncated (suc fuel) b [] rest h e ne = unfold cut_objects skip_blanks in refl
cut_truncated (suc fuel) b (c ∷ text) rest h e ne = no_close (truncated_scan b c text rest h e ne)
  where
    opens : c ≡ b'{'
    opens = ground (arith, e)

    no_close : (find_end start_scanner (c ∷ text) 0).0 ≢ 0 → cut_objects (suc fuel) (c ∷ text) ≡ []
    no_close = rw opens (cut_open fuel text)

cut_stream :
    (bodies : List Body) (b : Body) (fuel : ℕ) (text rest : List ℕ)
    → All IsWellFormed bodies
    → IsWellFormed b
    → text ++ rest ≡ object b
    → rest ≢ []
    → length bodies ≤ fuel
    → cut_objects fuel (stream bodies text) ≡ map object bodies
cut_stream [] b fuel text rest hs h e ne k = cut_truncated fuel b text rest h e ne
cut_stream (o ∷ bodies) b zero text rest hs h e ne k = absurd (omega arith)
cut_stream (o ∷ bodies) b (suc fuel) text rest hs h e ne k =
    cut_object fuel o (b'\n' ∷ stream bodies text) hs.0
    ∙ ap (◌∷◌ (object o)) (
        cut_blank fuel (stream bodies text)
        ∙ cut_stream bodies b fuel text rest hs.1 h e ne (omega arith))

length-stream : (bodies : List Body) (tail : List ℕ) → length bodies ≤ length (stream bodies tail)
length-stream [] tail = omega arith
length-stream (b ∷ bodies) tail =
    omega (arith, length-stream bodies tail, length-append (object b) (b'\n' ∷ stream bodies tail))

-- A buffer that holds well-formed objects, each on a line, and behind them the beginning of one
-- more: exactly the complete objects are taken out, in order, and the beginning of the last one is
-- dropped, with nothing kept for the next buffer.
pub objects_of-stream :
    (bodies : List Body) (b : Body) (text rest : List ℕ)
    → All IsWellFormed bodies
    → IsWellFormed b
    → text ++ rest ≡ object b
    → rest ≢ []
    → objects_of (stream bodies text) ≡ map object bodies
unfolding objects_of
objects_of-stream bodies b text rest hs h e ne =
    cut_stream bodies b (length (stream bodies text)) text rest hs h e ne
      (length-stream bodies text)

-- ===== src/Stream/Loop/Window.antt =====
-- When loop.go trips: the distinct lines of its window.
use onegw.Prelude.{
  ℕ, ◌-◌, ◌≡◌, refl, Bool, true, false, not, ◌&&◌, ◌||◌, none, some, List, [], ◌∷◌, arith, length,
  drop, if◌then◌else◌,
}
use onegw.Stream.Loop.{Line, LoopBreaker, loop_window, same, read_line_wise}
use onegw.Stream.Corrupt.{ReadErr}

-- Whether a line is among some.
abbrev pub among : Line → List Line → Bool
among l [] = false
among l (k ∷ ks) = let rest = among l ks in same l k || rest

-- Every line of the first is among the second.
abbrev pub covered : List Line → List Line → Bool
covered [] ks = true
covered (l ∷ ls) ks = let rest = covered ls ks in among l ks && rest

abbrev keys : List (Line × ℕ) → List Line
keys [] = []
keys ((k, n) ∷ counts) = k ∷ keys counts

abbrev distinct : List Line → Bool
distinct [] = true
distinct (l ∷ ls) = let rest = distinct ls in not (among l ls) && rest

-- Lines that are all different and all among others are no more than those.
abbrev without : Line → List Line → List Line
without l [] = []
without l (k ∷ ks) = let rest = without l ks in if same l k then ks else k ∷ rest

abbrev pub window : LoopBreaker → List Line
window b = drop (length b.lines - loop_window) b.lines

-- Once tripped, a breaker hands on no byte of a read that failed with nothing, and every such read ends
-- the stream.
pub read_line_wise-looped :
    (b : LoopBreaker) (bytes : Line)
    → let r = read_line_wise b (bytes, none) in
      (r.0).looped ≡ true → (r.1 ≡ []) × (r.2 ≡ some ReadErr.eof)
unfolding read_line_wise
read_line_wise-looped b [] h = (refl, ground (arith, h))
read_line_wise-looped b (x ∷ xs) h = (ground (arith, h), ground (arith, h))

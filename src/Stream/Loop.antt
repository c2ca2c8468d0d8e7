-- ===== src/Stream/Loop.antt =====
-- `LoopBreaker` of internal/translat/loop.go. A Go string is the list of its bytes; `looped` is whether
-- the guard has its error, with which it closed the upstream's body.
pub mod Lines
pub mod Chunks
pub mod Window
use onegw.Prelude.{
  ℕ, zero, suc, ◌+◌, ◌-◌, ◌*◌, Bool, true, false, ◌&&◌, ◌||◌, Option, none, some, List, [], ◌∷◌,
  ◌++◌, length, take, drop, ltb, leb, ◌==◌, if◌then◌else◌,
}
use onegw.Stream.Corrupt.{ReadErr, Chunk}

abbrev pub Line : Type 0
Line = List ℕ

abbrev pub loop_window : ℕ
loop_window = 128

abbrev pub loop_distinct : ℕ
loop_distinct = 4

abbrev pub loop_min_bytes : ℕ
loop_min_bytes = 8192

abbrev pub newline : ℕ
newline = 10

pub record LoopBreaker : Type 0 where
  pub pending : Line
  pub lines : List Line
  pub bytes : ℕ
  pub looped : Bool

unfoldable pub new_loop_breaker : LoopBreaker
new_loop_breaker = record { pending = []; lines = []; bytes = 0; looped = false }

-- `strings.LastIndexByte` of a newline.
unfoldable pub last_newline : Line → Option ℕ
last_newline [] = none
last_newline (x ∷ xs) = elim (last_newline xs) [
  | some i ↦ some (suc i)
  | none ↦ if x == newline then some 0 else none
]

abbrev pub prepend : Line → List Line → List Line
prepend s [] = []
prepend s (l ∷ ls) = (s ++ l) ∷ ls

-- `strings.Split` at every newline.
unfoldable pub split : Line → List Line
split [] = [] ∷ []
split (x ∷ xs) = let rest = split xs in if x == newline then [] ∷ rest else prepend (x ∷ []) rest

-- The loop over the lines of a chunk.
unfoldable pub add_lines : LoopBreaker → List Line → LoopBreaker
add_lines b [] = b
add_lines b ([] ∷ ls) = add_lines b ls
add_lines b ((x ∷ xs) ∷ ls) =
    add_lines
      (record b { lines = b.lines ++ ((x ∷ xs) ∷ []); bytes = b.bytes + (length (x ∷ xs) + 1) }) ls

abbrev pub same : Line → Line → Bool
same [] [] = true
same [] (y ∷ ys) = false
same (x ∷ xs) [] = false
same (x ∷ xs) (y ∷ ys) = let rest = same xs ys in (x == y) && rest

-- `counts[line]++`.
unfoldable pub count : Line → List (Line × ℕ) → List (Line × ℕ)
count l [] = (l, 1) ∷ []
count l ((k, n) ∷ counts) =
    let rest = count l counts in if same l k then (k, n + 1) ∷ counts else (k, n) ∷ rest

unfoldable pub count_all : List Line → List (Line × ℕ) → List (Line × ℕ)
unfolding count
count_all [] counts = counts
count_all (l ∷ ls) counts = count_all ls (count l counts)

unfoldable pub try_trip : LoopBreaker → LoopBreaker
unfolding count_all
try_trip b =
    let n = length b.lines in
    if ltb b.bytes loop_min_bytes || ltb n loop_window
    then b
    else if leb (length (count_all (drop (n - loop_window) b.lines) []) * loop_distinct) loop_window
    then record b { looped = true }
    else b

unfoldable pub watch : LoopBreaker → Line → LoopBreaker
unfolding last_newline split add_lines try_trip
watch b chunk =
    let s = b.pending ++ chunk in
    if b.looped then b else elim (last_newline s) [
      | none ↦ record b { pending = s }
      | some i ↦ try_trip (add_lines (record b { pending = drop (suc i) s }) (split (take i s)))
    ]

-- A read that the upstream answered with some bytes and perhaps an error.
unfoldable pub read_line_wise : LoopBreaker → Chunk → LoopBreaker × Line × Option ReadErr
unfolding watch
read_line_wise b ([], some e) = (b, [], some e)
read_line_wise b ([], none) = (b, [], if b.looped then some ReadErr.eof else none)
read_line_wise b (x ∷ xs, some e) = (watch b (x ∷ xs), x ∷ xs, some e)
read_line_wise b (x ∷ xs, none) =
    let b' = watch b (x ∷ xs) in
    if b'.looped then (b', [], some ReadErr.eof) else (b', x ∷ xs, none)

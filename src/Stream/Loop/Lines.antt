-- ===== src/Stream/Loop/Lines.antt =====
-- The lines that loop.go collects, however the stream is cut into chunks.
use mathlib.Core.List.{append-nil, append_assoc}
use onegw.Prelude.{
  ℕ, zero, suc, ◌+◌, ◌≡◌, refl, sym, ◌∙◌, ap, none, some, List, [], ◌∷◌, ◌++◌, arith, length, take,
  drop, ◌==◌, if◌then◌else◌, Bool-cases, Option-cases, inl, inr,
}
use onegw.Stream.Loop.{Line, LoopBreaker, newline, last_newline, prepend, split, add_lines}

-- The lines of some bytes, byte by byte, after the head of the first of them: those that a newline ends,
-- and what follows the last newline.
abbrev pub lines_from : Line → List ℕ → List Line × Line
lines_from cur [] = ([], cur)
lines_from cur (x ∷ xs) =
    let next = lines_from [] xs in
    let more = lines_from (cur ++ (x ∷ [])) xs in
    if x == newline then (cur ∷ next.0, next.1) else more

lines_from-append :
    (cur : Line) (xs ys : List ℕ)
    → let first = lines_from cur xs in
      let rest = lines_from (first.1) ys in lines_from cur (xs ++ ys) ≡ (first.0 ++ rest.0, rest.1)
lines_from-append cur [] ys = refl
lines_from-append cur (x ∷ xs) ys =
    ground (arith, lines_from-append [] xs ys, lines_from-append (cur ++ (x ∷ [])) xs ys)

pub prepend_nil : (ls : List Line) → prepend [] ls ≡ ls
prepend_nil [] = refl
prepend_nil (l ∷ ls) = refl

prepend-prepend : (s t : Line) (ls : List Line) → prepend s (prepend t ls) ≡ prepend (s ++ t) ls
prepend-prepend s t [] = refl
prepend-prepend s t (l ∷ ls) = ap (λ k. k ∷ ls) (sym (append_assoc s t l))

pub no_newline :
    (cur : Line) (s : List ℕ) → last_newline s ≡ none → lines_from cur s ≡ ([], cur ++ s)
unfolding last_newline
no_newline cur [] h = ap (λ c. ([], c)) (sym (append-nil cur))
no_newline cur (x ∷ xs) h = elim (Option-cases (last_newline xs)) [
  | inl e ↦ ground (arith, h, e, no_newline (cur ++ (x ∷ [])) xs e, append_assoc cur (x ∷ []) xs)
  | inr (i, e) ↦ absurd (ground (arith, h, e))
]

pub split_last :
    (cur : Line) (s : List ℕ) (i : ℕ)
    → last_newline s ≡ some i
    → lines_from cur s ≡ (prepend cur (split (take i s)), drop (suc i) s)
unfolding last_newline split
split_last cur [] i h = absurd (ground (arith, h))
split_last cur (x ∷ xs) zero h = elim (Option-cases (last_newline xs)) [
  | inl e ↦ ground (arith, h, e, no_newline [] xs e, append-nil cur)
  | inr (j, e) ↦ absurd (ground (arith, h, e))
]
split_last cur (x ∷ xs) (suc j) h =
    let e : last_newline xs ≡ some j = elim (Option-cases (last_newline xs)) [
      | inl n ↦ absurd (ground (arith, h, n))
      | inr (k, n) ↦ ground (arith, h, n)
    ] in
    ground (
      arith,
      split_last [] xs j e,
      split_last (cur ++ (x ∷ [])) xs j e,
      prepend_nil (split (take j xs)),
      prepend-prepend cur (x ∷ []) (split (take j xs)),
      append-nil cur,
    )

-- The lines that are kept, and how many bytes they count for.
abbrev pub kept : List Line → List Line
kept [] = []
kept ([] ∷ ls) = kept ls
kept ((x ∷ xs) ∷ ls) = (x ∷ xs) ∷ kept ls

abbrev pub weight : List Line → ℕ
weight [] = 0
weight (l ∷ ls) = length l + 1 + weight ls

pub weight-append : (ls ms : List Line) → weight (ls ++ ms) ≡ weight ls + weight ms
weight-append [] ms = omega arith
weight-append (l ∷ ls) ms = omega (arith, weight-append ls ms)

pub kept-append : (ls ms : List Line) → kept (ls ++ ms) ≡ kept ls ++ kept ms
kept-append [] ms = refl
kept-append ([] ∷ ls) ms = kept-append ls ms
kept-append ((x ∷ xs) ∷ ls) ms = ap (λ k. (x ∷ xs) ∷ k) (kept-append ls ms)

abbrev pub Adds : LoopBreaker → List Line → LoopBreaker → Type 0
Adds b ls c =
    (c.lines ≡ b.lines ++ kept ls)
    × (c.bytes ≡ b.bytes + weight (kept ls))
    × (c.pending ≡ b.pending)
    × (c.looped ≡ b.looped)

pub add_lines-Adds : (b : LoopBreaker) (ls : List Line) → Adds b ls (add_lines b ls)
unfolding add_lines
add_lines-Adds b [] = (sym (append-nil b.lines), omega arith, refl, refl)
add_lines-Adds b ([] ∷ ls) = add_lines-Adds b ls
add_lines-Adds b ((x ∷ xs) ∷ ls) =
    let (l, n, p, o) =
      add_lines-Adds
        (record b { lines = b.lines ++ ((x ∷ xs) ∷ []); bytes = b.bytes + (length (x ∷ xs) + 1) })
        ls in
    (l ∙ append_assoc b.lines ((x ∷ xs) ∷ []) (kept ls), omega (arith, n), p, o)

-- A line that has not ended.
abbrev Plain : Line → Type 0
Plain cur = lines_from [] cur ≡ ([], cur)

rest-Plain : (cur : Line) (xs : List ℕ) → Plain cur → Plain ((lines_from cur xs).1)
rest-Plain cur [] h = h
rest-Plain cur (x ∷ xs) h = elim (Bool-cases (x == newline)) [
  | inl n ↦ ground (arith, n, rest-Plain [] xs refl)
  | inr n ↦
      let longer : Plain (cur ++ (x ∷ [])) =
        ground (arith, n, h, lines_from-append [] cur (x ∷ [])) in
      ground (arith, n, rest-Plain (cur ++ (x ∷ [])) xs longer)
]

-- The lines of a stream are those of its start, and those of the rest after the unfinished line.
pub lines_resumed :
    (xs chunk : List ℕ)
    → let first = lines_from [] xs in
      let more = lines_from [] (first.1 ++ chunk) in
      lines_from [] (xs ++ chunk) ≡ (first.0 ++ more.0, more.1)
lines_resumed xs chunk =
    let first = lines_from [] xs in
    ground (
      arith,
      lines_from-append [] xs chunk,
      lines_from-append [] (first.1) chunk,
      rest-Plain [] xs refl,
    )

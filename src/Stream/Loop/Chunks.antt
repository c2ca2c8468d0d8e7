-- ===== src/Stream/Loop/Chunks.antt =====
-- The lines that loop.go collects do not depend on how the stream is cut into chunks.
use mathlib.Core.List.{append-nil, append_assoc}
use onegw.Prelude.{
  ℕ, suc, ◌≡◌, refl, sym, ◌∙◌, ap, subst, true, false, none, some, List, [], ◌∷◌, ◌++◌, arith, take,
  drop, Bool-cases, Option-cases, inl, inr,
}
use onegw.Stream.Loop.{
  Line, LoopBreaker, new_loop_breaker, last_newline, split, add_lines, try_trip, watch,
}
use onegw.Stream.Loop.Lines.{
  lines_from, no_newline, split_last, prepend_nil, kept, weight, weight-append, kept-append,
  lines_resumed, add_lines-Adds,
}

abbrev pub Holds : LoopBreaker → List Line × Line → Type 0
Holds b (ls, rest) = (b.lines ≡ kept ls) × (b.bytes ≡ weight (kept ls)) × (b.pending ≡ rest)

-- A breaker that has not tripped holds the lines of what it saw.
abbrev pub Collected : LoopBreaker → List ℕ → Type 0
Collected b xs = Holds b (lines_from [] xs)

try_trip_keeps :
    (b : LoopBreaker)
    → let c = try_trip b in (c.lines ≡ b.lines) × (c.bytes ≡ b.bytes) × (c.pending ≡ b.pending)
unfolding try_trip
try_trip_keeps b = ground arith

module _ (b : LoopBreaker) (chunk : List ℕ) (ls : List Line) (l : b.looped ≡ false) where
  s : List ℕ
  s = b.pending ++ chunk

  Extends : List Line × Line → Type 0
  Extends (more, rest) = Holds (watch b chunk) (ls ++ more, rest)

  watch_within :
      last_newline s ≡ none → b.lines ≡ kept ls → b.bytes ≡ weight (kept ls) → Extends ([], s)
  unfolding watch Extends s
  watch_within e h k =
      let same_as : record b { pending = s } ≡ watch b chunk = ground (arith, l, e) in
      subst (λ c. Holds c (ls ++ [], s)) same_as
        (subst (λ m. Holds (record b { pending = s }) (m, s)) (sym (append-nil ls)) (h, k, refl))

  watch_ending :
      (i : ℕ)
      → last_newline s ≡ some i
      → b.lines ≡ kept ls
      → b.bytes ≡ weight (kept ls)
      → Extends (split (take i s), drop (suc i) s)
  unfolding watch Extends s
  watch_ending i e h k =
      let more = split (take i s) in
      let c = add_lines (record b { pending = drop (suc i) s }) more in
      let (h', k', p', o') = add_lines-Adds (record b { pending = drop (suc i) s }) more in
      let (h'', k'', p'') = try_trip_keeps c in
      let same_as : try_trip c ≡ watch b chunk = ground (arith, l, e) in
      subst (λ d. Holds d (ls ++ more, drop (suc i) s)) same_as
        (
          h'' ∙ h' ∙ ap (λ m. m ++ kept more) h ∙ sym (kept-append ls more),
          omega (
            arith,
            k'',
            k',
            k,
            ap weight (kept-append ls more),
            weight-append (kept ls) (kept more),
          ),
          p'' ∙ p',
        )

watch-Collected :
    (b : LoopBreaker) (xs chunk : List ℕ)
    → b.looped ≡ false
    → Collected b xs
    → Collected (watch b chunk) (xs ++ chunk)
unfolding Extends s
watch-Collected b xs chunk l (h, k, p) =
    let first = lines_from [] xs in
    let s = b.pending ++ chunk in
    let resumed : lines_from [] (xs ++ chunk)
        ≡ (first.0 ++ (lines_from [] s).0, (lines_from [] s).1) =
      subst
        (λ r.
          lines_from [] (xs ++ chunk)
          ≡ (first.0 ++ (lines_from [] (r ++ chunk)).0, (lines_from [] (r ++ chunk)).1))
        (sym p) (lines_resumed xs chunk) in
    subst (Holds (watch b chunk)) (sym resumed) (elim (Option-cases (last_newline s)) [
      | inl e ↦
          subst (Extends b chunk (first.0) l) (sym (no_newline [] s e))
            (watch_within b chunk (first.0) l e h k)
      | inr (i, e) ↦
          let cut =
            split_last [] s i e ∙ ap (λ m. (m, drop (suc i) s)) (prepend_nil (split (take i s))) in
          subst (Extends b chunk (first.0) l) (sym cut) (watch_ending b chunk (first.0) l i e h k)
    ])

abbrev pub watch_all : LoopBreaker → List (List ℕ) → LoopBreaker
watch_all b [] = b
watch_all b (c ∷ cs) = watch_all (watch b c) cs

abbrev pub whole : List (List ℕ) → List ℕ
whole [] = []
whole (c ∷ cs) = c ++ whole cs

watch_looped : (b : LoopBreaker) (chunk : List ℕ) → b.looped ≡ true → watch b chunk ≡ b
unfolding watch
watch_looped b chunk l = ground (arith, l)

pub watch_all_looped : (b : LoopBreaker) (cs : List (List ℕ)) → b.looped ≡ true → watch_all b cs ≡ b
watch_all_looped b [] l = refl
watch_all_looped b (c ∷ cs) l =
    ap (λ d. watch_all d cs) (watch_looped b c l) ∙ watch_all_looped b cs l

watch_all-Collected :
    (b : LoopBreaker) (xs : List ℕ) (cs : List (List ℕ))
    → Collected b xs
    → (watch_all b cs).looped ≡ false
    → Collected (watch_all b cs) (xs ++ whole cs)
watch_all-Collected b xs [] h l = subst (Collected b) (sym (append-nil xs)) h
watch_all-Collected b xs (c ∷ cs) h l = elim (Bool-cases b.looped) [
  | inl t ↦ absurd (ground (arith, t, l, ap (λ d. d.looped) (watch_all_looped b (c ∷ cs) t)))
  | inr f ↦
      subst (Collected (watch_all (watch b c) cs)) (append_assoc xs c (whole cs))
        (watch_all-Collected (watch b c) (xs ++ c) cs (watch-Collected b xs c f h) l)
]

-- However the stream is cut into chunks, as long as the breaker has not tripped it holds the lines of the
-- whole stream, split byte by byte, but for empty ones, their number of bytes with one more for each,
-- and what follows the last newline.
pub watch_all-lines :
    (cs : List (List ℕ))
    → (watch_all new_loop_breaker cs).looped ≡ false
    → let b = watch_all new_loop_breaker cs in
      let (ls, rest) = lines_from [] (whole cs) in
      (b.lines ≡ kept ls) × (b.bytes ≡ weight (kept ls)) × (b.pending ≡ rest)
unfolding new_loop_breaker
watch_all-lines cs l = watch_all-Collected new_loop_breaker [] cs (refl, refl, refl) l

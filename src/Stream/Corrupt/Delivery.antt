-- ===== src/Stream/Corrupt/Delivery.antt =====
-- What the reads of corrupt.go deliver: every byte of the upstream, once and in order.
use mathlib.Core.List.{append_assoc}
use onegw.Prelude.{
  if_both, ℕ, zero, suc, ◌≡◌, ◌⊎◌, refl, sym, ◌∙◌, ap, Bool, true, false, not, ◌||◌, Option, none,
  some, List, [], ◌∷◌, ◌++◌, arith, length, take, drop, leb, ◌==◌, Bool-cases, Option-cases, inl,
  inr,
}
use onegw.Stream.Corrupt.{
  CorruptGuard, Chunk, ReadErr, Failure, observe, fill, hold_head, prefetch, pass_on, relay_end,
  relay, read, released_by_marker, is_none,
}

-- The bytes that the upstream has yet to give.
abbrev pub incoming : List Chunk → List ℕ
incoming [] = []
incoming ((bytes, e) ∷ up) = bytes ++ incoming up

-- The bytes that no read has returned yet.
abbrev pub pending : CorruptGuard → List Chunk → List ℕ
pending g up = g.held ++ incoming up

pub observe_held : (g : CorruptGuard) (b : List ℕ) → (observe g b).held ≡ g.held
unfolding observe
observe_held g b = ground arith

fill_held : (g : CorruptGuard) (c : Chunk) → (fill g c).held ≡ g.held ++ c.0
unfolding fill
fill_held g (b, none) = ap (λ h. h ++ b) (observe_held g b)
fill_held g (b, some ReadErr.eof) = ap (λ h. h ++ b) (observe_held g b)
fill_held g (b, some ReadErr.broken) = ap (λ h. h ++ b) (observe_held g b)

take-drop : (n : ℕ) (xs : List ℕ) → take n xs ++ drop n xs ≡ xs
take-drop zero xs = refl
take-drop (suc n) [] = refl
take-drop (suc n) (x ∷ xs) = ap (λ t. x ∷ t) (take-drop n xs)

pending-fill :
    (g : CorruptGuard) (c : Chunk) (up : List Chunk) → pending (fill g c) up ≡ pending g (c ∷ up)
pending-fill g c up =
    ap (λ h. h ++ incoming up) (fill_held g c) ∙ append_assoc g.held (c.0) (incoming up)

pub hold_head-pending :
    (g : CorruptGuard) (up : List Chunk)
    → let r = hold_head g up in pending (r.0) (r.1) ≡ pending g up
unfolding hold_head
hold_head-pending g [] = ground arith
hold_head-pending g (c ∷ up) =
    let Keeps : CorruptGuard × List Chunk → Type 0 =
      λ r. pending (r.0) (r.1) ≡ pending g (c ∷ up) in
    let filled = pending-fill g c up in
    if_both Keeps (g.released || not (is_none g.verdict)) _ _ refl (
      if_both Keeps (g.done || not (is_none g.err)) _ _ refl (
        if_both Keeps (not (is_none (fill g c).verdict)) _ _ filled (
          if_both Keeps (leb g.hold (length (fill g c).held) || released_by_marker (fill g c).held)
            _ _ filled (hold_head-pending (fill g c) up ∙ filled))))

pub prefetch-pending :
    (g : CorruptGuard) (up : List Chunk)
    → let r = prefetch g up in pending (r.0) (r.1) ≡ pending g up
unfolding prefetch
prefetch-pending g up =
    let Keeps : CorruptGuard × List Chunk × Option ℕ → Type 0 =
      λ r. pending (r.0) (r.1) ≡ pending g up in
    if_both Keeps g.prefetched _ _ refl
      (if_both Keeps (g.hold == 0) _ _ refl (hold_head-pending (record g { prefetched = true }) up))

-- What a read returned, before what is still pending.
abbrev pub accounted : CorruptGuard × List Chunk × List ℕ × Option Failure → List ℕ
accounted (g, up, bytes, f) = bytes ++ pending g up

handed_on :
    (g : CorruptGuard) (bytes : List ℕ) (up : List Chunk)
    → g.held ≡ []
    → bytes ++ ((observe g bytes).held ++ incoming up) ≡ g.held ++ (bytes ++ incoming up)
handed_on g bytes up h =
    ap (λ x. bytes ++ (x ++ incoming up)) (observe_held g bytes ∙ h)
    ∙ ap (λ x. x ++ (bytes ++ incoming up)) (sym h)

pass_on-accounted :
    (g : CorruptGuard) (c : Chunk) (up : List Chunk)
    → g.held ≡ []
    → let r = pass_on g c in accounted (r.0, up, r.1, r.2) ≡ pending g (c ∷ up)
unfolding pass_on
pass_on-accounted g ([], none) up h = refl
pass_on-accounted g ([], some e) up h = refl
pass_on-accounted g (b ∷ bs, none) up h = handed_on g (b ∷ bs) up h
pass_on-accounted g (b ∷ bs, some e) up h = handed_on g (b ∷ bs) up h

relay_end-accounted :
    (g : CorruptGuard) (up : List Chunk) → g.held ≡ [] → accounted (relay_end g up) ≡ pending g up
unfolding relay_end
relay_end-accounted g [] h = elim (Option-cases g.err) [
  | inl e ↦ ground (arith, e)
  | inr (x, e) ↦ ground (arith, e)
]
relay_end-accounted g (c ∷ up) h = elim (Option-cases g.err) [
  | inl e ↦ ground (arith, e, pass_on-accounted g c up h)
  | inr (x, e) ↦ ground (arith, e)
]

List-cases : (xs : List ℕ) → (xs ≡ []) ⊎ ((x : ℕ) × (rest : List ℕ) × (xs ≡ x ∷ rest))
List-cases [] = inl refl
List-cases (x ∷ rest) = inr (x, rest, refl)

relay-accounted :
    (g : CorruptGuard) (up : List Chunk) (n : ℕ) → accounted (relay g up n) ≡ pending g up
unfolding relay
relay-accounted g up n = elim (List-cases g.held) [
  | inl h ↦ ground (arith, h, relay_end-accounted g up h)
  | inr (b, bs, h) ↦
      ground
        (arith, h, take-drop n g.held, append_assoc (take n g.held) (drop n g.held) (incoming up))
]

read-accounted :
    (g : CorruptGuard) (up : List Chunk) (n : ℕ) → accounted (read g up n) ≡ pending g up
unfolding read
read-accounted g up n = elim (Bool-cases g.prefetched) [
  | inl p ↦ ground (arith, p, relay-accounted g up n)
  | inr p ↦
      let r = prefetch g up in
      elim (Option-cases (r.2)) [
        | inl v ↦ ground (arith, p, v, relay-accounted (r.0) (r.1) n, prefetch-pending g up)
        | inr (at, v) ↦ ground (arith, p, v, prefetch-pending g up)
      ]
]

-- A run of reads, of which each says how many bytes it has room for; what they returned, joined.
unfoldable pub reads : CorruptGuard → List Chunk → List ℕ → CorruptGuard × List Chunk × List ℕ
reads g up [] = (g, up, [])
reads g up (n ∷ ns) =
    let r = read g up n in let rest = reads (r.0) (r.1) ns in (rest.0, rest.1, r.2 ++ rest.2)

-- The guard changes no byte of the stream. After any reads, of any sizes, what they returned, followed by
-- what is held and what the upstream has yet to give, is what was held and to come before them: nothing
-- is lost, doubled or moved, whatever errors and verdicts came between.
pub reads-pending :
    (g : CorruptGuard) (up : List Chunk) (ns : List ℕ)
    → let r = reads g up ns in r.2 ++ pending (r.0) (r.1) ≡ pending g up
unfolding reads
reads-pending g up [] = refl
reads-pending g up (n ∷ ns) =
    let r = read g up n in
    let rest = reads (r.0) (r.1) ns in
    append_assoc (r.2) (rest.2) (pending (rest.0) (rest.1))
    ∙ ap (λ x. r.2 ++ x) (reads-pending (r.0) (r.1) ns)
    ∙ read-accounted g up n

abbrev reports_corrupt : Option Failure → Bool
reports_corrupt (some (Failure.corrupt at)) = true
reports_corrupt (some (Failure.upstream e)) = false
reports_corrupt none = false

pass_on_reports : (g : CorruptGuard) (c : Chunk) → reports_corrupt ((pass_on g c).2) ≡ false
unfolding pass_on
pass_on_reports g ([], none) = refl
pass_on_reports g ([], some e) = refl
pass_on_reports g (b ∷ bs, none) = refl
pass_on_reports g (b ∷ bs, some e) = refl

relay_end_reports :
    (g : CorruptGuard) (up : List Chunk) → reports_corrupt ((relay_end g up).3) ≡ false
unfolding relay_end
relay_end_reports g [] = elim (Option-cases g.err) [
  | inl e ↦ ground (arith, e)
  | inr (x, e) ↦ ground (arith, e)
]
relay_end_reports g (c ∷ up) = elim (Option-cases g.err) [
  | inl e ↦ ground (arith, e, pass_on_reports g c)
  | inr (x, e) ↦ ground (arith, e)
]

relay_reports :
    (g : CorruptGuard) (up : List Chunk) (n : ℕ) → reports_corrupt ((relay g up n).3) ≡ false
unfolding relay
relay_reports g up n = elim (List-cases g.held) [
  | inl h ↦ ground (arith, h, relay_end_reports g up)
  | inr (b, bs, h) ↦ ground (arith, h)
]

-- A read reports a verdict only if it is the first, the one that prefetches, and the prefetch gave that
-- verdict; it then returns no byte, and all of the stream is still pending, so that the attempt can be
-- thrown away.
pub read-corrupt :
    (g : CorruptGuard) (up : List Chunk) (n at : ℕ)
    → let r = read g up n in
      r.3 ≡ some (Failure.corrupt at)
      → (g.prefetched ≡ false)
        × ((prefetch g up).2 ≡ some at)
        × (r.2 ≡ [])
        × (pending (r.0) (r.1) ≡ pending g up)
unfolding read
read-corrupt g up n at h = elim (Bool-cases g.prefetched) [
  | inl p ↦ absurd (ground (arith, h, p, relay_reports g up n))
  | inr p ↦
      let r = prefetch g up in
      elim (Option-cases (r.2)) [
        | inl v ↦ absurd (ground (arith, h, p, v, relay_reports (r.0) (r.1) n))
        | inr (k, v) ↦ (
          p,
          ground (arith, h, p, v),
          ground (arith, p, v),
          ground (arith, p, v, prefetch-pending g up),
        )
      ]
]

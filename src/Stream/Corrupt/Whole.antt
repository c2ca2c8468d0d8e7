-- ===== src/Stream/Corrupt/Whole.antt =====
-- What corrupt.go finds in a stream, however the stream is cut into chunks.
use onegw.Prelude.{
  ℕ, ◌+◌, ◌-◌, ◌≡◌, ◌⊎◌, refl, sym, ◌∙◌, ap, subst, Bool, true, false, Option, none, some, List, [],
  ◌∷◌, ◌++◌, arith, length, length-append, inl, inr,
}
use mathlib.Core.List.{append-nil, append_assoc}
use onegw.Stream.Corrupt.Bytes.{Scan, clean, invalid, scan}
use onegw.Stream.Corrupt.{CorruptGuard, new_corrupt_guard, observe}
use onegw.Stream.Corrupt.Chunks.{scan-invalid, scan-clean}

Scan-cases : (s : Scan) → ((rest : List ℕ) × (s ≡ clean rest)) ⊎ ((at : ℕ) × (s ≡ invalid at))
Scan-cases (clean rest) = inl (rest, refl)
Scan-cases (invalid at) = inr (at, refl)

abbrev Fields : Bool → Option ℕ → List ℕ → ℕ → ℕ → Scan → Type 0
Fields d v c k n (clean rest) = (d ≡ false) × (v ≡ none) × (c ≡ rest) × (k ≡ n)
Fields d v c k n (invalid at) = (d ≡ true) × (v ≡ some at) × (c ≡ [])

-- Four fields of a guard say what a scan of some number of bytes found.
abbrev pub Says : CorruptGuard → ℕ → Scan → Type 0
Says g n s = Fields g.dead g.verdict g.carry g.scanned n s

Says-same :
    (g h : CorruptGuard) (n k : ℕ) (s : Scan)
    → Says g n s
    → Says h k s
    → (g.verdict ≡ h.verdict) × (g.carry ≡ h.carry) × (g.dead ≡ h.dead)
Says-same g h n k (clean rest) (d, v, c, _) (d', v', c', _) = (v ∙ sym v', c ∙ sym c', d ∙ sym d')
Says-same g h n k (invalid at) (d, v, c) (d', v', c') = (v ∙ sym v', c ∙ sym c', d ∙ sym d')

pub Says-verdict :
    (g : CorruptGuard) (n at : ℕ) (s : Scan) → Says g n s → g.verdict ≡ some at → s ≡ invalid at
Says-verdict g n at (clean rest) (d, v, c, k) e = absurd (ground (arith, v, e))
Says-verdict g n at (invalid k) (d, v, c) e = ap invalid (ground (arith, v, e))

-- The state of a guard that saw some bytes is that of one scan of them all.
abbrev pub Saw : CorruptGuard → List ℕ → Type 0
Saw g xs = Says g (length xs) (scan 0 0 xs)

observe_dead : (g : CorruptGuard) (b : List ℕ) → g.dead ≡ true → observe g b ≡ g
unfolding observe
observe_dead g b d = ground (arith, d)

observe-Says :
    (g : CorruptGuard) (b : List ℕ) (s : Scan)
    → g.dead ≡ false
    → g.verdict ≡ none
    → scan 0 (g.scanned - length g.carry) (g.carry ++ b) ≡ s
    → Says (observe g b) (g.scanned + length b) s
unfolding observe
observe-Says g b (clean rest) d v e = rw (d, e) (d, v, refl, refl)
observe-Says g b (invalid at) d v e = rw (d, e) (refl, refl, refl)

pub observe-Saw : (g : CorruptGuard) (xs b : List ℕ) → Saw g xs → Saw (observe g b) (xs ++ b)
observe-Saw g xs b h = elim (Scan-cases (scan 0 0 xs)) [
  | inl (rest, e) ↦
      let (d, v, c, n) = subst (Says g (length xs)) e h in
      let whole = scan-clean b 0 0 xs rest (omega arith) e in
      let start : g.scanned - length g.carry ≡ 0 + length xs - length rest =
        omega (arith, n, ap length c) in
      let again : scan 0 (g.scanned - length g.carry) (g.carry ++ b) ≡ scan 0 0 (xs ++ b) =
        ap (λ k. scan 0 k (g.carry ++ b)) start
        ∙ ap (λ r. scan 0 (0 + length xs - length rest) (r ++ b)) c
        ∙ sym whole in
      let total : g.scanned + length b ≡ length (xs ++ b) = omega (arith, n, length-append xs b) in
      subst (λ k. Says (observe g b) k (scan 0 0 (xs ++ b))) total
        (observe-Says g b (scan 0 0 (xs ++ b)) d v again)
  | inr (at, e) ↦
      let (d, v, c) = subst (Says g (length xs)) e h in
      subst (λ o. Says o (length (xs ++ b)) (scan 0 0 (xs ++ b))) (sym (observe_dead g b d))
        (subst (Says g (length (xs ++ b))) (sym (scan-invalid b 0 0 at xs e)) (d, v, c))
]

abbrev pub observe_all : CorruptGuard → List (List ℕ) → CorruptGuard
observe_all g [] = g
observe_all g (b ∷ bs) = observe_all (observe g b) bs

abbrev pub joined : List (List ℕ) → List ℕ
joined [] = []
joined (b ∷ bs) = b ++ joined bs

observe_all-Saw :
    (g : CorruptGuard) (xs : List ℕ) (bs : List (List ℕ))
    → Saw g xs
    → Saw (observe_all g bs) (xs ++ joined bs)
observe_all-Saw g xs [] h = subst (Saw g) (sym (append-nil xs)) h
observe_all-Saw g xs (b ∷ bs) h =
    subst (Saw (observe_all g (b ∷ bs))) (append_assoc xs b (joined bs))
      (observe_all-Saw (observe g b) (xs ++ b) bs (observe-Saw g xs b h))

pub new_guard-Saw : (hold : ℕ) → Saw (new_corrupt_guard hold) []
unfolding new_corrupt_guard scan
new_guard-Saw hold = (refl, refl, refl, refl)

-- However a stream is cut into chunks, a guard that observes them one by one holds what it would hold
-- had it seen the joined bytes at once: the same verdict, the same unfinished rune and the same answer to
-- whether it is dead.
pub observe_all-joined :
    (hold : ℕ) (bs : List (List ℕ))
    → let g = new_corrupt_guard hold in
      let cut = observe_all g bs in
      let whole = observe g (joined bs) in
      (cut.verdict ≡ whole.verdict) × (cut.carry ≡ whole.carry) × (cut.dead ≡ whole.dead)
observe_all-joined hold bs =
    let g = new_corrupt_guard hold in
    let start = new_guard-Saw hold in
    Says-same (observe_all g bs) (observe g (joined bs)) _ _ (scan 0 0 (joined bs))
      (observe_all-Saw g [] bs start) (observe-Saw g [] (joined bs) start)

-- ===== src/Quota/Settled.antt =====
-- The grids of quota.go: a window that has begun stays what it is.
use native.Mathlib.Nat.{div-eq_of_lt}
use onegw.Prelude.{
  ℕ, ◌+◌, ◌-◌, ◌*◌, ◌/◌, ◌≤◌, ◌<◌, ◌≡◌, ◌⊎◌, refl, sym, ◌∙◌, ap, String, false, Option, arith, ◌==◌,
  inl, inr,
}
use onegw.Prelude.Int.{ℤ}
use onegw.Quota.{Limits, WindowState, grid_start, current_window, origin_of}
use onegw.Quota.Grids.{
  Holds, le_or_lt, grid_after, grid_start-Holds, Gridded, spaced, rolling_spaced,
}

-- The window of an instant within a window's period is that window.
grid_start-within : (s now d : ℕ) → s ≤ now → now < s + d → grid_start s now d ≡ s
grid_start-within s now d l h =
    let q : (now - s) / d ≡ 0 = div-eq_of_lt (omega (arith, l, h)) in
    grid_after s now d l ∙ ap (λ k. s + k * d) q ∙ omega arith

module _ (parse : String → Option ℤ) (l : Limits) (now : ℕ) where
  -- An origin that is the start of its own window.
  spaced_own : (d s : ℕ) → 0 < s → Holds now d s → spaced parse l now d s ≡ (s, s + d)
  unfolding spaced
  spaced_own d s p (le, lt) =
      let positive : (s == 0) ≡ false = ground (arith, p) in
      rw (positive, positive) (ap (λ k. (k, k + d)) (grid_start-within s now d le lt))

  spaced_fresh : (d s : ℕ) → l.anchor ≡ 0 → s ≡ 0 → spaced parse l now d s ≡ (now, now + d)
  unfolding spaced
  spaced_fresh d s e f = rw (e, f) refl

  spaced_on :
      (d s : ℕ) → 0 < s → spaced parse l now d s ≡ (grid_start s now d, grid_start s now d + d)
  unfolding spaced
  spaced_on d s p =
      let positive : (s == 0) ≡ false = ground (arith, p) in rw (positive, positive) refl

  free_origin : (ws : WindowState) → l.anchor ≡ 0 → origin_of l ws ≡ ws.start
  unfolding origin_of
  free_origin ws e = rw e refl

  held_origin : (ws : WindowState) → 0 < l.anchor → origin_of l ws ≡ l.anchor
  unfolding origin_of
  held_origin ws p = ground (arith, p)

  spaced_settled :
      (d : ℕ) (ws moved : WindowState)
      → 0 < now
      → 0 < d
      → d ≤ now
      → moved.start ≡ (spaced parse l now d (origin_of l ws)).0
      → spaced parse l now d (origin_of l moved) ≡ spaced parse l now d (origin_of l ws)
  spaced_settled d ws moved z p k m = elim (le_or_lt l.anchor 0) [
    | inr held ↦ ap (spaced parse l now d) (held_origin moved held ∙ sym (held_origin ws held))
    | inl free ↦
        let e : l.anchor ≡ 0 = omega (arith, free) in
        let before = ap (spaced parse l now d) (free_origin ws e) in
        let after = ap (spaced parse l now d) (free_origin moved e) in
        elim (le_or_lt ws.start 0) [
          | inl new ↦
              let first = before ∙ spaced_fresh d ws.start e (omega (arith, new)) in
              let at : moved.start ≡ now = m ∙ ap (λ w. w.0) first in
              after
              ∙ ap (spaced parse l now d) at
              ∙ spaced_own d now z (omega arith, omega (arith, p))
              ∙ sym first
          | inr old ↦
              let first = before ∙ spaced_on d ws.start old in
              let at : moved.start ≡ grid_start ws.start now d = m ∙ ap (λ w. w.0) first in
              let held = grid_start-Holds ws.start now d p k in
              let positive : 0 < grid_start ws.start now d = omega (arith, held.1, k) in
              after
              ∙ ap (spaced parse l now d) at
              ∙ spaced_own d (grid_start ws.start now d) positive held
              ∙ sym first
        ]
  ]

  named_settled :
      (ws moved : WindowState)
      → (l.window ≡ "daily") ⊎ (l.window ≡ "weekly") ⊎ (l.window ≡ "monthly")
      → current_window parse l (origin_of l moved) now ≡ current_window parse l (origin_of l ws) now
  unfolding current_window
  named_settled ws moved (inl e) = rw e refl
  named_settled ws moved (inr (inl e)) = rw e refl
  named_settled ws moved (inr (inr e)) = rw e refl

  -- Where a window has begun the next window begins with it, as long as it lasts.
  pub settled :
      (ws : WindowState)
      → Gridded parse l now
      → let w = current_window parse l (origin_of l ws) now in
        (moved : WindowState)
        → moved.start ≡ w.0
        → current_window parse l (origin_of l moved) now ≡ w
  settled ws (z, h, inl e) moved m = named_settled ws moved (inl e)
  settled ws (z, h, inr (inl e)) moved m = named_settled ws moved (inr (inl e))
  settled ws (z, h, inr (inr (inl (e, k)))) moved m = named_settled ws moved (inr (inr e))
  settled ws (z, h, inr (inr (inr (d, p, k, e)))) moved m =
      let first = rolling_spaced parse l now d (origin_of l ws) e in
      rolling_spaced parse l now d (origin_of l moved) e
      ∙ spaced_settled d ws moved z p k (m ∙ ap (λ w. w.0) first)
      ∙ sym first

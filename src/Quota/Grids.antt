-- ===== src/Quota/Grids.antt =====
-- The grids of quota.go: a window holds the instant that it is for.
use native.Mathlib.Nat.{div-add-mod', mod-lt}
use onegw.Prelude.{
  ℕ, zero, suc, ◌+◌, ◌-◌, ◌*◌, ◌/◌, ◌%◌, ◌≤◌, ◌<◌, ◌≡◌, ◌⊎◌, refl, sym, ◌∙◌, ap, subst, String,
  false, Option, some, arith, str_eq, ◌==◌, if◌then◌else◌, Bool-cases, inl, inr,
}
use onegw.Prelude.Int.{ℤ, pos, negsuc, sub_ℕ}
use onegw.Quota.{Limits, period_d, period_w, floor_div, grid_start, rolling_period, current_window}

abbrev pub Holds : ℕ → ℕ → ℕ → Type 0
Holds now d start = (start ≤ now) × (now < start + d)

pub grid_after : (a now d : ℕ) → a ≤ now → grid_start a now d ≡ a + (now - a) / d * d
unfolding grid_start floor_div
grid_after a now d h = ground (arith, h)

pub le_or_lt : (a b : ℕ) → (a ≤ b) ⊎ (b < a)
le_or_lt a b = ground arith

stepped : ℕ → ℕ → ℤ → ℕ
stepped a d k = elim k [ pos k ↦ a + k * d | negsuc k ↦ a - suc k * d ]

back : (a c d : ℕ) → stepped a d (sub_ℕ 0 c) ≡ a - c * d
unfolding stepped
back a zero d = omega arith
back a (suc c) d = ap (λ k. stepped a d k) (negative c) ∙ refl
  where
    negative : (c : ℕ) → sub_ℕ 0 (suc c) ≡ negsuc c
    negative c = ground arith

steps : ℕ → ℕ → ℕ
steps m d = if m % d == 0 then m / d else m / d + 1

grid_before : (a now d : ℕ) → now < a → grid_start a now d ≡ a - steps (a - now) d * d
unfolding grid_start floor_div stepped steps
grid_before a now d h =
    let m = a - now - 1 in
    let one : sub_ℕ now a ≡ negsuc m = ground (arith, h) in
    let two : suc m ≡ a - now = omega (arith, h) in
    ap (λ k. stepped a d (floor_div k d)) one
    ∙ back a (steps (suc m) d) d
    ∙ ap (λ n. a - steps n d * d) two

-- The steps back reach the start of a period.
steps-reach : (m d : ℕ) → 0 < d → (m ≤ steps m d * d) × (steps m d * d < m + d)
unfolding steps
steps-reach m d p =
    let whole = div-add-mod' m d in
    let rest = mod-lt m {m = d} p in
    elim (Bool-cases (m % d == 0)) [
      | inl e ↦
          let none_left : m % d ≡ 0 = ground (arith, e) in
          rw e (omega (arith, whole, none_left, p), omega (arith, whole, none_left, p))
      | inr e ↦
          let some_left : 0 < m % d = ground (arith, e) in
          rw e (omega (arith, whole, rest, some_left), omega (arith, whole, rest, some_left))
    ]

-- A grid of a period that is not longer than the time so far has a start within one period.
pub grid_start-Holds : (a now d : ℕ) → 0 < d → d ≤ now → Holds now d (grid_start a now d)
grid_start-Holds a now d p h = elim (le_or_lt a now) [
  | inl l ↦
      let q = (now - a) / d in
      let whole = div-add-mod' (now - a) d in
      let rest = mod-lt (now - a) {m = d} p in
      subst (Holds now d) (sym (grid_after a now d l))
        (omega (arith, whole, rest, l), omega (arith, whole, rest, l))
  | inr l ↦
      let (far, near) = steps-reach (a - now) d p in
      subst (Holds now d) (sym (grid_before a now d l))
        (omega (arith, far, near, l, h), omega (arith, far, near, l, h))
]

-- A window kind that is a grid, whose period has passed at least once.
abbrev pub Gridded : (String → Option ℤ) → Limits → ℕ → Type 0
Gridded parse l now =
    (0 < now)
    × (period_w ≤ now)
    × ((l.window ≡ "daily")
        ⊎ (l.window ≡ "weekly")
        ⊎ ((l.window ≡ "monthly") × (31 * period_d ≤ now))
        ⊎ ((d : ℕ) × (0 < d) × (d ≤ now) × (rolling_period parse l.window ≡ some d)))

module _ (parse : String → Option ℤ) (l : Limits) (now : ℕ) where
  abbrev Contains : ℕ × ℕ → Type 0
  Contains (start, end) = (start ≤ now) × (now < end)

  -- A duration is none of the names.
  unnamed :
      (d : ℕ)
      → rolling_period parse l.window ≡ some d
      → (str_eq l.window "daily" ≡ false)
        × (str_eq l.window "weekly" ≡ false)
        × (str_eq l.window "monthly" ≡ false)
  unfolding rolling_period
  unnamed d h = (ground (arith, h), ground (arith, h), ground (arith, h))

  -- The window of a duration.
  unfoldable pub spaced : ℕ → ℕ → ℕ × ℕ
  spaced d anchor =
      let origin = if anchor == 0 then l.anchor else anchor in
      if origin == 0 then (now, now + d) else (grid_start origin now d, grid_start origin now d + d)

  pub rolling_spaced :
      (d anchor : ℕ)
      → rolling_period parse l.window ≡ some d
      → current_window parse l anchor now ≡ spaced d anchor
  unfolding current_window spaced
  rolling_spaced d anchor e = let (x, y, z) = unnamed d e in rw (x, y, z, e) refl

-- ===== src/Quota/Months.antt =====
-- The monthly windows of quota.go: `Date`, `monthShift`, the reset of a month and the window between two.
use onegw.Prelude.{
  ℕ, suc, ◌+◌, ◌-◌, ◌*◌, ◌/◌, min, ◌≤◌, ◌<◌, ◌≡◌, ◌⊎◌, refl, sym, ◌∙◌, ap, subst, true, false,
  arith, ltb, leb, ◌==◌, if◌then◌else◌, Bool-cases, inl, inr,
}
use onegw.Prelude.Int.{pos, negsuc}
use onegw.Quota.{
  period_d, days_in, before_year, before_month, day_number, year_of, month_of, date, month_shift,
  phase, month_grid,
}
use onegw.Quota.Calendar.{
  InMonth, month_from-InMonth, year_of-InYear, year_end, before_month-suc, first, IsMonth, Lies,
  Lies-unique,
}

-- The month of a day of a year.
month_of-InMonth :
    (n y : ℕ) → n - before_year y < before_month y 13 → InMonth (n - before_year y) y (month_of y n)
unfolding month_of before_month
month_of-InMonth n y h =
    month_from-InMonth 11 y 1 (n - before_year y) (omega arith) refl (omega arith) h

day_Lies : (n : ℕ) → Lies n (year_of n) (month_of (year_of n) n)
day_Lies n =
    let y = year_of n in
    let (p, l, h) = year_of-InYear n in
    let (q, r, k, t) = month_of-InMonth n y (omega (arith, l, h, year_end y p)) in
    ((p, q, r), omega (arith, l, k), omega (arith, l, t, before_month-suc y (month_of y n) q))

pub date-Lies : (u : ℕ) → Lies (u / period_d) ((date u).0) ((date u).1)
unfolding date
date-Lies u = day_Lies (u / period_d)

date_day : (u : ℕ) → 1 ≤ (date u).2
unfolding date
date_day u = omega arith

-- A month and the month after it.
abbrev pub Follows : ℕ → ℕ → ℕ × ℕ → Type 0
Follows y m (z, k) = IsMonth z k × (first z k ≡ first y m + days_in y m)

paired : {a b c d : ℕ} → a ≡ b → c ≡ d → ◌≡◌ {A = ℕ × ℕ} (a, c) (b, d)
paired {b = b} {c} p q = ap (λ k. (k, c)) p ∙ ap (λ k. (b, k)) q

shift-suc : (y m : ℕ) → 1 ≤ m → m ≤ 11 → month_shift y m (pos 1) ≡ (y, suc m)
unfolding month_shift
shift-suc y m p h = paired (omega (arith, p, h)) (omega (arith, p, h))

shift_around : (y m : ℕ) → m ≡ 12 → month_shift y m (pos 1) ≡ (suc y, 1)
unfolding month_shift
shift_around y m e = paired (omega (arith, e)) (omega (arith, e))

first_after : (y m : ℕ) → 1 ≤ m → first y (suc m) ≡ first y m + days_in y m
first_after y m p = omega (arith, before_month-suc y m p)

first_of_year : (y m : ℕ) → 1 ≤ y → m ≡ 12 → first (suc y) 1 ≡ first y m + days_in y m
unfolding before_month
first_of_year y m p e =
    let end : before_month y 13 ≡ before_month y m + days_in y m =
      subst (λ k. before_month y 13 ≡ before_month y k + days_in y k) (sym e) refl in
    omega (arith, year_end y p, end)

within_year : (m : ℕ) → m ≤ 12 → (m ≤ 11) ⊎ (m ≡ 12)
within_year m h = ground (arith, h)

month_shift-Follows : (y m : ℕ) → IsMonth y m → Follows y m (month_shift y m (pos 1))
month_shift-Follows y m (p, q, r) = elim (within_year m r) [
  | inl h ↦
      subst (Follows y m) (sym (shift-suc y m q h))
        ((p, omega arith, omega (arith, h)), first_after y m q)
  | inr e ↦
      subst (Follows y m) (sym (shift_around y m e))
        ((omega arith, omega arith, omega arith), first_of_year y m p e)
]

-- The month before, of a month that is not the first of all.
Before : ℕ → ℕ → ℕ × ℕ → Type 0
Before y m (z, k) = IsMonth z k × (month_shift z k (pos 1) ≡ (y, m))

shift_back : (y m : ℕ) → 2 ≤ m → m ≤ 12 → month_shift y m (negsuc 0) ≡ (y, m - 1)
unfolding month_shift
shift_back y m h r =
    let some_back : leb 1 (m - 1) ≡ true = ground (arith, h) in
    rw some_back (paired (omega (arith, h, r)) (omega (arith, h, r)))

shift_before : (y m : ℕ) → m ≡ 1 → month_shift y m (negsuc 0) ≡ (y - 1, 12)
unfolding month_shift
shift_before y m e = rw e (paired (omega arith) refl)

month_shift-Before :
    (y m : ℕ) → IsMonth y m → (2 ≤ y) ⊎ (2 ≤ m) → Before y m (month_shift y m (negsuc 0))
unfolding Before
month_shift-Before y m (p, q, r) late = elim (first_or_later m q) [
  | inl e ↦
      let old : 2 ≤ y = omega (arith, e, late) in
      subst (Before y m) (sym (shift_before y m e)) (
        (omega (arith, old), omega arith, omega arith),
        shift_around (y - 1) 12 refl ∙ paired (omega (arith, old)) (sym e),
      )
  | inr h ↦ subst (Before y m) (sym (shift_back y m h r)) (
    (p, omega (arith, h), omega (arith, r)),
    shift-suc y (m - 1) (omega (arith, h)) (omega (arith, r)) ∙ paired refl (omega (arith, h)),
  )
]
  where
    first_or_later : (m : ℕ) → 1 ≤ m → (m ≡ 1) ⊎ (2 ≤ m)
    first_or_later m h = ground (arith, h)

-- A day past the first month of all.
past_first :
    (u y m : ℕ)
    → IsMonth y m
    → 31 ≤ u / period_d
    → u / period_d < first y m + days_in y m
    → (2 ≤ y) ⊎ (2 ≤ m)
unfolding before_year before_month days_in
past_first u y m (p, q, r) long h = elim (first_month y m p q) [
  | inl (e, f) ↦
      let month : first y m + days_in y m ≡ 31 =
        ap (λ k. first k m + days_in k m) e ∙ ap (λ k. first 1 k + days_in 1 k) f in
      absurd (omega (arith, long, h, month))
  | inr late ↦ late
]
  where
    first_month : (y m : ℕ) → 1 ≤ y → 1 ≤ m → ((y ≡ 1) × (m ≡ 1)) ⊎ (2 ≤ y) ⊎ (2 ≤ m)
    first_month y m p q = ground (arith, p, q)

-- The reset of a month is in that month.
phase_day : (a y m : ℕ) → ℕ
phase_day a y m = min ((date a).2) (days_in y m)

some_days : (y m : ℕ) → 28 ≤ days_in y m
unfolding days_in
some_days y m = ground arith

phase-bounds :
    (a y m : ℕ)
    → (first y m * period_d ≤ phase a y m) × (phase a y m < (first y m + days_in y m) * period_d)
unfolding phase day_number
phase-bounds a y m =
    let one = date_day a in let many = some_days y m in (omega arith, omega (arith, one, many))

phase-Lies : (a y m : ℕ) → IsMonth y m → Lies (phase a y m / period_d) y m
phase-Lies a y m h =
    let (low, high) = phase-bounds a y m in (h, omega (arith, low), omega (arith, high))

date-phase : (a y m : ℕ) → IsMonth y m → ((date (phase a y m)).0 ≡ y) × ((date (phase a y m)).1 ≡ m)
date-phase a y m h =
    Lies-unique (phase a y m / period_d) _ _ y m (date-Lies (phase a y m)) (phase-Lies a y m h)

-- A window that begins at a start ends with the reset of the month after it.
closing : ℕ → ℕ → ℕ × ℕ
closing a start =
    let e = month_shift ((date start).0) ((date start).1) (pos 1) in (start, phase a (e.0) (e.1))

closing-phase :
    (a y m : ℕ)
    → IsMonth y m
    → closing a (phase a y m)
      ≡ (phase a y m, phase a ((month_shift y m (pos 1)).0) ((month_shift y m (pos 1)).1))
unfolding closing
closing-phase a y m h =
    let (p, q) = date-phase a y m h in
    ap
      (λ k. (
        phase a y m,
        phase a ((month_shift k ((date (phase a y m)).1) (pos 1)).0)
            ((month_shift k ((date (phase a y m)).1) (pos 1)).1),
      ))
      p
    ∙ ap (λ k. (phase a y m, phase a ((month_shift y k (pos 1)).0) ((month_shift y k (pos 1)).1))) q

module _ (a u : ℕ) where
  abbrev Contains : ℕ × ℕ → Type 0
  Contains (start, end) = (start ≤ u) × (u < end)

  here : ℕ
  here = phase a ((date u).0) ((date u).1)

  earlier : ℕ
  earlier = let p = month_shift ((date u).0) ((date u).1) (negsuc 0) in phase a (p.0) (p.1)

  month_grid-zero :
      a ≡ 0
      → let n = month_shift ((date u).0) ((date u).1) (pos 1) in
        month_grid a u ≡ (first ((date u).0) ((date u).1) * period_d, first (n.0) (n.1) * period_d)
  unfolding month_grid day_number
  month_grid-zero e = rw e (paired (omega arith) (omega arith))

  month_grid-closing : 0 < a → month_grid a u ≡ closing a (if ltb u here then earlier else here)
  unfolding month_grid closing here earlier
  month_grid-closing p = let anchored : (a == 0) ≡ false = ground (arith, p) in rw anchored refl

  -- The month of an instant before its reset, and after it.
  before_reset : 31 * period_d ≤ u → u < here → Contains (closing a earlier)
  unfolding here earlier Before
  before_reset long h =
      let (month, low, high) = date-Lies u in
      let y = (date u).0 in
      let m = (date u).1 in
      let p = month_shift y m (negsuc 0) in
      let (is, next) =
        month_shift-Before y m month (past_first u y m month (omega (arith, long)) high) in
      let (is', step) = month_shift-Follows (p.0) (p.1) is in
      let begins : first y m ≡ first (p.0) (p.1) + days_in (p.0) (p.1) =
        ap (λ k. first (k.0) (k.1)) (sym next) ∙ step in
      subst Contains
        (sym (
          closing-phase a (p.0) (p.1) is
          ∙ ap (λ k. (phase a (p.0) (p.1), phase a (k.0) (k.1))) next))
        (omega (arith, phase-bounds a (p.0) (p.1), begins, low), h)

  after_reset : here ≤ u → Contains (closing a here)
  unfolding here
  after_reset h =
      let (month, low, high) = date-Lies u in
      let y = (date u).0 in
      let m = (date u).1 in
      let n = month_shift y m (pos 1) in
      let (is, step) = month_shift-Follows y m month in
      subst Contains (sym (closing-phase a y m month))
        (h, omega (arith, phase-bounds a (n.0) (n.1), step, high))

  unanchored : a ≡ 0 → Contains (month_grid a u)
  unanchored e =
      let (month, low, high) = date-Lies u in
      let (is, step) = month_shift-Follows ((date u).0) ((date u).1) month in
      subst Contains (sym (month_grid-zero e)) (omega (arith, low), omega (arith, step, high))

  -- The monthly window of an instant contains it.
  pub month_grid-Contains : 31 * period_d ≤ u → Contains (month_grid a u)
  month_grid-Contains long = elim (Bool-cases (a == 0)) [
    | inl e ↦ unanchored (ground (arith, e))
    | inr e ↦
        subst Contains (sym (month_grid-closing (ground (arith, e))))
          (elim (Bool-cases (ltb u here)) [
            | inl l ↦ rw l (before_reset long (ground (arith, l)))
            | inr l ↦ rw l (after_reset (ground (arith, l)))
          ])
  ]

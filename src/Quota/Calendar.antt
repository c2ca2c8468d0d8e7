-- ===== src/Quota/Calendar.antt =====
-- The calendar that quota.go reads: every day is in one month of one year.
use onegw.Prelude.{
  ℕ, zero, suc, ◌+◌, ◌-◌, ◌*◌, ◌/◌, ◌≤◌, ◌<◌, ◌≡◌, ◌⊎◌, refl, sym, ap, subst, arith, ltb,
  if◌then◌else◌, Bool-cases, inl, inr,
}
use onegw.Quota.{is_leap, days_in, before_year, before_month, year_from, year_of, month_from}

abbrev pub year_length : ℕ → ℕ
year_length y = if is_leap y then 366 else 365

before_year-suc : (y : ℕ) → before_year (suc (suc y)) ≡ before_year (suc y) + year_length (suc y)
unfolding before_year is_leap
before_year-suc y = ground arith

before_month-year : (y : ℕ) → before_month y 13 ≡ year_length y
unfolding before_month days_in
before_month-year y = ground arith

before_year-ge : (y : ℕ) → 365 * y ≤ before_year (suc y)
unfolding before_year
before_year-ge y = omega arith

before_year-le : (y : ℕ) → before_year (suc y) ≤ 366 * y
unfolding before_year
before_year-le y = omega arith

-- A year, or a month of it, that a day lies in.
abbrev pub InYear : ℕ → ℕ → Type 0
InYear n y = (1 ≤ y) × (before_year y ≤ n) × (n < before_year (suc y))

year_from-InYear :
    (fuel y n : ℕ)
    → 1 ≤ y
    → before_year y ≤ n
    → n < before_year (y + fuel)
    → InYear n (year_from fuel y n)
unfolding year_from
year_from-InYear zero y n p l h = absurd (omega (arith, l, h, ap before_year (zero_more y)))
  where
    zero_more : (y : ℕ) → y + 0 ≡ y
    zero_more y = omega arith
year_from-InYear (suc fuel) y n p l h = elim (Bool-cases (ltb n (before_year (suc y)))) [
  | inl e ↦ rw (year_from, e) (p, l, ground (arith, e))
  | inr e ↦
      let more : suc y + fuel ≡ y + suc fuel = omega arith in
      rw (year_from, e)
        (year_from-InYear fuel (suc y) n (omega arith) (ground (arith, e))
          (subst (λ k. n < before_year k) (sym more) h))
]

pub year_of-InYear : (n : ℕ) → InYear n (year_of n)
unfolding year_of
year_of-InYear n =
    let q = n / 366 in
    let low : before_year (q + 1) ≤ n =
      subst (λ k. before_year k ≤ n) {x = suc q} (omega arith) (omega (arith, before_year-le q)) in
    let high : n < before_year (q + 1 + suc (n / 365)) =
      subst (λ k. n < before_year k) {x = suc (q + suc (n / 365))} (omega arith)
        (omega (arith, before_year-ge (q + suc (n / 365)))) in
    year_from-InYear (suc (n / 365)) (q + 1) n (omega arith) low high

before_year_mono : (y k : ℕ) → before_year (suc y) ≤ before_year (suc (y + k))
before_year_mono y zero = omega (arith, ap (λ m. before_year (suc m)) (plus_none y))
  where
    plus_none : (y : ℕ) → y + 0 ≡ y
    plus_none y = omega arith
before_year_mono y (suc k) =
    let up : before_year (suc (y + suc k)) ≡ before_year (suc (suc (y + k))) =
      ap (λ m. before_year (suc m)) (omega arith) in
    omega (arith, before_year_mono y k, before_year-suc (y + k), up)

before_year-le-before_year : (y z : ℕ) → 1 ≤ y → y ≤ z → before_year y ≤ before_year z
before_year-le-before_year y z p h =
    let one : suc (y - 1) ≡ y = omega (arith, p) in
    let two : suc (y - 1 + (z - y)) ≡ z = omega (arith, p, h) in
    subst (λ k. before_year k ≤ before_year z) one
      (subst (λ k. before_year (suc (y - 1)) ≤ before_year k) two
        (before_year_mono (y - 1) (z - y)))

-- A day is in one year.
InYear-unique : (n y z : ℕ) → InYear n y → InYear n z → y ≡ z
InYear-unique n y z (p, l, h) (q, m, k) = elim (three y z) [
  | inl e ↦ e
  | inr (inl lt) ↦
      absurd (omega (arith, h, m, before_year-le-before_year (suc y) z (omega arith) lt))
  | inr (inr lt) ↦
      absurd (omega (arith, k, l, before_year-le-before_year (suc z) y (omega arith) lt))
]
  where
    three : (y z : ℕ) → (y ≡ z) ⊎ (suc y ≤ z) ⊎ (suc z ≤ y)
    three y z = ground arith

-- A month of a year, as the days before it and up to its end.
abbrev pub InMonth : ℕ → ℕ → ℕ → Type 0
InMonth r y m = (1 ≤ m) × (m ≤ 12) × (before_month y m ≤ r) × (r < before_month y (suc m))

pub month_from-InMonth :
    (fuel y m r : ℕ)
    → 1 ≤ m
    → m + fuel ≡ 12
    → before_month y m ≤ r
    → r < before_month y 13
    → InMonth r y (month_from fuel y m r)
unfolding month_from
month_from-InMonth zero y m r p f l h =
    let last : 12 ≡ m = omega (arith, f) in
    (p, omega (arith, last), l, subst (λ k. r < before_month y (suc k)) last h)
month_from-InMonth (suc fuel) y m r p f l h = elim (Bool-cases (ltb r (before_month y (suc m)))) [
  | inl e ↦ rw (month_from, e) (p, omega (arith, f), l, ground (arith, e))
  | inr e ↦
      rw (month_from, e)
        (month_from-InMonth fuel y (suc m) r (omega arith) (omega (arith, f)) (ground (arith, e)) h)
]

pub before_month-suc : (y m : ℕ) → 1 ≤ m → before_month y (suc m) ≡ before_month y m + days_in y m
unfolding before_month
before_month-suc y zero h = absurd (omega (arith, h))
before_month-suc y (suc m) h = refl

before_month_mono : (y m k : ℕ) → 1 ≤ m → before_month y m ≤ before_month y (m + k)
before_month_mono y m zero p = omega (arith, ap (before_month y) (plus_none m))
  where
    plus_none : (m : ℕ) → m + 0 ≡ m
    plus_none m = omega arith
before_month_mono y m (suc k) p =
    let up : before_month y (m + suc k) ≡ before_month y (suc (m + k)) =
      ap (before_month y) (omega arith) in
    omega (arith, before_month_mono y m k p, before_month-suc y (m + k) (omega (arith, p)), up)

before_month-le : (y m k : ℕ) → 1 ≤ m → m ≤ k → before_month y m ≤ before_month y k
before_month-le y m k p h =
    let whole : m + (k - m) ≡ k = omega (arith, h) in
    subst (λ j. before_month y m ≤ before_month y j) whole (before_month_mono y m (k - m) p)

-- The first day of a month, and the days that lie in it.
abbrev pub first : ℕ → ℕ → ℕ
first y m = before_year y + before_month y m

abbrev pub IsMonth : ℕ → ℕ → Type 0
IsMonth y m = (1 ≤ y) × (1 ≤ m) × (m ≤ 12)

abbrev pub Lies : ℕ → ℕ → ℕ → Type 0
Lies n y m = IsMonth y m × (first y m ≤ n) × (n < first y m + days_in y m)

pub year_end : (y : ℕ) → 1 ≤ y → before_year (suc y) ≡ before_year y + before_month y 13
year_end y p =
    let one : suc (y - 1) ≡ y = omega (arith, p) in
    subst (λ k. before_year (suc k) ≡ before_year k + before_month k 13) one
      (omega (arith, before_year-suc (y - 1), before_month-year (suc (y - 1))))

Lies-InYear : (n y m : ℕ) → Lies n y m → InYear n y
Lies-InYear n y m ((p, q, r), l, h) = (
  p,
  omega (arith, l),
  omega (
    arith,
    h,
    year_end y p,
    before_month-suc y m q,
    before_month-le y (suc m) 13 (omega arith) (omega (arith, r)),
  ),
)

-- A day lies in one month.
pub Lies-unique : (n y m z k : ℕ) → Lies n y m → Lies n z k → (y ≡ z) × (m ≡ k)
Lies-unique n y m z k a b =
    let e = InYear-unique n y z (Lies-InYear n y m a) (Lies-InYear n z k b) in
    (e, same_month n y m k a (subst (λ x. Lies n x k) (sym e) b))
  where
    three : (y z : ℕ) → (y ≡ z) ⊎ (suc y ≤ z) ⊎ (suc z ≤ y)
    three y z = ground arith

    same_month : (n y m k : ℕ) → Lies n y m → Lies n y k → m ≡ k
    same_month n y m k ((p, q, r), l, h) ((p', q', r'), l', h') = elim (three m k) [
      | inl e ↦ e
      | inr (inl lt) ↦ absurd (
          omega
            (arith, h, l', before_month-suc y m q, before_month-le y (suc m) k (omega arith) lt))
      | inr (inr lt) ↦ absurd (
          omega
            (arith, h', l, before_month-suc y k q', before_month-le y (suc k) m (omega arith) lt))
    ]

-- ===== src/Tests/Quotas.antt =====
-- Providers with a daily and a monthly window, and instants of March 2026.
use onegw.Prelude.{ℕ, ◌+◌, ◌≡◌, refl, String, Option, none, some, [], ◌∷◌, arith, inl}
use onegw.Prelude.Int.{ℤ}
use onegw.Prelude.Assoc.{lookup}
use onegw.Quota.{
  Limits, Tracker, unseen, observe, inherit, exhausted, status_of, status, month_grid, phase, date,
  month_shift, day_number, before_month, before_year, days_in, is_leap, year_of, year_from,
  month_of, month_from, iso_week_start,
}
use onegw.Quota.Grids.{Gridded}
use onegw.Quota.Counts.{observe-status}
use onegw.Quota.Inherited.{inherit-status}

-- Tuesday, 10 March 2026, 05:00.
abbrev march : ℕ
march = 63908715600000000000

-- 31 January 2026, 07:00.
abbrev january : ℕ
january = 63905439600000000000

tenth_of_march : date march ≡ (2026, 3, 10)
unfolding date year_of year_from month_of month_from day_number before_month before_year days_in
    is_leap
tenth_of_march = refl

leap_day : date (63970992000000000000) ≡ (2028, 2, 29)
unfolding date year_of year_from month_of month_from day_number before_month before_year days_in
    is_leap
leap_day = refl

last_of_century : date (63113817600000000000) ≡ (2000, 12, 31)
unfolding date year_of year_from month_of month_from day_number before_month before_year days_in
    is_leap
last_of_century = refl

-- The grid of a 31st resets on the last of February.
month_of_31st : month_grid january march ≡ (63907858800000000000, 63910537200000000000)
unfolding month_grid phase month_shift date year_of year_from month_of month_from day_number
    before_month before_year days_in is_leap
month_of_31st = refl

march_monday : iso_week_start march ≡ 63908611200000000000
unfolding iso_week_start
march_monday = refl

abbrev no_durations : String → Option ℤ
no_durations s = none

abbrev daily : Limits
daily = record { window = "daily"; anchor = january; limit_tokens = 100; limit_requests = 0 }

abbrev tracker : Tracker
tracker = record { limits = ("x", daily) ∷ []; state = [] }

daily-Gridded : Gridded no_durations daily march
daily-Gridded = (omega arith, omega arith, inl refl)

abbrev monthly : Limits
monthly = record { window = "monthly"; anchor = january; limit_tokens = 100; limit_requests = 0 }

observe-status_example :
    let t' = observe no_durations tracker "x" 60 1 march in
    let before = status_of no_durations "x" daily unseen march in
    (status no_durations tracker "x" march ≡ some before)
    × (status no_durations t' "x" march
        ≡ some (record before {
          tokens = before.tokens + 60;
          requests = before.requests + 1;
          is_exhausted = exhausted daily (before.tokens + 60) (before.requests + 1);
        }))
    × (status no_durations t' "y" march ≡ status no_durations tracker "y" march)
unfolding lookup
observe-status_example =
    observe-status no_durations "x" daily unseen march tracker 60 1 "y" refl refl refl daily-Gridded
      refl

-- The tracker before a reload, whose provider "z" is no longer configured.
abbrev reloaded : Tracker
reloaded = record {
  limits = [];
  state =
      ("x", record { start = 63908636400000000000; used_tokens = 40; used_requests = 2 })
      ∷ ("z", record { start = 1; used_tokens = 7; used_requests = 1 })
      ∷ [];
}

inherit-status_example :
    status no_durations (inherit tracker (some reloaded)) "x" march
    ≡ (elim (lookup "x" reloaded.state) [
      | none ↦ status no_durations tracker "x" march
      | some ws ↦
          status no_durations (record { limits = tracker.limits; state = reloaded.state }) "x" march
    ])
unfolding lookup
inherit-status_example = inherit-status no_durations tracker reloaded "x" march (refl, (refl, tt))

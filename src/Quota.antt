-- ===== src/Quota.antt =====
-- internal/quota/quota.go: the windows of a provider's quota and what is counted in them. Instants are
-- nanoseconds since the start of year 1, a Monday, where Go's zero time stands; 0 is no anchor. A limit
-- that is not positive is 0.
pub mod Grids
pub mod Calendar
pub mod Months
pub mod Settled
pub mod Counts
pub mod Inherited
use onegw.Prelude.{
  ℕ, zero, suc, ◌+◌, ◌-◌, ◌*◌, ◌/◌, ◌%◌, min, String, Bool, true, false, not, ◌&&◌, ◌||◌, Option,
  none, some, List, [], ◌∷◌, str_eq, ltb, leb, ◌==◌, if◌then◌else◌,
}
use onegw.Prelude.Int.{ℤ, pos, negsuc, sub_ℕ}
use onegw.Prelude.Assoc.{Entries, lookup, insert}

abbrev pub period_d : ℕ
period_d = 86400000000000

abbrev pub period_w : ℕ
period_w = 604800000000000

pub record Limits : Type 0 where
  pub window : String
  pub anchor : ℕ
  pub limit_tokens : ℕ
  pub limit_requests : ℕ

pub record WindowState : Type 0 where
  pub start : ℕ
  pub used_tokens : ℕ
  pub used_requests : ℕ

pub record Tracker : Type 0 where
  pub limits : Entries Limits
  pub state : Entries WindowState

pub record Status : Type 0 where
  pub provider : String
  pub kind : String
  pub window_start : ℕ
  pub window_end : ℕ
  pub tokens : ℕ
  pub token_limit : ℕ
  pub requests : ℕ
  pub request_limit : ℕ
  pub is_exhausted : Bool

-- `rollingPeriod`, over what `time.ParseDuration` reads.
unfoldable pub rolling_period : (String → Option ℤ) → String → Option ℕ
rolling_period parse w =
    if str_eq w "" || str_eq w "daily" || str_eq w "weekly" || str_eq w "monthly"
    then none
    else elim (parse w) [
      | none ↦ none
      | some (pos d) ↦ if d == 0 then none else some d
      | some (negsuc d) ↦ none
    ]

-- The division is of Go, towards zero, and then corrected.
unfoldable pub floor_div : ℤ → ℕ → ℤ
floor_div (pos n) d = pos (n / d)
floor_div (negsuc n) d = sub_ℕ 0 (if suc n % d == 0 then suc n / d else suc n / d + 1)

unfoldable pub grid_start : ℕ → ℕ → ℕ → ℕ
unfolding floor_div
grid_start a now d = elim (floor_div (sub_ℕ now a) d) [
  | pos k ↦ a + k * d
  | negsuc k ↦ a - suc k * d
]

-- Monday 00:00 of the week; day 0 is a Monday and Sunday has the number 0.
unfoldable pub iso_week_start : ℕ → ℕ
iso_week_start u =
    let weekday = (u / period_d + 1) % 7 in
    let wd = if weekday == 0 then 7 else weekday in (u / period_d - (wd - 1)) * period_d

-- The calendar of Go's `time`: years, months and days count from 1.
unfoldable pub is_leap : ℕ → Bool
is_leap y = if y % 100 == 0 then y % 400 == 0 else y % 4 == 0

unfoldable pub days_in : ℕ → ℕ → ℕ
unfolding is_leap
days_in y m =
    if m == 2
    then (if is_leap y then 29 else 28)
    else if (m == 4) || (m == 6) || (m == 9) || (m == 11)
    then 30
    else 31

-- The days before a year, and before a month of a year.
unfoldable pub before_year : ℕ → ℕ
before_year y = 365 * (y - 1) + (y - 1) / 4 - (y - 1) / 100 + (y - 1) / 400

unfoldable pub before_month : ℕ → ℕ → ℕ
unfolding days_in
before_month y zero = 0
before_month y (suc zero) = 0
before_month y (suc (suc m)) = before_month y (suc m) + days_in y (suc m)

unfoldable pub day_number : ℕ → ℕ → ℕ → ℕ
unfolding before_year before_month
day_number y m d = before_year y + before_month y m + (d - 1)

-- The year of a day, of which at most so many years are tried from one on.
unfoldable pub year_from : ℕ → ℕ → ℕ → ℕ
unfolding before_year
year_from zero y n = y
year_from (suc fuel) y n = elim (ltb n (before_year (suc y))) [
  | true ↦ y
  | false ↦ year_from fuel (suc y) n
]

unfoldable pub year_of : ℕ → ℕ
unfolding year_from
year_of n = year_from (suc (n / 365)) (n / 366 + 1) n

unfoldable pub month_from : ℕ → ℕ → ℕ → ℕ → ℕ
unfolding before_month
month_from zero y m r = m
month_from (suc fuel) y m r = elim (ltb r (before_month y (suc m))) [
  | true ↦ m
  | false ↦ month_from fuel y (suc m) r
]

unfoldable pub month_of : ℕ → ℕ → ℕ
unfolding month_from before_year
month_of y n = month_from 11 y 1 (n - before_year y)

-- `Date`: the year, month and day of an instant.
unfoldable pub date : ℕ → ℕ × ℕ × ℕ
unfolding year_of month_of day_number
date u =
    let n = u / period_d in
    let y = year_of n in let m = month_of y n in (y, m, n - day_number y m 1 + 1)

-- `monthShift`, whose months count from 0 inside.
unfoldable pub month_shift : ℕ → ℕ → ℤ → ℕ × ℕ
month_shift y m (pos k) = let i = (m - 1) + k in (y + i / 12, i % 12 + 1)
month_shift y m (negsuc k) =
    if leb (suc k) (m - 1)
    then (let i = m - 1 - suc k in (y + i / 12, i % 12 + 1))
    else (let i = suc k - (m - 1) in
        if i % 12 == 0 then (y - i / 12, 1) else (y - i / 12 - 1, 12 - i % 12 + 1))

-- The reset of a month: the day of the anchor, or the last of a shorter month, at its second of the day.
unfoldable pub phase : ℕ → ℕ → ℕ → ℕ
unfolding date day_number days_in
phase a y m =
    let day = min ((date a).2) (days_in y m) in
    day_number y m day * period_d + (a % period_d) / 1000000000 * 1000000000

unfoldable pub month_grid : ℕ → ℕ → ℕ × ℕ
unfolding phase date month_shift day_number
month_grid a u =
    let (y, m, d) = date u in
    let (ny, nm) = month_shift y m (pos 1) in
    let (py, pm) = month_shift y m (negsuc 0) in
    let here = phase a y m in
    let start = if ltb u here then phase a py pm else here in
    let (sy, sm, sd) = date start in
    let (ey, em) = month_shift sy sm (pos 1) in
    if a == 0
    then (day_number y m 1 * period_d, day_number ny nm 1 * period_d)
    else (start, phase a ey em)

-- The window of an instant: its start and its end.
unfoldable pub current_window : (String → Option ℤ) → Limits → ℕ → ℕ → ℕ × ℕ
current_window parse l anchor now =
    let midnight = now - now % period_d in
    let day = if l.anchor == 0 then midnight else grid_start l.anchor now period_d in
    let week = if l.anchor == 0 then iso_week_start now else grid_start l.anchor now period_w in
    let origin = if anchor == 0 then l.anchor else anchor in
    if str_eq l.window "daily"
    then (day, day + period_d)
    else if str_eq l.window "weekly"
    then (week, week + period_w)
    else if str_eq l.window "monthly"
    then month_grid l.anchor now
    else elim (rolling_period parse l.window) [
      | none ↦ (0, 0)
      | some d ↦
          if origin == 0
          then (now, now + d)
          else (grid_start origin now d, grid_start origin now d + d)
    ]

-- The origin of a provider's grid: the configured one, or else the start of its window.
unfoldable pub origin_of : Limits → WindowState → ℕ
origin_of l ws = if l.anchor == 0 then ws.start else l.anchor

unfoldable pub roll : (String → Option ℤ) → Limits → WindowState → ℕ → WindowState
roll parse l ws now =
    let start = (current_window parse l (origin_of l ws) now).0 in
    if ws.start == start then ws else record { start = start; used_tokens = 0; used_requests = 0 }

abbrev pub unseen : WindowState
unseen = record { start = 0; used_tokens = 0; used_requests = 0 }

abbrev pub or_unseen : Option WindowState → WindowState
or_unseen none = unseen
or_unseen (some ws) = ws

unfoldable pub count_in : ℕ → ℕ → WindowState → WindowState
count_in tokens requests ws = record ws {
  used_tokens = ws.used_tokens + tokens;
  used_requests = ws.used_requests + requests;
}

unfoldable pub observe : (String → Option ℤ) → Tracker → String → ℕ → ℕ → ℕ → Tracker
observe parse t provider tokens requests now = elim (lookup provider t.limits) [
  | none ↦ t
  | some l ↦
      let ws = or_unseen (lookup provider t.state) in
      if str_eq l.window "" then t else record t {
        state = insert provider (count_in tokens requests (roll parse l ws now)) t.state;
      }
]

unfoldable pub exhausted : Limits → ℕ → ℕ → Bool
exhausted l tokens requests =
    (ltb 0 l.limit_tokens && leb l.limit_tokens tokens)
    || (ltb 0 l.limit_requests && leb l.limit_requests requests)

abbrev pub shown : String → Limits → ℕ × ℕ → ℕ → ℕ → Status
shown provider l (start, end) tokens requests = record {
  provider = provider;
  kind = l.window;
  window_start = start;
  window_end = end;
  tokens = tokens;
  token_limit = l.limit_tokens;
  requests = requests;
  request_limit = l.limit_requests;
  is_exhausted = exhausted l tokens requests;
}

-- The counters show if they are of the window.
unfoldable pub status_of : (String → Option ℤ) → String → Limits → WindowState → ℕ → Status
status_of parse provider l ws now =
    let w = current_window parse l (origin_of l ws) now in
    shown provider l w (if ws.start == w.0 then ws.used_tokens else 0)
      (if ws.start == w.0 then ws.used_requests else 0)

unfoldable pub status : (String → Option ℤ) → Tracker → String → ℕ → Option Status
status parse t provider now = elim (lookup provider t.limits) [
  | none ↦ none
  | some l ↦
      if str_eq l.window ""
      then none
      else some (status_of parse provider l (or_unseen (lookup provider t.state)) now)
]

-- The loop of `Inherit` over what the other tracker has.
unfoldable pub inherit_all :
    Entries Limits → Entries WindowState → Entries WindowState → Entries WindowState
inherit_all limits [] state = state
inherit_all limits ((name, ws) ∷ rest) state =
    let later = inherit_all limits rest in
    elim (lookup name limits) [ none ↦ later state | some l ↦ later (insert name ws state) ]

unfoldable pub inherit : Tracker → Option Tracker → Tracker
unfolding inherit_all
inherit t none = t
inherit t (some other) = record t { state = inherit_all t.limits other.state t.state }

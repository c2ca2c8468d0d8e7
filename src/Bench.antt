-- ===== src/Bench.antt =====
-- The benches of provider.go for a pair of provider and model: `BenchModel`, `ModelBenched` and the
-- strikes of header timeouts. The order in which Go ranges over a map is that of the list.
pub mod Verdicts
use onegw.Prelude.{
  ℕ, zero, suc, ◌+◌, ◌-◌, ◌*◌, ◌≤◌, ◌<◌, ◌≡◌, String, Bool, true, false, Option, none, some, List,
  [], ◌∷◌, length, str_eq, ltb, leb, ◌==◌, if◌then◌else◌,
}
use onegw.Prelude.Assoc.{Entries, lookup, insert, delete}
use onegw.Pool.{second, or_shipped}

abbrev pub model_bench_ttl : ℕ
model_bench_ttl = 300 * second

abbrev pub max_model_benches : ℕ
max_model_benches = 256

abbrev pub header_timeout_strikes : ℕ
header_timeout_strikes = 3

abbrev pub header_timeout_window : ℕ
header_timeout_window = 180 * second

abbrev pub header_timeout_bench : ℕ
header_timeout_bench = 180 * second

pub record HtWindow : Type 0 where
  pub count : ℕ
  pub since : ℕ

-- The part of a provider that the benches use; `bench_ttl` is the operator's, 0 for none.
pub record Benches : Type 0 where
  pub bench_ttl : ℕ
  pub model_bench : Entries ℕ
  pub ht_strikes : Entries HtWindow

unfoldable pub ttl_of : Benches → ℕ → ℕ
ttl_of d ttl = or_shipped ttl (or_shipped d.bench_ttl model_bench_ttl)

-- The benches that are not over.
unfoldable pub sweep : ℕ → Entries ℕ → Entries ℕ
sweep now [] = []
sweep now (entry ∷ rest) =
    let kept = sweep now rest in if leb entry.1 now then kept else entry ∷ kept

-- The name of the bench that is over first, of a candidate and the others. The empty name is no
-- candidate.
unfoldable pub soonest : String × ℕ → Entries ℕ → String × ℕ
soonest best [] = best
soonest best (entry ∷ rest) =
    let other = soonest entry rest in
    let same = soonest best rest in
    if str_eq best.0 "" then other else if ltb entry.1 best.1 then other else same

-- Room for a bench in a full map: what is over goes, or else what is over first.
unfoldable pub make_room : ℕ → Entries ℕ → Entries ℕ
unfolding sweep soonest
make_room now benches =
    let kept = sweep now benches in
    if leb max_model_benches (length benches)
    then (if leb max_model_benches (length kept)
        then delete (soonest ("", 0) kept).0 kept
        else kept)
    else benches

-- When a bench ends, 0 for none.
unfoldable pub until : Entries ℕ → String → ℕ
until benches model = elim (lookup model benches) [ none ↦ 0 | some t ↦ t ]

-- `BenchModel`, where a ttl of 0 stands for the provider's.
unfoldable pub bench_model : Benches → ℕ → String → ℕ → Benches
unfolding make_room until
bench_model d now model ttl =
    let room = make_room now d.model_bench in
    let t = now + ttl_of d ttl in
    record d { model_bench = if ltb (until room model) t then insert model t room else room }

-- `ModelBenched`: whether a model is benched and until when; a bench that is over is removed.
unfoldable pub model_benched : Benches → ℕ → String → Benches × Bool × ℕ
model_benched d now model = elim (lookup model d.model_bench) [
  | none ↦ (d, false, 0)
  | some t ↦
      if ltb now t
      then (d, true, t)
      else (record d { model_bench = delete model d.model_bench }, false, 0)
]

-- The window of a model after one more timeout.
unfoldable pub struck : Benches → ℕ → String → HtWindow
struck d now model = elim (lookup model d.ht_strikes) [
  | none ↦ record { count = 1; since = now }
  | some w ↦
      if (w.count == 0)
      then record { count = 1; since = now }
      else if ltb header_timeout_window (now - w.since)
      then record { count = 1; since = now }
      else record w { count = suc w.count }
]

unfoldable pub note_header_timeout : Benches → ℕ → String → Benches
unfolding struck bench_model
note_header_timeout d now model =
    let w = struck d now model in
    if leb header_timeout_strikes w.count
    then bench_model (record d { ht_strikes = delete model d.ht_strikes }) now model
        header_timeout_bench
    else record d { ht_strikes = insert model w d.ht_strikes }

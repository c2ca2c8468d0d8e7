-- ===== src/Bench/Verdicts.antt =====
-- What a bench of provider.go promises: it holds for its time, the map stays bounded, and a storm of
-- header timeouts benches.
use onegw.Prelude.{
  ℕ, ◌+◌, ◌-◌, max, ◌≤◌, ◌<◌, ◌≡◌, sym, subst, ◌∙◌, String, Bool, true, false, none, some, [], ◌∷◌,
  arith, length, str_eq, eq_iff, ltb, if◌then◌else◌,
}
use onegw.Prelude.Assoc.{Entries, lookup, insert, delete, str_eq_refl, length-delete, lookup-insert}
use onegw.Bench.{
  Benches, HtWindow, max_model_benches, header_timeout_window, header_timeout_bench, ttl_of, sweep,
  soonest, make_room, until, bench_model, model_benched, struck, note_header_timeout,
}

until-insert :
    (model other : String) (t : ℕ) (benches : Entries ℕ)
    → until (insert model t benches) other ≡ (if str_eq model other then t else until benches other)
unfolding until
until-insert model other t benches = ground (arith, lookup-insert model other t benches)

until-benched :
    (d : Benches) (n : ℕ) (model : String)
    → (model_benched d n model).1 ≡ ltb n (until d.model_bench model)
unfolding model_benched until
until-benched d n model = ground arith

-- The end of a bench in the map with its room.
bench_model-until :
    (d : Benches) (now : ℕ) (model other : String) (ttl : ℕ)
    → until (bench_model d now model ttl).model_bench other ≡ (
        if str_eq model other
        then max (until (make_room now d.model_bench) model) (now + ttl_of d ttl)
        else until (make_room now d.model_bench) other)
unfolding bench_model
bench_model-until d now model other ttl =
    let room = make_room now d.model_bench in
    let t = now + ttl_of d ttl in
    ground (arith, until-insert model other t room, eq_iff model other)

-- A benched model is skipped for the whole of its bench, also when the map was full.
bench_model-holds :
    (d : Benches) (now n : ℕ) (model : String) (ttl : ℕ)
    → n < now + ttl_of d ttl
    → (model_benched (bench_model d now model ttl) n model).1 ≡ true
bench_model-holds d now n model ttl h =
    until-benched (bench_model d now model ttl) n model
    ∙ ground (arith, h, bench_model-until d now model model ttl, str_eq_refl model)

make_room-spare :
    (now : ℕ) (benches : Entries ℕ)
    → length benches < max_model_benches
    → make_room now benches ≡ benches
unfolding make_room
make_room-spare now benches h = ground (arith, h)

-- While the map is not full, a bench never shortens one that stands, and it leaves other models as
-- they are: a model is benched afterwards just if it was, or if it is the one and its new bench lasts.
bench_model-extends :
    (d : Benches) (now n : ℕ) (model other : String) (ttl : ℕ)
    → length d.model_bench < max_model_benches
    → (model_benched (bench_model d now model ttl) n other).1 ≡ (
        if str_eq model other
        then ltb n (max (until d.model_bench model) (now + ttl_of d ttl))
        else (model_benched d n other).1)
bench_model-extends d now n model other ttl h =
    until-benched (bench_model d now model ttl) n other
    ∙ ground (
      arith,
      bench_model-until d now model other ttl,
      make_room-spare now d.model_bench h,
      until-benched d n other,
    )

-- Whether a map has a key.
unfoldable has : String → Entries ℕ → Bool
has k [] = false
has k (e ∷ m) = let rest = has k m in if str_eq e.0 k then true else rest

length-delete-has : (k : String) (m : Entries ℕ) → has k m ≡ true → length (delete k m) < length m
unfolding delete has
length-delete-has k [] h = ground (arith, h)
length-delete-has k (e ∷ m) h = ground (arith, h, length-delete-has k m, length-delete k m)

soonest-has : (best : String × ℕ) (m : Entries ℕ) → has (soonest best m).0 (best ∷ m) ≡ true
unfolding soonest has
soonest-has best [] = ground (arith, str_eq_refl best.0)
soonest-has best (e ∷ m) = ground (arith, soonest-has e m, soonest-has best m)

length-sweep : (now : ℕ) (m : Entries ℕ) → length (sweep now m) ≤ length m
unfolding sweep
length-sweep now [] = omega arith
length-sweep now (e ∷ m) = ground (arith, length-sweep now m)

evict-shorter : (m : Entries ℕ) → 0 < length m → length (delete (soonest ("", 0) m).0 m) < length m
unfolding soonest
evict-shorter [] h = absurd (omega arith)
evict-shorter (e ∷ m) h = length-delete-has (soonest e m).0 (e ∷ m) (soonest-has e m)

make_room-bounded :
    (now : ℕ) (m : Entries ℕ)
    → length m ≤ max_model_benches
    → length (make_room now m) < max_model_benches
unfolding make_room
make_room-bounded now m h = ground (arith, h, length-sweep now m, evict-shorter (sweep now m))

-- The map of benches never outgrows its cap.
bench_model-bounded :
    (d : Benches) (now : ℕ) (model : String) (ttl : ℕ)
    → length d.model_bench ≤ max_model_benches
    → length (bench_model d now model ttl).model_bench ≤ max_model_benches
unfolding bench_model insert
bench_model-bounded d now model ttl h =
    let room = make_room now d.model_bench in
    ground (arith, make_room-bounded now d.model_bench h, length-delete model room)

-- A window after a first timeout, and after one within the window.
note-first :
    (d : Benches) (t : ℕ) (model : String)
    → lookup model d.ht_strikes ≡ none
    → note_header_timeout d t model
      ≡ record d { ht_strikes = insert model (record { count = 1; since = t }) d.ht_strikes }
unfolding note_header_timeout struck
note-first d t model h = ground (arith, h)

note-second :
    (d : Benches) (t u : ℕ) (model : String)
    → lookup model d.ht_strikes ≡ some (record { count = 1; since = t })
    → u - t ≤ header_timeout_window
    → note_header_timeout d u model
      ≡ record d { ht_strikes = insert model (record { count = 2; since = t }) d.ht_strikes }
unfolding note_header_timeout struck
note-second d t u model h k = ground (arith, h, k)

note-third :
    (d : Benches) (t v : ℕ) (model : String)
    → lookup model d.ht_strikes ≡ some (record { count = 2; since = t })
    → v - t ≤ header_timeout_window
    → note_header_timeout d v model
      ≡ bench_model
          (record d { ht_strikes = delete model d.ht_strikes })
          v
          model
          header_timeout_bench
unfolding note_header_timeout struck
note-third d t v model h k = ground (arith, h, k)

seen :
    (model : String) (w : HtWindow) (m : Entries HtWindow)
    → lookup model (insert model w m) ≡ some w
seen model w m = ground (arith, lookup-insert model model w m, str_eq_refl model)

-- Three header timeouts of a model that has no window, the second and the third within the window of
-- the first, bench the model from the third on for the time of a storm.
pub header_timeouts-bench :
    (d : Benches) (model : String) (t u v n : ℕ)
    → lookup model d.ht_strikes ≡ none
    → u - t ≤ header_timeout_window
    → v - t ≤ header_timeout_window
    → n < v + header_timeout_bench
    → (model_benched
        (note_header_timeout (note_header_timeout (note_header_timeout d t model) u model) v model)
        n
        model).1
      ≡ true
unfolding ttl_of
header_timeouts-bench d model t u v n h k l b =
    let w1 : HtWindow = record { count = 1; since = t } in
    let w2 : HtWindow = record { count = 2; since = t } in
    let d1 : Benches = record d { ht_strikes = insert model w1 d.ht_strikes } in
    let d2 : Benches = record d { ht_strikes = insert model w2 d1.ht_strikes } in
    let e1 = note-first d t model h in
    let e2 = note-second d1 t u model (seen model w1 d.ht_strikes) k in
    let e3 = note-third d2 t v model (seen model w2 d1.ht_strikes) l in
    subst
      (λ x.
        (model_benched (note_header_timeout (note_header_timeout x u model) v model) n model).1
        ≡ true)
      (sym e1)
      (subst (λ x. (model_benched (note_header_timeout x v model) n model).1 ≡ true) (sym e2)
        (subst (λ x. (model_benched x n model).1 ≡ true) (sym e3)
          (bench_model-holds (record d { ht_strikes = delete model d2.ht_strikes }) v n model
            header_timeout_bench b)))

-- ===== src/Tests/Judging.antt =====
-- A combo of three targets and an evaluator's verdicts on it.
use onegw.Prelude.{
  ℕ, ◌≡◌, ◌≤◌, refl, String, false, Option, none, some, List, [], ◌∷◌, get_elem?, str_eq,
  if◌then◌else◌,
}
use onegw.Prelude.Assoc.{Entries, lookup}
use onegw.Prelude.Text.{Unicode, to_lower, map_runes}
use onegw.Policy.{Target}
use onegw.Evaluator.{
  EvalResponse, score_power, distance, closest, swap_front, chosen, trim_space, trim_left,
  trim_right, apply_verdict, any_keyless, evaluator_leg,
}
use onegw.Evaluator.Closest.{apply_verdict-closest}

abbrev plain : Unicode
plain = record { lower = λ c. c; fold = λ c. c }

abbrev small : Target
small = record { provider = "a"; model = "small" }

abbrev great : Target
great = record { provider = "b"; model = "great" }

abbrev unknown : Target
unknown = record { provider = "c"; model = "unknown" }

abbrev powers : Target → Option ℕ
powers t =
    if str_eq t.model "small" then some 40 else if str_eq t.model "great" then some 120 else none

abbrev combo : List Target
combo = unknown ∷ small ∷ great ∷ []

abbrev critical : EvalResponse
critical = record { score = some 4; choice = none; noul = false }

abbrev wish : EvalResponse
wish = record { score = none; choice = some " small "; noul = false }

critical_promoted : apply_verdict plain powers critical combo ≡ great ∷ small ∷ unknown ∷ []
unfolding apply_verdict closest swap_front
critical_promoted = refl

wish_granted : apply_verdict plain powers wish combo ≡ small ∷ unknown ∷ great ∷ []
unfolding apply_verdict chosen swap_front trim_space trim_left trim_right to_lower map_runes
wish_granted = refl

abbrev keys : Entries (List String)
keys = ("a", "k" ∷ []) ∷ ("c", "" ∷ []) ∷ []

keyless_asked : evaluator_leg keys combo ≡ some unknown
unfolding evaluator_leg any_keyless lookup
keyless_asked = refl

apply_verdict-closest_example :
    (first : Target) × (q : ℕ) × (get_elem? (apply_verdict plain powers critical combo) 0
      ≡ some first)
    × (powers first ≡ some q)
    × (distance q (score_power 4) ≤ distance 40 (score_power 4))
apply_verdict-closest_example =
    apply_verdict-closest plain powers critical 4 combo 1 40 small refl refl refl

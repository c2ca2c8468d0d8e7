-- ===== src/Task/Order.antt =====
-- The order that task.go gives a combo's targets.
use mathlib.Core.List.{Perm}
use mathlib.Core.List.Perm
use onegw.Prelude.{
  ◌≤◌, ◌≡◌, refl, ◌⊎◌, inl, inr, Bool, true, false, ◌||◌, not, Option, none, some, List, [], ◌∷◌,
  map, length, All, arith, leb, if◌then◌else◌, Bool-cases, ap, subst,
}
use onegw.Policy.{Target}
use onegw.Task.{
  TierMeta, TaskSignals, Task, Scored, score_target, sort_scored, reorder_by_task, classify,
  apply_task_routing,
}
use onegw.Task.Score.{is_blind, may_see, score_blind}
use onegw.Task.Sort.{
  NotAbove, Descending, sort_scored-perm, sort_scored-Descending, All-sort_scored,
}

abbrev scored_targets : (Target → TierMeta) → Task → List Target → List Scored
scored_targets meta t targets =
    map (λ a. record { target = a; score = score_target (meta a) t }) targets

targets-scored :
    (meta : Target → TierMeta) (t : Task) (targets : List Target)
    → map (λ (x : Scored). x.target) (scored_targets meta t targets) ≡ targets
targets-scored meta t [] = refl
targets-scored meta t (a ∷ rest) = ap (◌∷◌ a) (targets-scored meta t rest)

-- No target is added or lost.
pub reorder-perm :
    (meta : Target → TierMeta) (t : Task) (targets : List Target)
    → Perm (reorder_by_task meta t targets) targets
unfolding reorder_by_task
reorder-perm meta t targets =
    subst (Perm (map (λ (x : Scored). x.target) (sort_scored (scored_targets meta t targets))))
      (targets-scored meta t targets)
      (Perm.map (λ (x : Scored). x.target) (sort_scored-perm (scored_targets meta t targets)))

-- After a blind target stands none that may see.
abbrev pub SeeingFirst : (Target → TierMeta) → List Target → Type 0
SeeingFirst meta [] = Unit {0}
SeeingFirst meta (a ∷ rest) =
    ((is_blind (meta a) ≡ false) ⊎ All (λ b. may_see (meta b) ≡ false) rest) × SeeingFirst meta rest

module _ (meta : Target → TierMeta) (t : Task) (image : t.has_image ≡ true) where
  -- An element with its own score, at a power that the scores allow for.
  abbrev Fits : Scored → Type 0
  Fits x = (x.score ≡ score_target (meta x.target) t) × ((meta x.target).power ≤ 150)

  scored-Fits :
      (targets : List Target)
      → All (λ a. (meta a).power ≤ 150) targets
      → All Fits (scored_targets meta t targets)
  scored-Fits [] h = tt
  scored-Fits (a ∷ rest) h = ((refl, h.0), scored-Fits rest h.1)

  none_above :
      (x : Scored) (xs : List Scored)
      → Fits x
      → All Fits xs
      → All (NotAbove x) xs
      → is_blind (meta x.target) ≡ true
      → All (λ b. may_see (meta b) ≡ false) (map (λ (y : Scored). y.target) xs)
  none_above x [] f fs d b = tt
  none_above x (y ∷ ys) f fs d b = (
    elim (Bool-cases (may_see (meta y.target))) [
      | inl s ↦ absurd (
          ground (
            arith,
            score_blind (meta x.target) (meta y.target) t image b s fs.0.1,
            f.0,
            fs.0.0,
            d.0,
          ))
      | inr s ↦ s
    ],
    none_above x ys f fs.1 d.1 b,
  )

  Descending-SeeingFirst :
      (xs : List Scored)
      → All Fits xs
      → Descending xs
      → SeeingFirst meta (map (λ (y : Scored). y.target) xs)
  Descending-SeeingFirst [] fs d = tt
  Descending-SeeingFirst (x ∷ xs) fs d = (
    elim (Bool-cases (is_blind (meta x.target))) [
      | inl b ↦ inr (none_above x xs fs.0 fs.1 d.0 b)
      | inr b ↦ inl b
    ],
    Descending-SeeingFirst xs fs.1 d.1,
  )

  -- With an image in the request, every target that sees, or of which nothing is declared, is tried
  -- before every declared target that does not see.
  pub reorder-SeeingFirst :
      (targets : List Target)
      → All (λ a. (meta a).power ≤ 150) targets
      → SeeingFirst meta (reorder_by_task meta t targets)
  unfolding reorder_by_task
  reorder-SeeingFirst targets h =
      let xs = scored_targets meta t targets in
      Descending-SeeingFirst (sort_scored xs) (All-sort_scored Fits xs (scored-Fits targets h))
        (sort_scored-Descending xs)

same_branches : (b : Bool) (x : List Target) → (if b then x else x) ≡ x
same_branches b x = ground arith

-- Whatever the request, the full fallback chain remains.
apply_task_routing-perm :
    (meta : Target → TierMeta) (on is_combo : Bool) (sig : Option TaskSignals)
    (targets : List Target)
    → Perm (apply_task_routing meta on is_combo sig targets) targets
unfolding apply_task_routing
apply_task_routing-perm meta on is_combo none targets = rw same_branches (Perm.refl targets)
apply_task_routing-perm meta on is_combo (some s) targets =
    elim (Bool-cases (not on || not is_combo || leb (length targets) 1)) [
      | inl off ↦ rw off (Perm.refl targets)
      | inr go ↦ rw go (reorder-perm meta (classify s) targets)
    ]

-- Routing that is off, a route that is no combo, and a request without signals keep the order.
pub apply_task_routing_off :
    (meta : Target → TierMeta) (on is_combo : Bool) (sig : Option TaskSignals)
    (targets : List Target)
    → (on ≡ false) ⊎ (is_combo ≡ false) ⊎ (sig ≡ none)
    → apply_task_routing meta on is_combo sig targets ≡ targets
unfolding apply_task_routing
apply_task_routing_off meta on is_combo sig targets off = ground arith

-- ===== src/Evaluator/Closest.antt =====
-- What a verdict of router.go does to the order of the targets.
use mathlib.Core.List.{Perm}
use mathlib.Core.List.Perm
use onegw.Prelude.{
  ℕ, zero, suc, ◌+◌, ◌≤◌, ◌≡◌, ◌⊎◌, refl, sym, ◌∙◌, ap, subst, String, true, false, Option, none,
  some, List, [], ◌∷◌, All, arith, get_elem?, ◌==◌, if_both, Bool-cases, Option-cases, inl, inr,
}
use onegw.Prelude.Assoc.{Entries}
use onegw.Prelude.Text.{Unicode, to_lower}
use onegw.Policy.{Target}
use onegw.Evaluator.{
  EvalResponse, score_power, distance, closer, closest, put, swap_front, chosen, trim_space,
  apply_verdict, evaluator_leg, apply_eval,
}

put-perm :
    {A : Type 0} (xs : List A) (i : ℕ) (x y : A)
    → get_elem? xs i ≡ some y
    → Perm (y ∷ put xs i x) (x ∷ xs)
put-perm [] i x y h = absurd (ground (arith, h))
put-perm (z ∷ zs) zero x y h =
    subst (λ w. Perm (y ∷ x ∷ zs) (x ∷ w ∷ zs)) (ground (arith, h)) (Perm.swap x y zs)
put-perm (z ∷ zs) (suc i) x y h =
    Perm.trans (Perm.swap z y (put zs i x))
      (Perm.trans (Perm.cons z (put-perm zs i x y h)) (Perm.swap x z zs))

swap_front-perm : {A : Type 0} (i : ℕ) (xs : List A) → Perm (swap_front i xs) xs
unfolding swap_front
swap_front-perm i [] = Perm.refl []
swap_front-perm zero (x ∷ xs) = Perm.refl (x ∷ xs)
swap_front-perm (suc i) (x ∷ xs) = elim (Option-cases (get_elem? xs i)) [
  | inl e ↦ rw (swap_front, e) (Perm.refl (x ∷ xs))
  | inr (y, e) ↦ rw (swap_front, e) (put-perm xs i x y e)
]

swap_front-first :
    {A : Type 0} (i : ℕ) (xs : List A) (y : A)
    → get_elem? xs i ≡ some y
    → get_elem? (swap_front i xs) 0 ≡ some y
unfolding swap_front
swap_front-first i [] y h = h
swap_front-first zero (x ∷ xs) y h = h
swap_front-first (suc i) (x ∷ xs) y h =
    let at : get_elem? xs i ≡ some y = h in rw (swap_front, at) refl

-- A statement that holds of both branches on an option.
option_both :
    {A B : Type 0} (P : B → Type 0) (o : Option A) (x : B) (f : A → B)
    → P x
    → ((a : A) → P (f a))
    → P (elim o [ none ↦ x | some a ↦ f a ])
option_both P none x f px pf = px
option_both P (some a) x f px pf = pf a

apply_verdict-perm :
    (u : Unicode) (power : Target → Option ℕ) (v : EvalResponse) (targets : List Target)
    → Perm (apply_verdict u power v targets) targets
unfolding apply_verdict
apply_verdict-perm u power v targets =
    elim v.score
      as (λ o.
        Perm
          (elim o [
            | some level ↦
                swap_front ((closest power (score_power level) 0 0 none targets).0) targets
            | none ↦ elim v.choice [
              | some opt ↦ elim (chosen u (to_lower u (trim_space opt)) targets) [
                | some i ↦ swap_front i targets
                | none ↦ targets
              ]
              | none ↦ targets
            ]
          ])
          targets) [
            | some level ↦
                swap_front-perm ((closest power (score_power level) 0 0 none targets).0) targets
            | none ↦
                option_both (λ ts. Perm ts targets) v.choice _ _ (Perm.refl targets)
                  (λ opt.
                    option_both (λ ts. Perm ts targets)
                      (chosen u (to_lower u (trim_space opt)) targets) _ _ (Perm.refl targets)
                      (λ i. swap_front-perm i targets))
          ]

-- A verdict orders the targets anew and drops none; so does the evaluation of a combo, whatever the
-- evaluator answers.
apply_eval-perm :
    (u : Unicode) (power : Target → Option ℕ) (keys : Entries (List String))
    (ask : Target → Option EvalResponse) (questions : Option ℕ) (targets : List Target)
    → Perm (apply_eval u power keys ask questions targets) targets
unfolding apply_eval
apply_eval-perm u power keys ask none targets = Perm.refl targets
apply_eval-perm u power keys ask (some n) targets =
    let Same : List Target → Type 0 = λ ts. Perm ts targets in
    if_both Same (n == 0) _ _ (Perm.refl targets) (
      option_both Same (evaluator_leg keys targets) _ _ (Perm.refl targets) (λ leg.
        option_both Same (ask leg) _ _ (Perm.refl targets)
          (λ v. apply_verdict-perm u power v targets)))

beyond :
    (k d : ℕ) (bd : Option ℕ) → closer d bd ≡ true → closer k bd ≡ false → closer k (some d) ≡ false
beyond k d none c h = absurd (ground (arith, h))
beyond k d (some b) c h = ground (arith, c, h)

module _ (power : Target → Option ℕ) (tp : ℕ) where
  -- A target that is no closer than a distance.
  abbrev Farther : Option ℕ → Target → Type 0
  Farther bd t = (p : ℕ) → power t ≡ some p → closer (distance p tp) bd ≡ false

  Result : ℕ → ℕ → Option ℕ → List Target → ℕ × Option ℕ → Type 0
  Result i best bd ts (r, d) =
      All (Farther d) ts
      × ((k : ℕ) → closer k bd ≡ false → closer k d ≡ false)
      × (((r ≡ best) × (d ≡ bd))
          ⊎ ((j : ℕ) × (t : Target) × (p : ℕ) × (r ≡ i + j)
              × (get_elem? ts j ≡ some t)
              × (power t ≡ some p)
              × (d ≡ some (distance p tp))))

  skipped :
      (i best : ℕ) (bd : Option ℕ) (t : Target) (ts : List Target) (r : ℕ × Option ℕ)
      → Farther (r.1) t
      → Result (suc i) best bd ts r
      → Result i best bd (t ∷ ts) r
  unfolding Result
  skipped i best bd t ts r f (a, m, inl same) = ((f, a), m, inl same)
  skipped i best bd t ts r f (a, m, inr (j, x, p, e, at, pw, d)) =
      ((f, a), m, inr (suc j, x, p, omega (arith, e), at, pw, d))

  taken :
      (i best p : ℕ) (bd : Option ℕ) (t : Target) (ts : List Target) (r : ℕ × Option ℕ)
      → power t ≡ some p
      → closer (distance p tp) bd ≡ true
      → Result (suc i) i (some (distance p tp)) ts r
      → Result i best bd (t ∷ ts) r
  unfolding Result
  taken i best p bd t ts r e c (a, m, last) =
      let head : Farther (r.1) t = λ q h.
        subst (λ k. closer (distance k tp) (r.1) ≡ false) (ground (arith, e, h))
          (m (distance p tp) (ground arith)) in
      let less : (k : ℕ) → closer k bd ≡ false → closer k (r.1) ≡ false =
        λ k h. m k (beyond k (distance p tp) bd c h) in
      (
        (head, a),
        less,
        inr (elim last [
          | inl (x, d) ↦ (0, t, p, omega (arith, x), refl, e, d)
          | inr (j, x, q, f, at, pw, d) ↦ (suc j, x, q, omega (arith, f), at, pw, d)
        ]),
      )

  closest-Result :
      (i best : ℕ) (bd : Option ℕ) (ts : List Target)
      → Result i best bd ts (closest power tp i best bd ts)
  unfolding closest Result
  closest-Result i best bd [] = (tt, λ k h. h, inl (refl, refl))
  closest-Result i best bd (t ∷ ts) = elim (Option-cases (power t)) [
    | inl e ↦
        let step : closest power tp i best bd (t ∷ ts) ≡ closest power tp (suc i) best bd ts =
          rw (closest, e) refl in
        subst (Result i best bd (t ∷ ts)) (sym step) (
          skipped i best bd t ts _ (λ p h. absurd (ground (arith, e, h)))
            (closest-Result (suc i) best bd ts))
    | inr (p, e) ↦ elim (Bool-cases (closer (distance p tp) bd)) [
      | inl c ↦
          let step : closest power tp i best bd (t ∷ ts)
              ≡ closest power tp (suc i) i (some (distance p tp)) ts =
            rw (closest, e, c) refl in
          subst (Result i best bd (t ∷ ts)) (sym step)
            (taken i best p bd t ts _ e c (closest-Result (suc i) i (some (distance p tp)) ts))
      | inr c ↦
          let rest = closest-Result (suc i) best bd ts in
          let step : closest power tp i best bd (t ∷ ts) ≡ closest power tp (suc i) best bd ts =
            rw (closest, e, c) refl in
          let head : Farther ((closest power tp (suc i) best bd ts).1) t = λ q h.
            subst (λ k. closer (distance k tp) ((closest power tp (suc i) best bd ts).1) ≡ false)
              (ground (arith, e, h)) (rest.1 (distance p tp) c) in
          subst (Result i best bd (t ∷ ts)) (sym step) (skipped i best bd t ts _ head rest)
    ]
  ]

All-get :
    (P : Target → Type 0) (ts : List Target) (j : ℕ) (t : Target)
    → All P ts
    → get_elem? ts j ≡ some t
    → P t
All-get P [] j t a h = absurd (ground (arith, h))
All-get P (x ∷ xs) zero t (p, a) h = subst P (ground (arith, h)) p
All-get P (x ∷ xs) (suc j) t (p, a) h = All-get P xs j t a h

verdict-score :
    (u : Unicode) (power : Target → Option ℕ) (v : EvalResponse) (level : ℕ) (targets : List Target)
    → v.score ≡ some level
    → apply_verdict u power v targets
      ≡ swap_front ((closest power (score_power level) 0 0 none targets).0) targets
unfolding apply_verdict
verdict-score u power v level targets h = rw (apply_verdict, h) refl

-- After a score, whose level stands for a power, the first target has a declared power, if any has, and no
-- target's power is closer to that of the level.
pub apply_verdict-closest :
    (u : Unicode) (power : Target → Option ℕ) (v : EvalResponse) (level : ℕ) (targets : List Target)
    (j p : ℕ) (t : Target)
    → v.score ≡ some level
    → get_elem? targets j ≡ some t
    → power t ≡ some p
    → (first : Target) × (q : ℕ) × (get_elem? (apply_verdict u power v targets) 0 ≡ some first)
      × (power first ≡ some q)
      × (distance q (score_power level) ≤ distance p (score_power level))
unfolding Result
apply_verdict-closest u power v level targets j p t h at e =
    let tp = score_power level in
    let (all, mono, last) = closest-Result power tp 0 0 none targets in
    let d = (closest power tp 0 0 none targets).1 in
    let far : closer (distance p tp) d ≡ false =
      All-get (Farther power tp d) targets j t all at p e in
    elim last [
      | inl (x, nothing) ↦ absurd (ground (arith, far, nothing))
      | inr (k, first, q, place, found, pw, least) ↦
          let plus_zero : 0 + k ≡ k = omega arith in
          (
            first,
            q,
            ap (λ ts. get_elem? ts 0) (verdict-score u power v level targets h)
                ∙ swap_front-first _ targets first
                    (ap (get_elem? targets) (place ∙ plus_zero) ∙ found),
            pw,
            ground (arith, far, least),
          )
    ]

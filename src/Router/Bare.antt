-- ===== src/Router/Bare.antt =====
-- Who serves a bare model in `Resolve` of router.go: only an enabled provider, and none at all only if
-- no enabled provider may.
use onegw.Prelude.{
  ◌≡◌, sym, ◌∙◌, inl, inr, String, Bool, true, false, not, ◌&&◌, none, some, List, [], ◌∷◌, arith,
  str_eq, eq_iff, Bool-cases, Option-cases, ap,
}
use onegw.Prelude.Assoc.{lookup}
use onegw.Prelude.Text.{Unicode, to_lower}
use onegw.Policy.Allowlist.{Any}
use onegw.Router.{
  Router, Def, Pool, Resolution, found, model_not_found, direct, enabled, is_empty, find_first,
  bare_retry_forever, resolve_bare,
}

-- The provider stands in the pool and is not disabled.
abbrev pub EnabledIn : Pool → String → Type 0
EnabledIn pool p = Any (λ (e : String × Def). (e.0 ≡ p) × (e.1.disabled ≡ false)) pool

find_first-passes {ℓ} :
    {A : Type ℓ} (p : A → Bool) (xs : List A) (x : A) → find_first p xs ≡ some x → p x ≡ true
unfolding find_first
find_first-passes p [] x h = cc
find_first-passes p (y ∷ ys) x h = elim (Bool-cases (p y)) [
  | inl t ↦ let same : y ≡ x = ground arith in ap p (sym same) ∙ t
  | inr f ↦ find_first-passes p ys x (rw f at h)
]

first-EnabledIn :
    (test : String × Def → Bool) (pool : Pool) (e : String × Def)
    → find_first (λ (x : String × Def). not x.1.disabled && test x) pool ≡ some e
    → EnabledIn pool e.0
unfolding find_first
first-EnabledIn test [] e h = cc
first-EnabledIn test (x ∷ xs) e h = elim (Bool-cases (not x.1.disabled && test x)) [
  | inl t ↦ let same : x ≡ e = ground arith in inl (ap (λ y. y.0) same, ground arith)
  | inr f ↦ inr (first-EnabledIn test xs e (rw f at h))
]

enabled-EnabledIn : (pool : Pool) (p : String) → enabled pool p ≡ true → EnabledIn pool p
unfolding lookup
enabled-EnabledIn [] p h = cc
enabled-EnabledIn ((k, d) ∷ pool) p h = elim (Bool-cases (str_eq k p)) [
  | inl t ↦ inl ((eq_iff k p).0 t, ground arith)
  | inr f ↦ inr (enabled-EnabledIn pool p (ground arith))
]

module _ (u : Unicode) (glob : String → String → Bool) (r : Router) (model : String) where
  -- A bare model is served, on its own name, by an enabled provider.
  pub bare-EnabledIn :
      (res : Resolution)
      → resolve_bare u glob r model ≡ found res
      → (p : String) × (found res ≡ direct p model) × EnabledIn r.pool p
  unfolding resolve_bare
  bare-EnabledIn res h =
      let names = elim (lookup (to_lower u model) r.bare) as (λ _. List String) [
        | none ↦ []
        | some ns ↦ ns
      ] in
      let claims = λ (e : String × Def). not e.1.disabled && bare_retry_forever u glob e.1 model in
      let open_to_all = λ (e : String × Def). not e.1.disabled && is_empty e.1.models in
      elim (Option-cases (find_first claims r.pool)) [
        | inr (e, p) ↦ (
          e.0,
          sym h ∙ rw (p, resolve_bare),
          first-EnabledIn (λ x. bare_retry_forever u glob x.1 model) r.pool e p,
        )
        | inl p ↦ elim (Option-cases (find_first (enabled r.pool) names)) [
          | inr (name, q) ↦ (
            name,
            sym h ∙ rw (p, resolve_bare, q),
            enabled-EnabledIn r.pool name (find_first-passes (enabled r.pool) names name q),
          )
          | inl q ↦ elim (Option-cases (find_first open_to_all r.pool)) [
            | inr (e, o) ↦ (
              e.0,
              sym h ∙ rw (p, resolve_bare, q, o),
              first-EnabledIn (λ x. is_empty x.1.models) r.pool e o,
            )
            | inl o ↦
                let e : resolve_bare u glob r model ≡ model_not_found model =
                  rw (p, resolve_bare, q, o) in
                cc (e, h)
          ]
        ]
      ]

-- ===== src/Router/Known.antt =====
-- `KnownModel` of router.go against `Resolve`.
use onegw.Prelude.{
  ◌≡◌, refl, sym, ◌∙◌, ◌⊎◌, inl, inr, String, Bool, true, not, ◌||◌, ◌&&◌, some, List, [], ◌∷◌,
  str_eq, Bool-cases, Option-cases,
}
use onegw.Prelude.Assoc.{lookup}
use onegw.Prelude.Text.{Unicode, to_lower, cut_slash}
use onegw.Router.{
  Router, Def, Resolution, found, missing_model, unknown_provider, model_not_found, is_some,
  is_empty, find_first, any, bare_retry_forever, canonical, resolve_bare, resolve, known_model,
}

pub find_first-any {ℓ} :
    {A : Type ℓ} (p : A → Bool) (xs : List A) (x : A) → find_first p xs ≡ some x → any p xs ≡ true
unfolding find_first any
find_first-any p [] x h = cc
find_first-any p (y ∷ ys) x h = elim (Bool-cases (p y)) [
  | inl t ↦ rw t
  | inr f ↦ rw f (find_first-any p ys x (rw f at h))
]

-- An enabled provider claims the bare model by its retry_forever list.
abbrev pub Claimed : Unicode → (String → String → Bool) → Router → String → Type 0
Claimed u glob r name =
    (e : String × Def) × (find_first
        (λ (x : String × Def). not x.1.disabled && bare_retry_forever u glob x.1 name) r.pool
      ≡ some e)

module _ (u : Unicode) (glob : String → String → Bool) (r : Router) where
  bare-known :
      (name : String) (res : Resolution)
      → resolve_bare u glob r name ≡ found res
      → Claimed u glob r name
        ⊎ ((is_some (lookup (to_lower u name) r.bare)
              || any (λ (e : String × Def). not e.1.disabled && is_empty e.1.models) r.pool)
            ≡ true)
  unfolding resolve_bare
  bare-known name res h =
      let claims = λ (e : String × Def). not e.1.disabled && bare_retry_forever u glob e.1 name in
      let open_to_all = λ (e : String × Def). not e.1.disabled && is_empty e.1.models in
      elim (Option-cases (find_first claims r.pool)) [
        | inr (e, p) ↦ inl (e, p)
        | inl p ↦ elim (Option-cases (lookup (to_lower u name) r.bare)) [
          | inr (names, q) ↦ inr (rw q refl)
          | inl q ↦ elim (Option-cases (find_first open_to_all r.pool)) [
            | inr (e, o) ↦ inr (rw (q, find_first-any open_to_all r.pool e o) refl)
            | inl o ↦
                let e : resolve_bare u glob r name ≡ model_not_found name =
                  rw (p, resolve_bare, q, o) in
                cc (e, h)
          ]
        ]
      ]

  -- What `Resolve` finds is known, but for a bare model that a retry_forever list alone claims.
  pub resolve-known :
      (model : String) (res : Resolution)
      → resolve u glob r model ≡ found res
      → ((known_model u glob r model) ≡ true) ⊎ Claimed u glob r (canonical u glob r model)
  unfolding resolve known_model
  resolve-known model res h =
      let name = canonical u glob r model in
      elim (Bool-cases (str_eq model "")) [
        | inl z ↦ let e : resolve u glob r model ≡ missing_model = rw (resolve, z) in cc (e, h)
        | inr z ↦ elim (Option-cases (lookup (to_lower u name) r.combos)) [
          | inr (c, p) ↦ inl (rw (z, p))
          | inl p ↦ elim (Option-cases (lookup (to_lower u name) r.models)) [
            | inr (t, q) ↦ inl (rw (z, p, q))
            | inl q ↦ elim (Option-cases (cut_slash name)) [
              | inr (pm, k) ↦ elim (Bool-cases (is_some (lookup pm.0 r.pool))) [
                | inl there ↦ inl (rw (known_model, z, p, q, k, there))
                | inr gone ↦
                    let e : resolve u glob r model ≡ unknown_provider pm.0 =
                      rw (resolve, z, p, q, k, gone) in
                    cc (e, h)
              ]
              | inl k ↦
                  let e : resolve u glob r model ≡ resolve_bare u glob r name =
                    rw (resolve, z, p, q, k) in
                  elim (bare-known name res (sym e ∙ h)) [
                    | inl c ↦ inr c
                    | inr t ↦ inl (rw (known_model, z, p, q, k) t)
                  ]
            ]
          ]
        ]
      ]

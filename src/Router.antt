-- ===== src/Router.antt =====
-- internal/router/router.go: what a client's model string resolves to, with the pool of
-- internal/provider/provider.go as far as the router reads it. The pool is a list of providers in
-- configuration order; the tables are maps from lower-case names.
pub mod Tables
pub mod Bare
pub mod Known
pub mod RoundRobin
use Prim.Native.String.{◌++◌}
use onegw.Prelude.{
  ℕ, zero, suc, String, Bool, true, false, not, ◌||◌, ◌&&◌, Option, none, some, List, [], ◌∷◌, map,
  str_eq, if◌then◌else◌,
}
use onegw.Prelude.Assoc.{lookup, insert}
use onegw.Prelude.Text.{Unicode, to_lower, equal_fold, cut_slash}
use onegw.Policy.{Target}

-- The fields of provider.Def that routing reads; `system_one` is `Kind == KindSystemOne`.
pub record Def : Type 0 where
  pub name : String
  pub disabled : Bool
  pub system_one : Bool
  pub models : List String
  pub retry_forever : List String

abbrev pub Pool : Type 0
Pool = List (String × Def)

pub data Strategy : Type 0 where
  ordered fastest size_aware round_robin : Strategy

pub record Combo : Type 0 where
  pub name : String
  pub targets : List Target
  pub strategy : Strategy
  pub round_robin_limit : ℕ

pub record Router : Type 0 where
  pub pool : Pool
  pub models : List (String × Target)
  pub bare : List (String × List String)
  pub combos : List (String × Combo)
  pub aliases : List (String × String)

pub record Resolution : Type 0 where
  pub targets : List Target
  pub is_combo : Bool
  pub model : String
  pub strategy : Strategy
  pub combo : String

pub data Resolved : Type 0 where
  found : Resolution → Resolved
  missing_model : Resolved
  unknown_provider : String → Resolved
  model_not_found : String → Resolved

abbrev pub target : String → String → Target
target p m = record { provider = p; model = m }

abbrev pub direct : String → String → Resolved
direct p m = found (record {
  targets = target p m ∷ [];
  is_combo = false;
  model = "";
  strategy = ordered;
  combo = "";
})

abbrev pub max_alias_hops : ℕ
max_alias_hops = 8

abbrev pub is_some {ℓ} : {A : Type ℓ} → Option A → Bool
is_some none = false
is_some (some a) = true

abbrev pub is_empty {ℓ} : {A : Type ℓ} → List A → Bool
is_empty [] = true
is_empty (x ∷ xs) = false

-- The first element of a list that passes a test.
unfoldable pub find_first {ℓ} : {A : Type ℓ} → (A → Bool) → List A → Option A
find_first p [] = none
find_first p (x ∷ xs) = if p x then some x else find_first p xs

unfoldable pub any {ℓ} : {A : Type ℓ} → (A → Bool) → List A → Bool
any p [] = false
any p (x ∷ xs) = p x || any p xs

-- The catalog of a systemone provider with no `models` (DefaultModels).
abbrev pub default_models : List String
default_models = "jev-latest" ∷ "jev-preview" ∷ []

-- An enabled provider of a name.
abbrev pub enabled : Pool → String → Bool
enabled pool name = elim (lookup name pool) [ none ↦ false | some d ↦ not d.disabled ]

module _ (u : Unicode) (glob : String → String → Bool) where
  -- `RetryForeverModel`, where `glob pattern model` is path.Match.
  unfoldable pub retry_forever_model : Def → String → Bool
  unfolding any
  retry_forever_model d model = d.system_one || any (λ pat. glob pat model) d.retry_forever

  unfoldable pub bare_retry_forever : Def → String → Bool
  unfolding any
  bare_retry_forever d model =
      if not d.system_one
      then retry_forever_model d model
      else any (λ m. equal_fold u m model) (if is_empty d.models then default_models else d.models)
        || any (λ pat. glob pat model) d.retry_forever

  -- The loop over aliases: none if the hops are used up.
  unfoldable pub follow : ℕ → List (String × String) → String → Option String
  follow zero aliases model = none
  follow (suc hops) aliases model = elim (lookup (to_lower u model) aliases) [
    | none ↦ some model
    | some next ↦ follow hops aliases next
  ]

  -- What the model string stands for: itself if it names a combo or its aliases have no end.
  unfoldable pub canonical : Router → String → String
  unfolding follow
  canonical r model = elim (lookup (to_lower u model) r.combos) [
    | some c ↦ model
    | none ↦ elim (follow max_alias_hops r.aliases model) [ none ↦ model | some m ↦ m ]
  ]

  -- The three loops over providers for a bare model.
  unfoldable pub resolve_bare : Router → String → Resolved
  unfolding find_first
  resolve_bare r model =
      let claims = λ (e : String × Def). not e.1.disabled && bare_retry_forever e.1 model in
      let open_to_all = λ (e : String × Def). not e.1.disabled && is_empty e.1.models in
      elim (find_first claims r.pool) [
        | some e ↦ direct e.0 model
        | none ↦
            elim (find_first (enabled r.pool)
              (elim (lookup (to_lower u model) r.bare) [ none ↦ [] | some names ↦ names ])) [
                | some name ↦ direct name model
                | none ↦ elim (find_first open_to_all r.pool) [
                  | some e ↦ direct e.0 model
                  | none ↦ model_not_found model
                ]
              ]
      ]

  unfoldable pub resolve : Router → String → Resolved
  resolve r model =
      let name = canonical r model in
      if str_eq model "" then missing_model else (elim (lookup (to_lower u name) r.combos) [
        | some c ↦ found (record {
          targets = c.targets;
          is_combo = true;
          model = name;
          strategy = c.strategy;
          combo = c.name;
        })
        | none ↦ elim (lookup (to_lower u name) r.models) [
          | some t ↦ direct t.provider t.model
          | none ↦ elim (cut_slash name) [
            | some (prov, mdl) ↦
                if is_some (lookup prov r.pool) then direct prov mdl else unknown_provider prov
            | none ↦ resolve_bare r name
          ]
        ]
      ])

  unfoldable pub known_model : Router → String → Bool
  unfolding any
  known_model r model =
      let name = canonical r model in
      if str_eq model ""
      then false
      else is_some (lookup (to_lower u name) r.combos)
        || is_some (lookup (to_lower u name) r.models)
        || (elim (cut_slash name) [
          | some (prov, mdl) ↦
              is_some (lookup prov r.pool)
              || any (λ (e : String × Target). equal_fold u e.1.model name) r.models
          | none ↦
              is_some (lookup (to_lower u name) r.bare)
              || any (λ (e : String × Def). not e.1.disabled && is_empty e.1.models) r.pool
        ])

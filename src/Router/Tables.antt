-- ===== src/Router/Tables.antt =====
-- The tables that router.go builds from configuration: `SetModels`, `SetAliases`, `SetCombos`.
use onegw.Prelude.{
  ◌≡◌, ◌⊎◌, inl, inr, refl, sym, ◌∙◌, ap, subst, String, Bool, true, false, ◌||◌, none, some, List,
  [], ◌∷◌, ◌++◌, arith, str_eq, eq_iff, if◌then◌else◌, Bool-cases, Option-cases,
}
use onegw.Prelude.Assoc.{Entries, lookup, insert, lookup-insert}
use onegw.Prelude.Text.{Unicode, to_lower, cut_slash}
use onegw.Policy.{Target}
use onegw.Policy.Allowlist.{Any}
use onegw.Router.{Router, Combo, target, is_some}

abbrev pub names_of : List (String × List String) → String → List String
names_of bare key = elim (lookup key bare) [ none ↦ [] | some ns ↦ ns ]

unfoldable pub ends_with : List String → String → Bool
ends_with [] s = false
ends_with (x ∷ []) s = str_eq x s
ends_with (x ∷ y ∷ xs) s = ends_with (y ∷ xs) s

module _ (u : Unicode) where
  -- One round of `SetModels`: the route tables with one more route.
  unfoldable pub add_route :
      List (String × Target) × List (String × List String)
      → String
      → List (String × Target) × List (String × List String)
  add_route (models, bare) route = elim (cut_slash route) [
    | none ↦ (models, bare)
    | some (prov, model) ↦
        let key = to_lower u model in
        let last = names_of bare key in
        (
          insert (to_lower u route) (target prov model) models,
          if ends_with last prov then bare else insert key (last ++ prov ∷ []) bare,
        )
  ]

  unfoldable pub add_routes :
      List (String × Target) × List (String × List String)
      → List String
      → List (String × Target) × List (String × List String)
  unfolding add_route
  add_routes tables [] = tables
  add_routes tables (route ∷ routes) = add_routes (add_route tables route) routes

  unfoldable pub set_models : Router → List String → Router
  set_models r routes =
      let (models, bare) = add_routes ([], []) routes in record r { models = models; bare = bare }

  unfoldable pub set_aliases_from :
      List (String × String) → List (String × String) → List (String × String)
  set_aliases_from t [] = t
  set_aliases_from t ((k, v) ∷ m) =
      set_aliases_from
        (if str_eq k "" || str_eq v "" || str_eq k v then t else insert (to_lower u k) v t) m

  unfoldable pub set_aliases : Router → List (String × String) → Router
  unfolding set_aliases_from
  set_aliases r m = record r { aliases = set_aliases_from [] m }

  unfoldable pub set_combos_from : List (String × Combo) → List Combo → List (String × Combo)
  set_combos_from t [] = t
  set_combos_from t (c ∷ cs) = set_combos_from (insert (to_lower u c.name) c t) cs

  unfoldable pub set_combos : Router → List Combo → Router
  unfolding set_combos_from
  set_combos r list = record r { combos = set_combos_from [] list }

-- The provider stands in the list.
abbrev Among : String → List String → Type 0
Among p = Any (λ n. n ≡ p)

Among-append : (p : String) (xs ys : List String) → Among p xs ⊎ Among p ys → Among p (xs ++ ys)
Among-append p [] ys (inl h) = absurd h
Among-append p [] ys (inr h) = h
Among-append p (x ∷ xs) ys (inl (inl h)) = inl h
Among-append p (x ∷ xs) ys (inl (inr h)) = inr (Among-append p xs ys (inl h))
Among-append p (x ∷ xs) ys (inr h) = inr (Among-append p xs ys (inr h))

ends_with-Among : (p : String) (xs : List String) → ends_with xs p ≡ true → Among p xs
unfolding ends_with
ends_with-Among p [] h = cc
ends_with-Among p (x ∷ []) h = inl ((eq_iff x p).0 h)
ends_with-Among p (x ∷ y ∷ xs) h = inr (ends_with-Among p (y ∷ xs) h)

-- The route is in both tables: under its own name, and its provider under the bare model.
abbrev pub Listed :
    Unicode
    → List (String × Target)
    → List (String × List String)
    → String
    → String
    → String
    → Type 0
Listed u models bare route prov model =
    (is_some (lookup (to_lower u route) models) ≡ true)
    × Among prov (names_of bare (to_lower u model))

is_some-insert {ℓ} :
    {V : Type ℓ} (k j : String) (v : V) (m : Entries V)
    → is_some (lookup j m) ≡ true
    → is_some (lookup j (insert k v m)) ≡ true
is_some-insert k j v m h =
    rw (lookup-insert k j v m) (elim (Bool-cases (str_eq k j)) [ inl e ↦ rw e | inr e ↦ rw e h ])

module _ (u : Unicode) (models : List (String × Target)) (bare : List (String × List String)) where
  -- The bare index after a route of a provider and a model.
  abbrev with_name : String → String → List (String × List String)
  with_name prov model =
      let key = to_lower u model in
      let last = names_of bare key in
      if ends_with last prov then bare else insert key (last ++ prov ∷ []) bare

  add_route-none :
      (next : String) → cut_slash next ≡ none → add_route u (models, bare) next ≡ (models, bare)
  unfolding add_route
  add_route-none next p = rw (p, add_route)

  add_route-some :
      (next prov model : String)
      → cut_slash next ≡ some (prov, model)
      → add_route u (models, bare) next
        ≡ (insert (to_lower u next) (target prov model) models, with_name prov model)
  unfolding add_route
  add_route-some next prov model p = rw (p, add_route)

  names-insert :
      (key : String) (ns : List String) (j : String)
      → names_of (insert key ns bare) j ≡ (if str_eq key j then ns else names_of bare j)
  names-insert key ns j = ground (arith, lookup-insert key j ns bare)

  with_name-has :
      (prov model : String) → Among prov (names_of (with_name prov model) (to_lower u model))
  with_name-has prov model =
      let key = to_lower u model in
      let last = names_of bare key in
      elim (Bool-cases (ends_with last prov)) [
        | inl e ↦ rw e (ends_with-Among prov last e)
        | inr e ↦
            rw (e, names-insert key (last ++ prov ∷ []) key, (eq_iff key key).1 refl)
              (Among-append prov last (prov ∷ []) (inr (inl refl)))
      ]

  with_name-keeps :
      (prov model p j : String)
      → Among p (names_of bare j)
      → Among p (names_of (with_name prov model) j)
  with_name-keeps prov model p j h =
      let key = to_lower u model in
      let last = names_of bare key in
      elim (Bool-cases (ends_with last prov)) [
        | inl e ↦ rw e h
        | inr e ↦ elim (Bool-cases (str_eq key j)) [
          | inl k ↦
              rw (e, names-insert key (last ++ prov ∷ []) j, k)
                (Among-append p last (prov ∷ [])
                  (inl (subst (λ x. Among p (names_of bare x)) (sym ((eq_iff key j).0 k)) h)))
          | inr k ↦ rw (e, names-insert key (last ++ prov ∷ []) j, k) h
        ]
      ]

abbrev pub RouteListed :
    Unicode
    → List (String × Target) × List (String × List String)
    → String
    → String
    → String
    → Type 0
RouteListed u t route prov model = Listed u t.0 t.1 route prov model

add_route-keeps :
    (u : Unicode) (t : List (String × Target) × List (String × List String))
    (next route prov model : String)
    → RouteListed u t route prov model
    → RouteListed u (add_route u t next) route prov model
add_route-keeps u t next route prov model h = elim (Option-cases (cut_slash next)) [
  | inl p ↦ rw (add_route-none u t.0 t.1 next p) h
  | inr (pm, p) ↦ rw (add_route-some u t.0 t.1 next pm.0 pm.1 p) (
    is_some-insert (to_lower u next) (to_lower u route) (target pm.0 pm.1) t.0 h.0,
    with_name-keeps u t.0 t.1 pm.0 pm.1 prov (to_lower u model) h.1,
  )
]

add_routes-keeps :
    (u : Unicode) (t : List (String × Target) × List (String × List String)) (routes : List String)
    (route prov model : String)
    → RouteListed u t route prov model
    → RouteListed u (add_routes u t routes) route prov model
unfolding add_routes
add_routes-keeps u t [] route prov model h = h
add_routes-keeps u t (next ∷ routes) route prov model h =
    add_routes-keeps u (add_route u t next) routes route prov model
      (add_route-keeps u t next route prov model h)

add_routes-lists :
    (u : Unicode) (t : List (String × Target) × List (String × List String)) (routes : List String)
    (route prov model : String)
    → Any (λ x. x ≡ route) routes
    → cut_slash route ≡ some (prov, model)
    → RouteListed u (add_routes u t routes) route prov model
unfolding add_routes
add_routes-lists u t [] route prov model h p = absurd h
add_routes-lists u t (next ∷ routes) route prov model (inl e) p =
    let c : cut_slash next ≡ some (prov, model) = ap cut_slash e ∙ p in
    let here : RouteListed u (add_route u t next) route prov model =
      rw (add_route-some u t.0 t.1 next prov model c) (
        rw
            (
              e,
              lookup-insert (to_lower u route) (to_lower u route) (target prov model) t.0,
              (eq_iff (to_lower u route) (to_lower u route)).1 refl,
            )
            refl,
        with_name-has u t.0 t.1 prov model,
      ) in
    add_routes-keeps u (add_route u t next) routes route prov model here
add_routes-lists u t (next ∷ routes) route prov model (inr h) p =
    add_routes-lists u (add_route u t next) routes route prov model h p

-- Every configured route "provider/model" is in both tables that `SetModels` builds: as a direct
-- route in any letter case, and with its provider among those that advertise the bare model.
set_models-lists :
    (u : Unicode) (r : Router) (routes : List String) (route prov model : String)
    → Any (λ x. x ≡ route) routes
    → cut_slash route ≡ some (prov, model)
    → let r' = set_models u r routes in
      (is_some (lookup (to_lower u route) r'.models) ≡ true)
      × Any (λ n. n ≡ prov) (names_of r'.bare (to_lower u model))
unfolding set_models
set_models-lists u r routes route prov model h p =
    add_routes-lists u ([], []) routes route prov model h p

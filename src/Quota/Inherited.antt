-- ===== src/Quota/Inherited.antt =====
-- `Inherit` of quota.go: what a reloaded tracker shows.
use onegw.Prelude.{
  ◌≡◌, refl, sym, ◌∙◌, ap, ℕ, String, Bool, Option, none, some, [], ◌∷◌, str_eq, if◌then◌else◌,
  Bool-cases, Option-cases, inl, inr,
}
use text.Mathlib.TextEquality.{eq_iff}
use onegw.Prelude.Int.{ℤ}
use onegw.Prelude.Assoc.{Entries, lookup, insert, lookup-insert}
use onegw.Quota.{
  Limits, WindowState, Tracker, Status, or_unseen, status_of, status, inherit_all, inherit,
}

-- A map has each name once.
abbrev pub Once : Entries WindowState → Type 0
Once [] = Unit
Once ((name, ws) ∷ rest) = (lookup name rest ≡ none) × Once rest

-- The state of a provider, from its limits and the two states.
abbrev kept : Option Limits → Option WindowState → Option WindowState → Option WindowState
kept none theirs own = own
kept (some l) none own = own
kept (some l) (some ws) own = some ws

abbrev found : Bool → WindowState → Option WindowState → Option WindowState
found b ws other = if b then some ws else other

module _ (limits : Entries Limits) (p : String) where
  skipped :
      (name : String) (ws : WindowState) (rest state : Entries WindowState)
      → lookup name limits ≡ none
      → inherit_all limits ((name, ws) ∷ rest) state ≡ inherit_all limits rest state
  unfolding inherit_all
  skipped name ws rest state h = rw (inherit_all, h) refl

  carried :
      (name : String) (ws : WindowState) (rest state : Entries WindowState) (l : Limits)
      → lookup name limits ≡ some l
      → inherit_all limits ((name, ws) ∷ rest) state
        ≡ inherit_all limits rest (insert name ws state)
  unfolding inherit_all
  carried name ws rest state l h = rw (inherit_all, h) refl

  untracked :
      (x y own : Option WindowState)
      → lookup p limits ≡ none
      → kept (lookup p limits) x own ≡ kept (lookup p limits) y own
  untracked x y own h = rw h refl

  tracked :
      (ws : WindowState) (own other : Option WindowState) (l : Limits)
      → lookup p limits ≡ some l
      → kept (lookup p limits) none (some ws) ≡ kept (lookup p limits) (some ws) own
  tracked ws own other l h = rw h refl

  inherited :
      (snap state : Entries WindowState)
      → Once snap
      → lookup p (inherit_all limits snap state)
        ≡ kept (lookup p limits) (lookup p snap) (lookup p state)
  unfolding inherit_all lookup
  inherited [] state once = elim (Option-cases (lookup p limits)) [
    | inl e ↦ rw e refl
    | inr (l, e) ↦ rw e refl
  ]
  inherited ((name, ws) ∷ rest) state (new, once) =
      let later = inherited rest in
      elim (Bool-cases (str_eq name p)) [
        | inl e ↦
            let alike : name ≡ p = (eq_iff name p).0 e in
            let gone : lookup p rest ≡ none = ap (λ n. lookup n rest) (sym alike) ∙ new in
            rw e (elim (Option-cases (lookup name limits)) [
              | inl h ↦
                  ap (lookup p) (skipped name ws rest state h)
                  ∙ later state once
                  ∙ untracked _ _ _ (ap (λ n. lookup n limits) (sym alike) ∙ h)
              | inr (l, h) ↦
                  ap (lookup p) (carried name ws rest state l h)
                  ∙ later (insert name ws state) once
                  ∙ ap (λ x. kept (lookup p limits) x (lookup p (insert name ws state))) gone
                  ∙ ap (kept (lookup p limits) none)
                      (lookup-insert name p ws state ∙ ap (λ b. found b ws (lookup p state)) e)
                  ∙ tracked ws (lookup p state) none l (ap (λ n. lookup n limits) (sym alike) ∙ h)
            ])
        | inr e ↦ rw e (elim (Option-cases (lookup name limits)) [
          | inl h ↦ ap (lookup p) (skipped name ws rest state h) ∙ later state once
          | inr (l, h) ↦
              ap (lookup p) (carried name ws rest state l h)
              ∙ later (insert name ws state) once
              ∙ ap (kept (lookup p limits) (lookup p rest))
                  (lookup-insert name p ws state ∙ ap (λ b. found b ws (lookup p state)) e)
        ])
      ]

module _ (parse : String → Option ℤ) (t o : Tracker) (p : String) (now : ℕ) where
  -- What is shown, of the limits and of the state that a provider has.
  seen : Option Limits → Option WindowState → Option Status
  seen none ws = none
  seen (some l) ws =
      if str_eq l.window "" then none else some (status_of parse p l (or_unseen ws) now)

  status-seen : (t : Tracker) → status parse t p now ≡ seen (lookup p t.limits) (lookup p t.state)
  unfolding status seen
  status-seen t = elim (Option-cases (lookup p t.limits)) [
    | inl e ↦ rw (status, e) refl
    | inr (l, e) ↦ rw (status, e) refl
  ]

  chosen :
      (l : Option Limits) (theirs own : Option WindowState)
      → seen l (kept l theirs own)
        ≡ (elim theirs [ none ↦ seen l own | some ws ↦ seen l (some ws) ])
  unfolding seen
  chosen none none own = refl
  chosen none (some ws) own = refl
  chosen (some l) none own = refl
  chosen (some l) (some ws) own = refl

  -- A tracker that inherits from another, whose map has each name once, shows of each provider, under
  -- its own limits, what the other's counters say where the other has some, and what its own say where
  -- it has none.
  pub inherit-status :
      Once o.state
      → status parse (inherit t (some o)) p now ≡ (elim (lookup p o.state) [
        | none ↦ status parse t p now
        | some ws ↦ status parse (record { limits = t.limits; state = o.state }) p now
      ])
  unfolding inherit
  inherit-status once =
      status-seen (inherit t (some o))
      ∙ ap (seen (lookup p t.limits)) (inherited t.limits p o.state t.state once)
      ∙ chosen (lookup p t.limits) (lookup p o.state) (lookup p t.state)
      ∙ elim (Option-cases (lookup p o.state)) [
        | inl e ↦ rw e (sym (status-seen t))
        | inr (ws, e) ↦ rw e (
            ap (seen (lookup p t.limits)) (sym e)
            ∙ sym (status-seen (record { limits = t.limits; state = o.state })))
      ]

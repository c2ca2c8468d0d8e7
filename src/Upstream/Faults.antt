-- ===== src/Upstream/Faults.antt =====
-- Answers of provider.go's upstream that blame neither an account nor a model.
use onegw.Prelude.{
  ℕ, ◌≤◌, ◌≡◌, ◌≢◌, refl, sym, ◌∙◌, ap, subst, String, true, false, ◌&&◌, ◌||◌, arith, str_eq,
  if◌then◌else◌, Bool-cases, inl, inr,
}
use onegw.Prelude.Text.{Unicode}
use onegw.Pool.{Account}
use onegw.Pool.Faults.{flap_strike}
use onegw.Bench.{note_header_timeout}
use onegw.Errors.Texts.{contains}
use onegw.Errors.{ApiError, over_quota, region_locked, model_scoped, shared_concurrency}
use onegw.Upstream.{
  Provider, Answer, Readers, Broken, transport_err, unreached, edge_fault, gated_403,
  auth_verify_failed, parse_rejected, name_body, rewrite_verify, rewrite_parse, classified, limit,
  lock_region, gate, lock_model, strike, refused,
}

module _ (u : Unicode) (t : Readers) (p : Provider) (now : ℕ) (model : String) (acct : Account)
    (a : Answer) where
  limit_spared : (e : ApiError) → over_quota u e ≡ false → limit u t p now model acct a e ≡ (p, e)
  unfolding limit
  limit_spared e h = ground (arith, h)

  region_spared : (e : ApiError) → 500 ≤ e.status → lock_region u now acct (p, e) ≡ (p, e)
  unfolding lock_region region_locked
  region_spared e h = ground (arith, h)

  gate_spared : (e : ApiError) → a.http_status ≢ 403 → gate u now acct a (p, e) ≡ (p, e)
  unfolding gate gated_403
  gate_spared e h = ground (arith, h)

  model_spared : (e : ApiError) → 500 ≤ e.status → lock_model u now model (p, e) ≡ (p, e)
  unfolding lock_model model_scoped
  model_spared e h = ground (arith, h)

  strike_either :
      (e : ApiError)
      → strike u now (p, e)
        ≡ (record p { pool = if edge_fault u e then flap_strike p.pool now else p.pool }, e)
  unfolding strike
  strike_either e = elim (Bool-cases (edge_fault u e)) [
    | inl h ↦ ground (arith, h)
    | inr h ↦ ground (arith, h)
  ]

  pub refused-fault :
      500 ≤ (classified u p a).status
      → over_quota u (classified u p a) ≡ false
      → a.http_status ≢ 403
      → refused u t p now model acct a ≡ (
        record p {
          pool = if edge_fault u (classified u p a) then flap_strike p.pool now else p.pool;
        },
        classified u p a,
      )
  unfolding refused
  refused-fault s q h =
      let e = classified u p a in
      ap (λ r. strike u now (lock_model u now model (gate u now acct a (lock_region u now acct r))))
        (limit_spared e q)
      ∙ ap (λ r. strike u now (lock_model u now model (gate u now acct a r))) (region_spared e s)
      ∙ ap (λ r. strike u now (lock_model u now model r)) (gate_spared e h)
      ∙ ap (λ r. strike u now r) (model_spared e s)
      ∙ strike_either e

  spared_type :
      (e : ApiError)
      → (str_eq e.error_type "upstream_auth_verify_failed"
          || str_eq e.error_type "upstream_parse_rejected")
        ≡ true
      → edge_fault u e ≡ false
  unfolding edge_fault
  spared_type e h = ground (arith, h)

  Spared : ApiError → Type 0
  Spared r = (r.status ≡ 502) × (edge_fault u r ≡ false)

  verify_rewritten :
      (e : ApiError) → auth_verify_failed u e ≡ true → Spared (rewrite_parse (rewrite_verify u e))
  unfolding Spared rewrite_parse rewrite_verify parse_rejected
  verify_rewritten e h =
      let e1 = record e { status = 502; error_type = "upstream_auth_verify_failed" } in
      let first : e1 ≡ rewrite_verify u e = ap (λ b. if b then e1 else e) (sym h) in
      subst (λ r. Spared (rewrite_parse r)) first (refl, spared_type e1 refl)

  parse_rewritten :
      (e : ApiError)
      → auth_verify_failed u e ≡ false
      → parse_rejected e ≡ true
      → Spared (rewrite_parse (rewrite_verify u e))
  unfolding Spared rewrite_parse rewrite_verify
  parse_rewritten e n h =
      let e1 = record e { status = 502; error_type = "upstream_parse_rejected" } in
      let first : e ≡ rewrite_verify u e =
        ap
          (λ b.
            if b then record e { status = 502; error_type = "upstream_auth_verify_failed" } else e)
          (sym n) in
      let second : e1 ≡ rewrite_parse e = ap (λ b. if b then e1 else e) (sym h) in
      subst (λ r. Spared (rewrite_parse r)) first (subst Spared second (refl, spared_type e1 refl))

  rewritten :
      (e : ApiError)
      → (auth_verify_failed u e || parse_rejected e) ≡ true
      → Spared (rewrite_parse (rewrite_verify u e))
  rewritten e h = elim (Bool-cases (auth_verify_failed u e)) [
    | inl v ↦ verify_rewritten e v
    | inr v ↦ parse_rewritten e v (ground (arith, h, v))
  ]

  -- A failure of the upstream's own verification of keys and a node's refusal to parse a request come with
  -- a 401 and a 400, and are returned as a 502; if the answer names no exhausted quota, they change nothing
  -- of the provider: no account, no model and not the breaker.
  pub refused-channel :
      (auth_verify_failed u (name_body p a) || parse_rejected (name_body p a)) ≡ true
      → over_quota u (classified u p a) ≡ false
      → a.http_status ≢ 403
      → (refused u t p now model acct a ≡ (p, classified u p a)) × ((classified u p a).status ≡ 502)
  unfolding classified Spared
  refused-channel c q h =
      let (s, f) = rewritten (name_body p a) c in
      (
        refused-fault (omega (arith, s)) q h
            ∙ ap
                (λ b. (
                  record p { pool = if b then flap_strike p.pool now else p.pool },
                  rewrite_parse (rewrite_verify u (name_body p a)),
                ))
                f,
        s,
      )

-- A call that got no answer counts a strike of the flap breaker, unless the client has gone or the wait
-- for the first byte was used up; that last counts a timeout of the model, and nothing else does. No
-- account is touched.
unreached-strikes :
    (u : Unicode) (p : Provider) (now : ℕ) (model : String) (b : Broken)
    → let spent = b.timed_out && contains b.text "timeout awaiting response headers" in
      (unreached u p now model b).0 ≡ (
        if b.client_gone
        then p
        else if spent
        then record p { benches = note_header_timeout p.benches now model }
        else record p { pool = flap_strike p.pool now })
unfolding unreached transport_err edge_fault shared_concurrency
unreached-strikes u p now model b = elim (Bool-cases b.client_gone) [
  | inl g ↦ rw g refl
  | inr g ↦ elim (Bool-cases b.timed_out) [
    | inl o ↦ elim (Bool-cases (contains b.text "timeout awaiting response headers")) [
      | inl c ↦ rw (g, o, c) refl
      | inr c ↦ rw (g, o, c) refl
    ]
    | inr o ↦ rw (g, o) refl
  ]
]

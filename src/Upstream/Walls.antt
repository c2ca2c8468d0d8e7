-- ===== src/Upstream/Walls.antt =====
-- The 429 of provider.go that says nothing: the ladder of one account, or a wall that accounts share.
use onegw.Prelude.{
  ℕ, ◌≡◌, refl, ◌∙◌, ap, String, true, false, ◌&&◌, arith, str_eq, if◌then◌else◌, Bool-cases, inl,
  inr,
}
use onegw.Prelude.Int.{pos}
use onegw.Prelude.Text.{Unicode}
use onegw.Pool.{Account}
use onegw.Pool.Faults.{rate_limited, wall_strike}
use onegw.Errors.{ApiError, over_quota, region_locked, model_scoped, go_model_budget}
use onegw.Errors.Window.{rate_window}
use onegw.Upstream.{
  Provider, Answer, Readers, told, edge_fault, gated_403, shared_limit_429, classified, stamp,
  charge, asked, park, wall_park_ttl, limit, lock_region, gate, lock_model, strike, refused,
}

-- A 429 whose header and text name neither a time nor a shared limit.
pub record Wordless (u : Unicode) (p : Provider) (a : Answer) : Type 0 where
  pub limited : (classified u p a).status ≡ 429
  pub answered : a.http_status ≡ 429
  pub no_header : str_eq a.header "" ≡ true
  pub no_hint : str_eq (classified u p a).retry_after "" ≡ true
  pub no_window : rate_window u (classified u p a).code (classified u p a).message ≡ pos 0
  pub no_limit :
      shared_limit_429 u
        (classified u p a).status
        (classified u p a).code
        (classified u p a).message
      ≡ false
  pub no_budget : (p.is_opencode && go_model_budget u (classified u p a)) ≡ false

module _ (u : Unicode) (t : Readers) (p : Provider) (now : ℕ) (model : String) (acct : Account)
    (a : Answer) where
  region_free :
      (q : Provider) (e : ApiError) → e.status ≡ 429 → lock_region u now acct (q, e) ≡ (q, e)
  unfolding lock_region region_locked
  region_free q e h = ground (arith, h)

  gate_free :
      (q : Provider) (e : ApiError) → a.http_status ≡ 429 → gate u now acct a (q, e) ≡ (q, e)
  unfolding gate gated_403
  gate_free q e h = ground (arith, h)

  model_free :
      (q : Provider) (e : ApiError) → e.status ≡ 429 → lock_model u now model (q, e) ≡ (q, e)
  unfolding lock_model model_scoped
  model_free q e h = ground (arith, h)

  strike_free : (q : Provider) (e : ApiError) → e.status ≡ 429 → strike u now (q, e) ≡ (q, e)
  unfolding strike edge_fault
  strike_free q e h = ground (arith, h)

  -- A 429 that its own branch keeps a 429 goes through the others unchanged.
  pub refused-limited :
      (q : Provider) (e : ApiError)
      → limit u t p now model acct a (classified u p a) ≡ (q, e)
      → e.status ≡ 429
      → a.http_status ≡ 429
      → refused u t p now model acct a ≡ (q, e)
  unfolding refused
  refused-limited q e l s h =
      ap (λ r. strike u now (lock_model u now model (gate u now acct a (lock_region u now acct r))))
        l
      ∙ ap (λ r. strike u now (lock_model u now model (gate u now acct a r))) (region_free q e s)
      ∙ ap (λ r. strike u now (lock_model u now model r)) (gate_free q e h)
      ∙ ap (λ r. strike u now r) (model_free q e s)
      ∙ strike_free q e s

  pub over_quota_429 : (e : ApiError) → e.status ≡ 429 → over_quota u e ≡ true
  unfolding over_quota
  over_quota_429 e h = rw h refl

  stamp_nothing :
      (e : ApiError)
      → str_eq a.header "" ≡ true
      → rate_window u e.code e.message ≡ pos 0
      → stamp u a e ≡ e
  unfolding stamp told
  stamp_nothing e h w = rw (h, w) refl

  asked_nothing :
      (e : ApiError)
      → str_eq a.header "" ≡ true
      → rate_window u e.code e.message ≡ pos 0
      → asked u t now a e ≡ 0
  unfolding asked
  asked_nothing e h w = rw (h, w) refl

  -- The branch of such a 429.
  Silent : ApiError → Type 0
  Silent e =
      ((p.is_opencode && go_model_budget u e) ≡ false)
      × (shared_limit_429 u e.status e.code e.message ≡ false)
      × (str_eq e.retry_after "" ≡ true)
      × (asked u t now a e ≡ 0)

  after_sight : ApiError → Provider × ApiError
  after_sight e =
      let (pool', proven) = wall_strike p.pool now model acct.name false in
      if proven
      then (
        park (record p { pool = pool' }) now model wall_park_ttl,
        record e { shared_wall = true },
      )
      else (record p { pool = rate_limited pool' now acct 0 }, e)

  charge-Silent : (e : ApiError) → Silent e → charge u t p now model acct a e ≡ after_sight e
  unfolding charge Silent after_sight
  charge-Silent e (b, l, h, w) =
      let r = wall_strike p.pool now model acct.name false in
      elim (Bool-cases (r.1)) [ inl s ↦ rw (b, l, h, s) refl | inr s ↦ rw (b, l, h, w, s) refl ]

  Wordless-limit :
      Wordless u p a
      → limit u t p now model acct a (classified u p a) ≡ after_sight (classified u p a)
  unfolding limit Silent
  Wordless-limit w =
      let e = classified u p a in
      let s = stamp_nothing e w.no_header w.no_window in
      ap (λ b. if b then charge u t p now model acct a (stamp u a e) else (p, e))
        (over_quota_429 e w.limited)
      ∙ ap (λ x. charge u t p now model acct a x) s
      ∙ charge-Silent e
          (w.no_budget, w.no_limit, w.no_hint, asked_nothing e w.no_header w.no_window)

  pub Wordless-first :
      Wordless u p a
      → (wall_strike p.pool now model acct.name false).1 ≡ false
      → refused u t p now model acct a ≡ (
        record p {
          pool = rate_limited (wall_strike p.pool now model acct.name false).0 now acct 0;
        },
        classified u p a,
      )
  unfolding after_sight
  Wordless-first w s =
      refused-limited _ (classified u p a) (Wordless-limit w ∙ rw s refl) w.limited w.answered

  pub Wordless-proved :
      Wordless u p a
      → (wall_strike p.pool now model acct.name false).1 ≡ true
      → refused u t p now model acct a ≡ (
        park
            (record p { pool = (wall_strike p.pool now model acct.name false).0 })
            now
            model
            wall_park_ttl,
        record (classified u p a) { shared_wall = true },
      )
  unfolding after_sight
  Wordless-proved w s =
      refused-limited _ (record (classified u p a) { shared_wall = true })
        (Wordless-limit w ∙ rw s refl) w.limited w.answered

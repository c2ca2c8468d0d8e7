-- ===== src/Upstream/Shared.antt =====
-- The 429 of provider.go whose text blames no key: a limit that all accounts share, and the budget of a
-- model of OpenCode Go.
use onegw.Prelude.{
  ℕ, ◌≡◌, refl, ◌∙◌, ap, String, true, not, ◌&&◌, str_eq, ◌==◌, if◌then◌else◌, if_both,
}
use onegw.Prelude.Int.{ℤ, pos, negsuc}
use onegw.Prelude.Text.{Unicode}
use onegw.Pool.{Account}
use onegw.Bench.{bench_model}
use onegw.Errors.{ApiError, go_model_budget}
use onegw.Errors.Window.{rate_window}
use onegw.Upstream.{
  Provider, Answer, Readers, shared_limit_429, classified, stamp, told, asked, charge, limit,
  refused,
}
use onegw.Upstream.Walls.{refused-limited, over_quota_429}

-- What a Retry-After leaves of an error.
abbrev Told : Unicode → ApiError → ApiError → Type 0
Told u e e' =
    (e'.status ≡ e.status)
    × (shared_limit_429 u e'.status e'.code e'.message
        ≡ shared_limit_429 u e.status e.code e.message)
    × (go_model_budget u e' ≡ go_model_budget u e)

told-Told : (u : Unicode) (w : ℤ) (e : ApiError) → Told u e (told w e)
unfolding told go_model_budget
told-Told u (pos n) e = if_both (Told u e) (n == 0) _ _ (refl, refl, refl) (refl, refl, refl)
told-Told u (negsuc n) e = (refl, refl, refl)

stamp-Told : (u : Unicode) (a : Answer) (e : ApiError) → Told u e (stamp u a e)
unfolding stamp go_model_budget
stamp-Told u a e =
    if_both (Told u e) (not (str_eq a.header "")) (record e { retry_after = a.header })
      (told (rate_window u e.code e.message) e) (refl, refl, refl)
      (told-Told u (rate_window u e.code e.message) e)

module _ (u : Unicode) (t : Readers) (p : Provider) (now : ℕ) (model : String) (acct : Account)
    (a : Answer) where
  Spares : ℕ → Provider × ApiError → Type 0
  Spares n (q, e) =
      (q.pool.accts ≡ p.pool.accts) × (q.pool.flap_strikes ≡ p.pool.flap_strikes) × (e.status ≡ n)

  charge_budget :
      (e : ApiError)
      → (p.is_opencode && go_model_budget u e) ≡ true
      → charge u t p now model acct a e ≡ (
        record p { benches = bench_model p.benches now model (asked u t now a e) },
        record e { shared_wall = true },
      )
  unfolding charge
  charge_budget e b = rw b refl

  charged :
      (classified u p a).status ≡ 429
      → limit u t p now model acct a (classified u p a)
        ≡ charge u t p now model acct a (stamp u a (classified u p a))
  unfolding limit
  charged h =
      ap
        (λ b.
          if b
          then charge u t p now model acct a (stamp u a (classified u p a))
          else (p, classified u p a))
        (over_quota_429 u t p now model acct a (classified u p a) h)

  -- The budget wall of a model of OpenCode Go benches that model, for as long as the header or else the
  -- message asks, and nothing else; the error is marked as shared by all accounts.
  refused-budget :
      (classified u p a).status ≡ 429
      → a.http_status ≡ 429
      → (p.is_opencode && go_model_budget u (classified u p a)) ≡ true
      → let e = stamp u a (classified u p a) in
        refused u t p now model acct a ≡ (
          record p { benches = bench_model p.benches now model (asked u t now a e) },
          record e { shared_wall = true },
        )
  refused-budget h k b =
      let e = classified u p a in
      let (same_status, same_limit, same_budget) = stamp-Told u a e in
      let budget = ap (λ g. p.is_opencode && g) same_budget ∙ b in
      refused-limited u t p now model acct a _ _ (charged h ∙ charge_budget (stamp u a e) budget)
        (same_status ∙ h) k

-- ===== src/Policy/Limits.antt =====
-- The limits of server/policy.go against the logs of a key: which verdict is given.
use onegw.Prelude.{
  ℕ, ◌≤◌, ◌<◌, ◌≡◌, refl, ◌∙◌, ◌≢◌, ◌⊎◌, inl, inr, ◌||◌, some, ◌∷◌, arith, ◌==◌, if◌then◌else◌,
  str_eq, Bool-cases,
}
use onegw.RateLimit.{Limiter, allow_rpm, tpm_blocked}
use onegw.RateLimit.Log.{Log, recent}
use onegw.RateLimit.Entries.{Tracks, entry, SameOthers, Tracks-later}
use onegw.RateLimit.Runs.{WaitsFor, allow_rpm_lem, tpm_blocked_lem, observe_tpm_lem}
use onegw.Policy.{
  AuthKey, Verdict, pass, too_many_tokens, too_many_requests, check_rpm, enforce_rate_limits,
  observe_usage,
}

-- The limit is off, or the total is under it.
abbrev pub Under : ℕ → ℕ → Type 0
Under limit total = (limit ≡ 0) ⊎ (total < limit)

-- The limit is on, and the total has reached it.
abbrev pub Reached : ℕ → ℕ → Type 0
Reached limit total = (limit ≢ 0) × (limit ≤ total)

-- What each verdict says of the key's recent requests and tokens.
abbrev pub Judged : ℕ → AuthKey → Log → Log → Verdict → Type 0
Judged now ak reqs toks pass = Under ak.tpm (recent now toks) × Under ak.rpm (recent now reqs)
Judged now ak reqs toks (too_many_tokens r) = Reached ak.tpm (recent now toks) × WaitsFor now r toks
Judged now ak reqs toks (too_many_requests r) =
    Under ak.tpm (recent now toks) × Reached ak.rpm (recent now reqs) × WaitsFor now r reqs

-- Only a request that passes under a request limit is counted.
abbrev pub counted : ℕ → AuthKey → Verdict → Log → Log
counted now ak pass reqs = if ak.rpm == 0 then reqs else (now, 1) ∷ reqs
counted now ak _ reqs = reqs

abbrev pub Answers : ℕ → AuthKey → Log → Log → Limiter → Limiter × Verdict → Type 0
Answers now ak reqs toks l r =
    Judged now ak reqs toks r.1
    × Tracks now (counted now ak r.1 reqs) toks (entry r.0 ak.key)
    × SameOthers ak.key l r.0

module _ (t : ℕ) (ak : AuthKey) (reqs toks : Log) (l : Limiter) (now : ℕ)
    (k : Tracks t reqs toks (entry l ak.key)) (h : t ≤ now) where
  check_rpm_lem : Under ak.tpm (recent now toks) → Answers now ak reqs toks l (check_rpm l now ak)
  unfolding check_rpm
  check_rpm_lem u = elim (Bool-cases (ak.rpm == 0)) [
    | inl off ↦
        rw (off, check_rpm)
          (
            (u, inl (ground arith)),
            rw off (Tracks-later t reqs toks l ak.key now k h),
            λ other ne. refl,
          )
    | inr on ↦
        let r = allow_rpm l now ak.key ak.rpm in
        let q = allow_rpm_lem t reqs toks l ak.key now k h ak.rpm (ground arith) in
        elim (Bool-cases r.1) [
          | inl yes_form ↦
              rw (on, yes_form, check_rpm)
                ((u, inr (ground (arith, q.0))), rw (on) (rw yes_form at q.1), q.2)
          | inr no_form ↦
              rw (on, no_form, check_rpm)
                ((u, (ground arith, ground (arith, q.0)), q.3 no_form), rw no_form at q.1, q.2)
        ]
  ]

module _ (t : ℕ) (ak : AuthKey) (reqs toks : Log) (l : Limiter) (now : ℕ)
    (k : Tracks t reqs toks (entry l ak.key)) (h : t ≤ now) where
  -- The verdict of `enforceRateLimits`, and the logs after it.
  pub enforce_lem : Answers now ak reqs toks l (enforce_rate_limits l now (some ak))
  unfolding enforce_rate_limits
  enforce_lem = elim (Bool-cases (ak.tpm == 0)) [
    | inl off ↦ rw (off) (check_rpm_lem t ak reqs toks l now k h (inl (ground arith)))
    | inr on ↦
        let r = tpm_blocked l now ak.key ak.tpm in
        let q = tpm_blocked_lem t reqs toks l ak.key now k h ak.tpm (ground arith) in
        elim (Bool-cases r.1) [
          | inl full ↦ rw (on, full) (((ground arith, ground (arith, q.0)), q.3 full), q.1, q.2)
          | inr room ↦
              let c =
                check_rpm_lem now ak reqs toks r.0 now q.1 (omega arith)
                  (inr (ground (arith, q.0))) in
              rw (on, room) (c.0, c.1, λ other ne. c.2 other ne ∙ q.2 other ne)
        ]
  ]

  -- A completion adds its tokens to the log of a key that has a token limit.
  pub observe_usage_lem :
      (tokens : ℕ)
      → let l' = observe_usage l now (some ak) tokens in
        ((toks' : Log) × Tracks now reqs toks' (entry l' ak.key)) × SameOthers ak.key l l'
  unfolding observe_usage
  observe_usage_lem tokens =
      elim (Bool-cases ((ak.tpm == 0) || (tokens == 0) || str_eq ak.key "")) [
        | inl off ↦ rw off ((toks, Tracks-later t reqs toks l ak.key now k h), λ other ne. refl)
        | inr on ↦
            let q =
              observe_tpm_lem t reqs toks l ak.key now k h ak.tpm tokens (ground arith)
                (ground arith) in
            rw on (((now, tokens) ∷ toks, q.0), q.1)
      ]

-- A request is let through, or refused for the window that has reached its limit with a wait of at
-- most sixty seconds by whose end an event has left it; only a request that is let through is counted.
pub enforce_verdict :
    (t : ℕ) (ak : AuthKey) (reqs toks : Log) (l : Limiter) (now : ℕ)
    → Tracks t reqs toks (entry l ak.key)
    → t ≤ now
    → let (l', verdict) = enforce_rate_limits l now (some ak) in
      Judged now ak reqs toks verdict
      × Tracks now (counted now ak verdict reqs) toks (entry l' ak.key)
enforce_verdict t ak reqs toks l now k h =
    let a = enforce_lem t ak reqs toks l now k h in (a.0, a.1)

-- ===== src/RateLimit/Runs.antt =====
-- What ratelimit.go's three methods answer, and what they leave, by the logs of the keys.
use onegw.Prelude.{
  ℕ, ◌+◌, ◌≤◌, ◌<◌, ◌≡◌, refl, ◌≢◌, ◌⊎◌, true, false, String, ◌∷◌, arith, ltb, leb, if◌then◌else◌,
  ◌∙◌, Bool-cases, inl, inr, ◌%◌,
}
use onegw.Prelude.Assoc.{insert}
use onegw.RateLimit.{
  Limiter, Entry, new_entry, sum_step, add_bucket, get, sum_at, add, retry_after, allow_rpm,
  tpm_blocked, observe_tpm, window_seconds,
}
use onegw.RateLimit.Log.{Log, recent}
use onegw.RateLimit.Window.{sum_at-Models, add-Models, length-sum_from, length-add}
use onegw.RateLimit.Retry.{retry_bounds}
use onegw.RateLimit.Entries.{
  Tracks, entry, entry-insert, get-entry, entry-get, str_eq_self, SameOthers, granted, denied,
  Tracks-later, tok-recent, with_tok,
}

-- The wait that a refusal names ends in the window's length, and by its end an event has left.
abbrev pub WaitsFor : ℕ → ℕ → Log → Type 0
WaitsFor now r log = (1 ≤ r) × (r ≤ window_seconds) × (recent (now + r) log < recent now log)

new_entry-recent : (now : ℕ) → (sum_at new_entry.tok now).1 ≡ 0
unfolding sum_at sum_step
new_entry-recent now = refl

module _ (t : ℕ) (reqs toks : Log) (l : Limiter) (key : String) (now : ℕ)
    (k : Tracks t reqs toks (entry l key)) (h : t ≤ now) where
  insert_keeps :
      (e : Entry)
      → (entry (insert key e (get l key).0) key ≡ e) × SameOthers key l (insert key e (get l key).0)
  insert_keeps e = (
    entry-insert (get l key).0 key key e ∙ ground (arith, str_eq_self key),
    λ other ne. entry-insert (get l key).0 key other e ∙ ground (arith, entry-get l key other ne),
  )

  -- `AllowRPM` with a limit.
  pub allow_rpm_lem :
      (rpm : ℕ)
      → rpm ≢ 0
      → let r = allow_rpm l now key rpm in
        (r.1 ≡ ltb (recent now reqs) rpm)
        × Tracks now (if r.1 then (now, 1) ∷ reqs else reqs) toks (entry r.0 key)
        × SameOthers key l r.0
        × (r.1 ≡ false → WaitsFor now r.2 reqs)
  allow_rpm_lem rpm limited = elim (Bool-cases (ltb (recent now reqs) rpm)) [
    | inl room ↦
        let (w, e, tr) = granted t reqs toks l key now k h rpm limited (ground arith) in
        let s = insert_keeps (record (entry l key) { req = w }) in
        rw (e, room) (refl, rw (s.0) tr, s.1, λ no_wait. cc)
    | inr full ↦
        let (e, tr) = denied t reqs toks l key now k h rpm limited (ground arith) in
        let s = insert_keeps (record (entry l key) { req = (sum_at (entry l key).req now).0 }) in
        rw (e, full)
          (
            refl,
            rw (s.0) tr,
            s.1,
            λ _.
                retry_bounds t reqs (entry l key).req now k.req_models h k.req_length
                  (ground arith),
          )
  ]

  replace_keeps : (e : Entry) → (entry (insert key e l) key ≡ e) × SameOthers key l (insert key e l)
  replace_keeps e = (
    entry-insert l key key e ∙ ground (arith, str_eq_self key),
    λ other ne. entry-insert l key other e ∙ ground arith,
  )

  checked-Tracks :
      Tracks now reqs toks (record (entry l key) { tok = (sum_at (entry l key).tok now).0 })
  checked-Tracks =
      with_tok t reqs toks l key now k h (sum_at-Models t toks (entry l key).tok now k.tok_models h)
        (unfold sum_at in length-sum_from now (entry l key).tok 0 0 ∙ k.tok_length)

  -- The two answers of `TPMBlocked` with a limit.
  blocked_form :
      (tpm : ℕ)
      → tpm ≢ 0
      → tpm ≤ recent now toks
      → tpm_blocked l now key tpm ≡ (
        insert key (record (entry l key) { tok = (sum_at (entry l key).tok now).0 }) l,
        true,
        retry_after (sum_at (entry l key).tok now).2 now,
      )
  unfolding tpm_blocked entry
  blocked_form tpm limited full =
      ground (arith, tok-recent t reqs toks l key now k h, new_entry-recent now)

  open_form :
      (tpm : ℕ)
      → tpm ≢ 0
      → recent now toks < tpm
      → (tpm_blocked l now key tpm ≡ (l, false, 0))
        ⊎ (tpm_blocked l now key tpm ≡ (
          insert key (record (entry l key) { tok = (sum_at (entry l key).tok now).0 }) l,
          false,
          0,
        ))
  unfolding tpm_blocked entry
  open_form tpm limited room = ground (arith, tok-recent t reqs toks l key now k h)

  -- `TPMBlocked` with a limit.
  pub tpm_blocked_lem :
      (tpm : ℕ)
      → tpm ≢ 0
      → let r = tpm_blocked l now key tpm in
        (r.1 ≡ leb tpm (recent now toks))
        × Tracks now reqs toks (entry r.0 key)
        × SameOthers key l r.0
        × (r.1 ≡ true → WaitsFor now r.2 toks)
  tpm_blocked_lem tpm limited =
      let w = (sum_at (entry l key).tok now).0 in
      let s = replace_keeps (record (entry l key) { tok = w }) in
      elim (Bool-cases (leb tpm (recent now toks))) [
        | inl full ↦
            rw (blocked_form tpm limited (ground arith), full)
              (
                refl,
                rw (s.0) checked-Tracks,
                s.1,
                λ _.
                    retry_bounds t toks (entry l key).tok now k.tok_models h k.tok_length
                      (ground arith),
              )
        | inr room ↦ elim (open_form tpm limited (ground arith)) [
          | inl e ↦
              rw (e, room)
                (refl, Tracks-later t reqs toks l key now k h, λ other ne. refl, λ no_wait. cc)
          | inr e ↦ rw (e, room) (refl, rw (s.0) checked-Tracks, s.1, λ no_wait. cc)
        ]
      ]

  -- `ObserveTPM` with a limit and some tokens.
  pub observe_tpm_lem :
      (tpm tokens : ℕ)
      → tpm ≢ 0
      → tokens ≢ 0
      → let l' = observe_tpm l now key tpm tokens in
        Tracks now reqs ((now, tokens) ∷ toks) (entry l' key) × SameOthers key l l'
  unfolding observe_tpm
  observe_tpm_lem tpm tokens limited some_tokens =
      let w = add (entry l key).tok now tokens in
      let s = insert_keeps (record (entry l key) { tok = w }) in
      let e : observe_tpm l now key tpm tokens
          ≡ insert key (record (entry l key) { tok = w }) (get l key).0 =
        ground (arith, get-entry l key) in
      rw e (
        rw (s.0) (
            with_tok t reqs toks l key now k h
              (add-Models t toks (entry l key).tok now k.tok_models h tokens)
              (unfold add in
                length-add (entry l key).tok (now % window_seconds) (λ b. add_bucket b now tokens)
                ∙ k.tok_length)),
        s.1,
      )

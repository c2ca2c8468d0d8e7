-- ===== src/Quota/Counts.antt =====
-- What quota.go counts in a window, and what it shows of it.
use onegw.Prelude.{
  ℕ, ◌+◌, ◌≡◌, refl, ◌∙◌, ap, String, true, false, Option, none, some, arith, str_eq, ◌==◌,
  if◌then◌else◌,
}
use onegw.Prelude.Int.{ℤ}
use onegw.Prelude.Assoc.{Entries, lookup, insert, lookup-insert, str_eq_refl}
use onegw.Quota.{
  Limits, WindowState, Tracker, Status, current_window, origin_of, roll, or_unseen, count_in,
  observe, exhausted, shown, status_of, status,
}
use onegw.Quota.Grids.{Gridded}
use onegw.Quota.Settled.{settled}

module _ (parse : String → Option ℤ) (provider : String) (l : Limits) (ws : WindowState)
    (now : ℕ) where
  -- A status with more tokens and requests.
  abbrev more : ℕ → ℕ → Status → Status
  more tokens requests s = record s {
    tokens = s.tokens + tokens;
    requests = s.requests + requests;
    is_exhausted = exhausted l (s.tokens + tokens) (s.requests + requests);
  }

  roll-start : (roll parse l ws now).start ≡ (current_window parse l (origin_of l ws) now).0
  unfolding roll
  roll-start = ground arith

  roll-counts :
      let w = current_window parse l (origin_of l ws) now in
      ((roll parse l ws now).used_tokens ≡ (if ws.start == w.0 then ws.used_tokens else 0))
      × ((roll parse l ws now).used_requests ≡ (if ws.start == w.0 then ws.used_requests else 0))
  unfolding roll
  roll-counts = (ground arith, ground arith)

  -- The status of what was counted.
  status_of-count_in :
      (tokens requests : ℕ)
      → Gridded parse l now
      → status_of parse provider l (count_in tokens requests (roll parse l ws now)) now
        ≡ more tokens requests (status_of parse provider l ws now)
  unfolding status_of count_in
  status_of-count_in tokens requests g =
      let w = current_window parse l (origin_of l ws) now in
      let moved = count_in tokens requests (roll parse l ws now) in
      let same = settled parse l now ws g moved roll-start in
      let started : (moved.start == w.0) ≡ true = ground (arith, roll-start) in
      let (t, r) = roll-counts in
      let in_window : ℕ × ℕ → Status = λ v.
        shown provider l v (if moved.start == v.0 then moved.used_tokens else 0)
          (if moved.start == v.0 then moved.used_requests else 0) in
      ap in_window same
      ∙ ap
          (λ b.
            shown provider l w (if b then moved.used_tokens else 0)
              (if b then moved.used_requests else 0))
          started
      ∙ ap (λ k. shown provider l w (k + tokens) ((roll parse l ws now).used_requests + requests)) t
      ∙ ap
          (λ k.
            shown provider l w ((if ws.start == w.0 then ws.used_tokens else 0) + tokens)
              (k + requests))
          r

  status-known :
      (t : Tracker)
      → lookup provider t.limits ≡ some l
      → str_eq l.window "" ≡ false
      → status parse t provider now
        ≡ some (status_of parse provider l (or_unseen (lookup provider t.state)) now)
  unfolding status
  status-known t h o = rw (status, h, o) refl

  observe-known :
      (t : Tracker) (tokens requests : ℕ)
      → lookup provider t.limits ≡ some l
      → str_eq l.window "" ≡ false
      → observe parse t provider tokens requests now ≡ record t {
        state =
            insert provider
              (count_in tokens requests (roll parse l (or_unseen (lookup provider t.state)) now))
              t.state;
      }
  unfolding observe
  observe-known t tokens requests h o = rw (observe, h, o) refl

  status-other :
      (t : Tracker) (state : Entries WindowState) (other : String)
      → lookup other state ≡ lookup other t.state
      → status parse (record t { state = state }) other now ≡ status parse t other now
  unfolding status
  status-other t state other e =
      let seen : Option WindowState → Option Status = λ x. elim (lookup other t.limits) [
        | none ↦ none
        | some k ↦
            if str_eq k.window "" then none else some (status_of parse other k (or_unseen x) now)
      ] in
      ap seen e

  -- After a completed request its provider's status shows, of the same window, the tokens and requests that
  -- it showed at that instant before and those of the request, and whether they reach a limit; the status
  -- of another provider stays. This is so of days, weeks, months and durations.
  pub observe-status :
      (t : Tracker) (tokens requests : ℕ) (other : String)
      → lookup provider t.limits ≡ some l
      → or_unseen (lookup provider t.state) ≡ ws
      → str_eq l.window "" ≡ false
      → Gridded parse l now
      → str_eq provider other ≡ false
      → let t' = observe parse t provider tokens requests now in
        let before = status_of parse provider l ws now in
        (status parse t provider now ≡ some before)
        × (status parse t' provider now
            ≡ some (record before {
              tokens = before.tokens + tokens;
              requests = before.requests + requests;
              is_exhausted = exhausted l (before.tokens + tokens) (before.requests + requests);
            }))
        × (status parse t' other now ≡ status parse t other now)
  observe-status t tokens requests other h s o g d =
      let counted =
        count_in tokens requests (roll parse l (or_unseen (lookup provider t.state)) now) in
      let done = observe-known t tokens requests h o in
      let t' = record t { state = insert provider counted t.state } in
      let same =
        ap (λ b. if b then some counted else lookup provider t.state) (str_eq_refl provider) in
      let found : lookup provider t'.state ≡ some counted =
        lookup-insert provider provider counted t.state ∙ same in
      let kept : lookup other t'.state ≡ lookup other t.state =
        lookup-insert provider other counted t.state
        ∙ ap (λ b. if b then some counted else lookup other t.state) d in
      (
        status-known t h o ∙ ap (λ x. some (status_of parse provider l x now)) s,
        ap (λ x. status parse x provider now) done
            ∙ status-known t' h o
            ∙ ap (λ x. some (status_of parse provider l (or_unseen x) now)) found
            ∙ ap
                (λ x.
                  some (
                    status_of parse provider l (count_in tokens requests (roll parse l x now)) now))
                s
            ∙ ap some (status_of-count_in tokens requests g),
        ap (λ x. status parse x other now) done ∙ status-other t t'.state other kept,
      )

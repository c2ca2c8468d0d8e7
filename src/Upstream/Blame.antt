-- ===== src/Upstream/Blame.antt =====
-- What an answer of the upstream changes of provider.go's pool, whatever it says: benches and the breaker.
use onegw.Prelude.{
  ℕ, suc, ◌*◌, ◌⊎◌, ◌≤◌, ◌≡◌, refl, sym, ◌∙◌, ap, String, Bool, true, false, not, ◌&&◌, List, [],
  ◌∷◌, map, arith, str_eq, if◌then◌else◌, ◌==◌, Bool-cases, Option-cases, if_both, subst, inl, inr,
}
use onegw.Prelude.Text.{Unicode}
use onegw.Pool.{second, Account, AccountState, AccountPool, update_slots, same_account}
use onegw.Pool.Runs.{run_active, end_run, end_run_for}
use onegw.Pool.Faults.{bench, ladder, strikes_of, rate_limited, cool, see_wall, wall_strike}
use onegw.Pool.Recency.{accts-end_run_for}
use onegw.Pool.Sync.{rate_limited-unknown}
use onegw.Errors.{ApiError, over_quota, region_locked, model_scoped, go_model_budget, model_wall}
use onegw.Upstream.{
  Provider, Answer, Readers, edge_fault, classified, charge, limit, asked, stamp, shared_limit_429,
  gated_403, lock_region, gate, lock_model,
}

-- What only a billing verdict changes of a slot.
abbrev pub mark : AccountState → Account × Bool × ℕ
mark s = (s.acct, s.invalidated, s.invalidated_at)

marks-update_slots :
    (f : AccountState → AccountState) (a : Account) (ss : List AccountState)
    → ((s : AccountState) → mark (f s) ≡ mark s)
    → map mark (update_slots f a ss) ≡ map mark ss
unfolding update_slots
marks-update_slots f a [] h = refl
marks-update_slots f a (s ∷ ss) h = elim (Bool-cases (same_account s.acct a)) [
  | inl e ↦ ground (arith, e, h s, marks-update_slots f a ss h)
  | inr e ↦ ground (arith, e, marks-update_slots f a ss h)
]

-- The second pool has the marks of the first, and its breaker.
abbrev pub Alike : AccountPool → AccountPool → Type 0
Alike p q =
    (map mark q.accts ≡ map mark p.accts)
    × (q.flap_strikes ≡ p.flap_strikes)
    × (q.flap_open_until ≡ p.flap_open_until)

Alike-trans : (p q r : AccountPool) → Alike p q → Alike q r → Alike p r
Alike-trans p q r (m, f, o) (m', f', o') = (m' ∙ m, f' ∙ f, o' ∙ o)

end_run_for-Alike : (p : AccountPool) (a : Account) → Alike p (end_run_for p a)
unfolding end_run_for end_run run_active
end_run_for-Alike p a = (ap (map mark) (accts-end_run_for p a), ground arith, ground arith)

mark-bench : (now d : ℕ) (s : AccountState) → mark (bench now d s) ≡ mark s
unfolding bench
mark-bench now d s = ground arith

-- A change of some slots that keeps their marks, and then perhaps the end of a run.
changed-Alike :
    (p : AccountPool) (f : AccountState → AccountState) (a : Account)
    → ((s : AccountState) → mark (f s) ≡ mark s)
    → let p' = record p { accts = update_slots f a p.accts } in
      Alike p (if run_active p' then end_run_for p' a else p')
changed-Alike p f a h =
    let p' = record p { accts = update_slots f a p.accts } in
    let first : Alike p p' = (marks-update_slots f a p.accts h, refl, refl) in
    if_both (Alike p) (run_active p') _ _
      (Alike-trans p p' (end_run_for p' a) first (end_run_for-Alike p' a)) first

cool-Alike : (p : AccountPool) (now : ℕ) (a : Account) (d : ℕ) → Alike p (cool p now a d)
unfolding cool
cool-Alike p now a d = changed-Alike p (bench now d) a (mark-bench now d)

rate_limited-Alike :
    (p : AccountPool) (now : ℕ) (a : Account) (d : ℕ) → Alike p (rate_limited p now a d)
unfolding rate_limited
rate_limited-Alike p now a d = elim (Option-cases (strikes_of p a)) [
  | inl e ↦ subst (Alike p) (sym (rate_limited-unknown p now a d e)) (refl, refl, refl)
  | inr (cur, e) ↦
      let f : AccountState → AccountState =
        λ s. bench now (if d == 0 then ladder p cur else d) (record s { strikes = suc cur }) in
      let p' = record p { accts = update_slots f a p.accts } in
      let same_as : (if run_active p' then end_run_for p' a else p') ≡ rate_limited p now a d =
        ground (arith, e) in
      subst (Alike p) same_as (
        changed-Alike p f a (λ s.
          mark-bench now (if d == 0 then ladder p cur else d) (record s { strikes = suc cur })))
]

wall_strike-Alike :
    (p : AccountPool) (now : ℕ) (model acct : String) (text : Bool)
    → Alike p ((wall_strike p now model acct text).0)
unfolding wall_strike see_wall
wall_strike-Alike p now model acct text = (ground arith, ground arith, ground arith)

abbrev pub Kept : Provider → Provider × ApiError → Type 0
Kept p (q, e) = Alike p.pool q.pool

-- What comes before the breaker keeps the marks and the breaker.
module _ (u : Unicode) (t : Readers) (p : Provider) (now : ℕ) (model : String) (acct : Account)
    (a : Answer) where
  charge-Kept : (e : ApiError) → Kept p (charge u t p now model acct a e)
  unfolding charge
  charge-Kept e =
      let seen = wall_strike p.pool now model acct.name false in
      let walled = wall_strike-Alike p.pool now model acct.name false in
      let again = wall_strike-Alike p.pool now model acct.name true in
      let wait = asked u t now a e in
      if_both (Kept p) (p.is_opencode && go_model_budget u e) _ _ (refl, refl, refl)
        (if_both (Kept p) (not (shared_limit_429 u e.status e.code e.message)) _ _
          (if_both (Kept p) (not (str_eq e.retry_after "")) _ _
            (rate_limited-Alike p.pool now acct wait)
            (if_both (Kept p) (not (seen.1)) _ _
              (Alike-trans p.pool (seen.0) (rate_limited (seen.0) now acct wait) walled
                (rate_limited-Alike (seen.0) now acct wait))
              walled))
          (if_both (Kept p) (model_wall u e) _ _
            (if_both (Kept p) ((wall_strike p.pool now model acct.name true).1) _ _ again again)
            (refl, refl, refl)))

  limit-Kept : (e : ApiError) → Kept p (limit u t p now model acct a e)
  unfolding limit
  limit-Kept e =
      if_both (Kept p) (over_quota u e) _ _ (charge-Kept (stamp u a e)) (refl, refl, refl)

  lock_region-Kept : (r : Provider × ApiError) → Kept p r → Kept p (lock_region u now acct r)
  unfolding lock_region
  lock_region-Kept (q, e) h =
      if_both (Kept p) (region_locked u e) _ _
        (Alike-trans p.pool q.pool (cool q.pool now acct (300 * second)) h
          (cool-Alike q.pool now acct (300 * second)))
        h

  gate-Kept : (r : Provider × ApiError) → Kept p r → Kept p (gate u now acct a r)
  unfolding gate
  gate-Kept (q, e) h =
      if_both (Kept p) (gated_403 u a.http_status a.body) _ _
        (Alike-trans p.pool q.pool (rate_limited q.pool now acct 0) h
          (rate_limited-Alike q.pool now acct 0))
        h

  lock_model-Kept : (r : Provider × ApiError) → Kept p r → Kept p (lock_model u now model r)
  unfolding lock_model
  lock_model-Kept (q, e) h = if_both (Kept p) (model_scoped u e) _ _ h h

  Struck : Provider × ApiError → Type 0
  Struck (q, e) =
      (map mark q.pool.accts ≡ map mark p.pool.accts)
      × (q.pool.flap_strikes
          ≡ (if edge_fault u e then suc p.pool.flap_strikes else p.pool.flap_strikes))
      × ((q.pool.flap_open_until ≡ p.pool.flap_open_until) ⊎ (500 ≤ e.status))

  -- The answer before the breaker.
  unfoldable pub judged : Provider × ApiError
  unfolding classified limit lock_region gate lock_model
  judged =
      lock_model u now model (
        gate u now acct a
          (lock_region u now acct (limit u t p now model acct a (classified u p a))))

  pub judged-Kept : Kept p judged
  unfolding judged
  judged-Kept = lock_model-Kept _ (gate-Kept _ (lock_region-Kept _ (limit-Kept (classified u p a))))

-- ===== src/Pool/Sync.antt =====
-- The slots of one weighted account in provider.go share every verdict.
use onegw.Prelude.{
  ℕ, suc, ◌≡◌, refl, sym, subst, ◌∙◌, ap, Bool, true, Option, none, some, List, [], ◌∷◌, arith,
  get_elem?, if◌then◌else◌, ◌==◌, Bool-cases, Option-cases, inl, inr, eq_iff,
}
use onegw.Pool.{Account, AccountState, AccountPool, same_account, update_slots}
use onegw.Pool.Faults.{
  bench, ladder, strikes_of, rate_limited, cool, heal, ok, refuse, invalidate, restore, revalidate,
}
use onegw.Pool.Slots.{get_elem?-update_slots}
use onegw.Pool.Recency.{accts-end_run_for, rate_limited-accts}

-- The verdicts of the upstream on an account, each with its instant.
pub data Verdict : Type 0 where
  limited : ℕ → Account → ℕ → Verdict
  exhausted : ℕ → Account → ℕ → Verdict
  succeeded : Account → ℕ → Verdict
  refused : ℕ → Account → Verdict
  restored : Account → Verdict

unfoldable pub judge : AccountPool → Verdict → AccountPool
judge p (limited now a d) = rate_limited p now a d
judge p (exhausted now a d) = cool p now a d
judge p (succeeded a since) = ok p a since
judge p (refused now a) = (invalidate p now a).0
judge p (restored a) = (revalidate p a).0

unfoldable pub judge_all : AccountPool → List Verdict → AccountPool
unfolding judge
judge_all p [] = p
judge_all p (v ∷ vs) = judge_all (judge p v) vs

-- What a slot remembers of the verdicts.
unfoldable pub fault : AccountState → ℕ × ℕ × ℕ × Bool × ℕ
fault s = (s.cooldown, s.benched_at, s.strikes, s.invalidated, s.invalidated_at)

same_account_trans :
    (a b c : Account) → same_account a b ≡ true → same_account a c ≡ same_account b c
unfolding same_account
same_account_trans a b c h = ground (arith, h, eq_iff a.name b.name, eq_iff a.api_key b.api_key)

-- Two slots of one account that remember the same.
unfoldable pub Twins : List AccountState → ℕ → ℕ → Type 0
Twins ss i j =
    (s : AccountState) × (t : AccountState) × (get_elem? ss i ≡ some s)
    × (get_elem? ss j ≡ some t)
    × (same_account s.acct t.acct ≡ true)
    × (fault s ≡ fault t)

update_slots-Twins :
    (f : AccountState → AccountState) (a : Account) (ss : List AccountState) (i j : ℕ)
    → ((s : AccountState) → (f s).acct ≡ s.acct)
    → ((s t : AccountState) → fault s ≡ fault t → fault (f s) ≡ fault (f t))
    → Twins ss i j
    → Twins (update_slots f a ss) i j
unfolding Twins
update_slots-Twins f a ss i j keeps respects (s, t, hi, hj, same, e) =
    let together = same_account_trans s.acct t.acct a same in
    let gi = get_elem?-update_slots f a ss i s hi in
    let gj = get_elem?-update_slots f a ss j t hj in
    elim (Bool-cases (same_account s.acct a)) [
      | inl c ↦ (
        f s,
        f t,
        gi ∙ ground (arith, c),
        gj ∙ ground (arith, c, together),
        rw (keeps s, keeps t) same,
        respects s t e,
      )
      | inr c ↦ (s, t, gi ∙ ground (arith, c), gj ∙ ground (arith, c, together), same, e)
    ]

bench-respects :
    (now d : ℕ) (s t : AccountState)
    → fault s ≡ fault t
    → fault (bench now d s) ≡ fault (bench now d t)
unfolding fault bench
bench-respects now d s t e = ground (arith, e)

heal-respects :
    (since : ℕ) (s t : AccountState)
    → fault s ≡ fault t
    → fault (heal since s) ≡ fault (heal since t)
unfolding fault heal
heal-respects since s t e = ground (arith, e)

restore-respects : (s t : AccountState) → fault s ≡ fault t → fault (restore s) ≡ fault (restore t)
unfolding fault restore
restore-respects s t e = ground (arith, e)

limit-respects :
    (now d n : ℕ) (s t : AccountState)
    → fault s ≡ fault t
    → fault (bench now d (record s { strikes = n }))
      ≡ fault (bench now d (record t { strikes = n }))
unfolding fault bench
limit-respects now d n s t e = ground (arith, e)

refuse-respects :
    (now : ℕ) (s t : AccountState) → fault s ≡ fault t → fault (refuse now s) ≡ fault (refuse now t)
unfolding fault refuse
refuse-respects now s t e = ground (arith, e)

bench-acct : (now d : ℕ) (s : AccountState) → (bench now d s).acct ≡ s.acct
unfolding bench
bench-acct now d s = ground arith

restore-acct : (s : AccountState) → (restore s).acct ≡ s.acct
unfolding restore
restore-acct s = ground arith

heal-acct : (since : ℕ) (s : AccountState) → (heal since s).acct ≡ s.acct
unfolding heal
heal-acct since s = refl

refuse-acct : (now : ℕ) (s : AccountState) → (refuse now s).acct ≡ s.acct
unfolding refuse
refuse-acct now s = refl

pub rate_limited-unknown :
    (p : AccountPool) (now : ℕ) (a : Account) (d : ℕ)
    → strikes_of p a ≡ none
    → rate_limited p now a d ≡ p
unfolding rate_limited
rate_limited-unknown p now a d h = ground (arith, h)

cool-accts :
    (p : AccountPool) (now : ℕ) (a : Account) (d : ℕ)
    → (cool p now a d).accts ≡ update_slots (bench now d) a p.accts
unfolding cool
cool-accts p now a d =
    ground (arith, accts-end_run_for (record p { accts = update_slots (bench now d) a p.accts }) a)

judge-Twins :
    (p : AccountPool) (v : Verdict) (i j : ℕ) → Twins p.accts i j → Twins (judge p v).accts i j
unfolding judge ok invalidate revalidate
judge-Twins p (limited now a d) i j h = elim (Option-cases (strikes_of p a)) [
  | inl e ↦ subst (λ q. Twins q.accts i j) (sym (rate_limited-unknown p now a d e)) h
  | inr (cur, e) ↦
      let wait = if d == 0 then ladder p cur else d in
      subst (λ ss. Twins ss i j) (sym (rate_limited-accts p now a d cur e))
        (update_slots-Twins (λ s. bench now wait (record s { strikes = suc cur })) a p.accts i j
          (λ s. bench-acct now wait (record s { strikes = suc cur }))
          (limit-respects now wait (suc cur)) h)
]
judge-Twins p (exhausted now a d) i j h =
    subst (λ ss. Twins ss i j) (sym (cool-accts p now a d))
      (update_slots-Twins (bench now d) a p.accts i j (bench-acct now d) (bench-respects now d) h)
judge-Twins p (succeeded a since) i j h =
    update_slots-Twins (heal since) a p.accts i j (heal-acct since) (heal-respects since) h
judge-Twins p (refused now a) i j h =
    update_slots-Twins (refuse now) a p.accts i j (refuse-acct now) (refuse-respects now) h
judge-Twins p (restored a) i j h =
    update_slots-Twins restore a p.accts i j restore-acct restore-respects h

judge_all-Twins :
    (p : AccountPool) (vs : List Verdict) (i j : ℕ)
    → Twins p.accts i j
    → Twins (judge_all p vs).accts i j
unfolding judge_all
judge_all-Twins p [] i j h = h
judge_all-Twins p (v ∷ vs) i j h = judge_all-Twins (judge p v) vs i j (judge-Twins p v i j h)

-- What the slot at a place remembers of the verdicts.
unfoldable pub fault_at : AccountPool → ℕ → Option (ℕ × ℕ × ℕ × Bool × ℕ)
fault_at p i = elim (get_elem? p.accts i) [ none ↦ none | some s ↦ some (fault s) ]

-- A weighted account cools, strikes, is refused and recovers as one: two of its slots that remember
-- the same do so after any sequence of verdicts, on this account and on others.
pub judge_all-together :
    (p : AccountPool) (vs : List Verdict) (i j : ℕ) (s t : AccountState)
    → get_elem? p.accts i ≡ some s
    → get_elem? p.accts j ≡ some t
    → same_account s.acct t.acct ≡ true
    → fault s ≡ fault t
    → fault_at (judge_all p vs) i ≡ fault_at (judge_all p vs) j
unfolding fault_at Twins
judge_all-together p vs i j s t hi hj same e =
    let (s', t', gi, gj, _, e') = judge_all-Twins p vs i j (s, t, hi, hj, same, e) in
    rw (fault_at, gi, gj) (ap some e')

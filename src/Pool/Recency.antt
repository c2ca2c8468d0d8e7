-- ===== src/Pool/Recency.antt =====
-- Which verdict on a slot outlives which, in provider.go.
use onegw.Prelude.{ℕ, suc, ◌≡◌, true, some, arith, get_elem?, if◌then◌else◌, ◌==◌}
use onegw.Pool.{Account, AccountState, AccountPool, same_account, update_slots}
use onegw.Pool.Runs.{end_run_for, end_run}
use onegw.Pool.Faults.{bench, ladder, strikes_of, rate_limited}
use onegw.Pool.Slots.{slot-found, slot-same}

pub accts-end_run_for : (p : AccountPool) (a : Account) → (end_run_for p a).accts ≡ p.accts
unfolding end_run_for end_run
accts-end_run_for p a = ground arith

pub policy-end_run_for : (p : AccountPool) (a : Account) → (end_run_for p a).policy ≡ p.policy
unfolding end_run_for end_run
policy-end_run_for p a = ground arith

pub rate_limited-accts :
    (p : AccountPool) (now : ℕ) (a : Account) (ra cur : ℕ)
    → strikes_of p a ≡ some cur
    → (rate_limited p now a ra).accts
      ≡ update_slots
          (λ s. bench now (if ra == 0 then ladder p cur else ra) (record s { strikes = suc cur }))
          a
          p.accts
unfolding rate_limited
rate_limited-accts p now a ra cur h = ground (
  arith,
  h,
  accts-end_run_for
      (record p {
        accts =
            update_slots
              (λ s.
                bench now (if ra == 0 then ladder p cur else ra) (record s { strikes = suc cur }))
              a p.accts;
      })
      a,
)

pub strikes_of-slot :
    (p : AccountPool) (a : Account) (i : ℕ) (s : AccountState)
    → get_elem? p.accts i ≡ some s
    → same_account s.acct a ≡ true
    → (cur : ℕ) × (strikes_of p a ≡ some cur)
unfolding strikes_of
strikes_of-slot p a i s h e =
    let (j, (k, _)) = slot-found a p.accts i s h e in
    let (t, (here, _)) = slot-same a p.accts j k in (t.strikes, ground (arith, k, here))

-- ===== src/Pool/Runs.antt =====
-- The account runs of provider.go: with a run length configured, one slot serves several requests in
-- a row. What is drawn for the length is an argument.
use onegw.Prelude.{ℕ, suc, ◌+◌, ◌-◌, ◌%◌, max, Bool, none, some, length, ltb, ◌==◌, if◌then◌else◌}
use onegw.Pool.{Account, AccountPool, slot}

unfoldable pub run_active : AccountPool → Bool
run_active p = ltb 0 p.policy.account_run_max

-- The length of the next run, of a function that draws a number below its argument.
unfoldable pub next_run : AccountPool → (ℕ → ℕ) → ℕ
next_run p pick_n =
    let lo = max 1 p.policy.account_run_min in
    let hi = max lo p.policy.account_run_max in if lo == hi then lo else lo + pick_n (hi - lo + 1)

unfoldable pub start_run : AccountPool → (ℕ → ℕ) → ℕ → AccountPool
start_run p pick_n chosen = record p {
  runs = some chosen;
  served = 1;
  run_max = next_run p pick_n;
  rr = suc chosen % length p.accts;
}

-- The rotation goes on after the slot of the run.
unfoldable pub end_run : AccountPool → AccountPool
end_run p = record p {
  runs = none;
  served = 0;
  run_max = 0;
  rr = elim p.runs [ none ↦ p.rr | some i ↦ suc i % length p.accts ];
}

-- The run of an account ends if it is at the first slot of the account.
unfoldable pub end_run_for : AccountPool → Account → AccountPool
end_run_for p a =
    if run_active p
    then (elim p.runs [
      | none ↦ p
      | some r ↦ elim (slot a p.accts) [ none ↦ p | some i ↦ if i == r then end_run p else p ]
    ])
    else p

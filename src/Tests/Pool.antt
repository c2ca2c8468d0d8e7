-- ===== src/Tests/Pool.antt =====
-- The theorems on the account pool, the benches and the memory budget at concrete inputs.
use onegw.Prelude.{
  ℕ, ◌+◌, ◌-◌, ◌*◌, ◌≤◌, ◌≡◌, refl, true, false, none, some, [], ◌∷◌, arith, if◌then◌else◌, ltb,
}
use onegw.Prelude.Assoc.{lookup, delete}
use onegw.Pool.{Account, RotationPolicy, TokenBucket, AccountPool, same_account, fresh_slot, parole}
use onegw.Pool.Next
use onegw.Pool.Runs
use onegw.Pool.Pins
use onegw.Pool.Pick
use onegw.Pool.Faults
use onegw.Pool.Spending
use onegw.Budget
use onegw.Pool.Faults.{available, invalidate, wall_strike, wall_window, flap_strike}
use onegw.Pool.Pins.{max_sticky_pins}
use onegw.Pool.Pick.{Draws, elem, at_slot, pick_slot}
use onegw.Pool.Next.{available_at, shared_ready, next}
use onegw.Pool.Chosen.{pick_slot-least}
use onegw.Pool.Granted.{next-available}
use onegw.Pool.Served.{next-serves}
use onegw.Pool.Parole.{answer_at, gates_at, invalidate-answer}
use onegw.Pool.Sync.{limited, exhausted, succeeded, judge_all, fault_at, judge_all-together}
use onegw.Pool.Bucket.{unit}
use onegw.Pool.Spending.{granted, granted-bounded}
use onegw.Bench.{Benches, model_benched, note_header_timeout}
use onegw.Bench.Verdicts.{header_timeouts-bench}
use onegw.Budget.{begin, tick, finish, step, run, start, pull}
use onegw.Budget.Steps.{Balanced, run-Balanced, tick-admits}

abbrev pub first_account : Account
first_account = record { name = "a"; api_key = "ka"; account_weight = 2; rpm = 0 }

abbrev pub second_account : Account
second_account = record { name = "b"; api_key = "kb"; account_weight = 1; rpm = 0 }

abbrev shipped : RotationPolicy
shipped = record {
  account_run_min = 0;
  account_run_max = 0;
  cool_base = 0;
  cool_cap = 0;
  flap_threshold = 0;
  flap_open = 0;
  bench_ttl = 0;
  billing_parole = 0;
}

-- A pool of three slots, two of which are of one account.
abbrev pub two_accounts : AccountPool
two_accounts = record {
  accts =
      fresh_slot first_account none
      ∷ fresh_slot first_account none
      ∷ fresh_slot second_account none
      ∷ [];
  buckets = [];
  rr = 0;
  ttl = 0;
  sticky = [];
  shared = none;
  flap_strikes = 0;
  flap_open_until = 0;
  policy = shipped;
  runs = none;
  served = 0;
  run_max = 0;
  selection = "";
  deck = [];
  deck_pos = 0;
  walls = [];
}

abbrev no_draws : Draws
no_draws = record {
  pick_n = λ n. 0;
  pick_again = λ n. 0;
  shuffled = ([], []);
  lower = λ p now a b. false;
}

next-available_example : (0 ≤ 5) × (available_at two_accounts 5 0 ≡ true)
unfolding next Runs.run_active Pins.pin_ttl Pins.is_conversation Next.next_pinned Next.pinned
    Next.scan Next.turns Next.open_slots available Faults.parole_open Faults.gates pick_slot
    Pick.by_strategy Pick.with_live Pick.min_live at_slot Pick.fastest shared_ready lookup delete
next-available_example = next-available two_accounts no_draws 5 "s:1" 0 refl

next-serves_example : (j : ℕ) × ((next two_accounts no_draws 5 "s:1").1 ≡ some j)
unfolding available Faults.parole_open Faults.gates shared_ready
next-serves_example = next-serves two_accounts no_draws 5 "s:1" 2 (omega arith) refl refl

pick_slot-least_example :
    (elem (pick_slot two_accounts no_draws 5 0 (1 ∷ 2 ∷ [])).1 (0 ∷ 1 ∷ 2 ∷ []) ≡ true)
    × (at_slot (λ s. s.live) two_accounts (pick_slot two_accounts no_draws 5 0 (1 ∷ 2 ∷ [])).1
        ≤ at_slot (λ s. s.live) two_accounts 2)
pick_slot-least_example = pick_slot-least two_accounts no_draws 5 0 (1 ∷ 2 ∷ []) 2 refl

invalidate-answer_example : answer_at (invalidate two_accounts 10 second_account).0 20 2 ≡ (
    if ltb 20 (10 + parole two_accounts)
    then some (false, 10 + parole two_accounts)
    else gates_at two_accounts 20 2)
unfolding same_account
invalidate-answer_example =
    invalidate-answer two_accounts second_account 2 (fresh_slot second_account none) 10 20 refl refl
      (omega arith)

judge_all-together_example :
    fault_at
      (judge_all two_accounts (
        limited 10 first_account 0
        ∷ exhausted 11 second_account 5
        ∷ succeeded first_account 9
        ∷ []))
      0
    ≡ fault_at
        (judge_all two_accounts (
          limited 10 first_account 0
          ∷ exhausted 11 second_account 5
          ∷ succeeded first_account 9
          ∷ []))
        1
unfolding same_account
judge_all-together_example =
    judge_all-together two_accounts
      (limited 10 first_account 0 ∷ exhausted 11 second_account 5 ∷ succeeded first_account 9 ∷ [])
      0 1 (fresh_slot first_account none) (fresh_slot first_account none) refl refl refl refl

abbrev per_minute : TokenBucket
per_minute = record { tokens = unit; refill = 12; last = 3 }

granted-bounded_example :
    (granted per_minute 3 (4 ∷ 6 ∷ [])).0 * unit
    ≤ unit + ((granted per_minute 3 (4 ∷ 6 ∷ [])).1 - 3) * 12
unfolding Spending.Ascending
granted-bounded_example =
    granted-bounded per_minute 3 (4 ∷ 6 ∷ []) (omega arith) refl
      (omega arith, (omega arith, omega arith))

abbrev one_bench : Benches
one_bench = record { bench_ttl = 0; model_bench = ("m", 50) ∷ []; ht_strikes = [] }

header_timeouts-bench_example :
    (model_benched
      (note_header_timeout (note_header_timeout (note_header_timeout one_bench 1 "n") 2 "n") 3 "n")
      4
      "n").1
    ≡ true
unfolding lookup
header_timeouts-bench_example =
    header_timeouts-bench one_bench "n" 1 2 3 4 refl (omega arith) (omega arith) (omega arith)

run-Balanced_example : Balanced (run (start 0) (begin 700 ∷ begin 5000 ∷ tick 0 ∷ []))
run-Balanced_example = run-Balanced 0 (begin 700 ∷ begin 5000 ∷ tick 0 ∷ [])

tick-admits_example :
    (step (run (start 0) (begin 700 ∷ begin 5000 ∷ finish 0 ∷ [])) (tick 0)).taken ≡ 1024 ∷ []
unfolding run start pull Budget.new_byte_budget Budget.release Budget.arrive Budget.attempt
    Budget.clamp Budget.finished step
tick-admits_example = tick-admits 0 (begin 700 ∷ begin 5000 ∷ finish 0 ∷ []) 0 1024 [] refl refl

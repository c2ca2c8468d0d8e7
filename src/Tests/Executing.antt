-- ===== src/Tests/Executing.antt =====
-- The theorems on the loops over attempts and targets at concrete inputs, and two runs that show where
-- they stop holding.
use onegw.Prelude.{◌≡◌, refl, true, false, none, [], ◌∷◌, arith, replicate}
use onegw.Execute
use onegw.Execute.{
  ApiError, Reply, answered, failed, Leg, attempts, fell, unfinished, skipped, live, success,
  crashed, after_failure, after_leg, execute,
}
use onegw.Execute.Attempts.{is_finished, gated_round, attempts-finished}
use onegw.Execute.Fallback.{leading_skipped, execute-first}

-- An error of the upstream that is worth another attempt, and the 403 of a gated account.
abbrev upstream_500 : ApiError
upstream_500 = record {
  status = 500;
  retryable = true;
  region_locked = false;
  fallbackable = false;
  stream_committed = false;
  corrupt_stream = false;
  junk_reasoning = false;
  no_same_target_retry = false;
  shared_concurrency = false;
  over_quota = false;
  model_scoped = false;
  reasoning_echo_required = false;
  context_window_exceeded = false;
}

abbrev gated_403 : ApiError
gated_403 = record upstream_500 { status = 403; fallbackable = true }

abbrev two_attempts : Leg
two_attempts = record { retry_forever = false; max_attempts = 2; accounts = 1 }

attempts-finished_example :
    is_finished (
      attempts two_attempts 0 0 upstream_500
        (failed upstream_500 false ∷ failed upstream_500 false ∷ []))
    ≡ true
unfolding gated_round Execute.is_gated
attempts-finished_example =
    attempts-finished two_attempts upstream_500
      (failed upstream_500 false ∷ failed upstream_500 false ∷ []) refl (refl, (refl, tt))
      (omega arith)

execute-first_example :
    1
    ≡ leading_skipped
        (skipped upstream_500 ∷ live two_attempts (answered ∷ []) ∷ live two_attempts [] ∷ [])
unfolding execute attempts after_leg Execute.goes_on
execute-first_example =
    execute-first 1 upstream_500
      (skipped upstream_500 ∷ live two_attempts (answered ∷ []) ∷ live two_attempts [] ∷ []) refl

-- Once an account was gated, the attempts of a target are not bounded any more.
run_after_gated :
    attempts two_attempts 0 0 upstream_500
      (failed gated_403 false ∷ replicate 9 (failed upstream_500 false))
    ≡ unfinished
unfolding attempts Execute.goes_on after_failure Execute.is_refusal Execute.ends_leg
    Execute.is_gated
run_after_gated = refl

-- A target of a combo that retries forever crashes at one gated answer more than it has accounts.
crash_after_gated :
    execute true true false 0 none upstream_500 (
      live
        (record two_attempts { retry_forever = true })
        (failed gated_403 false ∷ failed gated_403 false ∷ [])
      ∷ [])
    ≡ crashed
unfolding execute attempts after_leg Execute.goes_on after_failure Execute.is_refusal
    Execute.ends_leg Execute.is_gated
crash_after_gated = refl

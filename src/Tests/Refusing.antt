-- ===== src/Tests/Refusing.antt =====
-- An upstream that answers with errors, for a provider of two accounts.
use Prim.Native.Char.{code}
use onegw.Prelude.{◌≡◌, refl, true, false, ◌&&◌, ◌||◌, none, [], arith, ◌==◌, if◌then◌else◌}
use onegw.Prelude.Int.{pos}
use onegw.Prelude.Text.{Unicode, to_lower, map_runes}
use onegw.Execute.{Leg}
use onegw.Errors.{ApiError, over_quota, go_model_budget}
use onegw.Errors.Texts.{
  after, any_rune, any_held, somewhere, word_limit, model_limit, go_model_budget_text, within,
  reasoning_echo, context_window,
}
use onegw.Errors.Window.{
  rate_window, window_seconds, find_window, window_here, atoi, digits, int64, blanks, span1, span,
  optional_s, unit, spelt, decimal, decimal_from,
}
use onegw.Upstream.{
  Provider, Answer, Readers, Broken, blank_error, name_body, classified, rewrite_verify,
  rewrite_parse, auth_verify_failed, parse_rejected, refused,
}
use onegw.Upstream.Faults.{refused-channel}
use onegw.Tests.Pool.{first_account, two_accounts}

-- Of the capitals only M has another case.
abbrev letters : Unicode
letters = record { lower = λ c. c; fold = λ c. if code c == b'M' then "m" else c }

minute_window : rate_window letters "" "Maximum 8 requests within 1 minutes" ≡ pos 60000000000
unfolding rate_window find_window window_here atoi digits int64 after blanks span1 span optional_s
    unit spelt
minute_window = refl

-- The pattern ignores case and the names of the units do not: "Minutes" count as hours.
capital_minute_window :
    rate_window letters "" "Maximum 8 requests within 2 Minutes" ≡ pos 7200000000000
unfolding rate_window find_window window_here atoi digits int64 after blanks span1 span optional_s
    unit spelt
capital_minute_window = refl

seconds_rounded_up : window_seconds 120000000001 ≡ "121"
unfolding window_seconds int64 decimal decimal_from
seconds_rounded_up = refl

limit_named : model_limit letters "the request rate exceeds the current model TPM limit 340" ≡ false
unfolding model_limit somewhere word_limit after any_rune
limit_named = refl

limit_named_lower :
    model_limit letters "the request rate exceeds the current model tpm limit 340" ≡ true
unfolding model_limit somewhere word_limit after any_rune
limit_named_lower = refl

window_named : context_window letters "this model's maximum context is 10" ≡ true
unfolding context_window any_held somewhere after
window_named = refl

echo_named : reasoning_echo letters "the `reasoning_content` must be passed back" ≡ true
unfolding reasoning_echo somewhere within after
echo_named = refl

abbrev provider : Provider
provider = record {
  is_opencode = true;
  provider_name = "x";
  pool = two_accounts;
  benches = record { bench_ttl = 0; model_bench = []; ht_strikes = [] };
}

abbrev no_times : Readers
no_times = record { parse_duration = λ s. none; http_date = λ s. none }

abbrev answer : ApiError → Answer
answer e = record { http_status = e.status; decoded = e; page = none; body = "{}"; header = "" }

abbrev bad_gateway : Answer
bad_gateway = answer (record blank_error { status = 502; error_type = "server_error" })

abbrev verify_failed : Answer
verify_failed = answer (record blank_error { status = 401; message = "get auth/verify: timeout" })

verify_failed_found :
    (auth_verify_failed letters (name_body provider verify_failed)
      || parse_rejected (name_body provider verify_failed))
    ≡ true
unfolding name_body auth_verify_failed parse_rejected to_lower map_runes
verify_failed_found = refl

verify_failed_spares : over_quota letters (classified letters provider verify_failed) ≡ false
unfolding classified name_body rewrite_verify rewrite_parse auth_verify_failed parse_rejected
    over_quota to_lower map_runes
verify_failed_spares = refl

refused-channel_example :
    (refused letters no_times provider 9 "m" first_account verify_failed
      ≡ (provider, classified letters provider verify_failed))
    × ((classified letters provider verify_failed).status ≡ 502)
refused-channel_example =
    refused-channel letters no_times provider 9 "m" first_account verify_failed verify_failed_found
      verify_failed_spares (λ h. absurd (omega (arith, h)))

abbrev dead_line : Broken
dead_line = record { client_gone = false; timed_out = true; text = "dial tcp: i/o timeout" }

abbrev silent : Answer
silent = answer (record blank_error { status = 429; error_type = "x" })

abbrev leg : Leg
leg = record { retry_forever = false; max_attempts = 2; accounts = 2 }

abbrev after_one : Provider
after_one = (refused letters no_times provider 9 "m" first_account silent).0

abbrev crowded : Answer
crowded = answer (record blank_error { status = 429; message = "concurrency limit 1200" })

abbrev spent_budget : Answer
spent_budget = answer (record blank_error {
  status = 429;
  error_type = "server_error";
  message = "upstream request failed: rate limit exceeded.";
})

spent_budget_found :
    (provider.is_opencode && go_model_budget letters (classified letters provider spent_budget))
    ≡ true
unfolding classified name_body rewrite_verify rewrite_parse auth_verify_failed parse_rejected
    to_lower map_runes go_model_budget go_model_budget_text somewhere after
spent_budget_found = refl

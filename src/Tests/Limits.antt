-- ===== src/Tests/Limits.antt =====
-- Two keys at the limiter, and an allowlist.
use onegw.Prelude.{◌≤◌, ◌≡◌, inl, inr, refl, some, length, List, [], ◌∷◌, arith}
use onegw.Prelude.Text.{Unicode}
use onegw.RateLimit
use onegw.RateLimit.{
  Limiter, Bucket, sum_at, sum_step, retry_after, add, add_bucket, update_at, new_entry,
}
use onegw.RateLimit.Log.{recent}
use onegw.RateLimit.Window.{Models, sum_at-recent, add-Models}
use onegw.RateLimit.Entries.{Tracks, entry, new_entry-Tracks}
use onegw.Prelude.Assoc
use onegw.Prelude.Assoc.{lookup}
use onegw.Policy.{AuthKey, enforce_rate_limits, observe_usage}
use onegw.Policy.Limits.{Judged, counted, enforce_verdict}
use onegw.Policy.Serving.{Call, request, complete, serve, end_time, serve_within}

abbrev ascii : Unicode
ascii = record { lower = λ c. c; fold = λ c. c }

abbrev alice : AuthKey
alice = record { key = "a"; rpm = 2; tpm = 100; models = "gpt" ∷ "b/o3" ∷ [] }

abbrev bob : AuthKey
bob = record { key = "b"; rpm = 0; tpm = 0; models = [] }

abbrev calls : List Call
calls =
    request 100 alice
    ∷ request 101 bob
    ∷ request 110 alice
    ∷ complete 111 alice 40
    ∷ request 120 alice
    ∷ request 161 alice
    ∷ []

serve_within_example : recent (end_time 0 calls) (serve "a" [] [] calls).1 ≤ 2
serve_within_example = serve_within "a" 2 calls (omega arith) (
  omega arith,
  inr refl,
  (
    omega arith,
    inl refl,
    (omega arith, inr refl, (omega arith, (omega arith, inr refl, (omega arith, inr refl, tt)))),
  ),
)

three_let_through : (serve "a" [] [] calls).1 ≡ (161, 1) ∷ (110, 1) ∷ (100, 1) ∷ []
unfolding serve enforce_rate_limits RateLimit.allow_rpm RateLimit.tpm_blocked observe_usage
    RateLimit.observe_tpm RateLimit.get RateLimit.sum_at RateLimit.sum_step RateLimit.add
    RateLimit.add_bucket RateLimit.update_at RateLimit.retry_after Assoc.lookup Assoc.insert
three_let_through = refl

empty-Tracks : Tracks 0 [] [] (entry [] "a")
unfolding entry lookup
empty-Tracks = new_entry-Tracks

enforce_verdict_example :
    let (l', verdict) = enforce_rate_limits [] 100 (some alice) in
    Judged 100 alice [] [] verdict × Tracks 100 (counted 100 alice verdict []) [] (entry l' "a")
enforce_verdict_example = enforce_verdict 0 alice [] [] [] 100 empty-Tracks (omega arith)

abbrev busy : List Bucket
busy = add new_entry.req 100 1

busy-Models : Models 100 ((100, 1) ∷ []) 0 busy
busy-Models = add-Models 0 [] new_entry.req 100 new_entry-Tracks.req_models (omega arith) 1

busy-length : length busy ≡ 60
unfolding add update_at
busy-length = refl

sum_at-recent_example : (sum_at busy 130).1 ≡ recent 130 ((100, 1) ∷ [])
sum_at-recent_example =
    sum_at-recent 100 ((100, 1) ∷ []) busy 130 busy-Models (omega arith) busy-length

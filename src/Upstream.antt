-- ===== src/Upstream.antt =====
-- What `do` of internal/provider/provider.go makes of an upstream's answer: the account that is benched,
-- the model that is benched, the strike of the flap breaker and the error that is returned. The decoded
-- error and the hint of `htmlErrPage` are inputs, and so is one reading of the clock.
pub mod Blame
pub mod Walls
pub mod Shared
pub mod Faults
use Prim.Native.String.{◌++◌}
use onegw.Prelude.{
  ℕ, ◌+◌, ◌-◌, ◌*◌, ◌^◌, min, String, Bool, true, false, not, ◌&&◌, ◌||◌, Option, none, some, List,
  [], ◌∷◌, str_eq, ltb, leb, ◌==◌, if◌then◌else◌,
}
use onegw.Prelude.Int.{ℤ, pos, negsuc, pos_part}
use onegw.Prelude.Text.{Unicode, to_lower}
use onegw.Pool.{second, Account, AccountPool}
use onegw.Pool.Faults.{rate_limited, cool, ok, flap_strike, flap_heal, wall_strike}
use onegw.Bench.{Benches, bench_model, note_header_timeout}
use onegw.Errors.{
  ApiError, elem, cloudflare, over_quota, region_locked, model_scoped, shared_concurrency,
  go_model_budget, model_wall,
}
use onegw.Errors.Texts.{contains}
use onegw.Errors.Window.{rate_window, window_seconds, decimal}

-- The part of a provider that an answer changes.
pub record Provider : Type 0 where
  pub is_opencode : Bool
  pub provider_name : String
  pub pool : AccountPool
  pub benches : Benches

-- An answer with an error status: what was decoded of it, the hint where the body is an HTML page, the
-- body and the Retry-After header.
pub record Answer : Type 0 where
  pub http_status : ℕ
  pub decoded : ApiError
  pub page : Option String
  pub body : String
  pub header : String

-- What Go's `time` reads of a text: a duration, and the instant of an HTTP date.
pub record Readers : Type 0 where
  pub parse_duration : String → Option ℤ
  pub http_date : String → Option ℕ

abbrev pub wall_park_ttl : ℕ
wall_park_ttl = 6 * second

abbrev pub blank_error : ApiError
blank_error = record {
  status = 0;
  error_type = "";
  code = "";
  message = "";
  retry_after = "";
  fallbackable = false;
  no_same_target_retry = false;
  shared_wall = false;
  stream_committed = false;
  corrupt_stream = false;
  junk_reasoning = false;
}

abbrev or_zero : Option ℕ → ℕ
or_zero none = 0
or_zero (some n) = n

abbrev mapped {ℓ} : {A : Type ℓ} → (A → ℕ) → Option A → Option ℕ
mapped f none = none
mapped f (some a) = some (f a)

-- Nanoseconds, 0 for no hint. `time.Until` stops at the largest duration.
unfoldable pub cool_duration : Readers → ℕ → String → ℕ
cool_duration t now ra =
    let stated = or_zero (mapped pos_part (t.parse_duration (ra ++ "s"))) in
    let dated = or_zero (mapped (λ at. min (at - now) (2 ^ 63 - 1)) (t.http_date ra)) in
    if str_eq ra "" then 0 else if ltb 0 stated then stated else dated

unfoldable pub gated_403 : Unicode → ℕ → String → Bool
gated_403 u status body =
    (status == 403)
    && (contains (to_lower u body) "access_denied" || contains (to_lower u body) "deposit required")

unfoldable pub shared_limit_429 : Unicode → ℕ → String → String → Bool
shared_limit_429 u s c msg =
    shared_concurrency u (record blank_error { status = s; code = c; message = msg })

abbrev pub edge_fault_status : ℕ → Bool
edge_fault_status s = elem s (502 ∷ 503 ∷ 504 ∷ []) || elem s cloudflare

unfoldable pub edge_fault : Unicode → ApiError → Bool
edge_fault u e =
    if ltb e.status 500 || shared_concurrency u e || e.no_same_target_retry
    then false
    else if str_eq e.error_type "upstream_auth_verify_failed"
        || str_eq e.error_type "upstream_parse_rejected"
    then false
    else if str_eq e.error_type "upstream_html_error"
        || str_eq e.error_type "upstream_empty_body"
        || str_eq e.error_type "upstream_unreachable"
        || str_eq e.error_type "upstream_timeout"
    then true
    else edge_fault_status e.status

unfoldable pub auth_verify_failed : Unicode → ApiError → Bool
auth_verify_failed u e =
    let probe = to_lower u (e.error_type ++ " " ++ e.message) in
    (e.status == 401) && (contains probe "鉴权服务请求失败" || contains probe "auth/verify")

unfoldable pub parse_rejected : ApiError → Bool
parse_rejected e =
    (e.status == 400)
    && str_eq e.error_type "api_error"
    && contains e.message "Invalid request body"
    && contains e.message "request id:"

-- A page and an empty body are named for what they are.
unfoldable pub name_body : Provider → Answer → ApiError
unfolding decimal
name_body p a =
    let answered = "upstream " ++ p.provider_name ++ " returned HTTP " ++ decimal a.http_status in
    elim a.page [
      | some hint ↦ record a.decoded {
        error_type = "upstream_html_error";
        message = answered ++ " with an HTML error page" ++ hint;
      }
      | none ↦
          if str_eq a.body ""
            && str_eq a.decoded.message ""
            && str_eq a.decoded.error_type "upstream_error"
          then record a.decoded {
            error_type = "upstream_empty_body";
            message = answered ++ " with an empty error body";
          }
          else a.decoded
    ]

-- Faults of the upstream that look like faults of the key or of the request.
unfoldable pub rewrite_verify : Unicode → ApiError → ApiError
rewrite_verify u e =
    if auth_verify_failed u e
    then record e { status = 502; error_type = "upstream_auth_verify_failed" }
    else e

unfoldable pub rewrite_parse : ApiError → ApiError
rewrite_parse e =
    if parse_rejected e
    then record e { status = 502; error_type = "upstream_parse_rejected" }
    else e

-- The error as `do` classifies it.
unfoldable pub classified : Unicode → Provider → Answer → ApiError
unfolding name_body rewrite_verify rewrite_parse
classified u p a = rewrite_parse (rewrite_verify u (name_body p a))

unfoldable pub told : ℤ → ApiError → ApiError
told (pos n) e = if n == 0 then e else record e { retry_after = window_seconds n }
told (negsuc n) e = e

-- The Retry-After of the header, or else the window that the message names.
unfoldable pub stamp : Unicode → Answer → ApiError → ApiError
unfolding told
stamp u a e =
    if not (str_eq a.header "")
    then record e { retry_after = a.header }
    else told (rate_window u e.code e.message) e

abbrev park : Provider → ℕ → String → ℕ → Provider
park p now model ttl = record p { benches = bench_model p.benches now model ttl }

-- How long the header or the message asks to wait.
unfoldable pub asked : Unicode → Readers → ℕ → Answer → ApiError → ℕ
unfolding cool_duration
asked u t now a e =
    let d = cool_duration t now a.header in
    if d == 0 then pos_part (rate_window u e.code e.message) else d

-- The branch of an exhausted quota, whose error has its Retry-After.
unfoldable pub charge :
    Unicode → Readers → Provider → ℕ → String → Account → Answer → ApiError → Provider × ApiError
unfolding asked shared_limit_429
charge u t p now model acct a e =
    let (pool', proven) = wall_strike p.pool now model acct.name false in
    let (pool'', sustained) = wall_strike p.pool now model acct.name true in
    if p.is_opencode && go_model_budget u e
    then (park p now model (asked u t now a e), record e { shared_wall = true })
    else if not (shared_limit_429 u e.status e.code e.message)
    then (if not (str_eq e.retry_after "")
        then (record p { pool = rate_limited p.pool now acct (asked u t now a e) }, e)
        else if not proven
        then (record p { pool = rate_limited pool' now acct (asked u t now a e) }, e)
        else (
          park (record p { pool = pool' }) now model wall_park_ttl,
          record e { shared_wall = true },
        ))
    else if model_wall u e
    then (if sustained
        then (park (record p { pool = pool'' }) now model wall_park_ttl, e)
        else (record p { pool = pool'' }, e))
    else (p, e)

unfoldable pub limit :
    Unicode → Readers → Provider → ℕ → String → Account → Answer → ApiError → Provider × ApiError
unfolding stamp charge
limit u t p now model acct a e =
    if over_quota u e then charge u t p now model acct a (stamp u a e) else (p, e)

-- A credential that a policy refuses.
unfoldable pub lock_region : Unicode → ℕ → Account → Provider × ApiError → Provider × ApiError
lock_region u now acct (p, e) =
    if region_locked u e
    then (record p { pool = cool p.pool now acct (300 * second) }, e)
    else (p, e)

-- A credential that waits for a deposit.
unfoldable pub gate : Unicode → ℕ → Account → Answer → Provider × ApiError → Provider × ApiError
unfolding gated_403
gate u now acct a (p, e) =
    if gated_403 u a.http_status a.body
    then (record p { pool = rate_limited p.pool now acct 0 }, record e { fallbackable = true })
    else (p, e)

unfoldable pub lock_model : Unicode → ℕ → String → Provider × ApiError → Provider × ApiError
lock_model u now model (p, e) = if model_scoped u e then (park p now model 0, e) else (p, e)

unfoldable pub strike : Unicode → ℕ → Provider × ApiError → Provider × ApiError
unfolding edge_fault
strike u now (p, e) =
    if edge_fault u e then (record p { pool = flap_strike p.pool now }, e) else (p, e)

-- The branch of an error status.
unfoldable pub refused :
    Unicode → Readers → Provider → ℕ → String → Account → Answer → Provider × ApiError
unfolding classified limit lock_region gate lock_model strike
refused u t p now model acct a = strike u now (
    lock_model u now model (
      gate u now acct a (lock_region u now acct (limit u t p now model acct a (classified u p a)))))

-- A call that got no answer: whether the client has gone, whether an error of the chain says that it is
-- a timeout, and the text of the error.
pub record Broken : Type 0 where
  pub client_gone : Bool
  pub timed_out : Bool
  pub text : String

unfoldable pub transport_err : Broken → ApiError
transport_err b =
    let timeout = record blank_error {
      status = 504;
      error_type = "upstream_timeout";
      message = b.text;
    } in
    if b.client_gone
    then record blank_error { status = 499; error_type = "client_closed"; message = b.text }
    else if b.timed_out
    then (if contains b.text "timeout awaiting response headers"
        then record timeout { no_same_target_retry = true }
        else timeout)
    else record blank_error { status = 502; error_type = "upstream_unreachable"; message = b.text }

-- The branch of a failed transport.
unfoldable pub unreached : Unicode → Provider → ℕ → String → Broken → Provider × ApiError
unfolding transport_err edge_fault
unreached u p now model b =
    let e = transport_err b in
    if e.no_same_target_retry
    then (record p { benches = note_header_timeout p.benches now model }, e)
    else if edge_fault u e
    then (record p { pool = flap_strike p.pool now }, e)
    else (p, e)

-- A success, of a call that began at an instant.
unfoldable pub accepted : Provider → Account → ℕ → Provider
accepted p acct since = record p { pool = flap_heal (ok p.pool acct since) }

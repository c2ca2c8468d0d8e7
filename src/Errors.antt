-- ===== src/Errors.antt =====
-- `APIError` of internal/types/types.go and the classes that its methods tell apart. Texts holds what
-- the methods search for in a message, Window the request window that a message names.
pub mod Texts
pub mod Window
pub mod Classes
use Prim.Native.String.{◌++◌}
use onegw.Prelude.{
  ℕ, ◌≡◌, String, Bool, true, false, not, ◌&&◌, ◌||◌, List, [], ◌∷◌, str_eq, ltb, leb, ◌==◌,
  if◌then◌else◌,
}
use onegw.Prelude.Text.{Unicode, to_lower, equal_fold}
use Texts.{contains, any_in}
use Texts.{model_limit, go_model_budget_text, reasoning_echo, context_window}

pub record ApiError : Type 0 where
  pub status : ℕ
  pub error_type : String
  pub code : String
  pub message : String
  pub retry_after : String
  pub fallbackable : Bool
  pub no_same_target_retry : Bool
  pub shared_wall : Bool
  pub stream_committed : Bool
  pub corrupt_stream : Bool
  pub junk_reasoning : Bool

abbrev pub elem : ℕ → List ℕ → Bool
elem n [] = false
elem n (k ∷ ks) = let rest = elem n ks in (n == k) || rest

-- The Cloudflare family.
abbrev pub cloudflare : List ℕ
cloudflare = 520 ∷ 521 ∷ 522 ∷ 523 ∷ 524 ∷ 525 ∷ 526 ∷ 527 ∷ []

unfoldable pub retryable : ApiError → Bool
retryable e =
    elem e.status (408 ∷ 409 ∷ 429 ∷ 500 ∷ 502 ∷ 503 ∷ 504 ∷ 529 ∷ []) || elem e.status cloudflare

module _ (u : Unicode) where
  unfoldable pub over_quota : ApiError → Bool
  over_quota e =
      (e.status == 429)
      || (e.status == 529)
      || str_eq (to_lower u e.code) "rate_limit_exceeded"
      || str_eq (to_lower u e.code) "quota_exceeded"
      || contains (to_lower u e.error_type) "rate_limit"

  unfoldable pub payment_required : ApiError → Bool
  unfolding any_in
  payment_required e =
      (e.status == 402)
      || (not (str_eq e.error_type "") && equal_fold u e.error_type "insufficient_quota")
      || (not (str_eq e.code "") && equal_fold u e.code "insufficient_quota")
      || any_in (to_lower u (e.code ++ " " ++ e.error_type ++ " " ++ e.message))
          ("insufficient balance" ∷ "insufficient credits" ∷ [])

  unfoldable pub credit_wall : ApiError → Bool
  unfolding any_in
  credit_wall e =
      (e.status == 402)
      && any_in (to_lower u (e.code ++ " " ++ e.error_type ++ " " ++ e.message)) (
          "insufficient_credits" ∷ "insufficient credits" ∷ "credits balance" ∷ "credit balance"
          ∷ [])

  unfoldable pub region_locked : ApiError → Bool
  region_locked e = (e.status == 403) && contains (to_lower u e.error_type) "region"

  unfoldable pub model_scoped : ApiError → Bool
  unfolding any_in
  model_scoped e =
      let probe = to_lower u (e.error_type ++ " " ++ e.code ++ " " ++ e.message) in
      ((e.status == 403) && any_in probe ("model_access" ∷ "model access" ∷ []))
      || ((e.status == 404) && any_in probe ("model_not_found" ∷ "model not found" ∷ []))

  unfoldable pub reasoning_echo_required : ApiError → Bool
  unfolding reasoning_echo
  reasoning_echo_required e = (e.status == 400) && reasoning_echo u e.message

  unfoldable pub context_window_exceeded : ApiError → Bool
  unfolding context_window
  context_window_exceeded e =
      (e.status == 400) && context_window u (e.error_type ++ " " ++ e.code ++ " " ++ e.message)

  -- What the wording of a 429 says of a wall that all accounts share.
  unfoldable pub shared_wording : ApiError → Bool
  unfolding any_in model_limit
  shared_wording e =
      let probe = to_lower u (e.code ++ " " ++ e.message ++ " " ++ e.error_type) in
      any_in probe ("freeusagelimiterror" ∷ "free usage limit" ∷ [])
      || contains probe "endpoint is unavailable"
      || (contains probe "server_error" && contains probe "unavailable")
      || contains probe "concurrency limit"
      || model_limit u (e.code ++ " " ++ e.message)
      || any_in probe (
          "backendadmissionrejected" ∷ "cold-request admission rejected"
          ∷ "upstream_provider_shared_pool" ∷ "temporarily rate-limited upstream" ∷ [])

  unfoldable pub shared_concurrency : ApiError → Bool
  unfolding shared_wording any_in
  shared_concurrency e =
      if e.shared_wall
      then true
      else if e.status == 503
      then any_in (to_lower u (e.code ++ " " ++ e.message))
          ("cache-only admission" ∷ "gateway overloaded" ∷ "no available channel" ∷ [])
      else if e.status == 429
      then shared_wording e
      else false

  unfoldable pub go_model_budget : ApiError → Bool
  unfolding go_model_budget_text
  go_model_budget e =
      (e.status == 429)
      && contains (to_lower u e.error_type) "server_error"
      && go_model_budget_text u e.message

  unfoldable pub model_wall : ApiError → Bool
  unfolding any_in model_limit
  model_wall e =
      let probe = to_lower u (e.code ++ " " ++ e.message) in
      if any_in probe ("admission" ∷ "gateway overloaded" ∷ [])
      then false
      else contains probe "concurrency limit" || model_limit u (e.code ++ " " ++ e.message)

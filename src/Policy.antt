-- ===== src/Policy.antt =====
-- internal/server/policy.go over internal/ratelimit: the limits and the allowlist of a client key
-- (config.AuthKey). A nil key is `none`, and a limit that is not positive is 0.
pub mod Limits
pub mod Serving
pub mod Allowlist
use onegw.Prelude.{
  ℕ, String, Bool, true, false, ◌||◌, ◌≡◌, Option, none, some, List, [], ◌∷◌, ◌==◌, str_eq,
  if◌then◌else◌,
}
use Prim.Native.String.{◌++◌}
use onegw.Prelude.Text.{Unicode, equal_fold}
use onegw.RateLimit.{Limiter, allow_rpm, tpm_blocked, observe_tpm}

pub record AuthKey : Type 0 where
  pub key : String
  pub rpm : ℕ
  pub tpm : ℕ
  pub models : List String

-- The answer of `enforceRateLimits`: pass, or a 429 with its Retry-After.
pub data Verdict : Type 0 where
  pass : Verdict
  too_many_tokens : ℕ → Verdict
  too_many_requests : ℕ → Verdict

check_rpm : Limiter → ℕ → AuthKey → Limiter × Verdict
check_rpm l now ak =
    if ak.rpm == 0
    then (l, pass)
    else (let (l', allowed, retry) = allow_rpm l now ak.key ak.rpm in
        if allowed then (l', pass) else (l', too_many_requests retry))

-- The token check stands first, so that a request it blocks takes no request slot.
unfoldable pub enforce_rate_limits : Limiter → ℕ → Option AuthKey → Limiter × Verdict
unfolding check_rpm
enforce_rate_limits l now none = (l, pass)
enforce_rate_limits l now (some ak) =
    if ak.tpm == 0
    then check_rpm l now ak
    else (let (l', blocked, retry) = tpm_blocked l now ak.key ak.tpm in
        if blocked then (l', too_many_tokens retry) else check_rpm l' now ak)

-- The method `observeTPM` of the server.
unfoldable pub observe_usage : Limiter → ℕ → Option AuthKey → ℕ → Limiter
observe_usage l now none tokens = l
observe_usage l now (some ak) tokens =
    if (ak.tpm == 0) || (tokens == 0) || str_eq ak.key ""
    then l
    else observe_tpm l now ak.key ak.tpm tokens

-- A leg of a route (router.Target).
pub record Target : Type 0 where
  pub provider : String
  pub model : String

abbrev pub target_name : Target → String
target_name t = t.provider ++ "/" ++ t.model

-- The inner loop of `modelAllowed`: an entry against the targets of the resolution.
unfoldable pub matches_target : Unicode → String → List Target → Bool
matches_target u e [] = false
matches_target u e (t ∷ ts) =
    equal_fold u e (target_name t) || equal_fold u e t.model || matches_target u e ts

-- The outer loop. A resolution that is nil has no targets.
unfoldable pub matches_entry : Unicode → List String → String → Option (List Target) → Bool
matches_entry u [] model res = false
matches_entry u (e ∷ es) model res =
    equal_fold u e model
    || (elim res [ none ↦ false | some ts ↦ matches_target u e ts ])
    || matches_entry u es model res

unfoldable pub model_allowed : Unicode → Option AuthKey → String → Option (List Target) → Bool
model_allowed u none model res = true
model_allowed u (some ak) model res = elim ak.models [
  | [] ↦ true
  | e ∷ es ↦ matches_entry u ak.models model res
]

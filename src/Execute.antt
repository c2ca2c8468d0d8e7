-- ===== src/Execute.antt =====
-- The loops of `Execute` in internal/router/router.go: the attempts on one target, and the fall through
-- to the next. What the pool and the upstream answer, one answer for each round of the loop, is the
-- input; the methods of an error are its fields.
pub mod Attempts
pub mod Fallback
use onegw.Prelude.{
  ℕ, zero, suc, max, min, ◌+◌, ◌*◌, Bool, true, false, not, ◌&&◌, ◌||◌, Option, none, some, List,
  [], ◌∷◌, ltb, leb, ◌==◌, if◌then◌else◌,
}

pub record ApiError : Type 0 where
  pub status : ℕ
  pub retryable : Bool
  pub region_locked : Bool
  pub fallbackable : Bool
  pub stream_committed : Bool
  pub corrupt_stream : Bool
  pub junk_reasoning : Bool
  pub no_same_target_retry : Bool
  pub shared_concurrency : Bool
  pub over_quota : Bool
  pub model_scoped : Bool
  pub reasoning_echo_required : Bool
  pub context_window_exceeded : Bool

-- Milliseconds.
unfoldable pub backoff : ℕ → ApiError → ℕ
backoff attempt e =
    suc attempt * (if e.shared_concurrency then 1000 else if e.over_quota then 250 else 100)

unfoldable pub retry_wait : ℕ → ApiError → ℕ
unfolding backoff
retry_wait attempt e = min (backoff attempt e) 5000

-- A round: the pool has no account and answers with its error, the call succeeds, or it fails. The
-- flag says that the client has gone by the end of the wait that follows.
pub data Reply : Type 0 where
  pool_empty : ApiError → Bool → Reply
  answered : Reply
  failed : ApiError → Bool → Reply

-- How a target ends: it serves, it falls to the next target with an error and whether that was a
-- refusal, it ends the request with an error, the client goes, or the answers are used up.
pub data Outcome : Type 0 where
  served : Outcome
  fell : ApiError → Bool → Outcome
  returned : ApiError → Outcome
  client_closed : Outcome
  unfinished : Outcome

pub record Leg : Type 0 where
  pub retry_forever : Bool
  pub max_attempts : ℕ
  pub accounts : ℕ

unfoldable pub goes_on : Leg → ℕ → ℕ → Bool
goes_on l attempt benched = l.retry_forever || ltb attempt (max 1 l.max_attempts) || ltb 0 benched

unfoldable pub is_refusal : ApiError → Bool
is_refusal e = not (e.retryable || e.region_locked || e.fallbackable)

-- A refusal that another target may not share.
unfoldable pub ends_leg : ApiError → Bool
ends_leg e =
    ((e.status == 404) && e.model_scoped) || e.reasoning_echo_required || e.context_window_exceeded

unfoldable pub is_gated : ApiError → Bool
is_gated e = e.fallbackable && (e.status == 403)

-- What follows a failed call, of what follows with one more attempt and with one more account benched.
unfoldable pub after_failure : Leg → ℕ → ApiError → Bool → Outcome → Outcome → Outcome
unfolding is_refusal ends_leg is_gated
after_failure l benched e gone again rotated =
    if e.stream_committed
    then returned e
    else if (e.corrupt_stream || e.junk_reasoning) && not l.retry_forever
    then fell e false
    else if is_refusal e
    then (if ends_leg e then fell e true else returned e)
    else if is_gated e
    then (if ltb l.accounts (suc benched)
        then fell e false
        else if gone
        then client_closed
        else rotated)
    else if l.retry_forever
    then (if gone then client_closed else again)
    else if e.no_same_target_retry || e.shared_concurrency
    then fell e false
    else if e.region_locked || e.fallbackable
    then again
    else if gone
    then client_closed
    else again

-- The loop of attempts on a target: the attempts and benched accounts so far, and the last error.
unfoldable pub attempts : Leg → ℕ → ℕ → ApiError → List Reply → Outcome
unfolding goes_on after_failure
attempts l attempt benched last [] =
    if goes_on l attempt benched then unfinished else fell last false
attempts l attempt benched last (pool_empty e gone ∷ replies) =
    let waited = attempts l attempt benched last replies in
    if goes_on l attempt benched
    then (if l.retry_forever then (if gone then client_closed else waited) else fell e false)
    else fell last false
attempts l attempt benched last (answered ∷ replies) =
    if goes_on l attempt benched then served else fell last false
attempts l attempt benched last (failed e gone ∷ replies) =
    let again = attempts l (suc attempt) benched e replies in
    let rotated = attempts l attempt (suc benched) e replies in
    if goes_on l attempt benched
    then after_failure l benched e gone again rotated
    else fell last false

-- A target as the loop over the targets finds it: unknown or disabled or benched, each with its error,
-- or live with the answers to come. For a target that retries forever and is benched the wait comes
-- first, and the flag says that the client goes during it.
pub data TargetState : Type 0 where
  skipped : ApiError → TargetState
  benched_model : ApiError → TargetState
  live : Leg → List Reply → TargetState
  parked : Bool → Leg → List Reply → TargetState

-- How a request ends; a success tells the place of its target.
pub data Ending : Type 0 where
  success : ℕ → Ending
  failure : Option ApiError → Ending
  closed : Ending
  crashed : Ending
  pending : Ending

-- What follows a target that was tried, of what follows when the next one is tried.
unfoldable pub after_leg : Bool → Leg → ℕ → Outcome → (ApiError → Ending) → Ending
after_leg combo l place served rest = success place
after_leg combo l place (fell e refused) rest =
    if l.retry_forever && combo && not refused then crashed else rest e
after_leg combo l place (returned e) rest = failure (some e)
after_leg combo l place client_closed rest = closed
after_leg combo l place unfinished rest = pending

-- The loop over the targets: whether the route is a combo and may fall back, whether a live target was
-- tried, the place of the next one and the last error.
unfoldable pub execute :
    Bool → Bool → Bool → ℕ → Option ApiError → ApiError → List TargetState → Ending
unfolding attempts after_leg
execute combo fallback tried place last seed [] = failure last
execute combo fallback tried place last seed (skipped e ∷ targets) =
    let rest = execute combo fallback tried (suc place) (some e) seed targets in
    if tried && combo && not fallback then failure last else rest
execute combo fallback tried place last seed (benched_model e ∷ targets) =
    let rest = execute combo fallback tried (suc place) (some e) seed targets in
    if tried && combo && not fallback
    then failure last
    else if combo && not fallback
    then failure (some e)
    else rest
execute combo fallback tried place last seed (live l replies ∷ targets) =
    if tried && combo && not fallback
    then failure last
    else after_leg combo l place (attempts l 0 0 seed replies)
        (λ e. execute combo fallback true (suc place) (some e) seed targets)
execute combo fallback tried place last seed (parked gone l replies ∷ targets) =
    if tried && combo && not fallback
    then failure last
    else if gone
    then closed
    else after_leg combo l place (attempts l 0 0 seed replies)
        (λ e. execute combo fallback true (suc place) (some e) seed targets)

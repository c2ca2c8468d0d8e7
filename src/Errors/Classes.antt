-- ===== src/Errors/Classes.antt =====
-- The error of types.go as the loop of `Execute` reads it, through its methods.
use onegw.Prelude.{◌≡◌, refl, Bool, true, false, arith, ℕ}
use onegw.Prelude.Text.{Unicode}
use onegw.Errors.{
  ApiError, retryable, over_quota, region_locked, model_scoped, shared_concurrency,
  reasoning_echo_required, context_window_exceeded,
}
use onegw.Execute.{
  Leg, Outcome, fell, after_failure, is_refusal, ends_leg, is_gated, ApiError as ExecuteError,
}

unfoldable pub view : Unicode → ApiError → ExecuteError
view u e = record {
  status = e.status;
  retryable = retryable e;
  region_locked = region_locked u e;
  fallbackable = e.fallbackable;
  stream_committed = e.stream_committed;
  corrupt_stream = e.corrupt_stream;
  junk_reasoning = e.junk_reasoning;
  no_same_target_retry = e.no_same_target_retry;
  shared_concurrency = shared_concurrency u e;
  over_quota = over_quota u e;
  model_scoped = model_scoped u e;
  reasoning_echo_required = reasoning_echo_required u e;
  context_window_exceeded = context_window_exceeded u e;
}

shared_falls :
    (e : ExecuteError) (l : Leg) (benched : ℕ) (gone : Bool) (again rotated : Outcome)
    → e.status ≡ 429
    → e.retryable ≡ true
    → e.shared_concurrency ≡ true
    → e.stream_committed ≡ false
    → l.retry_forever ≡ false
    → after_failure l benched e gone again rotated ≡ fell e false
unfolding after_failure is_refusal ends_leg is_gated
shared_falls e l benched gone again rotated s t w c r = ground (arith, s, t, w, c, r)

retryable_429 : (e : ApiError) → e.status ≡ 429 → retryable e ≡ true
unfolding retryable
retryable_429 e s = rw s refl

pub shared_by_mark :
    (u : Unicode) (e : ApiError) → e.shared_wall ≡ true → shared_concurrency u e ≡ true
unfolding shared_concurrency
shared_by_mark u e w = rw w refl

-- A 429 that is known to be shared sends `Execute` to the next target, with no further attempt on this one.
pub wall-falls :
    (u : Unicode) (e : ApiError) (l : Leg) (benched : ℕ) (gone : Bool) (again rotated : Outcome)
    → e.status ≡ 429
    → e.shared_wall ≡ true
    → e.stream_committed ≡ false
    → l.retry_forever ≡ false
    → after_failure l benched (view u e) gone again rotated ≡ fell (view u e) false
unfolding view
wall-falls u e l benched gone again rotated s w c r =
    shared_falls (view u e) l benched gone again rotated s (retryable_429 e s)
      (shared_by_mark u e w) c r

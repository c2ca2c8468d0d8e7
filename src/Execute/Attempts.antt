-- ===== src/Execute/Attempts.antt =====
-- How often `Execute` of router.go calls one target.
use onegw.Prelude.{ℕ, suc, max, ◌+◌, ◌≤◌, ◌≡◌, Bool, true, false, List, [], ◌∷◌, arith, length, All}
use onegw.Execute.{
  ApiError, Reply, pool_empty, answered, failed, Outcome, served, fell, returned, client_closed,
  unfinished, Leg, goes_on, is_gated, after_failure, attempts,
}

-- Whether a target has come to an end.
unfoldable pub is_finished : Outcome → Bool
is_finished served = true
is_finished (fell e refused) = true
is_finished (returned e) = true
is_finished client_closed = true
is_finished unfinished = false

-- Whether a round is one of a gated account, a 403 that another account may pass.
unfoldable pub gated_round : Reply → Bool
unfolding is_gated
gated_round (pool_empty e gone) = false
gated_round answered = false
gated_round (failed e gone) = is_gated e

after_failure-finished :
    (l : Leg) (benched : ℕ) (e : ApiError) (gone : Bool) (again rotated : Outcome)
    → is_gated e ≡ false
    → is_finished again ≡ true
    → is_finished (after_failure l benched e gone again rotated) ≡ true
unfolding after_failure is_finished
after_failure-finished l benched e gone again rotated h k = ground (arith, h, k)

finished_from :
    (l : Leg) (attempt : ℕ) (last : ApiError) (replies : List Reply)
    → l.retry_forever ≡ false
    → All (λ r. gated_round r ≡ false) replies
    → max 1 l.max_attempts ≤ attempt + length replies
    → is_finished (attempts l attempt 0 last replies) ≡ true
unfolding attempts is_finished goes_on gated_round
finished_from l attempt last [] f a h = ground (arith, f, h)
finished_from l attempt last (pool_empty e gone ∷ replies) f a h = ground (arith, f)
finished_from l attempt last (answered ∷ replies) f a h = ground (arith, f)
finished_from l attempt last (failed e gone ∷ replies) f a h =
    let rest = finished_from l (suc attempt) e replies f a.1 (omega (arith, h)) in
    let step =
      after_failure-finished l 0 e gone (attempts l (suc attempt) 0 e replies)
        (attempts l attempt (suc 0) e replies) a.0 rest in
    ground (arith, step)

-- A target that does not retry forever has come to an end after at most as many rounds as its attempts,
-- at least one, whatever the upstream answers, if no round is that of a gated account.
pub attempts-finished :
    (l : Leg) (last : ApiError) (replies : List Reply)
    → l.retry_forever ≡ false
    → All (λ r. gated_round r ≡ false) replies
    → max 1 l.max_attempts ≤ length replies
    → is_finished (attempts l 0 0 last replies) ≡ true
attempts-finished l last replies f a h = finished_from l 0 last replies f a (omega (arith, h))

-- ===== src/RateLimit/Retry.antt =====
-- The seconds that ratelimit.go tells a refused client to wait: the first of them at which an event
-- leaves the window.
use onegw.Prelude.{
  ℕ, suc, ◌+◌, ◌≤◌, ◌<◌, ◌≡◌, refl, sym, ◌⊎◌, List, [], ◌∷◌, arith, length, ap, ◌∙◌, inl, All,
}
use onegw.RateLimit.{Bucket, sum_step, sum_from, sum_at, retry_after, window_seconds}
use onegw.RateLimit.Log.{Log, recent, shares, shares-recent}
use onegw.RateLimit.Window.{Models, live_sum, Models-shares}

Models-seen :
    (t : ℕ) (log : Log) (i : ℕ) (w : List Bucket) (now : ℕ)
    → Models t log i w
    → t ≤ now
    → All (λ b. b.sec ≤ now) w
Models-seen t log i [] now m h = tt
Models-seen t log i (b ∷ w) now m h =
    (omega (arith, m.0.seen), Models-seen t log (suc i) w now m.1 h)

live_sum_antitone : (now n : ℕ) (w : List Bucket) → now ≤ n → live_sum n w ≤ live_sum now w
unfolding live_sum
live_sum_antitone now n [] h = omega arith
live_sum_antitone now n (b ∷ w) h = ground (arith, live_sum_antitone now n w h)

live_sum_ended :
    (now n : ℕ) (w : List Bucket)
    → All (λ b. b.sec ≤ now) w
    → now + window_seconds ≤ n
    → live_sum n w ≡ 0
unfolding live_sum
live_sum_ended now n [] a h = refl
live_sum_ended now n (b ∷ w) a h = ground (arith, live_sum_ended now n w a.1 h)

-- The second found is the one given, or that of a bucket that counts and leaves the window.
oldest-leaves :
    (now : ℕ) (w : List Bucket) (sum oldest : ℕ)
    → All (λ b. b.sec ≤ now) w
    → let o = (sum_from now w sum oldest).2 in
      (o ≡ oldest)
      ⊎ ((o ≤ now)
          × (now < o + window_seconds)
          × (live_sum (o + window_seconds) w < live_sum now w))
unfolding sum_from sum_step live_sum
oldest-leaves now [] sum oldest a = inl refl
oldest-leaves now (b ∷ w) sum oldest a =
    let r = sum_step now b sum oldest in
    let o = (sum_from now w r.1 r.2).2 in
    ground (arith, oldest-leaves now w r.1 r.2 a.1, live_sum_antitone now (o + window_seconds) w)

-- No bucket that counts is older than the second found.
oldest-first :
    (now : ℕ) (w : List Bucket) (sum oldest n : ℕ)
    → window_seconds ≤ now
    → now ≤ n
    → n < (sum_from now w sum oldest).2 + window_seconds
    → ((oldest ≡ 0) ⊎ ((sum_from now w sum oldest).2 ≤ oldest)) × (live_sum n w ≡ live_sum now w)
unfolding sum_from sum_step live_sum
oldest-first now [] sum oldest n k h lt = ground arith
oldest-first now (b ∷ w) sum oldest n k h lt =
    let r = sum_step now b sum oldest in ground (arith, oldest-first now w r.1 r.2 n k h lt)

-- Past the first minute no second is found only if nothing counts.
oldest-zero :
    (now : ℕ) (w : List Bucket) (sum oldest : ℕ)
    → window_seconds ≤ now
    → (sum_from now w sum oldest).2 ≡ 0
    → (oldest ≡ 0) × (live_sum now w ≡ 0)
unfolding sum_from sum_step live_sum
oldest-zero now [] sum oldest k z = (z, refl)
oldest-zero now (b ∷ w) sum oldest k z =
    let r = sum_step now b sum oldest in ground (arith, oldest-zero now w r.1 r.2 k z)

module _ (t : ℕ) (log : Log) (w : List Bucket) (now : ℕ) (m : Models t log 0 w) (h : t ≤ now)
    (e : length w ≡ window_seconds) where
  recent-live_sum : (n : ℕ) → now ≤ n → recent n log ≡ live_sum n w
  recent-live_sum n k = sym (
      Models-shares t log 0 w n m (omega arith)
      ∙ (ap (λ c. shares n 0 c log) e ∙ shares-recent n log))

  -- When something counts, the wait is between one second and a minute, and less counts after it.
  pub retry_bounds :
      0 < recent now log
      → let r = retry_after (sum_at w now).2 now in
        (1 ≤ r) × (r ≤ window_seconds) × (recent (now + r) log < recent now log)
  unfolding sum_at retry_after
  retry_bounds some =
      let o = (sum_from now w 0 0).2 in
      ground (
        arith,
        oldest-leaves now w 0 0 (Models-seen t log 0 w now m h),
        recent-live_sum now (omega arith),
        recent-live_sum (now + window_seconds) (omega arith),
        live_sum_ended now (now + window_seconds) w (Models-seen t log 0 w now m h) (omega arith),
        λ (p : now ≤ o + window_seconds). recent-live_sum (o + window_seconds) p,
      )

  -- From the sixtieth second on, for a window of sixty buckets that models the log and in which
  -- something counts, the wait that `AllowRPM` reports is not too long: until it ends, exactly the
  -- events that count now still count.
  retry_first :
      window_seconds ≤ now
      → 0 < recent now log
      → (n : ℕ) → now ≤ n
      → n < now + retry_after (sum_at w now).2 now
      → recent n log ≡ recent now log
  unfolding sum_at retry_after
  retry_first k some n j lt = ground (
    arith,
    oldest-leaves now w 0 0 (Models-seen t log 0 w now m h),
    oldest-first now w 0 0 n k j,
    oldest-zero now w 0 0 k,
    recent-live_sum now (omega arith),
    recent-live_sum n j,
  )

-- ===== src/RateLimit/Window.antt =====
-- The sixty buckets of ratelimit.go against a log: `sumAt` gives the log's recent total, and `add`
-- extends the log.
use onegw.Prelude.{
  ℕ, zero, suc, ◌+◌, ◌%◌, ◌≤◌, ◌<◌, ◌≡◌, refl, ap, ◌∙◌, List, [], ◌∷◌, arith, length,
}
use onegw.RateLimit.{Bucket, sum_step, sum_from, sum_at, add_bucket, update_at, add, window_seconds}
use onegw.RateLimit.Log.{
  Log, recent, shares, shares-recent, live, Represents, add_bucket-Represents, Represents-later,
  counted, other-Represents, sum_step-Represents, sum_step-live,
}

-- The buckets from index `i` on stand for their shares.
abbrev pub Models : ℕ → Log → ℕ → List Bucket → Type 0
Models t log i [] = Unit {0}
Models t log i (b ∷ w) = Represents t log i b × Models t log (suc i) w

unfoldable pub live_sum : ℕ → List Bucket → ℕ
live_sum now [] = 0
live_sum now (b ∷ w) = live now b + live_sum now w

pub sum_from-live :
    (now : ℕ) (w : List Bucket) (sum oldest : ℕ)
    → (sum_from now w sum oldest).1 ≡ sum + live_sum now w
unfolding sum_from live_sum
sum_from-live now [] sum oldest = omega arith
sum_from-live now (b ∷ w) sum oldest =
    let r = sum_step now b sum oldest in
    omega (arith, sum_from-live now w r.1 r.2, sum_step-live now b sum oldest)

sum_from-Models :
    (t : ℕ) (log : Log) (i : ℕ) (w : List Bucket) (now sum oldest : ℕ)
    → Models t log i w
    → t ≤ now
    → Models now log i (sum_from now w sum oldest).0
unfolding sum_from
sum_from-Models t log i [] now sum oldest m h = tt
sum_from-Models t log i (b ∷ w) now sum oldest m h =
    let r = sum_step now b sum oldest in
    (
      sum_step-Represents t log i b m.0 now h sum oldest,
      sum_from-Models t log (suc i) w now r.1 r.2 m.1 h,
    )

pub length-sum_from :
    (now : ℕ) (w : List Bucket) (sum oldest : ℕ) → length (sum_from now w sum oldest).0 ≡ length w
unfolding sum_from
length-sum_from now [] sum oldest = refl
length-sum_from now (b ∷ w) sum oldest =
    let r = sum_step now b sum oldest in ap suc (length-sum_from now w r.1 r.2)

pub Models-shares :
    (t : ℕ) (log : Log) (i : ℕ) (w : List Bucket) (now : ℕ)
    → Models t log i w
    → t ≤ now
    → live_sum now w ≡ shares now i (length w) log
unfolding live_sum shares
Models-shares t log i [] now m h = refl
Models-shares t log i (b ∷ w) now m h =
    omega (arith, counted t log i b m.0 now h, Models-shares t log (suc i) w now m.1 h)

pub length-add :
    (w : List Bucket) (i : ℕ) (f : Bucket → Bucket) → length (update_at w i f) ≡ length w
unfolding update_at
length-add [] i f = refl
length-add (b ∷ w) zero f = refl
length-add (b ∷ w) (suc i) f = ap suc (length-add w i f)

others-Models :
    (t : ℕ) (log : Log) (i : ℕ) (w : List Bucket) (now v : ℕ)
    → Models t log i w
    → t ≤ now
    → now % window_seconds < i
    → Models now ((now, v) ∷ log) i w
others-Models t log i [] now v m h lt = tt
others-Models t log i (b ∷ w) now v m h lt = (
  other-Represents t log i b m.0 now h v (ground arith),
  others-Models t log (suc i) w now v m.1 h (omega arith),
)

update_at-Models :
    (t : ℕ) (log : Log) (i : ℕ) (w : List Bucket) (k now v : ℕ)
    → Models t log i w
    → t ≤ now
    → now % window_seconds ≡ i + k
    → Models now ((now, v) ∷ log) i (update_at w k (λ b. add_bucket b now v))
unfolding update_at
update_at-Models t log i [] k now v m h e = tt
update_at-Models t log i (b ∷ w) zero now v m h e = (
  add_bucket-Represents t log i b m.0 now h v (omega arith),
  others-Models t log (suc i) w now v m.1 h (omega arith),
)
update_at-Models t log i (b ∷ w) (suc k) now v m h e = (
  other-Represents t log i b m.0 now h v (ground arith),
  update_at-Models t log (suc i) w k now v m.1 h (omega arith),
)

module _ (t : ℕ) (log : Log) (w : List Bucket) (now : ℕ) (m : Models t log 0 w) (h : t ≤ now) where
  pub sum_at-Models : Models now log 0 (sum_at w now).0
  unfolding sum_at
  sum_at-Models = sum_from-Models t log 0 w now 0 0 m h

  -- For a window of sixty buckets that models the log of the events up to some second, `sumAt` at
  -- that second or later is the sum of the events of the last sixty seconds.
  pub sum_at-recent : length w ≡ window_seconds → (sum_at w now).1 ≡ recent now log
  unfolding sum_at
  sum_at-recent e =
      sum_from-live now w 0 0
      ∙ (omega arith
          ∙ (Models-shares t log 0 w now m h
              ∙ (ap (λ n. shares now 0 n log) e ∙ shares-recent now log)))

  pub add-Models : (v : ℕ) → Models now ((now, v) ∷ log) 0 (add w now v)
  unfolding add
  add-Models v = update_at-Models t log 0 w (now % window_seconds) now v m h (omega arith)

pub Models-later :
    (t : ℕ) (log : Log) (i : ℕ) (w : List Bucket) (now : ℕ)
    → Models t log i w
    → t ≤ now
    → Models now log i w
Models-later t log i [] now m h = tt
Models-later t log i (b ∷ w) now m h =
    (Represents-later t log i b m.0 now h, Models-later t log (suc i) w now m.1 h)

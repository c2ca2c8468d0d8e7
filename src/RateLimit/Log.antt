-- ===== src/RateLimit/Log.antt =====
-- The abstract view of one window of ratelimit.go: a log of events, and the total of those that are
-- younger than sixty seconds.
use onegw.Prelude.{
  ℕ, zero, suc, ◌+◌, ◌-◌, ◌%◌, ◌≤◌, ◌≡◌, refl, subst, ◌⊎◌, false, ◌&&◌, List, [], ◌∷◌, arith, ltb,
  leb, ◌==◌, if◌then◌else◌,
}
use onegw.RateLimit.{Bucket, sum_step, add_bucket, window_seconds}

abbrev pub Log : Type 0
Log = List (ℕ × ℕ)

-- What an event of second `sec` and size `v` counts for at `now`.
abbrev pub weight : ℕ → ℕ → ℕ → ℕ
weight now sec v = if leb window_seconds (now - sec) then 0 else v

unfoldable pub recent : ℕ → Log → ℕ
recent now [] = 0
recent now ((sec, v) ∷ log) = weight now sec v + recent now log

-- The share of the seconds that are `i` modulo sixty.
unfoldable pub share : ℕ → ℕ → Log → ℕ
share now i [] = 0
share now i ((sec, v) ∷ log) =
    (if sec % window_seconds == i then weight now sec v else 0) + share now i log

unfoldable pub shares : ℕ → ℕ → ℕ → Log → ℕ
shares now i zero log = 0
shares now i (suc n) log = share now i log + shares now (suc i) n log

shares-nil : (now i n : ℕ) → shares now i n [] ≡ 0
unfolding shares share
shares-nil now i zero = refl
shares-nil now i (suc n) = omega (arith, shares-nil now (suc i) n)

shares-cons :
    (now i n sec v : ℕ) (log : Log)
    → shares now i n ((sec, v) ∷ log)
      ≡ (if leb i (sec % window_seconds) && ltb (sec % window_seconds) (i + n)
          then weight now sec v
          else 0)
        + shares now i n log
unfolding shares share
shares-cons now i zero sec v log = ground arith
shares-cons now i (suc n) sec v log = ground (arith, shares-cons now (suc i) n sec v log)

-- Each event is in exactly one share.
pub shares-recent : (now : ℕ) (log : Log) → shares now 0 window_seconds log ≡ recent now log
unfolding recent
shares-recent now [] = shares-nil now 0 window_seconds
shares-recent now ((sec, v) ∷ log) =
    ground (arith, shares-cons now 0 window_seconds sec v log, shares-recent now log)

pub recent_antitone : (now later : ℕ) (log : Log) → now ≤ later → recent later log ≤ recent now log
unfolding recent
recent_antitone now later [] h = omega arith
recent_antitone now later ((sec, v) ∷ log) h = ground (arith, recent_antitone now later log)

abbrev pub live : ℕ → Bucket → ℕ
live now b = weight now b.sec b.v

-- The bucket stands for its share of the log, from time `t` on.
pub record Represents (t : ℕ) (log : Log) (i : ℕ) (b : Bucket) : Type 0 where
  pub seen : b.sec ≤ t
  pub placed : (b.v ≡ 0) ⊎ (b.sec % window_seconds ≡ i)
  pub counted_after : (d : ℕ) → share (t + d) i log ≡ live (t + d) b

pub counted :
    (t : ℕ) (log : Log) (i : ℕ) (b : Bucket)
    → Represents t log i b
    → (now : ℕ) → t ≤ now
    → share now i log ≡ live now b
counted t log i b r now h =
    subst (λ n. share n i log ≡ live n b) (omega arith) (r.counted_after (now - t))

module _ (t : ℕ) (log : Log) (i : ℕ) (b : Bucket) (r : Represents t log i b) (now : ℕ)
    (h : t ≤ now) where
  pub Represents-later : Represents now log i b
  Represents-later = record {
    seen = omega arith;
    placed = r.placed;
    counted_after = λ d. counted t log i b r (now + d) (omega arith);
  }

  pub add_bucket-Represents :
      (v : ℕ) → now % window_seconds ≡ i → Represents now ((now, v) ∷ log) i (add_bucket b now v)
  unfolding add_bucket share
  add_bucket-Represents v e = record {
    seen = ground arith;
    placed = ground arith;
    counted_after = λ d. ground (arith, counted t log i b r (now + d));
  }

  pub other-Represents :
      (v : ℕ) → (now % window_seconds == i) ≡ false → Represents now ((now, v) ∷ log) i b
  unfolding share
  other-Represents v e = record {
    seen = omega arith;
    placed = r.placed;
    counted_after = λ d. ground (arith, counted t log i b r (now + d));
  }

  pub sum_step-Represents : (sum oldest : ℕ) → Represents now log i (sum_step now b sum oldest).0
  unfolding sum_step
  sum_step-Represents sum oldest = record {
    seen = ground arith;
    placed = ground arith;
    counted_after = λ d. ground (arith, counted t log i b r (now + d));
  }

pub sum_step-live :
    (now : ℕ) (b : Bucket) (sum oldest : ℕ) → (sum_step now b sum oldest).1 ≡ sum + live now b
unfolding sum_step
sum_step-live now b sum oldest = ground arith

-- ===== src/RateLimit.antt =====
-- internal/ratelimit/ratelimit.go: sliding windows of sixty one-second buckets, for each key.
-- Times are unix seconds from the caller's clock. A limit is a number, where 0 stands for every
-- limit that is not positive. A method returns the new limiter and its result.
pub mod Log
pub mod Window
pub mod Retry
pub mod Entries
pub mod Runs
use onegw.Prelude.{
  ℕ, zero, suc, ◌+◌, ◌-◌, ◌%◌, max, String, Bool, true, false, ◌||◌, none, some, List, [], ◌∷◌,
  replicate, ltb, leb, ◌==◌, if◌then◌else◌,
}
use onegw.Prelude.Assoc.{lookup, insert}

abbrev pub window_seconds : ℕ
window_seconds = 60

pub record Bucket : Type 0 where
  pub sec : ℕ
  pub v : ℕ

abbrev pub empty_bucket : Bucket
empty_bucket = record { sec = 0; v = 0 }

pub record Entry : Type 0 where
  pub req : List Bucket
  pub tok : List Bucket

abbrev pub Limiter : Type 0
Limiter = List (String × Entry)

abbrev pub new_entry : Entry
new_entry = record {
  req = replicate window_seconds empty_bucket;
  tok = replicate window_seconds empty_bucket;
}

-- The entry of a key, made if it is missing.
unfoldable pub get : Limiter → String → Limiter × Entry
get l key = elim (lookup key l) [ some e ↦ (l, e) | none ↦ (insert key new_entry l, new_entry) ]

-- One round of the loop of `sumAt`: the bucket, the sum and the oldest second after it.
unfoldable pub sum_step : ℕ → Bucket → ℕ → ℕ → Bucket × ℕ × ℕ
sum_step now b sum oldest =
    if b.v == 0
    then (b, sum, oldest)
    else if leb window_seconds (now - b.sec)
    then (record b { v = 0 }, sum, oldest)
    else (b, sum + b.v, if (oldest == 0) || ltb b.sec oldest then b.sec else oldest)

-- The loop: the window with its stale buckets zeroed, the sum, and the oldest second (0 if none).
unfoldable pub sum_from : ℕ → List Bucket → ℕ → ℕ → List Bucket × ℕ × ℕ
sum_from now [] sum oldest = ([], sum, oldest)
sum_from now (b ∷ w) sum oldest =
    let (b', s, o) = sum_step now b sum oldest in
    let (w', s', o') = sum_from now w s o in (b' ∷ w', s', o')

unfoldable pub sum_at : List Bucket → ℕ → List Bucket × ℕ × ℕ
unfolding sum_from
sum_at w now = sum_from now w 0 0

unfoldable pub add_bucket : Bucket → ℕ → ℕ → Bucket
add_bucket b now v = if b.sec == now then record b { v = b.v + v } else record { sec = now; v = v }

-- The bucket at an index is replaced by its image.
unfoldable pub update_at : List Bucket → ℕ → (Bucket → Bucket) → List Bucket
update_at [] i f = []
update_at (b ∷ w) zero f = f b ∷ w
update_at (b ∷ w) (suc i) f = b ∷ update_at w i f

unfoldable pub add : List Bucket → ℕ → ℕ → List Bucket
add w now v = update_at w (now % window_seconds) (λ b. add_bucket b now v)

-- Seconds until the oldest contributing bucket leaves the window, at least 1.
unfoldable pub retry_after : ℕ → ℕ → ℕ
retry_after oldest now =
    let from = if oldest == 0 then now else oldest in max 1 (from + window_seconds - now)

unfoldable pub allow_rpm : Limiter → ℕ → String → ℕ → Limiter × Bool × ℕ
allow_rpm l now key rpm =
    if rpm == 0
    then (l, true, 0)
    else (let (l', e) = get l key in
        let (w, sum, oldest) = sum_at e.req now in
        if leb rpm sum
        then (insert key (record e { req = w }) l', false, retry_after oldest now)
        else (insert key (record e { req = add w now 1 }) l', true, 0))

unfoldable pub tpm_blocked : Limiter → ℕ → String → ℕ → Limiter × Bool × ℕ
tpm_blocked l now key tpm = if tpm == 0 then (l, false, 0) else (elim (lookup key l) [
  | none ↦ (l, false, 0)
  | some e ↦
      let (w, sum, oldest) = sum_at e.tok now in
      let l' = insert key (record e { tok = w }) l in
      if ltb sum tpm then (l', false, 0) else (l', true, retry_after oldest now)
])

unfoldable pub observe_tpm : Limiter → ℕ → String → ℕ → ℕ → Limiter
observe_tpm l now key tpm tokens =
    if (tpm == 0) || (tokens == 0)
    then l
    else (let (l', e) = get l key in insert key (record e { tok = add e.tok now tokens }) l')

-- ===== src/Pool/Bucket.antt =====
-- The request budgets of provider.go: a token bucket, with exact numbers in place of floats.
use onegw.Prelude.{ℕ, ◌+◌, ◌-◌, ◌*◌, ◌/◌, leb, ◌==◌, if◌then◌else◌}
use onegw.Pool.{TokenBucket, second}

-- One request.
abbrev pub unit : ℕ
unit = 60 * second

unfoldable pub new_token_bucket : ℕ → TokenBucket
new_token_bucket rpm = record { tokens = 2 * unit; refill = rpm; last = 0 }

-- The tokens at an instant.
unfoldable pub filled : TokenBucket → ℕ → ℕ
filled b now = if b.last == 0 then b.tokens else b.tokens + (now - b.last) * b.refill

-- Takes a token, or tells when the next one is there.
unfoldable pub take_token : TokenBucket → ℕ → TokenBucket × ℕ
unfolding filled
take_token b now =
    let t = filled b now in
    if leb unit t
    then (record b { tokens = t - unit; last = now }, 0)
    else (record b { tokens = t; last = now }, now + (unit - t) / b.refill)

-- When a token is there, without taking it.
unfoldable pub refill_at : TokenBucket → ℕ → ℕ
unfolding filled
refill_at b now =
    if b.last == 0
    then now
    else if leb unit (filled b now)
    then now
    else now + (unit - b.tokens) / b.refill

-- ===== src/Pool/Spending.antt =====
-- How much a request budget of provider.go lets through.
use native.Mathlib.Nat.{add-mul}
use onegw.Prelude.{
  ℕ, suc, ◌+◌, ◌-◌, ◌*◌, ◌≤◌, ◌<◌, ◌≡◌, sym, ◌∙◌, ap, subst, List, [], ◌∷◌, arith, if◌then◌else◌,
  ◌==◌,
}
use onegw.Pool.{TokenBucket}
use onegw.Pool.Bucket.{unit, filled, take_token}

-- How many of the requests at some instants, in their order, get a token, and the last instant.
unfoldable pub granted : TokenBucket → ℕ → List ℕ → ℕ × ℕ
granted b t [] = (0, t)
granted b t (now ∷ instants) =
    let (b', wait) = take_token b now in
    let (n, end) = granted b' now instants in (if wait == 0 then suc n else n, end)

-- Instants in order, none before a first.
unfoldable pub Ascending : ℕ → List ℕ → Type 0
Ascending t [] = t ≤ t
Ascending t (now ∷ instants) = (t ≤ now) × Ascending now instants

granted-later :
    (b : TokenBucket) (t : ℕ) (instants : List ℕ)
    → Ascending t instants
    → t ≤ (granted b t instants).1
unfolding granted Ascending
granted-later b t [] a = omega arith
granted-later b t (now ∷ instants) a =
    omega (arith, a.0, granted-later (take_token b now).0 now instants a.1)

take_token-balance :
    (b : TokenBucket) (now : ℕ)
    → 0 < now
    → ((take_token b now).0.last ≡ now)
      × ((take_token b now).0.refill ≡ b.refill)
      × ((if (take_token b now).1 == 0 then unit else 0) + (take_token b now).0.tokens
          ≤ filled b now)
unfolding take_token
take_token-balance b now h = ground (arith, h)

filled-at :
    (b : TokenBucket) {t : ℕ} (now : ℕ)
    → 0 < b.last
    → b.last ≡ t
    → filled b now ≡ b.tokens + (now - t) * b.refill
unfolding filled
filled-at b now h e = rw (← e) (ground (arith, h))

distrib : (a b c r : ℕ) → a ≤ b → b ≤ c → (b - a) * r + (c - b) * r ≡ (c - a) * r
distrib a b c r h k =
    let e : (b - a) + (c - b) ≡ c - a = omega (arith, h, k) in
    sym (add-mul (b - a) (c - b) r) ∙ ap (λ x. x * r) e

-- Of any requests at instants in order after a budget's last use, it lets through at most what it held
-- and what the time until the last of them refills.
pub granted-bounded :
    (b : TokenBucket) (t : ℕ) (instants : List ℕ)
    → 0 < b.last
    → b.last ≡ t
    → Ascending t instants
    → (granted b t instants).0 * unit ≤ b.tokens + ((granted b t instants).1 - t) * b.refill
unfolding granted Ascending
granted-bounded b t [] h e a = omega arith
granted-bounded b t (now ∷ instants) h e a =
    let b' = (take_token b now).0 in
    let positive : 0 < now = omega (arith, h, e, a.0) in
    let (at_now, same, balance) = take_token-balance b now positive in
    let n = (granted b' now instants).0 in
    let end = (granted b' now instants).1 in
    let rest =
      subst (λ r. n * unit ≤ b'.tokens + (end - now) * r) same
        (granted-bounded b' now instants (omega (arith, at_now, positive)) at_now a.1) in
    let later = granted-later b' now instants a.1 in
    let whole = distrib t now end b.refill a.0 later in
    let start = filled-at b now h e in ground (arith, balance, rest, whole, start)

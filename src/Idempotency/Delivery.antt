-- ===== src/Idempotency/Delivery.antt =====
-- The waiters of idempotency.go: each is sent exactly one result, and until then stays registered,
-- so that a send on its channel, which has room for one, never blocks.
use onegw.Prelude.{
  ℕ, zero, suc, ◌+◌, ◌≡◌, refl, inl, inr, String, false, Option, none, some, List, [], ◌∷◌, ◌++◌,
  map, arith, length, if◌then◌else◌, Bool-cases, Option-cases, ◌==◌,
}
use onegw.Idempotency.{
  Entry, Cache, Result, Sent, Decision, wait, find, write, evictable, is_complete, result_bytes,
  remove, wake, over, enforce_rounds, enforce, push_new, claim, settle, finish, outcome_of,
  recorded, unrecorded, gone_result,
}
use onegw.Idempotency.Store.{total, total-take_out, total-write}
use onegw.Idempotency.Invariant.{IsValid, remove-IsValid, write-IsValid, evicted_key}
use onegw.Idempotency.Claims.{
  own_key, joined, claim_new, claim-expired, claim_pending, claim_settled, found, absent, stale,
  pending, done, pending-bytes,
}

unfoldable pub count : ℕ → List ℕ → ℕ
count w [] = 0
count w (x ∷ xs) = (if x == w then 1 else 0) + count w xs

unfoldable pub sent_to : ℕ → Sent → ℕ
sent_to w [] = 0
sent_to w ((x, r) ∷ s) = (if x == w then 1 else 0) + sent_to w s

-- How often the waiter is registered with an entry.
abbrev pub registered : ℕ → Cache → ℕ
registered w c = total (λ e. count w e.waiters) c.ll

count-append : (w : ℕ) (xs ys : List ℕ) → count w (xs ++ ys) ≡ count w xs + count w ys
unfolding count
count-append w [] ys = omega arith
count-append w (x ∷ xs) ys = omega (arith, count-append w xs ys)

pub sent_to-append : (w : ℕ) (s t : Sent) → sent_to w (s ++ t) ≡ sent_to w s + sent_to w t
unfolding sent_to
sent_to-append w [] t = omega arith
sent_to-append w ((x, r) ∷ s) t = omega (arith, sent_to-append w s t)

sent_to-map : (w : ℕ) (xs : List ℕ) (r : Result) → sent_to w (map (λ x. (x, r)) xs) ≡ count w xs
unfolding sent_to count
sent_to-map w [] r = refl
sent_to-map w (x ∷ xs) r = omega (arith, sent_to-map w xs r)

sent_to-wake : (w : ℕ) (e : Entry) (r : Result) → sent_to w (wake e r) ≡ count w e.waiters
unfolding wake
sent_to-wake w e r = sent_to-map w e.waiters r

remove-delivers :
    (w : ℕ) (c : Cache) (e : Entry)
    → find e.key c.ll ≡ some e
    → registered w (remove c e).0 + sent_to w (remove c e).1 ≡ registered w c
unfolding remove
remove-delivers w c e h = omega (
  arith,
  sent_to-map w e.waiters gone_result,
  total-take_out (λ x. count w x.waiters) e.key c.ll e h,
)

enforce_rounds-delivers :
    (w n now : ℕ) (c : Cache)
    → IsValid c
    → let (c', sent) = enforce_rounds n now c in registered w c' + sent_to w sent ≡ registered w c
unfolding enforce_rounds sent_to
enforce_rounds-delivers w zero now c v = omega arith
enforce_rounds-delivers w (suc n) now c v = elim (Bool-cases (over c)) [
  | inr in_caps ↦ rw (in_caps, enforce_rounds) (omega arith)
  | inl full ↦ elim (Option-cases (evictable c now c.ll)) [
    | inl p ↦ rw (full, p, enforce_rounds) (omega arith)
    | inr (x, p) ↦
        let f = evicted_key c now x v p in
        let ih = enforce_rounds-delivers w n now (remove c x).0 (remove-IsValid c v x f) in
        rw (full, p, enforce_rounds)
          (omega (
            arith,
            ih,
            remove-delivers w c x f,
            sent_to-append w (remove c x).1 (enforce_rounds n now (remove c x).0).1,
          ))
  ]
]

-- The waiter that a claim hands out, if it hands out one.
abbrev pub issued : ℕ → Decision → ℕ
issued w (wait x) = if x == w then 1 else 0
issued w _ = 0

-- A claim registers the waiter that it returns, and sends to each waiter that it unregisters.
pub claim-delivers :
    (w : ℕ) (c : Cache) (now : ℕ) (k : String)
    → let (c', decision, sent) = claim c now k in
      registered w c' + sent_to w sent ≡ registered w c + issued w decision
unfolding total count sent_to push_new
claim-delivers w c now k = elim (found c now k) [
  | absent p ↦ rw (claim_new c now k p) (omega arith)
  | stale e p old ↦
      rw (claim-expired c now k e p old) (omega (arith, remove-delivers w c e (own_key c k e p)))
  | pending e p f ↦ rw (claim_pending c now k e p f) (
      omega (
        arith,
        total-write (λ x. count w x.waiters) c.ll e (joined c e) (own_key c k e p),
        count-append w e.waiters (c.next_waiter ∷ []),
      ))
  | done e r p young q ↦
      rw (claim_settled c now k e p r young q)
        (ground (arith, total-take_out (λ x. count w x.waiters) k c.ll e p))
]

settle-delivers :
    (w : ℕ) (c : Cache) (now : ℕ) (e : Entry) (r : Result)
    → IsValid c
    → find e.key c.ll ≡ some e
    → is_complete e ≡ false
    → let (c', sent) = settle c now e r in registered w c' + sent_to w sent ≡ registered w c
unfolding settle enforce count
settle-delivers w c now e r v h fresh =
    let e' = record e { res = some (recorded r); waiters = [] } in
    let s = record c { ll = write e' c.ll; bytes = c.bytes + result_bytes (recorded r) } in
    omega (
      arith,
      enforce_rounds-delivers w (length s.ll) now s
          (write-IsValid c v e e' c.next_waiter h (pending-bytes e fresh) (inr refl)),
      total-write (λ x. count w x.waiters) c.ll e e' h,
      sent_to-wake w e (recorded r),
      sent_to-append w (wake e (recorded r)) (enforce_rounds (length s.ll) now s).1,
    )

-- `Finish` sends to each waiter that it unregisters, once.
pub finish-delivers :
    (w : ℕ) (c : Cache) (now : ℕ) (k : String) (res : Option Result)
    → IsValid c
    → let (c', sent) = finish c now k res in registered w c' + sent_to w sent ≡ registered w c
unfolding finish sent_to
finish-delivers w c now k res v = elim (Option-cases (find k c.ll)) [
  | inl p ↦ rw (p, finish) (omega arith)
  | inr (e, p) ↦ elim (Bool-cases (is_complete e)) [
    | inl was ↦ rw (p, finish, was) (omega arith)
    | inr fresh ↦ rw (p, finish, fresh) (outcome res e (own_key c k e p) fresh)
  ]
]
  where
    outcome :
        (o : Option Result) (e : Entry)
        → find e.key c.ll ≡ some e
        → is_complete e ≡ false
        → registered w (outcome_of c now e o).0 + sent_to w (outcome_of c now e o).1
          ≡ registered w c
    outcome none e own fresh = remove-delivers w c e own
    outcome (some r) e own fresh = elim (Bool-cases (unrecorded r)) [
      | inl u ↦ rw u (remove-delivers w c e own)
      | inr u ↦ rw u (settle-delivers w c now e r v own fresh)
    ]

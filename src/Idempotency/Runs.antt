-- ===== src/Idempotency/Runs.antt =====
-- Whole runs of the cache of idempotency.go, in the order of its lock.
use onegw.Prelude.{
  ℕ, zero, suc, ◌+◌, ◌≤◌, ◌≡◌, refl, ap, inl, inr, String, Option, none, some, List, [], ◌∷◌, ◌++◌,
  arith, if◌then◌else◌, Bool-cases, Option-cases, ltb,
}
use onegw.Idempotency.{
  Cache, Result, Sent, new, find, evictable, remove, over, enforce_rounds, enforce, push_new,
  is_complete, claim, settle, finish, unrecorded,
}
use onegw.Idempotency.Store.{total}
use onegw.Idempotency.Invariant.{IsValid}
use onegw.Idempotency.Claims.{
  claim_new, claim-expired, claim_pending, claim_settled, found, absent, stale, pending, done,
  claim-IsValid, finish-IsValid,
}
use onegw.Idempotency.Delivery.{
  count, sent_to, registered, issued, sent_to-append, claim-delivers, finish-delivers,
}

pub data Call : Type 0 where
  claim_at : ℕ → String → Call
  finish_at : ℕ → String → Option Result → Call

-- The cache after the calls, and all that was sent to waiters.
unfoldable pub run : Cache → List Call → Cache × Sent
run c [] = (c, [])
run c (claim_at now k ∷ calls) =
    let (c', decision, sent) = claim c now k in
    let (c'', more) = run c' calls in (c'', sent ++ more)
run c (finish_at now k res ∷ calls) =
    let (c', sent) = finish c now k res in let (c'', more) = run c' calls in (c'', sent ++ more)

-- The waiter has been handed out: 1 or 0.
abbrev pub handed_out : ℕ → Cache → ℕ
handed_out w c = if ltb w c.next_waiter then 1 else 0

enforce_rounds-next :
    (n now : ℕ) (c : Cache) → (enforce_rounds n now c).0.next_waiter ≡ c.next_waiter
unfolding enforce_rounds remove
enforce_rounds-next zero now c = refl
enforce_rounds-next (suc n) now c = elim (Bool-cases (over c)) [
  | inr in_caps ↦ rw (in_caps, enforce_rounds)
  | inl full ↦ elim (Option-cases (evictable c now c.ll)) [
    | inl p ↦ rw (full, p, enforce_rounds)
    | inr (x, p) ↦ rw (full, p, enforce_rounds) (enforce_rounds-next n now (remove c x).0)
  ]
]

finish-next :
    (c : Cache) (now : ℕ) (k : String) (res : Option Result)
    → (finish c now k res).0.next_waiter ≡ c.next_waiter
unfolding finish remove settle enforce
finish-next c now k none = ground arith
finish-next c now k (some r) = elim (Option-cases (find k c.ll)) [
  | inl p ↦ rw (p, finish)
  | inr (e, p) ↦ elim (Bool-cases (is_complete e)) [
    | inl was ↦ rw (p, finish, was)
    | inr fresh ↦ elim (Bool-cases (unrecorded r)) [
      | inl u ↦ rw (p, finish, fresh, u)
      | inr u ↦ rw (p, finish, fresh, u) (enforce_rounds-next _ now _)
    ]
  ]
]

claim-next :
    (w : ℕ) (c : Cache) (now : ℕ) (k : String)
    → handed_out w (claim c now k).0 ≡ handed_out w c + issued w (claim c now k).1
unfolding push_new remove
claim-next w c now k = elim (found c now k) [
  | absent p ↦ rw (claim_new c now k p) (omega arith)
  | stale e p old ↦ rw (claim-expired c now k e p old) (omega arith)
  | pending e p f ↦ rw (claim_pending c now k e p f) (ground arith)
  | done e r p young q ↦ rw (claim_settled c now k e p r young q) (ground arith)
]

run-balance :
    (w : ℕ) (c : Cache) (calls : List Call)
    → IsValid c
    → let (c', sent) = run c calls in
      IsValid c'
      × (registered w c' + sent_to w sent + handed_out w c ≡ registered w c + handed_out w c')
unfolding run sent_to
run-balance w c [] v = (v, omega arith)
run-balance w c (claim_at now k ∷ calls) v =
    let r = claim c now k in
    let ih = run-balance w r.0 calls (claim-IsValid c now k v) in
    (
      ih.0,
      omega (
        arith,
        ih.1,
        claim-delivers w c now k,
        claim-next w c now k,
        sent_to-append w r.2 (run r.0 calls).1,
      ),
    )
run-balance w c (finish_at now k res ∷ calls) v =
    let r = finish c now k res in
    let ih = run-balance w r.0 calls (finish-IsValid c now k res v) in
    let same : handed_out w r.0 ≡ handed_out w c = rw (finish-next c now k res) refl in
    (
      ih.0,
      omega (
        arith,
        ih.1,
        finish-delivers w c now k res v,
        same,
        sent_to-append w r.1 (run r.0 calls).1,
      ),
    )

-- A new cache is empty, keeps the invariant, and holds between 1 and 1024 entries.
pub new-IsValid :
    (capacity ttl : ℕ) (c : Cache)
    → new capacity ttl ≡ some c
    → IsValid c × (c.ll ≡ []) × (c.next_waiter ≡ 0) × (1 ≤ c.cap) × (c.cap ≤ 1024)
unfolding new total
new-IsValid capacity ttl c h = ground arith

-- Every run from a new cache keeps the invariant.
pub run-IsValid :
    (capacity ttl : ℕ) (c : Cache) (calls : List Call)
    → new capacity ttl ≡ some c
    → IsValid (run c calls).0
run-IsValid capacity ttl c calls h = (run-balance 0 c calls (new-IsValid capacity ttl c h).0).0

-- In a run from a new cache a waiter that was handed out is either still registered or has been sent
-- one result, never two, and no other number is sent anything.
pub run-delivers :
    (capacity ttl w : ℕ) (c : Cache) (calls : List Call)
    → new capacity ttl ≡ some c
    → let (c', sent) = run c calls in
      registered w c' + sent_to w sent ≡ (if ltb w c'.next_waiter then 1 else 0)
unfolding total
run-delivers capacity ttl w c calls h =
    let n = new-IsValid capacity ttl c h in
    let none_yet : registered w c ≡ 0 = ap (total (λ e. count w e.waiters)) n.1 in
    let z : handed_out w c ≡ 0 = ground (arith, n.2) in
    omega (arith, (run-balance w c calls n.0).1, none_yet, z)

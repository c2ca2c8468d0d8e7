-- ===== src/Idempotency/Claims.antt =====
-- `Claim` and `Finish` of idempotency.go: that they keep the invariant, what they answer, and that a
-- recorded result is replayed.
use onegw.Prelude.{
  ℕ, suc, ◌≡◌, refl, inl, inr, String, true, false, Option, none, some, [], ◌∷◌, ◌++◌, arith,
  str_eq, eq_iff, if◌then◌else◌, Bool-cases, Option-cases, ap, ◌∙◌, subst,
}
use onegw.Idempotency.{
  Entry, Cache, Result, miss, replay, conflict, wait, find, take_out, write, expired, is_complete,
  remove, enforce, push_new, claim, settle, finish, outcome_of, recorded, unrecorded,
}
use onegw.Idempotency.Store.{find_key, find-take_out}
use onegw.Idempotency.Invariant.{
  IsValid, InFlight, bytes_of, remove-IsValid, push_new-IsValid, write-IsValid, to_front-IsValid,
  enforce_rounds-IsValid,
}

pub str_eq_self : (k : String) → str_eq k k ≡ true
str_eq_self k = (eq_iff k k).1 refl

-- The found entry is under its own key.
pub own_key : (c : Cache) (k : String) (e : Entry) → find k c.ll ≡ some e → find e.key c.ll ≡ some e
own_key c k e h = ap (λ j. find j c.ll) (find_key k c.ll e h) ∙ h

pub removed :
    (c : Cache) (v : IsValid c) (k : String) (e : Entry)
    → find k c.ll ≡ some e
    → find k (remove c e).0.ll ≡ none
unfolding remove
removed c v k e h =
    rw (find_key k c.ll e h) (find-take_out k k c.ll v.distinct ∙ ground (arith, str_eq_self k))

abbrev pub joined : Cache → Entry → Entry
joined c e = record e { waiters = e.waiters ++ c.next_waiter ∷ [] }

-- The cache after each branch of `Claim`.
module _ (c : Cache) (now : ℕ) (k : String) where
  pub claim_new : find k c.ll ≡ none → claim c now k ≡ (push_new c now k, miss, [])
  unfolding claim
  claim_new p = rw (p, claim)

  module _ (e : Entry) (p : find k c.ll ≡ some e) where
    pub claim-expired :
        expired c now e ≡ true
        → claim c now k ≡ (push_new (remove c e).0 now k, miss, (remove c e).1)
    unfolding claim
    claim-expired old = rw (p, claim, old)

    pub claim_pending :
        InFlight c now e
        → claim c now k ≡ (
          record c { ll = write (joined c e) c.ll; next_waiter = suc c.next_waiter },
          wait c.next_waiter,
          [],
        )
    unfolding claim
    claim_pending f = ground (arith, p)

    pub claim_settled :
        (r : Result)
        → expired c now e ≡ false
        → e.res ≡ some r
        → claim c now k
          ≡ (record c { ll = e ∷ take_out k c.ll }, if r.stream then conflict else replay r, [])
    unfolding claim
    claim_settled r young q = ground (arith, p)

-- The four cases of an entry at a claim.
pub data Found (c : Cache) (now : ℕ) (k : String) : Type 0 where
  absent : find k c.ll ≡ none → Found c now k
  stale : (e : Entry) → find k c.ll ≡ some e → expired c now e ≡ true → Found c now k
  pending : (e : Entry) → find k c.ll ≡ some e → InFlight c now e → Found c now k
  done :
      (e : Entry) (r : Result)
      → find k c.ll ≡ some e
      → expired c now e ≡ false
      → e.res ≡ some r
      → Found c now k

pub found : (c : Cache) (now : ℕ) (k : String) → Found c now k
found c now k = elim (Option-cases (find k c.ll)) [
  | inl p ↦ absent p
  | inr (e, p) ↦ elim (Bool-cases (expired c now e)) [
    | inl old ↦ stale e p old
    | inr young ↦ elim (Option-cases e.res) [
      | inl q ↦ pending e p (rw q refl, young)
      | inr (r, q) ↦ done e r p young q
    ]
  ]
]

pub pending-bytes : (e : Entry) → is_complete e ≡ false → bytes_of e ≡ 0
pending-bytes e h = ground arith

-- `Claim` keeps the invariant, on every branch.
pub claim-IsValid : (c : Cache) (now : ℕ) (k : String) → IsValid c → IsValid (claim c now k).0
claim-IsValid c now k v = elim (found c now k) [
  | absent p ↦ rw (claim_new c now k p) (push_new-IsValid c v now k p)
  | stale e p old ↦ rw (claim-expired c now k e p old) (
      push_new-IsValid (remove c e).0 (remove-IsValid c v e (own_key c k e p)) now k
        (removed c v k e p))
  | pending e p f ↦
      let z = pending-bytes e f.0 in
      rw (claim_pending c now k e p f) (
        let w =
          write-IsValid c v e (joined c e) (suc c.next_waiter) (own_key c k e p) z
            (inl (ground arith)) in
        record {
          distinct = w.distinct;
          counted = omega (arith, w.counted, z);
          settled = w.settled;
        })
  | done e r p young q ↦ rw (claim_settled c now k e p r young q) (
      subst (λ j. IsValid (record c { ll = e ∷ take_out j c.ll })) (find_key k c.ll e p)
        (to_front-IsValid c v e (own_key c k e p)))
]

pub settle-IsValid :
    (c : Cache) (now : ℕ) (e : Entry) (r : Result)
    → IsValid c
    → find e.key c.ll ≡ some e
    → is_complete e ≡ false
    → IsValid (settle c now e r).0
unfolding settle enforce
settle-IsValid c now e r v h f = enforce_rounds-IsValid _ now _ (
    write-IsValid c v e (record e { res = some (recorded r); waiters = [] }) c.next_waiter h
      (pending-bytes e f) (inr refl))

-- `Finish` keeps the invariant, on every branch.
pub finish-IsValid :
    (c : Cache) (now : ℕ) (k : String) (res : Option Result)
    → IsValid c
    → IsValid (finish c now k res).0
unfolding finish
finish-IsValid c now k res v = elim (Option-cases (find k c.ll)) [
  | inl p ↦ rw (p, finish) v
  | inr (e, p) ↦
      let own = own_key c k e p in
      elim (Bool-cases (is_complete e)) [
        | inl was ↦ rw (p, finish, was) v
        | inr fresh ↦ rw (p, finish, fresh) (outcome res e own fresh)
      ]
]
  where
    outcome :
        (o : Option Result) (e : Entry)
        → find e.key c.ll ≡ some e
        → is_complete e ≡ false
        → IsValid (outcome_of c now e o).0
    outcome none e own fresh = remove-IsValid c v e own
    outcome (some r) e own fresh = elim (Bool-cases (unrecorded r)) [
      | inl u ↦ rw u (remove-IsValid c v e own)
      | inr u ↦ rw u (settle-IsValid c now e r v own fresh)
    ]

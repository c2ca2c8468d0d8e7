-- ===== src/Pool/Slots.antt =====
-- A change of each slot of an account, place by place.
use onegw.Prelude.{
  ℕ, zero, suc, ◌≤◌, ◌≡◌, refl, true, some, List, [], ◌∷◌, arith, length, get_elem?, if◌then◌else◌,
  Bool-cases, Option-cases, inl, inr,
}
use onegw.Pool.{Account, AccountState, same_account, update_slots, slot}

pub get_elem?-update_slots :
    (f : AccountState → AccountState) (a : Account) (ss : List AccountState) (i : ℕ)
    (s : AccountState)
    → get_elem? ss i ≡ some s
    → get_elem? (update_slots f a ss) i ≡ some (if same_account s.acct a then f s else s)
unfolding update_slots
get_elem?-update_slots f a [] i s h = ground (arith, h)
get_elem?-update_slots f a (x ∷ ss) zero s h = ground (arith, h)
get_elem?-update_slots f a (x ∷ ss) (suc i) s h =
    ground (arith, get_elem?-update_slots f a ss i s h)

pub length-update_slots :
    (f : AccountState → AccountState) (a : Account) (ss : List AccountState)
    → length (update_slots f a ss) ≡ length ss
unfolding update_slots
length-update_slots f a [] = refl
length-update_slots f a (x ∷ ss) = ground (arith, length-update_slots f a ss)

-- The slot found for an account is there, and it is the account's.
pub slot-same :
    (a : Account) (ss : List AccountState) (i : ℕ)
    → slot a ss ≡ some i
    → (s : AccountState) × ((get_elem? ss i ≡ some s) × (same_account s.acct a ≡ true))
unfolding slot
slot-same a [] i h = ground (arith, h)
slot-same a (x ∷ ss) i h = elim (Bool-cases (same_account x.acct a)) [
  | inl e ↦ let z : i ≡ 0 = ground (arith, e, h) in (x, (rw z refl, e))
  | inr e ↦ elim (Option-cases (slot a ss)) [
    | inl k ↦ absurd (ground (arith, e, k, h))
    | inr (j, k) ↦
        let z : i ≡ suc j = ground (arith, e, k, h) in
        let (s, (here, same)) = slot-same a ss j k in (s, (rw z here, same))
  ]
]

-- An account that has a slot is found.
pub slot-found :
    (a : Account) (ss : List AccountState) (i : ℕ) (s : AccountState)
    → get_elem? ss i ≡ some s
    → same_account s.acct a ≡ true
    → (j : ℕ) × ((slot a ss ≡ some j) × (j ≤ i))
unfolding slot
slot-found a [] i s h e = ground (arith, h)
slot-found a (x ∷ ss) zero s h e = (0, ground (arith, h, e))
slot-found a (x ∷ ss) (suc i) s h e = elim (Bool-cases (same_account x.acct a)) [
  | inl k ↦ (0, ground (arith, k))
  | inr k ↦ let (j, (p, q)) = slot-found a ss i s h e in (suc j, ground (arith, k, p, q))
]

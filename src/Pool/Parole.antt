-- ===== src/Pool/Parole.antt =====
-- An account that the vendor refuses for billing in provider.go: parked for the parole window, probed
-- once after it, and cleared by a success that began after the refusal.
use onegw.Prelude.{
  ℕ, ◌+◌, ◌<◌, ◌≡◌, ◌∙◌, ap, Bool, true, false, Option, none, some, List, arith, get_elem?,
  if◌then◌else◌, ltb,
}
use onegw.Pool.{Account, AccountState, AccountPool, same_account, update_slots, parole}
use onegw.Pool.Faults.{heal, ok, refuse, invalidate, parole_open, gates, available}
use onegw.Pool.Slots.{get_elem?-update_slots}

-- What `available` answers of the slot at a place.
unfoldable pub answer_at : AccountPool → ℕ → ℕ → Option (Bool × ℕ)
answer_at p now i = elim (get_elem? p.accts i) [ none ↦ none | some s ↦ some (available p s now) ]

-- The gates of the slot at a place other than a billing refusal.
unfoldable pub gates_at : AccountPool → ℕ → ℕ → Option (Bool × ℕ)
gates_at p now i = elim (get_elem? p.accts i) [
  | none ↦ none
  | some s ↦ some (gates p.buckets s now)
]

get-updated :
    (f : AccountState → AccountState) (a : Account) (ss : List AccountState) (i : ℕ)
    (s : AccountState)
    → get_elem? ss i ≡ some s
    → same_account s.acct a ≡ true
    → get_elem? (update_slots f a ss) i ≡ some (f s)
get-updated f a ss i s h e = get_elem?-update_slots f a ss i s h ∙ ground (arith, e)

answer-slot :
    (p : AccountPool) (n i : ℕ) (s : AccountState)
    → get_elem? p.accts i ≡ some s
    → answer_at p n i ≡ some (available p s n)
unfolding answer_at
answer-slot p n i s h = ground (arith, h)

refuse-available :
    (p : AccountPool) (ss : List AccountState) (s : AccountState) (now n : ℕ)
    → 0 < now
    → available (record p { accts = ss }) (refuse now s) n
      ≡ (if ltb n (now + parole p) then (false, now + parole p) else gates p.buckets s n)
unfolding available parole_open refuse gates parole
refuse-available p ss s now n h = ground (arith, h)

-- After a billing refusal at an instant, each slot of the account is blocked, with the end of the
-- parole window as its ready time, until the window ends; from then on only its other gates count.
pub invalidate-answer :
    (p : AccountPool) (a : Account) (i : ℕ) (s : AccountState) (now n : ℕ)
    → get_elem? p.accts i ≡ some s
    → same_account s.acct a ≡ true
    → 0 < now
    → answer_at (invalidate p now a).0 n i
      ≡ (if ltb n (now + parole p) then some (false, now + parole p) else gates_at p n i)
unfolding invalidate gates_at
invalidate-answer p a i s now n h e k =
    answer-slot (invalidate p now a).0 n i (refuse now s)
      (get-updated (refuse now) a p.accts i s h e)
    ∙ ground (arith, h, refuse-available p (update_slots (refuse now) a p.accts) s now n k)

healed-available :
    (p : AccountPool) (ss : List AccountState) (s : AccountState) (now since n : ℕ)
    → 0 < now
    → n < now + parole p
    → s.cooldown ≡ 0
    → s.bucket ≡ none
    → available (record p { accts = ss }) (heal since (refuse now s)) n
      ≡ (if ltb now since then (true, 0) else (false, now + parole p))
unfolding available parole_open refuse heal gates parole
healed-available p ss s now since n k l c b = ground (arith, k, l, c, b)

-- A refusal at an instant, then a success that began at another: the refusal outlives the success just
-- if it is not older, and otherwise the account is back with no strike.
ok-invalidate :
    (p : AccountPool) (a : Account) (i : ℕ) (s : AccountState) (now since n : ℕ)
    → get_elem? p.accts i ≡ some s
    → same_account s.acct a ≡ true
    → 0 < now
    → n < now + parole p
    → s.cooldown ≡ 0
    → s.bucket ≡ none
    → answer_at (ok (invalidate p now a).0 a since) n i
      ≡ some (if ltb now since then (true, 0) else (false, now + parole p))
unfolding invalidate ok refuse
ok-invalidate p a i s now since n h e k l c b =
    let refused = get-updated (refuse now) a p.accts i s h e in
    let ss = update_slots (refuse now) a p.accts in
    answer-slot (ok (invalidate p now a).0 a since) n i (heal since (refuse now s))
      (get-updated (heal since) a ss i (refuse now s) refused e)
    ∙ ap some (healed-available p (update_slots (heal since) a ss) s now since n k l c b)

-- ===== src/Idempotency/Replay.antt =====
-- The round trip of idempotency.go: a first claim misses, claims of the same key in the ttl wait for
-- it, and what its origin records is replayed.
use onegw.Prelude.{
  ℕ, zero, suc, ◌+◌, ◌≤◌, ◌≡◌, refl, ◌≢◌, ◌⊎◌, inl, inr, String, true, false, Option, none, some,
  [], arith, length, str_eq, if◌then◌else◌, Bool-cases, Option-cases, ap, ◌∙◌,
}
use onegw.Idempotency.{
  Entry, Cache, Result, miss, replay, conflict, find, write, expired, is_complete, result_bytes,
  remove, over, enforce_rounds, enforce, push_new, claim, settle, finish, outcome_of, recorded,
  unrecorded,
}
use onegw.Idempotency.Store.{find_key, find-write, find-take_out, length-write}
use onegw.Idempotency.Invariant.{IsValid, InFlight, enforce_rounds_keeps, write-IsValid}
use onegw.Idempotency.Claims.{
  str_eq_self, own_key, claim_new, claim-expired, claim_pending, claim_settled, found, absent,
  stale, pending, done, pending-bytes,
}

-- The entry of a key that no origin is recorded for.
abbrev pub fresh_entry : ℕ → String → Entry
fresh_entry now k = record { key = k; created = now; res = none; waiters = [] }

find-push_new :
    (c : Cache) (now : ℕ) (k : String) → find k (push_new c now k).ll ≡ some (fresh_entry now k)
unfolding find push_new
find-push_new c now k = ground (arith, str_eq_self k)

-- A claim misses exactly when the key is absent or its entry is older than the ttl, and then the
-- caller is the origin of record.
claim_miss_iff :
    (c : Cache) (now : ℕ) (k : String)
    → let r = claim c now k in
      ((r.1 ≡ miss)
        × (find k r.0.ll ≡ some (fresh_entry now k))
        × ((find k c.ll ≡ none)
            ⊎ ((e : Entry) × (find k c.ll ≡ some e) × (expired c now e ≡ true))))
      ⊎ ((r.1 ≢ miss) × ((e : Entry) × (find k c.ll ≡ some e) × (expired c now e ≡ false)))
claim_miss_iff c now k = elim (found c now k) [
  | absent p ↦ rw (claim_new c now k p) (inl (refl, find-push_new c now k, inl p))
  | stale e p old ↦
      rw (claim-expired c now k e p old)
        (inl (refl, find-push_new (remove c e).0 now k, inr (e, p, old)))
  | pending e p f ↦ rw (claim_pending c now k e p f) (inr (λ h. cc, (e, p, f.1)))
  | done e r p young q ↦
      rw (claim_settled c now k e p r young q) (inr (answer-ne-miss r, (e, p, young)))
]
  where
    answer-ne-miss : (r : Result) → (if r.stream then conflict else replay r) ≢ miss
    answer-ne-miss r h = ground arith

-- The entry as `Finish` leaves it.
abbrev pub settled_entry : Entry → Result → Entry
settled_entry e r = record e { res = some (recorded r); waiters = [] }

abbrev pub settled_cache : Cache → Entry → Result → Cache
settled_cache c e r = record c {
  ll = write (settled_entry e r) c.ll;
  bytes = c.bytes + result_bytes (recorded r);
}

finish_settles :
    (c : Cache) (now : ℕ) (k : String) (e : Entry) (r : Result)
    → find k c.ll ≡ some e
    → is_complete e ≡ false
    → unrecorded r ≡ false
    → (finish c now k (some r)).0 ≡ (enforce now (settled_cache c e r)).0
unfolding finish settle
finish_settles c now k e r p fresh u = rw (p, finish, fresh, u)

enforce_idle : (n now : ℕ) (c : Cache) → over c ≡ false → (enforce_rounds n now c).0 ≡ c
unfolding enforce_rounds
enforce_idle zero now c h = refl
enforce_idle (suc n) now c h = rw (h, enforce_rounds)

in_caps :
    (c : Cache) (e : Entry) (r : Result)
    → length c.ll ≤ c.cap
    → c.bytes + result_bytes (recorded r) ≤ 4194304
    → over (settled_cache c e r) ≡ false
unfolding over
in_caps c e r h b = ground (arith, length-write c.ll (settled_entry e r))

module _ (c : Cache) (v : IsValid c) (now : ℕ) (k : String) (e : Entry) (r : Result)
    (p : find k c.ll ≡ some e) (fresh : is_complete e ≡ false) (u : unrecorded r ≡ false) where
  -- What the origin records is what a later claim in the ttl is answered with, as long as the
  -- caps leave room for it.
  pub claim-finish :
      (later : ℕ)
      → length c.ll ≤ c.cap
      → c.bytes + result_bytes (recorded r) ≤ 4194304
      → expired c later e ≡ false
      → (claim (finish c now k (some r)).0 later k).1
        ≡ (if (recorded r).stream then conflict else replay (recorded r))
  unfolding enforce expired
  claim-finish later few small young =
      let s = settled_cache c e r in
      let at_end =
        finish_settles c now k e r p fresh u ∙ enforce_idle _ now s (in_caps c e r few small) in
      let own = own_key c k e p in
      let here : find k s.ll ≡ some (settled_entry e r) =
        find-write k c.ll e (settled_entry e r) own
        ∙ rw (find_key k c.ll e p) (ground (arith, str_eq_self k)) in
      rw at_end (
        ap (λ x. x.1)
          (claim_settled s later k (settled_entry e r) here (recorded r) (unfold expired in young)
            refl))

-- An origin in flight keeps its entry whatever another key's origin reports.
finish_keeps :
    (c : Cache) (now : ℕ) (k j : String) (res : Option Result) (x : Entry)
    → IsValid c
    → str_eq k j ≡ false
    → find j c.ll ≡ some x
    → InFlight c now x
    → find j (finish c now k res).0.ll ≡ some x
unfolding finish
finish_keeps c now k j res x v ne h f = elim (Option-cases (find k c.ll)) [
  | inl p ↦ rw (p, finish) h
  | inr (e, p) ↦ elim (Bool-cases (is_complete e)) [
    | inl was ↦ rw (p, finish, was) h
    | inr fresh ↦ rw (p, finish, fresh) (outcome res e p fresh)
  ]
]
  where
    gone_kept : (e : Entry) → find k c.ll ≡ some e → find j (remove c e).0.ll ≡ some x
    gone_kept e p =
        unfold remove in rw (find_key k c.ll e p, find-take_out j k c.ll v.distinct, ne) h

    outcome :
        (o : Option Result) (e : Entry)
        → find k c.ll ≡ some e
        → is_complete e ≡ false
        → find j (outcome_of c now e o).0.ll ≡ some x
    outcome none e p fresh = gone_kept e p
    outcome (some r) e p fresh = elim (Bool-cases (unrecorded r)) [
      | inl u ↦ rw u (gone_kept e p)
      | inr u ↦ rw u (
          unfold settle enforce in
          enforce_rounds_keeps _ now (settled_cache c e r) j x
            (write-IsValid c v e (settled_entry e r) c.next_waiter (own_key c k e p)
              (pending-bytes e fresh) (inr refl))
            (find-write j c.ll e (settled_entry e r) (own_key c k e p)
              ∙ rw (find_key k c.ll e p, ne) h)
            (f.0, unfold expired in f.1))
    ]

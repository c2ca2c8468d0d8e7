-- ===== src/Idempotency/Invariant.antt =====
-- The invariant of the cache of idempotency.go, kept by every method: distinct keys, exact bytes, and
-- no waiter left on a settled entry; and what `enforce` may remove.
use onegw.Prelude.{
  ℕ, zero, suc, ◌+◌, ◌≤◌, ◌≡◌, refl, ◌⊎◌, inl, inr, String, false, none, some, List, [], ◌∷◌, All,
  arith, length, str_eq, eq_iff, Bool-cases, Option-cases, ap, ◌∙◌, sym, subst,
}
use onegw.Idempotency.{
  Entry, Cache, find, take_out, write, evictable, expired, is_complete, body_bytes, remove, over,
  enforce_rounds, push_new,
}
use onegw.Idempotency.Store.{
  Distinct, total, total-take_out, length-take_out, total-write, Distinct-write, find-take_out,
  Distinct-take_out, evictable_found,
}

-- A settled entry has no waiters.
abbrev pub Settled : Entry → Type 0
Settled e = (e.res ≡ none) ⊎ (e.waiters ≡ [])

abbrev pub bytes_of : Entry → ℕ
bytes_of e = body_bytes e.res

pub record IsValid (c : Cache) : Type 0 where
  pub distinct : Distinct c.ll
  pub counted : c.bytes ≡ total bytes_of c.ll
  pub settled : All Settled c.ll

All-take_out : (P : Entry → Type 0) (k : String) (l : List Entry) → All P l → All P (take_out k l)
unfolding take_out
All-take_out P k [] a = tt
All-take_out P k (x ∷ l) a = elim (Bool-cases (str_eq x.key k)) [
  | inl s ↦ rw s (a.1)
  | inr s ↦ rw s (a.0, All-take_out P k l a.1)
]

All-write : (P : Entry → Type 0) (e' : Entry) (l : List Entry) → P e' → All P l → All P (write e' l)
unfolding write
All-write P e' [] p a = tt
All-write P e' (x ∷ l) p a = elim (Bool-cases (str_eq x.key e'.key)) [
  | inl s ↦ rw s (p, a.1)
  | inr s ↦ rw s (a.0, All-write P e' l p a.1)
]

pub All-find :
    (P : Entry → Type 0) (k : String) (l : List Entry) (e : Entry)
    → All P l
    → find k l ≡ some e
    → P e
unfolding find
All-find P k [] e a h = cc
All-find P k (x ∷ l) e a h = elim (Bool-cases (str_eq x.key k)) [
  | inl s ↦ let same : x ≡ e = ground arith in subst P same a.0
  | inr s ↦ All-find P k l e a.1 (ground arith)
]

module _ (c : Cache) (v : IsValid c) where
  pub remove-IsValid : (e : Entry) → find e.key c.ll ≡ some e → IsValid (remove c e).0
  unfolding remove
  remove-IsValid e h = record {
    distinct = Distinct-take_out e.key c.ll v.distinct;
    counted = omega (arith, v.counted, total-take_out bytes_of e.key c.ll e h);
    settled = All-take_out Settled e.key c.ll v.settled;
  }

  pub push_new-IsValid : (now : ℕ) (k : String) → find k c.ll ≡ none → IsValid (push_new c now k)
  unfolding push_new total
  push_new-IsValid now k h = record {
    distinct = (h, v.distinct);
    counted = omega (arith, v.counted);
    settled = (inl refl, v.settled);
  }

  -- An entry written over in its place, with the bytes of its record added.
  pub write-IsValid :
      (e e' : Entry) (w : ℕ)
      → find e'.key c.ll ≡ some e
      → bytes_of e ≡ 0
      → Settled e'
      → IsValid (record c { ll = write e' c.ll; bytes = c.bytes + bytes_of e'; next_waiter = w })
  write-IsValid e e' w h z s = record {
    distinct = Distinct-write c.ll e e' h v.distinct;
    counted = omega (arith, v.counted, total-write bytes_of c.ll e e' h);
    settled = All-write Settled e' c.ll s v.settled;
  }

  -- A settled entry moved to the front.
  pub to_front-IsValid :
      (e : Entry) → find e.key c.ll ≡ some e → IsValid (record c { ll = e ∷ take_out e.key c.ll })
  unfolding total
  to_front-IsValid e h = record {
    distinct = (
      find-take_out e.key e.key c.ll v.distinct ∙ ground (arith, (eq_iff e.key e.key).1),
      Distinct-take_out e.key c.ll v.distinct,
    );
    counted = omega (arith, v.counted, total-take_out bytes_of e.key c.ll e h);
    settled =
        (All-find Settled e.key c.ll e v.settled h, All-take_out Settled e.key c.ll v.settled);
  }

pub evicted_key :
    (c : Cache) (now : ℕ) (x : Entry)
    → IsValid c
    → evictable c now c.ll ≡ some x
    → find x.key c.ll ≡ some x
evicted_key c now x v h = (evictable_found c now c.ll x v.distinct h).0

pub enforce_rounds-IsValid :
    (n now : ℕ) (c : Cache) → IsValid c → IsValid (enforce_rounds n now c).0
unfolding enforce_rounds
enforce_rounds-IsValid zero now c v = v
enforce_rounds-IsValid (suc n) now c v = elim (Bool-cases (over c)) [
  | inr in_caps ↦ rw (in_caps, enforce_rounds) v
  | inl full ↦ elim (Option-cases (evictable c now c.ll)) [
    | inl p ↦ rw (full, p, enforce_rounds) v
    | inr (x, p) ↦
        rw (full, p, enforce_rounds)
          (enforce_rounds-IsValid n now (remove c x).0
            (remove-IsValid c v x (evicted_key c now x v p)))
  ]
]

length-remove :
    (c : Cache) (e : Entry) → find e.key c.ll ≡ some e → length (remove c e).0.ll + 1 ≡ length c.ll
unfolding remove
length-remove c e h = length-take_out e.key c.ll e h

-- With a round for each entry the loop ends: the caps hold, or nothing that is left may be removed.
pub enforce_rounds_end :
    (n now : ℕ) (c : Cache)
    → IsValid c
    → length c.ll ≤ n
    → let c' = (enforce_rounds n now c).0 in (over c' ≡ false) ⊎ (evictable c' now c'.ll ≡ none)
unfolding enforce_rounds
enforce_rounds_end zero now c v h = inr (no_entry c.ll h)
  where
    no_entry : (l : List Entry) → length l ≤ 0 → evictable c now l ≡ none
    no_entry [] _ = unfold evictable in refl
    no_entry (x ∷ l) h = absurd (omega arith)
enforce_rounds_end (suc n) now c v h = elim (Bool-cases (over c)) [
  | inr in_caps ↦ rw (in_caps, enforce_rounds) (inl in_caps)
  | inl full ↦ elim (Option-cases (evictable c now c.ll)) [
    | inl p ↦ rw (full, p, enforce_rounds) (inr p)
    | inr (x, p) ↦
        let f = evicted_key c now x v p in
        rw (full, p, enforce_rounds)
          (enforce_rounds_end n now (remove c x).0 (remove-IsValid c v x f)
            (omega (arith, length-remove c x f)))
  ]
]

-- An origin in flight within the ttl.
abbrev pub InFlight : Cache → ℕ → Entry → Type 0
InFlight c now e = (is_complete e ≡ false) × (expired c now e ≡ false)

remove_keeps :
    (c : Cache) (now : ℕ) (k : String) (e x : Entry)
    → IsValid c
    → find k c.ll ≡ some e
    → InFlight c now e
    → evictable c now c.ll ≡ some x
    → (find k (remove c x).0.ll ≡ some e) × InFlight (remove c x).0 now e
unfolding remove expired
remove_keeps c now k e x v h f p =
    let q = evictable_found c now c.ll x v.distinct p in
    (
      find-take_out k x.key c.ll v.distinct ∙ (elim (Bool-cases (str_eq x.key k)) [
        | inl s ↦
            let same : some x ≡ some e =
              sym q.0 ∙ (ap (λ j. find j c.ll) ((eq_iff x.key k).0 s) ∙ h) in
            absurd (unfold expired in ground arith)
        | inr s ↦ rw s h
      ]),
      f,
    )

-- `enforce` never drops an origin that is in flight.
pub enforce_rounds_keeps :
    (n now : ℕ) (c : Cache) (k : String) (e : Entry)
    → IsValid c
    → find k c.ll ≡ some e
    → InFlight c now e
    → find k (enforce_rounds n now c).0.ll ≡ some e
unfolding enforce_rounds
enforce_rounds_keeps zero now c k e v h f = h
enforce_rounds_keeps (suc n) now c k e v h f = elim (Bool-cases (over c)) [
  | inr in_caps ↦ rw (in_caps, enforce_rounds) h
  | inl full ↦ elim (Option-cases (evictable c now c.ll)) [
    | inl p ↦ rw (full, p, enforce_rounds) h
    | inr (x, p) ↦
        let q = remove_keeps c now k e x v h f p in
        rw (full, p, enforce_rounds)
          (enforce_rounds_keeps n now (remove c x).0 k e
            (remove-IsValid c v x (evicted_key c now x v p)) q.0 q.1)
  ]
]

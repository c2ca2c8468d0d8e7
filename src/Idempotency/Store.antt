-- ===== src/Idempotency/Store.antt =====
-- The entries of idempotency.go as a store: what `find`, `take_out` and `write` do to one another,
-- and to any measure that is summed over the entries.
use onegw.Prelude.{
  ℕ, ◌+◌, ◌≡◌, refl, inl, inr, String, true, false, ◌||◌, none, some, List, [], ◌∷◌, arith, length,
  str_eq, eq_iff, if◌then◌else◌, Bool-cases, Option-cases, ap, ◌∙◌,
}
use onegw.Idempotency.{Entry, Cache, find, take_out, write, evictable, expired, is_complete}

-- No two entries have the same key.
abbrev pub Distinct : List Entry → Type 0
Distinct [] = Unit {0}
Distinct (e ∷ l) = (find e.key l ≡ none) × Distinct l

unfoldable pub total : (Entry → ℕ) → List Entry → ℕ
total g [] = 0
total g (e ∷ l) = g e + total g l

pub find_key : (k : String) (l : List Entry) (e : Entry) → find k l ≡ some e → e.key ≡ k
unfolding find
find_key k [] e h = cc
find_key k (x ∷ l) e h = ground (arith, eq_iff x.key k, find_key k l e)

pub total-take_out :
    (g : Entry → ℕ) (k : String) (l : List Entry) (e : Entry)
    → find k l ≡ some e
    → total g (take_out k l) + g e ≡ total g l
unfolding find take_out total
total-take_out g k [] e h = cc
total-take_out g k (x ∷ l) e h = ground (arith, total-take_out g k l e)

pub length-take_out :
    (k : String) (l : List Entry) (e : Entry)
    → find k l ≡ some e
    → length (take_out k l) + 1 ≡ length l
unfolding find take_out
length-take_out k [] e h = cc
length-take_out k (x ∷ l) e h = ground (arith, length-take_out k l e)

pub total-write :
    (g : Entry → ℕ) (l : List Entry) (e e' : Entry)
    → find e'.key l ≡ some e
    → total g (write e' l) + g e ≡ total g l + g e'
unfolding find write total
total-write g [] e e' h = cc
total-write g (x ∷ l) e e' h = ground (arith, total-write g l e e')

pub length-write : (l : List Entry) (e' : Entry) → length (write e' l) ≡ length l
unfolding write
length-write [] e' = refl
length-write (x ∷ l) e' = ground (arith, length-write l e')

pub find-write :
    (j : String) (l : List Entry) (e e' : Entry)
    → find e'.key l ≡ some e
    → find j (write e' l) ≡ (if str_eq e'.key j then some e' else find j l)
unfolding find write
find-write j [] e e' h = cc
find-write j (x ∷ l) e e' h =
    ground (arith, eq_iff x.key j, eq_iff e'.key j, eq_iff x.key e'.key, find-write j l e e')

pub Distinct-write :
    (l : List Entry) (e e' : Entry) → find e'.key l ≡ some e → Distinct l → Distinct (write e' l)
unfolding find write
Distinct-write [] e e' h d = tt
Distinct-write (x ∷ l) e e' h d = elim (Bool-cases (str_eq x.key e'.key)) [
  | inl s ↦ rw s (rw ((eq_iff x.key e'.key).0 s) at d.0, d.1)
  | inr s ↦
      let h' : find e'.key l ≡ some e = ground arith in
      rw s (
        ground (arith, find-write x.key l e e' h', eq_iff e'.key x.key, eq_iff x.key e'.key, d.0),
        Distinct-write l e e' h' d.1,
      )
]

-- In a list of distinct keys, to take one out hides it and no other.
pub find-take_out :
    (j k : String) (l : List Entry)
    → Distinct l
    → find j (take_out k l) ≡ (if str_eq k j then none else find j l)
unfolding find take_out
find-take_out j k [] d = ground arith
find-take_out j k (x ∷ l) d = elim (Bool-cases (str_eq x.key k)) [
  | inl s ↦ let e = (eq_iff x.key k).0 s in ground (arith, e, d.0, eq_iff k j, eq_iff x.key j)
  | inr s ↦ ground (arith, eq_iff x.key j, eq_iff k j, eq_iff x.key k, find-take_out j k l d.1)
]

pub Distinct-take_out : (k : String) (l : List Entry) → Distinct l → Distinct (take_out k l)
unfolding find take_out
Distinct-take_out k [] d = tt
Distinct-take_out k (x ∷ l) d = elim (Bool-cases (str_eq x.key k)) [
  | inl s ↦ rw s (d.1)
  | inr s ↦ rw s (ground (arith, find-take_out x.key k l d.1, d.0), Distinct-take_out k l d.1)
]

key_differs :
    (x : Entry) (l : List Entry) (v : Entry)
    → find x.key l ≡ none
    → find v.key l ≡ some v
    → str_eq x.key v.key ≡ false
key_differs x l v a b = elim (Bool-cases (str_eq x.key v.key)) [
  | inl s ↦ let e = (eq_iff x.key v.key).0 s in cc (ap (λ k. find k l) e)
  | inr s ↦ s
]

-- What the scan finds stands in the list, and may go.
pub evictable_found :
    (c : Cache) (now : ℕ) (l : List Entry) (v : Entry)
    → Distinct l
    → evictable c now l ≡ some v
    → (find v.key l ≡ some v) × ((is_complete v || expired c now v) ≡ true)
unfolding find evictable
evictable_found c now [] v d h = cc
evictable_found c now (x ∷ l) v d h = elim (Option-cases (evictable c now l)) [
  | inl p ↦ ground (arith, (eq_iff x.key x.key).1)
  | inr (u, p) ↦
      let same : u ≡ v = ground arith in
      let ih = evictable_found c now l v d.1 (p ∙ ap some same) in
      (rw (key_differs x l v d.0 ih.0) (ih.0), ih.1)
]

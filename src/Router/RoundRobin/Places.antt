-- ===== src/Router/RoundRobin/Places.antt =====
-- Places of a rotated chain against places of the configured one.
use native.Mathlib.Decide.{dec_lt}
use native.Mathlib.Nat.{add_comm}
use onegw.Prelude.{
  ℕ, zero, suc, ◌+◌, ◌-◌, ◌%◌, ◌≤◌, ◌<◌, ◌≡◌, refl, sym, ◌∙◌, ap, List, [], ◌∷◌, ◌++◌, arith,
  length, take, drop, get_elem?, length-append,
}

mod_small : (a n : ℕ) → a < n → a % n ≡ a
mod_small a n h = grind arith

mod_once : (a n : ℕ) → a < n → (n + a) % n ≡ a
mod_once a n h = grind arith

module _ {ℓ} {A : Type ℓ} where
  get_elem?-drop : (l i : ℕ) (xs : List A) → get_elem? (drop l xs) i ≡ get_elem? xs (l + i)
  get_elem?-drop zero i xs = ap (get_elem? xs) (omega arith)
  get_elem?-drop (suc l) i [] = refl
  get_elem?-drop (suc l) i (x ∷ xs) =
      get_elem?-drop l i xs ∙ ap (get_elem? (x ∷ xs)) {x = suc (l + i)} (omega arith)

  get_elem?-take : (l i : ℕ) (xs : List A) → i < l → get_elem? (take l xs) i ≡ get_elem? xs i
  get_elem?-take zero i xs h = absurd (omega arith)
  get_elem?-take (suc l) i [] h = refl
  get_elem?-take (suc l) zero (x ∷ xs) h = refl
  get_elem?-take (suc l) (suc i) (x ∷ xs) h = get_elem?-take l i xs (omega arith)

  get_elem?-append_left :
      (xs ys : List A) (i : ℕ) → i < length xs → get_elem? (xs ++ ys) i ≡ get_elem? xs i
  get_elem?-append_left [] ys i h = absurd (omega arith)
  get_elem?-append_left (x ∷ xs) ys zero h = refl
  get_elem?-append_left (x ∷ xs) ys (suc i) h = get_elem?-append_left xs ys i (omega arith)

  get_elem?-append_right :
      (xs ys : List A) (i : ℕ) → get_elem? (xs ++ ys) (length xs + i) ≡ get_elem? ys i
  get_elem?-append_right [] ys i = ap (get_elem? ys) (omega arith)
  get_elem?-append_right (x ∷ xs) ys i =
      ap (get_elem? (x ∷ (xs ++ ys))) {y = suc (length xs + i)} (omega arith)
      ∙ get_elem?-append_right xs ys i

  length-drop : (l : ℕ) (xs : List A) → length (drop l xs) ≡ length xs - l
  length-drop zero xs = omega arith
  length-drop (suc l) [] = omega arith
  length-drop (suc l) (x ∷ xs) = omega (arith, length-drop l xs)

  length-take : (l : ℕ) (xs : List A) → l ≤ length xs → length (take l xs) ≡ l
  length-take zero xs h = refl
  length-take (suc l) [] h = absurd (omega arith)
  length-take (suc l) (x ∷ xs) h = ap suc (length-take l xs (omega arith))

  pub length-rotated :
      (l : ℕ) (xs : List A) → l ≤ length xs → length (drop l xs ++ take l xs) ≡ length xs
  length-rotated l xs h =
      omega (arith, length-append (drop l xs) (take l xs), length-drop l xs, length-take l xs h)

  -- The rotated place `i` is the place (i + l) % n of the configured chain.
  pub get_elem?-rotated :
      (l i : ℕ) (xs : List A)
      → l < length xs
      → i < length xs
      → get_elem? (drop l xs ++ take l xs) i ≡ get_elem? xs ((i + l) % length xs)
  get_elem?-rotated l i xs h k =
      let n = length xs in
      elim (dec_lt i (n - l)) [
        | yes p ↦
            get_elem?-append_left (drop l xs) (take l xs) i (omega (arith, length-drop l xs))
            ∙ (get_elem?-drop l i xs
                ∙ ap (get_elem? xs) (add_comm l i ∙ sym (mod_small (i + l) n (omega arith))))
        | no p ↦
            let j = i - (n - l) in
            let at : length (drop l xs) + j ≡ i = omega (arith, length-drop l xs) in
            let once : (i + l) % n ≡ j =
              ap (λ a. a % n) {x = i + l} {y = n + j} (omega arith) ∙ mod_once j n (omega arith) in
            ap (get_elem? (drop l xs ++ take l xs)) (sym at)
            ∙ (get_elem?-append_right (drop l xs) (take l xs) j
                ∙ (get_elem?-take l j xs (omega arith) ∙ ap (get_elem? xs) (sym once)))
      ]

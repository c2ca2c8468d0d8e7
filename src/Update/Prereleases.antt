-- ===== src/Update/Prereleases.antt =====
-- `comparePre` of update.go: its loop and the lengths are the order of a dictionary.
use Prim.Native.String.{String}
use text.Mathlib.TextEquality.{eq_iff}
use onegw.Prelude.{
  ℕ, suc, ◌≡◌, refl, sym, ◌∙◌, ap, Option, none, some, List, [], ◌∷◌, arith, str_eq, length,
  Bool-cases, inl, inr,
}
use onegw.Prelude.Int.{ℤ, pos}
use onegw.Update.{
  Sign, less, same, more, or_next, cmp3, compare_strings, atoi, split_dots, compare_idents,
  compare_parts, compare_pre,
}
use onegw.Update.Signs.{
  flip, Chain, Chain-or_next, flip-or_next, less_from, more_from, less_to, more_to, cmp3-flip,
  cmp3-Chain, strings-flip, strings-Chain,
}

-- Two identifiers, as the loop compares them.
abbrev ident : String → String → Sign
ident x y = compare_idents (atoi x) (atoi y) x y

idents-flip :
    (o p : Option ℤ) (x y : String) → compare_idents p o y x ≡ flip (compare_idents o p x y)
unfolding compare_idents
idents-flip none none x y = strings-flip x y
idents-flip none (some n) x y = refl
idents-flip (some m) none x y = refl
idents-flip (some m) (some n) x y = cmp3-flip m n

idents-Chain :
    (o p q : Option ℤ) (x y z : String)
    → Chain (compare_idents o p x y) (compare_idents p q y z) (compare_idents o q x z)
unfolding compare_idents
idents-Chain none none none x y z = strings-Chain x y z
idents-Chain none none (some k) x y z = more_to (compare_strings x y)
idents-Chain none (some n) none x y z = tt
idents-Chain none (some n) (some k) x y z = more_from (cmp3 n k)
idents-Chain (some m) none none x y z = less_from (compare_strings y z)
idents-Chain (some m) none (some k) x y z = tt
idents-Chain (some m) (some n) none x y z = less_to (cmp3 m n)
idents-Chain (some m) (some n) (some k) x y z = cmp3-Chain m n k

-- Lists of identifiers in the order of a dictionary, where the start of a list is less than it.
lexical : List String → List String → Sign
lexical [] [] = same
lexical [] (y ∷ ys) = less
lexical (x ∷ xs) [] = more
lexical (x ∷ xs) (y ∷ ys) = or_next (ident x y) (lexical xs ys)

or_next_assoc : (x y z : Sign) → or_next (or_next x y) z ≡ or_next x (or_next y z)
or_next_assoc less y z = refl
or_next_assoc same y z = refl
or_next_assoc more y z = refl

cmp3-suc : (m n : ℕ) → cmp3 (pos (suc m)) (pos (suc n)) ≡ cmp3 (pos m) (pos n)
cmp3-suc m n = ground arith

-- The loop and the comparison of lengths after it.
parts-lexical :
    (xs ys : List String)
    → or_next (compare_parts xs ys) (cmp3 (pos (length xs)) (pos (length ys))) ≡ lexical xs ys
unfolding compare_parts lexical
parts-lexical [] [] = ground arith
parts-lexical [] (y ∷ ys) = ground arith
parts-lexical (x ∷ xs) [] = ground arith
parts-lexical (x ∷ xs) (y ∷ ys) =
    or_next_assoc (ident x y) (compare_parts xs ys) _
    ∙ ap (λ s. or_next (ident x y) (or_next (compare_parts xs ys) s))
        (cmp3-suc (length xs) (length ys))
    ∙ ap (or_next (ident x y)) (parts-lexical xs ys)

lexical-flip : (xs ys : List String) → lexical ys xs ≡ flip (lexical xs ys)
unfolding lexical
lexical-flip [] [] = refl
lexical-flip [] (y ∷ ys) = refl
lexical-flip (x ∷ xs) [] = refl
lexical-flip (x ∷ xs) (y ∷ ys) =
    flip-or_next (ident x y) (lexical xs ys) (idents-flip (atoi x) (atoi y) x y)
      (lexical-flip xs ys)

lexical-Chain : (xs ys zs : List String) → Chain (lexical xs ys) (lexical ys zs) (lexical xs zs)
unfolding lexical
lexical-Chain [] [] [] = refl
lexical-Chain [] [] (z ∷ zs) = refl
lexical-Chain [] (y ∷ ys) [] = tt
lexical-Chain [] (y ∷ ys) (z ∷ zs) = less_from (lexical (y ∷ ys) (z ∷ zs))
lexical-Chain (x ∷ xs) [] [] = refl
lexical-Chain (x ∷ xs) [] (z ∷ zs) = tt
lexical-Chain (x ∷ xs) (y ∷ ys) [] = more_to (lexical (x ∷ xs) (y ∷ ys))
lexical-Chain (x ∷ xs) (y ∷ ys) (z ∷ zs) =
    Chain-or_next (ident x y) (ident y z) (ident x z) (lexical xs ys) (lexical ys zs)
      (lexical xs zs) (idents-Chain (atoi x) (atoi y) (atoi z) x y z) (lexical-Chain xs ys zs)

self : (s : Sign) → s ≡ flip s → s ≡ same
self less h = absurd (ground (arith, h))
self same h = refl
self more h = absurd (ground (arith, h))

-- Equal texts are only a shortcut.
pre-lexical : (a b : String) → compare_pre a b ≡ lexical (split_dots a) (split_dots b)
unfolding compare_pre
pre-lexical a b = elim (Bool-cases (str_eq a b)) [
  | inl e ↦
      let alike : a ≡ b = (eq_iff a b).0 e in
      rw e (
        sym (
          self (lexical (split_dots a) (split_dots a)) (lexical-flip (split_dots a) (split_dots a)))
        ∙ ap (λ s. lexical (split_dots a) (split_dots s)) alike)
  | inr e ↦ rw e (parts-lexical (split_dots a) (split_dots b))
]

pub pre-flip : (a b : String) → compare_pre b a ≡ flip (compare_pre a b)
pre-flip a b =
    pre-lexical b a ∙ lexical-flip (split_dots a) (split_dots b) ∙ ap flip (sym (pre-lexical a b))

pub pre-Chain : (a b c : String) → Chain (compare_pre a b) (compare_pre b c) (compare_pre a c)
pre-Chain a b c =
    rw (pre-lexical a b, pre-lexical b c, pre-lexical a c)
      (lexical-Chain (split_dots a) (split_dots b) (split_dots c))

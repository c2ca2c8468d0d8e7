-- ===== src/Update/Signs.antt =====
-- The signs that update.go compares by, and its comparisons of numbers and of texts as orders.
use Prim.Native.Char.{code}
use Prim.Native.String.{String}
use onegw.Prelude.{◌≡◌, refl, sym, ◌∙◌, ap, subst, arith}
use onegw.Prelude.Int.{ℤ, pos, negsuc}
use onegw.Update.{Sign, less, same, more, or_next, cmp3, compare_strings}

abbrev pub flip : Sign → Sign
flip less = more
flip same = same
flip more = less

-- What the signs of a to b and of b to c say of the sign of a to c.
abbrev pub Chain : Sign → Sign → Sign → Type 0
Chain same y z = z ≡ y
Chain less same z = z ≡ less
Chain less less z = z ≡ less
Chain less more z = Unit
Chain more same z = z ≡ more
Chain more less z = Unit
Chain more more z = z ≡ more

pub Chain-or_next :
    (x y z x' y' z' : Sign)
    → Chain x y z
    → Chain x' y' z'
    → Chain (or_next x x') (or_next y y') (or_next z z')
Chain-or_next same same z x' y' z' h k = subst (λ s. Chain x' y' (or_next s z')) (sym h) k
Chain-or_next same less z less y' z' h k = ap (λ s. or_next s z') h
Chain-or_next same less z same y' z' h k = ap (λ s. or_next s z') h
Chain-or_next same less z more y' z' h k = tt
Chain-or_next same more z less y' z' h k = tt
Chain-or_next same more z same y' z' h k = ap (λ s. or_next s z') h
Chain-or_next same more z more y' z' h k = ap (λ s. or_next s z') h
Chain-or_next less same z x' less z' h k = ap (λ s. or_next s z') h
Chain-or_next less same z x' same z' h k = ap (λ s. or_next s z') h
Chain-or_next less same z x' more z' h k = tt
Chain-or_next less less z x' y' z' h k = ap (λ s. or_next s z') h
Chain-or_next less more z x' y' z' h k = tt
Chain-or_next more same z x' more z' h k = ap (λ s. or_next s z') h
Chain-or_next more same z x' same z' h k = ap (λ s. or_next s z') h
Chain-or_next more same z x' less z' h k = tt
Chain-or_next more less z x' y' z' h k = tt
Chain-or_next more more z x' y' z' h k = ap (λ s. or_next s z') h

pub flip-or_next :
    {x' y' : Sign} (x y : Sign) → x' ≡ flip x → y' ≡ flip y → or_next x' y' ≡ flip (or_next x y)
flip-or_next {y' = y'} less y p q = ap (λ s. or_next s y') p
flip-or_next {y' = y'} same y p q = ap (λ s. or_next s y') p ∙ q
flip-or_next {y' = y'} more y p q = ap (λ s. or_next s y') p

-- What is less than all, or more than all.
pub less_from : (y : Sign) → Chain less y less
less_from less = refl
less_from same = refl
less_from more = tt

pub more_from : (y : Sign) → Chain more y more
more_from less = tt
more_from same = refl
more_from more = refl

pub less_to : (x : Sign) → Chain x less less
less_to less = refl
less_to same = refl
less_to more = tt

pub more_to : (x : Sign) → Chain x more more
more_to less = tt
more_to same = refl
more_to more = refl

pub cmp3-flip : (a b : ℤ) → cmp3 b a ≡ flip (cmp3 a b)
cmp3-flip (pos a) (pos b) = ground arith
cmp3-flip (pos a) (negsuc b) = ground arith
cmp3-flip (negsuc a) (pos b) = ground arith
cmp3-flip (negsuc a) (negsuc b) = ground arith

pub cmp3-Chain : (a b c : ℤ) → Chain (cmp3 a b) (cmp3 b c) (cmp3 a c)
cmp3-Chain a b c = ground arith

pub strings-flip : (s t : String) → compare_strings t s ≡ flip (compare_strings s t)
unfolding compare_strings
strings-flip String.[] String.[] = refl
strings-flip String.[] (String.◌∷◌ d t) = refl
strings-flip (String.◌∷◌ c s) String.[] = refl
strings-flip (String.◌∷◌ c s) (String.◌∷◌ d t) =
    flip-or_next (cmp3 (pos (code c)) (pos (code d))) (compare_strings s t)
      (cmp3-flip (pos (code c)) (pos (code d))) (strings-flip s t)

pub strings-Chain :
    (s t u : String) → Chain (compare_strings s t) (compare_strings t u) (compare_strings s u)
unfolding compare_strings
strings-Chain String.[] String.[] String.[] = refl
strings-Chain String.[] String.[] (String.◌∷◌ e u) = refl
strings-Chain String.[] (String.◌∷◌ d t) String.[] = tt
strings-Chain String.[] (String.◌∷◌ d t) (String.◌∷◌ e u) =
    less_from (compare_strings (String.◌∷◌ d t) (String.◌∷◌ e u))
strings-Chain (String.◌∷◌ c s) String.[] String.[] = refl
strings-Chain (String.◌∷◌ c s) String.[] (String.◌∷◌ e u) = tt
strings-Chain (String.◌∷◌ c s) (String.◌∷◌ d t) String.[] =
    more_to (compare_strings (String.◌∷◌ c s) (String.◌∷◌ d t))
strings-Chain (String.◌∷◌ c s) (String.◌∷◌ d t) (String.◌∷◌ e u) =
    Chain-or_next (cmp3 (pos (code c)) (pos (code d))) (cmp3 (pos (code d)) (pos (code e)))
      (cmp3 (pos (code c)) (pos (code e))) (compare_strings s t) (compare_strings t u)
      (compare_strings s u) (cmp3-Chain (pos (code c)) (pos (code d)) (pos (code e)))
      (strings-Chain s t u)

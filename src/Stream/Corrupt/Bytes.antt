-- ===== src/Stream/Corrupt/Bytes.antt =====
-- The loop of `observe` over the bytes that are at hand.
use onegw.Prelude.{ℕ, zero, suc, ◌-◌, List, [], ◌∷◌, ◌==◌, if◌then◌else◌}
use onegw.Stream.Utf8.{rune_size, incomplete_rune}

-- The bytes of a rune that has not arrived yet, or the offset of an invalid byte.
pub data Scan : Type 0 where
  clean : List ℕ → Scan
  invalid : ℕ → Scan

-- The first number counts the bytes left of a rune that was passed, the second is the offset.
unfoldable pub scan : ℕ → ℕ → List ℕ → Scan
scan skip at [] = clean []
scan (suc skip) at (b ∷ bs) = scan skip (suc at) bs
scan zero at (b ∷ bs) =
    let n = rune_size (b ∷ bs) in
    let rest = scan (n - 1) (suc at) bs in
    if n == 0 then (if incomplete_rune (b ∷ bs) then clean (b ∷ bs) else invalid at) else rest

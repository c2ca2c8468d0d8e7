-- ===== src/Stream/Corrupt/Chunks.antt =====
-- The verdict of corrupt.go does not depend on how the stream is cut into chunks.
use onegw.Prelude.{
  ℕ, zero, suc, ◌+◌, ◌-◌, ◌≤◌, ◌≡◌, ◌≢◌, ◌⊎◌, refl, ◌∙◌, ap, subst, true, false, ◌&&◌, List, [],
  ◌∷◌, ◌++◌, arith, length, length-append, ◌==◌, Bool-cases, inl, inr,
}
use onegw.Stream.Utf8.{width, second_fits, is_cont, rune_size, all_cont, needed, incomplete_rune}
use onegw.Stream.Corrupt.Bytes.{clean, invalid, scan}

size-append : (xs ys : List ℕ) → rune_size xs ≢ 0 → rune_size (xs ++ ys) ≡ rune_size xs
unfolding rune_size
size-append [] ys h = absurd (h refl)
size-append (b ∷ []) [] h = refl
size-append (b ∷ []) (c ∷ []) h = ground (arith, h)
size-append (b ∷ []) (c ∷ d ∷ []) h = ground (arith, h)
size-append (b ∷ []) (c ∷ d ∷ e ∷ ys) h = ground (arith, h)
size-append (b ∷ c ∷ []) [] h = refl
size-append (b ∷ c ∷ []) (d ∷ []) h = ground (arith, h)
size-append (b ∷ c ∷ []) (d ∷ e ∷ ys) h = ground (arith, h)
size-append (b ∷ c ∷ d ∷ []) [] h = refl
size-append (b ∷ c ∷ d ∷ []) (e ∷ ys) h = ground (arith, h)
size-append (b ∷ c ∷ d ∷ e ∷ xs) ys h = refl

size-le : (xs : List ℕ) → rune_size xs ≤ length xs
unfolding rune_size
size-le [] = omega arith
size-le (b ∷ []) = ground arith
size-le (b ∷ c ∷ []) = ground arith
size-le (b ∷ c ∷ d ∷ []) = ground arith
size-le (b ∷ c ∷ d ∷ e ∷ xs) = ground arith

-- The two counts of a head's bytes agree, but for a byte that needs no others.
width-needed : (b : ℕ) → ((width b ≡ needed b) × (needed b ≤ 4)) ⊎ ((needed b ≡ 0) × (width b ≤ 1))
unfolding width needed
width-needed b = ground arith

needed-ne-one : (b : ℕ) → needed b ≢ 1
unfolding needed
needed-ne-one b = ground arith

second_fits-is_cont : (b c : ℕ) → second_fits b c ≡ true → is_cont c ≡ true
unfolding second_fits
second_fits-is_cont b c h = ground (arith, h)

all_cont-append : (xs ys : List ℕ) → all_cont (xs ++ ys) ≡ (all_cont xs && all_cont ys)
unfolding all_cont
all_cont-append [] ys = refl
all_cont-append (x ∷ xs) ys = ground (arith, all_cont-append xs ys)

size-headless : (b : ℕ) (xs : List ℕ) → width b ≡ 0 → rune_size (b ∷ xs) ≡ 0
unfolding rune_size
size-headless b [] h = ground (arith, h)
size-headless b (c ∷ []) h = ground (arith, h)
size-headless b (c ∷ d ∷ []) h = ground (arith, h)
size-headless b (c ∷ d ∷ e ∷ xs) h = ground (arith, h)

size-one : (b : ℕ) (xs : List ℕ) → width b ≡ 1 → rune_size (b ∷ xs) ≡ 1
unfolding rune_size
size-one b [] h = ground (arith, h)
size-one b (c ∷ []) h = ground (arith, h)
size-one b (c ∷ d ∷ []) h = ground (arith, h)
size-one b (c ∷ d ∷ e ∷ xs) h = ground (arith, h)

-- More bytes make no rune of a sequence that is wrong already.
still-no_rune :
    (b : ℕ) (xs ys : List ℕ)
    → width b ≡ needed b
    → needed b ≤ 4
    → rune_size (b ∷ xs) ≡ 0
    → incomplete_rune (b ∷ xs) ≡ false
    → rune_size (b ∷ xs ++ ys) ≡ 0
unfolding rune_size incomplete_rune
still-no_rune b [] ys w n h k = size-headless b ys (ground (arith, w, n, h, k, needed-ne-one b))
still-no_rune b (c ∷ []) [] w n h k = h
still-no_rune b (c ∷ []) (d ∷ []) w n h k = ground (arith, w, n, h, k, second_fits-is_cont b c)
still-no_rune b (c ∷ []) (d ∷ e ∷ ys) w n h k = ground (arith, w, n, h, k, second_fits-is_cont b c)
still-no_rune b (c ∷ d ∷ []) [] w n h k = h
still-no_rune b (c ∷ d ∷ []) (e ∷ ys) w n h k = ground (arith, w, n, h, k, second_fits-is_cont b c)
still-no_rune b (c ∷ d ∷ e ∷ xs) ys w n h k = h

still_complete :
    (b : ℕ) (xs ys : List ℕ)
    → incomplete_rune (b ∷ xs) ≡ false
    → incomplete_rune (b ∷ xs ++ ys) ≡ false
unfolding incomplete_rune
still_complete b xs ys k = ground (arith, k, all_cont-append xs ys, length-append xs ys)

bad-append :
    (b : ℕ) (xs ys : List ℕ)
    → rune_size (b ∷ xs) ≡ 0
    → incomplete_rune (b ∷ xs) ≡ false
    → rune_size (b ∷ xs ++ ys) ≡ 0
bad-append b xs ys h k = elim (width-needed b) [
  | inl (w, n) ↦ still-no_rune b xs ys w n h k
  | inr (z, w) ↦ size-headless b (xs ++ ys) (ground (arith, w, h, size-one b xs))
]

clean-inj : {xs ys : List ℕ} → clean xs ≡ clean ys → xs ≡ ys
clean-inj h = ground (arith, h)

-- What a scan of some bytes found holds of any longer stream, and what it left over is scanned again.
module _ (ys : List ℕ) where
  pub scan-invalid :
      (skip at k : ℕ) (xs : List ℕ)
      → scan skip at xs ≡ invalid k
      → scan skip at (xs ++ ys) ≡ invalid k
  unfolding scan
  scan-invalid skip at k [] h = absurd (ground (arith, h))
  scan-invalid (suc skip) at k (b ∷ bs) h = scan-invalid skip (suc at) k bs h
  scan-invalid zero at k (b ∷ bs) h = elim (Bool-cases (rune_size (b ∷ bs) == 0)) [
    | inl z ↦ ground (arith, h, z, bad-append b bs ys, still_complete b bs ys)
    | inr z ↦
        let n = rune_size (b ∷ bs) in
        ground (
          arith,
          h,
          z,
          size-append (b ∷ bs) ys (ground (arith, z)),
          scan-invalid (n - 1) (suc at) k bs,
        )
  ]

  pub scan-clean :
      (skip at : ℕ) (xs rest : List ℕ)
      → skip ≤ length xs
      → scan skip at xs ≡ clean rest
      → scan skip at (xs ++ ys) ≡ scan 0 (at + length xs - length rest) (rest ++ ys)
  unfolding scan
  scan-clean zero at [] rest l h =
      subst (λ r. scan 0 at ys ≡ scan 0 (at + 0 - length r) (r ++ ys)) (clean-inj h)
        (ap (λ k. scan 0 k ys) (omega arith))
  scan-clean (suc skip) at [] rest l h = absurd (omega (arith, l))
  scan-clean (suc skip) at (b ∷ bs) rest l h =
      scan-clean skip (suc at) bs rest (omega (arith, l)) h
      ∙ ap (λ k. scan 0 (k - length rest) (rest ++ ys)) (omega arith)
  scan-clean zero at (b ∷ bs) rest l h = elim (Bool-cases (rune_size (b ∷ bs) == 0)) [
    | inl z ↦ elim (Bool-cases (incomplete_rune (b ∷ bs))) [
      | inl k ↦
          subst (λ r. scan 0 at (b ∷ bs ++ ys) ≡ scan 0 (at + suc (length bs) - length r) (r ++ ys))
            (clean-inj {xs = b ∷ bs} (ground (arith, h, z, k)))
            (ap (λ k. scan 0 k (b ∷ bs ++ ys)) (omega arith))
      | inr k ↦ absurd (ground (arith, h, z, k))
    ]
    | inr z ↦
        let n = rune_size (b ∷ bs) in
        let step =
          scan-clean (n - 1) (suc at) bs rest (omega (arith, size-le (b ∷ bs)))
            (ground (arith, h, z)) in
        ground (arith, z, size-append (b ∷ bs) ys (ground (arith, z)), step)
  ]

-- ===== src/AesCtr/Laws.antt =====
-- The counter mode undoes itself and keeps the length.
use vianium_voip.Common.{take-append-drop}
use vianium_voip.Common.{
  ℕ, zero, suc, ◌≤◌, ◌<◌, ◌≡◌, refl, sym, ap, ap₂, ◌∙◌, ◌⊎◌, inl, inr, List, [], ◌∷◌, ◌++◌, length,
  take, drop, arith, length-append, length-take, length-drop, take-append_of_eq, drop-append_of_eq,
  append-nil,
}
use vianium_voip.Common.Xor.{bit_xor_twice}
use vianium_voip.AesCtr.{increment_counter, xor_bytes, ctr_loop, ctr_xcrypt}

pub xor_bytes_twice : (bs ks : List ℕ) → xor_bytes (xor_bytes bs ks) ks ≡ bs
unfolding xor_bytes
xor_bytes_twice [] ks = refl
xor_bytes_twice (b ∷ bs) [] = refl
xor_bytes_twice (b ∷ bs) (k ∷ ks) =
    ap₂ (λ (x : ℕ) (xs : List ℕ). x ∷ xs) (bit_xor_twice b k) (xor_bytes_twice bs ks)

pub length-xor_bytes : (bs ks : List ℕ) → length (xor_bytes bs ks) ≡ length bs
unfolding xor_bytes
length-xor_bytes [] ks = refl
length-xor_bytes (b ∷ bs) [] = refl
length-xor_bytes (b ∷ bs) (k ∷ ks) = ap (λ (n : ℕ). suc n) (length-xor_bytes bs ks)

module _ (block : List ℕ → List ℕ) where
  pub length-ctr_loop :
      (n : ℕ) (c bs : List ℕ) → length bs ≤ n → length (ctr_loop block n c bs) ≡ length bs
  unfolding ctr_loop
  length-ctr_loop zero c [] h = refl
  length-ctr_loop zero c (b ∷ bs) h = absurd (omega arith)
  length-ctr_loop (suc n) c [] h = refl
  length-ctr_loop (suc n) c (b ∷ bs) h =
      let chunk = take 16 (b ∷ bs) in
      let more = drop 16 (b ∷ bs) in
      omega (
        arith,
        length-append (xor_bytes chunk (block c)) (ctr_loop block n (increment_counter c) more),
        length-xor_bytes chunk (block c),
        length-take 16 (b ∷ bs),
        length-drop 16 (b ∷ bs),
        length-ctr_loop n (increment_counter c) more (omega (arith, length-drop 16 (b ∷ bs))),
      )

  ctr_loop-chunk :
      (n : ℕ) (c xs : List ℕ)
      → 0 < length xs
      → ctr_loop block (suc n) c xs
        ≡ xor_bytes (take 16 xs) (block c) ++ ctr_loop block n (increment_counter c) (drop 16 xs)
  unfolding ctr_loop
  ctr_loop-chunk n c [] h = absurd (omega (arith, h))
  ctr_loop-chunk n c (x ∷ xs) h = refl

  no_length : (xs : List ℕ) → length xs ≡ 0 → xs ≡ []
  no_length [] h = refl
  no_length (x ∷ xs) h = absurd (omega (arith, h))

  -- A chunk of 16 bytes, or a last one with nothing behind it, is cut off again.
  cut_off :
      (xs ys : List ℕ)
      → length xs ≤ 16
      → (length xs ≡ 16) ⊎ (ys ≡ [])
      → (take 16 (xs ++ ys) ≡ xs) × (drop 16 (xs ++ ys) ≡ ys)
  cut_off xs ys h (inl e) = (take-append_of_eq 16 xs ys (sym e), drop-append_of_eq 16 xs ys (sym e))
  cut_off xs ys h (inr e) = rw (e, append-nil) (whole, nothing)
    where
      nothing : drop 16 xs ≡ []
      nothing = no_length (drop 16 xs) (omega (arith, length-drop 16 xs, h))

      whole : take 16 xs ≡ xs
      whole =
          sym (append-nil (take 16 xs))
          ∙ ap (λ (t : List ℕ). take 16 xs ++ t) (sym nothing)
          ∙ take-append-drop 16 xs

  ctr_loop_twice :
      (n : ℕ) (c bs : List ℕ) → length bs ≤ n → ctr_loop block n c (ctr_loop block n c bs) ≡ bs
  ctr_loop_twice zero c bs h = unfold ctr_loop in sym (no_length bs (omega (arith, h)))
  ctr_loop_twice (suc n) c [] h = unfold ctr_loop in refl
  ctr_loop_twice (suc n) c (b ∷ bs) h =
      ap (ctr_loop block (suc n) c) (ctr_loop-chunk n c (b ∷ bs) (omega arith))
      ∙ ctr_loop-chunk n c (front ++ back) (omega (arith, length-append front back, sizes.0))
      ∙ ap₂ (λ (x y : List ℕ). xor_bytes x (block c) ++ ctr_loop block n (increment_counter c) y)
          parts.0 parts.1
      ∙ ap₂ (λ (x y : List ℕ). x ++ y) (xor_bytes_twice chunk (block c))
          (ctr_loop_twice n (increment_counter c) more (omega (arith, length-drop 16 (b ∷ bs))))
      ∙ take-append-drop 16 (b ∷ bs)
    where
      chunk : List ℕ
      chunk = take 16 (b ∷ bs)

      more : List ℕ
      more = drop 16 (b ∷ bs)

      front : List ℕ
      front = xor_bytes chunk (block c)

      back : List ℕ
      back = ctr_loop block n (increment_counter c) more

      sizes : (0 < length front) × (length front ≤ 16) × ((length front ≡ 16) ⊎ (length back ≡ 0))
      sizes = ground (
        arith,
        length-xor_bytes chunk (block c),
        length-take 16 (b ∷ bs),
        length-drop 16 (b ∷ bs),
        length-ctr_loop n (increment_counter c) more (omega (arith, length-drop 16 (b ∷ bs))),
      )

      ended : (length front ≡ 16) ⊎ (length back ≡ 0) → (length front ≡ 16) ⊎ (back ≡ [])
      ended (inl e) = inl e
      ended (inr e) = inr (no_length back e)

      parts : (take 16 (front ++ back) ≡ front) × (drop 16 (front ++ back) ≡ back)
      parts = cut_off front back sizes.1 (ended sizes.2)

  pub length-ctr_xcrypt : (iv bs : List ℕ) → length (ctr_xcrypt block iv bs) ≡ length bs
  unfolding ctr_xcrypt
  length-ctr_xcrypt iv bs = length-ctr_loop (length bs) iv bs (omega arith)

  -- The cipher undoes itself: whatever the block cipher, applied twice with the same key and the same
  -- initial counter it gives back the bytes, at every length.
  pub ctr_xcrypt_twice : (iv bs : List ℕ) → ctr_xcrypt block iv (ctr_xcrypt block iv bs) ≡ bs
  unfolding ctr_xcrypt
  ctr_xcrypt_twice iv bs =
      ap (λ (n : ℕ). ctr_loop block n iv (ctr_loop block (length bs) iv bs))
        (length-ctr_loop (length bs) iv bs (omega arith))
      ∙ ctr_loop_twice (length bs) iv bs (omega arith)

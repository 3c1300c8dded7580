-- ===== src/PacketCrypto/Ige/Laws.antt =====
-- IGE mode is undone by its inverse: EncryptIge and DecryptIge of
-- src/voip/src/domain/voip_packet_crypto.cpp.
use vianium_voip.Common.{
  ℕ, zero, suc, ◌*◌, ◌/◌, ◌≡◌, refl, sym, ap, ap₂, ◌∙◌, List, [], ◌∷◌, some, length, take, drop,
  arith, All-take, All-drop, length-append, length-take, length-drop, take-append_of_eq,
  drop-append_of_eq, take-append-drop,
}
use vianium_voip.Common.Xor.{bit_xor_twice, bit_xor_bound}
use vianium_voip.Bytes.{IsByte, AreBytes}
use vianium_voip.PacketCrypto.Ige.{
  AesSha, xor16, encrypt_blocks, decrypt_blocks, encrypt_ige, decrypt_ige,
}

length-xor16 : (xs ys : List ℕ) → length xs ≡ length ys → length (xor16 xs ys) ≡ length ys
unfolding xor16
length-xor16 [] ys h = h
length-xor16 (a ∷ xs) [] h = refl
length-xor16 (a ∷ xs) (b ∷ ys) h = omega (arith, length-xor16 xs ys (omega arith))

xor16_twice : (xs ys : List ℕ) → length xs ≡ length ys → xor16 (xor16 xs ys) ys ≡ xs
unfolding xor16
xor16_twice [] ys h = refl
xor16_twice (a ∷ xs) [] h = absurd (omega arith)
xor16_twice (a ∷ xs) (b ∷ ys) h =
    ap₂ (λ (x : ℕ) (l : List ℕ). x ∷ l) (bit_xor_twice a b) (xor16_twice xs ys (omega arith))

xor16-AreBytes : (xs ys : List ℕ) → AreBytes xs → AreBytes ys → AreBytes (xor16 xs ys)
unfolding xor16
xor16-AreBytes [] ys p q = tt
xor16-AreBytes (a ∷ xs) [] p q = tt
xor16-AreBytes (a ∷ xs) (b ∷ ys) p q = (bit_xor_bound 8 a b p.0 q.0, xor16-AreBytes xs ys p.1 q.1)

no_bytes : (xs : List ℕ) → length xs ≡ 0 → xs ≡ []
no_bytes [] h = refl
no_bytes (x ∷ xs) h = absurd (omega (arith, h))

module _ (crypto : AesSha) (key : List ℕ) where
  pub length-encrypt_blocks :
      (n : ℕ) (prev_c prev_p bytes : List ℕ)
      → length prev_p ≡ 16
      → length bytes ≡ 16 * n
      → length (encrypt_blocks crypto key n prev_c prev_p bytes) ≡ 16 * n
  unfolding encrypt_blocks
  length-encrypt_blocks zero prev_c prev_p bytes p h = omega arith
  length-encrypt_blocks (suc n) prev_c prev_p bytes p h =
      let cur = take 16 bytes in
      let coded = crypto.encrypt_block key (xor16 cur prev_c) in
      let block = xor16 coded prev_p in
      omega (
        arith,
        length-append block (encrypt_blocks crypto key n block cur (drop 16 bytes)),
        length-xor16 coded prev_p (crypto.encrypt_size key _ ∙ sym p),
        length-encrypt_blocks n block cur (drop 16 bytes) (omega (arith, length-take 16 bytes))
            (omega (arith, length-drop 16 bytes)),
      )

  decrypt-encrypt_blocks :
      (n : ℕ) (prev_c prev_p bytes : List ℕ)
      → length prev_c ≡ 16
      → length prev_p ≡ 16
      → length bytes ≡ 16 * n
      → AreBytes prev_c
      → AreBytes prev_p
      → AreBytes bytes
      → decrypt_blocks crypto key n prev_c prev_p (encrypt_blocks crypto key n prev_c prev_p bytes)
        ≡ bytes
  unfolding encrypt_blocks decrypt_blocks
  decrypt-encrypt_blocks zero prev_c prev_p bytes c p h bc bp bb =
      sym (no_bytes bytes (omega arith))
  decrypt-encrypt_blocks (suc n) prev_c prev_p bytes c p h bc bp bb =
      rw
        (
          take-append_of_eq 16 block more size_block,
          drop-append_of_eq 16 block more size_block,
          opened,
          decrypt-encrypt_blocks n block cur rest (sym size_block) size_cur size_rest bytes_block
              (All-take IsByte 16 bytes bb) (All-drop IsByte 16 bytes bb),
        )
        (take-append-drop 16 bytes)
    where
      cur : List ℕ
      cur = take 16 bytes

      rest : List ℕ
      rest = drop 16 bytes

      mixed : List ℕ
      mixed = xor16 cur prev_c

      coded : List ℕ
      coded = crypto.encrypt_block key mixed

      block : List ℕ
      block = xor16 coded prev_p

      more : List ℕ
      more = encrypt_blocks crypto key n block cur rest

      size_cur : length cur ≡ 16
      size_cur = omega (arith, length-take 16 bytes)

      size_rest : length rest ≡ 16 * n
      size_rest = omega (arith, length-drop 16 bytes)

      size_mixed : length mixed ≡ 16
      size_mixed = length-xor16 cur prev_c (size_cur ∙ sym c) ∙ c

      size_coded : length coded ≡ length prev_p
      size_coded = crypto.encrypt_size key mixed ∙ sym p

      size_block : 16 ≡ length block
      size_block = omega (arith, length-xor16 coded prev_p size_coded)

      bytes_mixed : AreBytes mixed
      bytes_mixed = xor16-AreBytes cur prev_c (All-take IsByte 16 bytes bb) bc

      bytes_block : AreBytes block
      bytes_block = xor16-AreBytes coded prev_p (crypto.encrypt_bytes key mixed) bp

      opened : xor16 (crypto.decrypt_block key (xor16 block prev_p)) prev_c ≡ cur
      opened =
          ap (λ (l : List ℕ). xor16 (crypto.decrypt_block key l) prev_c)
            (xor16_twice coded prev_p size_coded)
          ∙ ap (λ (l : List ℕ). xor16 l prev_c)
              (crypto.decrypt-encrypt_block key mixed size_mixed bytes_mixed)
          ∙ xor16_twice cur prev_c (size_cur ∙ sym c)

  -- A whole number of blocks is encrypted, and decrypted again with the same key and vector.
  pub decrypt-encrypt_ige :
      (iv bytes : List ℕ) (n : ℕ)
      → length iv ≡ 32
      → AreBytes iv
      → AreBytes bytes
      → length bytes ≡ 16 * suc n
      → (coded : List ℕ) × (encrypt_ige crypto key iv bytes ≡ some coded)
        × (decrypt_ige crypto key iv coded ≡ some bytes)
        × (length coded ≡ length bytes)
  unfolding encrypt_ige decrypt_ige
  decrypt-encrypt_ige iv bytes n si bi bb h = (coded, encrypted, decrypted, size)
    where
      blocks : ℕ
      blocks = length bytes / 16

      c0 : List ℕ
      c0 = take 16 iv

      p0 : List ℕ
      p0 = take 16 (drop 16 iv)

      size_p0 : length p0 ≡ 16
      size_p0 = omega (arith, length-take 16 (drop 16 iv), length-drop 16 iv)

      coded : List ℕ
      coded = encrypt_blocks crypto key blocks c0 p0 bytes

      size : length coded ≡ length bytes
      size = omega (arith, length-encrypt_blocks blocks c0 p0 bytes size_p0 (omega arith))

      encrypted : encrypt_ige crypto key iv bytes ≡ some coded
      encrypted = ground arith

      undone : decrypt_blocks crypto key blocks c0 p0 coded ≡ bytes
      undone =
          decrypt-encrypt_blocks blocks c0 p0 bytes (omega (arith, length-take 16 iv)) size_p0
            (omega arith) (All-take IsByte 16 iv bi)
            (All-take IsByte 16 (drop 16 iv) (All-drop IsByte 16 iv bi)) bb

      decrypted : decrypt_ige crypto key iv coded ≡ some bytes
      decrypted = rw (size, undone) (ground (arith, h))

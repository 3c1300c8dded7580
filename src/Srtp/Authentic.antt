-- ===== src/Srtp/Authentic.antt =====
-- What Decrypt of src/voip/src/infrastructure/srtp/srtp_packet_codec.cpp accepts, on any input.
use vianium_voip.Common.{
  ℕ, zero, suc, ◌-◌, ◌/◌, ◌^◌, ◌≤◌, ◌<◌, ◌≡◌, refl, sym, ap, ap₂, ◌∙◌, List, [], ◌∷◌, true, ==_iff,
  some, length, take, drop, bit_or, bit_xor, arith, length-take, length-drop, All-take, All-drop,
}
use Prim.Native.Nat.{bit_or-bitwise}
use native.Mathlib.Nat.{pow-suc}
use vianium_voip.Common.Bits.{half_induction, bit_or_step}
use vianium_voip.Common.Xor.{bit_xor_twice, bit_xor_bound, zero-bit_xor}
use vianium_voip.Bytes.{u8, IsByte, AreBytes}
use vianium_voip.Srtp.{
  SrtpCrypto, SrtpEncryptParams, word_at, locate_payload_start, diff_bytes, constant_time_equal,
  compute_auth_tag, crypt_payload, decrypt,
}

-- Only zeros join to zero, and only equal words differ by zero.
zero-bit_or : (b : ℕ) → bit_or 0 b ≡ b
zero-bit_or b = bit_or-bitwise 0 b

bit_or_zero : (a b : ℕ) → bit_or a b ≡ 0 → (a ≡ 0) × (b ≡ 0)
bit_or_zero =
    half_induction (λ a. (b : ℕ) → bit_or a b ≡ 0 → (a ≡ 0) × (b ≡ 0))
      (λ b e. (refl, sym (zero-bit_or b) ∙ e))
      (λ n ih b e. ground (arith, e, bit_or_step (suc n) b, ih (b / 2)))

bit_or_bound : (k a b : ℕ) → a < 2 ^ k → b < 2 ^ k → bit_or a b < 2 ^ k
bit_or_bound zero a b p q = rw (below_one a p, below_one b q) (omega arith)
  where
    below_one : (x : ℕ) → x < 2 ^ 0 → x ≡ 0
    below_one x h = omega (arith, h)
bit_or_bound (suc k) a b p q =
    ground (arith, bit_or_step a b, pow-suc 2 k, bit_or_bound k (a / 2) (b / 2))

bit_xor_zero : (a b : ℕ) → bit_xor a b ≡ 0 → a ≡ b
bit_xor_zero a b e = sym (bit_xor_twice a b) ∙ ap (λ (t : ℕ). bit_xor t b) e ∙ zero-bit_xor b

join_zero :
    (d a b : ℕ) → d < 256 → a < 256 → b < 256 → u8 (bit_or d (bit_xor a b)) ≡ 0 → (d ≡ 0) × (a ≡ b)
join_zero d a b p q r e =
    let (left, right) = bit_or_zero d (bit_xor a b) exact in (left, bit_xor_zero a b right)
  where
    exact : bit_or d (bit_xor a b) ≡ 0
    exact = omega (arith, e, bit_or_bound 8 d (bit_xor a b) p (bit_xor_bound 8 a b q r))

-- The comparison sees every byte: it finds no difference only where the bytes are the same.
diff_bytes_zero :
    (d : ℕ) (xs ys : List ℕ)
    → d < 256
    → AreBytes xs
    → AreBytes ys
    → length xs ≡ length ys
    → diff_bytes d xs ys ≡ 0
    → (d ≡ 0) × (ys ≡ xs)
unfolding diff_bytes
diff_bytes_zero d [] [] p bx by l e = (e, refl)
diff_bytes_zero d [] (y ∷ ys) p bx by l e = absurd (omega (arith, l))
diff_bytes_zero d (x ∷ xs) [] p bx by l e = absurd (omega (arith, l))
diff_bytes_zero d (x ∷ xs) (y ∷ ys) p bx by l e =
    let (joined, rest) =
      diff_bytes_zero (u8 (bit_or d (bit_xor x y))) xs ys (omega arith) bx.1 by.1 (omega (arith, l))
        e in
    let (before, here) = join_zero d x y p bx.0 by.0 joined in
    (before, ap₂ (λ (z : ℕ) (zs : List ℕ). z ∷ zs) (sym here) rest)

constant_time_equal-eq :
    (xs ys : List ℕ)
    → AreBytes xs
    → AreBytes ys
    → length xs ≡ length ys
    → constant_time_equal xs ys ≡ true
    → ys ≡ xs
unfolding constant_time_equal
constant_time_equal-eq xs ys bx by l e =
    (diff_bytes_zero 0 xs ys (omega arith) bx by l ((==_iff (diff_bytes 0 xs ys) 0).0 e)).1

module _ (crypto : SrtpCrypto) where
  abbrev pub body_of : List ℕ → List ℕ
  body_of srtp = take (length srtp - 10) srtp

  abbrev pub tag_of : SrtpEncryptParams → List ℕ → List ℕ
  tag_of r srtp = compute_auth_tag crypto r.session_auth_key (body_of srtp) r.rollover_counter

  decrypt_guards :
      (r : SrtpEncryptParams) (srtp out : List ℕ)
      → decrypt crypto r srtp ≡ some out
      → (22 ≤ length srtp)
        × (0 < locate_payload_start (body_of srtp))
        × (constant_time_equal (tag_of r srtp) (drop (length srtp - 10) srtp) ≡ true)
        × (out
            ≡ crypt_payload crypto r
                (locate_payload_start (body_of srtp))
                (word_at (body_of srtp) 2)
                (body_of srtp))
  unfolding decrypt
  decrypt_guards r srtp out e = ground (arith, e)

  tag_of-AreBytes :
      (r : SrtpEncryptParams) (srtp : List ℕ)
      → AreBytes (tag_of r srtp) × (length (tag_of r srtp) ≡ 10)
  unfolding compute_auth_tag
  tag_of-AreBytes r srtp = (
    All-take IsByte 10 _ (crypto.hmac_bytes r.session_auth_key _),
    omega (
      arith,
      length-take 10 (crypto.hmac_sha1 r.session_auth_key _),
      crypto.hmac_size r.session_auth_key _,
    ),
  )

  -- Of any buffer of bytes, Decrypt gives out a packet
  -- only if the buffer has at least 22 bytes, a well-formed header, and as its last ten bytes
  -- exactly the tag that the receiver computes over all the others and its rollover counter; the
  -- packet is then those others, decrypted behind the header.
  pub decrypt_accepts :
      (r : SrtpEncryptParams) (srtp out : List ℕ)
      → AreBytes srtp
      → decrypt crypto r srtp ≡ some out
      → (22 ≤ length srtp)
        × (0 < locate_payload_start (body_of srtp))
        × (drop (length srtp - 10) srtp ≡ tag_of r srtp)
        × (out
            ≡ crypt_payload crypto r
                (locate_payload_start (body_of srtp))
                (word_at (body_of srtp) 2)
                (body_of srtp))
  decrypt_accepts r srtp out b e =
      let (long, found, checked, result) = decrypt_guards r srtp out e in
      let (bytes, size) = tag_of-AreBytes r srtp in
      (
        long,
        found,
        constant_time_equal-eq (tag_of r srtp) (drop (length srtp - 10) srtp) bytes
            (All-drop IsByte (length srtp - 10) srtp b)
            (omega (arith, size, length-drop (length srtp - 10) srtp, long)) checked,
        result,
      )

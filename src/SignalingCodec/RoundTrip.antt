-- ===== src/SignalingCodec/RoundTrip.antt =====
-- Encrypt and Decrypt of src/voip/src/domain/tgcalls_signaling_codec.cpp against one another.
use vianium_voip.Common.{
  ℕ, ◌+◌, ◌^◌, ◌≤◌, ◌<◌, ◌≡◌, refl, sym, List, ◌++◌, Bool, true, false, not, ltb, ◌==◌, ==_iff,
  if◌then◌else◌, length, take, drop, arith, length-append, length-take, length-drop,
  take-append_of_eq, drop-append_of_eq, ltb-false, lt→ltb,
}
use vianium_voip.Bytes.{write_be32, read_be32}
use vianium_voip.Bytes.Laws.{read-write_be32}
use vianium_voip.Bytes.Compare.{slice, bytes_equal, bytes_equal_self, bytes_equal-eq}
use vianium_voip.AesCtr.Laws.{length-ctr_xcrypt, ctr_xcrypt_twice}
use vianium_voip.SignalingCodec.{
  SignalingCrypto, success, fail, signaling_x, aes_ctr_xcrypt, message_key, encrypt, open_decrypted,
  decrypt,
}

-- The x of the sender's direction, and of the receiver's.
abbrev sent_x : Bool → ℕ
sent_x is_outgoing = (if is_outgoing then 0 else 8) + signaling_x

abbrev pub received_x : Bool → ℕ
received_x is_outgoing = (if is_outgoing then 8 else 0) + signaling_x

mirrored : (is_outgoing : Bool) → received_x (not is_outgoing) ≡ sent_x is_outgoing
mirrored true = refl
mirrored false = refl

module _ (crypto : SignalingCrypto) where
  length-message_key :
      (shared : List ℕ) (x : ℕ) (plain : List ℕ) → length (message_key crypto shared x plain) ≡ 16
  unfolding message_key
  length-message_key shared x plain = omega (
    arith,
    length-take 16 (drop 8 (crypto.sha256 (slice shared (88 + x) 32 ++ plain))),
    length-drop 8 (crypto.sha256 (slice shared (88 + x) 32 ++ plain)),
    crypto.sha256_size (slice shared (88 + x) 32 ++ plain),
  )

  aes_ctr_xcrypt_twice :
      (shared key : List ℕ) (x : ℕ) (bytes : List ℕ)
      → aes_ctr_xcrypt crypto shared key x (aes_ctr_xcrypt crypto shared key x bytes) ≡ bytes
  unfolding aes_ctr_xcrypt
  aes_ctr_xcrypt_twice shared key x bytes = ctr_xcrypt_twice _ _ bytes

  length-aes_ctr_xcrypt :
      (shared key : List ℕ) (x : ℕ) (bytes : List ℕ)
      → length (aes_ctr_xcrypt crypto shared key x bytes) ≡ length bytes
  unfolding aes_ctr_xcrypt
  length-aes_ctr_xcrypt shared key x bytes = length-ctr_xcrypt _ _ bytes

  open_plaintext :
      (shared : List ℕ) (x seq : ℕ) (body : List ℕ)
      → seq < 2 ^ 32
      → let plain = write_be32 seq ++ body in
        open_decrypted crypto shared x (message_key crypto shared x plain) plain ≡ success seq body
  unfolding open_decrypted
  open_plaintext shared x seq body fits =
      rw (bytes_equal_self, read-write_be32 seq body fits) (unfold write_be32 in ground arith)

  module _ (shared : List ℕ) (is_outgoing : Bool) (outer_seq : ℕ) (body : List ℕ)
      (sized : length shared ≡ 256) where
    abbrev plaintext : List ℕ
    plaintext = write_be32 outer_seq ++ body

    abbrev key : List ℕ
    key = message_key crypto shared (sent_x is_outgoing) plaintext

    abbrev cipher : List ℕ
    cipher = aes_ctr_xcrypt crypto shared key (sent_x is_outgoing) plaintext

    full_key : (length shared == 256) ≡ true
    full_key = (==_iff (length shared) 256).1 sized

    encrypted : encrypt crypto shared is_outgoing outer_seq body ≡ key ++ cipher
    unfolding encrypt
    encrypted = rw full_key

    key_size : 16 ≡ length key
    key_size = sym (length-message_key shared (sent_x is_outgoing) plaintext)

    length-encrypted : length (key ++ cipher) ≡ 20 + length body
    unfolding write_be32
    length-encrypted = omega (
      arith,
      length-append key cipher,
      key_size,
      length-aes_ctr_xcrypt shared key (sent_x is_outgoing) plaintext,
      length-append (write_be32 outer_seq) body,
    )

    -- The other side reads what was sent. With a shared key of 256 bytes, a 32-bit sequence word and a
    -- body of at least 12 bytes, what one side encrypts the other side, which has the opposite
    -- direction flag, decrypts to the same sequence word and body.
    pub decrypt-encrypt_signaling :
        outer_seq < 2 ^ 32
        → 12 ≤ length body
        → decrypt crypto shared (not is_outgoing) (encrypt crypto shared is_outgoing outer_seq body)
          ≡ success outer_seq body
    unfolding decrypt
    decrypt-encrypt_signaling fits long =
        rw
          (
            encrypted,
            full_key,
            long_enough,
            mirrored is_outgoing,
            take-append_of_eq 16 key cipher key_size,
            drop-append_of_eq 16 key cipher key_size,
            aes_ctr_xcrypt_twice,
          )
          (open_plaintext shared (sent_x is_outgoing) outer_seq body fits)
      where
        long_enough : ltb (length (key ++ cipher)) 32 ≡ false
        long_enough = ltb-false (length (key ++ cipher)) 32 (omega (arith, length-encrypted, long))

    -- A shorter body is lost. Encrypt does not pad, and what it makes of a body of fewer than 12 bytes
    -- is refused by Decrypt as too short, on either side.
    pub short_body_refused :
        (direction : Bool)
        → length body < 12
        → decrypt crypto shared direction (encrypt crypto shared is_outgoing outer_seq body)
          ≡ fail "encrypted signaling payload is too short"
    unfolding decrypt
    short_body_refused direction short = rw (
      encrypted,
      full_key,
      lt→ltb (length (key ++ cipher)) 32 (omega (arith, length-encrypted, short)),
    )

  abbrev pub decrypted_by : List ℕ → Bool → List ℕ → List ℕ
  decrypted_by shared direction bytes =
      aes_ctr_xcrypt crypto shared (take 16 bytes) (received_x direction) (drop 16 bytes)

  open_decrypted-eq-success :
      (shared : List ℕ) (x : ℕ) (msg_key dec : List ℕ) (seq : ℕ) (plain : List ℕ)
      → open_decrypted crypto shared x msg_key dec ≡ success seq plain
      → (bytes_equal msg_key (message_key crypto shared x dec) ≡ true)
        × (seq ≡ read_be32 dec)
        × (plain ≡ drop 4 dec)
  unfolding open_decrypted
  open_decrypted-eq-success shared x msg_key dec seq plain e = ground (arith, e)

  decrypt-eq-success :
      (shared : List ℕ) (direction : Bool) (bytes : List ℕ) (seq : ℕ) (plain : List ℕ)
      → decrypt crypto shared direction bytes ≡ success seq plain
      → (length shared ≡ 256)
        × (32 ≤ length bytes)
        × (open_decrypted crypto shared
              (received_x direction)
              (take 16 bytes)
              (decrypted_by shared direction bytes)
            ≡ success seq plain)
  unfolding decrypt
  decrypt-eq-success shared direction bytes seq plain e = ground (arith, e)

  -- Decrypt gives out a packet only under a shared key of 256
  -- bytes, and only if the first 16 bytes are the message key of what the others decrypt to; the
  -- sequence word and the body are then what they decrypt to.
  pub decrypt_accepts_signaling :
      (shared : List ℕ) (direction : Bool) (bytes : List ℕ) (seq : ℕ) (plain : List ℕ)
      → decrypt crypto shared direction bytes ≡ success seq plain
      → let dec = decrypted_by shared direction bytes in
        (length shared ≡ 256)
        × (32 ≤ length bytes)
        × (take 16 bytes ≡ message_key crypto shared (received_x direction) dec)
        × (seq ≡ read_be32 dec)
        × (plain ≡ drop 4 dec)
  decrypt_accepts_signaling shared direction bytes seq plain e =
      let (sized, long, opened) = decrypt-eq-success shared direction bytes seq plain e in
      let (keyed, word, rest) =
        open_decrypted-eq-success shared (received_x direction) (take 16 bytes)
          (decrypted_by shared direction bytes) seq plain opened in
      (sized, long, bytes_equal-eq (take 16 bytes) _ keyed, word, rest)

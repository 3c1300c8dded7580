-- ===== src/Srtp/RoundTrip.antt =====
-- Encrypt and Decrypt of src/voip/src/infrastructure/srtp/srtp_packet_codec.cpp against one another.
use vianium_voip.Common.{
  ℕ, zero, suc, ◌+◌, ◌-◌, ◌*◌, ◌≤◌, ◌<◌, ◌≡◌, refl, sym, ap, ◌∙◌, List, [], ◌∷◌, ◌++◌, true, false,
  ◌||◌, ltb, ◌==◌, some, ltb-false, length, take, drop, bit_and, arith, length-append, length-take,
  length-drop, take-append_of_eq, drop-append_of_eq, take-append-drop,
}
use vianium_voip.Common.Xor.{bit_xor_self}
use vianium_voip.Bytes.{byte_at, u8}
use vianium_voip.AesCtr.{ctr_xcrypt}
use vianium_voip.AesCtr.Laws.{length-ctr_xcrypt, ctr_xcrypt_twice}
use vianium_voip.Srtp.{
  SrtpCrypto, SrtpEncryptParams, word_at, skip_extension, locate_payload_start, build_packet_iv,
  packet_index, diff_bytes, constant_time_equal, note_sequence, compute_auth_tag, crypt_payload,
  seal, encrypt, decrypt,
}

byte_at-take :
    (n i : ℕ) (xs ys : List ℕ) → i < n → n ≤ length xs → byte_at (take n xs ++ ys) i ≡ byte_at xs i
byte_at-take zero i xs ys h l = elim h [ ]
byte_at-take (suc n) i [] ys h l = absurd (omega (arith, l))
byte_at-take (suc n) zero (x ∷ xs) ys h l = refl
byte_at-take (suc n) (suc i) (x ∷ xs) ys h l =
    byte_at-take n i xs ys (omega (arith, h)) (omega (arith, l))

-- Two packets of one length with the same bytes in front of the payload.
record SameHeader (n : ℕ) (xs ys : List ℕ) : Type 0 where
  pub same_length : length ys ≡ length xs
  pub same_byte : (i : ℕ) → i < n → byte_at ys i ≡ byte_at xs i

skip_extension_same :
    (xs ys : List ℕ) (offset : ℕ)
    → SameHeader (skip_extension xs offset) xs ys
    → 0 < skip_extension xs offset
    → skip_extension ys offset ≡ skip_extension xs offset
unfolding skip_extension
skip_extension_same xs ys offset s h =
    ground (arith, s.same_length, s.same_byte (offset + 2), s.same_byte (offset + 2 + 1))

extension_same :
    (n : ℕ) (xs ys : List ℕ) (offset : ℕ)
    → SameHeader n xs ys
    → skip_extension xs offset ≡ n
    → 0 < n
    → skip_extension ys offset ≡ n
extension_same n xs ys offset s e h = skip_extension_same xs ys offset (rw e s) (rw e h) ∙ e

locate_same :
    (n : ℕ) (xs ys : List ℕ)
    → SameHeader n xs ys
    → locate_payload_start xs ≡ n
    → 0 < n
    → locate_payload_start ys ≡ n
unfolding locate_payload_start
locate_same n xs ys s e h =
    let offset = 12 + u8 (bit_and (byte_at xs 0) 0x0F) * 4 in
    rw (s.same_length, s.same_byte 0 h) (ground (arith, e, h, extension_same n xs ys offset s))

diff_bytes_same : (xs : List ℕ) → diff_bytes 0 xs xs ≡ 0
unfolding diff_bytes
diff_bytes_same [] = refl
diff_bytes_same (x ∷ xs) = rw (bit_xor_self x) (diff_bytes_same xs)

locate_bound :
    (xs : List ℕ) → 0 < locate_payload_start xs → (12 ≤ locate_payload_start xs) × (12 ≤ length xs)
unfolding locate_payload_start skip_extension
locate_bound xs h = ground arith

constant_time_equal_same : (xs : List ℕ) → constant_time_equal xs xs ≡ true
unfolding constant_time_equal
constant_time_equal_same xs = rw (diff_bytes_same xs)

-- The receiver has the keys and the stream that the sender has, and its count of rollovers.
pub record Matches (r p : SrtpEncryptParams) : Type 0 where
  pub same_encr_key : r.session_encr_key ≡ p.session_encr_key
  pub same_auth_key : r.session_auth_key ≡ p.session_auth_key
  pub same_salt : r.session_salt ≡ p.session_salt
  pub same_ssrc : r.ssrc ≡ p.ssrc
  pub same_rollover : r.rollover_counter ≡ p.rollover_counter

module _ (crypto : SrtpCrypto) where
  length-tag :
      (key packet : List ℕ) (roc : ℕ) → length (compute_auth_tag crypto key packet roc) ≡ 10
  unfolding compute_auth_tag
  length-tag key packet roc =
      omega (arith, length-take 10 (crypto.hmac_sha1 key _), crypto.hmac_size key _)

  length-crypt_payload :
      (p : SrtpEncryptParams) (start seq : ℕ) (xs : List ℕ)
      → length (crypt_payload crypto p start seq xs) ≡ length xs
  unfolding crypt_payload
  length-crypt_payload p start seq xs = omega (
    arith,
    length-append (take start xs) (ctr_xcrypt _ _ (drop start xs)),
    length-ctr_xcrypt (crypto.encrypt_block p.session_encr_key)
        (build_packet_iv p.session_salt p.ssrc (packet_index p.rollover_counter seq))
        (drop start xs),
    length-take start xs,
    length-drop start xs,
  )

  crypt_payload-SameHeader :
      (p : SrtpEncryptParams) (start seq : ℕ) (xs : List ℕ)
      → start ≤ length xs
      → SameHeader start xs (crypt_payload crypto p start seq xs)
  crypt_payload-SameHeader p start seq xs h = record {
    same_length = length-crypt_payload p start seq xs;
    same_byte = λ i lt. unfold crypt_payload in byte_at-take start i xs _ lt h;
  }

  crypt_payload_twice :
      (r p : SrtpEncryptParams) (start seq : ℕ) (xs : List ℕ)
      → start ≤ length xs
      → Matches r p
      → crypt_payload crypto r start seq (crypt_payload crypto p start seq xs) ≡ xs
  unfolding crypt_payload
  crypt_payload_twice r p start seq xs h m =
      rw
        (
          m.same_encr_key,
          m.same_salt,
          m.same_ssrc,
          m.same_rollover,
          take-append_of_eq start (take start xs) _ size,
          drop-append_of_eq start (take start xs) _ size,
          ctr_xcrypt_twice,
        )
        (take-append-drop start xs)
    where
      size : start ≡ length (take start xs)
      size = omega (arith, length-take start xs, h)

  module _ (r p : SrtpEncryptParams) (rtp : List ℕ) (found : 0 < locate_payload_start rtp)
      (not_empty : locate_payload_start rtp < length rtp) (same : Matches r p) where
    abbrev start : ℕ
    start = locate_payload_start rtp

    abbrev sealed : List ℕ
    sealed = crypt_payload crypto p start (word_at rtp 2) rtp

    abbrev tag : List ℕ
    tag = compute_auth_tag crypto p.session_auth_key sealed p.rollover_counter

    header_kept : SameHeader start rtp sealed
    header_kept = crypt_payload-SameHeader p start (word_at rtp 2) rtp (omega (arith, not_empty))

    length-sealed : length sealed ≡ length rtp
    length-sealed = length-crypt_payload p start (word_at rtp 2) rtp

    body_length : length (sealed ++ tag) - 10 ≡ length rtp
    body_length = omega (
      arith,
      length-append sealed tag,
      length-sealed,
      length-tag p.session_auth_key sealed p.rollover_counter,
    )

    long_enough : ltb (length (sealed ++ tag)) 22 ≡ false
    long_enough = ltb-false _ 22 (
        omega (
          arith,
          length-append sealed tag,
          length-sealed,
          length-tag p.session_auth_key sealed p.rollover_counter,
          (locate_bound rtp found).1,
        ))

    body_taken : take (length rtp) (sealed ++ tag) ≡ sealed
    body_taken = take-append_of_eq (length rtp) sealed tag (sym length-sealed)

    tag_taken : drop (length rtp) (sealed ++ tag) ≡ tag
    tag_taken = drop-append_of_eq (length rtp) sealed tag (sym length-sealed)

    located : locate_payload_start sealed ≡ start
    located = locate_same start rtp sealed header_kept refl found

    number_kept : word_at sealed 2 ≡ word_at rtp 2
    number_kept = rw (
      header_kept.same_byte 2 (omega (arith, (locate_bound rtp found).0)),
      header_kept.same_byte 3 (omega (arith, (locate_bound rtp found).0)),
    )

    total_length : length (sealed ++ tag) ≡ length rtp + 10
    total_length = omega (
      arith,
      length-append sealed tag,
      length-sealed,
      length-tag p.session_auth_key sealed p.rollover_counter,
    )

    checked :
        constant_time_equal
          (compute_auth_tag crypto r.session_auth_key sealed r.rollover_counter)
          tag
        ≡ true
    checked = rw (same.same_auth_key, same.same_rollover) (constant_time_equal_same tag)

    opened : decrypt crypto r (sealed ++ tag) ≡ some rtp
    unfolding decrypt
    opened =
        rw (body_length, long_enough, body_taken, tag_taken, located, number_kept, checked, guard)
          (ap some
            (crypt_payload_twice r p start (word_at rtp 2) rtp (omega (arith, not_empty)) same))
      where
        guard : ((start == 0) || ltb (length rtp) start) ≡ false
        guard = ground (arith, found, not_empty)

  encrypt_found :
      (p : SrtpEncryptParams) (rtp : List ℕ) (seq : ℕ)
      → 0 < locate_payload_start rtp
      → locate_payload_start rtp < length rtp
      → encrypt crypto p rtp seq ≡ (
        note_sequence p seq,
        seal crypto (note_sequence p seq) (locate_payload_start rtp) seq rtp,
      )
  unfolding encrypt
  encrypt_found p rtp seq found not_empty = ground (arith, found, not_empty)

  -- The receiver gets back the packet. A packet whose header is well formed and whose payload is not
  -- empty is encrypted, under the sequence number that stands in its header, to a packet ten bytes
  -- longer; a receiver with the sender's keys, SSRC and rollover counter decrypts that to the packet.
  pub decrypt-encrypt :
      (r p : SrtpEncryptParams) (rtp : List ℕ)
      → 0 < locate_payload_start rtp
      → locate_payload_start rtp < length rtp
      → Matches r (note_sequence p (word_at rtp 2))
      → let sent = (encrypt crypto p rtp (word_at rtp 2)).1 in
        (length sent ≡ length rtp + 10) × (decrypt crypto r sent ≡ some rtp)
  unfolding seal
  decrypt-encrypt r p rtp found not_empty same =
      let noted = note_sequence p (word_at rtp 2) in
      rw (encrypt_found p rtp (word_at rtp 2) found not_empty)
        (total_length r noted rtp found not_empty same, opened r noted rtp found not_empty same)

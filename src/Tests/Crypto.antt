-- ===== src/Tests/Crypto.antt =====
-- The counter mode, SRTP and the signaling encryption on concrete packets, with simple functions in
-- the place of the block cipher and the hashes.
use vianium_voip.Common.{
  ℕ, zero, suc, ◌+◌, ◌-◌, ◌%◌, ◌≤◌, ◌<◌, ◌≡◌, refl, List, [], ◌∷◌, true, false, not, some, arith,
  length, take, drop, replicate,
}
use vianium_voip.Bytes.{low_byte, write_be32, AreBytes, read_be32}
use vianium_voip.AesCtr.{bump, increment_counter, xor_bytes, ctr_loop, ctr_xcrypt}
use vianium_voip.Srtp.{
  SrtpCrypto, SrtpEncryptParams, word_at, locate_payload_start, note_sequence, build_packet_iv,
  packet_index, write_be48, compute_auth_tag, crypt_payload, seal, encrypt, decrypt,
}
use vianium_voip.Srtp.RoundTrip.{decrypt-encrypt}
use vianium_voip.Srtp.Rollover.{note_all, InOrder-never_rolls}
use vianium_voip.Srtp.Authentic.{body_of, tag_of, decrypt_accepts}
use vianium_voip.SignalingCodec.{SignalingCrypto, success, fail, message_key}
use vianium_voip.SignalingCodec
use vianium_voip.SignalingCodec.RoundTrip.{
  decrypted_by, received_x, decrypt-encrypt_signaling, short_body_refused,
  decrypt_accepts_signaling,
}

count_up : increment_counter (7 ∷ 255 ∷ 255 ∷ []) ≡ 8 ∷ 0 ∷ 0 ∷ []
unfolding increment_counter bump
count_up = refl

wrap_around : increment_counter (255 ∷ 255 ∷ []) ≡ 0 ∷ 0 ∷ []
unfolding increment_counter bump
wrap_around = refl

toy_bytes : (n m : ℕ) → AreBytes (replicate n (m % 256))
toy_bytes zero m = tt
toy_bytes (suc n) m = (omega arith, toy_bytes n m)

abbrev toy : SrtpCrypto
toy = record {
  encrypt_block = λ key block. block;
  hmac_sha1 = λ key message. replicate 20 (length message % 256);
  hmac_size = λ key message. refl;
  hmac_bytes = λ key message. toy_bytes 20 (length message);
}

abbrev params : SrtpEncryptParams
params = record {
  session_encr_key = replicate 16 1;
  session_auth_key = replicate 20 2;
  session_salt = replicate 14 3;
  ssrc = 77;
  rollover_counter = 0;
  last_sequence_number = 0xFFFF;
  has_last_sequence_number = true;
}

-- Number 0, after number 0xFFFF: a header of 12 bytes and two bytes of payload.
abbrev rtp : List ℕ
rtp = 128 ∷ 96 ∷ 0 ∷ 0 ∷ 0 ∷ 0 ∷ 3 ∷ 192 ∷ 0 ∷ 0 ∷ 0 ∷ 77 ∷ 5 ∷ 6 ∷ []

rtp_start : locate_payload_start rtp ≡ 12
unfolding locate_payload_start
rtp_start = refl

-- The wrap does not count.
wrap_not_counted : (note_sequence params 0).rollover_counter ≡ 0
unfolding note_sequence
wrap_not_counted = refl

-- A packet that comes late does.
late_counted : (note_sequence (note_sequence params 5) 4).rollover_counter ≡ 1
unfolding note_sequence
late_counted = refl

decrypt-encrypt_example :
    let sent = (encrypt toy params rtp (word_at rtp 2)).1 in
    (length sent ≡ length rtp + 10)
    × (decrypt toy (note_sequence params (word_at rtp 2)) sent ≡ some rtp)
decrypt-encrypt_example =
    decrypt-encrypt toy (note_sequence params (word_at rtp 2)) params rtp
      (unfold locate_payload_start in omega arith) (unfold locate_payload_start in omega arith)
      (record {
        same_encr_key = refl;
        same_auth_key = refl;
        same_salt = refl;
        same_ssrc = refl;
        same_rollover = refl;
      })

InOrder-never_rolls_example : (note_all params (0 ∷ 1 ∷ 2 ∷ [])).rollover_counter ≡ 0
InOrder-never_rolls_example =
    InOrder-never_rolls (0 ∷ 1 ∷ 2 ∷ []) params refl (omega arith) (refl, (refl, (refl, tt)))

abbrev sent : List ℕ
sent = (encrypt toy params rtp (word_at rtp 2)).1

sent-AreBytes : AreBytes sent
unfolding encrypt seal crypt_payload compute_auth_tag locate_payload_start note_sequence ctr_xcrypt
    ctr_loop xor_bytes build_packet_iv packet_index write_be48 write_be32 low_byte
sent-AreBytes = ground arith

decrypt_accepts_example :
    (22 ≤ length sent)
    × (0 < locate_payload_start (body_of toy sent))
    × (drop (length sent - 10) sent ≡ tag_of toy (note_sequence params 0) sent)
    × (rtp
        ≡ crypt_payload toy
            (note_sequence params 0)
            (locate_payload_start (body_of toy sent))
            (word_at (body_of toy sent) 2)
            (body_of toy sent))
decrypt_accepts_example =
    decrypt_accepts toy (note_sequence params 0) sent rtp sent-AreBytes decrypt-encrypt_example.1

abbrev toy_signaling : SignalingCrypto
toy_signaling = record {
  encrypt_block = λ key block. block;
  sha256 = λ bytes. replicate 32 (length bytes % 256);
  sha256_size = λ bytes. refl;
}

abbrev shared : List ℕ
shared = replicate 256 7

decrypt-encrypt_signaling_example :
    SignalingCodec.decrypt toy_signaling shared
      (not true)
      (SignalingCodec.encrypt toy_signaling shared true 9 (replicate 12 1))
    ≡ success 9 (replicate 12 1)
decrypt-encrypt_signaling_example =
    decrypt-encrypt_signaling toy_signaling shared true 9 (replicate 12 1) refl (omega arith)
      (omega arith)

-- An acknowledgement frame of one byte.
short_body_refused_example :
    SignalingCodec.decrypt toy_signaling shared false
      (SignalingCodec.encrypt toy_signaling shared true 9 (0xFF ∷ []))
    ≡ fail "encrypted signaling payload is too short"
short_body_refused_example =
    short_body_refused toy_signaling shared true 9 (0xFF ∷ []) refl false (omega arith)

abbrev signal : List ℕ
signal = SignalingCodec.encrypt toy_signaling shared true 9 (replicate 12 1)

decrypt_accepts_signaling_example :
    let dec = decrypted_by toy_signaling shared false signal in
    (length shared ≡ 256)
    × (32 ≤ length signal)
    × (take 16 signal ≡ message_key toy_signaling shared (received_x false) dec)
    × (9 ≡ read_be32 dec)
    × (replicate 12 1 ≡ drop 4 dec)
decrypt_accepts_signaling_example =
    decrypt_accepts_signaling toy_signaling shared false signal 9 (replicate 12 1)
      decrypt-encrypt_signaling_example

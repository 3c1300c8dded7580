-- ===== src/SignalingCodec.antt =====
-- src/voip/src/domain/tgcalls_signaling_codec.{h,cpp}: the encryption of a signaling packet under
-- the call's shared key. SHA-256 and AES-256, which are not part of the repository, are a parameter;
-- the log lines are left out. A null pointer is the empty list, which the length guard rejects.
pub mod RoundTrip
use vianium_voip.Common.{
  ℕ, zero, suc, ◌+◌, ◌≡◌, List, [], ◌∷◌, ◌++◌, String, Bool, true, false, not, ◌&&◌, ltb, ◌==◌,
  if◌then◌else◌, length, take, drop,
}
use vianium_voip.Bytes.{write_be32, read_be32}
use vianium_voip.Bytes.Compare.{slice, bytes_equal}
use vianium_voip.AesCtr.{ctr_xcrypt}

-- AES-256 of one block by key and block, and SHA-256, whose digest has 32 bytes.
pub record SignalingCrypto : Type 0 where
  pub encrypt_block : List ℕ → List ℕ → List ℕ
  pub sha256 : List ℕ → List ℕ
  pub sha256_size : (bytes : List ℕ) → length (sha256 bytes) ≡ 32

-- TgcallsSignalingDecryptResult: Success with Seq and Plain, or Error.
pub data TgcallsSignalingDecryptResult : Type 0 where
  success : ℕ → List ℕ → TgcallsSignalingDecryptResult
  fail : String → TgcallsSignalingDecryptResult

abbrev pub shared_key_bytes : ℕ
shared_key_bytes = 256

abbrev pub msg_key_bytes : ℕ
msg_key_bytes = 16

abbrev pub aes_block_bytes : ℕ
aes_block_bytes = 16

abbrev pub signaling_x : ℕ
signaling_x = 128

module _ (crypto : SignalingCrypto) where
  unfoldable pub derive_signaling_aes_key_iv : List ℕ → List ℕ → ℕ → List ℕ × List ℕ
  derive_signaling_aes_key_iv shared_key msg_key x =
      let a = crypto.sha256 (msg_key ++ slice shared_key x 36) in
      let b = crypto.sha256 (slice shared_key (40 + x) 36 ++ msg_key) in
      (take 8 a ++ (slice b 8 16 ++ slice a 24 8), take 4 b ++ (slice a 8 8 ++ slice b 24 4))

  -- AesCtrXcrypt with the derived key and counter.
  unfoldable pub aes_ctr_xcrypt : List ℕ → List ℕ → ℕ → List ℕ → List ℕ
  aes_ctr_xcrypt shared_key msg_key x bytes =
      let derived = derive_signaling_aes_key_iv shared_key msg_key x in
      ctr_xcrypt (crypto.encrypt_block derived.0) derived.1 bytes

  -- `SHA256(sharedKey[88+x..88+x+32] || plaintext)[8..24]`
  unfoldable pub message_key : List ℕ → ℕ → List ℕ → List ℕ
  message_key shared_key x plaintext =
      slice (crypto.sha256 (slice shared_key (88 + x) 32 ++ plaintext)) 8 16

  unfoldable pub encrypt : List ℕ → Bool → ℕ → List ℕ → List ℕ
  encrypt shared_key is_outgoing outer_seq body =
      let plaintext = write_be32 outer_seq ++ body in
      let x = (if is_outgoing then 0 else 8) + signaling_x in
      let key = message_key shared_key x plaintext in
      if not (length shared_key == shared_key_bytes)
      then []
      else key ++ aes_ctr_xcrypt shared_key key x plaintext

  -- The check of the message key and the reading of the sequence word.
  unfoldable pub open_decrypted : List ℕ → ℕ → List ℕ → List ℕ → TgcallsSignalingDecryptResult
  open_decrypted shared_key x msg_key decrypted =
      if not (bytes_equal msg_key (message_key shared_key x decrypted))
      then fail "signaling msg_key mismatch"
      else if ltb (length decrypted) 4
      then fail "decrypted signaling payload too small for seq"
      else success (read_be32 decrypted) (drop 4 decrypted)

  unfoldable pub decrypt : List ℕ → Bool → List ℕ → TgcallsSignalingDecryptResult
  decrypt shared_key is_outgoing bytes =
      let x = (if is_outgoing then 8 else 0) + signaling_x in
      let msg_key = take msg_key_bytes bytes in
      let encrypted = drop msg_key_bytes bytes in
      if not (length shared_key == shared_key_bytes)
      then fail "shared key must be exactly 256 bytes"
      else if ltb (length bytes) (msg_key_bytes + aes_block_bytes)
      then fail "encrypted signaling payload is too short"
      else open_decrypted shared_key x msg_key (aes_ctr_xcrypt shared_key msg_key x encrypted)

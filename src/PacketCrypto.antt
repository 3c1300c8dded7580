-- ===== src/PacketCrypto.antt =====
-- src/voip/src/domain/voip_packet_crypto.{h,cpp}: the MTProto 2 short packet that goes through a relay.
-- AES-256 and SHA-256, which are not part of the repository, and the random padding are parameters.
-- A null pointer is the empty list, which the length guard refuses.
pub mod Ige
pub mod RoundTrip
pub mod Authentic
use vianium_voip.Common.{
  ℕ, ◌+◌, ◌-◌, ◌%◌, ◌/◌, List, [], ◌∷◌, ◌++◌, String, Bool, true, false, not, ◌&&◌, ◌||◌, ltb, ◌==◌,
  if◌then◌else◌, length, take, drop, Option, none, some,
}
use vianium_voip.Bytes.{u16, write_le16, read_le16}
use vianium_voip.Bytes.Compare.{slice, bytes_equal}
use vianium_voip.PacketCrypto.Ige.{AesSha, encrypt_ige, decrypt_ige}

-- VoipEncryptedPacketResult: Success with Bytes and Plain, or Error.
pub data VoipEncryptedPacketResult : Type 0 where
  success : List ℕ → List ℕ → VoipEncryptedPacketResult
  fail : String → VoipEncryptedPacketResult

abbrev pub shared_key_bytes : ℕ
shared_key_bytes = 256

abbrev pub peer_tag_bytes : ℕ
peer_tag_bytes = 16

abbrev pub msg_key_bytes : ℕ
msg_key_bytes = 16

abbrev pub aes_block_bytes : ℕ
aes_block_bytes = 16

abbrev pub max_plain_bytes : ℕ
max_plain_bytes = 1200

abbrev pub validate_shared_key : List ℕ → Bool
validate_shared_key shared_key = length shared_key == shared_key_bytes

abbrev pub validate_peer_tag : List ℕ → Bool
validate_peer_tag peer_tag = length peer_tag == peer_tag_bytes

-- The caller has tested that there are 16 bytes.
unfoldable pub same_peer_tag : List ℕ → List ℕ → Bool
same_peer_tag bytes expected =
    if length expected == 0
    then true
    else if not (validate_peer_tag expected)
    then false
    else bytes_equal (take peer_tag_bytes bytes) expected

unfoldable pub direction_offset : Bool → Bool → ℕ
direction_offset local_is_outgoing sending =
    if sending then if local_is_outgoing then 0 else 8 else if local_is_outgoing then 8 else 0

-- The number of random bytes behind the length and the plain text, of `inner` bytes together.
unfoldable pub pad_len : ℕ → ℕ
pad_len inner =
    let pad = aes_block_bytes - inner % aes_block_bytes in
    if ltb pad aes_block_bytes then pad + aes_block_bytes else pad

module _ (crypto : AesSha) where
  -- The key and the initial vector of a packet.
  unfoldable pub kdf2 : List ℕ → List ℕ → ℕ → List ℕ × List ℕ
  kdf2 shared_key msg_key x =
      let a = crypto.sha256 (msg_key ++ slice shared_key x 36) in
      let b = crypto.sha256 (slice shared_key (40 + x) 36 ++ msg_key) in
      (take 8 a ++ (slice b 8 16 ++ slice a 24 8), take 8 b ++ (slice a 8 16 ++ slice b 24 8))

  -- `SHA256(sharedKey[88+x..88+x+32] || inner)[8..24]`
  unfoldable pub message_key : List ℕ → ℕ → List ℕ → List ℕ
  message_key shared_key x inner =
      slice (crypto.sha256 (slice shared_key (88 + x) 32 ++ inner)) 8 msg_key_bytes

  -- `random n` is what GenerateRandom writes into `n` bytes.
  unfoldable pub padded : (ℕ → List ℕ) → List ℕ → List ℕ
  padded random plain =
      write_le16 (u16 (length plain)) ++ (plain ++ random (pad_len (2 + length plain)))

  -- EncryptRelayPacketMtProto2Short behind its guards.
  unfoldable pub seal : List ℕ → ℕ → List ℕ → List ℕ → List ℕ → VoipEncryptedPacketResult
  seal shared_key x peer_tag plain inner =
      let msg_key = message_key shared_key x inner in
      let derived = kdf2 shared_key msg_key x in
      elim (encrypt_ige crypto derived.0 derived.1 inner) [
        | some encrypted ↦ success (peer_tag ++ (msg_key ++ encrypted)) plain
        | none ↦ fail "VoIP AES-IGE encryption failed"
      ]

  unfoldable pub encrypt_relay_packet :
      (ℕ → List ℕ) → List ℕ → Bool → List ℕ → List ℕ → VoipEncryptedPacketResult
  encrypt_relay_packet random shared_key local_is_outgoing peer_tag plain =
      if not (validate_shared_key shared_key)
      then fail "VoIP shared key must be exactly 256 bytes"
      else if not (validate_peer_tag peer_tag)
      then fail "VoIP relay peer_tag must be exactly 16 bytes"
      else if length plain == 0 || ltb max_plain_bytes (length plain)
      then fail "VoIP plaintext packet length is invalid"
      else seal shared_key (direction_offset local_is_outgoing true) peer_tag plain
          (padded random plain)

  -- The checks of the message key, the inner length and the padding.
  unfoldable pub open_decrypted : List ℕ → ℕ → List ℕ → List ℕ → List ℕ → VoipEncryptedPacketResult
  open_decrypted shared_key x bytes msg_key decrypted =
      let plain_len = read_le16 decrypted in
      if not (bytes_equal msg_key (message_key shared_key x decrypted))
      then fail "VoIP encrypted packet msg_key mismatch"
      else if plain_len == 0 || ltb (length decrypted - 2) plain_len
      then fail "VoIP encrypted packet inner length is invalid"
      else if ltb (length decrypted - plain_len) 16
      then fail "VoIP encrypted packet padding is too short"
      else success bytes (slice decrypted 2 plain_len)

  unfoldable pub decrypt_relay_packet : List ℕ → Bool → List ℕ → List ℕ → VoipEncryptedPacketResult
  decrypt_relay_packet shared_key local_is_outgoing expected_peer_tag bytes =
      let msg_key = slice bytes peer_tag_bytes msg_key_bytes in
      let encrypted = drop (peer_tag_bytes + msg_key_bytes) bytes in
      let x = direction_offset local_is_outgoing false in
      let derived = kdf2 shared_key msg_key x in
      if not (validate_shared_key shared_key)
      then fail "VoIP shared key must be exactly 256 bytes"
      else if ltb (length bytes) (peer_tag_bytes + msg_key_bytes + aes_block_bytes)
      then fail "VoIP encrypted packet is too short"
      else if not (length expected_peer_tag == 0) && not (same_peer_tag bytes expected_peer_tag)
      then fail "VoIP relay peer_tag mismatch"
      else if not (length encrypted % aes_block_bytes == 0)
      then fail "VoIP encrypted packet length is not block aligned"
      else elim (decrypt_ige crypto derived.0 derived.1 encrypted) [
        | some decrypted ↦ open_decrypted shared_key x bytes msg_key decrypted
        | none ↦ fail "VoIP AES-IGE decryption failed"
      ]

-- ===== src/PacketCrypto/Authentic.antt =====
-- What DecryptRelayPacketMtProto2Short of src/voip/src/domain/voip_packet_crypto.cpp has checked
-- before it gives out a plain text.
use vianium_voip.Common.{Option-cases}
use vianium_voip.Common.{
  ℕ, ◌+◌, ◌<◌, ◌≤◌, ◌≡◌, refl, ◌⊎◌, inl, inr, List, [], ◌∷◌, Bool, true, false, ◌==◌, length, take,
  drop, arith, some,
}
use vianium_voip.Bytes.{read_le16}
use vianium_voip.Bytes.Compare.{slice, bytes_equal, bytes_equal-eq}
use vianium_voip.PacketCrypto.Ige.{AesSha, decrypt_ige}
use vianium_voip.PacketCrypto.{
  success, same_peer_tag, direction_offset, kdf2, message_key, open_decrypted, decrypt_relay_packet,
}

module _ (crypto : AesSha) where
  -- The packet was checked: what a successful decryption has established.
  pub record IsAuthentic (shared : List ℕ) (outgoing : Bool) (tag bytes plain : List ℕ)
      : Type 0 where
    pub decrypted : List ℕ
    pub from_packet :
        decrypt_ige crypto
          (kdf2 crypto shared (slice bytes 16 16) (direction_offset outgoing false)).0
          (kdf2 crypto shared (slice bytes 16 16) (direction_offset outgoing false)).1
          (drop 32 bytes)
        ≡ some decrypted
    pub keyed :
        slice bytes 16 16 ≡ message_key crypto shared (direction_offset outgoing false) decrypted
    pub tagged : (tag ≡ []) ⊎ (take 16 bytes ≡ tag)
    pub plain_text : plain ≡ slice decrypted 2 (read_le16 decrypted)
    pub not_empty : 0 < read_le16 decrypted
    pub within : 2 + read_le16 decrypted ≤ length decrypted
    pub padding : 16 + read_le16 decrypted ≤ length decrypted

  opened :
      (shared : List ℕ) (x : ℕ) (bytes key dec out plain : List ℕ)
      → open_decrypted crypto shared x bytes key dec ≡ success out plain
      → (bytes_equal key (message_key crypto shared x dec) ≡ true)
        × (plain ≡ slice dec 2 (read_le16 dec))
        × (0 < read_le16 dec)
        × (16 + read_le16 dec ≤ length dec)
        × (out ≡ bytes)
  unfolding open_decrypted
  opened shared x bytes key dec out plain e = ground (arith, e)

  no_tag : (tag : List ℕ) → (length tag == 0) ≡ true → tag ≡ []
  no_tag [] h = refl
  no_tag (t ∷ tag) h = absurd (ground (arith, h))

  tag_checked :
      (bytes tag : List ℕ)
      → same_peer_tag bytes tag ≡ true
      → (tag ≡ []) ⊎ (bytes_equal (take 16 bytes) tag ≡ true)
  unfolding same_peer_tag
  tag_checked bytes [] e = inl refl
  tag_checked bytes (t ∷ tag) e = ground (arith, e)

  -- A plain text is only given out for a packet that was checked. Where decryption succeeds, the bytes
  -- come back unchanged; the key in the packet is that of what they decrypt to, under the shared key
  -- and the direction; the peer tag is the expected one, if one is expected; the plain text is the part
  -- that the inner length names, which is not zero, stays within what was decrypted and leaves 16 bytes
  -- at least for the length and the padding.
  pub decrypt_accepts_relay_packet :
      (shared : List ℕ) (outgoing : Bool) (tag bytes out plain : List ℕ)
      → decrypt_relay_packet crypto shared outgoing tag bytes ≡ success out plain
      → IsAuthentic shared outgoing tag bytes plain × (out ≡ bytes)
  unfolding decrypt_relay_packet
  decrypt_accepts_relay_packet shared outgoing tag bytes out plain e =
      elim (Option-cases (decrypt_ige crypto derived.0 derived.1 (drop 32 bytes))) [
        | inl refused ↦ absurd (ground (arith, e, refused))
        | inr (dec, from) ↦ accepted dec from
      ]
    where
      x : ℕ
      x = direction_offset outgoing false

      key : List ℕ
      key = slice bytes 16 16

      derived : List ℕ × List ℕ
      derived = kdf2 crypto shared key x

      accepted :
          (dec : List ℕ)
          → decrypt_ige crypto derived.0 derived.1 (drop 32 bytes) ≡ some dec
          → IsAuthentic shared outgoing tag bytes plain × (out ≡ bytes)
      accepted dec from = (
        record {
          decrypted = dec;
          from_packet = from;
          keyed = bytes_equal-eq key (message_key crypto shared x dec) inside.0;
          tagged = same;
          plain_text = inside.1;
          not_empty = inside.2;
          within = omega (arith, inside.3);
          padding = inside.3;
        },
        inside.4,
      )
        where
          guards :
              (open_decrypted crypto shared x bytes key dec ≡ success out plain)
              × ((tag ≡ []) ⊎ (same_peer_tag bytes tag ≡ true))
          guards = ground (arith, e, from, no_tag tag)

          inside :
              (bytes_equal key (message_key crypto shared x dec) ≡ true)
              × (plain ≡ slice dec 2 (read_le16 dec))
              × (0 < read_le16 dec)
              × (16 + read_le16 dec ≤ length dec)
              × (out ≡ bytes)
          inside = opened shared x bytes key dec out plain guards.0

          same : (tag ≡ []) ⊎ (take 16 bytes ≡ tag)
          same = elim guards.1 [
            | inl none_expected ↦ inl none_expected
            | inr e ↦ elim (tag_checked bytes tag e) [
              | inl none_expected ↦ inl none_expected
              | inr eq ↦ inr (bytes_equal-eq (take 16 bytes) tag eq)
            ]
          ]

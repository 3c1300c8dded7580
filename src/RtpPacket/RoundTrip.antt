-- ===== src/RtpPacket/RoundTrip.antt =====
-- Encode and Decode of src/voip/src/domain/voip_rtp_packet.cpp against one another.
use vianium_voip.Common.{
  ℕ, suc, ◌+◌, ◌/◌, ◌%◌, ◌^◌, ◌≤◌, ◌<◌, ◌≡◌, refl, ap, List, [], ◌∷◌, ◌++◌, arith, length,
  replicate, bit_and, ◌↔◌, All-get_or, length-drop,
}
use vianium_voip.Common.Bits.{bit_and_mask}
use vianium_voip.Bytes.{IsByte, AreBytes, byte_at, u8, write_be16, write_be24, write_be32, overlay}
use vianium_voip.Bytes.Laws.{read-write_be16, read-write_be24, read-write_be32}
use vianium_voip.RtpPacket.{VoipRtpPacket, success, packet_bytes, encode, read_packet, decode}

-- The fields fit the widths of the struct; the encoder itself checks the payload type and the
-- 24-bit field.
pub record IsValid (p : VoipRtpPacket) : Type 0 where
  pub sequence_fits : p.sequence_number < 2 ^ 16
  pub timestamp_fits : p.timestamp < 2 ^ 32
  pub ssrc_fits : p.ssrc < 2 ^ 32

overlay_zeros : (bs : List ℕ) → overlay bs (replicate (length bs) 0) ≡ bs
overlay_zeros [] = refl
overlay_zeros (b ∷ bs) = ap (◌∷◌ b) (overlay_zeros bs)

replicate_header : (n : ℕ) → replicate {A = ℕ} (16 + n) 0 ≡ replicate 16 0 ++ replicate n 0
replicate_header n = ap (λ (m : ℕ). replicate {A = ℕ} m 0) sixteen
  where
    sixteen :
        16 + n
        ≡ suc (
            suc
              (suc (suc (suc (suc (suc (suc (suc (suc (suc (suc (suc (suc (suc (suc n)))))))))))))))
    sixteen = omega arith

-- The buffer after all writes: the header's fields one after the other, then the payload.
abbrev wire : VoipRtpPacket → List ℕ
wire p =
    0x80
    ∷ u8 (bit_and p.payload_type 0x7F)
    ∷ (write_be16 p.sequence_number
        ++ (write_be32 p.timestamp
            ++ (write_be32 p.ssrc
                ++ (p.telegram_flags ∷ (write_be24 p.telegram_sequence_or_ack ++ p.payload)))))

packet_bytes-wire : (p : VoipRtpPacket) → packet_bytes p ≡ wire p
unfolding packet_bytes write_be16 write_be24 write_be32
packet_bytes-wire p = rw (replicate_header (length p.payload)) (rw (overlay_zeros p.payload))

encode-wire :
    (p : VoipRtpPacket)
    → p.payload_type ≤ 127
    → p.telegram_sequence_or_ack ≤ 0xFFFFFF
    → 0 < length p.payload
    → length p.payload ≤ 1200
    → encode p ≡ success p (wire p)
unfolding encode
encode-wire p kind ext pos fits = ground (arith, packet_bytes-wire p)

seven_bits : (n : ℕ) → n ≤ 127 → u8 (bit_and n 0x7F) ≡ n
seven_bits n h = omega (arith, bit_and_mask 7 n)

read_packet-wire :
    (p : VoipRtpPacket)
    → IsValid p
    → p.payload_type ≤ 127
    → p.telegram_sequence_or_ack ≤ 0xFFFFFF
    → read_packet (wire p) ≡ p
unfolding read_packet write_be16 write_be24 write_be32
read_packet-wire p v kind ext =
    let tail3 = write_be24 p.telegram_sequence_or_ack ++ p.payload in
    let tail2 = write_be32 p.ssrc ++ (p.telegram_flags ∷ tail3) in
    ground (
      arith,
      seven_bits p.payload_type kind,
      seven_bits (u8 (bit_and p.payload_type 0x7F)),
      read-write_be16 p.sequence_number (write_be32 p.timestamp ++ tail2),
      read-write_be32 p.timestamp tail2,
      read-write_be32 p.ssrc (p.telegram_flags ∷ tail3),
      read-write_be24 p.telegram_sequence_or_ack p.payload,
    )

decode-wire :
    (p : VoipRtpPacket)
    → read_packet (wire p) ≡ p
    → 0 < length p.payload
    → length p.payload ≤ 1200
    → decode (wire p) ≡ success p (wire p)
unfolding decode write_be16 write_be24 write_be32
decode-wire p same pos fits = ground (arith, ap (λ (q : VoipRtpPacket). length q.payload) same)

-- A packet with a 7-bit payload type, a 24-bit sequence or acknowledgement and 1 to 1200 bytes of
-- payload is encoded, and its encoding decodes to the same packet.
pub decode-encode :
    (p : VoipRtpPacket)
    → IsValid p
    → p.payload_type ≤ 127
    → p.telegram_sequence_or_ack ≤ 0xFFFFFF
    → 0 < length p.payload
    → length p.payload ≤ 1200
    → (bytes : List ℕ) × (length bytes ≡ 16 + length p.payload)
      × (encode p ≡ success p bytes)
      × (decode bytes ≡ success p bytes)
decode-encode p v kind ext pos fits = (
  wire p,
  unfold write_be16 write_be24 write_be32 in omega arith,
  encode-wire p kind ext pos fits,
  decode-wire p (read_packet-wire p v kind ext) pos fits,
)

-- What the encoder accepts has a payload of 1 to 1200 bytes, a 7-bit payload type and a 24-bit
-- extension word.
pub encode_accepts :
    (p q : VoipRtpPacket) (bytes : List ℕ)
    → encode p ≡ success q bytes
    → (q ≡ p)
      × (0 < length p.payload)
      × (length p.payload ≤ 1200)
      × (p.payload_type ≤ 127)
      × (p.telegram_sequence_or_ack ≤ 0xFFFFFF)
unfolding encode
encode_accepts p q bytes e = ground arith

version_bits : (b : ℕ) → b < 256 → u8 (bit_and (b / 2 ^ 6) 0x03) ≡ b / 64
version_bits b h = omega (arith, bit_and_mask 2 (b / 64))

csrc_bits : (b : ℕ) → u8 (bit_and b 0x0F) ≡ b % 16
csrc_bits b = omega (arith, bit_and_mask 4 b)

-- Of any buffer of bytes the decoder accepts exactly those with version 2, no CSRC entries and a
-- payload of 1 to 1200 bytes behind the 16-byte header; the padding, extension and marker bits are
-- not looked at.
pub decode_accepts_iff :
    (bytes : List ℕ)
    → AreBytes bytes
    → ((p : VoipRtpPacket) × (decode bytes ≡ success p bytes)) ↔ (
        (byte_at bytes 0 / 64 ≡ 2)
        × (byte_at bytes 0 % 16 ≡ 0)
        × (17 ≤ length bytes)
        × (length bytes ≤ 1216))
unfolding decode read_packet
decode_accepts_iff bytes b = (forward, backward)
  where
    first : byte_at bytes 0 < 256
    first = All-get_or IsByte bytes 0 0 (omega arith) b

    forward :
        (p : VoipRtpPacket) × (decode bytes ≡ success p bytes)
        → (byte_at bytes 0 / 64 ≡ 2)
          × (byte_at bytes 0 % 16 ≡ 0)
          × (17 ≤ length bytes)
          × (length bytes ≤ 1216)
    forward (p, e) = ground (
      arith,
      version_bits (byte_at bytes 0) first,
      csrc_bits (byte_at bytes 0),
      length-drop 16 bytes,
    )

    backward :
        (byte_at bytes 0 / 64 ≡ 2)
          × (byte_at bytes 0 % 16 ≡ 0)
          × (17 ≤ length bytes)
          × (length bytes ≤ 1216)
        → (p : VoipRtpPacket) × (decode bytes ≡ success p bytes)
    backward h = (
      read_packet bytes,
      ground (
        arith,
        version_bits (byte_at bytes 0) first,
        csrc_bits (byte_at bytes 0),
        length-drop 16 bytes,
      ),
    )

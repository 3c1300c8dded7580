-- ===== src/Tests/Rtp.antt =====
-- The codec of src/voip/src/domain/voip_rtp_packet.cpp on concrete packets.
use vianium_voip.Common.{ℕ, ◌+◌, ◌/◌, ◌%◌, ◌≤◌, ◌≡◌, refl, ◌↔◌, List, [], ◌∷◌, arith, length}
use vianium_voip.Bytes.{
  byte_at, low_byte, write_be16, write_be24, write_be32, read_be16, read_be24, read_be32,
}
use vianium_voip.RtpPacket.{VoipRtpPacket, success, packet_bytes, encode, read_packet, decode}
use vianium_voip.RtpPacket.RoundTrip.{decode-encode, decode_accepts_iff}

abbrev voice : VoipRtpPacket
voice = record {
  payload_type = 96;
  sequence_number = 0x0102;
  timestamp = 960;
  ssrc = 0x0A0B0C0D;
  telegram_flags = 1;
  telegram_sequence_or_ack = 0x010203;
  payload = 42 ∷ [];
}

abbrev voice_bytes : List ℕ
voice_bytes = 128 ∷ 96 ∷ 1 ∷ 2 ∷ 0 ∷ 0 ∷ 3 ∷ 192 ∷ 10 ∷ 11 ∷ 12 ∷ 13 ∷ 1 ∷ 1 ∷ 2 ∷ 3 ∷ 42 ∷ []

encode-voice : encode voice ≡ success voice voice_bytes
unfolding encode packet_bytes write_be16 write_be24 write_be32 low_byte
encode-voice = refl

decode-voice : decode voice_bytes ≡ success voice voice_bytes
unfolding decode read_packet read_be16 read_be24 read_be32
decode-voice = refl

decode-encode_example :
    (bytes : List ℕ) × (length bytes ≡ 16 + length voice.payload)
    × (encode voice ≡ success voice bytes)
    × (decode bytes ≡ success voice bytes)
decode-encode_example =
    decode-encode voice
      (record {
        sequence_fits = omega arith;
        timestamp_fits = omega arith;
        ssrc_fits = omega arith;
      })
      (omega arith) (omega arith) (omega arith) (omega arith)

decode_accepts_iff_example :
    ((p : VoipRtpPacket) × (decode voice_bytes ≡ success p voice_bytes)) ↔ (
      (byte_at voice_bytes 0 / 64 ≡ 2)
      × (byte_at voice_bytes 0 % 16 ≡ 0)
      × (17 ≤ length voice_bytes)
      × (length voice_bytes ≤ 1216))
decode_accepts_iff_example = decode_accepts_iff voice_bytes (ground arith)

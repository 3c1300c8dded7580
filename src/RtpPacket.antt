-- ===== src/RtpPacket.antt =====
-- src/voip/src/domain/voip_rtp_packet.{h,cpp}: the RTP packets of a call, a 16-byte header (12 bytes of
-- RTP, then Telegram's flags and 24-bit sequence or acknowledgement) and the payload. A null pointer
-- is the empty list, which the same guard rejects.
pub mod RoundTrip
use vianium_voip.Common.{
  ℕ, ◌+◌, ◌*◌, ◌/◌, ◌^◌, ◌<◌, List, [], ◌∷◌, String, not, ◌==◌, ltb, if◌then◌else◌, length, drop,
  replicate, bit_and,
}
use vianium_voip.Bytes.{
  byte_at, u8, write_be16, write_be24, write_be32, read_be16, read_be24, read_be32, write_at,
}

pub record VoipRtpPacket : Type 0 where
  pub payload_type : ℕ
  pub sequence_number : ℕ
  pub timestamp : ℕ
  pub ssrc : ℕ
  pub telegram_flags : ℕ
  pub telegram_sequence_or_ack : ℕ
  pub payload : List ℕ

-- VoipRtpCodecResult: Success with the packet and the bytes, or Error.
pub data VoipRtpCodecResult : Type 0 where
  success : VoipRtpPacket → List ℕ → VoipRtpCodecResult
  fail : String → VoipRtpCodecResult

abbrev pub header_bytes : ℕ
header_bytes = 16

abbrev pub max_payload_bytes : ℕ
max_payload_bytes = 1200

-- `r.Bytes.resize(HeaderBytes + size)` and the writes into it, in the source's order.
unfoldable pub packet_bytes : VoipRtpPacket → List ℕ
packet_bytes packet =
    let out0 = replicate (header_bytes + length packet.payload) 0 in
    let out1 = write_at 0 (0x80 ∷ []) out0 in
    let out2 = write_at 1 (u8 (bit_and packet.payload_type 0x7F) ∷ []) out1 in
    let out3 = write_at 2 (write_be16 packet.sequence_number) out2 in
    let out4 = write_at 4 (write_be32 packet.timestamp) out3 in
    let out5 = write_at 8 (write_be32 packet.ssrc) out4 in
    let out6 = write_at 12 (packet.telegram_flags ∷ []) out5 in
    let out7 = write_at 13 (write_be24 packet.telegram_sequence_or_ack) out6 in
    write_at header_bytes packet.payload out7

unfoldable pub encode : VoipRtpPacket → VoipRtpCodecResult
encode packet =
    if length packet.payload == 0
    then fail "RTP payload is empty"
    else if ltb max_payload_bytes (length packet.payload)
    then fail "RTP payload exceeds conservative UDP MTU budget"
    else if ltb 127 packet.payload_type
    then fail "RTP payload type must fit in 7 bits"
    else if ltb 0xFFFFFF packet.telegram_sequence_or_ack
    then fail "Telegram RTP extension sequence/ack must fit in 24 bits"
    else success packet (packet_bytes packet)

unfoldable pub read_packet : List ℕ → VoipRtpPacket
read_packet bytes = record {
  payload_type = u8 (bit_and (byte_at bytes 1) 0x7F);
  sequence_number = read_be16 (drop 2 bytes);
  timestamp = read_be32 (drop 4 bytes);
  ssrc = read_be32 (drop 8 bytes);
  telegram_flags = byte_at bytes 12;
  telegram_sequence_or_ack = read_be24 (drop 13 bytes);
  payload = drop header_bytes bytes;
}

unfoldable pub decode : List ℕ → VoipRtpCodecResult
decode bytes =
    let version = u8 (bit_and (byte_at bytes 0 / 2 ^ 6) 0x03) in
    let csrc_count = u8 (bit_and (byte_at bytes 0) 0x0F) in
    let packet = read_packet bytes in
    if ltb (length bytes) header_bytes
    then fail "RTP packet is too short"
    else if not (version == 2)
    then fail "RTP version must be 2"
    else if not (csrc_count == 0)
    then fail "RTP CSRC lists are not supported for Telegram calls"
    else if length packet.payload == 0
    then fail "RTP payload is empty"
    else if ltb max_payload_bytes (length packet.payload)
    then fail "RTP payload exceeds conservative UDP MTU budget"
    else success packet bytes

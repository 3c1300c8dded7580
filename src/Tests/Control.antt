-- ===== src/Tests/Control.antt =====
-- The codec of src/voip/src/domain/voip_control_packet.cpp on concrete packets.
use vianium_voip.Common.{ℕ, ◌≡◌, refl, List, [], ◌∷◌, true, arith}
use vianium_voip.Bytes.{low_byte, write_le32, read_le16, read_le32}
use vianium_voip.ControlPacket.{
  VoipControlPacket, VoipInitAckInfo, success, fail, ping, type_value, type_of_value, is_known_type,
  encode_short, decode_short, parse_init_ack_payload, read_streams, read_stream, has_bytes,
}
use vianium_voip.ControlPacket.RoundTrip.{decode-encode_short}

abbrev ping_packet : VoipControlPacket
ping_packet = record {
  packet_type = ping;
  ack_sequence = 0x01020304;
  sequence = 7;
  ack_mask = 0xFFFF_FFFF;
  extra_flags = 0;
  payload = 9 ∷ 8 ∷ [];
}

abbrev ping_bytes : List ℕ
ping_bytes = 6 ∷ 4 ∷ 3 ∷ 2 ∷ 1 ∷ 7 ∷ 0 ∷ 0 ∷ 0 ∷ 255 ∷ 255 ∷ 255 ∷ 255 ∷ 0 ∷ 9 ∷ 8 ∷ []

encode_ping : encode_short ping_packet ≡ success ping_packet ping_bytes
unfolding encode_short write_le32 low_byte type_value is_known_type
encode_ping = refl

decode_ping : decode_short ping_bytes ≡ success ping_packet ping_bytes
unfolding decode_short read_le32 type_of_value is_known_type
decode_ping = refl

decode_too_short : decode_short (6 ∷ []) ≡ fail "VoIP control packet is too short"
unfolding decode_short
decode_too_short = refl

decode-encode_short_example :
    (bytes : List ℕ) × (encode_short ping_packet ≡ success ping_packet bytes)
    × (decode_short bytes ≡ success ping_packet bytes)
decode-encode_short_example =
    decode-encode_short ping_packet
      (record { ack_fits = omega arith; sequence_fits = omega arith; mask_fits = omega arith })
      (omega arith)

-- Two streams: a disabled one, then the Opus stream 5 with frames of 20 ms.
abbrev two_streams : List ℕ
two_streams =
    9 ∷ 0 ∷ 0 ∷ 0 ∷ 3 ∷ 0 ∷ 0 ∷ 0 ∷ 2 ∷ 4 ∷ 1 ∷ 0x53 ∷ 0x55 ∷ 0x50 ∷ 0x4F ∷ 60 ∷ 0 ∷ 0 ∷ 5 ∷ 1
    ∷ 0x53 ∷ 0x55 ∷ 0x50 ∷ 0x4F ∷ 20 ∷ 0 ∷ 1 ∷ []

abbrev opus_at_20ms : VoipInitAckInfo
opus_at_20ms = record {
  peer_version = 9;
  peer_min_version = 3;
  has_audio_opus_stream = true;
  audio_stream_id = 5;
  frame_duration_ms = 20;
  audio_enabled = true;
}

parse_two_streams : parse_init_ack_payload two_streams ≡ success opus_at_20ms two_streams
unfolding parse_init_ack_payload read_streams read_stream has_bytes read_le32 read_le16
parse_two_streams = refl

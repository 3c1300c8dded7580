-- ===== src/Tests/Stream.antt =====
-- The codec of src/voip/src/domain/voip_stream_data_packet.cpp on concrete frames.
use vianium_voip.Common.{ℕ, ◌≡◌, refl, List, [], ◌∷◌, ◌++◌, arith}
use vianium_voip.Bytes.{low_byte, write_le32, read_le16, read_le32}
use vianium_voip.StreamData.{
  VoipStreamDataPacket, success, fail, encode_audio, decode_one, decode_payload, decode_len16,
}
use vianium_voip.StreamData.RoundTrip.{decode_one-encode_audio}

abbrev three_bytes : VoipStreamDataPacket
three_bytes = record { stream_id = 1; timestamp = 960; opus_payload = 7 ∷ 8 ∷ 9 ∷ [] }

abbrev three_bytes_wire : List ℕ
three_bytes_wire = 1 ∷ 3 ∷ 192 ∷ 3 ∷ 0 ∷ 0 ∷ 7 ∷ 8 ∷ 9 ∷ []

encode_three : encode_audio 1 960 (7 ∷ 8 ∷ 9 ∷ []) ≡ success three_bytes three_bytes_wire
unfolding encode_audio write_le32 low_byte
encode_three = refl

-- One byte follows the packet.
decode_three : decode_one (three_bytes_wire ++ (5 ∷ [])) ≡ success three_bytes three_bytes_wire
unfolding decode_one decode_payload read_le32
decode_three = refl

decode_fragmented :
    decode_one (65 ∷ 0 ∷ 64 ∷ 0 ∷ 0 ∷ 0 ∷ 0 ∷ [])
    ≡ fail "VoIP fragmented stream data is not supported yet"
unfolding decode_one decode_len16 read_le16
decode_fragmented = refl

decode_one-encode_audio_example :
    (bytes : List ℕ) × (encode_audio 1 960 (7 ∷ 8 ∷ 9 ∷ []) ≡ success three_bytes bytes)
    × ((rest : List ℕ) → decode_one (bytes ++ rest) ≡ success three_bytes bytes)
decode_one-encode_audio_example =
    decode_one-encode_audio 1 960 (7 ∷ 8 ∷ 9 ∷ []) (omega arith) (omega arith) (omega arith)
      (omega arith) (omega arith)

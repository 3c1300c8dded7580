-- ===== src/StreamData.antt =====
-- src/voip/src/domain/voip_stream_data_packet.{h,cpp}: one Opus frame in a STREAM_DATA packet. A null
-- pointer is the empty list, which the same guards reject.
pub mod RoundTrip
pub mod Accepted
use vianium_voip.Common.{
  ℕ, ◌+◌, ◌-◌, ◌<◌, ◌^◌, List, [], ◌∷◌, ◌++◌, String, Bool, not, ◌||◌, ltb, ◌==◌, if◌then◌else◌,
  length, take, drop, bit_and, bit_or,
}
use vianium_voip.Bytes.{byte_at, u8, u16, write_le16, write_le32, read_le16, read_le32}

pub record VoipStreamDataPacket : Type 0 where
  pub stream_id : ℕ
  pub timestamp : ℕ
  pub opus_payload : List ℕ

-- VoipStreamDataCodecResult: Success with the packet and the bytes, or Error.
pub data VoipStreamDataCodecResult : Type 0 where
  success : VoipStreamDataPacket → List ℕ → VoipStreamDataCodecResult
  fail : String → VoipStreamDataCodecResult

abbrev pub flag_len16 : ℕ
flag_len16 = 0x40

abbrev pub flag_has_more_flags : ℕ
flag_has_more_flags = 0x80

abbrev pub x_flag_fragmented : ℕ
x_flag_fragmented = 0x4000

abbrev pub x_flag_extra_fec : ℕ
x_flag_extra_fec = 0x2000

abbrev pub length_mask : ℕ
length_mask = 0x07FF

abbrev pub max_opus_payload_bytes : ℕ
max_opus_payload_bytes = 1100

-- `if (flags & mask)`
abbrev pub has_flag : ℕ → ℕ → Bool
has_flag flags mask = not (bit_and flags mask == 0)

unfoldable pub encode_audio : ℕ → ℕ → List ℕ → VoipStreamDataCodecResult
encode_audio stream_id timestamp opus =
    let flags = if ltb 255 (length opus) then flag_len16 else 0 in
    if stream_id == 0 || ltb 0x3F stream_id
    then fail "VoIP stream id must fit in 6 bits"
    else if length opus == 0
    then fail "VoIP stream payload is empty"
    else if ltb max_opus_payload_bytes (length opus)
    then fail "VoIP stream payload exceeds relay MTU budget"
    else success (record { stream_id = stream_id; timestamp = timestamp; opus_payload = opus })
        (u8 (bit_or (bit_and stream_id 0x3F) flags)
          ∷ ((if has_flag flags flag_len16
                then write_le16 (u16 (length opus))
                else u8 (length opus) ∷ [])
              ++ (write_le32 timestamp ++ opus)))

-- What follows once the length field has been read and `offset` stands behind it.
unfoldable pub decode_payload : List ℕ → ℕ → ℕ → ℕ → VoipStreamDataCodecResult
decode_payload bytes stream_id payload_length offset =
    if payload_length == 0
    then fail "VoIP stream payload is empty"
    else if ltb max_opus_payload_bytes payload_length
    then fail "VoIP stream payload exceeds relay MTU budget"
    else if ltb (length bytes) (offset + 4 + payload_length)
    then fail "VoIP stream payload is truncated"
    else success
        (record {
          stream_id = stream_id;
          timestamp = read_le32 (drop offset bytes);
          opus_payload = take payload_length (drop (offset + 4) bytes);
        })
        (take (offset + 4 + payload_length) bytes)

-- The branch of the 16-bit length field, which starts at byte 1.
unfoldable pub decode_len16 : List ℕ → ℕ → VoipStreamDataCodecResult
decode_len16 bytes stream_id =
    let payload_length = read_le16 (drop 1 bytes) in
    if ltb (length bytes) (1 + 2 + 4)
    then fail "VoIP stream data packet is truncated before length16"
    else if has_flag payload_length x_flag_fragmented
    then fail "VoIP fragmented stream data is not supported yet"
    else if has_flag payload_length x_flag_extra_fec
    then fail "VoIP extra FEC stream data is not supported yet"
    else decode_payload bytes stream_id (u16 (bit_and payload_length length_mask)) 3

unfoldable pub decode_one : List ℕ → VoipStreamDataCodecResult
decode_one bytes =
    let stream_id = u8 (bit_and (byte_at bytes 0) 0x3F) in
    let flags = u8 (bit_and (byte_at bytes 0) 0xC0) in
    if ltb (length bytes) 6
    then fail "VoIP stream data packet is too short"
    else if stream_id == 0
    then fail "VoIP stream id is zero"
    else if has_flag flags flag_has_more_flags
    then fail "VoIP extended stream flags are not supported yet"
    else if has_flag flags flag_len16
    then decode_len16 bytes stream_id
    else decode_payload bytes stream_id (byte_at bytes 1) 2

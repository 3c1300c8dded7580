-- ===== src/ControlPacket.antt =====
-- src/voip/src/domain/voip_control_packet.{h,cpp}: the short control packets of the relay protocol,
-- with the INIT and INIT_ACK payloads. A null pointer is the empty list: each guard that tests for
-- it rejects the empty buffer in the same way.
pub mod RoundTrip
pub mod InitAck
use vianium_voip.Common.{
  ℕ, zero, suc, ◌+◌, ◌-◌, ◌*◌, ◌^◌, List, [], ◌∷◌, ◌++◌, String, Bool, true, false, not, ◌&&◌, ◌||◌,
  ltb, leb, ◌==◌, if◌then◌else◌, length, drop,
}
use vianium_voip.Bytes.{byte_at, write_le16, write_le32, read_le16, read_le32}

-- VoipControlPacketType; the enumeration has no value 15 or 16.
pub data VoipControlPacketType : Type 0 where
  init init_ack stream_state stream_data update_streams ping pong : VoipControlPacketType
  stream_data_x2 stream_data_x3 lan_endpoint network_changed : VoipControlPacketType
  switch_preferred_relay switch_to_p2p nop stream_ec : VoipControlPacketType

-- The enumerators' values, which `static_cast<uint8_t>(packet.Type)` gives.
unfoldable pub type_value : VoipControlPacketType → ℕ
type_value init = 1
type_value init_ack = 2
type_value stream_state = 3
type_value stream_data = 4
type_value update_streams = 5
type_value ping = 6
type_value pong = 7
type_value stream_data_x2 = 8
type_value stream_data_x3 = 9
type_value lan_endpoint = 10
type_value network_changed = 11
type_value switch_preferred_relay = 12
type_value switch_to_p2p = 13
type_value nop = 14
type_value stream_ec = 17

-- `static_cast<VoipControlPacketType>(byte)` at a known byte; elsewhere the codec does not cast.
unfoldable pub type_of_value : ℕ → VoipControlPacketType
type_of_value v =
    if v == 1
    then init
    else if v == 2
    then init_ack
    else if v == 3
    then stream_state
    else if v == 4
    then stream_data
    else if v == 5
    then update_streams
    else if v == 6
    then ping
    else if v == 7
    then pong
    else if v == 8
    then stream_data_x2
    else if v == 9
    then stream_data_x3
    else if v == 10
    then lan_endpoint
    else if v == 11
    then network_changed
    else if v == 12
    then switch_preferred_relay
    else if v == 13
    then switch_to_p2p
    else if v == 17
    then stream_ec
    else nop

pub record VoipControlPacket : Type 0 where
  pub packet_type : VoipControlPacketType
  pub ack_sequence : ℕ
  pub sequence : ℕ
  pub ack_mask : ℕ
  pub extra_flags : ℕ
  pub payload : List ℕ

pub record VoipInitAckInfo : Type 0 where
  pub peer_version : ℕ
  pub peer_min_version : ℕ
  pub has_audio_opus_stream : Bool
  pub audio_stream_id : ℕ
  pub frame_duration_ms : ℕ
  pub audio_enabled : Bool

-- VoipControlCodecResult: Success with what the operation fills, or Error.
pub data VoipControlCodecResult {ℓ} (A : Type ℓ) : Type ℓ where
  success : A → List ℕ → VoipControlCodecResult A
  fail : String → VoipControlCodecResult A

abbrev pub protocol_version : ℕ
protocol_version = 9

abbrev pub min_protocol_version : ℕ
min_protocol_version = 3

abbrev pub stream_type_audio : ℕ
stream_type_audio = 1

abbrev pub default_audio_stream_id : ℕ
default_audio_stream_id = 1

abbrev pub default_audio_frame_duration_ms : ℕ
default_audio_frame_duration_ms = 60

abbrev pub header_bytes : ℕ
header_bytes = 14

abbrev pub codec_opus : ℕ
codec_opus = 0x4F505553

-- The switch over 1 .. 14 and 17.
unfoldable pub is_known_type : ℕ → Bool
is_known_type t = (leb 1 t && leb t 14) || t == 17

unfoldable pub has_bytes : ℕ → ℕ → ℕ → Bool
has_bytes len offset count = leb offset len && leb count (len - offset)

unfoldable pub encode_short : VoipControlPacket → VoipControlCodecResult VoipControlPacket
unfolding type_value is_known_type
encode_short packet =
    let t = type_value packet.packet_type in
    if not (is_known_type t)
    then fail "VoIP control packet type is unknown"
    else if ltb 1100 (length packet.payload)
    then fail "VoIP control packet payload exceeds relay MTU budget"
    else success packet (
        t
        ∷ (write_le32 packet.ack_sequence
            ++ (write_le32 packet.sequence
                ++ (write_le32 packet.ack_mask ++ (packet.extra_flags ∷ packet.payload)))))

unfoldable pub decode_short : List ℕ → VoipControlCodecResult VoipControlPacket
unfolding type_of_value is_known_type
decode_short bytes =
    if ltb (length bytes) header_bytes
    then fail "VoIP control packet is too short"
    else if not (is_known_type (byte_at bytes 0))
    then fail "VoIP control packet type is unknown"
    else success
        (record {
          packet_type = type_of_value (byte_at bytes 0);
          ack_sequence = read_le32 (drop 1 bytes);
          sequence = read_le32 (drop 5 bytes);
          ack_mask = read_le32 (drop 9 bytes);
          extra_flags = byte_at bytes 13;
          payload = drop header_bytes bytes;
        })
        bytes

-- The result's packet is not filled, and only its bytes are used.
unfoldable pub build_init_payload : Bool → List ℕ
build_init_payload data_saving_enabled =
    write_le32 protocol_version
    ++ (write_le32 min_protocol_version
        ++ (write_le32 (if data_saving_enabled then 1 else 0)
            ++ (1 ∷ (write_le32 codec_opus ++ (0 ∷ 0 ∷ [])))))

unfoldable pub build_init_ack_payload : List ℕ
build_init_ack_payload =
    write_le32 protocol_version
    ++ (write_le32 min_protocol_version
        ++ (1
            ∷ default_audio_stream_id
            ∷ stream_type_audio
            ∷ (write_le32 codec_opus ++ (write_le16 default_audio_frame_duration_ms ++ (1 ∷ [])))))

-- The body of the loop over the stream descriptors, once a descriptor is known to be whole: the
-- descriptor starts at `offset`.
unfoldable pub read_stream : List ℕ → ℕ → VoipInitAckInfo → VoipInitAckInfo
read_stream bytes offset ack =
    let here = drop offset bytes in
    let enabled = not (byte_at here 8 == 0) in
    if byte_at here 1 == stream_type_audio && (read_le32 (drop 2 here) == codec_opus && enabled)
    then record ack {
      has_audio_opus_stream = true;
      audio_stream_id = byte_at here 0;
      frame_duration_ms = read_le16 (drop 6 here);
      audio_enabled = enabled;
    }
    else ack

-- `for (i = 0; i < streamCount; i++)`, by the number of rounds that are left; `none` of the source
-- is the early return.
unfoldable pub read_streams :
    List ℕ → ℕ → ℕ → VoipInitAckInfo → VoipControlCodecResult VoipInitAckInfo
unfolding read_stream has_bytes
read_streams bytes zero offset ack = success ack bytes
read_streams bytes (suc rounds) offset ack =
    let rest = read_streams bytes rounds (offset + 9) (read_stream bytes offset ack) in
    if has_bytes (length bytes) offset 9
    then rest
    else fail "VoIP INIT_ACK stream descriptor is truncated"

unfoldable pub parse_init_ack_payload : List ℕ → VoipControlCodecResult VoipInitAckInfo
parse_init_ack_payload bytes =
    let version = read_le32 bytes in
    let min_version = read_le32 (drop 4 bytes) in
    if ltb (length bytes) 9
    then fail "VoIP INIT_ACK payload is too short"
    else if ltb protocol_version min_version || ltb version min_protocol_version
    then fail "VoIP peer protocol version is incompatible"
    else read_streams bytes (byte_at bytes 8) 9 (record {
      peer_version = version;
      peer_min_version = min_version;
      has_audio_opus_stream = false;
      audio_stream_id = 0;
      frame_duration_ms = 0;
      audio_enabled = false;
    })

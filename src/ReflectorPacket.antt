-- ===== src/ReflectorPacket.antt =====
-- src/voip/src/domain/voip_reflector_packet.{h,cpp}: the requests to a Telegram reflector and its
-- self-info response. A null pointer is the empty list, which the length guard rejects.
pub mod Requests
pub mod Response
use vianium_voip.Common.{
  ℕ, zero, suc, ◌+◌, ◌*◌, ◌/◌, ◌%◌, ◌-◌, ◌^◌, ◌<◌, List, [], ◌∷◌, ◌++◌, Bool, true, false, not,
  ◌&&◌, ◌||◌, ltb, ◌==◌, if◌then◌else◌, String, length, take, drop, replicate, bit_and, bit_or,
}
use vianium_voip.Common.Int.{ℤ, pos, negsuc}
use vianium_voip.Bytes.{byte_at, u16, u32, write_at, write_le32, write_le64, read_le32}
use vianium_voip.EndpointSelector.{is_empty}

pub record VoipReflectorSelfInfo : Type 0 where
  pub peer_tag : List ℕ
  pub date : ℤ
  pub query_id : ℕ
  pub raw_ipv4 : ℕ
  pub ipv4 : List ℕ
  pub port : ℕ

-- VoipReflectorPacketResult: Success with the bytes and, for a response, what it says; or Error.
pub data VoipReflectorPacketResult {ℓ} (A : Type ℓ) : Type ℓ where
  success : A → List ℕ → VoipReflectorPacketResult A
  fail : String → VoipReflectorPacketResult A

abbrev pub peer_tag_bytes : ℕ
peer_tag_bytes = 16

abbrev pub discovery_request_bytes : ℕ
discovery_request_bytes = 32

abbrev pub self_info_request_bytes : ℕ
self_info_request_bytes = 40

abbrev pub self_info_response_bytes : ℕ
self_info_response_bytes = 64

abbrev pub all_bits32 : ℕ
all_bits32 = 0xFFFF_FFFF

abbrev pub all_bits64 : ℕ
all_bits64 = 0xFFFF_FFFF_FFFF_FFFF

abbrev pub self_info_magic : ℕ
self_info_magic = 0xc015_72c7

abbrev pub mapped_ipv4_padding : ℕ
mapped_ipv4_padding = 0xFFFF_0000

abbrev pub has_peer_tag : List ℕ → Bool
has_peer_tag tag = length tag == peer_tag_bytes

unfoldable pub read_le64 : List ℕ → ℕ
read_le64 bytes = bit_or (read_le32 bytes) (read_le32 (drop 4 bytes) * 2 ^ 32)

-- `%u` of a number below 1000, which is all that an octet needs.
unfoldable pub decimal : ℕ → List ℕ
decimal n =
    if ltb n 10
    then (n + b'0') ∷ []
    else if ltb n 100
    then (n / 10 + b'0') ∷ (n % 10 + b'0') ∷ []
    else (n / 100 + b'0') ∷ (n / 10 % 10 + b'0') ∷ (n % 10 + b'0') ∷ []

-- At most 15 characters, so that the buffer of 16 never truncates.
unfoldable pub ipv4_to_string : ℕ → List ℕ
unfolding decimal
ipv4_to_string raw =
    decimal (bit_and raw 0xFF)
    ++ (b'.'
        ∷ (decimal (bit_and (raw / 2 ^ 8) 0xFF)
            ++ (b'.'
                ∷ (decimal (bit_and (raw / 2 ^ 16) 0xFF)
                    ++ (b'.' ∷ decimal (bit_and (raw / 2 ^ 24) 0xFF))))))

-- The loop of SamePeerTag.
unfoldable pub same_bytes : List ℕ → List ℕ → Bool
same_bytes bytes [] = true
same_bytes [] (e ∷ expected) = false
same_bytes (b ∷ bytes) (e ∷ expected) = b == e && same_bytes bytes expected

unfoldable pub same_peer_tag : List ℕ → List ℕ → Bool
same_peer_tag bytes expected =
    if not (has_peer_tag expected) then true else same_bytes bytes expected

unfoldable pub build_peer_discovery_request : List ℕ → VoipReflectorPacketResult (Unit {0})
build_peer_discovery_request tag =
    if not (has_peer_tag tag)
    then fail "reflector peer_tag must be exactly 16 bytes"
    else success tt (write_at 0 tag (replicate discovery_request_bytes 0xFF))

-- The buffer of BuildSelfInfoRequest after its writes, in the source's order.
unfoldable pub self_info_request : List ℕ → ℕ → List ℕ
self_info_request tag query_id =
    let out0 = write_at 0 tag (replicate self_info_request_bytes 0) in
    let out1 = write_at 16 (write_le32 all_bits32) out0 in
    let out2 = write_at 20 (write_le32 all_bits32) out1 in
    let out3 = write_at 24 (write_le32 all_bits32) out2 in
    let out4 = write_at 28 (write_le32 0xFFFF_FFFE) out3 in write_at 32 (write_le64 query_id) out4

unfoldable pub build_self_info_request : List ℕ → ℕ → VoipReflectorPacketResult (Unit {0})
build_self_info_request tag query_id =
    if not (has_peer_tag tag)
    then fail "reflector peer_tag must be exactly 16 bytes"
    else success tt (self_info_request tag query_id)

-- static_cast<int32_t> of a 32-bit word.
abbrev pub signed32 : ℕ → ℤ
signed32 w = if ltb w (2 ^ 31) then pos w else negsuc (2 ^ 32 - w - 1)

unfoldable pub read_self_info : List ℕ → VoipReflectorSelfInfo
read_self_info bytes =
    let raw = read_le32 (drop 56 bytes) in
    record {
      peer_tag = take peer_tag_bytes bytes;
      date = signed32 (read_le32 (drop 32 bytes));
      query_id = read_le64 (drop 36 bytes);
      raw_ipv4 = raw;
      ipv4 = ipv4_to_string raw;
      port = u16 (bit_and (read_le32 (drop 60 bytes)) 0xFFFF);
    }

-- The checks of the markers and the reading of the fields, once length and tag are known to fit.
unfoldable pub parse_marked : List ℕ → VoipReflectorPacketResult VoipReflectorSelfInfo
parse_marked bytes =
    let sentinel1 = read_le64 (drop 16 bytes) in
    let sentinel2 = read_le32 (drop 24 bytes) in
    let magic = read_le32 (drop 28 bytes) in
    let padding2 = read_le32 (drop 52 bytes) in
    if not (sentinel1 == all_bits64)
      || (not (sentinel2 == all_bits32) || not (magic == self_info_magic))
    then fail "reflector self-info response has invalid marker"
    else if not (padding2 == mapped_ipv4_padding)
    then fail "reflector self-info response is not IPv4-mapped"
    else success (read_self_info bytes) bytes

unfoldable pub parse_self_info_response :
    List ℕ → List ℕ → VoipReflectorPacketResult VoipReflectorSelfInfo
parse_self_info_response bytes expected =
    if ltb (length bytes) self_info_response_bytes
    then fail "reflector self-info response is too short"
    else if not (is_empty expected) && not (has_peer_tag expected)
    then fail "expected reflector peer_tag must be 16 bytes"
    else if not (same_peer_tag bytes expected)
    then fail "reflector self-info peer_tag mismatch"
    else parse_marked bytes

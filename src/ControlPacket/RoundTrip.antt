-- ===== src/ControlPacket/RoundTrip.antt =====
-- EncodeShort and DecodeShort of src/voip/src/domain/voip_control_packet.cpp against one another.
use vianium_voip.Common.{
  ℕ, ◌^◌, ◌≤◌, ◌<◌, ◌≡◌, ap, ◌∙◌, List, [], ◌∷◌, ◌++◌, true, arith, length, drop,
}
use vianium_voip.Bytes.{AreBytes, byte_at, write_le32, read_le32}
use vianium_voip.Bytes.Laws.{read-write_le32, write-read_le32}
use vianium_voip.ControlPacket.{
  VoipControlPacket, VoipControlPacketType, success, type_value, type_of_value, is_known_type,
  encode_short, decode_short,
}

-- The fields fit the widths of the struct.
pub record IsValid (p : VoipControlPacket) : Type 0 where
  pub ack_fits : p.ack_sequence < 2 ^ 32
  pub sequence_fits : p.sequence < 2 ^ 32
  pub mask_fits : p.ack_mask < 2 ^ 32

pub type_of-type_value : (t : VoipControlPacketType) → type_of_value (type_value t) ≡ t
unfolding type_value type_of_value
type_of-type_value t = ground arith

type_value-IsKnown : (t : VoipControlPacketType) → is_known_type (type_value t) ≡ true
unfolding type_value is_known_type
type_value-IsKnown t = ground arith

pub type_value-type_of : (v : ℕ) → is_known_type v ≡ true → type_value (type_of_value v) ≡ v
unfolding type_value type_of_value is_known_type
type_value-type_of v h = ground arith

-- The bytes that EncodeShort writes.
abbrev wire : VoipControlPacket → List ℕ
wire p =
    type_value p.packet_type
    ∷ (write_le32 p.ack_sequence
        ++ (write_le32 p.sequence ++ (write_le32 p.ack_mask ++ (p.extra_flags ∷ p.payload))))

encode_short-wire :
    (p : VoipControlPacket) → length p.payload ≤ 1100 → encode_short p ≡ success p (wire p)
unfolding encode_short
encode_short-wire p h = ground (arith, type_value-IsKnown p.packet_type)

decode_short-wire : (p : VoipControlPacket) → IsValid p → decode_short (wire p) ≡ success p (wire p)
unfolding decode_short write_le32
decode_short-wire p v = ground (
  arith,
  type_value-IsKnown p.packet_type,
  type_of-type_value p.packet_type,
  read-write_le32 p.ack_sequence
      (write_le32 p.sequence ++ (write_le32 p.ack_mask ++ (p.extra_flags ∷ p.payload))),
  read-write_le32 p.sequence (write_le32 p.ack_mask ++ (p.extra_flags ∷ p.payload)),
  read-write_le32 p.ack_mask (p.extra_flags ∷ p.payload),
)

-- A packet whose fields fit their types and whose payload has at most 1100 bytes is encoded, and
-- what was encoded decodes to the same packet.
pub decode-encode_short :
    (p : VoipControlPacket)
    → IsValid p
    → length p.payload ≤ 1100
    → (bytes : List ℕ) × (encode_short p ≡ success p bytes) × (decode_short bytes ≡ success p bytes)
decode-encode_short p v h = (wire p, encode_short-wire p h, decode_short-wire p v)

abbrev unwire : ℕ → List ℕ → VoipControlPacket
unwire t body = record {
  packet_type = type_of_value t;
  ack_sequence = read_le32 body;
  sequence = read_le32 (drop 4 body);
  ack_mask = read_le32 (drop 8 body);
  extra_flags = byte_at body 12;
  payload = drop 13 body;
}

wire-unwire :
    (t : ℕ) (body : List ℕ)
    → is_known_type t ≡ true
    → AreBytes body
    → 13 ≤ length body
    → wire (unwire t body) ≡ t ∷ body
wire-unwire t (a0 ∷ a1 ∷ a2 ∷ a3 ∷ s0 ∷ s1 ∷ s2 ∷ s3 ∷ m0 ∷ m1 ∷ m2 ∷ m3 ∷ x ∷ rest) k b h = rw (
  write-read_le32 a0 a1 a2 a3 _ b.0 b.1.0 b.1.1.0 b.1.1.1.0,
  write-read_le32 s0 s1 s2 s3 _ b.1.1.1.1.0 b.1.1.1.1.1.0 b.1.1.1.1.1.1.0 b.1.1.1.1.1.1.1.0,
  write-read_le32 m0 m1 m2 m3 _ (omega arith) (omega arith) (omega arith) (omega arith),
  type_value-type_of t k,
)
wire-unwire t body k b h = absurd (omega arith)

decode_short-eq-success :
    (t : ℕ) (body bytes : List ℕ) (p : VoipControlPacket)
    → decode_short (t ∷ body) ≡ success p bytes
    → (is_known_type t ≡ true) × (13 ≤ length body) × (unwire t body ≡ p)
unfolding decode_short
decode_short-eq-success t body bytes p e = ground arith

-- Encoding what was decoded gives back the same bytes, where the payload is within the limit that
-- only the encoder has.
pub encode-decode_short :
    (p : VoipControlPacket) (bytes : List ℕ)
    → AreBytes bytes
    → length p.payload ≤ 1100
    → decode_short bytes ≡ success p bytes
    → encode_short p ≡ success p bytes
encode-decode_short p [] b h e = unfold decode_short in ground arith
encode-decode_short p (t ∷ body) b h e =
    let (known, long, same) = decode_short-eq-success t body (t ∷ body) p e in
    encode_short-wire p h ∙ ap (success p) (rw (← same) (wire-unwire t body known b.1 long))

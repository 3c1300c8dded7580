-- ===== src/Stun/Encode.antt =====
-- StunMessageCodec::Encode and the helpers above it in
-- src/voip/src/infrastructure/ice/stun_message.cpp.
use vianium_voip.Common.{
  ℕ, zero, suc, ◌+◌, ◌-◌, ◌/◌, ◌^◌, List, [], ◌∷◌, ◌++◌, Bool, ◌&&◌, ◌==◌, if◌then◌else◌, length,
  take, bit_and, bit_xor,
}
use vianium_voip.Bytes.{u16, write_be16, write_be32, read_be32, low_byte, write_at}
use vianium_voip.Crc32
use vianium_voip.Stun.{
  HmacSha1, StunMessage, stun_magic_cookie, stun_fingerprint_mask, attr_username,
  attr_message_integrity, attr_xor_mapped_address, attr_priority, attr_use_candidate,
  attr_fingerprint, attr_ice_controlled, attr_ice_controlling,
}

-- `while ((buf.size() & 0x3) != 0) buf.push_back(0)`: three rounds at most.
unfoldable pub pad_rounds : ℕ → List ℕ → List ℕ
pad_rounds zero buf = buf
pad_rounds (suc rounds) buf =
    let rest = pad_rounds rounds (buf ++ 0 ∷ []) in
    if bit_and (length buf) 3 == 0 then buf else rest

unfoldable pub append_attr : ℕ → List ℕ → List ℕ → List ℕ
append_attr type value buf =
    pad_rounds 3 (buf ++ (write_be16 type ++ (write_be16 (u16 (length value)) ++ value)))

unfoldable pub append_attr_u32 : ℕ → ℕ → List ℕ → List ℕ
append_attr_u32 type value buf = append_attr type (write_be32 value) buf

unfoldable pub write_be64 : ℕ → List ℕ
write_be64 v =
    low_byte (v / 2 ^ 56)
    ∷ low_byte (v / 2 ^ 48)
    ∷ low_byte (v / 2 ^ 40)
    ∷ low_byte (v / 2 ^ 32)
    ∷ low_byte (v / 2 ^ 24)
    ∷ low_byte (v / 2 ^ 16)
    ∷ low_byte (v / 2 ^ 8)
    ∷ low_byte v
    ∷ []

unfoldable pub append_attr_u64 : ℕ → ℕ → List ℕ → List ℕ
append_attr_u64 type value buf = append_attr type (write_be64 value) buf

-- `WriteU16(buf, 2, length)`
unfoldable pub set_length : ℕ → List ℕ → List ℕ
set_length n buf = write_at 2 (write_be16 n) buf

unfoldable pub header : StunMessage → List ℕ
header msg =
    write_be16 msg.message_type
    ++ (write_be16 0 ++ (write_be32 stun_magic_cookie ++ take 12 msg.transaction_id))

-- The value of XOR-MAPPED-ADDRESS for an IPv4 address.
unfoldable pub xor_mapped_value : StunMessage → List ℕ
xor_mapped_value msg =
    let xport = u16 (bit_xor msg.mapped_port (bit_and (stun_magic_cookie / 2 ^ 16) 0xffff)) in
    let xaddress = bit_xor (read_be32 msg.mapped_address) stun_magic_cookie in
    0 ∷ 1 ∷ (write_be16 xport ++ write_be32 xaddress)

unfoldable pub append_if : Bool → (List ℕ → List ℕ) → List ℕ → List ℕ
append_if present write buf = if present then write buf else buf

-- From USERNAME to XOR-MAPPED-ADDRESS, in the order of the code.
unfoldable pub append_attributes : StunMessage → List ℕ → List ℕ
append_attributes msg buf =
    let named =
      if length msg.username == 0 then buf else append_attr attr_username msg.username buf in
    let ranked = append_if msg.has_priority (append_attr_u32 attr_priority msg.priority) named in
    let controlling =
      append_if msg.has_ice_controlling
        (append_attr_u64 attr_ice_controlling msg.ice_controlling_tie_break) ranked in
    let controlled =
      append_if msg.has_ice_controlled
        (append_attr_u64 attr_ice_controlled msg.ice_controlled_tie_break) controlling in
    let nominated = append_if msg.use_candidate (append_attr attr_use_candidate []) controlled in
    append_if (msg.has_mapped_address && msg.mapped_family == 1)
      (append_attr attr_xor_mapped_address (xor_mapped_value msg)) nominated

unfoldable pub append_fingerprint : List ℕ → List ℕ
append_fingerprint buf =
    let measured = set_length (u16 (length buf - 20 + 8)) buf in
    append_attr_u32 attr_fingerprint (bit_xor (Crc32.compute measured) stun_fingerprint_mask)
      measured

module _ (hmac : HmacSha1) where
  unfoldable pub append_integrity : List ℕ → List ℕ → List ℕ
  append_integrity password buf =
      let measured = set_length (u16 (length buf - 20 + 24)) buf in
      if length password == 0
      then buf
      else append_attr attr_message_integrity (hmac.mac password measured) measured

  unfoldable pub encode : StunMessage → List ℕ → List ℕ
  encode msg password =
      append_fingerprint (append_integrity password (append_attributes msg (header msg)))

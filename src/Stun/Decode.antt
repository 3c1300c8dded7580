-- ===== src/Stun/Decode.antt =====
-- StunMessageCodec::Decode, VerifyMessageIntegrity and VerifyFingerprint of
-- src/voip/src/infrastructure/ice/stun_message.cpp.
use vianium_voip.Common.{
  ℕ, zero, suc, ◌+◌, ◌-◌, ◌*◌, ◌/◌, ◌^◌, List, Bool, true, false, not, ◌&&◌, ltb, leb, ◌==◌,
  if◌then◌else◌, length, take, drop, Option, none, some, bit_and, bit_or, bit_xor,
}
use vianium_voip.Bytes.{
  u16, write_be16, write_be32, read_be16, read_be32, byte_at, overlay, write_at,
}
use vianium_voip.Bytes.Compare.{slice, bytes_equal}
use vianium_voip.Crc32
use vianium_voip.Stun.{
  HmacSha1, StunMessage, new_message, stun_magic_cookie, stun_fingerprint_mask, attr_username,
  attr_message_integrity, attr_xor_mapped_address, attr_priority, attr_use_candidate,
  attr_fingerprint, attr_ice_controlled, attr_ice_controlling,
}

unfoldable pub read_be64 : List ℕ → ℕ
read_be64 bytes = bit_or (read_be32 bytes * 2 ^ 32) (read_be32 (drop 4 bytes))

-- `while ((advance & 0x3) != 0) ++advance`: three rounds at most.
unfoldable pub advance_rounds : ℕ → ℕ → ℕ
advance_rounds zero advance = advance
advance_rounds (suc rounds) advance =
    let rest = advance_rounds rounds (advance + 1) in
    if bit_and advance 3 == 0 then advance else rest

unfoldable pub read_mapped : List ℕ → StunMessage → StunMessage
read_mapped value out =
    let port =
      u16 (bit_xor (read_be16 (drop 2 value)) (bit_and (stun_magic_cookie / 2 ^ 16) 0xffff)) in
    let address = bit_xor (read_be32 (drop 4 value)) stun_magic_cookie in
    record out {
      has_mapped_address = true;
      mapped_family = byte_at value 1;
      mapped_port = port;
      mapped_address =
          if byte_at value 1 == 1 && leb 8 (length value)
          then overlay (write_be32 address) out.mapped_address
          else out.mapped_address;
    }

-- The switch on the type of an attribute.
unfoldable pub read_attr : ℕ → List ℕ → StunMessage → StunMessage
read_attr type value out =
    if type == attr_username
    then record out { username = value }
    else if type == attr_message_integrity
    then if length value == 20 then record out { message_integrity = value } else out
    else if type == attr_fingerprint
    then if length value == 4
      then record out { has_fingerprint = true; fingerprint = read_be32 value }
      else out
    else if type == attr_priority
    then if length value == 4
      then record out { has_priority = true; priority = read_be32 value }
      else out
    else if type == attr_ice_controlling
    then if length value == 8
      then record out { has_ice_controlling = true; ice_controlling_tie_break = read_be64 value }
      else out
    else if type == attr_ice_controlled
    then if length value == 8
      then record out { has_ice_controlled = true; ice_controlled_tie_break = read_be64 value }
      else out
    else if type == attr_use_candidate
    then record out { use_candidate = true }
    else if type == attr_xor_mapped_address
    then if leb 8 (length value) then read_mapped value out else out
    else out

-- The loop over the attributes, on fuel: a round takes four bytes at least.
unfoldable pub scan_attrs : ℕ → List ℕ → StunMessage → Option StunMessage
scan_attrs zero bytes out = some out
scan_attrs (suc fuel) bytes out =
    let size = read_be16 (drop 2 bytes) in
    let value = slice bytes 4 size in
    let rest =
      scan_attrs fuel (drop (advance_rounds 3 (4 + size)) bytes)
        (read_attr (read_be16 bytes) value out) in
    if leb 4 (length bytes) then if ltb (length bytes) (4 + size) then none else rest else some out

unfoldable pub decode : List ℕ → Option StunMessage
decode bytes =
    let attr_len = read_be16 (drop 2 bytes) in
    let attrs = slice bytes 20 attr_len in
    if ltb (length bytes) 20
    then none
    else if not (read_be32 (drop 4 bytes) == stun_magic_cookie)
    then none
    else if ltb (length bytes) (20 + attr_len)
    then none
    else scan_attrs (length attrs) attrs
        (record new_message { message_type = read_be16 bytes; transaction_id = slice bytes 8 12 })

-- The loop that looks for MESSAGE-INTEGRITY: its offset, where `p` is that of `bytes`.
unfoldable pub find_integrity : ℕ → ℕ → List ℕ → Option ℕ
find_integrity zero p bytes = none
find_integrity (suc fuel) p bytes =
    let size = read_be16 (drop 2 bytes) in
    let advance = advance_rounds 3 (4 + size) in
    let rest = find_integrity fuel (p + advance) (drop advance bytes) in
    if leb 4 (length bytes)
    then if ltb (length bytes) (4 + size)
      then none
      else if read_be16 bytes == attr_message_integrity && size == 20
      then some p
      else rest
    else none

module _ (hmac : HmacSha1) where
  -- The bytes in front of the attribute with the length that it was computed with, and their code
  -- against that in the attribute.
  unfoldable pub check_integrity : List ℕ → List ℕ → ℕ → Bool
  check_integrity msg_bytes password mi_offset =
      let front = take mi_offset msg_bytes in
      let measured = write_at 2 (write_be16 (u16 (mi_offset - 20 + 24))) front in
      if ltb (length front) 20
      then false
      else bytes_equal (hmac.mac password measured) (slice msg_bytes (mi_offset + 4) 20)

  unfoldable pub verify_message_integrity : List ℕ → List ℕ → Bool
  verify_message_integrity msg_bytes password =
      let attr_len = read_be16 (drop 2 msg_bytes) in
      let attrs = slice msg_bytes 20 attr_len in
      if ltb (length msg_bytes) 20
      then false
      else if ltb (length msg_bytes) (20 + attr_len)
      then false
      else elim (find_integrity (length attrs) 20 attrs) [
        | none ↦ false
        | some mi_offset ↦ check_integrity msg_bytes password mi_offset
      ]

unfoldable pub verify_fingerprint : List ℕ → Bool
verify_fingerprint msg_bytes =
    let fp_offset = length msg_bytes - 8 in
    let last = drop fp_offset msg_bytes in
    let front = take fp_offset msg_bytes in
    let measured = write_at 2 (write_be16 (u16 (fp_offset - 20 + 8))) front in
    if ltb (length msg_bytes) 28
    then false
    else if not (read_be16 last == attr_fingerprint)
    then false
    else if not (read_be16 (drop 2 last) == 4)
    then false
    else if ltb (length front) 20
    then false
    else bit_xor (Crc32.compute measured) stun_fingerprint_mask == read_be32 (drop 4 last)

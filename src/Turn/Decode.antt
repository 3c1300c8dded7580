-- ===== src/Turn/Decode.antt =====
-- DecodeMessage of src/voip/src/infrastructure/turn/turn_message.cpp.
use vianium_voip.Common.{
  ℕ, zero, suc, ◌+◌, ◌*◌, ◌/◌, ◌^◌, List, [], ◌∷◌, ◌++◌, true, not, ltb, leb, ◌==◌, if◌then◌else◌,
  length, drop, Option, none, some, bit_and, bit_xor,
}
use vianium_voip.Bytes.{u16, write_be32, read_be16, read_be32, byte_at}
use vianium_voip.Bytes.Compare.{slice}
use vianium_voip.Stun.Decode.{advance_rounds}
use vianium_voip.Turn.{
  TurnAddress, TurnMessage, new_message, magic_cookie, family_ipv4, family_ipv6, attr_username,
  attr_message_integrity, attr_error_code, attr_lifetime, attr_xor_peer_address, attr_data,
  attr_realm, attr_nonce, attr_xor_relayed_address, attr_requested_transport,
  attr_xor_mapped_address,
}
use vianium_voip.Turn.Encode.{xor_mask, address_mask}

unfoldable pub decode_xor_address : List ℕ → List ℕ → Option TurnAddress
decode_xor_address value txn =
    let xport = read_be16 (drop 2 value) in
    let port = u16 (bit_xor xport (bit_and (magic_cookie / 2 ^ 16) 0xffff)) in
    let address = bit_xor (read_be32 (drop 4 value)) magic_cookie in
    if ltb (length value) 8
    then none
    else if byte_at value 1 == family_ipv4
    then some (record { family = byte_at value 1; port = port; address = write_be32 address })
    else if byte_at value 1 == family_ipv6
    then if ltb (length value) 20
      then none
      else some (record {
        family = byte_at value 1;
        port = port;
        address = xor_mask (slice value 4 16) (address_mask txn);
      })
    else none

unfoldable pub read_error : List ℕ → TurnMessage → TurnMessage
read_error value out = record out {
  has_error_code = true;
  error_code = bit_and (byte_at value 2) 0x07 * 100 + byte_at value 3;
  error_reason = if ltb 4 (length value) then drop 4 value else out.error_reason;
}

unfoldable pub read_mapped : List ℕ → TurnMessage → TurnMessage
read_mapped value out = elim (decode_xor_address value out.transaction_id) [
  | none ↦ out
  | some a ↦ record out { has_xor_mapped = true; xor_mapped = a }
]

unfoldable pub read_relayed : List ℕ → TurnMessage → TurnMessage
read_relayed value out = elim (decode_xor_address value out.transaction_id) [
  | none ↦ out
  | some a ↦ record out { has_xor_relayed = true; xor_relayed = a }
]

unfoldable pub read_peer : List ℕ → TurnMessage → TurnMessage
read_peer value out = elim (decode_xor_address value out.transaction_id) [
  | none ↦ out
  | some a ↦ record out { xor_peers = out.xor_peers ++ a ∷ [] }
]

-- The switch on the type of an attribute.
unfoldable pub read_attr : ℕ → List ℕ → TurnMessage → TurnMessage
read_attr type value out =
    if type == attr_username
    then record out { has_username = true; username = value }
    else if type == attr_realm
    then record out { has_realm = true; realm = value }
    else if type == attr_nonce
    then record out { has_nonce = true; nonce = value }
    else if type == attr_error_code
    then if leb 4 (length value) then read_error value out else out
    else if type == attr_xor_mapped_address
    then read_mapped value out
    else if type == attr_xor_relayed_address
    then read_relayed value out
    else if type == attr_xor_peer_address
    then read_peer value out
    else if type == attr_data
    then record out { has_data = true; payload = value }
    else if type == attr_lifetime
    then if length value == 4
      then record out { has_lifetime = true; lifetime = read_be32 value }
      else out
    else if type == attr_requested_transport
    then if length value == 4
      then record out { has_requested_transport = true; protocol = byte_at value 0 }
      else out
    else if type == attr_message_integrity
    then if length value == 20
      then record out { has_message_integrity = true; message_integrity = value }
      else out
    else out

-- The loop over the attributes, on fuel: a round takes four bytes at least.
unfoldable pub scan_attrs : ℕ → List ℕ → TurnMessage → Option TurnMessage
scan_attrs zero bytes out = some out
scan_attrs (suc fuel) bytes out =
    let size = read_be16 (drop 2 bytes) in
    let value = slice bytes 4 size in
    let rest =
      scan_attrs fuel (drop (advance_rounds 3 (4 + size)) bytes)
        (read_attr (read_be16 bytes) value out) in
    if leb 4 (length bytes) then if ltb (length bytes) (4 + size) then none else rest else some out

unfoldable pub decode_message : List ℕ → Option TurnMessage
decode_message bytes =
    let attr_len = read_be16 (drop 2 bytes) in
    let attrs = slice bytes 20 attr_len in
    if ltb (length bytes) 20
    then none
    else if ltb 0x03 (byte_at bytes 0)
    then none
    else if not (read_be32 (drop 4 bytes) == magic_cookie)
    then none
    else if ltb (length bytes) (20 + attr_len)
    then none
    else scan_attrs (length attrs) attrs (record new_message {
      type = read_be16 bytes;
      transaction_id = slice bytes 8 12;
      raw = bytes;
    })

-- ===== src/Stun/Spec.antt =====
-- A STUN message as a list of attributes, apart from the buffer in which
-- src/voip/src/infrastructure/ice/stun_message.cpp builds it.
use vianium_voip.Common.{
  ℕ, ◌+◌, ◌^◌, ◌<◌, ◌≤◌, ◌≡◌, List, [], ◌∷◌, ◌++◌, Bool, true, not, ◌&&◌, ◌==◌, if◌then◌else◌,
  length, take, replicate, bit_xor,
}
use vianium_voip.Bytes.{AreBytes, u16, write_be16, write_be32}
use vianium_voip.Crc32
use vianium_voip.Stun.{
  HmacSha1, StunMessage, stun_magic_cookie, stun_fingerprint_mask, attr_username,
  attr_message_integrity, attr_xor_mapped_address, attr_priority, attr_use_candidate,
  attr_ice_controlled, attr_ice_controlling,
}
use vianium_voip.Stun.Encode.{write_be64, xor_mapped_value}
use vianium_voip.Stun.Wire.{tlv}

abbrev pub Attribute : Type 0
Attribute = ℕ × List ℕ

unfoldable pub tlvs : List Attribute → List ℕ
tlvs [] = []
tlvs ((type, value) ∷ attrs) = tlv type value ++ tlvs attrs

abbrev pub present : Bool → ℕ → List ℕ → List Attribute
present b type value = if b then (type, value) ∷ [] else []

-- An address is sent if it is one of IPv4.
abbrev pub is_mapped : StunMessage → Bool
is_mapped msg = msg.has_mapped_address && msg.mapped_family == 1

unfoldable pub attributes : StunMessage → List Attribute
attributes msg =
    present (not (length msg.username == 0)) attr_username msg.username
    ++ (present msg.has_priority attr_priority (write_be32 msg.priority)
        ++ (present msg.has_ice_controlling attr_ice_controlling
              (write_be64 msg.ice_controlling_tie_break)
            ++ (present msg.has_ice_controlled attr_ice_controlled
                  (write_be64 msg.ice_controlled_tie_break)
                ++ (present msg.use_candidate attr_use_candidate []
                    ++ present (is_mapped msg) attr_xor_mapped_address (xor_mapped_value msg)))))

-- The header with a length.
unfoldable pub header_of : ℕ → StunMessage → List ℕ
header_of n msg =
    write_be16 msg.message_type
    ++ (write_be16 n ++ (write_be32 stun_magic_cookie ++ take 12 msg.transaction_id))

module _ (hmac : HmacSha1) (msg : StunMessage) (password : List ℕ) where
  abbrev pub body : List ℕ
  body = tlvs (attributes msg)

  -- What MESSAGE-INTEGRITY is computed over, and its value.
  unfoldable pub signed_bytes : List ℕ
  signed_bytes = header_of (u16 (length body + 24)) msg ++ body

  unfoldable pub integrity : List ℕ
  integrity = hmac.mac password signed_bytes

  unfoldable pub all_attributes : List Attribute
  all_attributes =
      attributes msg ++ present (not (length password == 0)) attr_message_integrity integrity

  -- What FINGERPRINT is computed over, and its value.
  unfoldable pub covered_bytes : List ℕ
  covered_bytes = header_of (u16 (length (tlvs all_attributes) + 8)) msg ++ tlvs all_attributes

  unfoldable pub checksum : ℕ
  checksum = bit_xor (Crc32.compute covered_bytes) stun_fingerprint_mask

-- A message whose fields have the sizes of their types, and whose user name leaves room in the length
-- field of 16 bits.
pub record IsSendable (msg : StunMessage) : Type 0 where
  pub type_fits : msg.message_type < 2 ^ 16
  pub transaction_size : length msg.transaction_id ≡ 12
  pub username_size : length msg.username ≤ 65400
  pub priority_fits : msg.priority < 2 ^ 32
  pub controlling_fits : msg.ice_controlling_tie_break < 2 ^ 64
  pub controlled_fits : msg.ice_controlled_tie_break < 2 ^ 64
  pub address_size : length msg.mapped_address ≡ 16
  pub address_bytes : AreBytes msg.mapped_address
  pub port_fits : msg.mapped_port < 2 ^ 16

-- The fields that are on the wire: one that is not sent comes back as the constructor leaves it.
unfoldable pub on_wire : HmacSha1 → StunMessage → List ℕ → StunMessage
on_wire hmac msg password = record {
  message_type = msg.message_type;
  transaction_id = msg.transaction_id;
  username = msg.username;
  has_priority = msg.has_priority;
  priority = if msg.has_priority then msg.priority else 0;
  has_ice_controlling = msg.has_ice_controlling;
  ice_controlling_tie_break = if msg.has_ice_controlling then msg.ice_controlling_tie_break else 0;
  has_ice_controlled = msg.has_ice_controlled;
  ice_controlled_tie_break = if msg.has_ice_controlled then msg.ice_controlled_tie_break else 0;
  use_candidate = msg.use_candidate;
  has_mapped_address = is_mapped msg;
  mapped_family = if is_mapped msg then 1 else 0;
  mapped_address =
      if is_mapped msg then take 4 msg.mapped_address ++ replicate 12 0 else replicate 16 0;
  mapped_port = if is_mapped msg then msg.mapped_port else 0;
  message_integrity = if length password == 0 then [] else integrity hmac msg password;
  has_fingerprint = true;
  fingerprint = checksum hmac msg password;
}

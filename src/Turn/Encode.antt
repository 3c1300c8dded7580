-- ===== src/Turn/Encode.antt =====
-- EncodeAllocate, EncodeCreatePermission, EncodeSendIndication and EncodeRefresh of
-- src/voip/src/infrastructure/turn/turn_message.cpp, and the helpers above them.
use vianium_voip.Common.{
  ℕ, ◌+◌, ◌-◌, ◌/◌, ◌^◌, List, [], ◌∷◌, ◌++◌, Bool, ◌&&◌, ◌||◌, ◌==◌, if◌then◌else◌, length, take,
  bit_and, bit_xor,
}
use vianium_voip.Bytes.{u16, write_be16, write_be32, read_be32}
use vianium_voip.Stun.{HmacSha1}
use vianium_voip.Stun.Encode.{append_attr, append_attr_u32, set_length}
use vianium_voip.Turn.{
  TurnAddress, magic_cookie, family_ipv4, family_ipv6, method_allocate, method_refresh, method_send,
  method_create_permission, class_request, class_indication, turn_message_type, attr_username,
  attr_message_integrity, attr_lifetime, attr_xor_peer_address, attr_data, attr_realm, attr_nonce,
  attr_requested_transport, attr_dont_fragment,
}

-- `out[i] = bytes[i] ^ mask[i]`
unfoldable pub xor_mask : List ℕ → List ℕ → List ℕ
xor_mask [] mask = []
xor_mask (b ∷ bytes) [] = []
xor_mask (b ∷ bytes) (m ∷ mask) = bit_xor b m ∷ xor_mask bytes mask

-- The cookie and the transaction id.
unfoldable pub address_mask : List ℕ → List ℕ
address_mask txn = write_be32 magic_cookie ++ take 12 txn

-- The two tests of the sizes.
unfoldable pub is_encodable : TurnAddress → Bool
is_encodable addr =
    addr.family == family_ipv4 && length addr.address == 4
    || addr.family == family_ipv6 && length addr.address == 16

-- For IPv6 the WriteU32 at offset 0 is a write to the value: it clears the family and the port.
unfoldable pub xor_address_value : TurnAddress → List ℕ → List ℕ
xor_address_value addr txn =
    let xport = u16 (bit_xor addr.port (bit_and (magic_cookie / 2 ^ 16) 0xffff)) in
    if addr.family == family_ipv4
    then 0
      ∷ addr.family
      ∷ (write_be16 xport ++ write_be32 (bit_xor (read_be32 addr.address) magic_cookie))
    else write_be32 0 ++ xor_mask addr.address (address_mask txn)

unfoldable pub encode_xor_address : ℕ → TurnAddress → List ℕ → List ℕ → List ℕ
encode_xor_address attr_type addr txn buf =
    if is_encodable addr then append_attr attr_type (xor_address_value addr txn) buf else buf

-- An attribute for a text that is not empty.
unfoldable pub append_text : ℕ → List ℕ → List ℕ → List ℕ
append_text type text buf = if length text == 0 then buf else append_attr type text buf

unfoldable pub append_common_auth_attrs : List ℕ → List ℕ → List ℕ → List ℕ → List ℕ
append_common_auth_attrs username realm nonce buf =
    append_text attr_nonce nonce
      (append_text attr_realm realm (append_text attr_username username buf))

unfoldable pub write_header : ℕ → List ℕ → List ℕ
write_header type txn =
    write_be16 type ++ (write_be16 0 ++ (write_be32 magic_cookie ++ take 12 txn))

unfoldable pub finalize_length : List ℕ → List ℕ
finalize_length buf = set_length (u16 (length buf - 20)) buf

unfoldable pub encode_peers : List TurnAddress → List ℕ → List ℕ → List ℕ
encode_peers [] txn buf = buf
encode_peers (p ∷ peers) txn buf =
    encode_peers peers txn (encode_xor_address attr_xor_peer_address p txn buf)

unfoldable pub encode_send_indication : List ℕ → TurnAddress → List ℕ → List ℕ
encode_send_indication txn peer payload =
    let head = write_header (turn_message_type method_send class_indication) txn in
    finalize_length
      (append_attr attr_data payload (encode_xor_address attr_xor_peer_address peer txn head))

module _ (hmac : HmacSha1) where
  unfoldable pub append_message_integrity : List ℕ → List ℕ → List ℕ
  append_message_integrity key buf =
      let measured = set_length (u16 (length buf - 20 + 24)) buf in
      append_attr attr_message_integrity (hmac.mac key measured) measured

  -- What the three requests end with.
  unfoldable pub append_protection : List ℕ → List ℕ → List ℕ
  append_protection key buf =
      finalize_length (if length key == 0 then buf else append_message_integrity key buf)

  unfoldable pub encode_allocate : List ℕ → ℕ → List ℕ → List ℕ → List ℕ → List ℕ → List ℕ
  encode_allocate txn lifetime username realm nonce key =
      let head = write_header (turn_message_type method_allocate class_request) txn in
      let transport = append_attr attr_requested_transport (17 ∷ 0 ∷ 0 ∷ 0 ∷ []) head in
      let whole = append_attr attr_dont_fragment [] transport in
      let timed = append_attr_u32 attr_lifetime lifetime whole in
      append_protection key (append_common_auth_attrs username realm nonce timed)

  unfoldable pub encode_create_permission :
      List ℕ → List TurnAddress → List ℕ → List ℕ → List ℕ → List ℕ → List ℕ
  encode_create_permission txn peers username realm nonce key =
      let head = write_header (turn_message_type method_create_permission class_request) txn in
      append_protection key
        (append_common_auth_attrs username realm nonce (encode_peers peers txn head))

  unfoldable pub encode_refresh : List ℕ → ℕ → List ℕ → List ℕ → List ℕ → List ℕ → List ℕ
  encode_refresh txn lifetime username realm nonce key =
      let head = write_header (turn_message_type method_refresh class_request) txn in
      append_protection key (
        append_common_auth_attrs username realm nonce (append_attr_u32 attr_lifetime lifetime head))

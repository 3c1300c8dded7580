-- ===== src/Tests/Turn.antt =====
-- TURN messages and the key derivation on concrete inputs, with a simple function in the place of
-- HMAC-SHA1.
use vianium_voip.Md5.{md5_round}
use vianium_voip.Md5.{md5_transform}
use vianium_voip.Md5.{transform_blocks}
use vianium_voip.Turn.Fields.{ipv4_only}
use vianium_voip.Turn.Encode.{write_header}
use vianium_voip.Md5.{update_full}
use vianium_voip.Common.{true}
use vianium_voip.Common.{◌++◌}
use vianium_voip.Common.{ℕ, ◌+◌, ◌∷◌, ◌^◌, ◌<◌, ◌≡◌, refl, List, [], length, replicate, some, arith}
use vianium_voip.Bytes.{write_be16, write_be32, low_byte, read_be32, read_le32, write_le32}
use vianium_voip.Stun.Encode.{set_length, append_attr, append_attr_u32, pad_rounds}
use vianium_voip.Turn.Encode.{
  write_header, finalize_length, encode_xor_address, is_encodable, xor_address_value,
  append_common_auth_attrs, append_text, append_protection, append_message_integrity, encode_peers,
  xor_mask, address_mask,
}
use vianium_voip.Turn.Fields.{ipv4_only}
use vianium_voip.Md5.{
  update_full, transform_blocks, md5_transform, md5_round, md5_step, block_words, rotl32,
  count_bytes, pad_len, state_bytes,
}
use vianium_voip.Turn.{
  TurnAddress, method_allocate, turn_class_of, turn_method_of, turn_message_type,
}
use vianium_voip.Turn.Encode.{encode_send_indication, encode_allocate, encode_create_permission}
use vianium_voip.Turn.MakeAddress.{
  format_address, make_address, make_address_ipv4, has_dot, address_of_groups, group_loop,
  after_group, hex_group, hex_value, expand, group_bytes, port_bits,
}
use vianium_voip.Turn.Dotted.{make-format_address}
use vianium_voip.Text.{number}
use vianium_voip.Common.Int.{pos}
use vianium_voip.Turn.Decode.{decode_message}
use vianium_voip.Turn.Types.{rfc_type, class_of_bits, class_bit_misplaced}
use vianium_voip.Turn.Addresses.{IsAddress}
use vianium_voip.Turn.Layout.{integrity, peers_attrs, auth_attrs, allocate_attrs}
use vianium_voip.Turn.RoundTrip.{fresh}
use vianium_voip.Turn.Fields.{authenticated}
use vianium_voip.Turn.Requests.{
  send_type, allocate_type, permission_type, decode-encode_send_indication, decode-encode_allocate,
  decode-encode_create_permission,
}
use vianium_voip.Md5.{derive_long_term_key, md5_init, md5_final, md5_update}
use vianium_voip.Md5.Digest.{md5, derive_long_term_key_lem}
use vianium_voip.Tests.Stun.{toy}

-- The types of RFC 5389 for the responses to Allocate.
class_bit_misplaced_example :
    (turn_class_of (rfc_type method_allocate 1 0) ≡ 0)
    × (turn_method_of (rfc_type method_allocate 1 0) ≡ method_allocate)
    × (turn_class_of (turn_message_type method_allocate (class_of_bits 1 0)) ≡ class_of_bits 1 0)
    × (turn_method_of (turn_message_type method_allocate (class_of_bits 1 0))
        ≡ method_allocate + 0x80)
class_bit_misplaced_example =
    class_bit_misplaced method_allocate 1 0 (omega arith) (omega arith) (omega arith)

abbrev txn : List ℕ
txn = replicate 12 5

abbrev ipv4_peer : TurnAddress
ipv4_peer = record { family = 1; port = 40000; address = 192 ∷ 0 ∷ 2 ∷ 1 ∷ [] }

abbrev ipv6_peer : TurnAddress
ipv6_peer = record { family = 2; port = 40000; address = 0x20 ∷ 1 ∷ replicate 14 0 }

ipv4_peer-IsAddress : IsAddress ipv4_peer
ipv4_peer-IsAddress = record { port_fits = omega arith; address_bytes = omega arith }

ipv6_peer-IsAddress : IsAddress ipv6_peer
ipv6_peer-IsAddress = record { port_fits = omega arith; address_bytes = omega arith }

send_fits : length (encode_send_indication txn ipv4_peer (1 ∷ 2 ∷ 3 ∷ [])) < 20 + 2 ^ 16
unfolding turn_message_type write_header write_be16 write_be32 low_byte finalize_length set_length
    append_attr pad_rounds encode_xor_address is_encodable xor_address_value read_be32
    append_common_auth_attrs append_text append_protection append_message_integrity append_attr_u32
    encode_peers xor_mask address_mask encode_send_indication
send_fits = omega arith

decode-encode_send_indication_example :
    decode_message (encode_send_indication txn ipv4_peer (1 ∷ 2 ∷ 3 ∷ []))
    ≡ some (record (fresh send_type txn (encode_send_indication txn ipv4_peer (1 ∷ 2 ∷ 3 ∷ []))) {
      xor_peers = ipv4_peer ∷ [];
      has_data = true;
      payload = 1 ∷ 2 ∷ 3 ∷ [];
    })
decode-encode_send_indication_example =
    decode-encode_send_indication txn ipv4_peer (1 ∷ 2 ∷ 3 ∷ []) refl ipv4_peer-IsAddress send_fits

permission_fits :
    length (
      encode_create_permission toy txn
        (ipv6_peer ∷ ipv4_peer ∷ [])
        (97 ∷ [])
        (98 ∷ [])
        (99 ∷ [])
        (1 ∷ []))
    < 20 + 2 ^ 16
unfolding turn_message_type write_header write_be16 write_be32 low_byte finalize_length set_length
    append_attr pad_rounds encode_xor_address is_encodable xor_address_value read_be32
    append_common_auth_attrs append_text append_protection append_message_integrity append_attr_u32
    encode_peers xor_mask address_mask encode_create_permission
permission_fits = omega arith

decode-encode_create_permission_example :
    decode_message (
      encode_create_permission toy txn
        (ipv6_peer ∷ ipv4_peer ∷ [])
        (97 ∷ [])
        (98 ∷ [])
        (99 ∷ [])
        (1 ∷ []))
    ≡ some (
        authenticated
          (97 ∷ [])
          (98 ∷ [])
          (99 ∷ [])
          (1 ∷ [])
          (integrity toy (1 ∷ []) permission_type txn (
            peers_attrs txn (ipv6_peer ∷ ipv4_peer ∷ [])
            ++ auth_attrs (97 ∷ []) (98 ∷ []) (99 ∷ [])))
          (record (fresh permission_type txn (
            encode_create_permission toy txn
              (ipv6_peer ∷ ipv4_peer ∷ [])
              (97 ∷ [])
              (98 ∷ [])
              (99 ∷ [])
              (1 ∷ []))) { xor_peers = ipv4_peer ∷ [] }))
unfolding ipv4_only
decode-encode_create_permission_example =
    decode-encode_create_permission toy txn refl (97 ∷ []) (98 ∷ []) (99 ∷ []) (1 ∷ [])
      (ipv6_peer ∷ ipv4_peer ∷ []) (ipv6_peer-IsAddress, (ipv4_peer-IsAddress, tt)) permission_fits

allocate_fits : length (encode_allocate toy txn 600 [] [] [] []) < 20 + 2 ^ 16
unfolding turn_message_type write_header write_be16 write_be32 low_byte finalize_length set_length
    append_attr pad_rounds encode_xor_address is_encodable xor_address_value read_be32
    append_common_auth_attrs append_text append_protection append_message_integrity append_attr_u32
    encode_peers xor_mask address_mask encode_allocate
allocate_fits = omega arith

decode-encode_allocate_example :
    decode_message (encode_allocate toy txn 600 [] [] [] [])
    ≡ some (
        authenticated [] [] [] []
          (integrity toy [] allocate_type txn (allocate_attrs 600 [] [] []))
          (record (fresh allocate_type txn (encode_allocate toy txn 600 [] [] [] [])) {
            has_lifetime = true;
            lifetime = 600;
            has_requested_transport = true;
            protocol = 17;
          }))
decode-encode_allocate_example =
    decode-encode_allocate toy txn refl [] [] [] [] 600 (omega arith) allocate_fits

derive_long_term_key_lem_example :
    derive_long_term_key (97 ∷ []) [] (98 ∷ []) ≡ md5 (97 ∷ b':' ∷ b':' ∷ 98 ∷ [])
derive_long_term_key_lem_example = derive_long_term_key_lem (97 ∷ []) [] (98 ∷ [])

-- The digest of `abc` that RFC 1321 lists.
md5_abc :
    md5_final (md5_update md5_init (97 ∷ 98 ∷ 99 ∷ []))
    ≡ 0x90 ∷ 0x01 ∷ 0x50 ∷ 0x98 ∷ 0x3c ∷ 0xd2 ∷ 0x4f ∷ 0xb0 ∷ 0xd6 ∷ 0x96 ∷ 0x3f ∷ 0x7d ∷ 0x28
      ∷ 0xe1 ∷ 0x7f ∷ 0x72 ∷ []
unfolding md5_final md5_update update_full transform_blocks md5_transform md5_round md5_step
    block_words rotl32 count_bytes pad_len state_bytes low_byte read_le32 write_le32
md5_abc = refl

make-format_address_example :
    (ip : List ℕ) × (format_address ipv4_peer ≡ ip ++ b':' ∷ number 40000)
    × (make_address ip (pos 40000) ≡ ipv4_peer)
    × (make_address_ipv4 192 0 2 1 (pos 40000) ≡ ipv4_peer)
make-format_address_example = make-format_address 192 0 2 1 40000 (omega arith) (omega arith)

-- An address of IPv6 with a double colon.
make_address_ipv6 :
    make_address (b'2' ∷ b'0' ∷ b'0' ∷ b'1' ∷ b':' ∷ b':' ∷ b'a' ∷ []) (pos 80)
    ≡ record { family = 2; port = 80; address = 0x20 ∷ 1 ∷ (replicate 13 0 ++ 10 ∷ []) }
unfolding make_address has_dot address_of_groups group_loop after_group hex_group hex_value expand
    group_bytes write_be16 low_byte port_bits
make_address_ipv6 = refl

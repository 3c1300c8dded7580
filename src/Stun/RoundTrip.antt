-- ===== src/Stun/RoundTrip.antt =====
-- StunMessageCodec::Decode of src/voip/src/infrastructure/ice/stun_message.cpp reads what Encode wrote.
use vianium_voip.Stun.{stun_fingerprint_mask}
use vianium_voip.Common.{
  ℕ, ◌+◌, ◌^◌, ◌<◌, ◌≡◌, refl, sym, ap, ◌∙◌, List, [], ◌++◌, ltb-false, length, take, drop, some,
  arith, length-append, length-take, append_assoc, append-nil, take-append_of_eq, take-length,
  drop-append_of_eq,
}
use vianium_voip.Common.Xor.{bit_xor_bound}
use vianium_voip.Bytes.{write_be16, write_be32, read_be16, read_be32}
use vianium_voip.Bytes.Laws.{read-write_be16, read-write_be32}
use vianium_voip.Bytes.Compare.{slice}
use vianium_voip.Crc32
use vianium_voip.Stun.{HmacSha1, StunMessage, stun_magic_cookie, attr_fingerprint}
use vianium_voip.Stun.Encode.{encode}
use vianium_voip.Stun.Decode.{read_attr, scan_attrs, decode}
use vianium_voip.Stun.Fields.{length-word}
use vianium_voip.Stun.Wire.{padding, tlv, length-tlv}
use vianium_voip.Stun.Scan.{decode_attrs, decode_attrs-tlv}
use vianium_voip.Stun.Spec.{
  tlvs, header_of, all_attributes, covered_bytes, checksum, IsSendable, on_wire,
}
use vianium_voip.Stun.Reading.{fresh, read_all_lem, read_all, decode_attrs-tlvs}
use vianium_voip.Stun.Layout.{encode_lem, length-header_of}
use vianium_voip.Stun.Sizes.{all_attributes-Fits, length-all}

pub take_all : (n : ℕ) (xs : List ℕ) → length xs ≡ n → take n xs ≡ xs
take_all n xs h = ap (λ (k : ℕ). take k xs) (sym h) ∙ take-length xs

module _ (msg : StunMessage) (rest : List ℕ) (h : IsSendable msg)
    (fits : length rest < 2 ^ 16) where
  abbrev pub whole : List ℕ
  whole = header_of (length rest) msg ++ rest

  pub sizes : length whole ≡ 20 + length rest
  sizes = omega (
    arith,
    length-append (header_of (length rest) msg) rest,
    length-header_of msg h.transaction_size (length rest),
  )

  pub read_type : read_be16 whole ≡ msg.message_type
  unfolding header_of write_be16
  read_type = read-write_be16 msg.message_type _ h.type_fits

  pub read_length : read_be16 (drop 2 whole) ≡ length rest
  unfolding header_of write_be16
  read_length = read-write_be16 (length rest) _ fits

  pub read_cookie : read_be32 (drop 4 whole) ≡ stun_magic_cookie
  unfolding header_of write_be16 write_be32
  read_cookie = read-write_be32 stun_magic_cookie _ (omega arith)

  pub read_transaction : slice whole 8 12 ≡ msg.transaction_id
  unfolding header_of write_be16 write_be32
  read_transaction =
      take-append_of_eq 12 (take 12 msg.transaction_id) rest
        (omega (arith, length-take 12 msg.transaction_id, h.transaction_size))
      ∙ take_all 12 msg.transaction_id h.transaction_size

  pub read_attrs : slice whole 20 (length rest) ≡ rest
  read_attrs =
      ap (take (length rest)) (
        drop-append_of_eq 20 (header_of (length rest) msg) rest
          (sym (length-header_of msg h.transaction_size (length rest))))
      ∙ take-length rest

  -- Decode reads the header and goes on with the attributes.
  pub decode-header : decode whole ≡ decode_attrs rest (fresh msg)
  unfolding decode
  decode-header =
      rw
        (
          read_type,
          read_length,
          read_cookie,
          read_transaction,
          read_attrs,
          sizes,
          ltb-false (20 + length rest) 20 (omega arith),
          ltb-false (20 + length rest) (20 + length rest) (omega arith),
        )
        refl

pub checksum_bound :
    (hmac : HmacSha1) (msg : StunMessage) (password : List ℕ) → checksum hmac msg password < 2 ^ 32
unfolding checksum
checksum_bound hmac msg password =
    bit_xor_bound 32 (Crc32.compute (covered_bytes hmac msg password)) stun_fingerprint_mask
      (Crc32.compute_bound (covered_bytes hmac msg password)) (omega arith)

module _ (hmac : HmacSha1) (msg : StunMessage) (password : List ℕ) (h : IsSendable msg) where
  abbrev pub last_attr : List ℕ
  last_attr = tlv attr_fingerprint (write_be32 (checksum hmac msg password))

  pub length-last_attr : length last_attr ≡ 8
  length-last_attr =
      (length-tlv attr_fingerprint (write_be32 (checksum hmac msg password))).0
      ∙ rw (length-word (checksum hmac msg password)) (unfold padding in refl)

  -- The header of the whole message has the length of all that follows.
  pub encoded :
      encode hmac msg password
      ≡ header_of (length (tlvs (all_attributes hmac msg password) ++ last_attr)) msg
        ++ (tlvs (all_attributes hmac msg password) ++ last_attr)
  unfolding covered_bytes
  encoded =
      encode_lem hmac msg password h.transaction_size
      ∙ append_assoc _ (tlvs (all_attributes hmac msg password)) last_attr
      ∙ ap (λ (n : ℕ). header_of n msg ++ (tlvs (all_attributes hmac msg password) ++ last_attr))
          (omega (
            arith,
            length-append (tlvs (all_attributes hmac msg password)) last_attr,
            length-last_attr,
            length-all hmac msg password h,
          ))

  pub rest_fits : length (tlvs (all_attributes hmac msg password) ++ last_attr) < 2 ^ 16
  rest_fits = omega (
    arith,
    length-append (tlvs (all_attributes hmac msg password)) last_attr,
    length-last_attr,
    length-all hmac msg password h,
  )

  -- The last attribute, and then none.
  decode-last :
      (out : StunMessage)
      → decode_attrs last_attr out
        ≡ some (read_attr attr_fingerprint (write_be32 (checksum hmac msg password)) out)
  decode-last out =
      ap (λ (l : List ℕ). decode_attrs l out) (sym (append-nil last_attr))
      ∙ decode_attrs-tlv attr_fingerprint (write_be32 (checksum hmac msg password)) [] (omega arith)
          (omega (arith, length-word (checksum hmac msg password))) out
      ∙ (unfold scan_attrs in refl)

  -- Decode reads what Encode wrote. For a message whose fields fit their types and whose user name
  -- leaves room in the length field, with any password: the fields that are set come back as they were,
  -- the others as the constructor leaves them; a mapped address is sent, masked and unmasked, if it is
  -- one of IPv4; the code and the checksum are those that were computed.
  pub decode-encode_stun : decode (encode hmac msg password) ≡ some (on_wire hmac msg password)
  decode-encode_stun =
      ap decode encoded
      ∙ decode-header msg (tlvs (all_attributes hmac msg password) ++ last_attr) h rest_fits
      ∙ decode_attrs-tlvs (all_attributes hmac msg password) last_attr (fresh msg)
          (all_attributes-Fits hmac msg password h)
      ∙ decode-last (read_all (all_attributes hmac msg password) (fresh msg))
      ∙ ap (λ (m : StunMessage). some m)
          (read_all_lem hmac msg password h (checksum_bound hmac msg password))

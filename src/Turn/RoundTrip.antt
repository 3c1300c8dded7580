-- ===== src/Turn/RoundTrip.antt =====
-- DecodeMessage of src/voip/src/infrastructure/turn/turn_message.cpp reads what the four encoders wrote.
use vianium_voip.Common.{
  ℕ, ◌+◌, ◌^◌, ◌<◌, ◌≡◌, refl, ap, List, ◌++◌, false, ltb, ltb-false, length, some, arith, All,
  length-append,
}
use vianium_voip.Bytes.{u16, byte_at}
use vianium_voip.Common.{◌/◌}
use vianium_voip.Bytes.{write_be16}
use vianium_voip.Bytes.Laws.{low_byte_lem}
use vianium_voip.Stun.Spec.{Attribute, tlvs, header_of, IsSendable}
use vianium_voip.Stun.RoundTrip.{
  sizes, read_type, read_length, read_cookie, read_transaction, read_attrs,
}
use vianium_voip.Stun.Layout.{length-header_of}
use vianium_voip.Turn.{TurnMessage, new_message}
use vianium_voip.Turn.Decode.{decode_message}
use vianium_voip.Turn.Scan.{read_all, TypeFits, decode_attrs-tlvs}
use vianium_voip.Turn.Layout.{head_fields, message}

-- What DecodeMessage starts from.
abbrev pub fresh : ℕ → List ℕ → List ℕ → TurnMessage
fresh type txn raw = record new_message { type = type; transaction_id = txn; raw = raw }

module _ (type : ℕ) (txn : List ℕ) (type_fits : type < 1024) (sized : length txn ≡ 12)
    (attrs : List Attribute) where
  sendable : IsSendable (head_fields type txn)
  sendable = record {
    type_fits = omega (arith, type_fits);
    transaction_size = sized;
    username_size = omega arith;
    priority_fits = omega arith;
    controlling_fits = omega arith;
    controlled_fits = omega arith;
    address_size = refl;
    address_bytes = omega arith;
    port_fits = omega arith;
  }

  pub length-message : length (message type txn attrs) ≡ 20 + length (tlvs attrs)
  unfolding message
  length-message = omega (
    arith,
    length-append (header_of (u16 (length (tlvs attrs))) (head_fields type txn)) (tlvs attrs),
    length-header_of (head_fields type txn) sized (u16 (length (tlvs attrs))),
  )

  module _ (types : All TypeFits attrs) (fits : length (tlvs attrs) < 2 ^ 16) where
    abbrev bytes : List ℕ
    bytes = header_of (length (tlvs attrs)) (head_fields type txn) ++ tlvs attrs

    bytes_lem : message type txn attrs ≡ bytes
    unfolding message
    bytes_lem =
        ap (λ (n : ℕ). header_of n (head_fields type txn) ++ tlvs attrs) (omega (arith, fits))

    first_byte : ltb 0x03 (byte_at bytes 0) ≡ false
    unfolding header_of write_be16
    first_byte = ground (arith, low_byte_lem (type / 2 ^ 8), type_fits)

    decode-bytes : decode_message bytes ≡ some (read_all attrs (fresh type txn bytes))
    unfolding decode_message
    decode-bytes =
        rw
          (
            read_type (head_fields type txn) (tlvs attrs) sendable fits,
            read_length (head_fields type txn) (tlvs attrs) sendable fits,
            read_cookie (head_fields type txn) (tlvs attrs) sendable fits,
            read_transaction (head_fields type txn) (tlvs attrs) sendable fits,
            read_attrs (head_fields type txn) (tlvs attrs) sendable fits,
            sizes (head_fields type txn) (tlvs attrs) sendable fits,
            first_byte,
            ltb-false (20 + length (tlvs attrs)) 20 (omega arith),
            ltb-false (20 + length (tlvs attrs)) (20 + length (tlvs attrs)) (omega arith),
          )
          (decode_attrs-tlvs attrs (fresh type txn bytes) types fits)

    pub decode-message :
        decode_message (message type txn attrs)
        ≡ some (read_all attrs (fresh type txn (message type txn attrs)))
    decode-message = rw bytes_lem decode-bytes

  -- DecodeMessage reads the attributes of a message whose size fits its length field.
  pub decode-sent :
      (bytes : List ℕ)
      → bytes ≡ message type txn attrs
      → All TypeFits attrs
      → length bytes < 20 + 2 ^ 16
      → decode_message bytes ≡ some (read_all attrs (fresh type txn bytes))
  decode-sent bytes e types short =
      rw e (decode-message types (omega (arith, short, ap length e, length-message)))

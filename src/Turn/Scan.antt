-- ===== src/Turn/Scan.antt =====
-- The loop over the attributes in DecodeMessage of
-- src/voip/src/infrastructure/turn/turn_message.cpp, where all attributes are whole.
use vianium_voip.Common.{
  ℕ, zero, suc, ◌+◌, ◌^◌, ◌≤◌, ◌<◌, ◌≡◌, refl, ◌∙◌, List, [], ◌∷◌, ◌++◌, ltb-false, length, drop,
  Option, some, arith, All, length-append, length-drop,
}
use vianium_voip.Bytes.{read_be16}
use vianium_voip.Bytes.Compare.{slice}
use vianium_voip.Stun.Decode.{advance_rounds}
use vianium_voip.Stun.Wire.{tlv, length-tlv, advance_rounds_lem}
use vianium_voip.Stun.Spec.{Attribute, tlvs}
use vianium_voip.Stun.Scan.{read_type, read_size, read_value, skip, long_enough}
use vianium_voip.Turn.{TurnMessage}
use vianium_voip.Turn.Decode.{read_attr, scan_attrs}

abbrev pub decode_attrs : List ℕ → TurnMessage → Option TurnMessage
decode_attrs bytes out = scan_attrs (length bytes) bytes out

-- More fuel than bytes changes nothing.
scan_fuel :
    (n m : ℕ) (bytes : List ℕ) (out : TurnMessage)
    → length bytes ≤ n
    → length bytes ≤ m
    → scan_attrs n bytes out ≡ scan_attrs m bytes out
unfolding scan_attrs
scan_fuel zero zero bytes out p q = refl
scan_fuel zero (suc m) bytes out p q = ground arith
scan_fuel (suc n) zero bytes out p q = ground arith
scan_fuel (suc n) (suc m) bytes out p q =
    let size = read_be16 (drop 2 bytes) in
    let rest = drop (advance_rounds 3 (4 + size)) bytes in
    let next = read_attr (read_be16 bytes) (slice bytes 4 size) out in
    ground (
      arith,
      advance_rounds_lem (4 + size),
      length-drop (advance_rounds 3 (4 + size)) bytes,
      scan_fuel n m rest next,
    )

module _ (type : ℕ) (value rest : List ℕ) (type_fits : type < 2 ^ 16)
    (value_fits : length value < 2 ^ 16) (out : TurnMessage) where
  scan_step :
      (n : ℕ)
      → scan_attrs (suc n) (tlv type value ++ rest) out
        ≡ scan_attrs n rest (read_attr type value out)
  unfolding scan_attrs
  scan_step n =
      rw
        (
          read_size type value rest type_fits value_fits,
          read_type type value rest type_fits value_fits,
          read_value type value rest type_fits value_fits,
          skip type value rest type_fits value_fits,
          ltb-false (length (tlv type value ++ rest)) (4 + length value) (omega (arith, enough)),
        )
        (ground (arith, enough))
    where
      enough : 4 + length value + length rest ≤ length (tlv type value ++ rest)
      enough = long_enough type value rest type_fits value_fits

  decode_attrs-tlv :
      decode_attrs (tlv type value ++ rest) out ≡ decode_attrs rest (read_attr type value out)
  decode_attrs-tlv =
      scan_fuel n (suc n) (tlv type value ++ rest) out (omega arith) (omega arith)
      ∙ scan_step n
      ∙ scan_fuel n (length rest) rest (read_attr type value out)
          (omega (arith, long_enough type value rest type_fits value_fits)) (omega arith)
    where
      n : ℕ
      n = length (tlv type value ++ rest)

unfoldable pub read_all : List Attribute → TurnMessage → TurnMessage
read_all [] out = out
read_all ((type, value) ∷ attrs) out = read_all attrs (read_attr type value out)

pub read_all-append :
    (xs ys : List Attribute) (out : TurnMessage)
    → read_all (xs ++ ys) out ≡ read_all ys (read_all xs out)
unfolding read_all
read_all-append [] ys out = refl
read_all-append ((type, value) ∷ xs) ys out = read_all-append xs ys (read_attr type value out)

abbrev pub TypeFits : Attribute → Type 0
TypeFits a = a.0 < 2 ^ 16

-- Attributes whose types fit, and that fill less than the length field counts, are read one by one.
pub decode_attrs-tlvs :
    (attrs : List Attribute) (out : TurnMessage)
    → All TypeFits attrs
    → length (tlvs attrs) < 2 ^ 16
    → decode_attrs (tlvs attrs) out ≡ some (read_all attrs out)
unfolding tlvs read_all scan_attrs
decode_attrs-tlvs [] out h fits = refl
decode_attrs-tlvs ((type, value) ∷ attrs) out h fits =
    decode_attrs-tlv type value (tlvs attrs) h.0
      (omega (arith, fits, length-append (tlv type value) (tlvs attrs), (length-tlv type value).0))
      out
    ∙ decode_attrs-tlvs attrs (read_attr type value out) h.1
        (omega (arith, fits, length-append (tlv type value) (tlvs attrs)))

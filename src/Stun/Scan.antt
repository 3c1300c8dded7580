-- ===== src/Stun/Scan.antt =====
-- The two loops over the attributes in src/voip/src/infrastructure/ice/stun_message.cpp, at an attribute
-- that is whole.
use vianium_voip.Common.{
  ℕ, zero, suc, ◌+◌, ◌^◌, ◌≤◌, ◌<◌, ◌≡◌, refl, ap, ◌∙◌, List, ◌++◌, ◌&&◌, ltb-false, ◌==◌,
  if◌then◌else◌, length, take, drop, Option, some, arith, length-append, length-drop, append_assoc,
  take-append_of_eq, drop-append_of_eq,
}
use vianium_voip.Bytes.{u16, write_be16, read_be16}
use vianium_voip.Bytes.Laws.{read-write_be16}
use vianium_voip.Bytes.Compare.{slice}
use vianium_voip.Stun.{StunMessage, attr_message_integrity}
use vianium_voip.Stun.Decode.{advance_rounds, read_attr, scan_attrs, find_integrity}
use vianium_voip.Stun.Wire.{padding, tlv, length-tlv, advance_rounds_lem, advance_lem}

-- The loop with as much fuel as there are bytes.
abbrev pub decode_attrs : List ℕ → StunMessage → Option StunMessage
decode_attrs bytes out = scan_attrs (length bytes) bytes out

-- More fuel than bytes changes nothing.
scan_fuel :
    (n m : ℕ) (bytes : List ℕ) (out : StunMessage)
    → length bytes ≤ n
    → length bytes ≤ m
    → scan_attrs n bytes out ≡ scan_attrs m bytes out
unfolding scan_attrs
scan_fuel zero zero bytes out p q = refl
scan_fuel zero (suc m) bytes out p q = ground arith
scan_fuel (suc n) zero bytes out p q = ground arith
scan_fuel (suc n) (suc m) bytes out p q =
    let size = read_be16 (drop 2 bytes) in
    let rest = drop (advance_rounds 3 (4 + size)) bytes in
    let next = read_attr (read_be16 bytes) (slice bytes 4 size) out in
    ground (
      arith,
      advance_rounds_lem (4 + size),
      length-drop (advance_rounds 3 (4 + size)) bytes,
      scan_fuel n m rest next,
    )

module _ (type : ℕ) (value rest : List ℕ) (type_fits : type < 2 ^ 16)
    (value_fits : length value < 2 ^ 16) where
  abbrev pub whole : List ℕ
  whole = tlv type value ++ rest

  pub read_type : read_be16 whole ≡ type
  unfolding tlv write_be16
  read_type = read-write_be16 type _ type_fits

  pub read_size : read_be16 (drop 2 whole) ≡ length value
  unfolding tlv write_be16
  read_size = read-write_be16 (u16 (length value)) _ (omega arith) ∙ omega (arith, value_fits)

  pub read_value : slice whole 4 (length value) ≡ value
  unfolding tlv write_be16
  read_value =
      ap (take (length value)) (append_assoc value (padding (length value)) rest)
      ∙ take-append_of_eq (length value) value (padding (length value) ++ rest) refl

  pub skip : drop (advance_rounds 3 (4 + length value)) whole ≡ rest
  skip =
      drop-append_of_eq (advance_rounds 3 (4 + length value)) (tlv type value) rest
        (omega (arith, advance_lem (length value), (length-tlv type value).0))

  pub long_enough : 4 + length value + length rest ≤ length whole
  long_enough = omega (arith, length-append (tlv type value) rest, (length-tlv type value).0)

  scan_step :
      (n : ℕ) (out : StunMessage)
      → scan_attrs (suc n) whole out ≡ scan_attrs n rest (read_attr type value out)
  unfolding scan_attrs
  scan_step n out =
      rw
        (
          read_size,
          read_type,
          read_value,
          skip,
          ltb-false (length whole) (4 + length value) (omega (arith, long_enough)),
        )
        (ground (arith, long_enough))

  -- Decode reads an attribute that is there in full and goes on behind it.
  pub decode_attrs-tlv :
      (out : StunMessage) → decode_attrs whole out ≡ decode_attrs rest (read_attr type value out)
  decode_attrs-tlv out =
      scan_fuel (length whole) (suc (length whole)) whole out (omega arith) (omega arith)
      ∙ scan_step (length whole) out
      ∙ scan_fuel (length whole) (length rest) rest (read_attr type value out)
          (omega (arith, long_enough)) (omega arith)

  -- The search for MESSAGE-INTEGRITY stops at the attribute or goes on behind it.
  pub find_step :
      (n p : ℕ)
      → find_integrity (suc n) p whole ≡ (
          if type == attr_message_integrity && length value == 20
          then some p
          else find_integrity n (p + length (tlv type value)) rest)
  unfolding find_integrity
  find_step n p =
      rw
        (
          read_size,
          read_type,
          skip,
          advance_is,
          ltb-false (length whole) (4 + length value) (omega (arith, long_enough)),
        )
        (ground (arith, long_enough))
    where
      advance_is : advance_rounds 3 (4 + length value) ≡ length (tlv type value)
      advance_is = omega (arith, advance_lem (length value), (length-tlv type value).0)

-- ===== src/Stun/Integrity.antt =====
-- VerifyMessageIntegrity and VerifyFingerprint of src/voip/src/infrastructure/ice/stun_message.cpp.
use vianium_voip.Common.{
  ℕ, suc, ◌+◌, ◌-◌, ◌^◌, ◌≤◌, ◌<◌, ◌≡◌, ◌≢◌, refl, sym, ap, ap₂, ◌∙◌, List, [], ◌∷◌, ◌++◌, false,
  ◌&&◌, ltb-false, ◌==◌, if◌then◌else◌, length, take, some, arith, All, length-append, append_assoc,
  take-append_of_eq, drop-append_add,
}
use vianium_voip.Bytes.{u16}
use vianium_voip.Bytes.Compare.{slice, bytes_equal}
use vianium_voip.Stun.{HmacSha1, StunMessage, attr_message_integrity}
use vianium_voip.Stun.Decode.{find_integrity, check_integrity, verify_message_integrity}
use vianium_voip.Stun.Wire.{padding, tlv, length-tlv}
use vianium_voip.Stun.Scan.{find_step, read_value}
use vianium_voip.Stun.Spec.{Attribute, tlvs, header_of, IsSendable}
use vianium_voip.Stun.Reading.{Fits}
use vianium_voip.Stun.Layout.{written, length-header_of}
use vianium_voip.Stun.RoundTrip.{read_length, sizes, read_attrs}

abbrev pub IsOther : Attribute → Type 0
IsOther a = a.0 ≢ attr_message_integrity

-- The search passes the attributes of other types.
find_through :
    (attrs : List Attribute) (n p : ℕ) (rest : List ℕ)
    → All IsOther attrs
    → All Fits attrs
    → find_integrity (length attrs + n) p (tlvs attrs ++ rest)
      ≡ find_integrity n (p + length (tlvs attrs)) rest
unfolding tlvs
find_through [] n p rest o f =
    ap₂ (λ (m q : ℕ). find_integrity m q rest) (omega arith) (omega arith)
find_through ((type, value) ∷ attrs) n p rest o f =
    ap₂ (λ (m : ℕ) (l : List ℕ). find_integrity m p l) (omega arith)
      (append_assoc (tlv type value) (tlvs attrs) rest)
    ∙ find_step type value (tlvs attrs ++ rest) f.0.0 f.0.1 (length attrs + n) p
    ∙ passed
    ∙ find_through attrs n (p + length (tlv type value)) rest o.1 f.1
    ∙ ap (λ (k : ℕ). find_integrity n k rest)
        (omega (arith, length-append (tlv type value) (tlvs attrs)))
  where
    other : (type == attr_message_integrity) ≡ false
    other = ground (arith, o.0)

    passed :
        (if type == attr_message_integrity && length value == 20
          then some p
          else find_integrity (length attrs + n) (p + length (tlv type value)) (tlvs attrs ++ rest))
        ≡ find_integrity (length attrs + n) (p + length (tlv type value)) (tlvs attrs ++ rest)
    passed = rw other refl

count-le : (attrs : List Attribute) → length attrs ≤ length (tlvs attrs)
unfolding tlvs
count-le [] = omega arith
count-le ((type, value) ∷ attrs) =
    omega (
      arith,
      count-le attrs,
      length-append (tlv type value) (tlvs attrs),
      (length-tlv type value).0,
    )

module _ (hmac : HmacSha1) (msg : StunMessage) (password : List ℕ) (h : IsSendable msg)
    (attrs : List Attribute) (others : All IsOther attrs) (all_fit : All Fits attrs) (mac : List ℕ)
    (mac_size : length mac ≡ 20) (tail : List ℕ) where
  abbrev after : List ℕ
  after = tlvs attrs ++ (tlv attr_message_integrity mac ++ tail)

  length-mac_attr : length (tlv attr_message_integrity mac) ≡ 24
  length-mac_attr = (length-tlv attr_message_integrity mac).0 ∙ rw mac_size (unfold padding in refl)

  length-after : length after ≡ length (tlvs attrs) + (24 + length tail)
  length-after = omega (
    arith,
    length-append (tlvs attrs) (tlv attr_message_integrity mac ++ tail),
    length-append (tlv attr_message_integrity mac) tail,
    length-mac_attr,
  )

  found : find_integrity (length after) 20 after ≡ some (20 + length (tlvs attrs))
  found =
      ap (λ (k : ℕ). find_integrity k 20 after) fuel
      ∙ find_through attrs (suc spare) 20 (tlv attr_message_integrity mac ++ tail) others all_fit
      ∙ find_step attr_message_integrity mac tail (omega arith) (omega (arith, mac_size)) spare
          (20 + length (tlvs attrs))
      ∙ rw mac_size refl
    where
      spare : ℕ
      spare = length after - length attrs - 1

      fuel : length after ≡ length attrs + suc spare
      fuel = omega (arith, length-after, count-le attrs)

  -- The code is over what stands in front of it, whatever stands behind it.
  pub verify_lem :
      length after < 2 ^ 16
      → verify_message_integrity hmac (header_of (length after) msg ++ after) password
        ≡ bytes_equal
            (hmac.mac password (header_of (u16 (length (tlvs attrs) + 24)) msg ++ tlvs attrs))
            mac
  unfolding verify_message_integrity
  verify_lem fits =
      rw
        (
          read_length msg after h fits,
          read_attrs msg after h fits,
          sizes msg after h fits,
          ltb-false (20 + length after) 20 (omega arith),
          ltb-false (20 + length after) (20 + length after) (omega arith),
          found,
        )
        checked
    where
      head : List ℕ
      head = header_of (length after) msg ++ tlvs attrs

      length-head : length head ≡ 20 + length (tlvs attrs)
      length-head = omega (
        arith,
        length-append (header_of (length after) msg) (tlvs attrs),
        length-header_of msg h.transaction_size (length after),
      )

      split :
          header_of (length after) msg ++ after ≡ head ++ (tlv attr_message_integrity mac ++ tail)
      split = sym (append_assoc (header_of (length after) msg) (tlvs attrs) _)

      front : take (20 + length (tlvs attrs)) (header_of (length after) msg ++ after) ≡ head
      front =
          ap (take (20 + length (tlvs attrs))) split ∙ take-append_of_eq _ head _ (sym length-head)

      value : slice (header_of (length after) msg ++ after) (20 + length (tlvs attrs) + 4) 20 ≡ mac
      value =
          ap (λ (l : List ℕ). slice l (20 + length (tlvs attrs) + 4) 20) split
          ∙ ap (take 20)
              (drop-append_add (20 + length (tlvs attrs) + 4) 4 head _ (omega (arith, length-head)))
          ∙ ap (λ (n : ℕ). slice (tlv attr_message_integrity mac ++ tail) 4 n) (sym mac_size)
          ∙ read_value attr_message_integrity mac tail (omega arith) (omega (arith, mac_size))

      checked :
          check_integrity hmac
            (header_of (length after) msg ++ after)
            password
            (20 + length (tlvs attrs))
          ≡ bytes_equal
              (hmac.mac password (header_of (u16 (length (tlvs attrs) + 24)) msg ++ tlvs attrs))
              mac
      checked =
          unfold check_integrity in
          rw
            (
              front,
              value,
              length-head,
              ltb-false (20 + length (tlvs attrs)) 20 (omega arith),
              written (u16 (20 + length (tlvs attrs) - 20 + 24)) (length after) msg (tlvs attrs),
            )
            (ap
              (λ (n : ℕ). bytes_equal (hmac.mac password (header_of (u16 n) msg ++ tlvs attrs)) mac)
              (omega arith))

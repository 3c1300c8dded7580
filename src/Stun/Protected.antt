-- ===== src/Stun/Protected.antt =====
-- What VerifyMessageIntegrity and VerifyFingerprint of src/voip/src/infrastructure/ice/stun_message.cpp
-- say of the messages that Encode wrote, and of those with attributes added behind.
use vianium_voip.Common.{
  ℕ, ◌+◌, ◌-◌, ◌^◌, ◌<◌, ◌≡◌, refl, sym, ap, ◌∙◌, List, [], ◌++◌, true, false, not, ltb, ◌==◌,
  if◌then◌else◌, length, drop, some, arith, All, length-append, append_assoc, bit_xor, append-nil,
  take-append, drop-append,
}
use vianium_voip.Bytes.{u16, write_be16, write_be32, read_be16, read_be32, write_at}
use vianium_voip.Bytes.Compare.{bytes_equal, bytes_equal_self}
use vianium_voip.Stun.{
  HmacSha1, StunMessage, attr_message_integrity, attr_use_candidate, attr_fingerprint,
}
use vianium_voip.Stun.Decode.{verify_message_integrity, verify_fingerprint}
use vianium_voip.Stun.Wire.{padding, tlv, length-tlv}
use vianium_voip.Stun.Spec.{
  tlvs, present, attributes, header_of, signed_bytes, integrity, all_attributes, covered_bytes,
  checksum, IsSendable,
}
use vianium_voip.Stun.Layout.{tlvs-append, written, length-header_of}
use vianium_voip.Bytes.Laws.{read-write_be16, read-write_be32}
use vianium_voip.Crc32
use vianium_voip.Stun.{stun_fingerprint_mask}
use vianium_voip.Stun.Encode.{encode}
use vianium_voip.Stun.Decode.{decode, read_attr, scan_attrs}
use vianium_voip.Stun.Fields.{length-word}
use vianium_voip.Stun.Scan.{decode_attrs, decode_attrs-tlv}
use vianium_voip.Stun.Reading.{read_all, fresh, decode_attrs-tlvs}
use vianium_voip.Stun.Layout.{encode_lem}
use vianium_voip.Stun.Sizes.{attributes-All, attributes-Fits, all_attributes-Fits, length-all}
use vianium_voip.Stun.RoundTrip.{
  encoded, rest_fits, last_attr, length-last_attr, checksum_bound, decode-header,
}
use vianium_voip.Stun.Integrity.{IsOther, verify_lem}

attributes-IsOther : (msg : StunMessage) → All IsOther (attributes msg)
attributes-IsOther msg =
    attributes-All IsOther msg (ground arith) (ground arith) (ground arith) (ground arith)
      (ground arith) (ground arith)

module _ (hmac : HmacSha1) (msg : StunMessage) (password : List ℕ) (h : IsSendable msg)
    (keyed : 0 < length password) where
  abbrev mac : List ℕ
  mac = integrity hmac msg password

  mac_size : length mac ≡ 20
  unfolding integrity
  mac_size = hmac.mac_size password (signed_bytes hmac msg password)

  -- What Encode has written, with its tail behind MESSAGE-INTEGRITY.
  signed_part :
      tlvs (all_attributes hmac msg password)
      ≡ tlvs (attributes msg) ++ tlv attr_message_integrity mac
  unfolding all_attributes
  signed_part =
      tlvs-append (attributes msg) (present (not (length password == 0)) attr_message_integrity mac)
      ∙ ap (λ (l : List ℕ). tlvs (attributes msg) ++ l) one
    where
      there : (length password == 0) ≡ false
      there = ground (arith, keyed)

      one :
          tlvs (present (not (length password == 0)) attr_message_integrity mac)
          ≡ tlv attr_message_integrity mac
      one = rw there (unfold tlvs in append-nil (tlv attr_message_integrity mac))

  regroup :
      (tail : List ℕ)
      → tlvs (all_attributes hmac msg password) ++ tail
        ≡ tlvs (attributes msg) ++ (tlv attr_message_integrity mac ++ tail)
  regroup tail =
      ap (λ (l : List ℕ). l ++ tail) signed_part
      ∙ append_assoc (tlvs (attributes msg)) (tlv attr_message_integrity mac) tail

  -- Whatever attributes follow, the code is accepted.
  accepted :
      (tail : List ℕ)
      → length (tlvs (all_attributes hmac msg password) ++ tail) < 2 ^ 16
      → verify_message_integrity hmac
          (header_of (length (tlvs (all_attributes hmac msg password) ++ tail)) msg
            ++ (tlvs (all_attributes hmac msg password) ++ tail))
          password
        ≡ true
  accepted tail fits = rw (regroup tail) (
      verify_lem hmac msg password h (attributes msg) (attributes-IsOther msg)
        (attributes-Fits msg h.username_size) mac mac_size tail (rw (regroup tail) at fits)
      ∙ same)
    where
      same :
          bytes_equal
            (hmac.mac password
              (header_of (u16 (length (tlvs (attributes msg)) + 24)) msg ++ tlvs (attributes msg)))
            mac
          ≡ true
      same = unfold integrity signed_bytes in bytes_equal_self _

  abbrev sum : ℕ
  sum = checksum hmac msg password

  abbrev covered : List ℕ
  covered = covered_bytes hmac msg password

  abbrev last : List ℕ
  last = tlv attr_fingerprint (write_be32 sum)

  length-last : length last ≡ 8
  length-last = length-last_attr hmac msg password h

  length-covered : length covered ≡ 20 + length (tlvs (all_attributes hmac msg password))
  unfolding covered_bytes
  length-covered = omega (
    arith,
    length-append (header_of (u16 (length (tlvs (all_attributes hmac msg password)) + 8)) msg)
        (tlvs (all_attributes hmac msg password)),
    length-header_of msg h.transaction_size
        (u16 (length (tlvs (all_attributes hmac msg password)) + 8)),
  )

  last_read :
      (read_be16 last ≡ attr_fingerprint)
      × (read_be16 (drop 2 last) ≡ 4)
      × (read_be32 (drop 4 last) ≡ sum)
  unfolding tlv write_be16
  last_read = (
    read-write_be16 attr_fingerprint _ (omega arith),
    read-write_be16 (u16 (length (write_be32 sum))) _ (omega arith)
        ∙ omega (arith, length-word sum),
    read-write_be32 sum _ (checksum_bound hmac msg password),
  )

  measured_again :
      write_at 2 (write_be16 (u16 (length (tlvs (all_attributes hmac msg password)) + 8))) covered
      ≡ covered
  unfolding covered_bytes
  measured_again = written _ _ msg (tlvs (all_attributes hmac msg password))

  fingerprint_checked : verify_fingerprint (covered ++ last) ≡ true
  unfolding verify_fingerprint
  fingerprint_checked =
      rw
        (
          size,
          offset,
          take-append covered last,
          drop-append covered last,
          last_read.0,
          last_read.1,
          last_read.2,
          again,
          measured_again,
        )
        matches
    where
      tail : ℕ
      tail = length (tlvs (all_attributes hmac msg password))

      offset : 28 + tail - 8 ≡ length covered
      offset = omega (arith, length-covered)

      again : length covered - 20 + 8 ≡ tail + 8
      again = omega (arith, length-covered)

      matches :
          (if ltb (28 + tail) 28
            then false
            else if ltb (length covered) 20
            then false
            else bit_xor (Crc32.compute covered) stun_fingerprint_mask == sum)
          ≡ true
      matches = unfold checksum in ground (arith, length-covered)

      size : length (covered ++ last) ≡ 28 + tail
      size = omega (arith, length-append covered last, length-last, length-covered)

  -- What one side signs the other side accepts, ending in a checksum that holds.
  fingerprint_holds : verify_fingerprint (encode hmac msg password) ≡ true
  fingerprint_holds =
      ap verify_fingerprint (encode_lem hmac msg password h.transaction_size) ∙ fingerprint_checked

  -- A message that Encode has written passes both checks. For a message whose fields fit their types and
  -- whose user name leaves room in the length field, and a password that is not empty,
  -- VerifyMessageIntegrity with the same password and VerifyFingerprint accept it.
  pub verify-encode :
      (verify_message_integrity hmac (encode hmac msg password) password ≡ true)
      × (verify_fingerprint (encode hmac msg password) ≡ true)
  verify-encode = (
    ap (λ (l : List ℕ). verify_message_integrity hmac l password) (encoded hmac msg password h)
        ∙ accepted (last_attr hmac msg password h) (rest_fits hmac msg password h),
    fingerprint_holds,
  )

  abbrev added : List ℕ
  added = tlv attr_use_candidate []

  -- A signed message with a USE-CANDIDATE attribute behind its code, and the length to match.
  unfoldable pub nominated_bytes : List ℕ
  nominated_bytes =
      header_of (length (tlvs (all_attributes hmac msg password) ++ added)) msg
      ++ (tlvs (all_attributes hmac msg password) ++ added)

  added_fits : length (tlvs (all_attributes hmac msg password) ++ added) < 2 ^ 16
  added_fits = omega (
    arith,
    length-append (tlvs (all_attributes hmac msg password)) added,
    length-added,
    length-all hmac msg password h,
  )
    where
      length-added : length added ≡ 4
      length-added = (length-tlv attr_use_candidate []).0 ∙ (unfold padding in refl)

  decode-added :
      (out : StunMessage) → decode_attrs added out ≡ some (record out { use_candidate = true })
  decode-added out =
      ap (λ (l : List ℕ). decode_attrs l out) (sym (append-nil added))
      ∙ decode_attrs-tlv attr_use_candidate [] [] (omega arith) (omega arith) out
      ∙ (unfold scan_attrs read_attr in refl)

  -- An attribute behind MESSAGE-INTEGRITY is not covered and yet read. To a signed message, without the
  -- password, a USE-CANDIDATE attribute can be added behind the code: for a message whose fields fit
  -- their types and whose user name leaves room in the length field, and a password that is not empty,
  -- the result still passes VerifyMessageIntegrity, and Decode reports a nomination, whether or not the
  -- signer has made it.
  pub tail_not_covered :
      (verify_message_integrity hmac nominated_bytes password ≡ true)
      × ((out : StunMessage) × (decode nominated_bytes ≡ some out) × (out.use_candidate ≡ true))
  unfolding nominated_bytes
  tail_not_covered =
      (accepted added added_fits, (record read { use_candidate = true }, reads, refl))
    where
      read : StunMessage
      read = read_all (all_attributes hmac msg password) (fresh msg)

      reads :
          decode (
            header_of (length (tlvs (all_attributes hmac msg password) ++ added)) msg
            ++ (tlvs (all_attributes hmac msg password) ++ added))
          ≡ some (record read { use_candidate = true })
      reads =
          decode-header msg (tlvs (all_attributes hmac msg password) ++ added) h added_fits
          ∙ decode_attrs-tlvs (all_attributes hmac msg password) added (fresh msg)
              (all_attributes-Fits hmac msg password h)
          ∙ decode-added read

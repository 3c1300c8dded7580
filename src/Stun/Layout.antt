-- ===== src/Stun/Layout.antt =====
-- StunMessageCodec::Encode of src/voip/src/infrastructure/ice/stun_message.cpp writes the attributes of
-- the message, those of its protection and the header with the length of all of them.
use vianium_voip.Common.{inr}
use vianium_voip.Common.{inl}
use vianium_voip.Common.{
  ℕ, ◌+◌, ◌-◌, ◌%◌, ◌≡◌, refl, sym, ap, ◌∙◌, List, [], ◌∷◌, ◌++◌, Bool, true, false, not, ◌==◌,
  if◌then◌else◌, length, arith, length-append, length-take, append_assoc, append-nil, Bool-cases,
  inl, inr,
}
use vianium_voip.Bytes.{write_at, u16, write_be16, write_be32}
use vianium_voip.Stun.{
  HmacSha1, StunMessage, attr_username, attr_message_integrity, attr_xor_mapped_address,
  attr_priority, attr_use_candidate, attr_fingerprint, attr_ice_controlled, attr_ice_controlling,
}
use vianium_voip.Stun.Encode.{
  append_attr, append_attr_u32, append_attr_u64, set_length, header, append_if, append_attributes,
  append_integrity, append_fingerprint, encode, write_be64, xor_mapped_value,
}
use vianium_voip.Stun.Wire.{tlv, append_attr_lem, length-tlv}
use vianium_voip.Stun.Spec.{
  Attribute, tlvs, present, is_mapped, attributes, header_of, signed_bytes, integrity,
  all_attributes, covered_bytes, checksum,
}

pub tlvs-append : (xs ys : List Attribute) → tlvs (xs ++ ys) ≡ tlvs xs ++ tlvs ys
unfolding tlvs
tlvs-append [] ys = refl
tlvs-append ((t, v) ∷ xs) ys =
    ap (λ (l : List ℕ). tlv t v ++ l) (tlvs-append xs ys)
    ∙ sym (append_assoc (tlv t v) (tlvs xs) (tlvs ys))

pub tlvs_aligned : (xs : List Attribute) → length (tlvs xs) % 4 ≡ 0
unfolding tlvs
tlvs_aligned [] = refl
tlvs_aligned ((t, v) ∷ xs) =
    omega (arith, length-append (tlv t v) (tlvs xs), (length-tlv t v).1, tlvs_aligned xs)

-- A buffer that holds a message so far: its header and whole attributes.
abbrev pub buffer : List ℕ → List Attribute → List ℕ
buffer head attrs = head ++ tlvs attrs

module _ (head : List ℕ) (head_aligned : length head % 4 ≡ 0) where
  pub appended :
      (type : ℕ) (value : List ℕ) (attrs : List Attribute)
      → append_attr type value (buffer head attrs) ≡ buffer head (attrs ++ (type, value) ∷ [])
  appended type value attrs =
      append_attr_lem type value (buffer head attrs)
        (omega (arith, length-append head (tlvs attrs), tlvs_aligned attrs, head_aligned))
      ∙ append_assoc head (tlvs attrs) (tlv type value)
      ∙ ap (λ (l : List ℕ). head ++ (tlvs attrs ++ l)) (one type value)
      ∙ ap (λ (l : List ℕ). head ++ l) (sym (tlvs-append attrs ((type, value) ∷ [])))
    where
      one : (type : ℕ) (value : List ℕ) → tlv type value ≡ tlvs ((type, value) ∷ [])
      one type value = unfold tlvs in sym (append-nil (tlv type value))

  pub appended_if :
      (b : Bool) (type : ℕ) (value : List ℕ) (attrs : List Attribute)
      → append_if b (append_attr type value) (buffer head attrs)
        ≡ buffer head (attrs ++ present b type value)
  unfolding append_if
  appended_if true type value attrs = appended type value attrs
  appended_if false type value attrs = ap (buffer head) (sym (append-nil attrs))

  named_if :
      (username : List ℕ) (attrs : List Attribute)
      → (if length username == 0
          then buffer head attrs
          else append_attr attr_username username (buffer head attrs))
        ≡ buffer head (attrs ++ present (not (length username == 0)) attr_username username)
  named_if username attrs = elim (Bool-cases (length username == 0)) [
    | inl none ↦ rw none (ap (buffer head) (sym (append-nil attrs)))
    | inr some ↦ rw some (appended attr_username username attrs)
  ]

  append_attributes_lem :
      (msg : StunMessage) → append_attributes msg (buffer head []) ≡ buffer head (attributes msg)
  unfolding append_attributes append_attr_u32 append_attr_u64 attributes
  append_attributes_lem msg =
      rw
        (
          named_if msg.username [],
          appended_if msg.has_priority attr_priority (write_be32 msg.priority),
          appended_if msg.has_ice_controlling attr_ice_controlling
              (write_be64 msg.ice_controlling_tie_break),
          appended_if msg.has_ice_controlled attr_ice_controlled
              (write_be64 msg.ice_controlled_tie_break),
          appended_if msg.use_candidate attr_use_candidate [],
          appended_if (is_mapped msg) attr_xor_mapped_address (xor_mapped_value msg),
        )
        (ap (buffer head) (simp append_assoc))

pub written :
    (n m : ℕ) (msg : StunMessage) (rest : List ℕ)
    → write_at 2 (write_be16 n) (header_of m msg ++ rest) ≡ header_of n msg ++ rest
unfolding header_of write_be16
written n m msg rest = refl

pub measured :
    (n m : ℕ) (msg : StunMessage) (rest : List ℕ)
    → set_length n (header_of m msg ++ rest) ≡ header_of n msg ++ rest
unfolding set_length header_of write_be16
measured n m msg rest = refl

header_lem : (msg : StunMessage) → header msg ≡ header_of 0 msg
unfolding header header_of
header_lem msg = refl

pub no_attributes : (head : List ℕ) → head ≡ buffer head []
unfolding tlvs
no_attributes head = sym (append-nil head)

module _ (msg : StunMessage) (sized : length msg.transaction_id ≡ 12) where
  pub length-header_of : (n : ℕ) → length (header_of n msg) ≡ 20
  unfolding header_of write_be16 write_be32
  length-header_of n = omega (arith, length-take 12 msg.transaction_id, sized)

  pub aligned : (n : ℕ) → length (header_of n msg) % 4 ≡ 0
  aligned n = omega (arith, length-header_of n)

  pub behind_header : (n : ℕ) (rest : List ℕ) → length (header_of n msg ++ rest) - 20 ≡ length rest
  behind_header n rest = omega (arith, length-append (header_of n msg) rest, length-header_of n)

module _ (hmac : HmacSha1) (msg : StunMessage) (password : List ℕ)
    (sized : length msg.transaction_id ≡ 12) where
  -- The header that is there when an attribute of the protection is computed.
  signed_with : ℕ
  signed_with = if length password == 0 then 0 else u16 (length (tlvs (attributes msg)) + 24)

  append_integrity_lem :
      append_integrity hmac password (header_of 0 msg ++ tlvs (attributes msg))
      ≡ header_of signed_with msg ++ tlvs (all_attributes hmac msg password)
  unfolding append_integrity signed_with all_attributes integrity signed_bytes
  append_integrity_lem = elim (Bool-cases (length password == 0)) [
    | inl none ↦
        rw none (
          ap (λ (l : List Attribute). header_of 0 msg ++ tlvs l)
            (sym (append-nil (attributes msg))))
    | inr some ↦
        rw
          (
            some,
            behind_header msg sized 0 (tlvs (attributes msg)),
            measured (u16 (length (tlvs (attributes msg)) + 24)) 0 msg (tlvs (attributes msg)),
          )
          (appended (header_of (u16 (length (tlvs (attributes msg)) + 24)) msg)
            (aligned msg sized _) attr_message_integrity _ (attributes msg))
  ]

  append_fingerprint_lem :
      (n : ℕ)
      → append_fingerprint (header_of n msg ++ tlvs (all_attributes hmac msg password))
        ≡ covered_bytes hmac msg password
          ++ tlv attr_fingerprint (write_be32 (checksum hmac msg password))
  unfolding append_fingerprint append_attr_u32 covered_bytes checksum
  append_fingerprint_lem n =
      rw (behind_header msg sized n (tlvs (all_attributes hmac msg password)), measured)
        (append_attr_lem attr_fingerprint _ _ whole_words)
    where
      whole_words : length (covered_bytes hmac msg password) % 4 ≡ 0
      whole_words =
          unfold covered_bytes in
          omega (
            arith,
            length-append
                (header_of (u16 (length (tlvs (all_attributes hmac msg password)) + 8)) msg)
                (tlvs (all_attributes hmac msg password)),
            tlvs_aligned (all_attributes hmac msg password),
            length-header_of msg sized (u16 (length (tlvs (all_attributes hmac msg password)) + 8)),
          )

  -- What Encode writes. For a transaction id of 12 bytes it is the header with the length of the
  -- attributes up to FINGERPRINT, the attributes of the fields that are set, MESSAGE-INTEGRITY if there
  -- is a password, and FINGERPRINT, each with its type, its length and its padding.
  pub encode_lem :
      encode hmac msg password
      ≡ covered_bytes hmac msg password
        ++ tlv attr_fingerprint (write_be32 (checksum hmac msg password))
  unfolding encode
  encode_lem =
      ap
        (λ (l : List ℕ).
          append_fingerprint (append_integrity hmac password (append_attributes msg l)))
        (header_lem msg ∙ no_attributes (header_of 0 msg))
      ∙ ap (λ (l : List ℕ). append_fingerprint (append_integrity hmac password l))
          (append_attributes_lem (header_of 0 msg) (aligned msg sized 0) msg)
      ∙ ap append_fingerprint append_integrity_lem
      ∙ append_fingerprint_lem signed_with

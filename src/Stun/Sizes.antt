-- ===== src/Stun/Sizes.antt =====
-- The attributes that src/voip/src/infrastructure/ice/stun_message.cpp sends, one by one, and their size
-- in all, which the length field of 16 bits holds.
use vianium_voip.Common.{
  ℕ, ◌+◌, ◌≤◌, ◌≡◌, ap, ◌∙◌, List, [], ◌++◌, Bool, true, false, not, ◌==◌, length, arith, All,
  All-append, length-append,
}
use vianium_voip.Bytes.{write_be32}
use vianium_voip.Stun.{
  HmacSha1, StunMessage, attr_username, attr_message_integrity, attr_xor_mapped_address,
  attr_priority, attr_use_candidate, attr_ice_controlled, attr_ice_controlling,
}
use vianium_voip.Stun.Encode.{write_be64, xor_mapped_value}
use vianium_voip.Stun.Fields.{length-word}
use vianium_voip.Stun.Wire.{tlv, length-tlv, length-padding}
use vianium_voip.Stun.Spec.{
  Attribute, tlvs, present, is_mapped, attributes, signed_bytes, integrity, all_attributes,
  IsSendable,
}
use vianium_voip.Stun.Reading.{length-long, length-xor_mapped, Fits}
use vianium_voip.Stun.Layout.{tlvs-append}

module _ (msg : StunMessage) where
  abbrev named : List Attribute
  named = present (not (length msg.username == 0)) attr_username msg.username

  abbrev ranked : List Attribute
  ranked = present msg.has_priority attr_priority (write_be32 msg.priority)

  abbrev controlling : List Attribute
  controlling =
      present msg.has_ice_controlling attr_ice_controlling
        (write_be64 msg.ice_controlling_tie_break)

  abbrev controlled : List Attribute
  controlled =
      present msg.has_ice_controlled attr_ice_controlled (write_be64 msg.ice_controlled_tie_break)

  abbrev nominated : List Attribute
  nominated = present msg.use_candidate attr_use_candidate []

  abbrev mapped : List Attribute
  mapped = present (is_mapped msg) attr_xor_mapped_address (xor_mapped_value msg)

module _ (P : Attribute → Type 0) where
  present-All :
      (b : Bool) (type : ℕ) (value : List ℕ) → P (type, value) → All P (present b type value)
  present-All true type value h = (h, tt)
  present-All false type value h = tt

  -- A predicate holds of all that is sent if it holds of each attribute that may be.
  pub attributes-All :
      (msg : StunMessage)
      → P (attr_username, msg.username)
      → P (attr_priority, write_be32 msg.priority)
      → P (attr_ice_controlling, write_be64 msg.ice_controlling_tie_break)
      → P (attr_ice_controlled, write_be64 msg.ice_controlled_tie_break)
      → P (attr_use_candidate, [])
      → P (attr_xor_mapped_address, xor_mapped_value msg)
      → All P (attributes msg)
  unfolding attributes
  attributes-All msg n r c d u m =
      All-append P (named msg)
        (ranked msg ++ (controlling msg ++ (controlled msg ++ (nominated msg ++ mapped msg))))
        (present-All _ attr_username msg.username n)
        (All-append P (ranked msg)
          (controlling msg ++ (controlled msg ++ (nominated msg ++ mapped msg)))
          (present-All _ attr_priority (write_be32 msg.priority) r)
          (All-append P (controlling msg) (controlled msg ++ (nominated msg ++ mapped msg))
            (present-All _ attr_ice_controlling (write_be64 msg.ice_controlling_tie_break) c)
            (All-append P (controlled msg) (nominated msg ++ mapped msg)
              (present-All _ attr_ice_controlled (write_be64 msg.ice_controlled_tie_break) d)
              (All-append P (nominated msg) (mapped msg) (present-All _ attr_use_candidate [] u)
                (present-All _ attr_xor_mapped_address (xor_mapped_value msg) m)))))

length-present :
    (b : Bool) (type : ℕ) (value : List ℕ) → length (tlvs (present b type value)) ≤ 7 + length value
unfolding tlvs
length-present true type value = omega (
  arith,
  (length-tlv type value).0,
  length-padding (length value),
  length-append {A = ℕ} (tlv type value) [],
)
length-present false type value = omega arith

length-tlvs-append :
    (xs ys : List Attribute) → length (tlvs (xs ++ ys)) ≡ length (tlvs xs) + length (tlvs ys)
length-tlvs-append xs ys = ap length (tlvs-append xs ys) ∙ length-append (tlvs xs) (tlvs ys)

module _ (msg : StunMessage) where
  pub attributes-Fits : length msg.username ≤ 65400 → All Fits (attributes msg)
  attributes-Fits h =
      attributes-All Fits msg (omega arith, omega (arith, h))
        (omega arith, omega (arith, length-word msg.priority))
        (omega arith, omega (arith, length-long msg.ice_controlling_tie_break))
        (omega arith, omega (arith, length-long msg.ice_controlled_tie_break))
        (omega arith, omega arith) (omega arith, omega (arith, length-xor_mapped msg))

  length-attributes : length msg.username ≤ 65400 → length (tlvs (attributes msg)) ≤ 65472
  unfolding attributes
  length-attributes h = omega (
    arith,
    h,
    length-present (not (length msg.username == 0)) attr_username msg.username,
    length-present msg.has_priority attr_priority (write_be32 msg.priority),
    length-word msg.priority,
    length-present msg.has_ice_controlling attr_ice_controlling
        (write_be64 msg.ice_controlling_tie_break),
    length-long msg.ice_controlling_tie_break,
    length-present msg.has_ice_controlled attr_ice_controlled
        (write_be64 msg.ice_controlled_tie_break),
    length-long msg.ice_controlled_tie_break,
    length-present msg.use_candidate attr_use_candidate [],
    length-present (is_mapped msg) attr_xor_mapped_address (xor_mapped_value msg),
    length-xor_mapped msg,
    length-tlvs-append (named msg)
        (ranked msg ++ (controlling msg ++ (controlled msg ++ (nominated msg ++ mapped msg)))),
    length-tlvs-append (ranked msg)
        (controlling msg ++ (controlled msg ++ (nominated msg ++ mapped msg))),
    length-tlvs-append (controlling msg) (controlled msg ++ (nominated msg ++ mapped msg)),
    length-tlvs-append (controlled msg) (nominated msg ++ mapped msg),
    length-tlvs-append (nominated msg) (mapped msg),
  )

module _ (hmac : HmacSha1) (msg : StunMessage) (password : List ℕ) (h : IsSendable msg) where
  pub all_attributes-Fits : All Fits (all_attributes hmac msg password)
  unfolding all_attributes integrity
  all_attributes-Fits =
      All-append Fits (attributes msg)
        (present (not (length password == 0)) attr_message_integrity (integrity hmac msg password))
        (attributes-Fits msg h.username_size)
        (present-All Fits (not (length password == 0)) attr_message_integrity
          (integrity hmac msg password)
          (omega arith, omega (arith, hmac.mac_size password (signed_bytes hmac msg password))))

  pub length-all : length (tlvs (all_attributes hmac msg password)) ≤ 65500
  unfolding all_attributes integrity
  length-all =
      let mac = integrity hmac msg password in
      omega (
        arith,
        length-attributes msg h.username_size,
        length-tlvs-append (attributes msg)
            (present (not (length password == 0)) attr_message_integrity mac),
        length-present (not (length password == 0)) attr_message_integrity mac,
        hmac.mac_size password (signed_bytes hmac msg password),
      )

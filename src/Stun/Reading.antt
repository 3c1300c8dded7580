-- ===== src/Stun/Reading.antt =====
-- The fields that StunMessageCodec::Decode of src/voip/src/infrastructure/ice/stun_message.cpp reads from
-- the attributes that Encode writes, attribute by attribute.
use vianium_voip.Common.{
  ℕ, ◌^◌, ◌<◌, ◌≡◌, refl, sym, ap, ◌∙◌, List, [], ◌∷◌, ◌++◌, Bool, true, false, not, ◌==◌,
  if◌then◌else◌, length, take, replicate, arith, All, append_assoc, append-nil,
}
use vianium_voip.Bytes.{write_be16, write_be32, read_be32}
use vianium_voip.Bytes.Laws.{read-write_be32}
use vianium_voip.Stun.{
  HmacSha1, StunMessage, new_message, attr_username, attr_message_integrity,
  attr_xor_mapped_address, attr_priority, attr_use_candidate, attr_fingerprint, attr_ice_controlled,
  attr_ice_controlling,
}
use vianium_voip.Stun.Encode.{write_be64, xor_mapped_value}
use vianium_voip.Stun.Decode.{read_attr}
use vianium_voip.Stun.Fields.{length-word, read-write_be64, read_mapped_lem}
use vianium_voip.Stun.Wire.{tlv}
use vianium_voip.Stun.Scan.{decode_attrs, decode_attrs-tlv}
use vianium_voip.Stun.Spec.{
  Attribute, tlvs, present, is_mapped, attributes, integrity, all_attributes, checksum, IsSendable,
  on_wire,
}

-- The type and the size of an attribute fit their fields of 16 bits.
abbrev pub Fits : Attribute → Type 0
Fits a = (a.0 < 2 ^ 16) × (length a.1 < 2 ^ 16)

unfoldable pub read_all : List Attribute → StunMessage → StunMessage
read_all [] out = out
read_all ((type, value) ∷ attrs) out = read_all attrs (read_attr type value out)

-- The loop of Decode reads the attributes one by one.
pub decode_attrs-tlvs :
    (attrs : List Attribute) (rest : List ℕ) (out : StunMessage)
    → All Fits attrs
    → decode_attrs (tlvs attrs ++ rest) out ≡ decode_attrs rest (read_all attrs out)
unfolding tlvs read_all
decode_attrs-tlvs [] rest out h = refl
decode_attrs-tlvs ((type, value) ∷ attrs) rest out h =
    ap (λ (l : List ℕ). decode_attrs l out) (append_assoc (tlv type value) (tlvs attrs) rest)
    ∙ decode_attrs-tlv type value (tlvs attrs ++ rest) h.0.0 h.0.1 out
    ∙ decode_attrs-tlvs attrs rest (read_attr type value out) h.1

-- A word that was written is read.
pub read_word : (v : ℕ) → v < 2 ^ 32 → read_be32 (write_be32 v) ≡ v
read_word v h = ap read_be32 (sym (append-nil (write_be32 v))) ∙ read-write_be32 v [] h

pub length-long : (v : ℕ) → length (write_be64 v) ≡ 8
unfolding write_be64
length-long v = refl

pub length-xor_mapped : (msg : StunMessage) → length (xor_mapped_value msg) ≡ 8
unfolding xor_mapped_value write_be16 write_be32
length-xor_mapped msg = refl

module _ (out : StunMessage) where
  username_read :
      (username : List ℕ)
      → out.username ≡ []
      → read_all (present (not (length username == 0)) attr_username username) out
        ≡ record out { username = username }
  unfolding read_all read_attr
  username_read [] h = ground (arith, h)
  username_read (c ∷ cs) h = ground arith

  priority_read :
      (b : Bool) (v : ℕ)
      → v < 2 ^ 32
      → out.has_priority ≡ false
      → out.priority ≡ 0
      → read_all (present b attr_priority (write_be32 v)) out
        ≡ record out { has_priority = b; priority = if b then v else 0 }
  unfolding read_all read_attr
  priority_read true v h p q = rw (length-word v, read_word v h) refl
  priority_read false v h p q = ground (arith, p, q)

  controlling_read :
      (b : Bool) (v : ℕ)
      → v < 2 ^ 64
      → out.has_ice_controlling ≡ false
      → out.ice_controlling_tie_break ≡ 0
      → read_all (present b attr_ice_controlling (write_be64 v)) out
        ≡ record out { has_ice_controlling = b; ice_controlling_tie_break = if b then v else 0 }
  unfolding read_all read_attr
  controlling_read true v h p q = rw (length-long v, read-write_be64 v h) refl
  controlling_read false v h p q = ground (arith, p, q)

  controlled_read :
      (b : Bool) (v : ℕ)
      → v < 2 ^ 64
      → out.has_ice_controlled ≡ false
      → out.ice_controlled_tie_break ≡ 0
      → read_all (present b attr_ice_controlled (write_be64 v)) out
        ≡ record out { has_ice_controlled = b; ice_controlled_tie_break = if b then v else 0 }
  unfolding read_all read_attr
  controlled_read true v h p q = rw (length-long v, read-write_be64 v h) refl
  controlled_read false v h p q = ground (arith, p, q)

  candidate_read :
      (b : Bool)
      → out.use_candidate ≡ false
      → read_all (present b attr_use_candidate []) out ≡ record out { use_candidate = b }
  unfolding read_all read_attr
  candidate_read true p = refl
  candidate_read false p = ground (arith, p)

  mapped_read :
      (b : Bool) (msg : StunMessage)
      → IsSendable msg
      → out.has_mapped_address ≡ false
      → out.mapped_family ≡ 0
      → out.mapped_address ≡ replicate 16 0
      → out.mapped_port ≡ 0
      → read_all (present b attr_xor_mapped_address (xor_mapped_value msg)) out ≡ record out {
        has_mapped_address = b;
        mapped_family = if b then 1 else 0;
        mapped_address = if b then take 4 msg.mapped_address ++ replicate 12 0 else replicate 16 0;
        mapped_port = if b then msg.mapped_port else 0;
      }
  unfolding read_all read_attr
  mapped_read true msg h a b c d =
      rw length-xor_mapped (read_mapped_lem msg out h.address_size h.address_bytes h.port_fits c)
  mapped_read false msg h a b c d = ground (arith, a, b, c, d)

  integrity_read :
      (password mac : List ℕ)
      → length mac ≡ 20
      → out.message_integrity ≡ []
      → read_all (present (not (length password == 0)) attr_message_integrity mac) out
        ≡ record out { message_integrity = if length password == 0 then [] else mac }
  unfolding read_all read_attr
  integrity_read [] mac h p = ground (arith, p)
  integrity_read (c ∷ cs) mac h p = ground (arith, h)

  fingerprint_read :
      (v : ℕ)
      → v < 2 ^ 32
      → read_attr attr_fingerprint (write_be32 v) out
        ≡ record out { has_fingerprint = true; fingerprint = v }
  unfolding read_attr
  fingerprint_read v h = rw (length-word v, read_word v h) refl

pub step :
    (xs ys : List Attribute) (out out' : StunMessage)
    → read_all xs out ≡ out'
    → read_all (xs ++ ys) out ≡ read_all ys out'
unfolding read_all
step [] ys out out' h = ap (read_all ys) h
step ((t, v) ∷ xs) ys out out' h = step xs ys (read_attr t v out) out' h

-- What Decode starts from.
abbrev pub fresh : StunMessage → StunMessage
fresh msg = record new_message {
  message_type = msg.message_type;
  transaction_id = msg.transaction_id;
}

-- Reading the attributes one by one fills in the fields that were sent.
pub read_all_lem :
    (hmac : HmacSha1) (msg : StunMessage) (password : List ℕ)
    → IsSendable msg
    → checksum hmac msg password < 2 ^ 32
    → read_attr attr_fingerprint
        (write_be32 (checksum hmac msg password))
        (read_all (all_attributes hmac msg password) (fresh msg))
      ≡ on_wire hmac msg password
unfolding on_wire all_attributes attributes integrity
read_all_lem hmac msg password h small =
    ap (read_attr attr_fingerprint (write_be32 (checksum hmac msg password))) (
      step (attributes msg) (present (not (length password == 0)) attr_message_integrity mac)
        (fresh msg) m6 fields
      ∙ integrity_read m6 password mac (hmac.mac_size _ _) refl)
    ∙ fingerprint_read (record m6 { message_integrity = if length password == 0 then [] else mac })
        (checksum hmac msg password) small
  where
    mac : List ℕ
    mac = integrity hmac msg password

    m1 : StunMessage
    m1 = record (fresh msg) { username = msg.username }

    m2 : StunMessage
    m2 = record m1 {
      has_priority = msg.has_priority;
      priority = if msg.has_priority then msg.priority else 0;
    }

    m3 : StunMessage
    m3 = record m2 {
      has_ice_controlling = msg.has_ice_controlling;
      ice_controlling_tie_break =
          if msg.has_ice_controlling then msg.ice_controlling_tie_break else 0;
    }

    m4 : StunMessage
    m4 = record m3 {
      has_ice_controlled = msg.has_ice_controlled;
      ice_controlled_tie_break = if msg.has_ice_controlled then msg.ice_controlled_tie_break else 0;
    }

    m5 : StunMessage
    m5 = record m4 { use_candidate = msg.use_candidate }

    m6 : StunMessage
    m6 = record m5 {
      has_mapped_address = is_mapped msg;
      mapped_family = if is_mapped msg then 1 else 0;
      mapped_address =
          if is_mapped msg then take 4 msg.mapped_address ++ replicate 12 0 else replicate 16 0;
      mapped_port = if is_mapped msg then msg.mapped_port else 0;
    }

    fields : read_all (attributes msg) (fresh msg) ≡ m6
    fields =
        step _ _ (fresh msg) m1 (username_read (fresh msg) msg.username refl)
        ∙ step _ _ m1 m2 (priority_read m1 msg.has_priority msg.priority h.priority_fits refl refl)
        ∙ step _ _ m2 m3 (
            controlling_read m2 msg.has_ice_controlling msg.ice_controlling_tie_break
              h.controlling_fits refl refl)
        ∙ step _ _ m3 m4 (
            controlled_read m3 msg.has_ice_controlled msg.ice_controlled_tie_break h.controlled_fits
              refl refl)
        ∙ step _ _ m4 m5 (candidate_read m4 msg.use_candidate refl)
        ∙ mapped_read m5 (is_mapped msg) msg h refl refl refl refl

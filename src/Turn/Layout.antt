-- ===== src/Turn/Layout.antt =====
-- What the four encoders of src/voip/src/infrastructure/turn/turn_message.cpp write, as a header and a
-- list of attributes.
use vianium_voip.Common.{
  ℕ, ◌+◌, ◌≡◌, sym, ap, ◌∙◌, List, [], ◌∷◌, ◌++◌, not, ◌==◌, length, append_assoc, append-nil,
  Bool-cases, inl, inr,
}
use vianium_voip.Bytes.{u16, write_be32}
use vianium_voip.Stun.{HmacSha1, StunMessage}
use vianium_voip.Stun
use vianium_voip.Stun.Encode.{append_attr, append_attr_u32}
use vianium_voip.Stun.Spec.{Attribute, tlvs, present, header_of}
use vianium_voip.Stun.Layout.{buffer, appended, measured, aligned, behind_header, no_attributes}
use vianium_voip.Turn.{
  TurnAddress, method_allocate, method_refresh, method_send, method_create_permission,
  class_request, class_indication, turn_message_type, attr_username, attr_message_integrity,
  attr_lifetime, attr_xor_peer_address, attr_data, attr_realm, attr_nonce, attr_requested_transport,
  attr_dont_fragment,
}
use vianium_voip.Turn.Encode.{
  is_encodable, xor_address_value, encode_xor_address, append_text, append_common_auth_attrs,
  write_header, finalize_length, encode_peers, encode_send_indication, append_message_integrity,
  append_protection, encode_allocate, encode_create_permission, encode_refresh,
}

-- The header fields as those of a STUN message.
abbrev pub head_fields : ℕ → List ℕ → StunMessage
head_fields type txn = record Stun.new_message { message_type = type; transaction_id = txn }

-- A message: the header with the length of the attributes, and the attributes.
unfoldable pub message : ℕ → List ℕ → List Attribute → List ℕ
message type txn attrs = header_of (u16 (length (tlvs attrs))) (head_fields type txn) ++ tlvs attrs

abbrev pub peer_attrs : List ℕ → TurnAddress → List Attribute
peer_attrs txn peer = present (is_encodable peer) attr_xor_peer_address (xor_address_value peer txn)

unfoldable pub peers_attrs : List ℕ → List TurnAddress → List Attribute
peers_attrs txn [] = []
peers_attrs txn (p ∷ peers) = peer_attrs txn p ++ peers_attrs txn peers

abbrev pub text_attrs : ℕ → List ℕ → List Attribute
text_attrs type text = present (not (length text == 0)) type text

abbrev pub auth_attrs : List ℕ → List ℕ → List ℕ → List Attribute
auth_attrs username realm nonce =
    text_attrs attr_username username
    ++ (text_attrs attr_realm realm ++ text_attrs attr_nonce nonce)

abbrev pub refresh_attrs : ℕ → List ℕ → List ℕ → List ℕ → List Attribute
refresh_attrs lifetime username realm nonce =
    (attr_lifetime, write_be32 lifetime) ∷ auth_attrs username realm nonce

-- 17 is UDP.
abbrev pub allocate_attrs : ℕ → List ℕ → List ℕ → List ℕ → List Attribute
allocate_attrs lifetime username realm nonce =
    (attr_requested_transport, 17 ∷ 0 ∷ 0 ∷ 0 ∷ [])
    ∷ (attr_dont_fragment, [])
    ∷ refresh_attrs lifetime username realm nonce

module _ (hmac : HmacSha1) (key : List ℕ) (type : ℕ) (txn : List ℕ) where
  -- What MESSAGE-INTEGRITY is computed over, behind the attributes.
  unfoldable pub integrity : List Attribute → List ℕ
  integrity attrs =
      hmac.mac key (header_of (u16 (length (tlvs attrs) + 24)) (head_fields type txn) ++ tlvs attrs)

  abbrev pub protected : List Attribute → List Attribute
  protected attrs =
      attrs ++ present (not (length key == 0)) attr_message_integrity (integrity attrs)

module _ (type : ℕ) (txn : List ℕ) (sized : length txn ≡ 12) where
  abbrev start : List Attribute → List ℕ
  start attrs = buffer (header_of 0 (head_fields type txn)) attrs

  header_start : write_header type txn ≡ start []
  unfolding write_header header_of
  header_start = no_attributes (header_of 0 (head_fields type txn))

  appends :
      (t : ℕ) (value : List ℕ) (attrs : List Attribute)
      → append_attr t value (start attrs) ≡ start (attrs ++ (t, value) ∷ [])
  appends = appended (header_of 0 (head_fields type txn)) (aligned (head_fields type txn) sized 0)

  appends_text :
      (t : ℕ) (text : List ℕ) (attrs : List Attribute)
      → append_text t text (start attrs) ≡ start (attrs ++ text_attrs t text)
  unfolding append_text
  appends_text t text attrs = elim (Bool-cases (length text == 0)) [
    | inl e ↦ rw e (ap start (sym (append-nil attrs)))
    | inr e ↦ rw e (appends t text attrs)
  ]

  appends_auth :
      (username realm nonce : List ℕ) (attrs : List Attribute)
      → append_common_auth_attrs username realm nonce (start attrs)
        ≡ start (attrs ++ auth_attrs username realm nonce)
  unfolding append_common_auth_attrs
  appends_auth username realm nonce attrs =
      rw
        (
          appends_text attr_username username attrs,
          appends_text attr_realm realm,
          appends_text attr_nonce nonce,
        )
        (ap start (simp append_assoc))

  appends_peer :
      (p : TurnAddress) (attrs : List Attribute)
      → encode_xor_address attr_xor_peer_address p txn (start attrs)
        ≡ start (attrs ++ peer_attrs txn p)
  unfolding encode_xor_address
  appends_peer p attrs = elim (Bool-cases (is_encodable p)) [
    | inl e ↦ rw e (appends attr_xor_peer_address (xor_address_value p txn) attrs)
    | inr e ↦ rw e (ap start (sym (append-nil attrs)))
  ]

  appends_peers :
      (peers : List TurnAddress) (attrs : List Attribute)
      → encode_peers peers txn (start attrs) ≡ start (attrs ++ peers_attrs txn peers)
  unfolding encode_peers peers_attrs
  appends_peers [] attrs = ap start (sym (append-nil attrs))
  appends_peers (p ∷ peers) attrs =
      ap (encode_peers peers txn) (appends_peer p attrs)
      ∙ appends_peers peers (attrs ++ peer_attrs txn p)
      ∙ ap start (append_assoc attrs (peer_attrs txn p) (peers_attrs txn peers))

  finalized :
      (n : ℕ) (attrs : List Attribute)
      → finalize_length (header_of n (head_fields type txn) ++ tlvs attrs) ≡ message type txn attrs
  unfolding finalize_length message
  finalized n attrs =
      rw (behind_header (head_fields type txn) sized n (tlvs attrs))
        (measured (u16 (length (tlvs attrs))) n (head_fields type txn) (tlvs attrs))

  pub encode_send_indication_lem :
      (peer : TurnAddress) (payload : List ℕ)
      → type ≡ turn_message_type method_send class_indication
      → encode_send_indication txn peer payload
        ≡ message type txn (peer_attrs txn peer ++ (attr_data, payload) ∷ [])
  unfolding encode_send_indication
  encode_send_indication_lem peer payload e =
      rw (sym e, header_start, appends_peer peer [], appends attr_data payload)
        (finalized 0 (peer_attrs txn peer ++ (attr_data, payload) ∷ []))

  module _ (hmac : HmacSha1) (key : List ℕ) where
    protects :
        (attrs : List Attribute)
        → append_protection hmac key (start attrs)
          ≡ message type txn (protected hmac key type txn attrs)
    unfolding append_protection append_message_integrity integrity
    protects attrs = elim (Bool-cases (length key == 0)) [
      | inl e ↦ rw (e, append-nil attrs) (finalized 0 attrs)
      | inr e ↦
          rw
            (
              e,
              behind_header (head_fields type txn) sized 0 (tlvs attrs),
              measured (u16 (length (tlvs attrs) + 24)) 0 (head_fields type txn) (tlvs attrs),
              appended (header_of (u16 (length (tlvs attrs) + 24)) (head_fields type txn))
                  (aligned (head_fields type txn) sized _) attr_message_integrity,
            )
            (finalized (u16 (length (tlvs attrs) + 24)) _)
    ]

    pub encode_allocate_lem :
        (lifetime : ℕ) (username realm nonce : List ℕ)
        → type ≡ turn_message_type method_allocate class_request
        → encode_allocate hmac txn lifetime username realm nonce key
          ≡ message type txn
              (protected hmac key type txn (allocate_attrs lifetime username realm nonce))
    unfolding encode_allocate append_attr_u32
    encode_allocate_lem lifetime username realm nonce e =
        rw
          (
            sym e,
            header_start,
            appends attr_requested_transport (17 ∷ 0 ∷ 0 ∷ 0 ∷ []) [],
            appends attr_dont_fragment [],
            appends attr_lifetime (write_be32 lifetime),
            appends_auth username realm nonce,
          )
          (protects (allocate_attrs lifetime username realm nonce))

    pub encode_refresh_lem :
        (lifetime : ℕ) (username realm nonce : List ℕ)
        → type ≡ turn_message_type method_refresh class_request
        → encode_refresh hmac txn lifetime username realm nonce key
          ≡ message type txn
              (protected hmac key type txn (refresh_attrs lifetime username realm nonce))
    unfolding encode_refresh append_attr_u32
    encode_refresh_lem lifetime username realm nonce e =
        rw
          (
            sym e,
            header_start,
            appends attr_lifetime (write_be32 lifetime) [],
            appends_auth username realm nonce,
          )
          (protects (refresh_attrs lifetime username realm nonce))

    pub encode_create_permission_lem :
        (peers : List TurnAddress) (username realm nonce : List ℕ)
        → type ≡ turn_message_type method_create_permission class_request
        → encode_create_permission hmac txn peers username realm nonce key
          ≡ message type txn (
              protected hmac key type txn
                (peers_attrs txn peers ++ auth_attrs username realm nonce))
    unfolding encode_create_permission
    encode_create_permission_lem peers username realm nonce e =
        rw (sym e, header_start, appends_peers peers [], appends_auth username realm nonce)
          (protects (peers_attrs txn peers ++ auth_attrs username realm nonce))

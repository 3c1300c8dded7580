-- ===== src/Turn/Requests.antt =====
-- DecodeMessage of src/voip/src/infrastructure/turn/turn_message.cpp reads the four messages that the
-- client sends.
use vianium_voip.Turn.{attr_requested_transport}
use vianium_voip.Turn.Layout.{encode_refresh_lem}
use vianium_voip.Turn.Layout.{refresh_attrs}
use vianium_voip.Turn.Layout.{encode_create_permission_lem}
use vianium_voip.Turn.Layout.{allocate_attrs}
use vianium_voip.Turn.Fields.{not_empty}
use vianium_voip.Turn.{class_request}
use vianium_voip.Turn.Encode.{encode_refresh}
use vianium_voip.Turn.Encode.{encode_allocate}
use vianium_voip.Turn.Encode.{encode_create_permission}
use vianium_voip.Turn.{method_refresh}
use vianium_voip.Turn.{method_allocate}
use vianium_voip.Turn.{method_create_permission}
use vianium_voip.Turn.Layout.{protected}
use vianium_voip.Turn.Encode.{xor_address_value}
use vianium_voip.Turn.Encode.{is_encodable}
use vianium_voip.Common.{All-append}
use vianium_voip.Turn.RoundTrip.{decode-sent}
use vianium_voip.Common.{
  ℕ, ◌+◌, ◌^◌, ◌<◌, ◌≡◌, refl, ap, ◌∙◌, List, [], ◌∷◌, ◌++◌, true, if◌then◌else◌, length, some,
  arith, All, append_assoc,
}
use vianium_voip.Bytes.{write_be32}
use vianium_voip.Stun.{HmacSha1}
use vianium_voip.Stun.Spec.{Attribute}
use vianium_voip.Turn.{
  TurnAddress, TurnMessage, attr_message_integrity, attr_lifetime, attr_xor_peer_address, attr_data,
  turn_message_type, method_send, class_indication,
}
use vianium_voip.Turn.Encode.{encode_send_indication}
use vianium_voip.Turn.Decode.{read_attr, decode_message}
use vianium_voip.Turn.Scan.{read_all, read_all-append, TypeFits}
use vianium_voip.Turn.Layout.{
  peer_attrs, peers_attrs, auth_attrs, message, encode_send_indication_lem,
}
use vianium_voip.Turn.Addresses.{IsAddress, is_ipv4, read_peer_lem}
use vianium_voip.Turn.RoundTrip.{fresh}
use vianium_voip.Stun.Reading.{read_word}
use vianium_voip.Stun.Fields.{length-word}
use vianium_voip.Turn.Layout.{
  integrity, protected, encode_refresh_lem, allocate_attrs, refresh_attrs, encode_allocate_lem,
}
use vianium_voip.Turn.{attr_requested_transport, attr_dont_fragment}
use vianium_voip.Turn.Fields.{
  ipv4_only, peers_read, auth_read, IsBare, authenticated, present-Fits, peers-Fits, auth-Fits,
}

abbrev pub send_type : ℕ
send_type = turn_message_type method_send class_indication

abbrev pub permission_type : ℕ
permission_type = turn_message_type method_create_permission class_request

abbrev pub allocate_type : ℕ
allocate_type = turn_message_type method_allocate class_request

abbrev pub refresh_type : ℕ
refresh_type = turn_message_type method_refresh class_request

permission_type_small : permission_type < 1024
unfolding turn_message_type
permission_type_small = omega arith

allocate_type_small : allocate_type < 1024
unfolding turn_message_type
allocate_type_small = omega arith

refresh_type_small : refresh_type < 1024
unfolding turn_message_type
refresh_type_small = omega arith

send_type_small : send_type < 1024
unfolding turn_message_type
send_type_small = omega arith

-- DecodeMessage reads a Send indication. For a transaction id of 12 bytes, a peer whose port and bytes fit
-- their types, and a payload such that the attributes fit the length field: the payload comes back, and
-- the peer if it is an IPv4 address of four bytes; a peer of IPv6 is lost.
pub decode-encode_send_indication :
    (txn : List ℕ) (peer : TurnAddress) (payload : List ℕ)
    → length txn ≡ 12
    → IsAddress peer
    → length (encode_send_indication txn peer payload) < 20 + 2 ^ 16
    → decode_message (encode_send_indication txn peer payload)
      ≡ some (record (fresh send_type txn (encode_send_indication txn peer payload)) {
        xor_peers = if is_ipv4 peer then peer ∷ [] else [];
        has_data = true;
        payload = payload;
      })
decode-encode_send_indication txn peer payload sized h fits =
    decode-sent send_type txn send_type_small sized attrs bytes
      (encode_send_indication_lem send_type txn sized peer payload refl)
      (All-append TypeFits (peer_attrs txn peer) ((attr_data, payload) ∷ [])
        (present-Fits (is_encodable peer) attr_xor_peer_address (xor_address_value peer txn)
          (omega arith))
        (omega arith, tt))
      fits
    ∙ ap (λ (m : TurnMessage). some m)
        (read_all-append (peer_attrs txn peer) ((attr_data, payload) ∷ [])
            (fresh send_type txn bytes)
          ∙ ap (read_all ((attr_data, payload) ∷ []))
              (read_peer_lem peer h (fresh send_type txn bytes))
          ∙ data_read _)
  where
    bytes : List ℕ
    bytes = encode_send_indication txn peer payload

    attrs : List Attribute
    attrs = peer_attrs txn peer ++ (attr_data, payload) ∷ []

    data_read :
        (out : TurnMessage)
        → read_all ((attr_data, payload) ∷ []) out
          ≡ record out { has_data = true; payload = payload }
    data_read out = unfold read_all in unfold read_attr in refl

module _ (hmac : HmacSha1) (txn : List ℕ) (sized : length txn ≡ 12)
    (username realm nonce key : List ℕ) where
  module _ (type : ℕ) (type_small : type < 1024) (front : List Attribute)
      (types : All TypeFits front) where
    abbrev carried : List Attribute
    carried = front ++ auth_attrs username realm nonce

    -- What all requests have in common: some attributes, the credentials and the code.
    request_read :
        (bytes : List ℕ) (out : TurnMessage)
        → bytes ≡ message type txn (protected hmac key type txn carried)
        → length bytes < 20 + 2 ^ 16
        → read_all front (fresh type txn bytes) ≡ out
        → IsBare out
        → decode_message bytes
          ≡ some (authenticated username realm nonce key (integrity hmac key type txn carried) out)
    request_read bytes out e fits r bare =
        decode-sent type txn type_small sized (protected hmac key type txn carried) bytes e
          (All-append TypeFits carried _
            (All-append TypeFits front _ types (auth-Fits username realm nonce))
            (present-Fits (not_empty key) attr_message_integrity _ (omega arith)))
          fits
        ∙ ap (λ (m : TurnMessage). some m)
            (ap (λ (l : List Attribute). read_all l (fresh type txn bytes))
                (append_assoc front (auth_attrs username realm nonce) _)
              ∙ read_all-append front _ (fresh type txn bytes)
              ∙ ap (read_all _) r
              ∙ auth_read username realm nonce key _ out mac_size bare)
      where
        mac_size : length (integrity hmac key type txn carried) ≡ 20
        mac_size = unfold integrity in hmac.mac_size key _

  -- DecodeMessage reads a CreatePermission request. For a transaction id of 12 bytes, peers whose ports
  -- and bytes fit their types, and any credentials and key such that the attributes fit the length field:
  -- the credentials come back, the peers that are IPv4 addresses, in order, and no other, and, if there
  -- is a key, the code of the header and the attributes in front of it.
  pub decode-encode_create_permission :
      (peers : List TurnAddress)
      → All IsAddress peers
      → length (encode_create_permission hmac txn peers username realm nonce key) < 20 + 2 ^ 16
      → decode_message (encode_create_permission hmac txn peers username realm nonce key)
        ≡ some (
            authenticated username realm nonce key
              (integrity hmac key permission_type txn
                (peers_attrs txn peers ++ auth_attrs username realm nonce))
              (record (fresh permission_type txn
                (encode_create_permission hmac txn peers username realm nonce key)) {
                  xor_peers = ipv4_only peers;
                }))
  decode-encode_create_permission peers h fits =
      request_read permission_type permission_type_small (peers_attrs txn peers)
        (peers-Fits txn peers) bytes _
        (encode_create_permission_lem permission_type txn sized hmac key peers username realm nonce
          refl)
        fits (peers_read peers (fresh permission_type txn bytes) h)
        (refl, refl, refl, refl, refl, refl, refl, refl)
    where
      bytes : List ℕ
      bytes = encode_create_permission hmac txn peers username realm nonce key

  -- DecodeMessage reads an Allocate request. For a transaction id of 12 bytes, a lifetime of 32 bits, and
  -- any credentials and key such that the attributes fit the length field: the lifetime and the
  -- credentials come back, with UDP as the transport, and, if there is a key, the code of the header and
  -- the attributes in front of it.
  pub decode-encode_allocate :
      (lifetime : ℕ)
      → lifetime < 2 ^ 32
      → length (encode_allocate hmac txn lifetime username realm nonce key) < 20 + 2 ^ 16
      → decode_message (encode_allocate hmac txn lifetime username realm nonce key)
        ≡ some (
            authenticated username realm nonce key
              (integrity hmac key allocate_type txn (allocate_attrs lifetime username realm nonce))
              (record (fresh allocate_type txn
                (encode_allocate hmac txn lifetime username realm nonce key)) {
                  has_lifetime = true;
                  lifetime = lifetime;
                  has_requested_transport = true;
                  protocol = 17;
                }))
  decode-encode_allocate lifetime h fits =
      request_read allocate_type allocate_type_small
        ((attr_requested_transport, 17 ∷ 0 ∷ 0 ∷ 0 ∷ [])
          ∷ (attr_dont_fragment, [])
          ∷ (attr_lifetime, write_be32 lifetime)
          ∷ [])
        (omega arith, (omega arith, (omega arith, tt))) bytes _
        (encode_allocate_lem allocate_type txn sized hmac key lifetime username realm nonce refl)
        fits (timed (fresh allocate_type txn bytes))
        (refl, refl, refl, refl, refl, refl, refl, refl)
    where
      bytes : List ℕ
      bytes = encode_allocate hmac txn lifetime username realm nonce key

      timed :
          (out : TurnMessage)
          → read_all
              ((attr_requested_transport, 17 ∷ 0 ∷ 0 ∷ 0 ∷ [])
                ∷ (attr_dont_fragment, [])
                ∷ (attr_lifetime, write_be32 lifetime)
                ∷ [])
              out
            ≡ record out {
              has_lifetime = true;
              lifetime = lifetime;
              has_requested_transport = true;
              protocol = 17;
            }
      timed out =
          unfold read_all in
          unfold read_attr in rw (length-word lifetime, read_word lifetime h) refl

  -- DecodeMessage reads a Refresh request, under the conditions of Allocate.
  pub decode-encode_refresh :
      (lifetime : ℕ)
      → lifetime < 2 ^ 32
      → length (encode_refresh hmac txn lifetime username realm nonce key) < 20 + 2 ^ 16
      → decode_message (encode_refresh hmac txn lifetime username realm nonce key)
        ≡ some (
            authenticated username realm nonce key
              (integrity hmac key refresh_type txn (refresh_attrs lifetime username realm nonce))
              (record (fresh refresh_type txn
                (encode_refresh hmac txn lifetime username realm nonce key)) {
                  has_lifetime = true;
                  lifetime = lifetime;
                }))
  decode-encode_refresh lifetime h fits =
      request_read refresh_type refresh_type_small ((attr_lifetime, write_be32 lifetime) ∷ [])
        (omega arith, tt) bytes _
        (encode_refresh_lem refresh_type txn sized hmac key lifetime username realm nonce refl) fits
        (timed (fresh refresh_type txn bytes)) (refl, refl, refl, refl, refl, refl, refl, refl)
    where
      bytes : List ℕ
      bytes = encode_refresh hmac txn lifetime username realm nonce key

      timed :
          (out : TurnMessage)
          → read_all ((attr_lifetime, write_be32 lifetime) ∷ []) out
            ≡ record out { has_lifetime = true; lifetime = lifetime }
      timed out =
          unfold read_all in
          unfold read_attr in rw (length-word lifetime, read_word lifetime h) refl

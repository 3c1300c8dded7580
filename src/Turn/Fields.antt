-- ===== src/Turn/Fields.antt =====
-- The fields that DecodeMessage of src/voip/src/infrastructure/turn/turn_message.cpp reads from peers
-- and credentials.
use vianium_voip.Turn.Encode.{xor_address_value}
use vianium_voip.Turn.Encode.{is_encodable}
use vianium_voip.Common.{All-append}
use vianium_voip.Common.{
  ℕ, ◌^◌, ◌<◌, ◌≡◌, sym, ap, ◌∙◌, List, [], ◌∷◌, ◌++◌, Bool, true, false, not, ◌==◌, if◌then◌else◌,
  length, arith, All, append_assoc, append-nil,
}
use vianium_voip.Stun.Spec.{Attribute, present}
use vianium_voip.Turn.{
  TurnAddress, TurnMessage, attr_username, attr_message_integrity, attr_xor_peer_address,
  attr_realm, attr_nonce,
}
use vianium_voip.Turn.Decode.{read_attr}
use vianium_voip.Turn.Scan.{read_all, read_all-append, TypeFits}
use vianium_voip.Turn.Layout.{peer_attrs, peers_attrs, auth_attrs, text_attrs}
use vianium_voip.Turn.Addresses.{IsAddress, is_ipv4, read_peer_lem}

abbrev pub not_empty : List ℕ → Bool
not_empty l = not (length l == 0)

-- The peers that arrive.
unfoldable pub ipv4_only : List TurnAddress → List TurnAddress
ipv4_only [] = []
ipv4_only (p ∷ peers) = if is_ipv4 p then p ∷ ipv4_only peers else ipv4_only peers

pub peers_read :
    (peers : List TurnAddress) (out : TurnMessage)
    → All IsAddress peers
    → read_all (peers_attrs out.transaction_id peers) out
      ≡ record out { xor_peers = out.xor_peers ++ ipv4_only peers }
unfolding peers_attrs ipv4_only read_all
peers_read [] out h = λ i. record out { xor_peers = sym (append-nil out.xor_peers) i }
peers_read (p ∷ peers) out h =
    read_all-append (peer_attrs out.transaction_id p) (peers_attrs out.transaction_id peers) out
    ∙ ap (read_all (peers_attrs out.transaction_id peers)) (read_peer_lem p h.0 out)
    ∙ peers_read peers
        (record out { xor_peers = out.xor_peers ++ (if is_ipv4 p then p ∷ [] else []) }) h.1
    ∙ λ i. record out { xor_peers = joined (is_ipv4 p) i }
  where
    joined :
        (b : Bool)
        → (out.xor_peers ++ (if b then p ∷ [] else [])) ++ ipv4_only peers
          ≡ out.xor_peers ++ (if b then p ∷ ipv4_only peers else ipv4_only peers)
    joined true = append_assoc out.xor_peers (p ∷ []) (ipv4_only peers)
    joined false = append_assoc out.xor_peers [] (ipv4_only peers)

module _ (out : TurnMessage) where
  username_read :
      (l : List ℕ)
      → out.has_username ≡ false
      → out.username ≡ []
      → read_all (text_attrs attr_username l) out
        ≡ record out { has_username = not_empty l; username = l }
  unfolding read_all read_attr
  username_read [] p q = ground (arith, p, q)
  username_read (c ∷ cs) p q = ground arith

  realm_read :
      (l : List ℕ)
      → out.has_realm ≡ false
      → out.realm ≡ []
      → read_all (text_attrs attr_realm l) out ≡ record out { has_realm = not_empty l; realm = l }
  unfolding read_all read_attr
  realm_read [] p q = ground (arith, p, q)
  realm_read (c ∷ cs) p q = ground arith

  nonce_read :
      (l : List ℕ)
      → out.has_nonce ≡ false
      → out.nonce ≡ []
      → read_all (text_attrs attr_nonce l) out ≡ record out { has_nonce = not_empty l; nonce = l }
  unfolding read_all read_attr
  nonce_read [] p q = ground (arith, p, q)
  nonce_read (c ∷ cs) p q = ground arith

  integrity_read :
      (key mac : List ℕ)
      → length mac ≡ 20
      → out.has_message_integrity ≡ false
      → out.message_integrity ≡ []
      → read_all (present (not_empty key) attr_message_integrity mac) out ≡ record out {
        has_message_integrity = not_empty key;
        message_integrity = if not_empty key then mac else [];
      }
  unfolding read_all read_attr
  integrity_read [] mac h p q = ground (arith, p, q)
  integrity_read (c ∷ cs) mac h p q = ground (arith, h)

-- A message without credentials so far.
abbrev pub IsBare : TurnMessage → Type 0
IsBare out =
    (out.has_username ≡ false)
    × (out.username ≡ [])
    × (out.has_realm ≡ false)
    × (out.realm ≡ [])
    × (out.has_nonce ≡ false)
    × (out.nonce ≡ [])
    × (out.has_message_integrity ≡ false)
    × (out.message_integrity ≡ [])

-- With the credentials and the code.
abbrev pub authenticated : List ℕ → List ℕ → List ℕ → List ℕ → List ℕ → TurnMessage → TurnMessage
authenticated username realm nonce key mac out = record out {
  has_username = not_empty username;
  username = username;
  has_realm = not_empty realm;
  realm = realm;
  has_nonce = not_empty nonce;
  nonce = nonce;
  has_message_integrity = not_empty key;
  message_integrity = if not_empty key then mac else [];
}

pub auth_read :
    (username realm nonce key mac : List ℕ) (out : TurnMessage)
    → length mac ≡ 20
    → IsBare out
    → read_all
        (auth_attrs username realm nonce ++ present (not_empty key) attr_message_integrity mac)
        out
      ≡ authenticated username realm nonce key mac out
auth_read username realm nonce key mac out h (a, b, c, d, e, f, g, k) =
    read_all-append (auth_attrs username realm nonce) code out
    ∙ ap (read_all code) (read_all-append (text_attrs attr_username username) _ out)
    ∙ ap
        (λ (m : TurnMessage).
          read_all code (read_all (text_attrs attr_realm realm ++ text_attrs attr_nonce nonce) m))
        (username_read out username a b)
    ∙ ap (read_all code) (read_all-append (text_attrs attr_realm realm) _ m1)
    ∙ ap (λ (m : TurnMessage). read_all code (read_all (text_attrs attr_nonce nonce) m))
        (realm_read m1 realm c d)
    ∙ ap (read_all code) (nonce_read m2 nonce e f)
    ∙ integrity_read m3 key mac h g k
  where
    code : List Attribute
    code = present (not_empty key) attr_message_integrity mac

    m1 : TurnMessage
    m1 = record out { has_username = not_empty username; username = username }

    m2 : TurnMessage
    m2 = record m1 { has_realm = not_empty realm; realm = realm }

    m3 : TurnMessage
    m3 = record m2 { has_nonce = not_empty nonce; nonce = nonce }

pub present-Fits :
    (b : Bool) (t : ℕ) (value : List ℕ) → t < 2 ^ 16 → All TypeFits (present b t value)
present-Fits true t value h = (h, tt)
present-Fits false t value h = tt

pub peers-Fits : (txn : List ℕ) (peers : List TurnAddress) → All TypeFits (peers_attrs txn peers)
unfolding peers_attrs
peers-Fits txn [] = tt
peers-Fits txn (p ∷ peers) =
    All-append TypeFits (peer_attrs txn p) (peers_attrs txn peers)
      (present-Fits (is_encodable p) attr_xor_peer_address (xor_address_value p txn) (omega arith))
      (peers-Fits txn peers)

pub auth-Fits : (username realm nonce : List ℕ) → All TypeFits (auth_attrs username realm nonce)
auth-Fits username realm nonce =
    All-append TypeFits (text_attrs attr_username username)
      (text_attrs attr_realm realm ++ text_attrs attr_nonce nonce)
      (present-Fits (not_empty username) attr_username username (omega arith))
      (All-append TypeFits (text_attrs attr_realm realm) (text_attrs attr_nonce nonce)
        (present-Fits (not_empty realm) attr_realm realm (omega arith))
        (present-Fits (not_empty nonce) attr_nonce nonce (omega arith)))

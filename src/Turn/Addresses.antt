-- ===== src/Turn/Addresses.antt =====
-- EncodeXorAddress and DecodeXorAddress of src/voip/src/infrastructure/turn/turn_message.cpp.
use vianium_voip.Common.{ltb}
use vianium_voip.Bytes.{low_byte}
use vianium_voip.Common.{subst}
use vianium_voip.Stun.Fields.{length-word}
use vianium_voip.Common.{
  ℕ, ◌^◌, ◌<◌, ◌≡◌, refl, sym, ◌∙◌, List, [], ◌∷◌, ◌++◌, Bool, true, false, ◌&&◌, ◌==◌,
  if◌then◌else◌, length, arith, none, some, bit_xor, append-nil, Bool-cases, inl, inr,
}
use vianium_voip.Bytes.{AreBytes, write_be16, write_be32, read_be32}
use vianium_voip.Stun.Fields.{port_back, address_back}
use vianium_voip.Turn.{TurnAddress, TurnMessage, magic_cookie, family_ipv4}
use vianium_voip.Turn.Encode.{is_encodable, xor_address_value, xor_mask, address_mask}
use vianium_voip.Turn.Scan.{read_all}
use vianium_voip.Turn.Layout.{peer_attrs}
use vianium_voip.Turn.Decode.{read_attr}
use vianium_voip.Turn.Decode.{decode_xor_address, read_peer}

-- An address whose fields fit their types.
pub record IsAddress (addr : TurnAddress) : Type 0 where
  pub port_fits : addr.port < 2 ^ 16
  pub address_bytes : AreBytes addr.address

abbrev pub is_ipv4 : TurnAddress → Bool
is_ipv4 addr = addr.family == family_ipv4 && length addr.address == 4

-- The four bytes of an address are masked twice.
ipv4_back :
    (address : List ℕ)
    → length address ≡ 4
    → AreBytes address
    → write_be32
        (bit_xor (read_be32 (write_be32 (bit_xor (read_be32 address) magic_cookie))) magic_cookie)
      ≡ address
unfolding read_be32
ipv4_back (a ∷ b ∷ c ∷ d ∷ []) h k =
    address_back (a ∷ b ∷ c ∷ d ∷ 0 ∷ 0 ∷ 0 ∷ 0 ∷ 0 ∷ 0 ∷ 0 ∷ 0 ∷ 0 ∷ 0 ∷ 0 ∷ 0 ∷ []) refl
      (k.0, (k.1.0, (k.1.1.0, (k.1.1.1.0, zeros))))
  where
    zeros : AreBytes (0 ∷ 0 ∷ 0 ∷ 0 ∷ 0 ∷ 0 ∷ 0 ∷ 0 ∷ 0 ∷ 0 ∷ 0 ∷ 0 ∷ [])
    zeros = omega arith
ipv4_back [] h k = absurd (omega (arith, h))
ipv4_back (a ∷ []) h k = absurd (omega (arith, h))
ipv4_back (a ∷ b ∷ []) h k = absurd (omega (arith, h))
ipv4_back (a ∷ b ∷ c ∷ []) h k = absurd (omega (arith, h))
ipv4_back (a ∷ b ∷ c ∷ d ∷ e ∷ l) h k = absurd (omega (arith, h))

-- An IPv4 address comes back.
ipv4_read :
    (port : ℕ) (address txn : List ℕ)
    → port < 2 ^ 16
    → length address ≡ 4
    → AreBytes address
    → decode_xor_address
        (xor_address_value (record { family = 1; port = port; address = address }) txn)
        txn
      ≡ some (record { family = 1; port = port; address = address })
unfolding decode_xor_address xor_address_value write_be16
ipv4_read port address txn p h k = rw (length-word, port_back port _ p, ipv4_back address h k) refl

-- The family of an address that is not one of IPv4 was overwritten.
other_unread :
    (peer : TurnAddress) (txn : List ℕ)
    → (peer.family == 1) ≡ false
    → decode_xor_address (xor_address_value peer txn) txn ≡ none
unfolding decode_xor_address xor_address_value write_be32 low_byte
other_unread peer txn e =
    rw e
      (elim (Bool-cases
        (ltb (length (write_be32 0 ++ xor_mask peer.address (address_mask txn))) 8)) [
          | inl short ↦ rw short refl
          | inr long ↦ rw long refl
        ])

unchanged : (out : TurnMessage) → out ≡ record out { xor_peers = out.xor_peers ++ [] }
unchanged out = λ i. record out { xor_peers = sym (append-nil out.xor_peers) i }

module _ (peer : TurnAddress) (h : IsAddress peer) where
  ipv4_back_whole :
      (txn : List ℕ)
      → is_ipv4 peer ≡ true
      → decode_xor_address (xor_address_value peer txn) txn ≡ some peer
  ipv4_back_whole txn e =
      subst (λ (p : TurnAddress). decode_xor_address (xor_address_value p txn) txn ≡ some p)
        (λ i. record peer { family = sym one i })
        (ipv4_read peer.port peer.address txn h.port_fits (ground (arith, e)) h.address_bytes)
    where
      one : peer.family ≡ 1
      one = ground (arith, e)

  sent_peer :
      (out : TurnMessage)
      → is_encodable peer ≡ true
      → read_all (peer_attrs out.transaction_id peer) out
        ≡ read_peer (xor_address_value peer out.transaction_id) out
  unfolding read_all read_attr
  sent_peer out e = rw e refl

  -- The attribute of a peer, read back: an IPv4 address is there, and no other.
  pub read_peer_lem :
      (out : TurnMessage)
      → read_all (peer_attrs out.transaction_id peer) out
        ≡ record out { xor_peers = out.xor_peers ++ (if is_ipv4 peer then peer ∷ [] else []) }
  unfolding read_all is_encodable read_peer
  read_peer_lem out = elim (Bool-cases (is_ipv4 peer)) [
    | inl four ↦
        sent_peer out (ground (arith, four))
        ∙ rw (ipv4_back_whole out.transaction_id four, read_peer, four) refl
    | inr other ↦ elim (Bool-cases (is_encodable peer)) [
      | inl sent ↦
          sent_peer out sent
          ∙ rw
              (other_unread peer out.transaction_id (ground (arith, other, sent)), read_peer, other)
              (unchanged out)
      | inr dropped ↦ rw (dropped, other) (unchanged out)
    ]
  ]

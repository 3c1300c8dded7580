-- ===== src/ReflectorPacket/Requests.antt =====
-- The requests that src/voip/src/domain/voip_reflector_packet.cpp builds, byte for byte.
use vianium_voip.Common.{==_iff}
use vianium_voip.Common.{
  ℕ, ◌+◌, ◌≤◌, ◌≡◌, ◌≢◌, refl, ap, ◌∙◌, List, ◌∷◌, ◌++◌, true, ◌==◌, arith, length, drop, replicate,
}
use vianium_voip.Bytes.{write_at, low_byte, write_le32, write_le64}
use vianium_voip.Bytes.Buffer.{overlay-append, write_at-append}
use vianium_voip.ReflectorPacket.{
  success, fail, build_peer_discovery_request, build_self_info_request, self_info_request,
}

module _ (tag : List ℕ) (sixteen : length tag ≡ 16) where
  at_front : (out : List ℕ) → 16 ≤ length out → write_at 0 tag out ≡ tag ++ drop 16 out
  at_front out h = overlay-append tag out (omega arith) ∙ ap (λ (n : ℕ). tag ++ drop n out) sixteen

  behind :
      (n m : ℕ) (bs out : List ℕ)
      → n ≡ 16 + m
      → write_at n bs (tag ++ out) ≡ tag ++ write_at m bs out
  behind n m bs out e = write_at-append n m bs tag out (omega arith)

  self_info_request-bytes :
      (query_id : ℕ)
      → self_info_request tag query_id
        ≡ tag ++ (replicate 12 0xFF ++ (0xFE ∷ 0xFF ∷ 0xFF ∷ 0xFF ∷ write_le64 query_id))
  unfolding self_info_request write_le32 low_byte write_le64
  self_info_request-bytes query_id =
      rw
        (
          at_front (replicate 40 0) (omega arith),
          behind 16 0,
          behind 20 4,
          behind 24 8,
          behind 28 12,
          behind 32 16,
        )
        refl

  -- With a 16-byte peer tag both requests are built: the discovery request is the tag and 16 bytes
  -- 0xFF; the self-info request is the tag, 12 bytes 0xFF, the word 0xFFFFFFFE and the query id,
  -- both words little endian.
  pub requests :
      (query_id : ℕ)
      → (build_peer_discovery_request tag ≡ success tt (tag ++ replicate 16 0xFF))
        × (build_self_info_request tag query_id
            ≡ success tt
                (tag ++ (replicate 12 0xFF ++ (write_le32 0xFFFF_FFFE ++ write_le64 query_id))))
  unfolding build_peer_discovery_request build_self_info_request
  requests query_id = (discovery, self_info)
    where
      tagged : (length tag == 16) ≡ true
      tagged = (==_iff (length tag) 16).1 sixteen

      discovery : build_peer_discovery_request tag ≡ success tt (tag ++ replicate 16 0xFF)
      discovery = rw tagged (rw (at_front (replicate 32 0xFF) (omega arith)))

      self_info :
          build_self_info_request tag query_id
          ≡ success tt
              (tag ++ (replicate 12 0xFF ++ (write_le32 0xFFFF_FFFE ++ write_le64 query_id)))
      self_info = rw tagged (rw self_info_request-bytes (unfold write_le32 low_byte in refl))

-- Any other length is refused by both.
pub requests_refuse :
    (tag : List ℕ) (query_id : ℕ)
    → length tag ≢ 16
    → (build_peer_discovery_request tag ≡ fail "reflector peer_tag must be exactly 16 bytes")
      × (build_self_info_request tag query_id ≡ fail "reflector peer_tag must be exactly 16 bytes")
unfolding build_peer_discovery_request build_self_info_request
requests_refuse tag query_id h = ground arith

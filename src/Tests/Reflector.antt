-- ===== src/Tests/Reflector.antt =====
-- The codec of src/voip/src/domain/voip_reflector_packet.cpp on concrete packets, and the choice of
-- src/voip/src/domain/voip_endpoint_selector.cpp on a concrete list.
use vianium_voip.Common.{◌≢◌, ℕ, ◌≡◌, refl, ◌⊎◌, List, [], ◌∷◌, arith}
use vianium_voip.Common.Int.{pos}
use vianium_voip.Domain.{VoipEndpoint, default_endpoint}
use vianium_voip.ReflectorPacket.{
  VoipReflectorSelfInfo, success, ipv4_to_string, parse_self_info_response,
}
use vianium_voip.ReflectorPacket.Response.{response_of, info_of, parse_response}
use vianium_voip.EndpointSelector.{
  found, not_found, has_address, has_ipv4, is_usable_reflector_endpoint, first_such, first_choice,
  select_reflector,
}
use vianium_voip.EndpointSelector.Selection.{usable_ipv4, IsFirst, NoneSuch, select_reflector_lem}

abbrev tag : List ℕ
tag = 1 ∷ 2 ∷ 3 ∷ 4 ∷ 5 ∷ 6 ∷ 7 ∷ 8 ∷ 9 ∷ 10 ∷ 11 ∷ 12 ∷ 13 ∷ 14 ∷ 15 ∷ 16 ∷ []

-- The address 10.0.1.2, port 596, and a date before 1970.
abbrev answer : List ℕ
answer = response_of tag 0xFFFF_FFFF 77 0 0x0201_000A 596 []

abbrev answer_info : VoipReflectorSelfInfo
answer_info = info_of tag 0xFFFF_FFFF 77 0x0201_000A 596

answer_address : ipv4_to_string 0x0201_000A ≡ (49 ∷ 48 ∷ 46 ∷ 48 ∷ 46 ∷ 49 ∷ 46 ∷ 50 ∷ [])
unfolding ipv4_to_string
answer_address = refl

parse_response_example :
    (parse_self_info_response answer tag ≡ success answer_info answer)
    × (parse_self_info_response answer [] ≡ success answer_info answer)
parse_response_example =
    parse_response tag 0xFFFF_FFFF 77 0 0x0201_000A 596 [] refl (omega arith) (omega arith)
      (omega arith) (omega arith)

-- A reflector that has only an IPv6 address, and one that has an IPv4 address.
abbrev ipv6_only : VoipEndpoint
ipv6_only = record default_endpoint { ipv6 = (58 ∷ 58 ∷ 49 ∷ []); port = pos 596; peer_tag = tag }

abbrev ipv4_too : VoipEndpoint
ipv4_too = record default_endpoint {
  ip = (49 ∷ 48 ∷ 46 ∷ 48 ∷ 46 ∷ 49 ∷ 46 ∷ 50 ∷ []);
  port = pos 596;
  peer_tag = tag;
}

select_ipv4 : select_reflector (ipv6_only ∷ ipv4_too ∷ []) ≡ found ipv4_too
unfolding select_reflector first_choice first_such is_usable_reflector_endpoint has_address has_ipv4
select_ipv4 = refl

select_ipv6 : select_reflector (ipv6_only ∷ []) ≡ found ipv6_only
unfolding select_reflector first_choice first_such is_usable_reflector_endpoint has_address has_ipv4
select_ipv6 = refl

select_reflector_lem_example :
    ((e : VoipEndpoint) × (select_reflector (ipv6_only ∷ ipv4_too ∷ []) ≡ found e)
      × IsFirst usable_ipv4 (ipv6_only ∷ ipv4_too ∷ []) e)
    ⊎ (((e : VoipEndpoint) × (select_reflector (ipv6_only ∷ ipv4_too ∷ []) ≡ found e)
          × NoneSuch usable_ipv4 (ipv6_only ∷ ipv4_too ∷ [])
          × IsFirst is_usable_reflector_endpoint (ipv6_only ∷ ipv4_too ∷ []) e)
        ⊎ (((select_reflector (ipv6_only ∷ ipv4_too ∷ [])
                ≡ not_found "phoneCall returned no media endpoints")
              × (◌≡◌ {A = List VoipEndpoint} (ipv6_only ∷ ipv4_too ∷ []) []))
            ⊎ ((select_reflector (ipv6_only ∷ ipv4_too ∷ [])
                  ≡ not_found "no Telegram reflector endpoint with peer_tag was available")
                × (◌≢◌ {A = List VoipEndpoint} (ipv6_only ∷ ipv4_too ∷ []) [])
                × NoneSuch is_usable_reflector_endpoint (ipv6_only ∷ ipv4_too ∷ []))))
select_reflector_lem_example = select_reflector_lem (ipv6_only ∷ ipv4_too ∷ [])

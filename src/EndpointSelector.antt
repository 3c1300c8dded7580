-- ===== src/EndpointSelector.antt =====
-- src/voip/src/domain/voip_endpoint_selector.{h,cpp}: the choice of the reflector for a call.
pub mod Selection
use vianium_voip.Common.{
  ℕ, suc, ◌+◌, ◌≤◌, ◌<◌, ◌≡◌, refl, ◌⊎◌, inl, inr, List, [], ◌∷◌, Bool, true, false, not, ◌&&◌,
  ◌||◌, if◌then◌else◌, String, Option, none, some, arith, Bool-cases,
}
use mathlib.Core.List.{Mem, mem-cons_self, mem-cons_of_mem}
use vianium_voip.Common.Int.{ℤ, pos, ltb_ℤ}
use vianium_voip.Domain.{VoipEndpoint, default_endpoint}

-- VoipEndpointSelection: Found with the endpoint, or not found with the reason.
pub data VoipEndpointSelection : Type 0 where
  found : VoipEndpoint → VoipEndpointSelection
  not_found : String → VoipEndpointSelection

-- `text.empty()` and `bytes.empty()`
abbrev pub is_empty : List ℕ → Bool
is_empty [] = true
is_empty (x ∷ xs) = false

unfoldable pub has_address : VoipEndpoint → Bool
has_address endpoint = not (is_empty endpoint.ip) || not (is_empty endpoint.ipv6)

unfoldable pub has_ipv4 : VoipEndpoint → Bool
has_ipv4 endpoint = not (is_empty endpoint.ip)

-- `Port > 0 && Port <= 65535`
abbrev pub has_port : VoipEndpoint → Bool
has_port endpoint = ltb_ℤ (pos 0) endpoint.port && not (ltb_ℤ (pos 65535) endpoint.port)

unfoldable pub is_usable_reflector_endpoint : VoipEndpoint → Bool
unfolding has_address
is_usable_reflector_endpoint endpoint =
    has_port endpoint
    && (has_address endpoint && (not endpoint.is_web_rtc && not (is_empty endpoint.peer_tag)))

unfoldable pub is_usable_web_rtc_endpoint : VoipEndpoint → Bool
unfolding has_address
is_usable_web_rtc_endpoint endpoint =
    has_port endpoint
    && (has_address endpoint
        && (endpoint.is_web_rtc
            && (not (is_empty endpoint.username) || (endpoint.stun || endpoint.turn))))

-- The loops of SelectReflector: the first endpoint that passes the test.
unfoldable pub first_such : (VoipEndpoint → Bool) → List VoipEndpoint → Option VoipEndpoint
first_such test [] = none
first_such test (e ∷ es) = if test e then some e else first_such test es

-- The second loop, which runs when the first has found nothing.
unfoldable pub second_choice : Option VoipEndpoint → VoipEndpointSelection
second_choice (some e) = found e
second_choice none = not_found "no Telegram reflector endpoint with peer_tag was available"

unfoldable pub first_choice : Option VoipEndpoint → Option VoipEndpoint → VoipEndpointSelection
unfolding second_choice
first_choice (some e) other = found e
first_choice none other = second_choice other

unfoldable pub select_reflector : List VoipEndpoint → VoipEndpointSelection
select_reflector [] = not_found "phoneCall returned no media endpoints"
select_reflector (e ∷ es) =
    first_choice (first_such (λ x. is_usable_reflector_endpoint x && has_ipv4 x) (e ∷ es))
      (first_such is_usable_reflector_endpoint (e ∷ es))

-- ===== src/Tests/Session.antt =====
-- The session of src/voip/src/domain/voip_media_session.cpp on concrete calls.
use vianium_voip.MediaSession.{is_down}
use vianium_voip.Common.{◌≡◌, refl, [], ◌∷◌, false}
use vianium_voip.Common.Int.{pos}
use vianium_voip.Domain.{VoipEndpoint, default_endpoint}
use vianium_voip.EndpointSelector.{has_address}
use vianium_voip.MediaSession.{
  VoipMediaSession, active, new_session, prepare, mark_connecting, mark_active,
}
use vianium_voip.MediaSession.LifeCycle.{
  prepares, marks_connecting, marks_active, call, start, next, IsValid, Reach-IsValid,
}

abbrev relay : VoipEndpoint
relay = record default_endpoint {
  ip = (49 ∷ 48 ∷ 46 ∷ 48 ∷ 46 ∷ 49 ∷ 46 ∷ 50 ∷ []);
  port = pos 596;
  peer_tag = 1 ∷ [];
}

abbrev prepared_one : VoipMediaSession
prepared_one = (call new_session (prepares (pos 7) (107 ∷ 101 ∷ 121 ∷ []) relay)).0

abbrev active_one : VoipMediaSession
active_one = (call (call prepared_one marks_connecting).0 marks_active).0

active_one-state : (active_one.state ≡ active) × (active_one.call_id ≡ pos 7)
unfolding call prepare mark_connecting mark_active new_session has_address
active_one-state = (refl, refl)

-- A second call is refused while the first is up.
second_call_refused : (call prepared_one (prepares (pos 8) (107 ∷ 101 ∷ 121 ∷ []) relay)).1 ≡ false
unfolding call prepare new_session has_address
second_call_refused = refl

Reach-IsValid_example : IsValid active_one
Reach-IsValid_example = Reach-IsValid (
    next marks_active
      (next marks_connecting (next (prepares (pos 7) (107 ∷ 101 ∷ 121 ∷ []) relay) start)))

prepared_up : is_down prepared_one.state ≡ false
unfolding call prepare new_session has_address
prepared_up = refl

-- ===== src/MediaSession/LifeCycle.antt =====
-- The states of the media session of src/voip/src/domain/voip_media_session.cpp.
use vianium_voip.Common.{
  ℕ, ◌≡◌, ◌≢◌, refl, sym, ap, ◌∙◌, ◌⊎◌, inl, inr, List, [], Bool, true, false, arith,
}
use vianium_voip.Common.Int.{ℤ, pos, ◌≤ℤ◌}
use vianium_voip.Domain.{VoipEndpoint, default_endpoint, is_ok}
use vianium_voip.EndpointSelector.{has_address, is_empty}
use vianium_voip.MediaSession.{
  VoipMediaSession, prepared, connecting, active, is_down, new_session, prepare, mark_connecting,
  mark_active, set_muted, set_speaker, record_handshake, record_probe_success, stop, no_stats,
}

-- One call of a method.
pub data Call : Type 0 where
  prepares : ℤ → List ℕ → VoipEndpoint → Call
  marks_connecting marks_active stops : Call
  mutes speaks : Bool → Call
  handshakes : ℕ → ℕ → ℕ → ℕ → ℤ → Call
  probes : ℕ → ℕ → ℤ → Call

-- The state after a call, and whether the call reports success.
unfoldable pub call : VoipMediaSession → Call → VoipMediaSession × Bool
call s (prepares id key e) = ((prepare s id key e).0, is_ok (prepare s id key e).1)
call s marks_connecting = ((mark_connecting s).0, is_ok (mark_connecting s).1)
call s marks_active = ((mark_active s).0, is_ok (mark_active s).1)
call s stops = (stop s, true)
call s (mutes on) = ((set_muted s on).0, is_ok (set_muted s on).1)
call s (speaks on) = ((set_speaker s on).0, is_ok (set_speaker s on).1)
call s (handshakes ps pr bs br rtt) = (record_handshake s ps pr bs br rtt, true)
call s (probes bs br rtt) = (record_probe_success s bs br rtt, true)

-- The sessions that a fresh one can become.
pub data Reach : VoipMediaSession → Type 0 where
  start : Reach new_session
  next : {s : VoipMediaSession} (c : Call) → Reach s → Reach (call s c).0

-- What an endpoint must have for a media session.
pub record IsReachable (e : VoipEndpoint) : Type 0 where
  pub port_low : pos 1 ≤ℤ e.port
  pub port_high : e.port ≤ℤ pos 65535
  pub addressed : has_address e ≡ true
  pub tagged : is_empty e.peer_tag ≡ false

-- A session that is up has a call and all that is needed to reach its reflector; one that is down
-- has none of the call's data left.
abbrev pub IsValid : VoipMediaSession → Type 0
IsValid s =
    ((is_down s.state ≡ false)
      × (pos 1 ≤ℤ s.call_id)
      × (is_empty s.key_handle ≡ false)
      × IsReachable s.endpoint)
    ⊎ ((is_down s.state ≡ true)
        × (s.call_id ≡ pos 0)
        × (s.key_handle ≡ [])
        × (s.endpoint ≡ default_endpoint)
        × (s.muted ≡ false)
        × (s.speaker_on ≡ false))

-- What a successful Prepare makes of the session.
abbrev pub prepared_session : ℤ → List ℕ → VoipEndpoint → VoipMediaSession
prepared_session id key e = record {
  state = prepared;
  call_id = id;
  key_handle = key;
  endpoint = e;
  muted = false;
  speaker_on = false;
  stats = no_stats;
}

abbrev Prepares : VoipMediaSession → ℤ → List ℕ → VoipEndpoint → Type 0
Prepares s id key e =
    (pos 1 ≤ℤ id)
    × (is_empty key ≡ false)
    × IsReachable e
    × ((is_down s.state ≡ true) ⊎ (s.call_id ≡ id))

prepare_cases :
    (s : VoipMediaSession) (id : ℤ) (key : List ℕ) (e : VoipEndpoint)
    → (((prepare s id key e).0 ≡ s) × (is_ok (prepare s id key e).1 ≡ false))
      ⊎ (((prepare s id key e).0 ≡ prepared_session id key e)
          × (is_ok (prepare s id key e).1 ≡ true)
          × Prepares s id key e)
unfolding prepare
prepare_cases s id key e = ground arith

prepare-IsValid :
    (s : VoipMediaSession) (id : ℤ) (key : List ℕ) (e : VoipEndpoint)
    → IsValid s
    → IsValid (prepare s id key e).0
prepare-IsValid s id key e v = elim (prepare_cases s id key e) [
  | inl (same, failed) ↦ rw same v
  | inr (made, done, (positive, keyed, reachable, free)) ↦
      rw made (inl (refl, positive, keyed, reachable))
]

call-IsValid : (s : VoipMediaSession) (c : Call) → IsValid s → IsValid (call s c).0
unfolding call mark_connecting mark_active set_muted set_speaker record_handshake
    record_probe_success stop
call-IsValid s (prepares id key e) v = prepare-IsValid s id key e v
call-IsValid s marks_connecting v = ground arith
call-IsValid s marks_active v = ground arith
call-IsValid s stops v = inr (refl, refl, refl, refl, refl, refl)
call-IsValid s (mutes on) v = ground arith
call-IsValid s (speaks on) v = ground arith
call-IsValid s (handshakes ps pr bs br rtt) v = v
call-IsValid s (probes bs br rtt) v = v

new_session-IsValid : IsValid new_session
unfolding new_session
new_session-IsValid = inr (refl, refl, refl, refl, refl, refl)

-- After any sequence of calls on a new session: a session that is prepared, connecting or active
-- has a positive call id, a key handle and an endpoint with a valid port, an address and a peer
-- tag; an idle or stopped session has no call id, key handle or endpoint left and is neither muted
-- nor on speaker.
pub Reach-IsValid : {s : VoipMediaSession} → Reach s → IsValid s
Reach-IsValid start = new_session-IsValid
Reach-IsValid (next {s = s} c r) = call-IsValid s c (Reach-IsValid r)

prepare_failed :
    (s : VoipMediaSession) (id : ℤ) (key : List ℕ) (e : VoipEndpoint)
    → is_ok (prepare s id key e).1 ≡ false
    → (prepare s id key e).0 ≡ s
prepare_failed s id key e h = elim (prepare_cases s id key e) [
  | inl (same, failed) ↦ same
  | inr (made, done, needs) ↦ cc (done, h)
]

-- A call that reports an error leaves the session as it was.
pub failed_call_keeps : (s : VoipMediaSession) (c : Call) → (call s c).1 ≡ false → (call s c).0 ≡ s
unfolding call mark_connecting mark_active set_muted set_speaker
failed_call_keeps s (prepares id key e) h = prepare_failed s id key e h
failed_call_keeps s marks_connecting h = ground arith
failed_call_keeps s marks_active h = ground arith
failed_call_keeps s stops h = cc h
failed_call_keeps s (mutes on) h = ground arith
failed_call_keeps s (speaks on) h = ground arith
failed_call_keeps s (handshakes ps pr bs br rtt) h = cc h
failed_call_keeps s (probes bs br rtt) h = cc h

-- The one way into the active state: a session becomes active only by MarkActive, and only from
-- prepared or connecting.
pub active_comes_from :
    (s : VoipMediaSession) (c : Call)
    → (call s c).0.state ≡ active
    → (s.state ≡ active) ⊎ ((c ≡ marks_active) × ((s.state ≡ prepared) ⊎ (s.state ≡ connecting)))
unfolding call mark_connecting mark_active set_muted set_speaker record_handshake
    record_probe_success stop
active_comes_from s (prepares id key e) h = elim (prepare_cases s id key e) [
  | inl (same, failed) ↦ inl (ap (λ (t : VoipMediaSession). t.state) (sym same) ∙ h)
  | inr (made, done, needs) ↦ cc (ap (λ (t : VoipMediaSession). t.state) (sym made) ∙ h)
]
active_comes_from s marks_connecting h = ground arith
active_comes_from s marks_active h = ground arith
active_comes_from s stops h = cc h
active_comes_from s (mutes on) h = ground arith
active_comes_from s (speaks on) h = ground arith
active_comes_from s (handshakes ps pr bs br rtt) h = inl h
active_comes_from s (probes bs br rtt) h = inl h

-- A session that is up belongs to its call until Stop: whatever other call is made, with whatever
-- arguments and result, the call id stays.
pub call_id_kept :
    (s : VoipMediaSession) (c : Call)
    → is_down s.state ≡ false
    → c ≢ stops
    → (call s c).0.call_id ≡ s.call_id
unfolding call mark_connecting mark_active set_muted set_speaker record_handshake
    record_probe_success
call_id_kept s (prepares id key e) up h = elim (prepare_cases s id key e) [
  | inl (same, failed) ↦ ap (λ (t : VoipMediaSession). t.call_id) same
  | inr (made, done, (p, k, r, inl down)) ↦ cc (up, down)
  | inr (made, done, (p, k, r, inr same_call)) ↦
      ap (λ (t : VoipMediaSession). t.call_id) made ∙ sym same_call
]
call_id_kept s marks_connecting up h = ground arith
call_id_kept s marks_active up h = ground arith
call_id_kept s stops up h = absurd (h refl)
call_id_kept s (mutes on) up h = ground arith
call_id_kept s (speaks on) up h = ground arith
call_id_kept s (handshakes ps pr bs br rtt) up h = refl
call_id_kept s (probes bs br rtt) up h = refl

-- ===== src/MediaSession.antt =====
-- src/voip/src/domain/voip_media_session.{h,cpp}: the life cycle of the media session of a call. The
-- three float levels of the statistics are left out: the session only sets them to 0.
pub mod LifeCycle
use vianium_voip.Common.{
  ℕ, ◌+◌, ◌^◌, ◌<◌, List, [], ◌∷◌, Bool, true, false, not, ◌&&◌, ◌||◌, if◌then◌else◌, String,
}
use vianium_voip.Common.Int.{ℤ, pos, neg_part, pos_part, ltb_ℤ}
use vianium_voip.Bytes.{u32}
use vianium_voip.Domain.{
  VoipError, VoipEndpoint, ok_error, error_of, invalid_argument, default_endpoint,
}
use vianium_voip.EndpointSelector.{is_empty, has_address}

pub data VoipMediaState : Type 0 where
  idle prepared connecting active stopped : VoipMediaState

pub record VoipMediaStats : Type 0 where
  pub rtt_ms : ℤ
  pub bitrate_bps : ℤ
  pub underruns : ℤ
  pub packets_sent : ℕ
  pub packets_received : ℕ
  pub packets_lost : ℕ
  pub bytes_sent : ℕ
  pub bytes_received : ℕ

abbrev pub no_stats : VoipMediaStats
no_stats = record {
  rtt_ms = pos 0;
  bitrate_bps = pos 0;
  underruns = pos 0;
  packets_sent = 0;
  packets_received = 0;
  packets_lost = 0;
  bytes_sent = 0;
  bytes_received = 0;
}

pub record VoipMediaSession : Type 0 where
  pub state : VoipMediaState
  pub call_id : ℤ
  pub key_handle : List ℕ
  pub endpoint : VoipEndpoint
  pub muted : Bool
  pub speaker_on : Bool
  pub stats : VoipMediaStats

-- The constructor.
unfoldable pub new_session : VoipMediaSession
new_session = record {
  state = idle;
  call_id = pos 0;
  key_handle = [];
  endpoint = default_endpoint;
  muted = false;
  speaker_on = false;
  stats = no_stats;
}

abbrev invalid : String → VoipError
invalid message = error_of invalid_argument (pos 0) message

-- `m_state == Idle || m_state == Stopped`
abbrev pub is_down : VoipMediaState → Bool
is_down idle = true
is_down stopped = true
is_down _ = false

abbrev eq_ℤ : ℤ → ℤ → Bool
eq_ℤ a b = not (ltb_ℤ a b) && not (ltb_ℤ b a)

unfoldable pub prepare : VoipMediaSession → ℤ → List ℕ → VoipEndpoint → VoipMediaSession × VoipError
prepare s call_id key_handle endpoint =
    if not (ltb_ℤ (pos 0) call_id)
    then (s, invalid "media session callId must be positive")
    else if is_empty key_handle
    then (s, invalid "media session key handle is missing")
    else if not (ltb_ℤ (pos 0) endpoint.port) || ltb_ℤ (pos 65535) endpoint.port
    then (s, invalid "media session endpoint port is invalid")
    else if not (has_address endpoint)
    then (s, invalid "media session endpoint address is missing")
    else if is_empty endpoint.peer_tag
    then (s, invalid "media session reflector peer_tag is missing")
    else if not (is_down s.state) && not (eq_ℤ s.call_id call_id)
    then (s, invalid "another media session is already prepared")
    else (
      record {
        state = prepared;
        call_id = call_id;
        key_handle = key_handle;
        endpoint = endpoint;
        muted = false;
        speaker_on = false;
        stats = no_stats;
      },
      ok_error,
    )

abbrev is_prepared : VoipMediaState → Bool
is_prepared prepared = true
is_prepared _ = false

abbrev is_connecting : VoipMediaState → Bool
is_connecting connecting = true
is_connecting _ = false

unfoldable pub mark_connecting : VoipMediaSession → VoipMediaSession × VoipError
mark_connecting s =
    if not (is_prepared s.state)
    then (s, invalid "media session must be prepared before connecting")
    else (record s { state = connecting }, ok_error)

unfoldable pub mark_active : VoipMediaSession → VoipMediaSession × VoipError
mark_active s =
    if not (is_connecting s.state) && not (is_prepared s.state)
    then (s, invalid "media session must be prepared or connecting before active")
    else (record s { state = active }, ok_error)

unfoldable pub set_muted : VoipMediaSession → Bool → VoipMediaSession × VoipError
set_muted s muted =
    if is_down s.state
    then (s, invalid "media session is not started")
    else (record s { muted = muted }, ok_error)

unfoldable pub set_speaker : VoipMediaSession → Bool → VoipMediaSession × VoipError
set_speaker s on =
    if is_down s.state
    then (s, invalid "media session is not started")
    else (record s { speaker_on = on }, ok_error)

unfoldable pub record_handshake : VoipMediaSession → ℕ → ℕ → ℕ → ℕ → ℤ → VoipMediaSession
record_handshake s packets_sent packets_received bytes_sent bytes_received rtt_ms = record s {
  stats = record (s.stats) {
    packets_sent = u32 (s.stats.packets_sent + packets_sent);
    packets_received = u32 (s.stats.packets_received + packets_received);
    bytes_sent = u32 (s.stats.bytes_sent + bytes_sent);
    bytes_received = u32 (s.stats.bytes_received + bytes_received);
    rtt_ms = if ltb_ℤ (pos 0) rtt_ms then rtt_ms else s.stats.rtt_ms;
  };
}

unfoldable pub record_probe_success : VoipMediaSession → ℕ → ℕ → ℤ → VoipMediaSession
record_probe_success s bytes_sent bytes_received rtt_ms = record s {
  stats = record (s.stats) {
    packets_sent = u32 (s.stats.packets_sent + 1);
    packets_received = u32 (s.stats.packets_received + 1);
    bytes_sent = u32 (s.stats.bytes_sent + bytes_sent);
    bytes_received = u32 (s.stats.bytes_received + bytes_received);
    rtt_ms = if ltb_ℤ (pos 0) rtt_ms then rtt_ms else s.stats.rtt_ms;
  };
}

unfoldable pub stop : VoipMediaSession → VoipMediaSession
stop s = record {
  state = stopped;
  call_id = pos 0;
  key_handle = [];
  endpoint = default_endpoint;
  muted = false;
  speaker_on = false;
  stats = no_stats;
}

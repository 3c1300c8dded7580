-- ===== src/Domain.antt =====
-- src/voip/src/domain/voip_error.h and voip_endpoint.h: the error values and the endpoints that the
-- other parts of the domain share.
use vianium_voip.Common.{ℕ, List, [], Bool, true, false, String}
use vianium_voip.Common.Int.{ℤ, pos}

pub data VoipErrorKind : Type 0 where
  none_kind unavailable invalid_argument crypto_unavailable fingerprint_mismatch : VoipErrorKind
  transport_failed codec_failed audio_device_failed internal_error : VoipErrorKind
  handshake_timeout : VoipErrorKind

pub record VoipError : Type 0 where
  pub kind : VoipErrorKind
  pub code : ℤ
  pub message : String

-- VoipError::Ok()
abbrev pub ok_error : VoipError
ok_error = record { kind = none_kind; code = pos 0; message = "" }

-- VoipError::Of(kind, code, message)
abbrev pub error_of : VoipErrorKind → ℤ → String → VoipError
error_of kind code message = record { kind = kind; code = code; message = message }

abbrev pub is_none_kind : VoipErrorKind → Bool
is_none_kind none_kind = true
is_none_kind _ = false

-- IsOk()
abbrev pub is_ok : VoipError → Bool
is_ok e = is_none_kind e.kind

-- An `int` or `int64_t` field is an integer, and a text is the list of its bytes.
pub record VoipEndpoint : Type 0 where
  pub id : ℤ
  pub ip : List ℕ
  pub ipv6 : List ℕ
  pub port : ℤ
  pub peer_tag : List ℕ
  pub is_web_rtc : Bool
  pub tcp : Bool
  pub stun : Bool
  pub turn : Bool
  pub username : List ℕ
  pub password : List ℕ
  pub reflector_id : ℤ

abbrev pub default_endpoint : VoipEndpoint
default_endpoint = record {
  id = pos 0;
  ip = [];
  ipv6 = [];
  port = pos 0;
  peer_tag = [];
  is_web_rtc = false;
  tcp = false;
  stun = false;
  turn = false;
  username = [];
  password = [];
  reflector_id = pos 0;
}

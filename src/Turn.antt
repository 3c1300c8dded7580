-- ===== src/Turn.antt =====
-- src/voip/src/infrastructure/turn/turn_message.{h,cpp}: TURN messages on the wire. HMAC-SHA1 is the
-- parameter of the STUN codec. AppendAttr and AppendAttrU32 are the same code as in
-- src/voip/src/infrastructure/ice/stun_message.cpp, whose definitions stand for both.
pub mod Encode
pub mod Decode
pub mod Types
pub mod Scan
pub mod Layout
pub mod Addresses
pub mod RoundTrip
pub mod Fields
pub mod Requests
pub mod MakeAddress
pub mod Dotted
use vianium_voip.Common.{
  ℕ, ◌+◌, ◌*◌, ◌/◌, ◌^◌, List, [], Bool, false, ◌&&◌, leb, length, replicate, bit_and, bit_or,
}
use vianium_voip.Common.Int.{ℤ, pos}
use vianium_voip.Bytes.{u16, byte_at}

abbrev pub magic_cookie : ℕ
magic_cookie = 0x2112A442

abbrev pub family_ipv4 : ℕ
family_ipv4 = 0x01

abbrev pub family_ipv6 : ℕ
family_ipv6 = 0x02

abbrev pub method_allocate : ℕ
method_allocate = 0x003

abbrev pub method_refresh : ℕ
method_refresh = 0x004

abbrev pub method_send : ℕ
method_send = 0x006

abbrev pub method_create_permission : ℕ
method_create_permission = 0x008

abbrev pub class_request : ℕ
class_request = 0x000

abbrev pub class_indication : ℕ
class_indication = 0x010

abbrev pub class_success : ℕ
class_success = 0x100

abbrev pub class_error : ℕ
class_error = 0x110

unfoldable pub turn_message_type : ℕ → ℕ → ℕ
turn_message_type method cls =
    let method_bits = u16 (
      bit_or (bit_or (bit_and method 0x0F) (bit_and method 0x70 * 2 ^ 1))
        (bit_and method 0xF80 * 2 ^ 2)) in
    let class_bits = u16 (bit_or (bit_and cls 0x10) (bit_and cls 0x100 * 2 ^ 1)) in
    u16 (bit_or method_bits class_bits)

unfoldable pub turn_method_of : ℕ → ℕ
turn_method_of type = u16 (
    bit_or (bit_or (bit_and type 0x000F) (bit_and type 0x00E0 / 2 ^ 1))
      (bit_and type 0x3E00 / 2 ^ 2))

unfoldable pub turn_class_of : ℕ → ℕ
turn_class_of type = u16 (bit_or (bit_and type 0x0010) (bit_and type 0x0200 / 2 ^ 1))

abbrev pub attr_username : ℕ
attr_username = 0x0006

abbrev pub attr_message_integrity : ℕ
attr_message_integrity = 0x0008

abbrev pub attr_error_code : ℕ
attr_error_code = 0x0009

abbrev pub attr_lifetime : ℕ
attr_lifetime = 0x000D

abbrev pub attr_xor_peer_address : ℕ
attr_xor_peer_address = 0x0012

abbrev pub attr_data : ℕ
attr_data = 0x0013

abbrev pub attr_realm : ℕ
attr_realm = 0x0014

abbrev pub attr_nonce : ℕ
attr_nonce = 0x0015

abbrev pub attr_xor_relayed_address : ℕ
attr_xor_relayed_address = 0x0016

abbrev pub attr_requested_transport : ℕ
attr_requested_transport = 0x0019

abbrev pub attr_dont_fragment : ℕ
attr_dont_fragment = 0x001A

abbrev pub attr_xor_mapped_address : ℕ
attr_xor_mapped_address = 0x0020

pub record TurnAddress : Type 0 where
  pub family : ℕ
  pub port : ℕ
  pub address : List ℕ

-- The constructor.
abbrev pub new_address : TurnAddress
new_address = record { family = 0; port = 0; address = [] }

pub record TurnMessage : Type 0 where
  pub type : ℕ
  pub transaction_id : List ℕ
  pub has_username : Bool
  pub username : List ℕ
  pub has_realm : Bool
  pub realm : List ℕ
  pub has_nonce : Bool
  pub nonce : List ℕ
  pub has_error_code : Bool
  pub error_code : ℕ
  pub error_reason : List ℕ
  pub has_xor_mapped : Bool
  pub xor_mapped : TurnAddress
  pub has_xor_relayed : Bool
  pub xor_relayed : TurnAddress
  pub xor_peers : List TurnAddress
  pub has_data : Bool
  pub payload : List ℕ
  pub has_lifetime : Bool
  pub lifetime : ℕ
  pub has_requested_transport : Bool
  pub protocol : ℕ
  pub has_message_integrity : Bool
  pub message_integrity : List ℕ
  pub raw : List ℕ

-- The constructor.
abbrev pub new_message : TurnMessage
new_message = record {
  type = 0;
  transaction_id = replicate 12 0;
  has_username = false;
  username = [];
  has_realm = false;
  realm = [];
  has_nonce = false;
  nonce = [];
  has_error_code = false;
  error_code = 0;
  error_reason = [];
  has_xor_mapped = false;
  xor_mapped = new_address;
  has_xor_relayed = false;
  xor_relayed = new_address;
  xor_peers = [];
  has_data = false;
  payload = [];
  has_lifetime = false;
  lifetime = 0;
  has_requested_transport = false;
  protocol = 0;
  has_message_integrity = false;
  message_integrity = [];
  raw = [];
}

unfoldable pub looks_like_stun_or_turn : List ℕ → Bool
looks_like_stun_or_turn bytes = leb 20 (length bytes) && leb (byte_at bytes 0) 0x03

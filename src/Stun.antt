-- ===== src/Stun.antt =====
-- src/voip/src/infrastructure/ice/stun_message.{h,cpp}: STUN messages on the wire. HMAC-SHA1, which is
-- not part of the repository, is a parameter, by key and message. A null pointer is the empty list.
pub mod Encode
pub mod Decode
pub mod Wire
pub mod Scan
pub mod Spec
pub mod Layout
pub mod Fields
pub mod Reading
pub mod Sizes
pub mod RoundTrip
pub mod Integrity
pub mod Protected
use vianium_voip.Common.{ℕ, ◌≡◌, List, [], Bool, false, length, replicate}
use vianium_voip.Bytes.{AreBytes}

pub record HmacSha1 : Type 0 where
  pub mac : List ℕ → List ℕ → List ℕ
  pub mac_size : (key message : List ℕ) → length (mac key message) ≡ 20
  pub mac_bytes : (key message : List ℕ) → AreBytes (mac key message)

abbrev pub stun_binding_request : ℕ
stun_binding_request = 0x0001

abbrev pub stun_binding_response : ℕ
stun_binding_response = 0x0101

abbrev pub stun_magic_cookie : ℕ
stun_magic_cookie = 0x2112A442

abbrev pub stun_fingerprint_mask : ℕ
stun_fingerprint_mask = 0x5354554E

abbrev pub attr_username : ℕ
attr_username = 0x0006

abbrev pub attr_message_integrity : ℕ
attr_message_integrity = 0x0008

abbrev pub attr_xor_mapped_address : ℕ
attr_xor_mapped_address = 0x0020

abbrev pub attr_priority : ℕ
attr_priority = 0x0024

abbrev pub attr_use_candidate : ℕ
attr_use_candidate = 0x0025

abbrev pub attr_fingerprint : ℕ
attr_fingerprint = 0x8028

abbrev pub attr_ice_controlled : ℕ
attr_ice_controlled = 0x8029

abbrev pub attr_ice_controlling : ℕ
attr_ice_controlling = 0x802A

pub record StunMessage : Type 0 where
  pub message_type : ℕ
  pub transaction_id : List ℕ
  pub username : List ℕ
  pub has_priority : Bool
  pub priority : ℕ
  pub has_ice_controlling : Bool
  pub ice_controlling_tie_break : ℕ
  pub has_ice_controlled : Bool
  pub ice_controlled_tie_break : ℕ
  pub use_candidate : Bool
  pub has_mapped_address : Bool
  pub mapped_family : ℕ
  pub mapped_address : List ℕ
  pub mapped_port : ℕ
  pub message_integrity : List ℕ
  pub has_fingerprint : Bool
  pub fingerprint : ℕ

-- The constructor.
abbrev pub new_message : StunMessage
new_message = record {
  message_type = 0;
  transaction_id = replicate 12 0;
  username = [];
  has_priority = false;
  priority = 0;
  has_ice_controlling = false;
  ice_controlling_tie_break = 0;
  has_ice_controlled = false;
  ice_controlled_tie_break = 0;
  use_candidate = false;
  has_mapped_address = false;
  mapped_family = 0;
  mapped_address = replicate 16 0;
  mapped_port = 0;
  message_integrity = [];
  has_fingerprint = false;
  fingerprint = 0;
}

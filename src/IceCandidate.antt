-- ===== src/IceCandidate.antt =====
-- src/voip/src/domain/ice_candidate.{h,cpp}: an ICE candidate and its line of text.
pub mod Tokens
pub mod Line
pub mod Written
pub mod Fields
pub mod RoundTrip
use vianium_voip.Common.{ℕ, List, []}
use vianium_voip.Common.Int.{ℤ, pos}

pub data IceCandidateType : Type 0 where
  host srflx prflx relay unknown : IceCandidateType

-- A text is the list of its bytes, and an `int` is an integer.
pub record ParsedIceCandidate : Type 0 where
  pub foundation : List ℕ
  pub component_id : ℤ
  pub transport : List ℕ
  pub priority : ℕ
  pub ip : List ℕ
  pub port : ℤ
  pub type : IceCandidateType
  pub ufrag : List ℕ
  pub network_id : ℤ
  pub network_cost : ℤ
  pub generation : ℤ
  pub related_address : List ℕ
  pub related_port : ℤ

-- The constructor.
abbrev pub new_candidate : ParsedIceCandidate
new_candidate = record {
  foundation = [];
  component_id = pos 0;
  transport = [];
  priority = 0;
  ip = [];
  port = pos 0;
  type = unknown;
  ufrag = [];
  network_id = pos 0;
  network_cost = pos 0;
  generation = pos 0;
  related_address = [];
  related_port = pos 0;
}

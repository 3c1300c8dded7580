-- ===== src/IceAgent.antt =====
-- src/voip/src/application/ice_agent.{h,cpp}: the connectivity checks of ICE. A text is the list of its
-- bytes. HMAC-SHA1 is the parameter of the STUN codec; the platform's random numbers are arguments: the
-- bytes that GenerateRandom returns, for a run of requests by the index of the pair.
pub mod Checks
pub mod Pairs
pub mod Steps
pub mod Invariant
pub mod Messages
pub mod Handshake
pub mod Nomination
use vianium_voip.Common.{
  ℕ, zero, suc, ◌+◌, ◌-◌, ◌*◌, ◌/◌, ◌%◌, ◌^◌, List, [], ◌∷◌, ◌++◌, Bool, true, false, not, ◌&&◌,
  ltb, ◌==◌, if◌then◌else◌, Option, none, some, length, replicate, bit_or, bit_and,
}
use vianium_voip.Common.Int.{ℤ, pos, negsuc}
use vianium_voip.Bytes.{u8, u16, u32}
use vianium_voip.Bytes.Compare.{bytes_equal}
use vianium_voip.Text.{number, strtoul}
use vianium_voip.IceCandidate.{ParsedIceCandidate, new_candidate, relay}
use vianium_voip.Stun.{
  HmacSha1, StunMessage, new_message, stun_binding_request, stun_binding_response,
}
use vianium_voip.Stun.Encode.{encode}
use vianium_voip.Stun.Decode.{decode, verify_message_integrity}

pub data IceAgentRole : Type 0 where
  controlling controlled : IceAgentRole

pub record IceCheckTarget : Type 0 where
  pub ip : List ℕ
  pub port : ℤ

pub record Pair : Type 0 where
  pub target : IceCheckTarget
  pub succeeded : Bool
  pub use_candidate_sent : Bool

pub record IceAgent : Type 0 where
  pub role : IceAgentRole
  pub local_ufrag : List ℕ
  pub local_pwd : List ℕ
  pub remote_ufrag : List ℕ
  pub remote_pwd : List ℕ
  pub tie_break : ℕ
  pub priority_counter : ℕ
  pub remote_candidates : List ParsedIceCandidate
  pub check_targets : List IceCheckTarget
  pub pairs : List Pair
  pub connected : Bool
  pub selected : IceCheckTarget

pub data ProcessResult : Type 0 where
  other binding_request_processed binding_response_processed connectivity_established :
      ProcessResult

abbrev pub is_controlling : IceAgentRole → Bool
is_controlling controlling = true
is_controlling controlled = false

abbrev pub no_target : IceCheckTarget
no_target = record { ip = []; port = pos 0 }

abbrev pub eq_ℤ : ℤ → ℤ → Bool
eq_ℤ (pos a) (pos b) = a == b
eq_ℤ (negsuc a) (negsuc b) = a == b
eq_ℤ _ _ = false

unfoldable pub make_priority : ℕ → ℕ → ℕ → ℕ
make_priority type_pref local_pref component_id =
    bit_or (bit_or (u32 (type_pref * 2 ^ 24)) (u32 (local_pref * 2 ^ 8)))
      (u32 (256 + 2 ^ 32 - component_id))

-- What RandomBytes makes of the platform's bytes, of which it asked `n`.
unfoldable pub random_bytes : ℕ → List ℕ → List ℕ
random_bytes n arr = if ltb 0 (length arr) then arr else replicate n 0

unfoldable pub fold_tie_break : ℕ → List ℕ → ℕ
fold_tie_break acc [] = acc
fold_tie_break acc (b ∷ bs) = fold_tie_break (bit_or (acc * 2 ^ 8 % 2 ^ 64) b) bs

unfoldable pub new_agent : List ℕ → IceAgentRole → List ℕ → List ℕ → List ℕ → List ℕ → IceAgent
unfolding random_bytes fold_tie_break
new_agent random role local_ufrag local_pwd remote_ufrag remote_pwd = record {
  role = role;
  local_ufrag = local_ufrag;
  local_pwd = local_pwd;
  remote_ufrag = remote_ufrag;
  remote_pwd = remote_pwd;
  tie_break = fold_tie_break 0 (random_bytes 8 random);
  priority_counter = 0;
  remote_candidates = [];
  check_targets = [];
  pairs = [];
  connected = false;
  selected = no_target;
}

abbrev pub is_target : List ℕ → ℤ → Pair → Bool
is_target ip port p = bytes_equal p.target.ip ip && eq_ℤ p.target.port port

-- The pair that the pointer of FindPair shows, and a write through that pointer.
unfoldable pub find_pair : List ℕ → ℤ → List Pair → Option Pair
find_pair ip port [] = none
find_pair ip port (p ∷ ps) = if is_target ip port p then some p else find_pair ip port ps

unfoldable pub set_succeeded : List ℕ → ℤ → List Pair → List Pair
set_succeeded ip port [] = []
set_succeeded ip port (p ∷ ps) =
    if is_target ip port p then record p { succeeded = true } ∷ ps else p ∷ set_succeeded ip port ps

unfoldable pub add_remote_candidate : ParsedIceCandidate → IceAgent → IceAgent
add_remote_candidate c a =
    let known = record a { remote_candidates = a.remote_candidates ++ c ∷ [] } in
    let t : IceCheckTarget = record { ip = c.ip; port = c.port } in
    elim (find_pair c.ip c.port a.pairs) [
      | some p ↦ known
      | none ↦ record known {
        check_targets = a.check_targets ++ t ∷ [];
        pairs =
            a.pairs ++ record { target = t; succeeded = false; use_candidate_sent = false } ∷ [];
      }
    ]

-- A round of GenerateLocalCandidates.
unfoldable pub local_candidates : List ℕ → ℤ → ℕ → ℕ → List (List ℕ) → List ParsedIceCandidate
local_candidates ufrag port counter lp [] = []
local_candidates ufrag port counter lp (ip ∷ ips) =
    record new_candidate {
      foundation = b'r' ∷ b'l' ∷ number (u32 (counter + 1));
      component_id = pos 1;
      transport = b'u' ∷ b'd' ∷ b'p' ∷ [];
      priority = make_priority 0 lp 1;
      ip = ip;
      port = port;
      type = relay;
      ufrag = ufrag;
      network_id = pos 1;
      network_cost = pos 50;
      generation = pos 0;
    }
    ∷ local_candidates ufrag port (u32 (counter + 1)) (if ltb 1024 lp then lp - 1024 else 1) ips

unfoldable pub generate_local_candidates :
    List (List ℕ) → ℤ → IceAgent → List ParsedIceCandidate × IceAgent
generate_local_candidates ips port a = (
  local_candidates a.local_ufrag port a.priority_counter 65535 ips,
  record a { priority_counter = u32 (a.priority_counter + length ips) },
)

-- ===== src/IceAgent/Checks.antt =====
-- The connectivity checks of src/voip/src/application/ice_agent.cpp: the requests and responses that the agent
-- builds, and what it makes of those that arrive.
use vianium_voip.Common.{
  ℕ, zero, suc, ◌+◌, ◌-◌, ◌%◌, ◌^◌, List, [], ◌∷◌, ◌++◌, Bool, true, not, ◌&&◌, ltb, ◌==◌,
  if◌then◌else◌, Option, none, some, length, replicate,
}
use vianium_voip.Common.Int.{ℤ, pos, negsuc}
use vianium_voip.Text.{strtoul}
use vianium_voip.Stun.{
  HmacSha1, StunMessage, new_message, stun_binding_request, stun_binding_response,
}
use vianium_voip.Stun.Encode.{encode}
use vianium_voip.Stun.Decode.{decode, verify_message_integrity}
use vianium_voip.IceAgent.{
  IceCheckTarget, Pair, IceAgent, ProcessResult, is_controlling, make_priority, random_bytes,
  find_pair, set_succeeded, other, binding_request_processed, binding_response_processed,
  connectivity_established,
}

unfoldable pub random_transaction_id : List ℕ → List ℕ
unfolding random_bytes
random_transaction_id arr =
    let r = random_bytes 12 arr in if length r == 12 then r else replicate 12 0

unfoldable pub binding_request : IceAgent → List ℕ → Bool → StunMessage
binding_request a random use_candidate = record new_message {
  message_type = stun_binding_request;
  transaction_id = random_transaction_id random;
  username = a.remote_ufrag ++ b':' ∷ a.local_ufrag;
  has_priority = true;
  priority = make_priority 110 65535 1;
  has_ice_controlling = is_controlling a.role;
  ice_controlling_tie_break = if is_controlling a.role then a.tie_break else 0;
  has_ice_controlled = not (is_controlling a.role);
  ice_controlled_tie_break = if is_controlling a.role then 0 else a.tie_break;
  use_candidate = use_candidate;
}

unfoldable pub expect_dot : List ℕ → Option (List ℕ)
expect_dot [] = none
expect_dot (c ∷ cs) = if c == b'.' then some cs else none

-- `sscanf(text, "%u.%u…")` with so many conversions: the numbers, if all of them are there.
unfoldable pub scan_dotted : ℕ → List ℕ → Option (List ℕ)
scan_dotted zero text = some []
scan_dotted (suc zero) text = elim (strtoul text) [ none ↦ none | some (v, rest) ↦ some (v ∷ []) ]
scan_dotted (suc (suc more)) text = elim (strtoul text) [
  | none ↦ none
  | some (v, rest) ↦ elim (expect_dot rest) [
    | none ↦ none
    | some next ↦ elim (scan_dotted (suc more) next) [ none ↦ none | some vs ↦ some (v ∷ vs) ]
  ]
]

abbrev pub int_u16 : ℤ → ℕ
int_u16 (pos n) = n % 2 ^ 16
int_u16 (negsuc n) = 2 ^ 16 - 1 - n % 2 ^ 16

-- The four bytes of the source's address, if it is a dotted quad.
unfoldable pub mapped_response : List ℕ → ℤ → Option (List ℕ) → StunMessage
mapped_response transaction_id port (some (b0 ∷ b1 ∷ b2 ∷ b3 ∷ [])) =
    let resp = record new_message {
      message_type = stun_binding_response;
      transaction_id = transaction_id;
    } in
    if ltb b0 256 && ltb b1 256 && ltb b2 256 && ltb b3 256
    then record resp {
      has_mapped_address = true;
      mapped_family = 1;
      mapped_address = b0 ∷ b1 ∷ b2 ∷ b3 ∷ replicate 12 0;
      mapped_port = int_u16 port;
    }
    else resp
mapped_response transaction_id port _ = record new_message {
  message_type = stun_binding_response;
  transaction_id = transaction_id;
}

unfoldable pub binding_response : StunMessage → List ℕ → ℤ → StunMessage
binding_response req src_ip src_port =
    mapped_response req.transaction_id src_port (scan_dotted 4 src_ip)

module _ (hmac : HmacSha1) where
  unfoldable pub build_binding_request : IceAgent → List ℕ → Bool → List ℕ
  build_binding_request a random use_candidate =
      encode hmac (binding_request a random use_candidate) a.remote_pwd

  unfoldable pub build_binding_response : IceAgent → StunMessage → List ℕ → ℤ → List ℕ
  build_binding_response a req src_ip src_port =
      encode hmac (binding_response req src_ip src_port) a.local_pwd

  -- The loop over the pairs: the pairs after it, and what is to be sent.
  unfoldable pub send_requests :
      IceAgent → (ℕ → List ℕ) → ℕ → List Pair → List Pair × List (IceCheckTarget × List ℕ)
  send_requests a random i [] = ([], [])
  send_requests a random i (p ∷ ps) =
      let use_candidate = is_controlling a.role && (p.succeeded && not p.use_candidate_sent) in
      let bytes = build_binding_request a (random i) use_candidate in
      let p' = if use_candidate then record p { use_candidate_sent = true } else p in
      let rest = send_requests a random (i + 1) ps in (p' ∷ rest.0, (p.target, bytes) ∷ rest.1)

  unfoldable pub get_binding_requests_to_send :
      (ℕ → List ℕ) → IceAgent → List (IceCheckTarget × List ℕ) × IceAgent
  get_binding_requests_to_send random a =
      let sent = send_requests a random 0 a.pairs in (sent.1, record a { pairs = sent.0 })

  -- A request with a code that holds: the response, and the pair of its source.
  unfoldable pub process_request :
      List ℕ → ℤ → StunMessage → IceAgent → ProcessResult × List ℕ × IceAgent
  process_request src_ip src_port msg a =
      let response = build_binding_response a msg src_ip src_port in
      let reached = record a { pairs = set_succeeded src_ip src_port a.pairs } in
      elim (find_pair src_ip src_port a.pairs) [
        | none ↦ (binding_request_processed, response, a)
        | some p ↦
            if msg.use_candidate && (not (is_controlling a.role) && not a.connected)
            then (
              connectivity_established,
              response,
              record reached { connected = true; selected = p.target },
            )
            else (binding_request_processed, response, reached)
      ]

  unfoldable pub process_response : List ℕ → ℤ → IceAgent → ProcessResult × List ℕ × IceAgent
  process_response src_ip src_port a =
      let reached = record a { pairs = set_succeeded src_ip src_port a.pairs } in
      elim (find_pair src_ip src_port a.pairs) [
        | none ↦ (other, [], a)
        | some p ↦
            if is_controlling a.role && not a.connected
            then (
              connectivity_established,
              [],
              record reached { connected = true; selected = p.target },
            )
            else (if p.succeeded then other else binding_response_processed, [], reached)
      ]

  -- The result, the response and the agent after it.
  unfoldable pub process_incoming :
      List ℕ → ℤ → List ℕ → IceAgent → ProcessResult × List ℕ × IceAgent
  process_incoming src_ip src_port bytes a = elim (decode bytes) [
    | none ↦ (other, [], a)
    | some msg ↦
        if msg.message_type == stun_binding_request
        then if verify_message_integrity hmac bytes a.local_pwd
          then process_request src_ip src_port msg a
          else (other, [], a)
        else if msg.message_type == stun_binding_response
        then if verify_message_integrity hmac bytes a.remote_pwd
          then process_response src_ip src_port a
          else (other, [], a)
        else (other, [], a)
  ]

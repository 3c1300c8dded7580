-- ===== src/IceAgent/Messages.antt =====
-- The requests and responses of src/voip/src/application/ice_agent.cpp as the other agent receives them.
use vianium_voip.Common.{
  ℕ, ◌+◌, ◌^◌, ◌≤◌, ◌<◌, ◌≡◌, refl, sym, ap, ◌∙◌, List, [], ◌∷◌, Bool, true, false, ◌&&◌, ltb, ◌==◌,
  ==_iff, length, Option, none, some, arith, length-append, Bool-cases, inl, inr,
}
use vianium_voip.Common.Int.{ℤ, pos, negsuc}
use vianium_voip.Stun.{
  HmacSha1, StunMessage, new_message, stun_binding_request, stun_binding_response,
}
use vianium_voip.Stun.Encode.{encode}
use vianium_voip.Stun.Decode.{verify_message_integrity}
use vianium_voip.Stun.Spec.{IsSendable, on_wire}
use vianium_voip.Stun.RoundTrip.{decode-encode_stun}
use vianium_voip.Stun.Protected.{verify-encode}
use vianium_voip.IceAgent.{IceAgent, make_priority, random_bytes}
use vianium_voip.IceAgent.Checks.{
  random_transaction_id, binding_request, mapped_response, binding_response, scan_dotted, int_u16,
  build_binding_request, build_binding_response, process_request, process_response,
  process_incoming,
}

pub length-random_transaction_id : (arr : List ℕ) → length (random_transaction_id arr) ≡ 12
unfolding random_transaction_id
length-random_transaction_id arr = elim (Bool-cases (length (random_bytes 12 arr) == 12)) [
  | inl whole ↦ rw whole ((==_iff _ 12).0 whole)
  | inr other ↦ rw other refl
]

request_priority : make_priority 110 65535 1 < 2 ^ 32
unfolding make_priority
request_priority = omega arith

-- The agent's user names and its tie breaker have the sizes that a message can hold.
pub record IsSized (a : IceAgent) : Type 0 where
  pub ufrags : length a.remote_ufrag + length a.local_ufrag ≤ 65399
  pub tie_break_fits : a.tie_break < 2 ^ 64

pub request-IsSendable :
    (a : IceAgent) (random : List ℕ) (use_candidate : Bool)
    → IsSized a
    → IsSendable (binding_request a random use_candidate)
unfolding binding_request
request-IsSendable a random use_candidate s = record {
  type_fits = omega arith;
  transaction_size = length-random_transaction_id random;
  username_size = omega (arith, s.ufrags, length-append a.remote_ufrag (b':' ∷ a.local_ufrag));
  priority_fits = request_priority;
  controlling_fits = ground (arith, s.tie_break_fits);
  controlled_fits = ground (arith, s.tie_break_fits);
  address_size = refl;
  address_bytes = omega arith;
  port_fits = omega arith;
}

int_u16_bound : (z : ℤ) → int_u16 z < 2 ^ 16
int_u16_bound (pos n) = omega arith
int_u16_bound (negsuc n) = omega arith

-- A response without an address.
plain :
    (id : List ℕ)
    → length id ≡ 12
    → IsSendable (record new_message { message_type = stun_binding_response; transaction_id = id })
plain id h = record {
  type_fits = omega arith;
  transaction_size = h;
  username_size = omega arith;
  priority_fits = omega arith;
  controlling_fits = omega arith;
  controlled_fits = omega arith;
  address_size = refl;
  address_bytes = omega arith;
  port_fits = omega arith;
}

mapped-IsSendable :
    (id : List ℕ) (port : ℤ) (quad : Option (List ℕ))
    → length id ≡ 12
    → IsSendable (mapped_response id port quad)
unfolding mapped_response
mapped-IsSendable id port (some (b0 ∷ b1 ∷ b2 ∷ b3 ∷ [])) h =
    elim (Bool-cases (ltb b0 256 && ltb b1 256 && ltb b2 256 && ltb b3 256)) [
      | inl fit ↦ rw fit (record {
        type_fits = omega arith;
        transaction_size = h;
        username_size = omega arith;
        priority_fits = omega arith;
        controlling_fits = omega arith;
        controlled_fits = omega arith;
        address_size = refl;
        address_bytes = ground (arith, fit);
        port_fits = int_u16_bound port;
      })
      | inr unfit ↦ rw unfit (plain id h)
    ]
mapped-IsSendable id port (some (b0 ∷ b1 ∷ b2 ∷ b3 ∷ b4 ∷ more)) h = plain id h
mapped-IsSendable id port (some (b0 ∷ b1 ∷ b2 ∷ [])) h = plain id h
mapped-IsSendable id port (some (b0 ∷ b1 ∷ [])) h = plain id h
mapped-IsSendable id port (some (b0 ∷ [])) h = plain id h
mapped-IsSendable id port (some []) h = plain id h
mapped-IsSendable id port none h = plain id h

pub response-IsSendable :
    (msg : StunMessage) (ip : List ℕ) (port : ℤ)
    → length msg.transaction_id ≡ 12
    → IsSendable (binding_response msg ip port)
unfolding binding_response
response-IsSendable msg ip port h = mapped-IsSendable msg.transaction_id port (scan_dotted 4 ip) h

mapped_type :
    (id : List ℕ) (port : ℤ) (quad : Option (List ℕ))
    → (mapped_response id port quad).message_type ≡ stun_binding_response
unfolding mapped_response
mapped_type id port (some (b0 ∷ b1 ∷ b2 ∷ b3 ∷ [])) = ground arith
mapped_type id port (some (b0 ∷ b1 ∷ b2 ∷ b3 ∷ b4 ∷ more)) = refl
mapped_type id port (some (b0 ∷ b1 ∷ b2 ∷ [])) = refl
mapped_type id port (some (b0 ∷ b1 ∷ [])) = refl
mapped_type id port (some (b0 ∷ [])) = refl
mapped_type id port (some []) = refl
mapped_type id port none = refl

response_type :
    (msg : StunMessage) (src : List ℕ) (src_port : ℤ)
    → (binding_response msg src src_port).message_type ≡ stun_binding_response
unfolding binding_response
response_type msg src src_port = mapped_type msg.transaction_id src_port (scan_dotted 4 src)

module _ (hmac : HmacSha1) (a b : IceAgent) (ip : List ℕ) (port : ℤ) where
  -- A request that is signed with the receiver's password is processed as one.
  pub request_received :
      (random : List ℕ) (use_candidate : Bool)
      → IsSized a
      → a.remote_pwd ≡ b.local_pwd
      → 0 < length a.remote_pwd
      → process_incoming hmac ip port (build_binding_request hmac a random use_candidate) b
        ≡ process_request hmac ip port
            (on_wire hmac (binding_request a random use_candidate) a.remote_pwd)
            b
  unfolding process_incoming build_binding_request
  request_received random use_candidate s same keyed =
      rw
        (
          decode-encode_stun hmac (binding_request a random use_candidate) a.remote_pwd sendable,
          process_incoming,
        )
        (rw (is_request, verified) refl)
    where
      sendable : IsSendable (binding_request a random use_candidate)
      sendable = request-IsSendable a random use_candidate s

      is_request :
          ((on_wire hmac (binding_request a random use_candidate) a.remote_pwd).message_type
            == stun_binding_request)
          ≡ true
      is_request = unfold on_wire binding_request in refl

      verified :
          verify_message_integrity hmac
            (encode hmac (binding_request a random use_candidate) a.remote_pwd)
            b.local_pwd
          ≡ true
      verified =
          ap
            (verify_message_integrity hmac
              (encode hmac (binding_request a random use_candidate) a.remote_pwd))
            (sym same)
          ∙ (verify-encode hmac (binding_request a random use_candidate) a.remote_pwd sendable
              keyed).0

  -- A response that is signed with the password of the other side is processed as one.
  pub response_received :
      (msg : StunMessage) (src : List ℕ) (src_port : ℤ)
      → length msg.transaction_id ≡ 12
      → b.local_pwd ≡ a.remote_pwd
      → 0 < length b.local_pwd
      → process_incoming hmac ip port (build_binding_response hmac b msg src src_port) a
        ≡ process_response hmac ip port a
  unfolding process_incoming build_binding_response
  response_received msg src src_port h same keyed =
      rw
        (
          decode-encode_stun hmac (binding_response msg src src_port) b.local_pwd sendable,
          process_incoming,
        )
        (rw (no_request, is_response, verified) refl)
    where
      sendable : IsSendable (binding_response msg src src_port)
      sendable = response-IsSendable msg src src_port h

      type :
          (on_wire hmac (binding_response msg src src_port) b.local_pwd).message_type
          ≡ stun_binding_response
      type = unfold on_wire in response_type msg src src_port

      no_request :
          ((on_wire hmac (binding_response msg src src_port) b.local_pwd).message_type
            == stun_binding_request)
          ≡ false
      no_request = rw type refl

      is_response :
          ((on_wire hmac (binding_response msg src src_port) b.local_pwd).message_type
            == stun_binding_response)
          ≡ true
      is_response = rw type refl

      verified :
          verify_message_integrity hmac
            (encode hmac (binding_response msg src src_port) b.local_pwd)
            a.remote_pwd
          ≡ true
      verified =
          ap
            (verify_message_integrity hmac
              (encode hmac (binding_response msg src src_port) b.local_pwd))
            (sym same)
          ∙ (verify-encode hmac (binding_response msg src src_port) b.local_pwd sendable keyed).0

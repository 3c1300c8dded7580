-- ===== src/IceAgent/Steps.antt =====
-- The runs of an agent of src/voip/src/application/ice_agent.cpp, and what no step takes back.
use vianium_voip.Common.{subst}
use vianium_voip.Common.{
  ℕ, ◌≡◌, refl, sym, List, true, false, not, ◌&&◌, ◌==◌, some, arith, Bool-cases, Option-cases, ◌⊎◌,
  inl, inr,
}
use vianium_voip.Common.Int.{ℤ}
use vianium_voip.Stun.{HmacSha1, StunMessage, stun_binding_request, stun_binding_response}
use vianium_voip.Stun.Decode.{decode, verify_message_integrity}
use vianium_voip.IceCandidate.{ParsedIceCandidate}
use vianium_voip.IceAgent.{
  Pair, IceAgent, is_controlling, find_pair, set_succeeded, add_remote_candidate,
  generate_local_candidates,
}
use vianium_voip.IceAgent.Checks.{
  get_binding_requests_to_send, process_request, process_response, process_incoming,
}
use vianium_voip.IceAgent.Pairs.{
  Keeps, Keeps-self, Keeps-append, Keeps-set_succeeded, Keeps-send_requests,
}

module _ (hmac : HmacSha1) where
  -- What the owner of the agent does with it, and what arrives from the network.
  pub data Step (a : IceAgent) (b : IceAgent) : Type 0 where
    add : (c : ParsedIceCandidate) → b ≡ add_remote_candidate c a → Step a b
    announce :
        (ips : List (List ℕ)) (port : ℤ) → b ≡ (generate_local_candidates ips port a).1 → Step a b
    send : (random : ℕ → List ℕ) → b ≡ (get_binding_requests_to_send hmac random a).1 → Step a b
    receive :
        (ip : List ℕ) (port : ℤ) (bytes : List ℕ)
        → b ≡ (process_incoming hmac ip port bytes a).2
        → Step a b

  pub data Reach (a : IceAgent) : IceAgent → Type 0 where
    here : Reach a a
    next : {b c : IceAgent} → Reach a b → Step b c → Reach a c

  -- What a step leaves: the side, the pairs with their marks and, once connected, the selection.
  pub record IsKept (a b : IceAgent) : Type 0 where
    pub role : b.role ≡ a.role
    pub pairs : Keeps a.pairs b.pairs
    pub selection : (a.connected ≡ false) ⊎ ((b.connected ≡ true) × (b.selected ≡ a.selected))

  -- A step that marks a pair and, if the agent was not connected, may select it.
  abbrev pub reached : List ℕ → ℤ → IceAgent → IceAgent
  reached ip port a = record a { pairs = set_succeeded ip port a.pairs }

  abbrev pub chosen : List ℕ → ℤ → Pair → IceAgent → IceAgent
  chosen ip port p a = record a {
    pairs = set_succeeded ip port a.pairs;
    connected = true;
    selected = p.target;
  }

  pub data Outcome (ip : List ℕ) (port : ℤ) (a : IceAgent) (b : IceAgent) : Type 0 where
    unchanged : b ≡ a → Outcome ip port a b
    marked : b ≡ reached ip port a → Outcome ip port a b
    selecting :
        (p : Pair)
        → find_pair ip port a.pairs ≡ some p
        → a.connected ≡ false
        → b ≡ chosen ip port p a
        → Outcome ip port a b

  request-Outcome :
      (ip : List ℕ) (port : ℤ) (msg : StunMessage) (a : IceAgent)
      → Outcome ip port a (process_request hmac ip port msg a).2
  unfolding process_request
  request-Outcome ip port msg a = elim (Option-cases (find_pair ip port a.pairs)) [
    | inl none_known ↦ unchanged (rw (none_known, process_request) refl)
    | inr (p, known) ↦
        elim (Bool-cases (msg.use_candidate && (not (is_controlling a.role) && not a.connected))) [
          | inl now ↦
              selecting p known (ground (arith, now)) (rw (known, process_request, now) refl)
          | inr no_more ↦ marked (rw (known, process_request, no_more) refl)
        ]
  ]

  response-Outcome :
      (ip : List ℕ) (port : ℤ) (a : IceAgent)
      → Outcome ip port a (process_response hmac ip port a).2
  unfolding process_response
  response-Outcome ip port a = elim (Option-cases (find_pair ip port a.pairs)) [
    | inl none_known ↦ unchanged (rw (none_known, process_response) refl)
    | inr (p, known) ↦ elim (Bool-cases (is_controlling a.role && not a.connected)) [
      | inl now ↦ selecting p known (ground (arith, now)) (rw (known, process_response, now) refl)
      | inr no_more ↦ marked (rw (known, process_response, no_more) refl)
    ]
  ]

  pub incoming-Outcome :
      (ip : List ℕ) (port : ℤ) (bytes : List ℕ) (a : IceAgent)
      → Outcome ip port a (process_incoming hmac ip port bytes a).2
  unfolding process_incoming
  incoming-Outcome ip port bytes a = elim (Option-cases (decode bytes)) [
    | inl broken ↦ unchanged (rw (broken, process_incoming) refl)
    | inr (msg, read) ↦ elim (Bool-cases (msg.message_type == stun_binding_request)) [
      | inl request ↦ elim (Bool-cases (verify_message_integrity hmac bytes a.local_pwd)) [
        | inl verified ↦
            subst (Outcome ip port a) (rw (read, process_incoming, request, verified) refl)
              (request-Outcome ip port msg a)
        | inr forged ↦ unchanged (rw (read, process_incoming, request, forged) refl)
      ]
      | inr no_request ↦ elim (Bool-cases (msg.message_type == stun_binding_response)) [
        | inl response ↦ elim (Bool-cases (verify_message_integrity hmac bytes a.remote_pwd)) [
          | inl verified ↦
              subst (Outcome ip port a)
                (rw (read, process_incoming, no_request, response, verified) refl)
                (response-Outcome ip port a)
          | inr forged ↦ unchanged (rw (read, process_incoming, no_request, response, forged) refl)
        ]
        | inr neither ↦ unchanged (rw (read, process_incoming, no_request, neither) refl)
      ]
    ]
  ]

  Outcome-IsKept : (ip : List ℕ) (port : ℤ) (a b : IceAgent) → Outcome ip port a b → IsKept a b
  Outcome-IsKept ip port a b (unchanged e) =
      rw e (record { role = refl; pairs = Keeps-self a.pairs; selection = ground arith })
  Outcome-IsKept ip port a b (marked e) = rw e (record {
    role = refl;
    pairs = Keeps-set_succeeded ip port a.pairs;
    selection = ground arith;
  })
  Outcome-IsKept ip port a b (selecting p known free e) =
      rw e
        (record { role = refl; pairs = Keeps-set_succeeded ip port a.pairs; selection = inl free })

  added : (c : ParsedIceCandidate) (a : IceAgent) → IsKept a (add_remote_candidate c a)
  unfolding add_remote_candidate
  added c a = elim (Option-cases (find_pair c.ip c.port a.pairs)) [
    | inl fresh ↦
        rw (fresh, add_remote_candidate)
          (record { role = refl; pairs = Keeps-append a.pairs _; selection = ground arith })
    | inr (p, known) ↦
        rw (known, add_remote_candidate)
          (record { role = refl; pairs = Keeps-self a.pairs; selection = ground arith })
  ]

  pub Step-IsKept : (a b : IceAgent) → Step a b → IsKept a b
  unfolding generate_local_candidates get_binding_requests_to_send
  Step-IsKept a b (add c e) = rw e (added c a)
  Step-IsKept a b (announce ips port e) =
      rw e (record { role = refl; pairs = Keeps-self a.pairs; selection = ground arith })
  Step-IsKept a b (send random e) = rw e (record {
    role = refl;
    pairs = Keeps-send_requests hmac a random 0 a.pairs;
    selection = ground arith;
  })
  Step-IsKept a b (receive ip port bytes e) =
      Outcome-IsKept ip port a b
        (subst (Outcome ip port a) (sym e) (incoming-Outcome ip port bytes a))

  -- A selection is final. Once the agent is connected, no run of its operations, whatever the network
  -- delivers, disconnects it or selects another target.
  pub selection_is_final :
      {a b : IceAgent}
      → Reach a b
      → a.connected ≡ true
      → (b.connected ≡ true) × (b.selected ≡ a.selected)
  selection_is_final here h = (h, refl)
  selection_is_final {a} {b} (next {b = m} r s) h =
      let before = selection_is_final r h in
      let kept = Step-IsKept m b s in ground (arith, before.0, before.1, kept.selection)

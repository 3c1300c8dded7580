-- ===== src/IceAgent/Handshake.antt =====
-- Two agents of src/voip/src/application/ice_agent.cpp against one another: the connectivity check of a
-- controlling and a controlled side whose datagrams arrive.
use vianium_voip.Common.{
  ℕ, ◌<◌, ◌≡◌, refl, sym, ap, ap₂, ◌∙◌, List, [], ◌∷◌, Bool, true, false, not, ◌&&◌, if◌then◌else◌,
  length, some, arith,
}
use vianium_voip.Common.Int.{ℤ}
use vianium_voip.Stun.{HmacSha1, StunMessage}
use vianium_voip.Stun.Spec.{on_wire}
use vianium_voip.IceAgent.{
  ProcessResult, controlling, controlled, IceCheckTarget, Pair, IceAgent, is_controlling, find_pair,
  set_succeeded,
}
use vianium_voip.IceAgent.Checks.{
  binding_request, build_binding_request, build_binding_response, send_requests,
  get_binding_requests_to_send, process_request, process_response, process_incoming,
}
use vianium_voip.IceAgent.Pairs.{same_target_self, find-set_succeeded}
use vianium_voip.IceAgent.Messages.{
  IsSized, length-random_transaction_id, request_received, response_received,
}

-- The bytes of the request to the first target.
abbrev pub head_bytes : List (IceCheckTarget × List ℕ) → List ℕ
head_bytes [] = []
head_bytes (s ∷ more) = s.1

module _ (hmac : HmacSha1) (ip_a : List ℕ) (port_a : ℤ) where
  -- The controlling side sends its requests; the first arrives, from its address, and the answer
  -- arrives from the target.
  unfoldable pub exchange :
      (ℕ → List ℕ) → IceCheckTarget → IceAgent × IceAgent → IceAgent × IceAgent
  exchange random target (a, b) =
      let sent = get_binding_requests_to_send hmac random a in
      let answered = process_incoming hmac ip_a port_a (head_bytes sent.0) b in
      let back = process_incoming hmac target.ip target.port answered.1 sent.1 in
      (back.2, answered.2)

  -- The two sides know one another and share the password of the controlled side.
  pub record IsPaired (a b : IceAgent) (p : Pair) (more : List Pair) (q : Pair) : Type 0 where
    pub sides : (a.role ≡ controlling) × (b.role ≡ controlled)
    pub first : a.pairs ≡ p ∷ more
    pub known : find_pair ip_a port_a b.pairs ≡ some q
    pub shared : (a.remote_pwd ≡ b.local_pwd) × (0 < length a.remote_pwd)
    pub sized : IsSized a

  -- What the controlled side makes of a request.
  answer :
      (a b : IceAgent) (p : Pair) (more : List Pair) (q : Pair) (random : List ℕ)
      (use_candidate : Bool)
      → IsPaired a b p more q
      → b.connected ≡ false
      → (msg : StunMessage) × (length msg.transaction_id ≡ 12)
        × ((process_incoming hmac ip_a port_a
              (build_binding_request hmac a random use_candidate)
              b).1
            ≡ build_binding_response hmac b msg ip_a port_a)
        × ((process_incoming hmac ip_a port_a
              (build_binding_request hmac a random use_candidate)
              b).2
            ≡ (if use_candidate
                then record b {
                  pairs = set_succeeded ip_a port_a b.pairs;
                  connected = true;
                  selected = q.target;
                }
                else record b { pairs = set_succeeded ip_a port_a b.pairs }))
  answer a b p more q random use_candidate h free = (msg, whole_id, responded, after)
    where
      msg : StunMessage
      msg = on_wire hmac (binding_request a random use_candidate) a.remote_pwd

      whole_id : length msg.transaction_id ≡ 12
      whole_id = unfold on_wire binding_request in length-random_transaction_id random

      got :
          process_incoming hmac ip_a port_a (build_binding_request hmac a random use_candidate) b
          ≡ process_request hmac ip_a port_a msg b
      got = request_received hmac a b ip_a port_a random use_candidate h.sized h.shared.0 h.shared.1

      nomination : msg.use_candidate ≡ use_candidate
      nomination = unfold on_wire binding_request in refl

      responded :
          (process_incoming hmac ip_a port_a
            (build_binding_request hmac a random use_candidate)
            b).1
          ≡ build_binding_response hmac b msg ip_a port_a
      responded = rw got (unfold process_request in ground (arith, h.known))

      after :
          (process_incoming hmac ip_a port_a
            (build_binding_request hmac a random use_candidate)
            b).2
          ≡ (if use_candidate
              then record b {
                pairs = set_succeeded ip_a port_a b.pairs;
                connected = true;
                selected = q.target;
              }
              else record b { pairs = set_succeeded ip_a port_a b.pairs })
      after =
          rw got (unfold process_request in ground (arith, h.known, h.sides.1, free, nomination))

  abbrev nominates : IceAgent → Pair → Bool
  nominates a p = is_controlling a.role && (p.succeeded && not p.use_candidate_sent)

  abbrev sent_pair : IceAgent → Pair → Pair
  sent_pair a p = if nominates a p then record p { use_candidate_sent = true } else p

  abbrev sent_agent : (ℕ → List ℕ) → IceAgent → Pair → List Pair → IceAgent
  sent_agent random a p more = record a {
    pairs = sent_pair a p ∷ (send_requests hmac a random 1 more).0;
  }

  sends :
      (random : ℕ → List ℕ) (a : IceAgent) (p : Pair) (more : List Pair)
      → a.pairs ≡ p ∷ more
      → (head_bytes (get_binding_requests_to_send hmac random a).0
          ≡ build_binding_request hmac a (random 0) (nominates a p))
        × ((get_binding_requests_to_send hmac random a).1 ≡ sent_agent random a p more)
  sends random a p more e = (
    (unfold get_binding_requests_to_send in rw e (unfold send_requests in refl)),
    (unfold get_binding_requests_to_send in
        ap (λ (ps : List Pair). record a { pairs = (send_requests hmac a random 0 ps).0 }) e
        ∙ (unfold send_requests in refl)),
  )

  -- The first response that arrives selects.
  selects_lem :
      (a : IceAgent) (p : Pair) (rest : List Pair)
      → a.role ≡ controlling
      → a.connected ≡ false
      → (process_response hmac p.target.ip p.target.port (record a { pairs = p ∷ rest })).2
        ≡ record a {
          pairs = record p { succeeded = true } ∷ rest;
          connected = true;
          selected = p.target;
        }
  unfolding process_response find_pair set_succeeded
  selects_lem a p rest side idle = ground (arith, side, idle, same_target_self p.target)

  module _ (random : ℕ → List ℕ) (a b : IceAgent) (p : Pair) (more : List Pair) (q : Pair)
      (h : IsPaired a b p more q) (free : b.connected ≡ false) where
    abbrev a' : IceAgent
    a' = sent_agent random a p more

    -- An exchange, with what each side has received.
    exchange_lem : exchange random p.target (a, b) ≡ (
      (process_response hmac p.target.ip p.target.port a').2,
      if nominates a p
          then record b {
            pairs = set_succeeded ip_a port_a b.pairs;
            connected = true;
            selected = q.target;
          }
          else record b { pairs = set_succeeded ip_a port_a b.pairs },
    )
    unfolding exchange
    exchange_lem = ap₂ (λ (x y : IceAgent). (x, y)) back answered
      where
        sent :
            (head_bytes (get_binding_requests_to_send hmac random a).0
              ≡ build_binding_request hmac a (random 0) (nominates a p))
            × ((get_binding_requests_to_send hmac random a).1 ≡ a')
        sent = sends random a p more h.first

        got :
            (msg : StunMessage) × (length msg.transaction_id ≡ 12)
            × ((process_incoming hmac ip_a port_a
                  (build_binding_request hmac a (random 0) (nominates a p))
                  b).1
                ≡ build_binding_response hmac b msg ip_a port_a)
            × ((process_incoming hmac ip_a port_a
                  (build_binding_request hmac a (random 0) (nominates a p))
                  b).2
                ≡ (if nominates a p
                    then record b {
                      pairs = set_succeeded ip_a port_a b.pairs;
                      connected = true;
                      selected = q.target;
                    }
                    else record b { pairs = set_succeeded ip_a port_a b.pairs }))
        got = answer a b p more q (random 0) (nominates a p) h free

        answered :
            (process_incoming hmac ip_a port_a
              (head_bytes (get_binding_requests_to_send hmac random a).0)
              b).2
            ≡ (if nominates a p
                then record b {
                  pairs = set_succeeded ip_a port_a b.pairs;
                  connected = true;
                  selected = q.target;
                }
                else record b { pairs = set_succeeded ip_a port_a b.pairs })
        answered = ap (λ (l : List ℕ). (process_incoming hmac ip_a port_a l b).2) sent.0 ∙ got.3

        back :
            (process_incoming hmac p.target.ip p.target.port
              (process_incoming hmac ip_a port_a
                (head_bytes (get_binding_requests_to_send hmac random a).0)
                b).1
              (get_binding_requests_to_send hmac random a).1).2
            ≡ (process_response hmac p.target.ip p.target.port a').2
        back =
            ap₂
              (λ (l : List ℕ) (x : IceAgent).
                (process_incoming hmac p.target.ip p.target.port l x).2)
              (ap (λ (l : List ℕ). (process_incoming hmac ip_a port_a l b).1) sent.0 ∙ got.2) sent.1
            ∙ ap (λ (r : ProcessResult × List ℕ × IceAgent). r.2)
                (response_received hmac a' b p.target.ip p.target.port got.0 ip_a port_a got.1
                  (sym h.shared.0) (rw (sym h.shared.0) h.shared.1))

    abbrev rest : List Pair
    rest = (send_requests hmac a random 1 more).0

    abbrev a1 : IceAgent
    a1 = record a {
      pairs = record p { succeeded = true } ∷ (send_requests hmac a random 1 more).0;
      connected = true;
      selected = p.target;
    }

    abbrev b1 : IceAgent
    b1 = record b { pairs = set_succeeded ip_a port_a b.pairs }

    -- The first exchange, before the pair has succeeded, connects the controlling side.
    first_exchange :
        p.succeeded ≡ false → a.connected ≡ false → exchange random p.target (a, b) ≡ (a1, b1)
    first_exchange fresh idle =
        exchange_lem ∙ ap₂ (λ (x y : IceAgent). (x, y)) selects (rw quiet refl)
      where
        quiet : nominates a p ≡ false
        quiet = ground (arith, fresh)

        selects : (process_response hmac p.target.ip p.target.port a').2 ≡ a1
        selects = rw quiet (selects_lem a p rest h.sides.0 idle)

    IsPaired-again :
        IsPaired a1 b1 (record p { succeeded = true }) rest (record q { succeeded = true })
    IsPaired-again = record {
      sides = h.sides;
      first = refl;
      known = find-set_succeeded ip_a port_a b.pairs q h.known;
      shared = h.shared;
      sized = record { ufrags = h.sized.ufrags; tie_break_fits = h.sized.tie_break_fits };
    }

    still_connected :
        (ip : List ℕ) (port : ℤ) (c : IceAgent)
        → c.connected ≡ true
        → ((process_response hmac ip port c).2.connected ≡ true)
          × ((process_response hmac ip port c).2.selected ≡ c.selected)
    unfolding process_response
    still_connected ip port c on = ground (arith, on)

    -- The next one, once the pair has succeeded and was not nominated, connects the controlled side.
    second_exchange :
        p.succeeded ≡ true
        → p.use_candidate_sent ≡ false
        → a.connected ≡ true
        → ((exchange random p.target (a, b)).0.connected ≡ true)
          × ((exchange random p.target (a, b)).0.selected ≡ a.selected)
          × ((exchange random p.target (a, b)).1.connected ≡ true)
          × ((exchange random p.target (a, b)).1.selected ≡ q.target)
    second_exchange ok unsent on = rw exchange_lem (
      (still_connected p.target.ip p.target.port a' on).0,
      (still_connected p.target.ip p.target.port a' on).1,
      rw now refl,
      rw now refl,
    )
      where
        now : nominates a p ≡ true
        now = ground (arith, ok, unsent, h.sides.0)

  -- The check succeeds where the datagrams arrive. Let the two sides have opposite roles and the same
  -- password of the controlled side, which is not empty, each with the other among its pairs, the pair
  -- of the controlling side first; let the controlling side's username, which is the two fragments
  -- with a colon, and its tie breaker fit their attributes; let neither side be connected and that
  -- pair be neither succeeded nor nominated. After two exchanges of requests and answers both are
  -- connected, each with the target of that pair selected.
  pub handshake :
      (random random' : ℕ → List ℕ) (a b : IceAgent) (p : Pair) (more : List Pair) (q : Pair)
      → IsPaired a b p more q
      → (a.connected ≡ false) × (b.connected ≡ false)
      → (p.succeeded ≡ false) × (p.use_candidate_sent ≡ false)
      → ((exchange random' p.target (exchange random p.target (a, b))).0.connected ≡ true)
        × ((exchange random' p.target (exchange random p.target (a, b))).0.selected ≡ p.target)
        × ((exchange random' p.target (exchange random p.target (a, b))).1.connected ≡ true)
        × ((exchange random' p.target (exchange random p.target (a, b))).1.selected ≡ q.target)
  handshake random random' a b p more q h idle fresh =
      rw (first_exchange random a b p more q h idle.1 fresh.0 idle.0) (
        second_exchange random' (a1 random a b p more q h idle.1) (b1 random a b p more q h idle.1)
          (record p { succeeded = true }) (rest random a b p more q h idle.1)
          (record q { succeeded = true }) (IsPaired-again random a b p more q h idle.1) idle.1 refl
          fresh.1 refl)

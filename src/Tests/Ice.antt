-- ===== src/Tests/Ice.antt =====
-- Two agents on concrete candidates.
use vianium_voip.Common.{ℕ, ◌≡◌, refl, List, [], ◌∷◌, true, false, arith, replicate, some}
use vianium_voip.Common.Int.{pos}
use vianium_voip.Bytes.Compare.{bytes_equal}
use vianium_voip.IceCandidate.{ParsedIceCandidate, new_candidate}
use vianium_voip.Tests.Stun.{toy}
use vianium_voip.IceAgent.{
  controlling, controlled, Pair, IceAgent, new_agent, add_remote_candidate, find_pair,
}
use vianium_voip.IceAgent.Checks.{get_binding_requests_to_send, build_binding_request}
use vianium_voip.IceAgent.Steps.{Reach, here, next, add, send, selection_is_final}
use vianium_voip.IceAgent.Invariant.{IsValid, reachable_agent-IsValid}
use vianium_voip.IceAgent.Handshake.{exchange, IsPaired, handshake}
use vianium_voip.IceAgent.Nomination.{request_to, nominated_once}

abbrev ip_a : List ℕ
ip_a = b'1' ∷ b'.' ∷ b'1' ∷ b'.' ∷ b'1' ∷ b'.' ∷ b'1' ∷ []

abbrev ip_b : List ℕ
ip_b = b'2' ∷ b'.' ∷ b'2' ∷ b'.' ∷ b'2' ∷ b'.' ∷ b'2' ∷ []

abbrev candidate_of : List ℕ → ℕ → ParsedIceCandidate
candidate_of ip port = record new_candidate { ip = ip; port = pos port }

abbrev pwd : List ℕ
pwd = b'p' ∷ b'w' ∷ []

abbrev caller_start : IceAgent
caller_start = new_agent (replicate 8 3) controlling (b'a' ∷ []) (b'x' ∷ []) (b'b' ∷ []) pwd

abbrev callee_start : IceAgent
callee_start = new_agent (replicate 8 4) controlled (b'b' ∷ []) pwd (b'a' ∷ []) (b'x' ∷ [])

abbrev fresh_pair : List ℕ → ℕ → Pair
fresh_pair ip port = record {
  target = record { ip = ip; port = pos port };
  succeeded = false;
  use_candidate_sent = false;
}

abbrev caller : IceAgent
caller = record caller_start {
  remote_candidates = candidate_of ip_b 2000 ∷ [];
  check_targets = record { ip = ip_b; port = pos 2000 } ∷ [];
  pairs = fresh_pair ip_b 2000 ∷ [];
}

abbrev callee : IceAgent
callee = record callee_start {
  remote_candidates = candidate_of ip_a 1000 ∷ [];
  check_targets = record { ip = ip_a; port = pos 1000 } ∷ [];
  pairs = fresh_pair ip_a 1000 ∷ [];
}

caller_lem : caller ≡ add_remote_candidate (candidate_of ip_b 2000) caller_start
unfolding new_agent add_remote_candidate find_pair
caller_lem = refl

reachable_agent-IsValid_example : IsValid caller
reachable_agent-IsValid_example =
    reachable_agent-IsValid toy (replicate 8 3) controlling (b'a' ∷ []) (b'x' ∷ []) (b'b' ∷ []) pwd
      (next here (add (candidate_of ip_b 2000) caller_lem))

abbrev connected_caller : IceAgent
connected_caller = record caller {
  pairs =
      record {
        target = record { ip = ip_b; port = pos 2000 };
        succeeded = true;
        use_candidate_sent = true;
      }
      ∷ [];
  connected = true;
  selected = record { ip = ip_b; port = pos 2000 };
}

abbrev ids : ℕ → List ℕ
ids n = replicate 12 n

-- The connected agent learns of a candidate and sends its requests again.
later :
    Reach toy connected_caller
      (get_binding_requests_to_send toy ids
        (add_remote_candidate (candidate_of ip_a 1) connected_caller)).1
later = next (next here (add (candidate_of ip_a 1) refl)) (send ids refl)

selection_is_final_example :
    ((get_binding_requests_to_send toy ids
        (add_remote_candidate (candidate_of ip_a 1) connected_caller)).1.connected
      ≡ true)
    × ((get_binding_requests_to_send toy ids
          (add_remote_candidate (candidate_of ip_a 1) connected_caller)).1.selected
        ≡ record { ip = ip_b; port = pos 2000 })
selection_is_final_example = selection_is_final toy later refl

found_lem :
    find_pair ip_b (pos 2000) connected_caller.pairs
    ≡ some (record {
      target = record { ip = ip_b; port = pos 2000 };
      succeeded = true;
      use_candidate_sent = true;
    })
unfolding find_pair bytes_equal
found_lem = refl

nominated_once_example :
    (k : ℕ) × (request_to ip_b
        (pos 2000)
        (get_binding_requests_to_send toy ids
          (get_binding_requests_to_send toy ids
            (add_remote_candidate (candidate_of ip_a 1) connected_caller)).1).0
      ≡ some (
          build_binding_request toy
            (get_binding_requests_to_send toy ids
              (add_remote_candidate (candidate_of ip_a 1) connected_caller)).1
            (ids k)
            false))
nominated_once_example = nominated_once toy ids ip_b (pos 2000) _ later found_lem refl

paired : IsPaired toy ip_a (pos 1000) caller callee (fresh_pair ip_b 2000) [] (fresh_pair ip_a 1000)
unfolding new_agent find_pair bytes_equal
paired = record {
  sides = (refl, refl);
  first = refl;
  known = refl;
  shared = (refl, omega arith);
  sized = record { ufrags = omega arith; tie_break_fits = omega arith };
}

handshake_example :
    ((exchange toy ip_a
        (pos 1000)
        ids
        (record { ip = ip_b; port = pos 2000 })
        (exchange toy ip_a
          (pos 1000)
          ids
          (record { ip = ip_b; port = pos 2000 })
          (caller, callee))).0.connected
      ≡ true)
    × ((exchange toy ip_a
          (pos 1000)
          ids
          (record { ip = ip_b; port = pos 2000 })
          (exchange toy ip_a
            (pos 1000)
            ids
            (record { ip = ip_b; port = pos 2000 })
            (caller, callee))).0.selected
        ≡ record { ip = ip_b; port = pos 2000 })
    × ((exchange toy ip_a
          (pos 1000)
          ids
          (record { ip = ip_b; port = pos 2000 })
          (exchange toy ip_a
            (pos 1000)
            ids
            (record { ip = ip_b; port = pos 2000 })
            (caller, callee))).1.connected
        ≡ true)
    × ((exchange toy ip_a
          (pos 1000)
          ids
          (record { ip = ip_b; port = pos 2000 })
          (exchange toy ip_a
            (pos 1000)
            ids
            (record { ip = ip_b; port = pos 2000 })
            (caller, callee))).1.selected
        ≡ record { ip = ip_a; port = pos 1000 })
unfolding new_agent
handshake_example =
    handshake toy ip_a (pos 1000) ids ids caller callee (fresh_pair ip_b 2000) []
      (fresh_pair ip_a 1000) paired (refl, refl) (refl, refl)

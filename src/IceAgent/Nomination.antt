-- ===== src/IceAgent/Nomination.antt =====
-- How often src/voip/src/application/ice_agent.cpp nominates a pair.
use vianium_voip.Common.{
  ℕ, ◌+◌, ◌≡◌, refl, List, [], ◌∷◌, true, false, not, ◌&&◌, if◌then◌else◌, Option, none, some,
  arith, Bool-cases, inl, inr,
}
use vianium_voip.Common.Int.{ℤ}
use vianium_voip.Stun.{HmacSha1}
use vianium_voip.IceAgent.{IceCheckTarget, Pair, IceAgent, is_controlling, is_target, find_pair}
use vianium_voip.IceAgent.Checks.{
  build_binding_request, send_requests, get_binding_requests_to_send,
}
use vianium_voip.IceAgent.Pairs.{same_target}
use vianium_voip.IceAgent.Steps.{Reach, here, next, Step-IsKept}

-- The request to a target among those to be sent.
unfoldable pub request_to : List ℕ → ℤ → List (IceCheckTarget × List ℕ) → Option (List ℕ)
request_to ip port [] = none
request_to ip port ((target, bytes) ∷ more) =
    if same_target target ip port then some bytes else request_to ip port more

module _ (hmac : HmacSha1) where
  still_sent :
      {a b : IceAgent} (ip : List ℕ) (port : ℤ) (p : Pair)
      → Reach hmac a b
      → find_pair ip port a.pairs ≡ some p
      → p.use_candidate_sent ≡ true
      → (q : Pair) × (find_pair ip port b.pairs ≡ some q) × (q.use_candidate_sent ≡ true)
  still_sent ip port p here found sent = (p, found, sent)
  still_sent {a} {b} ip port p (next {b = m} r s) found sent =
      let (q, found', sent') = still_sent ip port p r found sent in
      let (q', found'', same, ok, kept) = (Step-IsKept hmac m b s).pairs ip port q found' in
      (q', found'', ground (arith, sent', kept))

  not_again :
      (a : IceAgent) (random : ℕ → List ℕ) (ip : List ℕ) (port : ℤ) (i : ℕ) (ps : List Pair)
      (q : Pair)
      → find_pair ip port ps ≡ some q
      → q.use_candidate_sent ≡ true
      → (k : ℕ) × (request_to ip port (send_requests hmac a random i ps).1
          ≡ some (build_binding_request hmac a (random k) false))
  unfolding find_pair send_requests request_to
  not_again a random ip port i [] q found sent = cc found
  not_again a random ip port i (p ∷ ps) q found sent = elim (Bool-cases (is_target ip port p)) [
    | inl first ↦ let e : p ≡ q = ground (arith, found, first) in (i, rw (first, quiet e) refl)
    | inr later ↦
        let (k, f) = not_again a random ip port (i + 1) ps q (ground (arith, found, later)) sent in
        (k, rw later f)
  ]
    where
      quiet : p ≡ q → (is_controlling a.role && (p.succeeded && not p.use_candidate_sent)) ≡ false
      quiet e = ground (arith, e, sent)

  -- USE-CANDIDATE is sent once. After a pair has been nominated, whatever the agent does and receives,
  -- the request to its target is one without USE-CANDIDATE, in every later round. A nomination that is
  -- lost on the way is never repeated.
  pub nominated_once :
      {a b : IceAgent} (random : ℕ → List ℕ) (ip : List ℕ) (port : ℤ) (p : Pair)
      → Reach hmac a b
      → find_pair ip port a.pairs ≡ some p
      → p.use_candidate_sent ≡ true
      → (k : ℕ) × (request_to ip port (get_binding_requests_to_send hmac random b).0
          ≡ some (build_binding_request hmac b (random k) false))
  unfolding get_binding_requests_to_send
  nominated_once {a} {b} random ip port p r found sent =
      let (q, found', sent') = still_sent ip port p r found sent in
      not_again b random ip port 0 b.pairs q found' sent'

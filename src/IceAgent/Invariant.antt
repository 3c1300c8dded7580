-- ===== src/IceAgent/Invariant.antt =====
-- What holds of an agent of src/voip/src/application/ice_agent.cpp after any run of its operations.
use vianium_voip.IceAgent.{is_target}
use vianium_voip.Common.{subst}
use vianium_voip.Common.{
  ℕ, ◌+◌, ◌≡◌, refl, sym, ap, ◌∙◌, List, [], ◌∷◌, ◌++◌, true, false, not, ◌&&◌, ◌||◌, none, some,
  arith, Bool-cases, Option-cases, ◌⊎◌, inl, inr, All, All-append,
}
use vianium_voip.Common.Int.{ℤ}
use vianium_voip.Stun.{HmacSha1}
use vianium_voip.IceCandidate.{ParsedIceCandidate}
use vianium_voip.IceAgent.{
  IceAgentRole, IceCheckTarget, Pair, IceAgent, is_controlling, is_target, find_pair, set_succeeded,
  new_agent, add_remote_candidate, generate_local_candidates,
}
use vianium_voip.IceAgent.Checks.{send_requests, get_binding_requests_to_send}
use vianium_voip.IceAgent.Pairs.{
  same_target, same_target_self, same_target-eq, targets_of, has_target, Keeps, Keeps-append,
  Keeps-set_succeeded, Keeps-send_requests, targets-set_succeeded, targets-append,
  targets-send_requests, find_pair-none, find_pair-target, find-set_succeeded,
}
use vianium_voip.IceAgent.Steps.{
  Step, add, announce, send, receive, Reach, here, next, Outcome, unchanged, marked, selecting,
  reached, chosen, incoming-Outcome,
}

abbrev pub IsDistinct : List IceCheckTarget → Type 0
IsDistinct [] = Unit {0}
IsDistinct (t ∷ ts) = (has_target t.ip t.port ts ≡ false) × IsDistinct ts

-- USE-CANDIDATE was only sent by the controlling side, to a target that has answered.
abbrev pub IsNominated : IceAgentRole → Pair → Type 0
IsNominated role p = (not p.use_candidate_sent || is_controlling role && p.succeeded) ≡ true

-- The selected target is that of a pair that has answered.
abbrev pub IsSelected : IceAgent → Type 0
IsSelected a =
    (p : Pair) × (find_pair a.selected.ip a.selected.port a.pairs ≡ some p)
    × (p.target ≡ a.selected)
    × (p.succeeded ≡ true)

pub record IsValid (a : IceAgent) : Type 0 where
  pub mirrored : targets_of a.pairs ≡ a.check_targets
  pub distinct : IsDistinct a.check_targets
  pub nominated : All (IsNominated a.role) a.pairs
  pub established : (a.connected ≡ false) ⊎ IsSelected a

same_target_comm : (t u : IceCheckTarget) → same_target t u.ip u.port ≡ same_target u t.ip t.port
same_target_comm t u = elim (Bool-cases (same_target t u.ip u.port)) [
  | inl same ↦
      let e : t ≡ u = same_target-eq t u.ip u.port same in same ∙ sym (rw e (same_target_self u))
  | inr differ ↦ elim (Bool-cases (same_target u t.ip t.port)) [
    | inl same ↦
        let e : u ≡ t = same_target-eq u t.ip t.port same in
        absurd (
          cc (differ, same_target_self u, ap (λ (x : IceCheckTarget). same_target x u.ip u.port) e))
    | inr differ' ↦ differ ∙ sym differ'
  ]
]

has_target-append :
    (ip : List ℕ) (port : ℤ) (ts : List IceCheckTarget) (t : IceCheckTarget)
    → has_target ip port ts ≡ false
    → same_target t ip port ≡ false
    → has_target ip port (ts ++ t ∷ []) ≡ false
has_target-append ip port [] t h k = rw k refl
has_target-append ip port (u ∷ ts) t h k =
    ground (arith, h, has_target-append ip port ts t (ground (arith, h)) k)

IsDistinct-append :
    (ts : List IceCheckTarget) (t : IceCheckTarget)
    → has_target t.ip t.port ts ≡ false
    → IsDistinct ts
    → IsDistinct (ts ++ t ∷ [])
IsDistinct-append [] t h d = (refl, tt)
IsDistinct-append (u ∷ ts) t h d = (
  has_target-append u.ip u.port ts t d.0 (same_target_comm t u ∙ ground (arith, h)),
  IsDistinct-append ts t (ground (arith, h)) d.1,
)

nominated-set_succeeded :
    (role : IceAgentRole) (ip : List ℕ) (port : ℤ) (ps : List Pair)
    → All (IsNominated role) ps
    → All (IsNominated role) (set_succeeded ip port ps)
unfolding set_succeeded
nominated-set_succeeded role ip port [] h = tt
nominated-set_succeeded role ip port (p ∷ ps) h = elim (Bool-cases (is_target ip port p)) [
  | inl first ↦ rw first (ground (arith, h.0), h.1)
  | inr later ↦ rw later (h.0, nominated-set_succeeded role ip port ps h.1)
]

module _ (hmac : HmacSha1) where
  nominated-send_requests :
      (a : IceAgent) (random : ℕ → List ℕ) (i : ℕ) (ps : List Pair)
      → All (IsNominated a.role) ps
      → All (IsNominated a.role) (send_requests hmac a random i ps).0
  unfolding send_requests
  nominated-send_requests a random i [] h = tt
  nominated-send_requests a random i (p ∷ ps) h =
      (ground (arith, h.0), nominated-send_requests a random (i + 1) ps h.1)

  still_established :
      (a b : IceAgent)
      → Keeps a.pairs b.pairs
      → b.connected ≡ a.connected
      → b.selected ≡ a.selected
      → (a.connected ≡ false) ⊎ IsSelected a
      → (b.connected ≡ false) ⊎ IsSelected b
  still_established a b k c s (inl free) = inl (c ∙ free)
  still_established a b k c s (inr (p, found, target, ok)) =
      let (q, found', target', ok', sent) = k a.selected.ip a.selected.port p found in
      inr (q, rw s found', target' ∙ target ∙ sym s, ground (arith, ok, ok'))

  kept_pairs :
      (a b : IceAgent)
      → IsValid a
      → targets_of b.pairs ≡ targets_of a.pairs
      → b.check_targets ≡ a.check_targets
      → b.role ≡ a.role
      → All (IsNominated a.role) b.pairs
      → (b.connected ≡ false) ⊎ IsSelected b
      → IsValid b
  kept_pairs a b v t c r n e = record {
    mirrored = t ∙ v.mirrored ∙ sym c;
    distinct = rw c v.distinct;
    nominated = rw r n;
    established = e;
  }

  Outcome-IsValid :
      (ip : List ℕ) (port : ℤ) (a b : IceAgent) → IsValid a → Outcome hmac ip port a b → IsValid b
  Outcome-IsValid ip port a b v (unchanged e) = rw e v
  Outcome-IsValid ip port a b v (marked e) = rw e (
      kept_pairs a (reached hmac ip port a) v (targets-set_succeeded ip port a.pairs) refl refl
        (nominated-set_succeeded a.role ip port a.pairs v.nominated)
        (still_established a (reached hmac ip port a) (Keeps-set_succeeded ip port a.pairs) refl
          refl v.established))
  Outcome-IsValid ip port a b v (selecting p known free e) = rw e (
      kept_pairs a (chosen hmac ip port p a) v (targets-set_succeeded ip port a.pairs) refl refl
        (nominated-set_succeeded a.role ip port a.pairs v.nominated)
        (inr (record p { succeeded = true }, found, refl, refl)))
    where
      target : p.target ≡ record { ip = ip; port = port }
      target = find_pair-target ip port a.pairs p known

      found :
          find_pair p.target.ip p.target.port (set_succeeded ip port a.pairs)
          ≡ some (record p { succeeded = true })
      found =
          subst
            (λ (t : IceCheckTarget).
              find_pair t.ip t.port (set_succeeded ip port a.pairs)
              ≡ some (record p { succeeded = true }))
            (sym target) (find-set_succeeded ip port a.pairs p known)

  added-IsValid :
      (c : ParsedIceCandidate) (a : IceAgent) → IsValid a → IsValid (add_remote_candidate c a)
  unfolding add_remote_candidate
  added-IsValid c a v = elim (Option-cases (find_pair c.ip c.port a.pairs)) [
    | inl fresh ↦ new fresh
    | inr (p, known) ↦
        rw (known, add_remote_candidate)
          (kept_pairs a (record a { remote_candidates = a.remote_candidates ++ c ∷ [] }) v refl refl
            refl v.nominated v.established)
  ]
    where
      t : IceCheckTarget
      t = record { ip = c.ip; port = c.port }

      p : Pair
      p = record { target = t; succeeded = false; use_candidate_sent = false }

      grown : IceAgent
      grown = record a {
        remote_candidates = a.remote_candidates ++ c ∷ [];
        check_targets = a.check_targets ++ t ∷ [];
        pairs = a.pairs ++ p ∷ [];
      }

      new : find_pair c.ip c.port a.pairs ≡ none → IsValid (add_remote_candidate c a)
      new fresh =
          rw (fresh, add_remote_candidate)
            (record {
              mirrored =
                  targets-append a.pairs _
                  ∙ ap (λ (l : List IceCheckTarget). l ++ t ∷ []) v.mirrored;
              distinct =
                  IsDistinct-append a.check_targets t
                    (ap (has_target c.ip c.port) (sym v.mirrored)
                      ∙ find_pair-none c.ip c.port a.pairs fresh)
                    v.distinct;
              nominated = All-append (IsNominated a.role) a.pairs _ v.nominated (refl, tt);
              established =
                  still_established a grown (Keeps-append a.pairs (p ∷ [])) refl refl v.established;
            })

  Step-IsValid : (a b : IceAgent) → IsValid a → Step hmac a b → IsValid b
  unfolding generate_local_candidates get_binding_requests_to_send
  Step-IsValid a b v (add c e) = rw e (added-IsValid c a v)
  Step-IsValid a b v (announce ips port e) = rw e (
      kept_pairs a (generate_local_candidates ips port a).1 v refl refl refl v.nominated
        v.established)
  Step-IsValid a b v (send random e) = rw e (
      kept_pairs a (get_binding_requests_to_send hmac random a).1 v
        (targets-send_requests hmac a random 0 a.pairs) refl refl
        (nominated-send_requests a random 0 a.pairs v.nominated)
        (still_established a (get_binding_requests_to_send hmac random a).1
          (Keeps-send_requests hmac a random 0 a.pairs) refl refl v.established))
  Step-IsValid a b v (receive ip port bytes e) =
      Outcome-IsValid ip port a b v
        (subst (Outcome hmac ip port a) (sym e) (incoming-Outcome hmac ip port bytes a))

  Reach-IsValid : {a b : IceAgent} → IsValid a → Reach hmac a b → IsValid b
  Reach-IsValid v here = v
  Reach-IsValid {a} {b} v (next {b = m} r s) = Step-IsValid m b (Reach-IsValid v r) s

  -- The invariant of the agent. Whatever candidates are added, requests are sent and bytes arrive, in any
  -- order, from its construction on: each target has one pair, in the order of the check targets; a pair
  -- that was nominated by USE-CANDIDATE belongs to a controlling agent and has succeeded; and if the agent
  -- is connected, the selected target is that of a pair that has succeeded.
  pub reachable_agent-IsValid :
      (random : List ℕ) (role : IceAgentRole)
      (local_ufrag local_pwd remote_ufrag remote_pwd : List ℕ) {b : IceAgent}
      → Reach hmac (new_agent random role local_ufrag local_pwd remote_ufrag remote_pwd) b
      → IsValid b
  unfolding new_agent
  reachable_agent-IsValid random role local_ufrag local_pwd remote_ufrag remote_pwd r =
      Reach-IsValid
        (record { mirrored = refl; distinct = tt; nominated = tt; established = inl refl }) r

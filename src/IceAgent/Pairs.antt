-- ===== src/IceAgent/Pairs.antt =====
-- The list of candidate pairs of src/voip/src/application/ice_agent.cpp: FindPair and what the operations
-- change in it.
use vianium_voip.Common.{
  ℕ, ◌+◌, ◌≡◌, refl, sym, ap, ap₂, List, [], ◌∷◌, ◌++◌, Bool, true, false, not, ◌&&◌, ◌||◌, ==_iff,
  if◌then◌else◌, none, some, arith, Bool-cases, inl, inr,
}
use vianium_voip.Common.Int.{ℤ, pos, negsuc}
use vianium_voip.Bytes.Compare.{bytes_equal, bytes_equal_self, bytes_equal-eq}
use vianium_voip.Stun.{HmacSha1}
use vianium_voip.IceAgent.{
  IceCheckTarget, Pair, IceAgent, eq_ℤ, is_target, is_controlling, find_pair, set_succeeded,
}
use vianium_voip.IceAgent.Checks.{send_requests}

eq_ℤ_self : (z : ℤ) → eq_ℤ z z ≡ true
eq_ℤ_self (pos n) = (==_iff n n).1 refl
eq_ℤ_self (negsuc n) = (==_iff n n).1 refl

eq_ℤ-eq : (a b : ℤ) → eq_ℤ a b ≡ true → a ≡ b
eq_ℤ-eq (pos a) (pos b) h = ap pos ((==_iff a b).0 h)
eq_ℤ-eq (negsuc a) (negsuc b) h = ap negsuc ((==_iff a b).0 h)
eq_ℤ-eq (pos a) (negsuc b) h = cc h
eq_ℤ-eq (negsuc a) (pos b) h = cc h

abbrev pub same_target : IceCheckTarget → List ℕ → ℤ → Bool
same_target t ip port = bytes_equal t.ip ip && eq_ℤ t.port port

pub same_target_self : (t : IceCheckTarget) → same_target t t.ip t.port ≡ true
same_target_self t = rw (bytes_equal_self t.ip, eq_ℤ_self t.port) refl

pub same_target-eq :
    (t : IceCheckTarget) (ip : List ℕ) (port : ℤ)
    → same_target t ip port ≡ true
    → t ≡ record { ip = ip; port = port }
same_target-eq t ip port h = ground (arith, h, bytes_equal-eq t.ip ip, eq_ℤ-eq t.port port)

abbrev pub targets_of : List Pair → List IceCheckTarget
targets_of [] = []
targets_of (p ∷ ps) = p.target ∷ targets_of ps

abbrev pub has_target : List ℕ → ℤ → List IceCheckTarget → Bool
has_target ip port [] = false
has_target ip port (t ∷ ts) = same_target t ip port || has_target ip port ts

pub targets-set_succeeded :
    (ip : List ℕ) (port : ℤ) (ps : List Pair)
    → targets_of (set_succeeded ip port ps) ≡ targets_of ps
unfolding set_succeeded
targets-set_succeeded ip port [] = refl
targets-set_succeeded ip port (p ∷ ps) = elim (Bool-cases (is_target ip port p)) [
  | inl here ↦ rw here refl
  | inr later ↦ rw later (ap (◌∷◌ p.target) (targets-set_succeeded ip port ps))
]

pub targets-append : (ps qs : List Pair) → targets_of (ps ++ qs) ≡ targets_of ps ++ targets_of qs
targets-append [] qs = refl
targets-append (p ∷ ps) qs = ap (◌∷◌ p.target) (targets-append ps qs)

-- FindPair finds nothing exactly where there is no such target.
pub find_pair-none :
    (ip : List ℕ) (port : ℤ) (ps : List Pair)
    → find_pair ip port ps ≡ none
    → has_target ip port (targets_of ps) ≡ false
unfolding find_pair
find_pair-none ip port [] h = refl
find_pair-none ip port (p ∷ ps) h = ground (arith, h, find_pair-none ip port ps)

-- The pair that is found has the target that was asked for.
pub find_pair-target :
    (ip : List ℕ) (port : ℤ) (ps : List Pair) (p : Pair)
    → find_pair ip port ps ≡ some p
    → p.target ≡ record { ip = ip; port = port }
unfolding find_pair
find_pair-target ip port [] p h = cc h
find_pair-target ip port (q ∷ ps) p h =
    ground (arith, h, same_target-eq q.target ip port, find_pair-target ip port ps p)

-- Each pair is still found under its target, and has lost none of its marks.
abbrev pub Keeps : List Pair → List Pair → Type 0
Keeps ps qs =
    (ip : List ℕ) (port : ℤ) (p : Pair)
    → find_pair ip port ps ≡ some p
    → (q : Pair) × (find_pair ip port qs ≡ some q)
      × (q.target ≡ p.target)
      × ((not p.succeeded || q.succeeded) ≡ true)
      × ((not p.use_candidate_sent || q.use_candidate_sent) ≡ true)

implied_self : (b : Bool) → (not b || b) ≡ true
implied_self true = refl
implied_self false = refl

pub Keeps-self : (ps : List Pair) → Keeps ps ps
Keeps-self ps ip port p h =
    (p, h, refl, implied_self p.succeeded, implied_self p.use_candidate_sent)

-- A pair in front, with the same target and no mark less.
Keeps-cons :
    (r r' : Pair) (ps qs : List Pair)
    → r'.target ≡ r.target
    → (not r.succeeded || r'.succeeded) ≡ true
    → (not r.use_candidate_sent || r'.use_candidate_sent) ≡ true
    → Keeps ps qs
    → Keeps (r ∷ ps) (r' ∷ qs)
Keeps-cons r r' ps qs t s u k ip port p h = elim (Bool-cases (is_target ip port r)) [
  | inl here ↦ first here
  | inr later ↦ behind later
]
  where
    same : is_target ip port r' ≡ is_target ip port r
    same = ap (λ (x : IceCheckTarget). same_target x ip port) t

    first :
        is_target ip port r ≡ true
        → (q : Pair) × (find_pair ip port (r' ∷ qs) ≡ some q)
          × (q.target ≡ p.target)
          × ((not p.succeeded || q.succeeded) ≡ true)
          × ((not p.use_candidate_sent || q.use_candidate_sent) ≡ true)
    first here =
        let e : r ≡ p = (unfold find_pair in ground (arith, h, here)) in
        (r', (unfold find_pair in rw (same, here) refl), rw (sym e) t, rw (sym e) s, rw (sym e) u)

    behind :
        is_target ip port r ≡ false
        → (q : Pair) × (find_pair ip port (r' ∷ qs) ≡ some q)
          × (q.target ≡ p.target)
          × ((not p.succeeded || q.succeeded) ≡ true)
          × ((not p.use_candidate_sent || q.use_candidate_sent) ≡ true)
    behind later =
        let found : find_pair ip port ps ≡ some p =
          (unfold find_pair in ground (arith, h, later)) in
        let (q, e, a, b, c) = k ip port p found in
        (q, (unfold find_pair in rw (same, later) e), a, b, c)

pub Keeps-append : (ps qs : List Pair) → Keeps ps (ps ++ qs)
unfolding find_pair
Keeps-append [] qs = λ ip port p h. cc h
Keeps-append (r ∷ ps) qs =
    Keeps-cons r r ps (ps ++ qs) refl (implied_self r.succeeded) (implied_self r.use_candidate_sent)
      (Keeps-append ps qs)

implied_true : (b : Bool) → (not b || true) ≡ true
implied_true true = refl
implied_true false = refl

pub Keeps-set_succeeded :
    (ip : List ℕ) (port : ℤ) (ps : List Pair) → Keeps ps (set_succeeded ip port ps)
unfolding set_succeeded
Keeps-set_succeeded ip port [] = Keeps-self []
Keeps-set_succeeded ip port (r ∷ ps) = elim (Bool-cases (is_target ip port r)) [
  | inl here ↦ rw here (
      Keeps-cons r (record r { succeeded = true }) ps ps refl (implied_true r.succeeded)
        (implied_self r.use_candidate_sent) (Keeps-self ps))
  | inr later ↦ rw later (
      Keeps-cons r r ps (set_succeeded ip port ps) refl (implied_self r.succeeded)
        (implied_self r.use_candidate_sent) (Keeps-set_succeeded ip port ps))
]

module _ (hmac : HmacSha1) (a : IceAgent) (random : ℕ → List ℕ) where
  pub targets-send_requests :
      (i : ℕ) (ps : List Pair) → targets_of (send_requests hmac a random i ps).0 ≡ targets_of ps
  unfolding send_requests
  targets-send_requests i [] = refl
  targets-send_requests i (p ∷ ps) =
      ap₂ (λ (t : IceCheckTarget) (ts : List IceCheckTarget). t ∷ ts) same
        (targets-send_requests (i + 1) ps)
    where
      now : Bool
      now = is_controlling a.role && (p.succeeded && not p.use_candidate_sent)

      same : (if now then record p { use_candidate_sent = true } else p).target ≡ p.target
      same = ground arith

  pub Keeps-send_requests : (i : ℕ) (ps : List Pair) → Keeps ps (send_requests hmac a random i ps).0
  unfolding send_requests
  Keeps-send_requests i [] = Keeps-self []
  Keeps-send_requests i (p ∷ ps) =
      Keeps-cons p (if now then record p { use_candidate_sent = true } else p) ps
        (send_requests hmac a random (i + 1) ps).0 (ground arith) (ground arith) (ground arith)
        (Keeps-send_requests (i + 1) ps)
    where
      now : Bool
      now = is_controlling a.role && (p.succeeded && not p.use_candidate_sent)

-- The pair that the pointer shows is the one that is written.
pub find-set_succeeded :
    (ip : List ℕ) (port : ℤ) (ps : List Pair) (p : Pair)
    → find_pair ip port ps ≡ some p
    → find_pair ip port (set_succeeded ip port ps) ≡ some (record p { succeeded = true })
unfolding find_pair set_succeeded
find-set_succeeded ip port [] p h = cc h
find-set_succeeded ip port (r ∷ ps) p h = ground (arith, h, find-set_succeeded ip port ps p)

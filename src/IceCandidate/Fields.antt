-- ===== src/IceCandidate/Fields.antt =====
-- The tokens of a line that Format of src/voip/src/domain/ice_candidate.cpp wrote, one by one: they
-- have no blanks, and Parse reads the fields from them.
use vianium_voip.IceCandidate.Line.{text_relay}
use vianium_voip.Common.{◌&&◌}
use vianium_voip.IceCandidate.Line.{text_prflx}
use vianium_voip.IceCandidate.Line.{text_srflx}
use vianium_voip.IceCandidate.Line.{text_rport}
use vianium_voip.IceCandidate.Tokens.{is_blank}
use vianium_voip.Common.{not}
use vianium_voip.IceCandidate.Line.{text_ufrag}
use vianium_voip.IceCandidate.Line.{text_raddr}
use vianium_voip.IceCandidate.Line.{text_host}
use vianium_voip.Common.{
  ℕ, ◌^◌, ◌<◌, ◌≡◌, refl, sym, ap, ◌∙◌, List, [], ◌∷◌, ◌++◌, Bool, true, false, ◌==◌, if◌then◌else◌,
  length, some, All, All-append, arith, append-nil, Bool-cases, inl, inr,
}
use vianium_voip.Common.Int.{ℤ, pos}
use vianium_voip.Bytes.Compare.{bytes_equal}
use vianium_voip.Text.{number, signed, at_end}
use vianium_voip.Text.Numbers.{IsInt, strtol-signed, strtoul-number}
use vianium_voip.IceCandidate.{
  IceCandidateType, host, srflx, prflx, relay, unknown, ParsedIceCandidate,
}
use vianium_voip.IceCandidate.Tokens.{parse_int, parse_u32}
use vianium_voip.IceCandidate.Line.{
  text_typ, text_udp, text_network_id, text_network_cost, type_to_string, type_from_string,
  known_type, int_or, parse_pair, parse_pairs, is_positive, text_generation, text_relay,
}
use vianium_voip.IceCandidate.Written.{
  AreInk, IsToken, number-Token, signed-Token, option_tokens, related_tokens, ufrag_tokens,
  pair_tokens, transport_text, tokens,
}

-- Fields of the sizes of their types, and texts without blanks: the foundation and the address are not
-- empty.
pub record IsWritable (c : ParsedIceCandidate) : Type 0 where
  pub foundation_token : IsToken c.foundation
  pub component_int : IsInt c.component_id
  pub transport_ink : AreInk c.transport
  pub priority_fits : c.priority < 2 ^ 32
  pub ip_token : IsToken c.ip
  pub port_int : IsInt c.port
  pub ufrag_ink : AreInk c.ufrag
  pub network_id_int : IsInt c.network_id
  pub network_cost_int : IsInt c.network_cost
  pub generation_int : IsInt c.generation
  pub related_ink : AreInk c.related_address
  pub related_port_int : IsInt c.related_port

-- Format writes an unknown type as a host.
abbrev pub shown_type : IceCandidateType → IceCandidateType
shown_type host = host
shown_type srflx = srflx
shown_type prflx = prflx
shown_type relay = relay
shown_type unknown = host

-- The fields that are on the line.
abbrev pub shown : ParsedIceCandidate → ParsedIceCandidate
shown c = record c {
  transport = transport_text c;
  type = shown_type c.type;
  related_port = if length c.related_address == 0 then pos 0 else c.related_port;
  network_id = if is_positive c.network_id then c.network_id else pos 0;
  network_cost = if is_positive c.network_cost then c.network_cost else pos 0;
}

pub parse_int-signed : (z : ℤ) → IsInt z → parse_int (signed z) ≡ some z
unfolding at_end parse_int
parse_int-signed z h =
    rw
      (
        sym (ap (λ (l : List ℕ). parse_int l) (append-nil (signed z))),
        parse_int,
        strtol-signed z [] h tt,
      )
      refl

pub parse_u32-number : (n : ℕ) → n < 2 ^ 32 → parse_u32 (number n) ≡ some n
unfolding at_end parse_u32
parse_u32-number n h =
    rw
      (
        sym (ap (λ (l : List ℕ). parse_u32 l) (append-nil (number n))),
        parse_u32,
        strtoul-number n [] h tt,
      )
      refl

int_or-signed : (old z : ℤ) → IsInt z → int_or old (signed z) ≡ z
unfolding int_or
int_or-signed old z h = rw (int_or, parse_int-signed z h) refl

pub type_back :
    (t : IceCandidateType) → known_type (type_from_string (type_to_string t)) ≡ some (shown_type t)
unfolding known_type type_from_string type_to_string bytes_equal
type_back host = refl
type_back srflx = refl
type_back prflx = refl
type_back relay = refl
type_back unknown = refl

-- A word that is written out has no blanks.
all_ink : List ℕ → Bool
all_ink [] = true
all_ink (c ∷ cs) = not (is_blank c) && all_ink cs

word-Ink : (t : List ℕ) → all_ink t ≡ true → AreInk t
unfolding all_ink
word-Ink [] e = tt
word-Ink (c ∷ cs) e = (ground (arith, e), word-Ink cs (ground (arith, e)))

type-Token : (t : IceCandidateType) → IsToken (type_to_string t)
unfolding type_to_string all_ink
type-Token host = (omega arith, word-Ink text_host refl)
type-Token srflx = (omega arith, word-Ink text_srflx refl)
type-Token prflx = (omega arith, word-Ink text_prflx refl)
type-Token relay = (omega arith, word-Ink text_relay refl)
type-Token unknown = (omega arith, word-Ink text_host refl)

filled-Token : (t : List ℕ) → AreInk t → (length t == 0) ≡ false → IsToken t
filled-Token t h e = (ground (arith, e), h)

no_text : (t : List ℕ) → (length t == 0) ≡ true → t ≡ []
no_text [] e = refl
no_text (c ∷ cs) e = ground (arith, e)

module _ (c : ParsedIceCandidate) (h : IsWritable c) where
  transport-Token : IsToken (transport_text c)
  unfolding all_ink
  transport-Token = elim (Bool-cases (length c.transport == 0)) [
    | inl e ↦ rw e (omega arith, word-Ink text_udp refl)
    | inr e ↦ rw e (filled-Token c.transport h.transport_ink e)
  ]

  related-Tokens : All IsToken (related_tokens c)
  unfolding all_ink
  related-Tokens = elim (Bool-cases (length c.related_address == 0)) [
    | inl e ↦ rw e tt
    | inr e ↦ rw e (
      (omega arith, word-Ink text_raddr refl),
      (
        filled-Token c.related_address h.related_ink e,
        ((omega arith, word-Ink text_rport refl), (signed-Token c.related_port, tt)),
      ),
    )
  ]

  ufrag-Tokens : All IsToken (ufrag_tokens c)
  unfolding all_ink
  ufrag-Tokens = elim (Bool-cases (length c.ufrag == 0)) [
    | inl e ↦ rw e tt
    | inr e ↦
        rw e ((omega arith, word-Ink text_ufrag refl), (filled-Token c.ufrag h.ufrag_ink e, tt))
  ]

  option-Tokens :
      (b : Bool) (k v : List ℕ) → IsToken k → IsToken v → All IsToken (option_tokens b k v)
  option-Tokens true k v p q = (p, (q, tt))
  option-Tokens false k v p q = tt

  pair-Tokens : All IsToken (pair_tokens c)
  unfolding pair_tokens all_ink
  pair-Tokens = All-append IsToken (related_tokens c) _ related-Tokens (
    (omega arith, word-Ink text_generation refl),
    (
      signed-Token c.generation,
      All-append IsToken (ufrag_tokens c) _ ufrag-Tokens (
          All-append IsToken
            (option_tokens (is_positive c.network_id) text_network_id (signed c.network_id)) _
            (option-Tokens (is_positive c.network_id) text_network_id (signed c.network_id)
              (omega arith, word-Ink text_network_id refl) (signed-Token c.network_id))
            (option-Tokens (is_positive c.network_cost) text_network_cost (signed c.network_cost)
              (omega arith, word-Ink text_network_cost refl) (signed-Token c.network_cost))),
    ),
  )

  pub tokens-Tokens : All IsToken (tokens c)
  unfolding all_ink
  tokens-Tokens = (
    signed-Token c.component_id,
    (
      transport-Token,
      (
        number-Token c.priority,
        (
          h.ip_token,
          (
            signed-Token c.port,
            ((omega arith, word-Ink text_typ refl), (type-Token c.type, pair-Tokens)),
          ),
        ),
      ),
    ),
  )

  module _ (ys : List (List ℕ)) (out : ParsedIceCandidate) where
    pub related_read :
        out.related_address ≡ []
        → out.related_port ≡ pos 0
        → parse_pairs (related_tokens c ++ ys) out
          ≡ parse_pairs ys (record out {
            related_address = c.related_address;
            related_port = if length c.related_address == 0 then pos 0 else c.related_port;
          })
    unfolding parse_pairs parse_pair bytes_equal
    related_read p q = elim (Bool-cases (length c.related_address == 0)) [
      | inl e ↦ rw e (λ i. parse_pairs ys (record out {
        related_address = (p ∙ sym (no_text c.related_address e)) i;
        related_port = q i;
      }))
      | inr e ↦ rw (e, int_or-signed out.related_port c.related_port h.related_port_int) refl
    ]

    pub generation_read :
        parse_pairs (text_generation ∷ signed c.generation ∷ ys) out
        ≡ parse_pairs ys (record out { generation = c.generation })
    unfolding parse_pairs parse_pair bytes_equal
    generation_read = rw (int_or-signed out.generation c.generation h.generation_int) refl

    pub ufrag_read :
        out.ufrag ≡ []
        → parse_pairs (ufrag_tokens c ++ ys) out ≡ parse_pairs ys (record out { ufrag = c.ufrag })
    unfolding parse_pairs parse_pair bytes_equal
    ufrag_read p = elim (Bool-cases (length c.ufrag == 0)) [
      | inl e ↦ rw e (λ i. parse_pairs ys (record out { ufrag = (p ∙ sym (no_text c.ufrag e)) i }))
      | inr e ↦ rw e refl
    ]

    pub network_id_read :
        (b : Bool)
        → out.network_id ≡ pos 0
        → parse_pairs (option_tokens b text_network_id (signed c.network_id) ++ ys) out
          ≡ parse_pairs ys (record out { network_id = if b then c.network_id else pos 0 })
    unfolding parse_pairs parse_pair bytes_equal
    network_id_read true p = rw (int_or-signed out.network_id c.network_id h.network_id_int) refl
    network_id_read false p = λ i. parse_pairs ys (record out { network_id = p i })

    pub network_cost_read :
        (b : Bool)
        → out.network_cost ≡ pos 0
        → parse_pairs (option_tokens b text_network_cost (signed c.network_cost)) out
          ≡ record out { network_cost = if b then c.network_cost else pos 0 }
    unfolding parse_pairs parse_pair bytes_equal
    network_cost_read true p =
        rw (int_or-signed out.network_cost c.network_cost h.network_cost_int) refl
    network_cost_read false p = λ i. record out { network_cost = p i }

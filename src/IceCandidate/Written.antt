-- ===== src/IceCandidate/Written.antt =====
-- The line that Format of src/voip/src/domain/ice_candidate.cpp writes, as tokens, and how Trim and
-- SplitSpaces take it apart.
use vianium_voip.IceCandidate.Tokens.{is_separator}
use vianium_voip.Common.{
  ℕ, zero, suc, ◌+◌, ◌%◌, ◌/◌, ◌<◌, ◌≡◌, refl, sym, ap, ap₂, ◌∙◌, List, [], ◌∷◌, ◌++◌, Bool, true,
  false, ◌==◌, ltb, if◌then◌else◌, length, All, All-append, arith, append_assoc, append-nil,
  length-append, Bool-cases, inl, inr,
}
use vianium_voip.Common.Int.{ℤ, pos, negsuc}
use vianium_voip.Bytes.Compare.{bytes_equal}
use vianium_voip.Text.{digits, number, signed}
use vianium_voip.IceCandidate.{ParsedIceCandidate}
use vianium_voip.IceCandidate.Tokens.{
  is_blank, trim_front, trim_back, trim, put_token, split_loop, split_spaces,
}
use vianium_voip.IceCandidate.Line.{
  text_candidate, text_typ, text_udp, text_raddr, text_rport, text_generation, text_ufrag,
  text_network_id, text_network_cost, type_to_string, strip_a, strip_candidate, is_positive,
  key_value, format,
}

-- Characters that are no blanks, and a token: some of them.
abbrev pub AreInk : List ℕ → Type 0
AreInk = All (λ (c : ℕ). is_blank c ≡ false)

abbrev pub IsToken : List ℕ → Type 0
IsToken t = (0 < length t) × AreInk t

-- Each token behind a space.
unfoldable pub spaced : List (List ℕ) → List ℕ
spaced [] = []
spaced (t ∷ ts) = b' ' ∷ (t ++ spaced ts)

spaced-append : (xs ys : List (List ℕ)) → spaced (xs ++ ys) ≡ spaced xs ++ spaced ys
unfolding spaced
spaced-append [] ys = refl
spaced-append (x ∷ xs) ys =
    ap (λ (l : List ℕ). b' ' ∷ (x ++ l)) (spaced-append xs ys)
    ∙ ap (λ (l : List ℕ). b' ' ∷ l) (sym (append_assoc x (spaced xs) (spaced ys)))

trim_word : (t rest : List ℕ) → AreInk t → trim_back rest ≡ rest → trim_back (t ++ rest) ≡ t ++ rest
unfolding trim_back
trim_word [] rest h e = e
trim_word (c ∷ cs) rest h e = rw h.0 (ap (◌∷◌ c) (trim_word cs rest h.1 e))

trim_spaced : (ts : List (List ℕ)) → All IsToken ts → trim_back (spaced ts) ≡ spaced ts
unfolding trim_back spaced
trim_spaced [] h = refl
trim_spaced (t ∷ ts) h = rw (trim_word t (spaced ts) h.0.1 (trim_spaced ts h.1), some_left) refl
  where
    some_left : (length (t ++ spaced ts) == 0) ≡ false
    some_left = ground (arith, length-append t (spaced ts), h.0.0)

ink_separator : (c : ℕ) → is_blank c ≡ false → is_separator c ≡ false
ink_separator c h = ground (arith, h)

split_ink :
    (cur : List ℕ) (c : ℕ) (cs : List ℕ)
    → is_blank c ≡ false
    → split_loop cur (c ∷ cs) ≡ split_loop (cur ++ c ∷ []) cs
unfolding split_loop
split_ink cur c cs h = rw (ink_separator c h, split_loop) refl

split_word :
    (cur t rest : List ℕ)
    → AreInk t
    → split_loop cur (t ++ b' ' ∷ rest) ≡ put_token (cur ++ t) (split_loop [] rest)
unfolding split_loop
split_word cur [] rest h =
    ap (λ (l : List ℕ). put_token l (split_loop [] rest)) (sym (append-nil cur))
split_word cur (c ∷ cs) rest h =
    split_ink cur c (cs ++ b' ' ∷ rest) h.0
    ∙ split_word (cur ++ c ∷ []) cs rest h.1
    ∙ ap (λ (l : List ℕ). put_token l (split_loop [] rest)) (append_assoc cur (c ∷ []) cs)

split_last : (cur t : List ℕ) → AreInk t → split_loop cur t ≡ put_token (cur ++ t) []
unfolding split_loop
split_last cur [] h = ap (λ (l : List ℕ). put_token l []) (sym (append-nil cur))
split_last cur (c ∷ cs) h =
    split_ink cur c cs h.0
    ∙ split_last (cur ++ c ∷ []) cs h.1
    ∙ ap (λ (l : List ℕ). put_token l []) (append_assoc cur (c ∷ []) cs)

put_token_lem : (t : List ℕ) (out : List (List ℕ)) → 0 < length t → put_token t out ≡ t ∷ out
unfolding put_token
put_token_lem [] out h = absurd (omega (arith, h))
put_token_lem (c ∷ cs) out h = ground arith

-- SplitSpaces gives back the tokens.
pub split_spaces-spaced :
    (t : List ℕ) (ts : List (List ℕ))
    → IsToken t
    → All IsToken ts
    → split_spaces (t ++ spaced ts) ≡ t ∷ ts
unfolding split_spaces spaced
split_spaces-spaced t [] h k =
    ap (split_loop []) (append-nil t) ∙ split_last [] t h.1 ∙ put_token_lem t [] h.0
split_spaces-spaced t (u ∷ ts) h k =
    split_word [] t (u ++ spaced ts) h.1
    ∙ put_token_lem t _ h.0
    ∙ ap (◌∷◌ t) (split_spaces-spaced u ts k.0 k.1)

digits-Ink : (f n : ℕ) → IsToken (digits f n)
unfolding digits
digits-Ink zero n = (omega arith, (ground arith, tt))
digits-Ink (suc f) n = elim (Bool-cases (ltb n 10)) [
  | inl small ↦ rw small (omega arith, (ground (arith, small), tt))
  | inr large ↦ rw large (
    omega (arith, length-append (digits f (n / 10)) ((n % 10 + b'0') ∷ [])),
    All-append (λ (c : ℕ). is_blank c ≡ false) (digits f (n / 10)) ((n % 10 + b'0') ∷ [])
        (digits-Ink f (n / 10)).1 (ground arith, tt),
  )
]

pub number-Token : (n : ℕ) → IsToken (number n)
unfolding number
number-Token n = digits-Ink n n

pub signed-Token : (z : ℤ) → IsToken (signed z)
unfolding signed
signed-Token (pos n) = number-Token n
signed-Token (negsuc n) = (omega arith, (refl, (number-Token (suc n)).1))

-- The tokens behind the type: keys and values.
abbrev pub option_tokens : Bool → List ℕ → List ℕ → List (List ℕ)
option_tokens b k v = if b then k ∷ v ∷ [] else []

abbrev pub related_tokens : ParsedIceCandidate → List (List ℕ)
related_tokens c =
    if length c.related_address == 0
    then []
    else text_raddr ∷ c.related_address ∷ text_rport ∷ signed c.related_port ∷ []

abbrev pub ufrag_tokens : ParsedIceCandidate → List (List ℕ)
ufrag_tokens c = if length c.ufrag == 0 then [] else text_ufrag ∷ c.ufrag ∷ []

unfoldable pub pair_tokens : ParsedIceCandidate → List (List ℕ)
pair_tokens c =
    related_tokens c
    ++ (text_generation
        ∷ signed c.generation
        ∷ (ufrag_tokens c
            ++ (option_tokens (is_positive c.network_id) text_network_id (signed c.network_id)
                ++ option_tokens (is_positive c.network_cost) text_network_cost
                    (signed c.network_cost))))

abbrev pub transport_text : ParsedIceCandidate → List ℕ
transport_text c = if length c.transport == 0 then text_udp else c.transport

-- All tokens behind the first, which is the foundation.
abbrev pub tokens : ParsedIceCandidate → List (List ℕ)
tokens c =
    signed c.component_id
    ∷ transport_text c
    ∷ number c.priority
    ∷ c.ip
    ∷ signed c.port
    ∷ text_typ
    ∷ type_to_string c.type
    ∷ pair_tokens c

option_text :
    (b : Bool) (k v : List ℕ) → (if b then key_value k v else []) ≡ spaced (option_tokens b k v)
unfolding spaced
option_text true k v = ap (key_value k) (sym (append-nil v))
option_text false k v = refl

ufrag_text :
    (c : ParsedIceCandidate)
    → (if length c.ufrag == 0 then [] else key_value text_ufrag c.ufrag) ≡ spaced (ufrag_tokens c)
unfolding spaced
ufrag_text c = elim (Bool-cases (length c.ufrag == 0)) [
  | inl e ↦ rw e refl
  | inr e ↦ rw e (ap (key_value text_ufrag) (sym (append-nil c.ufrag)))
]

related_text :
    (c : ParsedIceCandidate)
    → (if length c.related_address == 0
        then []
        else key_value text_raddr c.related_address ++ key_value text_rport (signed c.related_port))
      ≡ spaced (related_tokens c)
unfolding spaced
related_text c = elim (Bool-cases (length c.related_address == 0)) [
  | inl e ↦ rw e refl
  | inr e ↦ rw e (
      ap (λ (l : List ℕ). key_value text_raddr (c.related_address ++ key_value text_rport l))
        (sym (append-nil (signed c.related_port))))
]

-- The line is the prefix and the tokens, with a space between two of them.
pub format_lem :
    (c : ParsedIceCandidate) → format c ≡ text_candidate ++ (c.foundation ++ spaced (tokens c))
unfolding format spaced pair_tokens
format_lem c =
    ap
      (λ (l : List ℕ).
        text_candidate
        ++ (c.foundation
            ++ b' '
              ∷ (signed c.component_id
                  ++ b' '
                    ∷ (transport_text c
                        ++ b' '
                          ∷ (number c.priority
                              ++ b' '
                                ∷ (c.ip
                                    ++ b' '
                                      ∷ (signed c.port
                                          ++ b' '
                                            ∷ (text_typ
                                                ++ b' ' ∷ (type_to_string c.type ++ l)))))))))
      (ap₂ (λ (x y : List ℕ). x ++ y) (related_text c)
          (ap (λ (l : List ℕ). key_value text_generation (signed c.generation ++ l)) behind)
        ∙ sym (spaced-append (related_tokens c) _))
  where
    network : List (List ℕ)
    network =
        option_tokens (is_positive c.network_id) text_network_id (signed c.network_id)
        ++ option_tokens (is_positive c.network_cost) text_network_cost (signed c.network_cost)

    behind :
        (if length c.ufrag == 0 then [] else key_value text_ufrag c.ufrag)
          ++ ((if is_positive c.network_id
                then key_value text_network_id (signed c.network_id)
                else [])
              ++ (if is_positive c.network_cost
                  then key_value text_network_cost (signed c.network_cost)
                  else []))
        ≡ spaced (ufrag_tokens c ++ network)
    behind =
        ap₂ (λ (x y : List ℕ). x ++ y) (ufrag_text c)
          (ap₂ (λ (x y : List ℕ). x ++ y)
              (option_text (is_positive c.network_id) text_network_id (signed c.network_id))
              (option_text (is_positive c.network_cost) text_network_cost (signed c.network_cost))
            ∙ sym (
                spaced-append
                  (option_tokens (is_positive c.network_id) text_network_id (signed c.network_id))
                  _))
        ∙ sym (spaced-append (ufrag_tokens c) network)

-- Trim leaves the line.
pub trim_line :
    (t : List ℕ) (ts : List (List ℕ))
    → IsToken t
    → All IsToken ts
    → trim (text_candidate ++ (t ++ spaced ts)) ≡ text_candidate ++ (t ++ spaced ts)
unfolding trim trim_front
trim_line t ts h k =
    trim_word text_candidate (t ++ spaced ts) ink (trim_word t (spaced ts) h.1 (trim_spaced ts k))
  where
    ink : AreInk text_candidate
    ink = (refl, (refl, (refl, (refl, (refl, (refl, (refl, (refl, (refl, (refl, tt))))))))))

-- Behind the prefix come the tokens.
pub stripped : (l : List ℕ) → strip_candidate (strip_a (text_candidate ++ l)) ≡ l
unfolding strip_a strip_candidate bytes_equal
stripped l = refl

-- ===== src/IceCandidate/Line.antt =====
-- IceCandidateParser of src/voip/src/domain/ice_candidate.cpp: Parse, Format and the names of the types.
use vianium_voip.Common.{
  ℕ, List, [], ◌∷◌, ◌++◌, Bool, false, not, ◌==◌, if◌then◌else◌, length, take, drop, Option, none,
  some, ltb,
}
use vianium_voip.Common.Int.{ℤ, pos, negsuc}
use vianium_voip.Bytes.Compare.{bytes_equal}
use vianium_voip.Text.{number, signed}
use vianium_voip.IceCandidate.{
  IceCandidateType, host, srflx, prflx, relay, unknown, ParsedIceCandidate, new_candidate,
}
use vianium_voip.IceCandidate.Tokens.{trim, split_spaces, parse_int, parse_u32}

abbrev pub text_host : List ℕ
text_host = b'h' ∷ b'o' ∷ b's' ∷ b't' ∷ []

abbrev pub text_srflx : List ℕ
text_srflx = b's' ∷ b'r' ∷ b'f' ∷ b'l' ∷ b'x' ∷ []

abbrev pub text_prflx : List ℕ
text_prflx = b'p' ∷ b'r' ∷ b'f' ∷ b'l' ∷ b'x' ∷ []

abbrev pub text_relay : List ℕ
text_relay = b'r' ∷ b'e' ∷ b'l' ∷ b'a' ∷ b'y' ∷ []

abbrev pub text_candidate : List ℕ
text_candidate = b'c' ∷ b'a' ∷ b'n' ∷ b'd' ∷ b'i' ∷ b'd' ∷ b'a' ∷ b't' ∷ b'e' ∷ b':' ∷ []

abbrev pub text_typ : List ℕ
text_typ = b't' ∷ b'y' ∷ b'p' ∷ []

abbrev pub text_udp : List ℕ
text_udp = b'u' ∷ b'd' ∷ b'p' ∷ []

abbrev pub text_raddr : List ℕ
text_raddr = b'r' ∷ b'a' ∷ b'd' ∷ b'd' ∷ b'r' ∷ []

abbrev pub text_rport : List ℕ
text_rport = b'r' ∷ b'p' ∷ b'o' ∷ b'r' ∷ b't' ∷ []

abbrev pub text_generation : List ℕ
text_generation = b'g' ∷ b'e' ∷ b'n' ∷ b'e' ∷ b'r' ∷ b'a' ∷ b't' ∷ b'i' ∷ b'o' ∷ b'n' ∷ []

abbrev pub text_ufrag : List ℕ
text_ufrag = b'u' ∷ b'f' ∷ b'r' ∷ b'a' ∷ b'g' ∷ []

abbrev pub text_network_id : List ℕ
text_network_id = b'n' ∷ b'e' ∷ b't' ∷ b'w' ∷ b'o' ∷ b'r' ∷ b'k' ∷ b'-' ∷ b'i' ∷ b'd' ∷ []

abbrev pub text_network_cost : List ℕ
text_network_cost =
    b'n' ∷ b'e' ∷ b't' ∷ b'w' ∷ b'o' ∷ b'r' ∷ b'k' ∷ b'-' ∷ b'c' ∷ b'o' ∷ b's' ∷ b't' ∷ []

unfoldable pub type_to_string : IceCandidateType → List ℕ
type_to_string host = text_host
type_to_string srflx = text_srflx
type_to_string prflx = text_prflx
type_to_string relay = text_relay
type_to_string unknown = text_host

unfoldable pub type_from_string : List ℕ → IceCandidateType
type_from_string s =
    if bytes_equal s text_host
    then host
    else if bytes_equal s text_srflx
    then srflx
    else if bytes_equal s text_prflx
    then prflx
    else if bytes_equal s text_relay
    then relay
    else unknown

-- A number that does not parse leaves the field.
unfoldable pub int_or : ℤ → List ℕ → ℤ
int_or old text = elim (parse_int text) [ none ↦ old | some v ↦ v ]

unfoldable pub parse_pair : List ℕ → List ℕ → ParsedIceCandidate → ParsedIceCandidate
parse_pair k v out =
    if bytes_equal k text_raddr
    then record out { related_address = v }
    else if bytes_equal k text_rport
    then record out { related_port = int_or out.related_port v }
    else if bytes_equal k text_generation
    then record out { generation = int_or out.generation v }
    else if bytes_equal k text_ufrag
    then record out { ufrag = v }
    else if bytes_equal k text_network_id
    then record out { network_id = int_or out.network_id v }
    else if bytes_equal k text_network_cost
    then record out { network_cost = int_or out.network_cost v }
    else out

-- The loop over the keys and values: a key without a value is left.
unfoldable pub parse_pairs : List (List ℕ) → ParsedIceCandidate → ParsedIceCandidate
parse_pairs [] out = out
parse_pairs (k ∷ []) out = out
parse_pairs (k ∷ v ∷ rest) out = parse_pairs rest (parse_pair k v out)

-- A type that is known.
unfoldable pub known_type : IceCandidateType → Option IceCandidateType
known_type host = some host
known_type srflx = some srflx
known_type prflx = some prflx
known_type relay = some relay
known_type unknown = none

unfoldable pub parse_typed :
    ParsedIceCandidate → List ℕ → List ℕ → List (List ℕ) → Option ParsedIceCandidate
parse_typed out typ type_text rest =
    if not (bytes_equal typ text_typ)
    then none
    else elim (known_type (type_from_string type_text)) [
      | none ↦ none
      | some t ↦ some (parse_pairs rest (record out { type = t }))
    ]

unfoldable pub parse_tokens : List (List ℕ) → Option ParsedIceCandidate
parse_tokens (f ∷ c ∷ t ∷ pr ∷ ip ∷ po ∷ typ ∷ type_text ∷ rest) = elim (parse_int c) [
  | none ↦ none
  | some component ↦ elim (parse_u32 pr) [
    | none ↦ none
    | some priority ↦ elim (parse_int po) [
      | none ↦ none
      | some port ↦
          parse_typed
            (record new_candidate {
              foundation = f;
              component_id = component;
              transport = t;
              priority = priority;
              ip = ip;
              port = port;
            })
            typ type_text rest
    ]
  ]
]
parse_tokens _ = none

unfoldable pub strip_a : List ℕ → List ℕ
strip_a line = if bytes_equal (take 2 line) (b'a' ∷ b'=' ∷ []) then drop 2 line else line

unfoldable pub strip_candidate : List ℕ → List ℕ
strip_candidate line = if bytes_equal (take 10 line) text_candidate then drop 10 line else line

unfoldable pub parse : List ℕ → Option ParsedIceCandidate
parse sdp_line =
    let line = trim sdp_line in
    if length line == 0 then none else parse_tokens (split_spaces (strip_candidate (strip_a line)))

abbrev pub is_positive : ℤ → Bool
is_positive (pos n) = ltb 0 n
is_positive (negsuc n) = false

-- A key and a value, each behind a space.
abbrev pub key_value : List ℕ → List ℕ → List ℕ
key_value k v = b' ' ∷ (k ++ b' ' ∷ v)

unfoldable pub format : ParsedIceCandidate → List ℕ
format c =
    let transport = if length c.transport == 0 then text_udp else c.transport in
    text_candidate
    ++ (c.foundation
        ++ b' '
          ∷ (signed c.component_id
              ++ b' '
                ∷ (transport
                    ++ b' '
                      ∷ (number c.priority
                          ++ b' '
                            ∷ (c.ip
                                ++ b' '
                                  ∷ (signed c.port
                                      ++ b' '
                                        ∷ (text_typ
                                            ++ b' '
                                              ∷ (type_to_string c.type
                                                  ++ ((if length c.related_address == 0
                                                        then []
                                                        else key_value text_raddr c.related_address
                                                          ++ key_value text_rport
                                                            (signed c.related_port))
                                                      ++ (key_value text_generation
                                                            (signed c.generation)
                                                          ++ ((if length c.ufrag == 0
                                                            then []
                                                            else key_value text_ufrag c.ufrag)
                                                            ++ ((if is_positive c.network_id
                                                            then key_value text_network_id
                                                            (signed c.network_id)
                                                            else [])
                                                            ++ (if is_positive c.network_cost
                                                            then key_value text_network_cost
                                                            (signed c.network_cost)
                                                            else [])))))))))))))

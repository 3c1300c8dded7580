-- ===== src/IceCandidate/Tokens.antt =====
-- Trim, SplitSpaces, ParseInt and ParseU32 of src/voip/src/domain/ice_candidate.cpp.
use vianium_voip.Common.{
  ℕ, List, [], ◌∷◌, ◌++◌, Bool, true, false, ◌&&◌, ◌||◌, ◌==◌, if◌then◌else◌, length, Option, none,
  some,
}
use vianium_voip.Common.Int.{ℤ, pos}
use vianium_voip.Text.{strtol, strtoul, at_end}

-- A space, a tab, a carriage return or a line feed.
abbrev pub is_blank : ℕ → Bool
is_blank c = c == b' ' || c == 9 || c == 13 || c == 10

unfoldable pub trim_front : List ℕ → List ℕ
trim_front [] = []
trim_front (c ∷ cs) = if is_blank c then trim_front cs else c ∷ cs

unfoldable pub trim_back : List ℕ → List ℕ
trim_back [] = []
trim_back (c ∷ cs) =
    let rest = trim_back cs in if is_blank c && length rest == 0 then [] else c ∷ rest

unfoldable pub trim : List ℕ → List ℕ
trim s = trim_back (trim_front s)

abbrev pub is_separator : ℕ → Bool
is_separator c = c == b' ' || c == 9

-- A token that is not empty, in front of the others.
unfoldable pub put_token : List ℕ → List (List ℕ) → List (List ℕ)
put_token cur out = if length cur == 0 then out else cur ∷ out

-- The loop, with the token so far.
unfoldable pub split_loop : List ℕ → List ℕ → List (List ℕ)
split_loop cur [] = put_token cur []
split_loop cur (c ∷ cs) = elim (is_separator c) [
  | true ↦ put_token cur (split_loop [] cs)
  | false ↦ split_loop (cur ++ c ∷ []) cs
]

unfoldable pub split_spaces : List ℕ → List (List ℕ)
split_spaces s = split_loop [] s

-- At the first character that is no number the end pointer stays, and a text that starts with NUL is at
-- its end.
unfoldable pub parse_int : List ℕ → Option ℤ
parse_int s = elim (strtol s) [
  | none ↦ if length s == 0 then none else if at_end s then some (pos 0) else none
  | some (v, rest) ↦ if at_end rest then some v else none
]

unfoldable pub parse_u32 : List ℕ → Option ℕ
parse_u32 s = elim (strtoul s) [
  | none ↦ if length s == 0 then none else if at_end s then some 0 else none
  | some (v, rest) ↦ if at_end rest then some v else none
]

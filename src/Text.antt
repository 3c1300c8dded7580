-- ===== src/Text.antt =====
-- Numbers in text, as the C++ library prints and reads them where src/voip/src/domain/ice_candidate.cpp and
-- src/voip/src/application/ice_agent.cpp call it: `<<` of an integer, strtol, strtoul and `%u` of sscanf, with the
-- 32-bit `long` of the program's platform. A text is the list of its bytes.
pub mod Numbers
use vianium_voip.Common.{
  ℕ, zero, suc, ◌+◌, ◌-◌, ◌*◌, ◌/◌, ◌%◌, ◌^◌, ◌<◌, List, [], ◌∷◌, ◌++◌, Bool, true, false, ◌&&◌,
  ◌||◌, ltb, leb, ◌==◌, if◌then◌else◌, Option, none, some, length,
}
use vianium_voip.Common.Int.{ℤ, pos, negsuc}

-- The decimal digits, on fuel: a round divides by ten.
unfoldable pub digits : ℕ → ℕ → List ℕ
digits zero n = (n % 10 + b'0') ∷ []
digits (suc fuel) n =
    let front = digits fuel (n / 10) in
    if ltb n 10 then (n + b'0') ∷ [] else front ++ (n % 10 + b'0') ∷ []

unfoldable pub number : ℕ → List ℕ
number n = digits n n

unfoldable pub signed : ℤ → List ℕ
signed (pos n) = number n
signed (negsuc n) = b'-' ∷ number (suc n)

abbrev pub is_digit : ℕ → Bool
is_digit c = leb b'0' c && leb c b'9'

-- isspace
abbrev pub is_space : ℕ → Bool
is_space c = c == b' ' || leb 9 c && leb c 13

unfoldable pub skip_spaces : List ℕ → List ℕ
skip_spaces [] = []
skip_spaces (c ∷ cs) = if is_space c then skip_spaces cs else c ∷ cs

-- The value of the digits in front, and the text behind them.
unfoldable pub scan_digits : ℕ → List ℕ → ℕ × List ℕ
scan_digits acc [] = (acc, [])
scan_digits acc (c ∷ cs) =
    let more = scan_digits (acc * 10 + (c - b'0')) cs in if is_digit c then more else (acc, c ∷ cs)

-- `none` if there is no digit, and the end pointer stays at the start.
unfoldable pub scan_unsigned : List ℕ → Option (ℕ × List ℕ)
scan_unsigned [] = none
scan_unsigned (c ∷ cs) = if is_digit c then some (scan_digits 0 (c ∷ cs)) else none

-- The sign, if there is one: whether it is a minus, and the text behind it.
unfoldable pub scan_sign : List ℕ → Bool × List ℕ
scan_sign [] = (false, [])
scan_sign (c ∷ cs) =
    if c == b'-' then (true, cs) else if c == b'+' then (false, cs) else (false, c ∷ cs)

abbrev pub long_max : ℕ
long_max = 0x7fff_ffff

abbrev pub ulong_max : ℕ
ulong_max = 0xffff_ffff

-- A magnitude of a `long`, where one that is too large is cut to the limits.
unfoldable pub saturated : Bool → ℕ → ℤ
saturated negative v =
    if negative
    then if v == 0 then pos 0 else if ltb (long_max + 1) v then negsuc long_max else negsuc (v - 1)
    else if ltb long_max v
    then pos long_max
    else pos v

unfoldable pub saturated_unsigned : Bool → ℕ → ℕ
saturated_unsigned negative v =
    if ltb ulong_max v then ulong_max else if negative then (2 ^ 32 - v) % 2 ^ 32 else v

unfoldable pub signed_value : Bool × List ℕ → Option (ℤ × List ℕ)
signed_value (negative, text) = elim (scan_unsigned text) [
  | none ↦ none
  | some (v, rest) ↦ some (saturated negative v, rest)
]

unfoldable pub strtol : List ℕ → Option (ℤ × List ℕ)
strtol text = signed_value (scan_sign (skip_spaces text))

unfoldable pub unsigned_value : Bool × List ℕ → Option (ℕ × List ℕ)
unsigned_value (negative, text) = elim (scan_unsigned text) [
  | none ↦ none
  | some (v, rest) ↦ some (saturated_unsigned negative v, rest)
]

-- Also what `%u` of sscanf converts.
unfoldable pub strtoul : List ℕ → Option (ℕ × List ℕ)
strtoul text = unsigned_value (scan_sign (skip_spaces text))

-- `*endp == '\0'`
unfoldable pub at_end : List ℕ → Bool
at_end [] = true
at_end (c ∷ cs) = c == 0

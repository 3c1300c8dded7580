-- ===== src/Turn/MakeAddress.antt =====
-- MakeAddressIPv4, MakeAddress and FormatAddress of
-- src/voip/src/infrastructure/turn/turn_message.cpp.
use vianium_voip.Common.{
  ℕ, zero, suc, ◌+◌, ◌-◌, ◌*◌, ◌/◌, ◌%◌, ◌^◌, List, [], ◌∷◌, ◌++◌, Bool, true, false, ◌&&◌, ◌||◌,
  ltb, leb, ◌==◌, if◌then◌else◌, length, take, drop, replicate, Option, none, some, bit_or,
}
use vianium_voip.Common.Int.{ℤ, pos, negsuc}
use vianium_voip.Bytes.{u16, write_be16, read_be16}
use vianium_voip.Text.{number, is_digit}
use vianium_voip.Turn.{TurnAddress, new_address, family_ipv4, family_ipv6}

-- `static_cast<uint16_t>(port & 0xFFFF)`
unfoldable pub port_bits : ℤ → ℕ
port_bits (pos n) = u16 n
port_bits (negsuc n) = 0xffff - n % 2 ^ 16

unfoldable pub make_address_ipv4 : ℕ → ℕ → ℕ → ℕ → ℤ → TurnAddress
make_address_ipv4 a b c d port = record {
  family = family_ipv4;
  port = port_bits port;
  address = a ∷ b ∷ c ∷ d ∷ [];
}

unfoldable pub has_dot : List ℕ → Bool
has_dot [] = false
has_dot (c ∷ cs) = c == b'.' || has_dot cs

-- The loop over the text and a dot behind it: the parts so far, the number that is read and whether it
-- has a digit.
unfoldable pub dotted_loop : List ℕ → List ℕ → ℕ → Bool → Option (List ℕ)
dotted_loop [] parts acc in_digit = some parts
dotted_loop (ch ∷ rest) parts acc in_digit = elim (is_digit ch) [
  | true ↦ elim (ltb 255 (acc * 10 + (ch - b'0'))) [
    | true ↦ none
    | false ↦ dotted_loop rest parts (acc * 10 + (ch - b'0')) true
  ]
  | false ↦ elim (ch == b'.' && (in_digit && ltb (length parts) 4)) [
    | true ↦ dotted_loop rest (parts ++ acc ∷ []) 0 false
    | false ↦ none
  ]
]

-- An address that could not be read has only its port.
abbrev pub no_address : ℤ → TurnAddress
no_address port = record new_address { port = port_bits port }

unfoldable pub address_of_parts : ℤ → Option (List ℕ) → TurnAddress
address_of_parts port (some (a ∷ b ∷ c ∷ d ∷ [])) = make_address_ipv4 a b c d port
address_of_parts port _ = no_address port

unfoldable pub hex_value : ℕ → Option ℕ
hex_value ch =
    if leb b'0' ch && leb ch b'9'
    then some (ch - b'0')
    else if leb b'a' ch && leb ch b'f'
    then some (10 + (ch - b'a'))
    else if leb b'A' ch && leb ch b'F'
    then some (10 + (ch - b'A'))
    else none

-- At most `n` hexadecimal digits: the value, and the text behind them.
unfoldable pub hex_group : ℕ → List ℕ → ℕ → ℕ × List ℕ
hex_group zero text g = (g, text)
hex_group (suc n) [] g = (g, [])
hex_group (suc n) (ch ∷ cs) g = elim (hex_value ch) [
  | none ↦ (g, ch ∷ cs)
  | some v ↦ hex_group n cs (bit_or (g * 2 ^ 4) v)
]

-- A group behind the others, unless the text does not start with a digit.
unfoldable pub after_group :
    List ℕ
    → (ℕ × List ℕ → Option (List ℕ × Option ℕ))
    → List ℕ × Option ℕ
    → Option (List ℕ × Option ℕ)
after_group text go so_far =
    let read = hex_group 4 text 0 in if length read.1 == length text then some so_far else go read

-- The loop over an IPv6 address, on fuel: a round takes one character at least. The groups, and where the
-- double colon stood; `none` if there were two of them.
unfoldable pub group_loop : ℕ → List ℕ → List ℕ → Option ℕ → Option (List ℕ × Option ℕ)
group_loop zero text groups dbl = some (groups, dbl)
group_loop (suc fuel) [] groups dbl = some (groups, dbl)
group_loop (suc fuel) (ch ∷ cs) groups dbl = elim (ltb (length groups) 8) [
  | false ↦ some (groups, dbl)
  | true ↦ elim (ch == b':') [
    | false ↦
        after_group (ch ∷ cs) (λ r. group_loop fuel r.1 (groups ++ r.0 ∷ []) dbl) (groups, dbl)
    | true ↦ elim (take 1 cs) [
      | [] ↦ group_loop fuel cs groups dbl
      | next ∷ _ ↦ elim (next == b':') [
        | false ↦ group_loop fuel cs groups dbl
        | true ↦ elim dbl [
          | some k ↦ none
          | none ↦ group_loop fuel (drop 1 cs) groups (some (length groups))
        ]
      ]
    ]
  ]
]

-- The groups behind the double colon are moved to the end, with zeros in front of them.
unfoldable pub expand : List ℕ × Option ℕ → List ℕ
expand (groups, none) = groups
expand (groups, some k) = take k groups ++ (replicate (8 - length groups) 0 ++ drop k groups)

unfoldable pub group_bytes : List ℕ → List ℕ
group_bytes [] = []
group_bytes (g ∷ groups) = write_be16 g ++ group_bytes groups

unfoldable pub address_of_groups : ℤ → Option (List ℕ × Option ℕ) → TurnAddress
address_of_groups port none = no_address port
address_of_groups port (some found) =
    if length (expand found) == 8
    then (record {
      family = family_ipv6;
      port = port_bits port;
      address = group_bytes (expand found);
    })
    else no_address port

unfoldable pub make_address : List ℕ → ℤ → TurnAddress
make_address ip port =
    if length ip == 0
    then no_address port
    else if has_dot ip
    then address_of_parts port (dotted_loop (ip ++ b'.' ∷ []) [] 0 false)
    else address_of_groups port (group_loop (length ip) ip [] none)

-- `std::hex << g`, on fuel: a round divides by 16.
abbrev pub hex_digit : ℕ → ℕ
hex_digit v = if ltb v 10 then v + b'0' else v - 10 + b'a'

unfoldable pub hex_digits : ℕ → ℕ → List ℕ
hex_digits zero n = hex_digit (n % 16) ∷ []
hex_digits (suc fuel) n =
    let front = hex_digits fuel (n / 16) in
    if ltb n 16 then hex_digit n ∷ [] else front ++ hex_digit (n % 16) ∷ []

-- `n` groups with colons between them.
unfoldable pub colon_groups : ℕ → List ℕ → List ℕ
colon_groups zero bytes = []
colon_groups (suc n) bytes =
    let rest = colon_groups n (drop 2 bytes) in
    hex_digits 4 (read_be16 bytes) ++ (if n == 0 then [] else b':' ∷ rest)

unfoldable pub dotted : List ℕ → List ℕ
dotted [] = []
dotted (b ∷ []) = number b
dotted (b ∷ c ∷ bytes) = number b ++ b'.' ∷ dotted (c ∷ bytes)

abbrev pub text_unknown_family : List ℕ
text_unknown_family =
    b'(' ∷ b'u' ∷ b'n' ∷ b'k' ∷ b'n' ∷ b'o' ∷ b'w' ∷ b'n' ∷ b' ' ∷ b'f' ∷ b'a' ∷ b'm' ∷ b'i' ∷ b'l'
    ∷ b'y' ∷ b' ' ∷ []

unfoldable pub format_address : TurnAddress → List ℕ
format_address a =
    if a.family == family_ipv4 && length a.address == 4
    then dotted a.address ++ b':' ∷ number a.port
    else if a.family == family_ipv6 && length a.address == 16
    then b'[' ∷ (colon_groups 8 a.address ++ b']' ∷ b':' ∷ number a.port)
    else text_unknown_family ++ (number a.family ++ b')' ∷ [])

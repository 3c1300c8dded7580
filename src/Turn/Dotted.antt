-- ===== src/Turn/Dotted.antt =====
-- MakeAddress of src/voip/src/infrastructure/turn/turn_message.cpp reads what FormatAddress wrote of an
-- IPv4 address.
use vianium_voip.Common.{lt→ltb}
use vianium_voip.Common.{ltb-false}
use vianium_voip.Common.{
  ℕ, zero, suc, ◌+◌, ◌-◌, ◌*◌, ◌/◌, ◌%◌, ◌^◌, ◌≤◌, ◌<◌, ◌≡◌, refl, ap, ◌∙◌, List, [], ◌∷◌, ◌++◌,
  Bool, true, false, ltb, ◌==◌, length, some, arith, append_assoc, Bool-cases, inl, inr,
}
use vianium_voip.Common.Int.{pos}
use vianium_voip.Bytes.{AreBytes}
use vianium_voip.Text.{digits, number, is_digit}
use vianium_voip.Turn.MakeAddress.{
  port_bits, make_address_ipv4, has_dot, dotted_loop, address_of_parts, make_address, dotted,
  format_address,
}

digit_step :
    (ch acc : ℕ) (rest parts : List ℕ) (b : Bool)
    → is_digit ch ≡ true
    → acc * 10 + (ch - b'0') < 256
    → dotted_loop (ch ∷ rest) parts acc b ≡ dotted_loop rest parts (acc * 10 + (ch - b'0')) true
unfolding dotted_loop
digit_step ch acc rest parts b d small =
    rw (d, ltb-false 255 (acc * 10 + (ch - b'0')) (omega (arith, small)), dotted_loop) refl

-- A printed byte is read digit by digit.
digits_read :
    (f n : ℕ) (rest parts : List ℕ)
    → n ≤ f
    → n < 256
    → dotted_loop (digits f n ++ rest) parts 0 false ≡ dotted_loop rest parts n true
unfolding digits
digits_read zero n rest parts e h =
    digit_step (n % 10 + b'0') 0 rest parts false (ground arith) (omega arith)
    ∙ ap (λ (k : ℕ). dotted_loop rest parts k true) (omega (arith, e))
digits_read (suc f) n rest parts e h = elim (Bool-cases (ltb n 10)) [
  | inl small ↦ rw small (
      digit_step (n + b'0') 0 rest parts false (ground (arith, small)) (omega (arith, h))
      ∙ ap (λ (k : ℕ). dotted_loop rest parts k true) (omega arith))
  | inr large ↦ rw large (
      ap (λ (l : List ℕ). dotted_loop l parts 0 false)
        (append_assoc (digits f (n / 10)) ((n % 10 + b'0') ∷ []) rest)
      ∙ digits_read f (n / 10) ((n % 10 + b'0') ∷ rest) parts (ground (arith, large, e))
          (omega (arith, h))
      ∙ digit_step (n % 10 + b'0') (n / 10) rest parts true (ground arith) (omega (arith, h))
      ∙ ap (λ (k : ℕ). dotted_loop rest parts k true) (omega arith))
]

dot_step :
    (n : ℕ) (rest parts : List ℕ)
    → length parts < 4
    → dotted_loop (b'.' ∷ rest) parts n true ≡ dotted_loop rest (parts ++ n ∷ []) 0 false
unfolding dotted_loop
dot_step n rest parts h = rw (lt→ltb (length parts) 4 h, dotted_loop) refl

part_read :
    (n : ℕ) (rest parts : List ℕ)
    → n < 256
    → length parts < 4
    → dotted_loop (number n ++ b'.' ∷ rest) parts 0 false
      ≡ dotted_loop rest (parts ++ n ∷ []) 0 false
unfolding number
part_read n rest parts h k =
    digits_read n n (b'.' ∷ rest) parts (omega arith) h ∙ dot_step n rest parts k

-- The text of four bytes, and the dot that the loop puts behind it.
dotted_lem :
    (a b c d : ℕ)
    → dotted (a ∷ b ∷ c ∷ d ∷ []) ++ b'.' ∷ []
      ≡ number a ++ b'.' ∷ (number b ++ b'.' ∷ (number c ++ b'.' ∷ (number d ++ b'.' ∷ [])))
unfolding dotted
dotted_lem a b c d = simp append_assoc

dotted_read :
    (a b c d : ℕ)
    → AreBytes (a ∷ b ∷ c ∷ d ∷ [])
    → dotted_loop (dotted (a ∷ b ∷ c ∷ d ∷ []) ++ b'.' ∷ []) [] 0 false ≡ some (a ∷ b ∷ c ∷ d ∷ [])
unfolding dotted_loop
dotted_read a b c d h =
    ap (λ (l : List ℕ). dotted_loop l [] 0 false) (dotted_lem a b c d)
    ∙ part_read a _ [] h.0 (omega arith)
    ∙ part_read b _ (a ∷ []) h.1.0 (omega arith)
    ∙ part_read c _ (a ∷ b ∷ []) h.1.1.0 (omega arith)
    ∙ part_read d [] (a ∷ b ∷ c ∷ []) h.1.1.1.0 (omega arith)

has_dot-append : (xs ys : List ℕ) → has_dot (xs ++ b'.' ∷ ys) ≡ true
unfolding has_dot
has_dot-append [] ys = refl
has_dot-append (x ∷ xs) ys = rw (has_dot-append xs ys) (ground arith)

left_over : (xs ys : List ℕ) → (length (xs ++ b'.' ∷ ys) == 0) ≡ false
left_over [] ys = ground arith
left_over (x ∷ xs) ys = ground arith

make_address-dotted :
    (a b c d port : ℕ)
    → AreBytes (a ∷ b ∷ c ∷ d ∷ [])
    → make_address (dotted (a ∷ b ∷ c ∷ d ∷ [])) (pos port) ≡ make_address_ipv4 a b c d (pos port)
unfolding make_address address_of_parts
make_address-dotted a b c d port h = rw (dotted_read a b c d h, dot, some_text) refl
  where
    dot : has_dot (dotted (a ∷ b ∷ c ∷ d ∷ [])) ≡ true
    dot = unfold dotted in has_dot-append (number a) _

    some_text : (length (dotted (a ∷ b ∷ c ∷ d ∷ [])) == 0) ≡ false
    some_text = unfold dotted in left_over (number a) _

-- MakeAddress reads what FormatAddress wrote. For an IPv4 address of four bytes, with its port and bytes
-- in their types: the text of the address is one behind which a colon and the port stand, and MakeAddress
-- makes the address of it and the port, which is also what MakeAddressIPv4 makes of the four bytes.
pub make-format_address :
    (a b c d port : ℕ)
    → AreBytes (a ∷ b ∷ c ∷ d ∷ [])
    → port < 2 ^ 16
    → (ip : List ℕ) × (format_address
          (record { family = 1; port = port; address = a ∷ b ∷ c ∷ d ∷ [] })
        ≡ ip ++ b':' ∷ number port)
      × (make_address ip (pos port)
          ≡ record { family = 1; port = port; address = a ∷ b ∷ c ∷ d ∷ [] })
      × (make_address_ipv4 a b c d (pos port)
          ≡ record { family = 1; port = port; address = a ∷ b ∷ c ∷ d ∷ [] })
make-format_address a b c d port h fits =
    (dotted (a ∷ b ∷ c ∷ d ∷ []), written, make_address-dotted a b c d port h ∙ made, made)
  where
    written :
        format_address (record { family = 1; port = port; address = a ∷ b ∷ c ∷ d ∷ [] })
        ≡ dotted (a ∷ b ∷ c ∷ d ∷ []) ++ b':' ∷ number port
    written = unfold format_address in refl

    small : port % 2 ^ 16 ≡ port
    small = omega (arith, fits)

    made :
        make_address_ipv4 a b c d (pos port)
        ≡ record { family = 1; port = port; address = a ∷ b ∷ c ∷ d ∷ [] }
    made =
        unfold make_address_ipv4 in
        unfold port_bits in λ i. record { family = 1; port = small i; address = a ∷ b ∷ c ∷ d ∷ [] }

-- ===== src/Text/Numbers.antt =====
-- A number that is printed is read again, up to the first character that is no digit.
use vianium_voip.Common.{
  ℕ, zero, suc, ◌+◌, ◌/◌, ◌%◌, ◌^◌, ◌≤◌, ◌<◌, ◌≡◌, refl, sym, ap, ◌∙◌, List, [], ◌∷◌, ◌++◌, true,
  false, ltb, some, arith, append_assoc, Bool-cases, inl, inr,
}
use vianium_voip.Common.Int.{ℤ, pos, negsuc}
use vianium_voip.Text.{
  digits, number, signed, is_digit, skip_spaces, scan_digits, scan_unsigned, scan_sign, strtol,
  strtoul, signed_value, unsigned_value, saturated, saturated_unsigned,
}

-- The text behind a number does not go on with a digit.
abbrev pub Stops : List ℕ → Type 0
Stops [] = Unit {0}
Stops (c ∷ cs) = is_digit c ≡ false

scan-digits :
    (f n : ℕ) (rest : List ℕ) → n ≤ f → scan_digits 0 (digits f n ++ rest) ≡ scan_digits n rest
unfolding digits scan_digits
scan-digits zero n rest h = ground arith
scan-digits (suc f) n rest h = elim (Bool-cases (ltb n 10)) [
  | inl small ↦ rw small (ground arith)
  | inr large ↦ rw large (
      ap (scan_digits 0) (append_assoc (digits f (n / 10)) ((n % 10 + b'0') ∷ []) rest)
      ∙ scan-digits f (n / 10) ((n % 10 + b'0') ∷ rest) (ground (arith, large))
      ∙ ground arith)
]

scan-Stops : (n : ℕ) (rest : List ℕ) → Stops rest → scan_digits n rest ≡ (n, rest)
unfolding scan_digits
scan-Stops n [] h = refl
scan-Stops n (c ∷ cs) h = rw h refl

-- The first character of a number is a digit.
first_digit :
    (f n : ℕ) (rest : List ℕ)
    → (c : ℕ) × (cs : List ℕ) × (digits f n ++ rest ≡ c ∷ cs) × (is_digit c ≡ true)
unfolding digits
first_digit zero n rest = (n % 10 + b'0', rest, refl, ground arith)
first_digit (suc f) n rest = elim (Bool-cases (ltb n 10)) [
  | inl small ↦ (n + b'0', rest, rw small refl, ground (arith, small))
  | inr large ↦
      let (c, cs, e, d) = first_digit f (n / 10) ((n % 10 + b'0') ∷ rest) in
      (c, cs, rw large (append_assoc (digits f (n / 10)) ((n % 10 + b'0') ∷ []) rest ∙ e), d)
]

pub scan_unsigned-number :
    (n : ℕ) (rest : List ℕ) → Stops rest → scan_unsigned (number n ++ rest) ≡ some (n, rest)
unfolding number scan_unsigned
scan_unsigned-number n rest h =
    let (c, cs, e, d) = first_digit n n rest in
    rw (e, d)
      (ap (λ (r : ℕ × List ℕ). some r)
        (ap (scan_digits 0) (sym e) ∙ scan-digits n n rest (omega arith) ∙ scan-Stops n rest h))

-- In front of a digit there is neither space nor sign to skip.
at_digit :
    (c : ℕ) (cs : List ℕ) → is_digit c ≡ true → scan_sign (skip_spaces (c ∷ cs)) ≡ (false, c ∷ cs)
unfolding scan_sign skip_spaces
at_digit c cs h = ground (arith, h)

at_number :
    (n : ℕ) (rest : List ℕ) → scan_sign (skip_spaces (number n ++ rest)) ≡ (false, number n ++ rest)
unfolding number
at_number n rest = let (c, cs, e, d) = first_digit n n rest in rw e (at_digit c cs d)

at_minus : (cs : List ℕ) → scan_sign (skip_spaces (b'-' ∷ cs)) ≡ (true, cs)
unfolding scan_sign skip_spaces
at_minus cs = refl

pub strtoul-number :
    (n : ℕ) (rest : List ℕ) → n < 2 ^ 32 → Stops rest → strtoul (number n ++ rest) ≡ some (n, rest)
unfolding strtoul unsigned_value saturated_unsigned
strtoul-number n rest h s =
    ap unsigned_value (at_number n rest)
    ∙ rw (scan_unsigned-number n rest s, unsigned_value) (ground (arith, h))

-- The values of an `int`.
abbrev pub IsInt : ℤ → Type 0
IsInt (pos n) = n < 2 ^ 31
IsInt (negsuc n) = n < 2 ^ 31

pub strtol-signed :
    (z : ℤ) (rest : List ℕ) → IsInt z → Stops rest → strtol (signed z ++ rest) ≡ some (z, rest)
unfolding strtol signed signed_value saturated
strtol-signed (pos n) rest h s =
    ap signed_value (at_number n rest)
    ∙ rw (scan_unsigned-number n rest s, signed_value) (ground (arith, h))
strtol-signed (negsuc n) rest h s =
    ap signed_value (at_minus (number (suc n) ++ rest))
    ∙ rw (scan_unsigned-number (suc n) rest s, signed_value) (ground (arith, h))

-- ===== src/Stun/Wire.antt =====
-- The attributes that AppendAttr of src/voip/src/infrastructure/ice/stun_message.cpp writes, as
-- values: type, length, value and zeros up to a multiple of four.
use vianium_voip.Common.{
  ℕ, ◌+◌, ◌%◌, ◌≤◌, ◌≡◌, refl, ap, ◌∙◌, List, [], ◌∷◌, ◌++◌, ◌==◌, if◌then◌else◌, length, arith,
  length-append, append_assoc, append-nil, bit_and,
}
use vianium_voip.Common.Bits.{bit_and_mask}
use vianium_voip.Bytes.{u16, write_be16}
use vianium_voip.Stun.Encode.{pad_rounds, append_attr}
use vianium_voip.Stun.Decode.{advance_rounds}

-- The zeros behind `n` bytes.
unfoldable pub padding : ℕ → List ℕ
padding n =
    if n % 4 == 0
    then []
    else if n % 4 == 1
    then 0 ∷ 0 ∷ 0 ∷ []
    else if n % 4 == 2
    then 0 ∷ 0 ∷ []
    else 0 ∷ []

unfoldable pub tlv : ℕ → List ℕ → List ℕ
tlv type value =
    write_be16 type ++ (write_be16 (u16 (length value)) ++ (value ++ padding (length value)))

pub padding_fills : (n : ℕ) → (n + length (padding n)) % 4 ≡ 0
unfolding padding
padding_fills n = ground arith

padding_mod : (n m : ℕ) → n % 4 ≡ m % 4 → padding n ≡ padding m
unfolding padding
padding_mod n m e = rw e refl

pub length-padding : (n : ℕ) → length (padding n) ≤ 3
unfolding padding
length-padding n = ground arith

low_two : (n : ℕ) → bit_and n 3 ≡ n % 4
low_two n = bit_and_mask 2 n

pad_rounds_lem : (buf : List ℕ) → pad_rounds 3 buf ≡ buf ++ padding (length buf)
unfolding pad_rounds padding
pad_rounds_lem buf = ground (
  arith,
  low_two (length buf),
  low_two (length (buf ++ 0 ∷ [])),
  low_two (length ((buf ++ 0 ∷ []) ++ 0 ∷ [])),
  length-append buf (0 ∷ []),
  length-append (buf ++ 0 ∷ []) (0 ∷ []),
  append_assoc buf (0 ∷ []) (0 ∷ []),
  append_assoc buf (0 ∷ 0 ∷ []) (0 ∷ []),
  append_assoc (buf ++ 0 ∷ []) (0 ∷ []) (0 ∷ []),
  append_assoc buf (0 ∷ []) (0 ∷ 0 ∷ []),
  append-nil buf,
)

pub advance_rounds_lem : (n : ℕ) → advance_rounds 3 n ≡ n + length (padding n)
unfolding advance_rounds padding
advance_rounds_lem n =
    ground (arith, low_two n, low_two (n + 1), low_two (n + 1 + 1), low_two (n + 1 + 1 + 1))

-- The two loops of the source agree on where the next attribute starts.
pub advance_lem : (n : ℕ) → advance_rounds 3 (4 + n) ≡ 4 + n + length (padding n)
advance_lem n =
    advance_rounds_lem (4 + n)
    ∙ ap (λ (l : List ℕ). 4 + n + length l) (padding_mod (4 + n) n (omega arith))

pub length-tlv :
    (type : ℕ) (value : List ℕ)
    → (length (tlv type value) ≡ 4 + length value + length (padding (length value)))
      × (length (tlv type value) % 4 ≡ 0)
unfolding tlv write_be16
length-tlv type value = (size, omega (arith, size, padding_fills (length value)))
  where
    size : length (tlv type value) ≡ 4 + length value + length (padding (length value))
    size = omega (arith, length-append value (padding (length value)))

-- Behind a whole number of words.
pub append_attr_lem :
    (type : ℕ) (value buf : List ℕ)
    → length buf % 4 ≡ 0
    → append_attr type value buf ≡ buf ++ tlv type value
unfolding append_attr tlv
append_attr_lem type value buf h =
    pad_rounds_lem (buf ++ (write_be16 type ++ (write_be16 (u16 (length value)) ++ value)))
    ∙ ap
        (λ (l : List ℕ).
          (buf ++ (write_be16 type ++ (write_be16 (u16 (length value)) ++ value))) ++ l)
        (padding_mod _ (length value) same)
    ∙ regroup
  where
    same :
        length (buf ++ (write_be16 type ++ (write_be16 (u16 (length value)) ++ value))) % 4
        ≡ length value % 4
    same =
        unfold write_be16 in
        omega (
          arith,
          h,
          length-append buf (write_be16 type ++ (write_be16 (u16 (length value)) ++ value)),
        )

    regroup :
        (buf ++ (write_be16 type ++ (write_be16 (u16 (length value)) ++ value)))
          ++ padding (length value)
        ≡ buf ++ tlv type value
    regroup = unfold tlv in simp append_assoc

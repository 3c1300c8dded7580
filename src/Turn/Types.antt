-- ===== src/Turn/Types.antt =====
-- TurnMessageType, TurnMethodOf and TurnClassOf of src/voip/src/infrastructure/turn/turn_message.h,
-- against the message types of RFC 5389, section 6.
use vianium_voip.Common.{inr}
use vianium_voip.Common.{◌∙◌}
use vianium_voip.Common.{ap}
use vianium_voip.Common.{inl}
use vianium_voip.Common.{Bool-cases}
use vianium_voip.Common.{
  ℕ, zero, suc, ◌+◌, ◌*◌, ◌/◌, ◌%◌, ◌<◌, ◌≡◌, refl, Bool, true, ◌&&◌, ◌==◌, ==_iff, arith,
}
use vianium_voip.Turn.{turn_message_type, turn_method_of, turn_class_of}

-- A class by its two bits, as the constants of the header have them.
abbrev pub class_of_bits : ℕ → ℕ → ℕ
class_of_bits c1 c0 = c1 * 0x100 + c0 * 0x10

-- The type of RFC 5389 for a method below 0x80: bit 8 is the high bit of the class and bit 4 the low
-- one, with the bits of the method around them.
unfoldable pub rfc_type : ℕ → ℕ → ℕ → ℕ
rfc_type method c1 c0 = method % 16 + c0 * 16 + method / 16 * 32 + c1 * 256

all_below : ℕ → (ℕ → Bool) → Bool
all_below zero test = true
all_below (suc n) test = test n && all_below n test

all_below_lem :
    (n : ℕ) (test : ℕ → Bool) → all_below n test ≡ true → (k : ℕ) → k < n → test k ≡ true
unfolding all_below
all_below_lem zero test e k h = absurd (omega (arith, h))
all_below_lem (suc n) test e k h = elim (Bool-cases (k == n)) [
  | inl same ↦ ap test ((==_iff k n).0 same) ∙ ground (arith, e)
  | inr other ↦ all_below_lem n test (ground (arith, e)) k (ground (arith, h, other))
]

-- The four readings of one method, computed.
test_method : ℕ → ℕ → ℕ → Bool
test_method c1 c0 m =
    let cls = class_of_bits c1 c0 in
    turn_class_of (rfc_type m c1 c0) == c0 * 0x10
    && turn_method_of (rfc_type m c1 c0) == m
    && turn_class_of (turn_message_type m cls) == cls
    && turn_method_of (turn_message_type m cls) == m + c1 * 0x80

tested : (c1 c0 : ℕ) → c1 < 2 → c0 < 2 → all_below 0x80 (test_method c1 c0) ≡ true
unfolding all_below test_method rfc_type turn_class_of turn_method_of turn_message_type
tested zero zero p q = refl
tested zero (suc zero) p q = refl
tested (suc zero) zero p q = refl
tested (suc zero) (suc zero) p q = refl
tested zero (suc (suc c)) p q = absurd (omega (arith, q))
tested (suc zero) (suc (suc c)) p q = absurd (omega (arith, q))
tested (suc (suc c)) c0 p q = absurd (omega (arith, p))

-- The class bit that the header puts at bit 9 stands at bit 8 in RFC 5389. For every method below 0x80
-- and every class: of a type of RFC 5389 the method is read and the low bit of the class, but a success
-- response is read as a request and an error response as an indication; of a type that the header itself
-- composes the class is read, but the method of a response is read with 0x80 added.
pub class_bit_misplaced :
    (method c1 c0 : ℕ)
    → method < 0x80
    → c1 < 2
    → c0 < 2
    → (turn_class_of (rfc_type method c1 c0) ≡ c0 * 0x10)
      × (turn_method_of (rfc_type method c1 c0) ≡ method)
      × (turn_class_of (turn_message_type method (class_of_bits c1 c0)) ≡ class_of_bits c1 c0)
      × (turn_method_of (turn_message_type method (class_of_bits c1 c0)) ≡ method + c1 * 0x80)
unfolding test_method
class_bit_misplaced method c1 c0 h p q =
    ground (arith, all_below_lem 0x80 (test_method c1 c0) (tested c1 c0 p q) method h)

-- ===== src/Common/Xor.antt =====
-- `^` on words: it undoes itself.
use Prim.Native.Nat.{◌+◌}
use Prim.Native.Nat.{◌*◌}
use mathlib.Core.Path.{sym}
use Prim.Native.Nat.{differ, bit_xor, bit_xor-bitwise}
use vianium_voip.Common.Bits.{half_induction, bit_xor_step, shift_suc}
use Prim.Native.Nat.{ℕ, ◌+◌, ◌*◌, zero, suc, ◌/◌, ◌%◌, ◌<◌}
use mathlib.Core.Path.{◌≡◌, refl, sym, ap, ap₂, ◌∙◌}
use native.Mathlib.Omega.{arith}
use native.Mathlib.Nat.{pow-suc}
use Prim.Native.Nat.{◌^◌}

differ_twice : (x y : ℕ) → x < 2 → y < 2 → differ (differ x y) y ≡ x
differ_twice zero zero h k = refl
differ_twice zero (suc zero) h k = refl
differ_twice (suc zero) zero h k = refl
differ_twice (suc zero) (suc zero) h k = refl
differ_twice zero (suc (suc y)) h k = absurd (omega (arith, k))
differ_twice (suc zero) (suc (suc y)) h k = absurd (omega (arith, k))
differ_twice (suc (suc x)) y h k = absurd (omega (arith, h))

differ_self : (x : ℕ) → differ x x ≡ 0
differ_self zero = refl
differ_self (suc x) = differ_self x

differ_bits : (x y : ℕ) → x < 2 → y < 2 → differ x y < 2
differ_bits zero zero h k = omega arith
differ_bits zero (suc zero) h k = omega arith
differ_bits (suc zero) zero h k = omega arith
differ_bits (suc zero) (suc zero) h k = omega arith
differ_bits zero (suc (suc y)) h k = absurd (omega (arith, k))
differ_bits (suc zero) (suc (suc y)) h k = absurd (omega (arith, k))
differ_bits (suc (suc x)) y h k = absurd (omega (arith, h))

bit_xor-parts :
    (a b : ℕ)
    → (bit_xor a b / 2 ≡ bit_xor (a / 2) (b / 2)) × (bit_xor a b % 2 ≡ differ (a % 2) (b % 2))
bit_xor-parts a b =
    omega (arith, bit_xor_step a b, differ_bits (a % 2) (b % 2) (omega arith) (omega arith))

pub zero-bit_xor : (b : ℕ) → bit_xor 0 b ≡ b
zero-bit_xor b = bit_xor-bitwise 0 b

pub bit_xor_self : (k : ℕ) → bit_xor k k ≡ 0
bit_xor_self =
    half_induction (λ k. bit_xor k k ≡ 0) refl
      (λ n ih. omega (arith, bit_xor_step (suc n) (suc n), ih, differ_self (suc n % 2)))

-- `(a ^ k) ^ k` is `a`.
pub bit_xor_twice : (a k : ℕ) → bit_xor (bit_xor a k) k ≡ a
bit_xor_twice =
    half_induction (λ a. (k : ℕ) → bit_xor (bit_xor a k) k ≡ a)
      (λ k. rw (zero-bit_xor k) (bit_xor_self k))
      (λ n ih k.
        bit_xor_step (bit_xor (suc n) k) k
        ∙ rw ((bit_xor-parts (suc n) k).0, (bit_xor-parts (suc n) k).1)
            (omega
              (arith, ih (k / 2), differ_twice (suc n % 2) (k % 2) (omega arith) (omega arith))))

pub bit_xor_bound : (k a b : ℕ) → a < 2 ^ k → b < 2 ^ k → bit_xor a b < 2 ^ k
bit_xor_bound zero a b p q = ground arith
bit_xor_bound (suc k) a b p q = ground (
  arith,
  bit_xor_step a b,
  differ_bits (a % 2) (b % 2) (omega arith) (omega arith),
  pow-suc 2 k,
  bit_xor_bound k (a / 2) (b / 2),
)

differ-zero : (x : ℕ) → differ x 0 ≡ x
differ-zero zero = refl
differ-zero (suc x) = refl

pub bit_xor-zero : (a : ℕ) → bit_xor a 0 ≡ a
bit_xor-zero =
    half_induction (λ a. bit_xor a 0 ≡ a) refl
      (λ n ih. omega (arith, bit_xor_step (suc n) 0, ih, differ-zero (suc n % 2)))

differ_assoc : (x y z : ℕ) → x < 2 → y < 2 → z < 2 → differ (differ x y) z ≡ differ x (differ y z)
differ_assoc zero y z h k l = refl
differ_assoc (suc zero) zero z h k l = refl
differ_assoc (suc zero) (suc zero) zero h k l = refl
differ_assoc (suc zero) (suc zero) (suc zero) h k l = refl
differ_assoc (suc zero) (suc zero) (suc (suc z)) h k l = absurd (omega (arith, l))
differ_assoc (suc zero) (suc (suc y)) z h k l = absurd (omega (arith, k))
differ_assoc (suc (suc x)) y z h k l = absurd (omega (arith, h))

pub bit_xor_assoc : (a b c : ℕ) → bit_xor (bit_xor a b) c ≡ bit_xor a (bit_xor b c)
bit_xor_assoc =
    half_induction (λ a. (b c : ℕ) → bit_xor (bit_xor a b) c ≡ bit_xor a (bit_xor b c))
      (λ b c. rw (zero-bit_xor b, zero-bit_xor (bit_xor b c)) refl)
      (λ n ih b c.
        bit_xor_step (bit_xor (suc n) b) c
        ∙ rw
            (
              (bit_xor-parts (suc n) b).0,
              (bit_xor-parts (suc n) b).1,
              differ_assoc (suc n % 2) (b % 2) (c % 2) (omega arith) (omega arith) (omega arith),
              ih (b / 2) (c / 2),
              bit_xor_step (suc n) (bit_xor b c),
              (bit_xor-parts b c).0,
              (bit_xor-parts b c).1,
            )
            refl)

-- Where the two have no bit in common, `^` is a sum.
pub bit_xor_high : (k r q : ℕ) → r < 2 ^ k → bit_xor r (q * 2 ^ k) ≡ r + q * 2 ^ k
bit_xor_high zero r q h = ground (arith, zero-bit_xor q)
bit_xor_high (suc k) r q h = ground (
  arith,
  bit_xor_step r (q * 2 ^ suc k),
  shift_suc k q,
  pow-suc 2 k,
  differ-zero (r % 2),
  bit_xor_high k (r / 2) q,
)

halved : ℕ → ℕ → ℕ
halved zero n = n
halved (suc k) n = halved k (n / 2)

halved-bit_xor : (k a b : ℕ) → halved k (bit_xor a b) ≡ bit_xor (halved k a) (halved k b)
unfolding halved
halved-bit_xor zero a b = refl
halved-bit_xor (suc k) a b = ap (halved k) (bit_xor-parts a b).0 ∙ halved-bit_xor k (a / 2) (b / 2)

eight_times : (n : ℕ) → halved 8 n ≡ n / 256
unfolding halved
eight_times n = omega arith

-- A byte leaves what stands above it.
pub bit_xor_byte : (c b : ℕ) → b < 256 → bit_xor c b / 256 ≡ c / 256
bit_xor_byte c b h =
    sym (eight_times (bit_xor c b))
    ∙ halved-bit_xor 8 c b
    ∙ ap₂ bit_xor (eight_times c) (eight_times b)
    ∙ ap (bit_xor (c / 256)) (omega (arith, h))
    ∙ bit_xor-zero (c / 256)

-- `^` with an even number.
pub bit_xor_double :
    (m h : ℕ) → (bit_xor m (h * 2) % 2 ≡ m % 2) × (bit_xor m (h * 2) / 2 ≡ bit_xor (m / 2) h)
bit_xor_double m h = (
  (bit_xor-parts m (h * 2)).1 ∙ ap (differ (m % 2)) (omega arith) ∙ differ-zero (m % 2),
  (bit_xor-parts m (h * 2)).0 ∙ ap (bit_xor (m / 2)) (omega arith),
)

-- ===== src/Common/Bits.antt =====
-- `&`, `|` and `^` as arithmetic on binary digits, at every width: `&` with a low mask is a
-- remainder, and `|` of disjoint fields is a sum.
use Prim.Native.Nat.{
  min, max, differ, digits, bitwise, bit_and-bitwise, bit_or-bitwise, bit_xor-bitwise,
}
use mathlib.Core.Path.{◌≡◌, refl, sym, ap, ◌∙◌}
use mathlib.Core.WellFounded.{Acc, WellFounded as WF}
use mathlib.Core.WellFounded
use native.Mathlib.Nat.{pow-suc, one-le-pow}
use native.Mathlib.Omega.{arith}
use Prim.Native.Nat.{ℕ, zero, suc, ◌+◌, ◌-◌, ◌*◌, ◌/◌, ◌%◌, ◌^◌, ◌≤◌, ◌<◌, bit_and, bit_or, bit_xor}

Acc-below : (k n : ℕ) → n < k → Acc ◌<◌ n
Acc-below zero n h = elim h [ ]
Acc-below (suc k) n h = Acc.intro n (λ m hm. Acc-below k m (omega arith))

lt_wf : WF ◌<◌
unfolding Acc-below
lt_wf = record { apply = λ n. Acc-below (suc n) n (omega arith) }

-- Induction from a number's half, its digits without the lowest, to the number.
pub half_induction : (P : ℕ → Type 0) → P 0 → ((n : ℕ) → P (suc n / 2) → P (suc n)) → (n : ℕ) → P n
half_induction P base up n = WellFounded.induction lt_wf n below
  where
    below : (m : ℕ) → ((j : ℕ) → j < m → P j) → P m
    below zero ih = base
    below (suc m) ih = up m (ih (suc m / 2) (omega arith))

-- An operation on two words that is the digit-wise `f`, with `z` where the first word has run out.
module _ (z : ℕ → ℕ) (f : ℕ → ℕ → ℕ) (op : ℕ → ℕ → ℕ)
    (digitwise : (a b : ℕ) → op a b ≡ bitwise z f a b)
    (run_out : (b : ℕ) → z b ≡ z (b / 2) * 2 + f 0 (b % 2)) where
  -- Any count of digits that is at least the number is enough.
  enough : (k n a b : ℕ) → a ≤ k → a ≤ n → digits z f n a b ≡ bitwise z f a b
  enough k zero zero b p q = refl
  enough k (suc n) zero b p q = refl
  enough k zero (suc a) b p q = absurd (omega (arith, q))
  enough zero (suc n) (suc a) b p q = absurd (omega (arith, p))
  enough (suc k) (suc n) (suc a) b p q =
      let half = suc a / 2 in
      ap (λ (t : ℕ). t * 2 + f (suc a % 2) (b % 2))
        (enough k n half (b / 2) (omega (arith, p)) (omega (arith, q))
          ∙ sym (enough k a half (b / 2) (omega (arith, p)) (omega arith)))

  settled : (n a b : ℕ) → a ≤ n → digits z f n a b ≡ op a b
  settled n a b h = enough a n a b (omega arith) h ∙ sym (digitwise a b)

  -- The lowest digit is split off.
  lowest : (a b : ℕ) → op a b ≡ op (a / 2) (b / 2) * 2 + f (a % 2) (b % 2)
  lowest zero b =
      digitwise 0 b ∙ run_out b ∙ ap (λ (t : ℕ). t * 2 + f 0 (b % 2)) (sym (digitwise 0 (b / 2)))
  lowest (suc a) b =
      digitwise (suc a) b
      ∙ ap (λ (t : ℕ). t * 2 + f (suc a % 2) (b % 2)) (settled a (suc a / 2) (b / 2) (omega arith))

pub bit_or_step : (a b : ℕ) → bit_or a b ≡ bit_or (a / 2) (b / 2) * 2 + max (a % 2) (b % 2)
bit_or_step = lowest (λ y. y) max bit_or (λ a b. bit_or-bitwise a b) (λ b. omega arith)

pub bit_and_step : (a b : ℕ) → bit_and a b ≡ bit_and (a / 2) (b / 2) * 2 + min (a % 2) (b % 2)
bit_and_step = lowest (λ y. 0) min bit_and (λ a b. bit_and-bitwise a b) (λ b. omega arith)

pub bit_xor_step : (a b : ℕ) → bit_xor a b ≡ bit_xor (a / 2) (b / 2) * 2 + differ (a % 2) (b % 2)
bit_xor_step = lowest (λ y. y) differ bit_xor (λ a b. bit_xor-bitwise a b) (λ b. omega arith)

pub bit_or-zero : (a : ℕ) → bit_or a 0 ≡ a
bit_or-zero =
    half_induction (λ a. bit_or a 0 ≡ a) refl (λ n ih. omega (arith, bit_or_step (suc n) 0, ih))

pub bit_and-zero : (a : ℕ) → bit_and a 0 ≡ 0
bit_and-zero =
    half_induction (λ a. bit_and a 0 ≡ 0) refl (λ n ih. omega (arith, bit_and_step (suc n) 0, ih))

pub shift_suc : (k q : ℕ) → q * 2 ^ suc k ≡ 2 * (q * 2 ^ k)
shift_suc k q = omega (arith, ap (λ (t : ℕ). q * t) (pow-suc 2 k))

zero-bit_or : (b : ℕ) → bit_or 0 b ≡ b
zero-bit_or b = bit_or-bitwise 0 b

-- `(q << k) | r` and `r | (q << k)` are sums when `r` fits `k` bits.
pub bit_or_high : (k q r : ℕ) → r < 2 ^ k → bit_or (q * 2 ^ k) r ≡ q * 2 ^ k + r
bit_or_high zero q r fits = ground (arith, bit_or-zero q)
bit_or_high (suc k) q r fits =
    ground
      (arith, bit_or_step (q * 2 ^ suc k) r, shift_suc k q, pow-suc 2 k, bit_or_high k q (r / 2))

pub bit_or_low : (k q r : ℕ) → r < 2 ^ k → bit_or r (q * 2 ^ k) ≡ r + q * 2 ^ k
bit_or_low zero q r fits = ground (arith, zero-bit_or q)
bit_or_low (suc k) q r fits =
    ground
      (arith, bit_or_step r (q * 2 ^ suc k), shift_suc k q, pow-suc 2 k, bit_or_low k q (r / 2))

-- `a & (2 ^ k - 1)` is the remainder by `2 ^ k`.
bit_and_below : (k q r : ℕ) → r < 2 ^ k → bit_and (q * 2 ^ k + r) (2 ^ k - 1) ≡ r
bit_and_below zero q r fits = rw bit_and-zero (omega arith)
bit_and_below (suc k) q r fits = ground (
  arith,
  bit_and_step (q * 2 ^ suc k + r) (2 ^ suc k - 1),
  shift_suc k q,
  pow-suc 2 k,
  bit_and_below k q (r / 2),
)

pub bit_and_mask : (k a : ℕ) → bit_and a (2 ^ k - 1) ≡ a % 2 ^ k
bit_and_mask k a =
    let high = a / 2 ^ k in ground (bit_and_below k high (a % 2 ^ k), one-le-pow k 2, arith)

-- `|` and `&` of numbers that are cut at the same bit go part by part.
pub bit_or_split :
    (k a b r s : ℕ)
    → r < 2 ^ k
    → s < 2 ^ k
    → bit_or (a * 2 ^ k + r) (b * 2 ^ k + s) ≡ bit_or a b * 2 ^ k + bit_or r s
bit_or_split zero a b r s hr hs = ground (arith, bit_or-zero 0)
bit_or_split (suc k) a b r s hr hs = ground (
  arith,
  bit_or_step (a * 2 ^ suc k + r) (b * 2 ^ suc k + s),
  bit_or_step r s,
  shift_suc k a,
  shift_suc k b,
  shift_suc k (bit_or a b),
  pow-suc 2 k,
  bit_or_split k a b (r / 2) (s / 2),
)

pub bit_and_split :
    (k a b r s : ℕ)
    → r < 2 ^ k
    → s < 2 ^ k
    → bit_and (a * 2 ^ k + r) (b * 2 ^ k + s) ≡ bit_and a b * 2 ^ k + bit_and r s
bit_and_split zero a b r s hr hs = ground (arith, bit_and-zero 0)
bit_and_split (suc k) a b r s hr hs = ground (
  arith,
  bit_and_step (a * 2 ^ suc k + r) (b * 2 ^ suc k + s),
  bit_and_step r s,
  shift_suc k a,
  shift_suc k b,
  shift_suc k (bit_and a b),
  pow-suc 2 k,
  bit_and_split k a b (r / 2) (s / 2),
)

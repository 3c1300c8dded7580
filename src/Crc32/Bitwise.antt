-- ===== src/Crc32/Bitwise.antt =====
-- Crc32::Compute of src/voip/src/infrastructure/ice/crc32.cpp against the definition of the checksum
-- by a shift register, which takes the message bit by bit and has no table.
use vianium_voip.Common.{
  ℕ, zero, suc, ◌*◌, ◌/◌, ◌%◌, ◌^◌, ◌<◌, ◌≡◌, refl, sym, ap, ap₂, ◌∙◌, List, [], ◌∷◌, bit_xor,
  arith,
}
use vianium_voip.Common.Bits.{bit_and_mask, shift_suc}
use vianium_voip.Common.Xor.{bit_xor_double, bit_xor_assoc, bit_xor_high, bit_xor_byte}
use vianium_voip.Bytes.{AreBytes}
use vianium_voip.Crc32.{
  shift_bit, shift_bits, table_entry, crc_step, crc_bytes, compute, compute_bound,
}

-- A byte enters the register and is shifted out bit by bit.
unfoldable pub register_step : ℕ → ℕ → ℕ
register_step c byte = shift_bits 8 (bit_xor c byte)

unfoldable pub register_bytes : ℕ → List ℕ → ℕ
register_bytes c [] = c
register_bytes c (b ∷ bs) = register_bytes (register_step c b) bs

unfoldable pub register_compute : List ℕ → ℕ
register_compute bytes = bit_xor (register_bytes 0xFFFFFFFF bytes) 0xFFFFFFFF

-- Bits that are not shifted out yet pass through.
shift_bit_high : (m h : ℕ) → shift_bit (bit_xor m (h * 2)) ≡ bit_xor (shift_bit m) h
unfolding shift_bit
shift_bit_high m h =
    rw (bit_and_mask 1 (bit_xor m (h * 2)), bit_and_mask 1 m, same_bit, halves)
      (ground (arith, bit_xor_assoc 0xEDB88320 (m / 2) h))
  where
    same_bit : bit_xor m (h * 2) % 2 ≡ m % 2
    same_bit = (bit_xor_double m h).0

    halves : bit_xor m (h * 2) / 2 ≡ bit_xor (m / 2) h
    halves = (bit_xor_double m h).1

shift_bits_high : (k m h : ℕ) → shift_bits k (bit_xor m (h * 2 ^ k)) ≡ bit_xor (shift_bits k m) h
unfolding shift_bits
shift_bits_high zero m h = ap (bit_xor m) (omega arith)
shift_bits_high (suc k) m h =
    ap (λ (t : ℕ). shift_bits k (shift_bit (bit_xor m t))) (omega (arith, shift_suc k h))
    ∙ ap (shift_bits k) (shift_bit_high m (h * 2 ^ k))
    ∙ shift_bits_high k (shift_bit m) h

-- A step by the table is the step of the register.
step_lem : (c b : ℕ) → b < 256 → crc_step c b ≡ register_step c b
unfolding crc_step register_step table_entry
step_lem c b h =
    ap₂ (λ (i t : ℕ). bit_xor (shift_bits 8 i) t) (bit_and_mask 8 (bit_xor c b))
      (sym (bit_xor_byte c b h))
    ∙ sym (shift_bits_high 8 (bit_xor c b % 256) (bit_xor c b / 256))
    ∙ ap (shift_bits 8)
        (bit_xor_high 8 (bit_xor c b % 256) (bit_xor c b / 256) (omega arith) ∙ omega arith)

bytes_lem : (c : ℕ) (bytes : List ℕ) → AreBytes bytes → crc_bytes c bytes ≡ register_bytes c bytes
unfolding crc_bytes register_bytes
bytes_lem c [] h = refl
bytes_lem c (b ∷ bs) h =
    ap (λ (t : ℕ). crc_bytes t bs) (step_lem c b h.0) ∙ bytes_lem (register_step c b) bs h.1

-- The table computes the checksum. Over any message of bytes, the result is that of the shift register
-- with the reflected polynomial, which starts with all ones and is complemented at the end; and it is
-- a number of 32 bits.
pub compute_lem :
    (bytes : List ℕ)
    → AreBytes bytes
    → (compute bytes ≡ register_compute bytes) × (compute bytes < 2 ^ 32)
unfolding compute register_compute
compute_lem bytes h =
    (ap (λ (c : ℕ). bit_xor c 0xFFFFFFFF) (bytes_lem 0xFFFFFFFF bytes h), compute_bound bytes)

-- ===== src/Crc32.antt =====
-- src/voip/src/infrastructure/ice/crc32.cpp: the reflected CRC-32 with the polynomial 0xEDB88320.
pub mod Bitwise
use vianium_voip.Common.{
  ℕ, zero, suc, ◌+◌, ◌/◌, ◌%◌, ◌^◌, ◌<◌, ◌≡◌, refl, List, [], ◌∷◌, ◌==◌, if◌then◌else◌, bit_and,
  bit_xor, arith,
}
use vianium_voip.Common.Bits.{bit_and_mask}
use vianium_voip.Common.Xor.{bit_xor_bound}
use vianium_voip.Bytes.{AreBytes}

-- One of the eight rounds for an entry of the table.
unfoldable pub shift_bit : ℕ → ℕ
shift_bit c = if bit_and c 1 == 1 then bit_xor 0xEDB88320 (c / 2) else c / 2

unfoldable pub shift_bits : ℕ → ℕ → ℕ
unfolding shift_bit
shift_bits zero c = c
shift_bits (suc rounds) c = shift_bits rounds (shift_bit c)

-- The entry of the table at an index below 256.
unfoldable pub table_entry : ℕ → ℕ
table_entry i = shift_bits 8 i

unfoldable pub crc_step : ℕ → ℕ → ℕ
crc_step c byte = bit_xor (table_entry (bit_and (bit_xor c byte) 0xFF)) (c / 256)

unfoldable pub crc_bytes : ℕ → List ℕ → ℕ
crc_bytes c [] = c
crc_bytes c (b ∷ bs) = crc_bytes (crc_step c b) bs

unfoldable pub compute : List ℕ → ℕ
compute bytes = bit_xor (crc_bytes 0xFFFFFFFF bytes) 0xFFFFFFFF

shift_bit_bound : (c : ℕ) → c < 2 ^ 32 → shift_bit c < 2 ^ 32
unfolding shift_bit
shift_bit_bound c h =
    ground (arith, bit_xor_bound 32 0xEDB88320 (c / 2) (omega arith) (omega arith))

shift_bits_bound : (n c : ℕ) → c < 2 ^ 32 → shift_bits n c < 2 ^ 32
unfolding shift_bits
shift_bits_bound zero c h = h
shift_bits_bound (suc n) c h = shift_bits_bound n (shift_bit c) (shift_bit_bound c h)

crc_step_bound : (c byte : ℕ) → c < 2 ^ 32 → crc_step c byte < 2 ^ 32
unfolding crc_step table_entry
crc_step_bound c byte h =
    bit_xor_bound 32 (shift_bits 8 (bit_and (bit_xor c byte) 0xFF)) (c / 256)
      (shift_bits_bound 8 (bit_and (bit_xor c byte) 0xFF)
        (omega (arith, bit_and_mask 8 (bit_xor c byte))))
      (omega (arith, h))

crc_bytes_bound : (c : ℕ) (bytes : List ℕ) → c < 2 ^ 32 → crc_bytes c bytes < 2 ^ 32
unfolding crc_bytes
crc_bytes_bound c [] h = h
crc_bytes_bound c (b ∷ bs) h = crc_bytes_bound (crc_step c b) bs (crc_step_bound c b h)

pub compute_bound : (bytes : List ℕ) → compute bytes < 2 ^ 32
unfolding compute
compute_bound bytes =
    bit_xor_bound 32 (crc_bytes 0xFFFFFFFF bytes) 0xFFFFFFFF
      (crc_bytes_bound 0xFFFFFFFF bytes (omega arith)) (omega arith)

-- The check value of the algorithm, over the text "123456789".
check_value : compute (49 ∷ 50 ∷ 51 ∷ 52 ∷ 53 ∷ 54 ∷ 55 ∷ 56 ∷ 57 ∷ []) ≡ 0xCBF43926
unfolding compute crc_bytes crc_step table_entry shift_bits
check_value = refl

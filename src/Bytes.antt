-- ===== src/Bytes.antt =====
-- The byte order helpers that each codec of src/voip/src/domain and src/voip/src/infrastructure declares
-- for itself: ReadLE16, ReadLE32, ReadLE64, ReadBE16, ReadBE24, ReadBE32 and their writers.
-- A byte buffer is a list of numbers below 256, and `bytes + offset` is the list without its first
-- `offset` elements. A read past the end, which the callers' length checks rule out, gives 0.
pub mod Laws
pub mod Buffer
pub mod Compare
use vianium_voip.Common.{
  ℕ, suc, ◌+◌, ◌*◌, ◌/◌, ◌%◌, ◌^◌, ◌<◌, List, [], ◌∷◌, ◌++◌, zero, bit_and, bit_or, get_or, All,
}

abbrev pub IsByte : ℕ → Type 0
IsByte b = b < 256

abbrev pub AreBytes : List ℕ → Type 0
AreBytes = All IsByte

-- static_cast<uint8_t>, static_cast<uint16_t> and static_cast<uint32_t>.
abbrev pub u8 : ℕ → ℕ
u8 v = v % 2 ^ 8

abbrev pub u16 : ℕ → ℕ
u16 v = v % 2 ^ 16

abbrev pub u32 : ℕ → ℕ
u32 v = v % 2 ^ 32

-- `bytes[i]`
abbrev pub byte_at : List ℕ → ℕ → ℕ
byte_at bytes i = get_or bytes i 0

-- static_cast<uint8_t>((value >> shift) & 0xFF), where the shift is a division.
unfoldable pub low_byte : ℕ → ℕ
low_byte v = u8 (bit_and v 0xff)

unfoldable pub write_le16 : ℕ → List ℕ
write_le16 v = low_byte v ∷ low_byte (v / 2 ^ 8) ∷ []

unfoldable pub write_le32 : ℕ → List ℕ
write_le32 v =
    low_byte v ∷ low_byte (v / 2 ^ 8) ∷ low_byte (v / 2 ^ 16) ∷ low_byte (v / 2 ^ 24) ∷ []

unfoldable pub write_le64 : ℕ → List ℕ
write_le64 v =
    write_le32 (u32 (bit_and v 0xffff_ffff)) ++ write_le32 (u32 (bit_and (v / 2 ^ 32) 0xffff_ffff))

unfoldable pub write_be16 : ℕ → List ℕ
write_be16 v = low_byte (v / 2 ^ 8) ∷ low_byte v ∷ []

unfoldable pub write_be24 : ℕ → List ℕ
write_be24 v = low_byte (v / 2 ^ 16) ∷ low_byte (v / 2 ^ 8) ∷ low_byte v ∷ []

unfoldable pub write_be32 : ℕ → List ℕ
write_be32 v =
    low_byte (v / 2 ^ 24) ∷ low_byte (v / 2 ^ 16) ∷ low_byte (v / 2 ^ 8) ∷ low_byte v ∷ []

unfoldable pub read_le16 : List ℕ → ℕ
read_le16 bytes = u16 (bit_or (byte_at bytes 0) (byte_at bytes 1 * 2 ^ 8))

unfoldable pub read_le32 : List ℕ → ℕ
read_le32 bytes =
    bit_or (bit_or (bit_or (byte_at bytes 0) (byte_at bytes 1 * 2 ^ 8)) (byte_at bytes 2 * 2 ^ 16))
      (byte_at bytes 3 * 2 ^ 24)

unfoldable pub read_be16 : List ℕ → ℕ
read_be16 bytes = u16 (bit_or (byte_at bytes 0 * 2 ^ 8) (byte_at bytes 1))

unfoldable pub read_be24 : List ℕ → ℕ
read_be24 bytes =
    bit_or (bit_or (byte_at bytes 0 * 2 ^ 16) (byte_at bytes 1 * 2 ^ 8)) (byte_at bytes 2)

unfoldable pub read_be32 : List ℕ → ℕ
read_be32 bytes =
    bit_or
      (bit_or (bit_or (byte_at bytes 0 * 2 ^ 24) (byte_at bytes 1 * 2 ^ 16))
        (byte_at bytes 2 * 2 ^ 8))
      (byte_at bytes 3)

-- Writes into a buffer that has its size already: `out[offset + i] = bs[i]` for each i.
abbrev pub overlay : List ℕ → List ℕ → List ℕ
overlay [] out = out
overlay (b ∷ bs) [] = []
overlay (b ∷ bs) (o ∷ out) = b ∷ overlay bs out

abbrev pub write_at : ℕ → List ℕ → List ℕ → List ℕ
write_at zero bs out = overlay bs out
write_at (suc n) bs [] = []
write_at (suc n) bs (o ∷ out) = o ∷ write_at n bs out

-- ===== src/Bytes/Laws.antt =====
-- What the byte order helpers read and write, as arithmetic, and that they invert one another.
use vianium_voip.Common.{
  ℕ, ◌+◌, ◌*◌, ◌/◌, ◌%◌, ◌^◌, ◌<◌, ◌≡◌, sym, ap, ◌∙◌, List, [], ◌∷◌, ◌++◌, arith, bit_or,
}
use vianium_voip.Common.Bits.{bit_and_mask, bit_or_high, bit_or_low}
use vianium_voip.Bytes.{
  IsByte, AreBytes, low_byte, write_le16, write_le32, write_be16, write_be24, write_be32, read_le16,
  read_le32, read_be16, read_be24, read_be32,
}

pub low_byte_lem : (v : ℕ) → low_byte v ≡ v % 256
unfolding low_byte
low_byte_lem v = omega (arith, bit_and_mask 8 v)

pub low_byte-IsByte : (v : ℕ) → IsByte (low_byte v)
low_byte-IsByte v = omega (arith, low_byte_lem v)

-- Joining bytes from the low end up.
or_le16 : (a b : ℕ) → a < 256 → bit_or a (b * 2 ^ 8) ≡ a + b * 256
or_le16 a b h = bit_or_low 8 b a h

or_le32 :
    (a b c d : ℕ)
    → a < 256
    → b < 256
    → c < 256
    → bit_or (bit_or (bit_or a (b * 2 ^ 8)) (c * 2 ^ 16)) (d * 2 ^ 24)
      ≡ a + b * 256 + c * 65536 + d * 16777216
or_le32 a b c d ha hb hc =
    rw (or_le16 a b ha, bit_or_low 16 c (a + b * 256) (omega arith))
      (bit_or_low 24 d (a + b * 256 + c * 65536) (omega arith))

-- Joining a low part onto a number whose low bits are clear.
pub or_high : (k m b : ℕ) → m / 2 ^ k * 2 ^ k ≡ m → b < 2 ^ k → bit_or m b ≡ m + b
or_high k m b e h =
    sym (ap (λ (t : ℕ). bit_or t b) e) ∙ bit_or_high k (m / 2 ^ k) b h ∙ ap (λ (t : ℕ). t + b) e

or_be24 :
    (a b c : ℕ)
    → b < 256
    → c < 256
    → bit_or (bit_or (a * 2 ^ 16) (b * 2 ^ 8)) c ≡ a * 65536 + b * 256 + c
or_be24 a b c hb hc =
    rw (or_high 16 (a * 2 ^ 16) (b * 2 ^ 8) (omega arith) (omega arith))
      (or_high 8 (a * 65536 + b * 256) c (omega arith) hc)

or_be32 :
    (a b c d : ℕ)
    → b < 256
    → c < 256
    → d < 256
    → bit_or (bit_or (bit_or (a * 2 ^ 24) (b * 2 ^ 16)) (c * 2 ^ 8)) d
      ≡ a * 16777216 + b * 65536 + c * 256 + d
or_be32 a b c d hb hc hd =
    rw
      (
        or_high 24 (a * 2 ^ 24) (b * 2 ^ 16) (omega arith) (omega arith),
        or_high 16 (a * 16777216 + b * 65536) (c * 2 ^ 8) (omega arith) (omega arith),
      )
      (or_high 8 (a * 16777216 + b * 65536 + c * 256) d (omega arith) hd)

module _ (a b : ℕ) (rest : List ℕ) (ha : IsByte a) (hb : IsByte b) where
  pub read_le16_sum : read_le16 (a ∷ b ∷ rest) ≡ a + b * 256
  unfolding read_le16
  read_le16_sum = omega (arith, or_le16 a b ha)

  pub read_be16_sum : read_be16 (a ∷ b ∷ rest) ≡ a * 256 + b
  unfolding read_be16
  read_be16_sum = omega (arith, bit_or_high 8 a b hb)

module _ (a b c : ℕ) (rest : List ℕ) (ha : IsByte a) (hb : IsByte b) (hc : IsByte c) where
  pub read_be24_sum : read_be24 (a ∷ b ∷ c ∷ rest) ≡ a * 65536 + b * 256 + c
  unfolding read_be24
  read_be24_sum = or_be24 a b c hb hc

module _ (a b c d : ℕ) (rest : List ℕ) (ha : IsByte a) (hb : IsByte b) (hc : IsByte c)
    (hd : IsByte d) where
  pub read_le32_sum : read_le32 (a ∷ b ∷ c ∷ d ∷ rest) ≡ a + b * 256 + c * 65536 + d * 16777216
  unfolding read_le32
  read_le32_sum = or_le32 a b c d ha hb hc

  pub read_be32_sum : read_be32 (a ∷ b ∷ c ∷ d ∷ rest) ≡ a * 16777216 + b * 65536 + c * 256 + d
  unfolding read_be32
  read_be32_sum = or_be32 a b c d hb hc hd

-- What was written is read back, whatever follows it.
module _ (v : ℕ) (rest : List ℕ) where
  pub read-write_le16 : v < 2 ^ 16 → read_le16 (write_le16 v ++ rest) ≡ v
  unfolding write_le16
  read-write_le16 h = omega (
    arith,
    read_le16_sum (low_byte v) (low_byte (v / 2 ^ 8)) rest (low_byte-IsByte v) (low_byte-IsByte _),
    low_byte_lem v,
    low_byte_lem (v / 2 ^ 8),
  )

  pub read-write_be16 : v < 2 ^ 16 → read_be16 (write_be16 v ++ rest) ≡ v
  unfolding write_be16
  read-write_be16 h = omega (
    arith,
    read_be16_sum (low_byte (v / 2 ^ 8)) (low_byte v) rest (low_byte-IsByte _) (low_byte-IsByte v),
    low_byte_lem v,
    low_byte_lem (v / 2 ^ 8),
  )

  pub read-write_be24 : v < 2 ^ 24 → read_be24 (write_be24 v ++ rest) ≡ v
  unfolding write_be24
  read-write_be24 h = omega (
    arith,
    read_be24_sum (low_byte (v / 2 ^ 16)) (low_byte (v / 2 ^ 8)) (low_byte v) rest
        (low_byte-IsByte _) (low_byte-IsByte _) (low_byte-IsByte v),
    low_byte_lem v,
    low_byte_lem (v / 2 ^ 8),
    low_byte_lem (v / 2 ^ 16),
  )

  pub read-write_le32 : v < 2 ^ 32 → read_le32 (write_le32 v ++ rest) ≡ v
  unfolding write_le32
  read-write_le32 h = omega (
    arith,
    read_le32_sum (low_byte v) (low_byte (v / 2 ^ 8)) (low_byte (v / 2 ^ 16))
        (low_byte (v / 2 ^ 24)) rest (low_byte-IsByte v) (low_byte-IsByte _) (low_byte-IsByte _)
        (low_byte-IsByte _),
    low_byte_lem v,
    low_byte_lem (v / 2 ^ 8),
    low_byte_lem (v / 2 ^ 16),
    low_byte_lem (v / 2 ^ 24),
  )

  pub read-write_be32 : v < 2 ^ 32 → read_be32 (write_be32 v ++ rest) ≡ v
  unfolding write_be32
  read-write_be32 h = omega (
    arith,
    read_be32_sum (low_byte (v / 2 ^ 24)) (low_byte (v / 2 ^ 16)) (low_byte (v / 2 ^ 8))
        (low_byte v) rest (low_byte-IsByte _) (low_byte-IsByte _) (low_byte-IsByte _)
        (low_byte-IsByte v),
    low_byte_lem v,
    low_byte_lem (v / 2 ^ 8),
    low_byte_lem (v / 2 ^ 16),
    low_byte_lem (v / 2 ^ 24),
  )

-- Each word is written on as many bytes as it is wide, and each of these is a byte.
pub write_le16-AreBytes : (v : ℕ) → AreBytes (write_le16 v)
unfolding write_le16
write_le16-AreBytes v = omega (arith, low_byte-IsByte)

pub write_le32-AreBytes : (v : ℕ) → AreBytes (write_le32 v)
unfolding write_le32
write_le32-AreBytes v = omega (arith, low_byte-IsByte)

pub write_be32-AreBytes : (v : ℕ) → AreBytes (write_be32 v)
unfolding write_be32
write_be32-AreBytes v = omega (arith, low_byte-IsByte)

-- What was read is written back byte for byte.
module _ (a b c d : ℕ) (rest : List ℕ) where
  pub write-read_le16 : IsByte a → IsByte b → write_le16 (read_le16 (a ∷ b ∷ rest)) ≡ a ∷ b ∷ []
  unfolding write_le16
  write-read_le16 ha hb = ground (
    arith,
    read_le16_sum a b rest,
    low_byte_lem (read_le16 (a ∷ b ∷ rest)),
    low_byte_lem (read_le16 (a ∷ b ∷ rest) / 256),
  )

  pub write-read_le32 :
      IsByte a
      → IsByte b
      → IsByte c
      → IsByte d
      → write_le32 (read_le32 (a ∷ b ∷ c ∷ d ∷ rest)) ≡ a ∷ b ∷ c ∷ d ∷ []
  unfolding write_le32
  write-read_le32 ha hb hc hd =
      let v = read_le32 (a ∷ b ∷ c ∷ d ∷ rest) in
      ground (
        arith,
        read_le32_sum a b c d rest,
        low_byte_lem v,
        low_byte_lem (v / 256),
        low_byte_lem (v / 65536),
        low_byte_lem (v / 16777216),
      )

  pub write-read_be32 :
      IsByte a
      → IsByte b
      → IsByte c
      → IsByte d
      → write_be32 (read_be32 (a ∷ b ∷ c ∷ d ∷ rest)) ≡ a ∷ b ∷ c ∷ d ∷ []
  unfolding write_be32
  write-read_be32 ha hb hc hd =
      let v = read_be32 (a ∷ b ∷ c ∷ d ∷ rest) in
      ground (
        arith,
        read_be32_sum a b c d rest,
        low_byte_lem v,
        low_byte_lem (v / 256),
        low_byte_lem (v / 65536),
        low_byte_lem (v / 16777216),
      )

-- ===== src/Stun/Fields.antt =====
-- The values of attributes that src/voip/src/infrastructure/ice/stun_message.cpp writes are read back.
use vianium_voip.Common.{
  ℕ, ◌+◌, ◌*◌, ◌/◌, ◌%◌, ◌^◌, ◌<◌, ◌≡◌, refl, sym, ap, ◌∙◌, List, [], ◌∷◌, ◌++◌, take, drop, length,
  arith, bit_xor, replicate, true, append-nil,
}
use vianium_voip.Common.Bits.{bit_or_high}
use vianium_voip.Common.Xor.{bit_xor_twice, bit_xor_bound}
use vianium_voip.Bytes.{
  AreBytes, u16, low_byte, write_be16, write_be32, read_be16, read_be32, overlay,
}
use vianium_voip.Bytes.Laws.{
  low_byte_lem, low_byte-IsByte, read_be32_sum, read-write_be16, read-write_be32, write-read_be32,
}
use vianium_voip.Stun.{StunMessage, stun_magic_cookie}
use vianium_voip.Stun.Encode.{write_be64, xor_mapped_value}
use vianium_voip.Stun.Decode.{read_be64, read_mapped}

read_low_bytes :
    (a b c d : ℕ) (rest : List ℕ)
    → read_be32 (low_byte a ∷ low_byte b ∷ low_byte c ∷ low_byte d ∷ rest)
      ≡ a % 256 * 16777216 + b % 256 * 65536 + c % 256 * 256 + d % 256
read_low_bytes a b c d rest = omega (
  arith,
  read_be32_sum (low_byte a) (low_byte b) (low_byte c) (low_byte d) rest (low_byte-IsByte a)
      (low_byte-IsByte b) (low_byte-IsByte c) (low_byte-IsByte d),
  low_byte_lem a,
  low_byte_lem b,
  low_byte_lem c,
  low_byte_lem d,
)

pub read-write_be64 : (v : ℕ) → v < 2 ^ 64 → read_be64 (write_be64 v) ≡ v
unfolding read_be64 write_be64
read-write_be64 v h =
    bit_or_high 32 (read_be32 (write_be64 v)) (read_be32 (drop 4 (write_be64 v)))
      (omega (arith, low_sum))
    ∙ omega (arith, h, high_sum, low_sum)
  where
    low_sum : read_be32 (drop 4 (write_be64 v)) ≡ v % 2 ^ 32
    low_sum = read_low_bytes (v / 2 ^ 24) (v / 2 ^ 16) (v / 2 ^ 8) v [] ∙ omega arith

    high_sum : read_be32 (write_be64 v) ≡ v / 2 ^ 32
    high_sum =
        read_low_bytes (v / 2 ^ 56) (v / 2 ^ 48) (v / 2 ^ 40) (v / 2 ^ 32) (drop 4 (write_be64 v))
        ∙ omega (arith, h)

-- The address is masked twice.
pub address_back :
    (address : List ℕ)
    → length address ≡ 16
    → AreBytes address
    → write_be32 (
        bit_xor
          (read_be32 (write_be32 (bit_xor (read_be32 address) stun_magic_cookie)))
          stun_magic_cookie)
      ≡ take 4 address
address_back (a ∷ b ∷ c ∷ d ∷ rest) h k =
    ap (λ (v : ℕ). write_be32 (bit_xor v stun_magic_cookie)) unmasked
    ∙ ap write_be32 (bit_xor_twice (read_be32 (a ∷ b ∷ c ∷ d ∷ rest)) stun_magic_cookie)
    ∙ write-read_be32 a b c d rest k.0 k.1.0 k.1.1.0 k.1.1.1.0
  where
    small : read_be32 (a ∷ b ∷ c ∷ d ∷ rest) < 2 ^ 32
    small = omega (arith, read_be32_sum a b c d rest k.0 k.1.0 k.1.1.0 k.1.1.1.0, k)

    mask : ℕ
    mask = bit_xor (read_be32 (a ∷ b ∷ c ∷ d ∷ rest)) stun_magic_cookie

    unmasked : read_be32 (write_be32 mask) ≡ mask
    unmasked =
        ap read_be32 (sym (append-nil (write_be32 mask)))
        ∙ read-write_be32 mask [] (
            bit_xor_bound 32 (read_be32 (a ∷ b ∷ c ∷ d ∷ rest)) stun_magic_cookie small
              (omega arith))
address_back [] h k = absurd (omega arith)
address_back (a ∷ []) h k = absurd (omega arith)
address_back (a ∷ b ∷ []) h k = absurd (omega arith)
address_back (a ∷ b ∷ c ∷ []) h k = absurd (omega arith)

pub port_back :
    (port : ℕ) (rest : List ℕ)
    → port < 2 ^ 16
    → u16 (bit_xor (read_be16 (write_be16 (u16 (bit_xor port 0x2112)) ++ rest)) 0x2112) ≡ port
port_back port rest h =
    ap (λ (v : ℕ). u16 (bit_xor v 0x2112))
      (read-write_be16 (u16 (bit_xor port 0x2112)) rest (omega arith))
    ∙ ap (λ (v : ℕ). u16 (bit_xor v 0x2112))
        (omega (arith, bit_xor_bound 16 port 0x2112 h (omega arith)))
    ∙ ap (λ (v : ℕ). u16 v) (bit_xor_twice port 0x2112)
    ∙ omega (arith, h)

pub length-word : (v : ℕ) → length (write_be32 v) ≡ 4
unfolding write_be32
length-word v = refl

overlay_word : (v : ℕ) → overlay (write_be32 v) (replicate 16 0) ≡ write_be32 v ++ replicate 12 0
unfolding write_be32
overlay_word v = refl

module _ (msg out : StunMessage) (address_size : length msg.mapped_address ≡ 16)
    (address_bytes : AreBytes msg.mapped_address) (port_fits : msg.mapped_port < 2 ^ 16) where
  -- A mapped address that was sent, received into the address of the constructor.
  pub read_mapped_lem :
      out.mapped_address ≡ replicate 16 0
      → read_mapped (xor_mapped_value msg) out ≡ record out {
        has_mapped_address = true;
        mapped_family = 1;
        mapped_port = msg.mapped_port;
        mapped_address = take 4 msg.mapped_address ++ replicate 12 0;
      }
  unfolding read_mapped xor_mapped_value write_be16
  read_mapped_lem fresh =
      rw
        (
          fresh,
          port_back msg.mapped_port _ port_fits,
          length-word,
          overlay_word,
          address_back msg.mapped_address address_size address_bytes,
        )
        refl

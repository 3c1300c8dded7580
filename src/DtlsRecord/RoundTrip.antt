-- ===== src/DtlsRecord/RoundTrip.antt =====
-- Encode, Decode and PeekRecordSize of src/voip/src/infrastructure/dtls/dtls_record.cpp against one
-- another.
use vianium_voip.Common.{
  ℕ, ◌+◌, ◌*◌, ◌/◌, ◌^◌, ◌≤◌, ◌<◌, ◌≡◌, ◌∙◌, ◌⊎◌, inl, inr, List, ◌∷◌, ◌++◌, none, some, arith,
  length, take, drop, bit_and, bit_or, length-append, take-append, append_assoc, length-take,
  length-drop,
}
use vianium_voip.Common.Bits.{bit_and_mask}
use vianium_voip.Bytes.{byte_at, u8, u16, read_be16}
use vianium_voip.Bytes.Laws.{read_be16_sum, or_high}
use native.Mathlib.Decide.{dec_le}
use vianium_voip.DtlsRecord.{
  DtlsRecord, store_be16, store_be48, load_be48, encode, decode, peek_record_size,
}

-- The fields fit the widths of the struct, the sequence number its 48 bits on the wire.
pub record IsValid (r : DtlsRecord) : Type 0 where
  pub version_fits : r.version < 2 ^ 16
  pub epoch_fits : r.epoch < 2 ^ 16
  pub sequence_fits : r.sequence_number < 2 ^ 48
  pub payload_fits : length r.payload < 2 ^ 16

load-store_be16 : (v : ℕ) (rest : List ℕ) → v < 2 ^ 16 → read_be16 (store_be16 v ++ rest) ≡ v
unfolding store_be16
load-store_be16 v rest h =
    omega (arith, read_be16_sum (u8 (v / 2 ^ 8)) (u8 v) rest (omega arith) (omega arith), h)

or_be48 :
    (a b c d e f : ℕ)
    → b < 256
    → c < 256
    → d < 256
    → e < 256
    → f < 256
    → bit_or
        (bit_or
          (bit_or (bit_or (bit_or (a * 2 ^ 40) (b * 2 ^ 32)) (c * 2 ^ 24)) (d * 2 ^ 16))
          (e * 2 ^ 8))
        f
      ≡ a * 2 ^ 40 + b * 2 ^ 32 + c * 2 ^ 24 + d * 2 ^ 16 + e * 2 ^ 8 + f
or_be48 a b c d e f hb hc hd he hf =
    rw
      (
        or_high 40 (a * 2 ^ 40) (b * 2 ^ 32) (omega arith) (omega arith),
        or_high 32 (a * 2 ^ 40 + b * 2 ^ 32) (c * 2 ^ 24) (omega arith) (omega arith),
        or_high 24 (a * 2 ^ 40 + b * 2 ^ 32 + c * 2 ^ 24) (d * 2 ^ 16) (omega arith) (omega arith),
        or_high 16 (a * 2 ^ 40 + b * 2 ^ 32 + c * 2 ^ 24 + d * 2 ^ 16) (e * 2 ^ 8) (omega arith)
            (omega arith),
      )
      (or_high 8 (a * 2 ^ 40 + b * 2 ^ 32 + c * 2 ^ 24 + d * 2 ^ 16 + e * 2 ^ 8) f (omega arith) hf)

load-store_be48 : (v : ℕ) (rest : List ℕ) → v < 2 ^ 48 → load_be48 (store_be48 v ++ rest) ≡ v
unfolding store_be48 load_be48
load-store_be48 v rest h =
    or_be48 (u8 (v / 2 ^ 40)) (u8 (v / 2 ^ 32)) (u8 (v / 2 ^ 24)) (u8 (v / 2 ^ 16)) (u8 (v / 2 ^ 8))
      (u8 v) (omega arith) (omega arith) (omega arith) (omega arith) (omega arith)
    ∙ omega (arith, h)

masked : (v : ℕ) → v < 2 ^ 48 → bit_and v 0x0000_FFFF_FFFF_FFFF ≡ v
masked v h = omega (arith, bit_and_mask 48 v)

module _ (r : DtlsRecord) (rest : List ℕ) (valid : IsValid r) where
  abbrev tail3 : List ℕ
  tail3 = store_be16 (u16 (length r.payload)) ++ (r.payload ++ rest)

  abbrev tail2 : List ℕ
  tail2 = store_be48 r.sequence_number ++ tail3

  abbrev tail1 : List ℕ
  tail1 = store_be16 r.epoch ++ tail2

  laid_out : encode r ++ rest ≡ r.content_type ∷ (store_be16 r.version ++ tail1)
  unfolding encode store_be16
  laid_out = rw (masked r.sequence_number valid.sequence_fits, append_assoc)

  decode_laid_out :
      decode (r.content_type ∷ (store_be16 r.version ++ tail1)) ≡ some (r, 13 + length r.payload)
  unfolding decode store_be16 store_be48
  decode_laid_out = ground (
    arith,
    load-store_be16 r.version tail1 valid.version_fits,
    load-store_be16 r.epoch tail2 valid.epoch_fits,
    load-store_be48 r.sequence_number tail3 valid.sequence_fits,
    load-store_be16 (u16 (length r.payload)) (r.payload ++ rest),
    valid.payload_fits,
    take-append r.payload rest,
    length-append r.payload rest,
  )

  length-encode : length (encode r) ≡ 13 + length r.payload
  unfolding encode store_be16 store_be48
  length-encode = omega arith

  -- A record whose fields fit their widths and whose payload is shorter than 65536 bytes is read back
  -- from its encoding, whatever bytes follow it in the datagram, and exactly its own bytes are
  -- consumed.
  pub decode-encode_record : decode (encode r ++ rest) ≡ some (r, length (encode r))
  decode-encode_record = rw (laid_out, length-encode) decode_laid_out

-- The length that is peeked is what decoding consumes, and 0 exactly where decoding fails; a record
-- that is decoded lies inside the buffer and its payload has the rest of its bytes.
pub peek_record_size_lem :
    (bytes : List ℕ)
    → ((decode bytes ≡ none) × (peek_record_size bytes ≡ 0))
      ⊎ ((r : DtlsRecord) × (decode bytes ≡ some (r, peek_record_size bytes))
          × (peek_record_size bytes ≡ 13 + length r.payload)
          × (peek_record_size bytes ≤ length bytes))
unfolding decode peek_record_size
peek_record_size_lem bytes = elim (dec_le (13 + size) (length bytes)) [
  | yes h ↦ inr (found, ground (arith, h), ground (arith, h, payload_size h), ground (arith, h))
  | no h ↦ inl (ground (arith, h))
]
  where
    size : ℕ
    size = read_be16 (drop 11 bytes)

    found : DtlsRecord
    found = record {
      content_type = byte_at bytes 0;
      version = read_be16 (drop 1 bytes);
      epoch = read_be16 (drop 3 bytes);
      sequence_number = load_be48 (drop 5 bytes);
      payload = take size (drop 13 bytes);
    }

    payload_size : 13 + size ≤ length bytes → length (take size (drop 13 bytes)) ≡ size
    payload_size h = omega (arith, length-take size (drop 13 bytes), length-drop 13 bytes, h)

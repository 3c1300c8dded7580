-- ===== src/DtlsRecord.antt =====
-- src/voip/src/infrastructure/dtls/dtls_record.{h,cpp}: the framing of DTLS 1.2 records, a header of
-- 13 bytes and the payload. A null pointer is the empty list, which the length guards reject.
pub mod RoundTrip
use vianium_voip.Common.{
  ℕ, ◌+◌, ◌*◌, ◌/◌, ◌^◌, List, [], ◌∷◌, ◌++◌, Option, none, some, ltb, if◌then◌else◌, length, take,
  drop, bit_and, bit_or,
}
use vianium_voip.Bytes.{byte_at, u8, u16, read_be16}

pub record DtlsRecord : Type 0 where
  pub content_type : ℕ
  pub version : ℕ
  pub epoch : ℕ
  pub sequence_number : ℕ
  pub payload : List ℕ

abbrev pub dtls_record_header_size : ℕ
dtls_record_header_size = 13

unfoldable pub store_be16 : ℕ → List ℕ
store_be16 v = u8 (v / 2 ^ 8) ∷ u8 v ∷ []

unfoldable pub store_be48 : ℕ → List ℕ
store_be48 v =
    u8 (v / 2 ^ 40)
    ∷ u8 (v / 2 ^ 32)
    ∷ u8 (v / 2 ^ 24)
    ∷ u8 (v / 2 ^ 16)
    ∷ u8 (v / 2 ^ 8)
    ∷ u8 v
    ∷ []

unfoldable pub load_be48 : List ℕ → ℕ
load_be48 p =
    bit_or
      (bit_or
        (bit_or
          (bit_or (bit_or (byte_at p 0 * 2 ^ 40) (byte_at p 1 * 2 ^ 32)) (byte_at p 2 * 2 ^ 24))
          (byte_at p 3 * 2 ^ 16))
        (byte_at p 4 * 2 ^ 8))
      (byte_at p 5)

-- The buffer after all its writes, which fill it from its start to its end.
unfoldable pub encode : DtlsRecord → List ℕ
encode r =
    r.content_type
    ∷ (store_be16 r.version
        ++ (store_be16 r.epoch
            ++ (store_be48 (bit_and r.sequence_number 0x0000_FFFF_FFFF_FFFF)
                ++ (store_be16 (u16 (length r.payload)) ++ r.payload))))

-- The record and the bytes consumed; `none` is `false`.
unfoldable pub decode : List ℕ → Option (DtlsRecord × ℕ)
decode bytes =
    let size = read_be16 (drop 11 bytes) in
    if ltb (length bytes) dtls_record_header_size
    then none
    else if ltb (length bytes) (dtls_record_header_size + size)
    then none
    else some (
      record {
        content_type = byte_at bytes 0;
        version = read_be16 (drop 1 bytes);
        epoch = read_be16 (drop 3 bytes);
        sequence_number = load_be48 (drop 5 bytes);
        payload = take size (drop dtls_record_header_size bytes);
      },
      dtls_record_header_size + size,
    )

unfoldable pub peek_record_size : List ℕ → ℕ
peek_record_size bytes =
    let total = dtls_record_header_size + read_be16 (drop 11 bytes) in
    if ltb (length bytes) dtls_record_header_size
    then 0
    else if ltb (length bytes) total
    then 0
    else total

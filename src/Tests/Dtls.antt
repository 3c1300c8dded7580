-- ===== src/Tests/Dtls.antt =====
-- The records of src/voip/src/infrastructure/dtls/dtls_record.cpp on concrete datagrams.
use vianium_voip.Common.{ℕ, ◌≡◌, refl, List, [], ◌∷◌, ◌++◌, some, none, arith, length}
use vianium_voip.Bytes.{read_be16}
use vianium_voip.DtlsRecord.{DtlsRecord, store_be16, store_be48, encode, decode}
use vianium_voip.DtlsRecord.RoundTrip.{decode-encode_record}

abbrev hello : DtlsRecord
hello = record {
  content_type = 22;
  version = 0xFEFD;
  epoch = 0;
  sequence_number = 258;
  payload = 1 ∷ 2 ∷ [];
}

abbrev hello_bytes : List ℕ
hello_bytes = 22 ∷ 254 ∷ 253 ∷ 0 ∷ 0 ∷ 0 ∷ 0 ∷ 0 ∷ 0 ∷ 1 ∷ 2 ∷ 0 ∷ 2 ∷ 1 ∷ 2 ∷ []

encode-hello : encode hello ≡ hello_bytes
unfolding encode store_be16 store_be48
encode-hello = refl

-- One byte is missing.
decode_truncated : decode (22 ∷ 254 ∷ 253 ∷ 0 ∷ 0 ∷ 0 ∷ 0 ∷ 0 ∷ 0 ∷ 1 ∷ 2 ∷ 0 ∷ 2 ∷ 1 ∷ []) ≡ none
unfolding decode read_be16
decode_truncated = refl

decode-encode_record_example :
    decode (encode hello ++ (7 ∷ 7 ∷ [])) ≡ some (hello, length (encode hello))
decode-encode_record_example = decode-encode_record hello (7 ∷ 7 ∷ []) (record {
  version_fits = omega arith;
  epoch_fits = omega arith;
  sequence_fits = omega arith;
  payload_fits = omega arith;
})

-- ===== src/DtlsHandshake/Chain.antt =====
-- CertificateCodec::Decode of src/voip/src/infrastructure/dtls/dtls_handshake_messages.cpp reads every
-- certificate of a chain.
use vianium_voip.Common.{
  ℕ, zero, suc, ◌+◌, ◌^◌, ◌/◌, ◌≤◌, ◌<◌, ◌≡◌, refl, List, [], ◌∷◌, ◌++◌, ltb-false, length, drop,
  some, arith, All, length-append, take-append_of_eq, drop-append_of_eq,
}
use vianium_voip.Bytes.{read_be24, write_be24}
use vianium_voip.Bytes.Laws.{low_byte_lem, read-write_be24}
use vianium_voip.Bytes.Compare.{slice}
use vianium_voip.DtlsHandshake.{store_be24, chain_loop, decode_certificate}

-- The certificate list of RFC 5246, section 7.4.2: each certificate behind its length of 24 bits.
unfoldable pub chain_bytes : List (List ℕ) → List ℕ
chain_bytes [] = []
chain_bytes (c ∷ chain) = store_be24 (length c) ++ (c ++ chain_bytes chain)

store_be24_lem : (v : ℕ) → store_be24 v ≡ write_be24 v
unfolding store_be24 write_be24
store_be24_lem v = rw (low_byte_lem v, low_byte_lem (v / 2 ^ 8), low_byte_lem (v / 2 ^ 16)) refl

read_length : (v : ℕ) (rest : List ℕ) → v < 2 ^ 24 → read_be24 (store_be24 v ++ rest) ≡ v
read_length v rest h = rw (store_be24_lem v) (read-write_be24 v rest h)

module _ (c rest : List ℕ) (fits : length c < 2 ^ 24) where
  abbrev whole : List ℕ
  whole = store_be24 (length c) ++ (c ++ rest)

  length-whole : length whole ≡ 3 + length c + length rest
  unfolding store_be24
  length-whole = omega (arith, length-append c rest)

  cert_read : slice whole 3 (length c) ≡ c
  unfolding store_be24
  cert_read = take-append_of_eq (length c) c rest refl

  behind_cert : drop (3 + length c) whole ≡ rest
  unfolding store_be24
  behind_cert = drop-append_of_eq (3 + length c) (store_be24 (length c) ++ c) rest (omega arith)

  -- A round of the loop takes the first certificate.
  round :
      (n : ℕ) (chain : List (List ℕ))
      → chain_loop n rest ≡ some chain
      → chain_loop (suc n) whole ≡ some (c ∷ chain)
  unfolding chain_loop
  round n chain e =
      rw
        (
          read_length (length c) (c ++ rest) fits,
          behind_cert,
          e,
          read_length (length c) (c ++ rest) fits,
          cert_read,
          ltb-false (length whole) (3 + length c) (omega (arith, length-whole)),
        )
        (ground (arith, length-whole))

chain_read :
    (n : ℕ) (chain : List (List ℕ))
    → length (chain_bytes chain) ≤ n
    → All (λ (c : List ℕ). length c < 2 ^ 24) chain
    → chain_loop n (chain_bytes chain) ≡ some chain
unfolding chain_bytes chain_loop
chain_read zero [] e h = refl
chain_read (suc n) [] e h = refl
chain_read zero (c ∷ chain) e h = absurd (omega (arith, e, length-whole c (chain_bytes chain) h.0))
chain_read (suc n) (c ∷ chain) e h =
    round c (chain_bytes chain) h.0 n chain
      (chain_read n chain (omega (arith, e, length-whole c (chain_bytes chain) h.0)) h.1)

-- The Certificate message of a chain: its bytes are read back to the same certificates in order, whatever
-- follows, for certificates of fewer than 2^24 bytes whose list is of fewer than 2^24 bytes.
pub decode_certificate-chain :
    (chain : List (List ℕ)) (rest : List ℕ)
    → All (λ (c : List ℕ). length c < 2 ^ 24) chain
    → length (chain_bytes chain) < 2 ^ 24
    → decode_certificate (store_be24 (length (chain_bytes chain)) ++ (chain_bytes chain ++ rest))
      ≡ some chain
unfolding decode_certificate
decode_certificate-chain chain rest h fits =
    rw
      (
        read_length (length (chain_bytes chain)) (chain_bytes chain ++ rest) fits,
        cert_read (chain_bytes chain) rest fits,
        ltb-false (length (store_be24 (length (chain_bytes chain)) ++ (chain_bytes chain ++ rest)))
            3 (omega (arith, length-whole (chain_bytes chain) rest fits)),
        ltb-false (length (store_be24 (length (chain_bytes chain)) ++ (chain_bytes chain ++ rest)))
            (3 + length (chain_bytes chain))
            (omega (arith, length-whole (chain_bytes chain) rest fits)),
      )
      (chain_read (length (chain_bytes chain)) chain (omega arith) h)

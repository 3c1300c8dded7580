-- ===== src/Tests/Handshake.antt =====
-- A chain of two certificates.
use vianium_voip.Common.{ℕ, ◌≡◌, List, [], ◌∷◌, ◌++◌, length, some, arith}
use vianium_voip.DtlsHandshake.{store_be24, decode_certificate}
use vianium_voip.DtlsHandshake.Chain.{chain_bytes, decode_certificate-chain}

abbrev chain : List (List ℕ)
chain = (0x30 ∷ 0x82 ∷ []) ∷ (0x30 ∷ []) ∷ []

decode_certificate-chain_example :
    decode_certificate (store_be24 (length (chain_bytes chain)) ++ (chain_bytes chain ++ 9 ∷ []))
    ≡ some chain
unfolding chain_bytes store_be24
decode_certificate-chain_example =
    decode_certificate-chain chain (9 ∷ []) (omega arith, (omega arith, tt)) (omega arith)

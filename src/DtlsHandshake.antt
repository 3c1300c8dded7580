-- ===== src/DtlsHandshake.antt =====
-- src/voip/src/infrastructure/dtls/dtls_handshake_messages.{h,cpp}: the handshake messages of DTLS 1.2.
-- The DTLS records around them are in DtlsRecord.
pub mod Chain
use vianium_voip.Common.{
  ℕ, zero, suc, ◌+◌, ◌*◌, ◌/◌, ◌^◌, List, [], ◌∷◌, ◌++◌, Bool, true, false, not, ◌&&◌, ltb, leb,
  ◌==◌, if◌then◌else◌, length, take, drop, Option, none, some,
}
use vianium_voip.Bytes.{byte_at, u8, u16, u32, read_be16, read_be24}
use vianium_voip.Bytes.Compare.{slice}
use vianium_voip.DtlsRecord.{store_be16}

abbrev pub dtls_version_12 : ℕ
dtls_version_12 = 0xFEFD

abbrev pub handshake_header_size : ℕ
handshake_header_size = 12

abbrev pub verify_data_length : ℕ
verify_data_length = 12

abbrev pub ext_supported_groups : ℕ
ext_supported_groups = 0x000A

abbrev pub ext_ec_point_formats : ℕ
ext_ec_point_formats = 0x000B

abbrev pub ext_signature_algorithms : ℕ
ext_signature_algorithms = 0x000D

abbrev pub ext_use_srtp : ℕ
ext_use_srtp = 0x000E

abbrev pub ext_extended_master_secret : ℕ
ext_extended_master_secret = 0x0017

unfoldable pub store_be24 : ℕ → List ℕ
store_be24 v = u8 (v / 2 ^ 16) ∷ u8 (v / 2 ^ 8) ∷ u8 v ∷ []

pub record HandshakeHeader : Type 0 where
  pub msg_type : ℕ
  pub size : ℕ
  pub message_seq : ℕ
  pub fragment_offset : ℕ
  pub fragment_length : ℕ

unfoldable pub encode_header : HandshakeHeader → List ℕ
encode_header h =
    h.msg_type
    ∷ (store_be24 h.size
        ++ (store_be16 h.message_seq
            ++ (store_be24 h.fragment_offset ++ store_be24 h.fragment_length)))

unfoldable pub decode_header : List ℕ → Option HandshakeHeader
decode_header bytes =
    if ltb (length bytes) handshake_header_size
    then none
    else some (record {
      msg_type = byte_at bytes 0;
      size = read_be24 (drop 1 bytes);
      message_seq = read_be16 (drop 4 bytes);
      fragment_offset = read_be24 (drop 6 bytes);
      fragment_length = read_be24 (drop 9 bytes);
    })

unfoldable pub wrap_handshake_unfragmented : ℕ → ℕ → List ℕ → List ℕ
wrap_handshake_unfragmented msg_type message_seq body =
    encode_header (record {
      msg_type = msg_type;
      size = u32 (length body);
      message_seq = message_seq;
      fragment_offset = 0;
      fragment_length = u32 (length body);
    })
    ++ body

pub record ClientHello : Type 0 where
  pub random : List ℕ
  pub session_id : List ℕ
  pub cookie : List ℕ
  pub cipher_suites : List ℕ
  pub compression_methods : List ℕ
  pub supported_groups : List ℕ
  pub ec_point_formats : List ℕ
  pub signature_algorithms : List ℕ
  pub srtp_protection_profiles : List ℕ
  pub srtp_mki : List ℕ
  pub extended_master_secret : Bool

-- The loops that append 16-bit numbers.
unfoldable pub words : List ℕ → List ℕ
words [] = []
words (v ∷ vs) = store_be16 v ++ words vs

-- Bytes behind their number, in 8 bits.
unfoldable pub short_bytes : List ℕ → List ℕ
short_bytes bytes = u8 (length bytes) ∷ bytes

-- Numbers of 16 bits behind the number of their bytes.
unfoldable pub long_words : List ℕ → List ℕ
long_words vs = store_be16 (u16 (length vs * 2)) ++ words vs

unfoldable pub extension : ℕ → List ℕ → List ℕ
extension type body = store_be16 type ++ (store_be16 (u16 (length body)) ++ body)

-- An extension for values, if there are any.
unfoldable pub extension_for : List ℕ → ℕ → List ℕ → List ℕ
extension_for values type body = if length values == 0 then [] else extension type body

unfoldable pub client_extensions : ClientHello → List ℕ
client_extensions m =
    extension_for m.supported_groups ext_supported_groups (long_words m.supported_groups)
    ++ (extension_for m.ec_point_formats ext_ec_point_formats (short_bytes m.ec_point_formats)
        ++ (extension_for m.signature_algorithms ext_signature_algorithms
              (long_words m.signature_algorithms)
            ++ (extension_for m.srtp_protection_profiles ext_use_srtp
                  (long_words m.srtp_protection_profiles ++ short_bytes m.srtp_mki)
                ++ (if m.extended_master_secret
                    then store_be16 ext_extended_master_secret ++ store_be16 0
                    else []))))

unfoldable pub encode_client_hello : ClientHello → List ℕ
encode_client_hello m =
    let exts = client_extensions m in
    store_be16 dtls_version_12
    ++ (take 32 m.random
        ++ (short_bytes m.session_id
            ++ (short_bytes m.cookie
                ++ (long_words m.cipher_suites
                    ++ (short_bytes m.compression_methods
                        ++ (store_be16 (u16 (length exts)) ++ exts))))))

pub record HelloVerifyRequest : Type 0 where
  pub server_version : ℕ
  pub cookie : List ℕ

unfoldable pub decode_hello_verify_request : List ℕ → Option HelloVerifyRequest
decode_hello_verify_request bytes =
    let cookie_len = byte_at bytes 2 in
    if ltb (length bytes) 3
    then none
    else if ltb (length bytes) (3 + cookie_len)
    then none
    else some (record { server_version = read_be16 bytes; cookie = slice bytes 3 cookie_len })

-- The loop over the certificates, on fuel: a round takes three bytes at least.
unfoldable pub chain_loop : ℕ → List ℕ → Option (List (List ℕ))
chain_loop zero bytes = some []
chain_loop (suc fuel) bytes =
    let cert_len = read_be24 bytes in
    let rest = chain_loop fuel (drop (3 + cert_len) bytes) in
    if leb 3 (length bytes)
    then if ltb (length bytes) (3 + cert_len)
      then none
      else elim rest [ none ↦ none | some chain ↦ some (slice bytes 3 cert_len ∷ chain) ]
    else some []

unfoldable pub decode_certificate : List ℕ → Option (List (List ℕ))
decode_certificate bytes =
    let list_len = read_be24 bytes in
    let list = slice bytes 3 list_len in
    if ltb (length bytes) 3
    then none
    else if ltb (length bytes) (3 + list_len)
    then none
    else chain_loop (length list) list

-- The body of ClientKeyExchange, of CertificateVerify and of Finished.
unfoldable pub encode_client_key_exchange : List ℕ → List ℕ
encode_client_key_exchange public_point = short_bytes public_point

unfoldable pub encode_certificate_verify : ℕ → ℕ → List ℕ → List ℕ
encode_certificate_verify hash_algorithm signature_algorithm signature =
    hash_algorithm ∷ signature_algorithm ∷ (store_be16 (u16 (length signature)) ++ signature)

unfoldable pub encode_finished : List ℕ → List ℕ
encode_finished verify_data = take verify_data_length verify_data

unfoldable pub decode_finished : List ℕ → Option (List ℕ)
decode_finished bytes =
    if ltb (length bytes) verify_data_length then none else some (take verify_data_length bytes)

pub record ServerKeyExchange : Type 0 where
  pub named_curve : ℕ
  pub public_point : List ℕ
  pub hash_algorithm : ℕ
  pub signature_algorithm : ℕ
  pub signature : List ℕ
  pub signed_params : List ℕ

-- What stands behind the point, which ends at `pos`.
unfoldable pub read_signature : List ℕ → ℕ → Option ServerKeyExchange
read_signature bytes pos =
    let sig_len = read_be16 (drop (pos + 2) bytes) in
    if ltb (length bytes) (pos + 2)
    then none
    else if ltb (length bytes) (pos + 4)
    then none
    else if ltb (length bytes) (pos + 4 + sig_len)
    then none
    else some (record {
      named_curve = read_be16 (drop 1 bytes);
      public_point = slice bytes 4 (byte_at bytes 3);
      hash_algorithm = byte_at bytes pos;
      signature_algorithm = byte_at bytes (pos + 1);
      signature = slice bytes (pos + 4) sig_len;
      signed_params = take pos bytes;
    })

unfoldable pub decode_server_key_exchange : List ℕ → Option ServerKeyExchange
decode_server_key_exchange bytes =
    let point_end = 4 + byte_at bytes 3 in
    if ltb (length bytes) 4
    then none
    else if not (byte_at bytes 0 == 0x03)
    then none
    else if ltb (length bytes) point_end
    then none
    else read_signature bytes point_end

pub record ServerHello : Type 0 where
  pub server_version : ℕ
  pub random : List ℕ
  pub session_id : List ℕ
  pub cipher_suite : ℕ
  pub compression_method : ℕ
  pub extended_master_secret : Bool
  pub use_srtp_present : Bool
  pub srtp_protection_profile : ℕ

-- The branch of an extension.
unfoldable pub read_extension : ℕ → List ℕ → ServerHello → ServerHello
read_extension type value out =
    if type == ext_extended_master_secret
    then record out { extended_master_secret = true }
    else if type == ext_use_srtp
    then if leb 2 (length value)
        && (leb 2 (read_be16 value) && leb (2 + read_be16 value) (length value))
      then record out {
        use_srtp_present = true;
        srtp_protection_profile = read_be16 (drop 2 value);
      }
      else out
    else out

-- The loop over the extensions, on fuel: a round takes four bytes at least.
unfoldable pub extension_loop : ℕ → List ℕ → ServerHello → Option ServerHello
extension_loop zero bytes out = some out
extension_loop (suc fuel) bytes out =
    let ext_len = read_be16 (drop 2 bytes) in
    let rest =
      extension_loop fuel (drop (4 + ext_len) bytes)
        (read_extension (read_be16 bytes) (slice bytes 4 ext_len) out) in
    if leb 4 (length bytes)
    then if ltb (length bytes) (4 + ext_len) then none else rest
    else some out

-- What stands behind the session id, which ends at `pos`.
unfoldable pub read_hello : List ℕ → ℕ → Option ServerHello
read_hello bytes pos =
    let out : ServerHello = record {
      server_version = read_be16 bytes;
      random = slice bytes 2 32;
      session_id = slice bytes 35 (byte_at bytes 34);
      cipher_suite = read_be16 (drop pos bytes);
      compression_method = byte_at bytes (pos + 2);
      extended_master_secret = false;
      use_srtp_present = false;
      srtp_protection_profile = 0;
    } in
    let exts_len = read_be16 (drop (pos + 3) bytes) in
    let exts = slice bytes (pos + 5) exts_len in
    if ltb (length bytes) (pos + 3)
    then none
    else if length bytes == pos + 3
    then some out
    else if ltb (length bytes) (pos + 5)
    then none
    else if ltb (length bytes) (pos + 5 + exts_len)
    then none
    else extension_loop (length exts) exts out

unfoldable pub decode_server_hello : List ℕ → Option ServerHello
decode_server_hello bytes =
    let sid_end = 35 + byte_at bytes 34 in
    if ltb (length bytes) 35
    then none
    else if ltb (length bytes) sid_end
    then none
    else read_hello bytes sid_end

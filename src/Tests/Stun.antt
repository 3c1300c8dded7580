-- ===== src/Tests/Stun.antt =====
-- STUN messages and the checksum on concrete inputs, with a simple function in the place of HMAC-SHA1.
use vianium_voip.Common.{
  ℕ, zero, suc, ◌%◌, ◌^◌, ◌<◌, ◌≡◌, refl, List, [], ◌∷◌, ◌++◌, true, arith, length, replicate,
  Option, none, some,
}
use vianium_voip.Bytes.{AreBytes, write_be32}
use vianium_voip.Crc32.{compute}
use vianium_voip.Crc32.Bitwise.{register_compute, compute_lem}
use vianium_voip.Stun.{HmacSha1, StunMessage, new_message}
use vianium_voip.Stun.Encode.{encode}
use vianium_voip.Stun.Decode.{decode, verify_message_integrity, verify_fingerprint}
use vianium_voip.Stun.Wire.{tlv}
use vianium_voip.Stun.Spec.{IsSendable, on_wire, covered_bytes, checksum}
use vianium_voip.Stun.Layout.{encode_lem}
use vianium_voip.Stun.RoundTrip.{decode-encode_stun}
use vianium_voip.Stun.Protected.{verify-encode, nominated_bytes, tail_not_covered}

pub toy_bytes : (n b : ℕ) → b < 256 → AreBytes (replicate n b)
toy_bytes zero b h = tt
toy_bytes (suc n) b h = (h, toy_bytes n b h)

abbrev pub toy : HmacSha1
toy = record {
  mac = λ key message. replicate 20 (length message % 256);
  mac_size = λ key message. refl;
  mac_bytes = λ key message. toy_bytes 20 (length message % 256) (omega arith);
}

-- A response with a mapped address and a user name of three characters.
abbrev response : StunMessage
response = record new_message {
  message_type = 0x0101;
  transaction_id = replicate 12 7;
  username = 97 ∷ 58 ∷ 98 ∷ [];
  has_priority = true;
  priority = 0x6EFFFFFF;
  has_mapped_address = true;
  mapped_family = 1;
  mapped_address = 192 ∷ 0 ∷ 2 ∷ 1 ∷ replicate 12 0;
  mapped_port = 32853;
}

response-IsSendable : IsSendable response
response-IsSendable = record {
  type_fits = omega arith;
  transaction_size = refl;
  username_size = omega arith;
  priority_fits = omega arith;
  controlling_fits = omega arith;
  controlled_fits = omega arith;
  address_size = refl;
  address_bytes = omega arith;
  port_fits = omega arith;
}

abbrev password : List ℕ
password = 112 ∷ 119 ∷ 100 ∷ []

compute_lem_example :
    (compute (49 ∷ 50 ∷ 51 ∷ []) ≡ register_compute (49 ∷ 50 ∷ 51 ∷ []))
    × (compute (49 ∷ 50 ∷ 51 ∷ []) < 2 ^ 32)
compute_lem_example = compute_lem (49 ∷ 50 ∷ 51 ∷ []) (omega arith)

encode_lem_example :
    encode toy response password
    ≡ covered_bytes toy response password
      ++ tlv 0x8028 (write_be32 (checksum toy response password))
encode_lem_example = encode_lem toy response password refl

decode-encode_stun_example :
    decode (encode toy response password) ≡ some (on_wire toy response password)
decode-encode_stun_example = decode-encode_stun toy response password response-IsSendable

verify-encode_example :
    (verify_message_integrity toy (encode toy response password) password ≡ true)
    × (verify_fingerprint (encode toy response password) ≡ true)
verify-encode_example = verify-encode toy response password response-IsSendable (omega arith)

tail_not_covered_example :
    (verify_message_integrity toy
        (nominated_bytes toy response password response-IsSendable (omega arith))
        password
      ≡ true)
    × ((out : StunMessage) × (decode
            (nominated_bytes toy response password response-IsSendable (omega arith))
          ≡ some out)
        × (out.use_candidate ≡ true))
tail_not_covered_example = tail_not_covered toy response password response-IsSendable (omega arith)

abbrev port_read : Option StunMessage → ℕ
port_read none = 0
port_read (some m) = m.mapped_port

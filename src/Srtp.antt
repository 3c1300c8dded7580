-- ===== src/Srtp.antt =====
-- src/voip/src/infrastructure/srtp/srtp_packet_codec.{h,cpp}: the protection of an RTP packet, which
-- encrypts its payload in counter mode and appends ten bytes of authentication tag. AES and
-- HMAC-SHA1, which are not part of the repository, are a parameter.
pub mod RoundTrip
pub mod Rollover
pub mod Authentic
use vianium_voip.Common.{
  ℕ, zero, suc, ◌+◌, ◌-◌, ◌*◌, ◌/◌, ◌^◌, ◌≡◌, List, [], ◌∷◌, ◌++◌, Bool, true, false, not, ◌&&◌,
  ◌||◌, ltb, leb, ◌==◌, if◌then◌else◌, Option, none, some, length, take, drop, bit_and, bit_or,
  bit_xor,
}
use vianium_voip.Bytes.{byte_at, u8, u16, u32, low_byte, write_be32, AreBytes}
use vianium_voip.AesCtr.{xor_bytes, ctr_xcrypt}

-- AES-128 of one block by key and block, and HMAC-SHA1 by key and message, which has 20 bytes.
pub record SrtpCrypto : Type 0 where
  pub encrypt_block : List ℕ → List ℕ → List ℕ
  pub hmac_sha1 : List ℕ → List ℕ → List ℕ
  pub hmac_size : (key message : List ℕ) → length (hmac_sha1 key message) ≡ 20
  pub hmac_bytes : (key message : List ℕ) → AreBytes (hmac_sha1 key message)

pub record SrtpEncryptParams : Type 0 where
  pub session_encr_key : List ℕ
  pub session_auth_key : List ℕ
  pub session_salt : List ℕ
  pub ssrc : ℕ
  pub rollover_counter : ℕ
  pub last_sequence_number : ℕ
  pub has_last_sequence_number : Bool

abbrev pub rtp_fixed_header_size : ℕ
rtp_fixed_header_size = 12

abbrev pub auth_tag_size : ℕ
auth_tag_size = 10

-- `static_cast<uint16_t>((bytes[i] << 8) | bytes[i + 1])`
abbrev pub word_at : List ℕ → ℕ → ℕ
word_at bytes i = u16 (bit_or (byte_at bytes i * 2 ^ 8) (byte_at bytes (i + 1)))

-- The branch of the header extension, which starts at `offset`.
unfoldable pub skip_extension : List ℕ → ℕ → ℕ
skip_extension bytes offset =
    let behind = offset + (4 + word_at bytes (offset + 2) * 4) in
    if ltb (length bytes) (offset + 4) then 0 else if ltb (length bytes) behind then 0 else behind

unfoldable pub locate_payload_start : List ℕ → ℕ
locate_payload_start bytes =
    let b0 = byte_at bytes 0 in
    let offset = rtp_fixed_header_size + u8 (bit_and b0 0x0F) * 4 in
    if ltb (length bytes) rtp_fixed_header_size
    then 0
    else if not (u8 (b0 / 2 ^ 6) == 2)
    then 0
    else if ltb (length bytes) offset
    then 0
    else if not (bit_and b0 0x10 == 0)
    then skip_extension bytes offset
    else offset

-- The last six bytes of the 48-bit index, most significant first.
unfoldable pub write_be48 : ℕ → List ℕ
write_be48 v =
    low_byte (v / 2 ^ 40)
    ∷ low_byte (v / 2 ^ 32)
    ∷ low_byte (v / 2 ^ 24)
    ∷ low_byte (v / 2 ^ 16)
    ∷ low_byte (v / 2 ^ 8)
    ∷ low_byte v
    ∷ []

-- The salt has 14 bytes, so that the last two bytes stay.
unfoldable pub build_packet_iv : List ℕ → ℕ → ℕ → List ℕ
build_packet_iv salt ssrc index =
    xor_bytes (0 ∷ 0 ∷ 0 ∷ 0 ∷ (write_be32 ssrc ++ (write_be48 index ++ (0 ∷ 0 ∷ [])))) salt

unfoldable pub packet_index : ℕ → ℕ → ℕ
packet_index roc sequence_number = bit_or (roc * 2 ^ 16) sequence_number

-- The loop of ConstantTimeEqual over the bytes of the first argument.
unfoldable pub diff_bytes : ℕ → List ℕ → List ℕ → ℕ
diff_bytes diff [] bs = diff
diff_bytes diff (a ∷ xs) [] = diff
diff_bytes diff (a ∷ xs) (b ∷ bs) = diff_bytes (u8 (bit_or diff (bit_xor a b))) xs bs

unfoldable pub constant_time_equal : List ℕ → List ℕ → Bool
constant_time_equal xs bs = diff_bytes 0 xs bs == 0

-- What Encrypt does with the rollover counter and the last sequence number.
unfoldable pub note_sequence : SrtpEncryptParams → ℕ → SrtpEncryptParams
note_sequence params sequence_number =
    let prev = params.last_sequence_number in
    let rolled =
      params.has_last_sequence_number
      && (ltb sequence_number prev && ltb (prev - sequence_number) 0x8000) in
    record params {
      rollover_counter =
          if rolled then u32 (params.rollover_counter + 1) else params.rollover_counter;
      last_sequence_number = sequence_number;
      has_last_sequence_number = true;
    }

module _ (crypto : SrtpCrypto) where
  unfoldable pub compute_auth_tag : List ℕ → List ℕ → ℕ → List ℕ
  compute_auth_tag auth_key packet roc =
      take auth_tag_size (crypto.hmac_sha1 auth_key (packet ++ write_be32 roc))

  -- The bytes from `start` on, encrypted or decrypted under the packet's index.
  unfoldable pub crypt_payload : SrtpEncryptParams → ℕ → ℕ → List ℕ → List ℕ
  crypt_payload params start sequence_number packet =
      take start packet
      ++ ctr_xcrypt (crypto.encrypt_block params.session_encr_key)
          (build_packet_iv params.session_salt params.ssrc
            (packet_index params.rollover_counter sequence_number))
          (drop start packet)

  -- The packet that Encrypt builds once the payload is found.
  unfoldable pub seal : SrtpEncryptParams → ℕ → ℕ → List ℕ → List ℕ
  seal params start sequence_number rtp =
      let srtp = crypt_payload params start sequence_number rtp in
      srtp ++ compute_auth_tag params.session_auth_key srtp params.rollover_counter

  unfoldable pub encrypt : SrtpEncryptParams → List ℕ → ℕ → SrtpEncryptParams × List ℕ
  encrypt params rtp sequence_number =
      let start = locate_payload_start rtp in
      let noted = note_sequence params sequence_number in
      if length rtp == 0
      then (params, [])
      else if start == 0 || leb (length rtp) start
      then (params, [])
      else (noted, seal noted start sequence_number rtp)

  -- `none` is `false`, where the output stays empty.
  unfoldable pub decrypt : SrtpEncryptParams → List ℕ → Option (List ℕ)
  decrypt params srtp =
      let body_len = length srtp - auth_tag_size in
      let body = take body_len srtp in
      let start = locate_payload_start body in
      let expected = compute_auth_tag params.session_auth_key body params.rollover_counter in
      if ltb (length srtp) (rtp_fixed_header_size + auth_tag_size)
      then none
      else if start == 0 || ltb body_len start
      then none
      else if not (constant_time_equal expected (drop body_len srtp))
      then none
      else some (crypt_payload params start (word_at body 2) body)

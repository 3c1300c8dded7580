-- ===== src/StreamData/RoundTrip.antt =====
-- EncodeAudio and DecodeOne of src/voip/src/domain/voip_stream_data_packet.cpp against one another.
use vianium_voip.Common.{
  ℕ, zero, suc, ◌+◌, ◌^◌, ◌≤◌, ◌<◌, ◌≡◌, refl, List, [], ◌∷◌, ◌++◌, Bool, true, ◌&&◌, ◌==◌, ltb,
  Bool-cases, inl, inr, if◌then◌else◌, arith, length, take, drop, take-append, drop-append,
  drop-append_of_eq, take-append_of_eq, append_assoc, length-append, bit_and, bit_or,
}
use vianium_voip.Bytes.{u8, write_le16, write_le32, read_le32}
use vianium_voip.Bytes.Laws.{read-write_le16, read-write_le32}
use vianium_voip.StreamData.{
  VoipStreamDataPacket, success, encode_audio, decode_one, decode_len16, decode_payload,
}

-- A table of all values below a bound.
agree_below : (ℕ → Bool) → ℕ → Bool
agree_below p zero = true
agree_below p (suc n) = p n && agree_below p n

agree_below_sound : (p : ℕ → Bool) (n x : ℕ) → agree_below p n ≡ true → x < n → p x ≡ true
unfolding agree_below
agree_below_sound p zero x h lt = absurd (omega arith)
agree_below_sound p (suc n) x h lt = ground (arith, agree_below_sound p n x)

-- The first byte of a packet of stream `id`, short form and 16-bit form, and the two fields that
-- the decoder takes from it.
abbrev first_byte_ok : ℕ → Bool
first_byte_ok id =
    u8 (bit_or (bit_and id 0x3F) 0) == id
    && (u8 (bit_or (bit_and id 0x3F) 0x40) == id + 64
        && (u8 (bit_and id 0x3F) == id
            && (u8 (bit_and id 0xC0) == 0
                && (u8 (bit_and (id + 64) 0x3F) == id && u8 (bit_and (id + 64) 0xC0) == 0x40))))

first_byte : (id : ℕ) → id < 64 → first_byte_ok id ≡ true
unfolding agree_below
first_byte id h = agree_below_sound first_byte_ok 64 id refl h

-- A length of at most 1100 has none of the flags that share its 16 bits.
abbrev length_ok : ℕ → Bool
length_ok n = bit_and n 0x4000 == 0 && (bit_and n 0x2000 == 0 && bit_and n 0x07FF == n)

length_flags : (n : ℕ) → n < 1101 → length_ok n ≡ true
unfolding agree_below
length_flags n h = agree_below_sound length_ok 1101 n refl h

-- The part behind the length field, whatever the field's form and whatever follows the packet.
module _ (front opus rest : List ℕ) (id timestamp : ℕ) (ts : timestamp < 2 ^ 32)
    (pos : 0 < length opus) (fits : length opus ≤ 1100) where
  abbrev whole : List ℕ
  whole = front ++ (write_le32 timestamp ++ opus)

  length-whole : length front + 4 + length opus ≡ length whole
  unfolding write_le32
  length-whole = omega (arith, length-append front (write_le32 timestamp ++ opus))

  header_length : length front + 4 ≡ length (front ++ write_le32 timestamp)
  unfolding write_le32
  header_length = omega (arith, length-append front (write_le32 timestamp))

  regroup : front ++ (write_le32 timestamp ++ (opus ++ rest)) ≡ whole ++ rest
  regroup = simp append_assoc

  regroup_header : whole ++ rest ≡ (front ++ write_le32 timestamp) ++ (opus ++ rest)
  regroup_header = simp append_assoc

  timestamp_read : read_le32 (drop (length front) (whole ++ rest)) ≡ timestamp
  timestamp_read =
      rw (← regroup, drop-append front (write_le32 timestamp ++ (opus ++ rest)))
        (read-write_le32 timestamp (opus ++ rest) ts)

  payload_read : take (length opus) (drop (length front + 4) (whole ++ rest)) ≡ opus
  payload_read =
      rw
        (
          regroup_header,
          drop-append_of_eq _ (front ++ write_le32 timestamp) (opus ++ rest) header_length,
        )
        (take-append opus rest)

  decode_payload_lem :
      decode_payload (whole ++ rest) id (length opus) (length front)
      ≡ success (record { stream_id = id; timestamp = timestamp; opus_payload = opus }) whole
  unfolding decode_payload
  decode_payload_lem = ground (
    arith,
    timestamp_read,
    payload_read,
    length-whole,
    length-append whole rest,
    take-append_of_eq (length front + 4 + length opus) whole rest length-whole,
  )

-- The header of a packet: with a 16-bit length above 255 bytes, with an 8-bit length otherwise.
abbrev header : ℕ → ℕ → List ℕ
header id n = if ltb 255 n then (id + 64) ∷ write_le16 n else id ∷ n ∷ []

abbrev wire : ℕ → ℕ → List ℕ → List ℕ
wire id timestamp opus = header id (length opus) ++ (write_le32 timestamp ++ opus)

module _ (id timestamp : ℕ) (opus : List ℕ) (named : 0 < id) (six_bits : id < 64)
    (ts : timestamp < 2 ^ 32) (pos : 0 < length opus) (fits : length opus ≤ 1100) where
  abbrev packet : VoipStreamDataPacket
  packet = record { stream_id = id; timestamp = timestamp; opus_payload = opus }

  encode_audio-wire : encode_audio id timestamp opus ≡ success packet (wire id timestamp opus)
  unfolding encode_audio
  encode_audio-wire = ground (arith, first_byte id six_bits)

  body_length : (rest : List ℕ) → 5 ≤ length ((write_le32 timestamp ++ opus) ++ rest)
  unfolding write_le32
  body_length rest = omega (arith, length-append opus rest)

  decode_short_form :
      (rest : List ℕ)
      → length opus ≤ 255
      → decode_one ((id ∷ length opus ∷ (write_le32 timestamp ++ opus)) ++ rest)
        ≡ success packet (id ∷ length opus ∷ (write_le32 timestamp ++ opus))
  unfolding decode_one
  decode_short_form rest short = ground (
    arith,
    first_byte id six_bits,
    body_length rest,
    decode_payload_lem (id ∷ length opus ∷ []) opus rest id timestamp ts pos fits,
  )

  decode_long_form :
      (rest : List ℕ)
      → decode_one
          (((id + 64) ∷ (write_le16 (length opus) ++ (write_le32 timestamp ++ opus))) ++ rest)
        ≡ success packet ((id + 64) ∷ (write_le16 (length opus) ++ (write_le32 timestamp ++ opus)))
  unfolding decode_one decode_len16 write_le16
  decode_long_form rest = ground (
    arith,
    first_byte id six_bits,
    length_flags (length opus),
    body_length rest,
    read-write_le16 (length opus) ((write_le32 timestamp ++ opus) ++ rest),
    decode_payload_lem ((id + 64) ∷ write_le16 (length opus)) opus rest id timestamp ts pos fits,
  )

  -- A frame of 1 to 1100 bytes on a stream with a 6-bit id other than zero is encoded, and its
  -- encoding decodes to the same stream, timestamp and frame, whatever bytes follow the packet;
  -- the decoder reports exactly the packet's own bytes as consumed.
  pub decode_one-encode_audio :
      (bytes : List ℕ) × (encode_audio id timestamp opus ≡ success packet bytes)
      × ((rest : List ℕ) → decode_one (bytes ++ rest) ≡ success packet bytes)
  decode_one-encode_audio = elim (Bool-cases (ltb 255 (length opus))) [
    | inl long ↦
        (wire id timestamp opus, encode_audio-wire, λ rest. rw long (decode_long_form rest))
    | inr short ↦ (
      wire id timestamp opus,
      encode_audio-wire,
      λ rest. rw short (decode_short_form rest (ground arith)),
    )
  ]

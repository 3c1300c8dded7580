-- ===== src/StreamData/Accepted.antt =====
-- What DecodeOne of src/voip/src/domain/voip_stream_data_packet.cpp accepts, on any input.
use vianium_voip.Common.{
  ℕ, ◌+◌, ◌-◌, ◌≤◌, ◌<◌, ◌≡◌, List, arith, length, take, drop, length-take, length-drop, bit_and,
}
use vianium_voip.Common.Bits.{bit_and_mask}
use vianium_voip.Bytes.{byte_at, u8, u16, read_le16}
use vianium_voip.StreamData.{
  VoipStreamDataPacket, success, decode_one, decode_len16, decode_payload,
}

-- The decoder's packet and the bytes it reports as consumed.
pub record IsAccepted (bytes : List ℕ) (p : VoipStreamDataPacket) (used : List ℕ) : Type 0 where
  pub named : 0 < p.stream_id
  pub six_bits : p.stream_id < 64
  pub not_empty : 0 < length p.opus_payload
  pub in_budget : length p.opus_payload ≤ 1100
  pub prefix : used ≡ take (length used) bytes
  pub inside : length used ≤ length bytes
  pub placed :
      p.opus_payload
      ≡ take (length p.opus_payload) (drop (length used - length p.opus_payload) bytes)

take_inside : (n : ℕ) (bytes : List ℕ) → n ≤ length bytes → length (take n bytes) ≡ n
take_inside n bytes h = omega (arith, length-take n bytes)

decode_payload-eq-success :
    (bytes : List ℕ) (id n offset : ℕ) (p : VoipStreamDataPacket) (used : List ℕ)
    → decode_payload bytes id n offset ≡ success p used
    → (0 < n)
      × (n ≤ 1100)
      × (offset + 4 + n ≤ length bytes)
      × (p.stream_id ≡ id)
      × (p.opus_payload ≡ take n (drop (offset + 4) bytes))
      × (used ≡ take (offset + 4 + n) bytes)
unfolding decode_payload
decode_payload-eq-success bytes id n offset p used e = ground arith

decode_payload-IsAccepted :
    (bytes : List ℕ) (id n offset : ℕ) (p : VoipStreamDataPacket) (used : List ℕ)
    → 0 < id
    → id < 64
    → decode_payload bytes id n offset ≡ success p used
    → IsAccepted bytes p used
decode_payload-IsAccepted bytes id n offset p used pos six e = record {
  named = rw named_as pos;
  six_bits = rw named_as six;
  not_empty = rw size positive;
  in_budget = rw size budget;
  prefix = rw whole_size whole;
  inside = rw whole_size fits;
  placed = rw (size, whole_size, start) payload;
}
  where
    facts :
        (0 < n)
        × (n ≤ 1100)
        × (offset + 4 + n ≤ length bytes)
        × (p.stream_id ≡ id)
        × (p.opus_payload ≡ take n (drop (offset + 4) bytes))
        × (used ≡ take (offset + 4 + n) bytes)
    facts = decode_payload-eq-success bytes id n offset p used e

    positive : 0 < n
    positive = facts.0

    budget : n ≤ 1100
    budget = facts.1

    fits : offset + 4 + n ≤ length bytes
    fits = facts.2

    named_as : p.stream_id ≡ id
    named_as = facts.3

    payload : p.opus_payload ≡ take n (drop (offset + 4) bytes)
    payload = facts.4

    whole : used ≡ take (offset + 4 + n) bytes
    whole = facts.5

    size : length p.opus_payload ≡ n
    size = rw payload (
        omega
          (arith, fits, length-take n (drop (offset + 4) bytes), length-drop (offset + 4) bytes))

    whole_size : length used ≡ offset + 4 + n
    whole_size = rw whole (take_inside (offset + 4 + n) bytes fits)

    start : offset + 4 + n - n ≡ offset + 4
    start = omega arith

stream_id-range : (b : ℕ) → u8 (bit_and b 0x3F) < 64
stream_id-range b = omega (arith, bit_and_mask 6 b)

decode_len16-eq-success :
    (bytes : List ℕ) (id : ℕ) (p : VoipStreamDataPacket) (used : List ℕ)
    → decode_len16 bytes id ≡ success p used
    → decode_payload bytes id (u16 (bit_and (read_le16 (drop 1 bytes)) 0x07FF)) 3 ≡ success p used
unfolding decode_len16
decode_len16-eq-success bytes id p used e = ground arith

-- Whatever the input, a packet that the decoder accepts has a stream id of 1 to 63 and a frame of 1
-- to 1100 bytes; the consumed bytes are a prefix of the input and the frame is the end of it, so
-- nothing was read past the buffer.
pub decode_one-IsAccepted :
    (bytes : List ℕ) (p : VoipStreamDataPacket) (used : List ℕ)
    → decode_one bytes ≡ success p used
    → IsAccepted bytes p used
unfolding decode_one
decode_one-IsAccepted bytes p used e =
    let id = u8 (bit_and (byte_at bytes 0) 0x3F) in
    ground (
      arith,
      stream_id-range (byte_at bytes 0),
      decode_len16-eq-success bytes id p used,
      decode_payload-IsAccepted bytes id (byte_at bytes 1) 2 p used,
      decode_payload-IsAccepted bytes id (u16 (bit_and (read_le16 (drop 1 bytes)) 0x07FF)) 3 p used,
    )

-- ===== src/SignalingFrames/Json.antt =====
-- BuildJsonFrame of src/voip/src/domain/tgcalls_signaling_frames.cpp.
use vianium_voip.Common.{
  ℕ, ◌+◌, ◌*◌, ◌^◌, ◌≤◌, ◌<◌, ◌≡◌, refl, inl, List, [], ◌∷◌, arith, length, bit_and, bit_or,
}
use vianium_voip.Common.Bits.{
  bit_or_low, bit_or_split, bit_and_split, bit_or-zero, bit_and-zero, bit_and_mask,
}
use vianium_voip.SignalingFrames.{
  content_tag_custom, make_frame, build_json_frame, split_frames, join_frames,
}
use vianium_voip.SignalingFrames.RoundTrip.{IsWellFormed, split-join_frames}

-- The flags occupy bits 30 and 31, above a 30-bit counter.
json_seq : (c : ℕ) → c < 2 ^ 30 → bit_or (bit_or c 0x8000_0000) 0x4000_0000 ≡ 3 * 2 ^ 30 + c
json_seq c h = rw single (omega (arith, bit_or_split 30 2 1 c 0 h (omega arith), bit_or-zero c))
  where
    single : bit_or c 0x8000_0000 ≡ 2 * 2 ^ 30 + c
    single = omega (arith, bit_or_low 31 1 c (omega arith))

single_bit : (c : ℕ) → c < 2 ^ 30 → bit_and (3 * 2 ^ 30 + c) 0x8000_0000 ≡ 2 * 2 ^ 30
single_bit c h = omega (arith, bit_and_split 30 3 2 c 0 h (omega arith), bit_and-zero c)

ack_bit : (c : ℕ) → c < 2 ^ 30 → bit_and (3 * 2 ^ 30 + c) 0x4000_0000 ≡ 2 ^ 30
ack_bit c h = omega (arith, bit_and_split 30 3 1 c 0 h (omega arith), bit_and-zero c)

counter_bits : (c : ℕ) → c < 2 ^ 30 → bit_and (3 * 2 ^ 30 + c) 0x3FFF_FFFF ≡ c
counter_bits c h = omega (arith, bit_and_mask 30 (3 * 2 ^ 30 + c))

json_flags :
    (c : ℕ) (json : List ℕ)
    → c < 2 ^ 30
    → build_json_frame c json ≡ make_frame (3 * 2 ^ 30 + c) content_tag_custom json
unfolding build_json_frame make_frame
json_flags c json h = ground (arith, json_seq c h, single_bit c h, ack_bit c h, counter_bits c h)

json-IsWellFormed :
    (c : ℕ) (json : List ℕ)
    → c < 2 ^ 30
    → length json ≤ 1048576
    → IsWellFormed (build_json_frame c json)
json-IsWellFormed c json h fits = rw (json_flags c json h) made
  where
    made : IsWellFormed (make_frame (3 * 2 ^ 30 + c) content_tag_custom json)
    made =
        unfold make_frame in
        record { seq_fits = omega (arith, h); flags = refl; kind = inl (refl, fits) }

-- The frame that is built for a 30-bit counter and a message of at most 1 MiB is read back by the
-- receiver from its sequence word, with both flags set and with the same counter and message.
pub split-build_json_frame :
    (counter : ℕ) (json : List ℕ)
    → counter < 2 ^ 30
    → length json ≤ 1048576
    → let f = build_json_frame counter json in split_frames f.seq (join_frames (f ∷ [])) ≡ f ∷ []
split-build_json_frame counter json h fits =
    split-join_frames (build_json_frame counter json) [] (json-IsWellFormed counter json h fits, tt)

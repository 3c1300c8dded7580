-- ===== src/Tests/Signaling.antt =====
-- The frames of src/voip/src/domain/tgcalls_signaling_frames.cpp on concrete packets.
use vianium_voip.Common.{ℕ, ◌+◌, ◌≤◌, ◌≡◌, refl, inl, inr, List, [], ◌∷◌, All, arith, length, ◌++◌}
use vianium_voip.Bytes.{low_byte, write_be32, read_be32, AreBytes}
use vianium_voip.SignalingFrames.{
  ChannelFrame, make_frame, scan_custom, scan_frame, scan_next, split_more, split_after,
  split_frames, join_frame, join_more, join_frames,
}
use vianium_voip.SignalingFrames.RoundTrip.{IsWellFormed, split-join_frames}
use vianium_voip.SignalingFrames.Prefix.{first_seq, wire, split_frames_prefix}
use vianium_voip.SignalingFrames.Bounds.{IsSane, total_payload, split_more_total}

-- A message of three bytes, and an acknowledgement behind it.
abbrev message : ChannelFrame
message = make_frame 0xC000_0001 0x7F (97 ∷ 98 ∷ 99 ∷ [])

abbrev ack : ChannelFrame
ack = make_frame 5 0xFF []

abbrev two_frames : List ℕ
two_frames = 0x7F ∷ 0 ∷ 0 ∷ 0 ∷ 3 ∷ 97 ∷ 98 ∷ 99 ∷ 0 ∷ 0 ∷ 0 ∷ 5 ∷ 0xFF ∷ []

join_two : join_frames (message ∷ ack ∷ []) ≡ two_frames
unfolding join_frames join_frame join_more make_frame write_be32 low_byte
join_two = refl

split_two : split_frames 0xC000_0001 two_frames ≡ message ∷ ack ∷ []
unfolding split_frames split_after scan_frame scan_custom scan_next split_more read_be32
split_two = refl

-- The length field announces more than there is.
split_truncated : split_frames 1 (0x7F ∷ 0 ∷ 0 ∷ 0 ∷ 3 ∷ 97 ∷ []) ≡ []
unfolding split_frames split_after scan_frame scan_custom read_be32
split_truncated = refl

message-IsWellFormed : IsWellFormed message
unfolding make_frame
message-IsWellFormed = record {
  seq_fits = omega arith;
  flags = refl;
  kind = inl (refl, omega arith);
}

ack-IsWellFormed : IsWellFormed ack
unfolding make_frame
ack-IsWellFormed = record { seq_fits = omega arith; flags = refl; kind = inr (inr refl, refl) }

split-join_frames_example :
    split_frames message.seq (join_frames (message ∷ ack ∷ [])) ≡ message ∷ ack ∷ []
split-join_frames_example =
    split-join_frames message (ack ∷ []) (message-IsWellFormed, (ack-IsWellFormed, tt))

two_frames-AreBytes : AreBytes two_frames
two_frames-AreBytes = ground arith

split_frames_prefix_example :
    All IsSane (split_frames 9 two_frames)
    × (total_payload (split_frames 9 two_frames) ≤ length two_frames)
    × (first_seq 9 (split_frames 9 two_frames) ≡ 9)
    × ((rest : List ℕ) × (two_frames ≡ wire (split_frames 9 two_frames) ++ rest))
split_frames_prefix_example = split_frames_prefix 9 two_frames two_frames-AreBytes

split_more_total_example :
    split_more (length two_frames + 5) two_frames ≡ split_more (length two_frames) two_frames
split_more_total_example = split_more_total 5 two_frames

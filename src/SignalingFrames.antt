-- ===== src/SignalingFrames.antt =====
-- src/voip/src/domain/tgcalls_signaling_frames.{h,cpp}: the frames inside a decrypted tgcalls signaling
-- packet. The first frame takes the packet's outer sequence word, later frames carry their own.
pub mod RoundTrip
pub mod Bounds
pub mod Prefix
pub mod Json
use vianium_voip.Common.{
  ℕ, zero, suc, ◌+◌, ◌*◌, ◌-◌, ◌<◌, ◌^◌, List, [], ◌∷◌, ◌++◌, Bool, true, false, not, ◌||◌, ltb,
  ◌==◌, if◌then◌else◌, length, take, drop, bit_and, bit_or,
}
use vianium_voip.Bytes.{byte_at, u32, read_be32, write_be32}

pub record ChannelFrame : Type 0 where
  pub seq : ℕ
  pub content_tag : ℕ
  pub single_message_packet : Bool
  pub requires_ack : Bool
  pub counter : ℕ
  pub payload : List ℕ

abbrev pub content_tag_custom : ℕ
content_tag_custom = 0x7F

abbrev pub content_tag_empty : ℕ
content_tag_empty = 0xFE

abbrev pub content_tag_ack : ℕ
content_tag_ack = 0xFF

abbrev pub seq_bit_single_packet : ℕ
seq_bit_single_packet = 0x8000_0000

abbrev pub seq_bit_requires_ack : ℕ
seq_bit_requires_ack = 0x4000_0000

-- ~(kSeqBitSinglePacket | kSeqBitRequiresAck) on 32 bits.
abbrev pub counter_mask : ℕ
counter_mask = 0x3FFF_FFFF

-- A default ChannelFrame with its Seq, ContentTag and Payload set and FillSeqFlags applied.
unfoldable pub make_frame : ℕ → ℕ → List ℕ → ChannelFrame
make_frame seq tag payload = record {
  seq = seq;
  content_tag = tag;
  single_message_packet = not (bit_and seq seq_bit_single_packet == 0);
  requires_ack = not (bit_and seq seq_bit_requires_ack == 0);
  counter = bit_and seq counter_mask;
  payload = payload;
}

-- What one round of the loop finds at `rest`, the bytes from `pos` on, where the frame's sequence
-- word is known: a frame with the bytes behind it, a last frame, or nothing that can be read.
pub data Scan : Type 0 where
  frame : ChannelFrame → List ℕ → Scan
  last : ChannelFrame → Scan
  stop : Scan

unfoldable pub scan_custom : ℕ → List ℕ → Scan
scan_custom seq rest =
    let len = read_be32 rest in
    let body = drop 4 rest in
    if ltb (length rest) 4
    then stop
    else if ltb 1048576 len
    then stop
    else if ltb (length body) len
    then stop
    else frame (make_frame seq content_tag_custom (take len body)) (drop len body)

unfoldable pub scan_frame : ℕ → List ℕ → Scan
scan_frame seq [] = stop
scan_frame seq (tag ∷ rest) =
    if tag == content_tag_ack
    then frame (make_frame seq tag []) rest
    else if tag == content_tag_empty
    then frame (make_frame seq tag []) rest
    else if not (tag == content_tag_custom)
    then last (make_frame seq tag [])
    else scan_custom seq rest

-- The head of a round: the first frame has the outer sequence word, a later one reads its own.
unfoldable pub scan_next : List ℕ → Scan
scan_next rest = if ltb (length rest) 4 then stop else scan_frame (read_be32 rest) (drop 4 rest)

-- `while (pos < n)` for the frames after the first, on fuel: each round takes a byte at least, so
-- the length of the rest is enough.
unfoldable pub split_more : ℕ → List ℕ → List ChannelFrame
split_more zero rest = []
split_more (suc fuel) [] = []
split_more (suc fuel) (b ∷ rest) = elim (scan_next (b ∷ rest)) [
  | frame f more ↦ f ∷ split_more fuel more
  | last f ↦ f ∷ []
  | stop ↦ []
]

unfoldable pub split_after : Scan → List ChannelFrame
split_after (frame f more) = f ∷ split_more (length more) more
split_after (last f) = f ∷ []
split_after stop = []

unfoldable pub split_frames : ℕ → List ℕ → List ChannelFrame
split_frames outer_seq body = split_after (scan_frame outer_seq body)

-- One frame of JoinFrames behind its sequence word.
unfoldable pub join_frame : ChannelFrame → List ℕ
join_frame f =
    if f.content_tag == content_tag_empty || f.content_tag == content_tag_ack
    then f.content_tag ∷ []
    else f.content_tag ∷ (write_be32 (u32 (length f.payload)) ++ f.payload)

-- The frames with i ≠ 0.
unfoldable pub join_more : List ChannelFrame → List ℕ
join_more [] = []
join_more (f ∷ fs) = write_be32 f.seq ++ (join_frame f ++ join_more fs)

unfoldable pub join_frames : List ChannelFrame → List ℕ
join_frames [] = []
join_frames (f ∷ fs) = join_frame f ++ join_more fs

unfoldable pub build_json_frame : ℕ → List ℕ → ChannelFrame
build_json_frame counter json = record {
  seq = bit_or (bit_or counter seq_bit_single_packet) seq_bit_requires_ack;
  content_tag = content_tag_custom;
  single_message_packet = true;
  requires_ack = true;
  counter = counter;
  payload = json;
}

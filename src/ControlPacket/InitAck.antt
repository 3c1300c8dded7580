-- ===== src/ControlPacket/InitAck.antt =====
-- BuildInitAckPayload and ParseInitAckPayload of src/voip/src/domain/voip_control_packet.cpp.
use vianium_voip.Common.{
  ℕ, zero, suc, ◌+◌, ◌*◌, ◌≤◌, ◌<◌, ◌≡◌, sym, ap, subst, ◌∙◌, ◌⊎◌, inl, inr, List, ◌++◌, Bool, true,
  false, not, ◌&&◌, ◌==◌, arith, length, drop,
}
use native.Mathlib.Nat.{add-zero, mul-zero}
use vianium_voip.Bytes.{low_byte, byte_at, write_le16, write_le32, read_le16, read_le32}
use vianium_voip.ControlPacket.{
  VoipInitAckInfo, success, default_audio_stream_id, default_audio_frame_duration_ms,
  protocol_version, min_protocol_version, stream_type_audio, codec_opus, build_init_ack_payload,
  read_stream, read_streams, parse_init_ack_payload, has_bytes,
}

-- The descriptor at `offset` is of an enabled Opus audio stream.
abbrev is_audio : List ℕ → ℕ → Bool
is_audio bytes offset =
    byte_at (drop offset bytes) 1 == stream_type_audio
    && (read_le32 (drop 2 (drop offset bytes)) == codec_opus
        && not (byte_at (drop offset bytes) 8 == 0))

-- The parsed stream is the one that the descriptor at `offset` describes.
abbrev Describes : List ℕ → ℕ → VoipInitAckInfo → Type 0
Describes bytes offset ack =
    (is_audio bytes offset ≡ true)
    × (ack.audio_stream_id ≡ byte_at (drop offset bytes) 0)
    × (ack.frame_duration_ms ≡ read_le16 (drop 6 (drop offset bytes)))
    × (ack.audio_enabled ≡ true)

read_stream_lem :
    (bytes : List ℕ) (offset : ℕ) (ack : VoipInitAckInfo)
    → (Describes bytes offset (read_stream bytes offset ack)
        × ((read_stream bytes offset ack).has_audio_opus_stream ≡ true))
      ⊎ ((is_audio bytes offset ≡ false) × (read_stream bytes offset ack ≡ ack))
unfolding read_stream
read_stream_lem bytes offset ack = ground arith

-- The loop reads only whole descriptors that lie inside the buffer.
read_streams_bounds :
    (rounds offset : ℕ) (bytes bytes' : List ℕ) (ack ack' : VoipInitAckInfo)
    → offset ≤ length bytes
    → read_streams bytes rounds offset ack ≡ success ack' bytes'
    → offset + 9 * rounds ≤ length bytes
unfolding read_streams has_bytes
read_streams_bounds zero offset bytes bytes' ack ack' o e = omega arith
read_streams_bounds (suc rounds) offset bytes bytes' ack ack' o e = ground (
  arith,
  read_streams_bounds rounds (offset + 9) bytes bytes' (read_stream bytes offset ack) ack',
)

read_streams_kept :
    (rounds offset : ℕ) (bytes bytes' : List ℕ) (ack ack' : VoipInitAckInfo)
    → read_streams bytes rounds offset ack ≡ success ack' bytes'
    → (ack'.peer_version ≡ ack.peer_version) × (ack'.peer_min_version ≡ ack.peer_min_version)
unfolding read_streams has_bytes read_stream
read_streams_kept zero offset bytes bytes' ack ack' e = ground arith
read_streams_kept (suc rounds) offset bytes bytes' ack ack' e =
    ground (
      arith,
      read_streams_kept rounds (offset + 9) bytes bytes' (read_stream bytes offset ack) ack',
    )

-- What the loop starts from.
abbrev pub no_stream : List ℕ → VoipInitAckInfo
no_stream bytes = record {
  peer_version = read_le32 bytes;
  peer_min_version = read_le32 (drop 4 bytes);
  has_audio_opus_stream = false;
  audio_stream_id = 0;
  frame_duration_ms = 0;
  audio_enabled = false;
}

parse_init_ack-eq-success :
    (bytes bytes' : List ℕ) (ack : VoipInitAckInfo)
    → parse_init_ack_payload bytes ≡ success ack bytes'
    → (9 ≤ length bytes)
      × (read_le32 (drop 4 bytes) ≤ protocol_version)
      × (min_protocol_version ≤ read_le32 bytes)
      × (read_streams bytes (byte_at bytes 8) 9 (no_stream bytes) ≡ success ack bytes')
unfolding parse_init_ack_payload
parse_init_ack-eq-success bytes bytes' ack e = ground arith

-- A parse that succeeds has read only bytes inside the buffer: its 9 bytes of header and, for each
-- announced stream, 9 bytes of descriptor. The versions that it reports overlap with ours.
pub parse_init_ack_bounds :
    (bytes bytes' : List ℕ) (ack : VoipInitAckInfo)
    → parse_init_ack_payload bytes ≡ success ack bytes'
    → (9 + 9 * byte_at bytes 8 ≤ length bytes)
      × (ack.peer_min_version ≤ protocol_version)
      × (min_protocol_version ≤ ack.peer_version)
parse_init_ack_bounds bytes bytes' ack e =
    let (long, newer, older, run) = parse_init_ack-eq-success bytes bytes' ack e in
    omega (
      arith,
      read_streams_bounds (byte_at bytes 8) 9 bytes bytes' (no_stream bytes) ack long run,
      read_streams_kept (byte_at bytes 8) 9 bytes bytes' (no_stream bytes) ack run,
    )

-- Descriptor `i` is the last one of an enabled Opus audio stream, and `ack` reports it.
abbrev pub LastAudio : List ℕ → ℕ → ℕ → ℕ → VoipInitAckInfo → Type 0
LastAudio bytes rounds offset i ack =
    (i < rounds)
    × (ack.has_audio_opus_stream ≡ true)
    × Describes bytes (offset + 9 * i) ack
    × ((j : ℕ) → i < j → j < rounds → is_audio bytes (offset + 9 * j) ≡ false)

abbrev pub NoAudio : List ℕ → ℕ → ℕ → Type 0
NoAudio bytes rounds offset = (j : ℕ) → j < rounds → is_audio bytes (offset + 9 * j) ≡ false

shift_descriptor :
    (bytes : List ℕ) (offset j : ℕ)
    → is_audio bytes (offset + 9 + 9 * j) ≡ is_audio bytes (offset + 9 * suc j)
shift_descriptor bytes offset j = ap (is_audio bytes) (omega arith)

NoAudio-suc :
    (bytes : List ℕ) (rounds offset : ℕ)
    → is_audio bytes offset ≡ false
    → NoAudio bytes rounds (offset + 9)
    → NoAudio bytes (suc rounds) offset
NoAudio-suc bytes rounds offset h later zero lt = rw (mul-zero, add-zero) h
NoAudio-suc bytes rounds offset h later (suc j) lt =
    sym (shift_descriptor bytes offset j) ∙ later j (omega arith)

LastAudio-suc :
    (bytes : List ℕ) (rounds offset i : ℕ) (ack : VoipInitAckInfo)
    → LastAudio bytes rounds (offset + 9) i ack
    → LastAudio bytes (suc rounds) offset (suc i) ack
LastAudio-suc bytes rounds offset i ack l = (omega arith, l.1, described, later)
  where
    next : offset + 9 + 9 * i ≡ offset + 9 * suc i
    next = omega arith

    described : Describes bytes (offset + 9 * suc i) ack
    described = subst (λ o. Describes bytes o ack) next l.2

    later : (j : ℕ) → suc i < j → j < suc rounds → is_audio bytes (offset + 9 * j) ≡ false
    later zero lt lt' = absurd (omega arith)
    later (suc j) lt lt' = sym (shift_descriptor bytes offset j) ∙ l.3 j (omega arith) (omega arith)

LastAudio-here :
    (bytes : List ℕ) (rounds offset : ℕ) (ack : VoipInitAckInfo)
    → Describes bytes offset ack
    → ack.has_audio_opus_stream ≡ true
    → NoAudio bytes rounds (offset + 9)
    → LastAudio bytes (suc rounds) offset 0 ack
LastAudio-here bytes rounds offset ack d has none_later = (omega arith, has, described, later)
  where
    here : offset ≡ offset + 9 * 0
    here = omega arith

    described : Describes bytes (offset + 9 * 0) ack
    described = subst (λ o. Describes bytes o ack) here d

    later : (j : ℕ) → 0 < j → j < suc rounds → is_audio bytes (offset + 9 * j) ≡ false
    later zero lt lt' = absurd (omega arith)
    later (suc j) lt lt' = sym (shift_descriptor bytes offset j) ∙ none_later j (omega arith)

read_streams-suc :
    (rounds offset : ℕ) (bytes bytes' : List ℕ) (ack ack' : VoipInitAckInfo)
    → read_streams bytes (suc rounds) offset ack ≡ success ack' bytes'
    → read_streams bytes rounds (offset + 9) (read_stream bytes offset ack) ≡ success ack' bytes'
unfolding read_streams
read_streams-suc rounds offset bytes bytes' ack ack' e = ground arith

abbrev Outcome : List ℕ → ℕ → ℕ → VoipInitAckInfo → VoipInitAckInfo → Type 0
Outcome bytes rounds offset ack ack' =
    ((i : ℕ) × LastAudio bytes rounds offset i ack') ⊎ (NoAudio bytes rounds offset × (ack' ≡ ack))

read_streams-zero :
    (offset : ℕ) (bytes bytes' : List ℕ) (ack ack' : VoipInitAckInfo)
    → read_streams bytes zero offset ack ≡ success ack' bytes'
    → ack' ≡ ack
unfolding read_streams
read_streams-zero offset bytes bytes' ack ack' e = ground arith

read_streams_lem :
    (rounds offset : ℕ) (bytes bytes' : List ℕ) (ack ack' : VoipInitAckInfo)
    → read_streams bytes rounds offset ack ≡ success ack' bytes'
    → Outcome bytes rounds offset ack ack'
read_streams_lem zero offset bytes bytes' ack ack' e =
    inr (λ j lt. elim lt [ ], read_streams-zero offset bytes bytes' ack ack' e)
read_streams_lem (suc rounds) offset bytes bytes' ack ack' e =
    combine
      (read_streams_lem rounds (offset + 9) bytes bytes' (read_stream bytes offset ack) ack'
        (read_streams-suc rounds offset bytes bytes' ack ack' e))
      (read_stream_lem bytes offset ack)
  where
    read : VoipInitAckInfo
    read = read_stream bytes offset ack

    combine :
        Outcome bytes rounds (offset + 9) read ack'
        → (Describes bytes offset read × (read.has_audio_opus_stream ≡ true))
          ⊎ ((is_audio bytes offset ≡ false) × (read ≡ ack))
        → Outcome bytes (suc rounds) offset ack ack'
    combine (inl (i, l)) here = inl (suc i, LastAudio-suc bytes rounds offset i ack' l)
    combine (inr (later, same)) (inl (d, has)) =
        inl (zero, rw same (LastAudio-here bytes rounds offset read d has later))
    combine (inr (later, same)) (inr (clear, kept)) =
        inr (NoAudio-suc bytes rounds offset clear later, same ∙ kept)

-- A parse that succeeds reports the last descriptor of an enabled Opus audio stream, with its
-- stream id and frame duration; it reports no audio stream exactly when no descriptor is one.
pub parse_init_ack_reports :
    (bytes bytes' : List ℕ) (ack : VoipInitAckInfo)
    → parse_init_ack_payload bytes ≡ success ack bytes'
    → ((i : ℕ) × LastAudio bytes (byte_at bytes 8) 9 i ack)
      ⊎ (NoAudio bytes (byte_at bytes 8) 9 × (ack ≡ no_stream bytes))
parse_init_ack_reports bytes bytes' ack e =
    read_streams_lem (byte_at bytes 8) 9 bytes bytes' (no_stream bytes) ack
      (parse_init_ack-eq-success bytes bytes' ack e).3

-- The INIT_ACK payload that this client builds is parsed by its peer, whatever follows it, to the
-- client's protocol versions and its one enabled Opus stream.
pub parse-build_init_ack :
    (rest : List ℕ)
    → parse_init_ack_payload (build_init_ack_payload ++ rest)
      ≡ success
          (record {
            peer_version = protocol_version;
            peer_min_version = min_protocol_version;
            has_audio_opus_stream = true;
            audio_stream_id = default_audio_stream_id;
            frame_duration_ms = default_audio_frame_duration_ms;
            audio_enabled = true;
          })
          (build_init_ack_payload ++ rest)
unfolding parse_init_ack_payload build_init_ack_payload read_streams has_bytes read_stream
    write_le32 write_le16 read_le32 read_le16 low_byte
parse-build_init_ack rest = ground arith

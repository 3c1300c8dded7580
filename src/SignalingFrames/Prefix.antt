-- ===== src/SignalingFrames/Prefix.antt =====
-- What SplitFrames of src/voip/src/domain/tgcalls_signaling_frames.cpp has read, against the bytes of the
-- body.
use vianium_voip.Common.{
  ℕ, zero, suc, ◌≤◌, ◌≡◌, refl, sym, ap, ◌∙◌, ◌⊎◌, inl, inr, List, [], ◌∷◌, ◌++◌, All, false, ◌==◌,
  if◌then◌else◌, arith, length, take, drop, length-take, take-append-drop, append_assoc, All-drop,
}
use vianium_voip.Bytes.{IsByte, AreBytes, read_be32, write_be32}
use vianium_voip.Bytes.Laws.{write-read_be32}
use vianium_voip.SignalingFrames.{
  ChannelFrame, Scan, frame, last, stop, content_tag_custom, make_frame, scan_custom, scan_frame,
  scan_next, split_more, split_after, split_frames,
}
use vianium_voip.SignalingFrames.Bounds.{
  IsSane, total_payload, Scan-cases, scan_custom-ne-last, split_frames_bounds,
}

-- A frame behind its sequence word: the tag, and for the custom kind the length and the payload.
abbrev pub own_bytes : ChannelFrame → List ℕ
own_bytes f =
    if f.content_tag == content_tag_custom
    then f.content_tag ∷ (write_be32 (length f.payload) ++ f.payload)
    else f.content_tag ∷ []

-- The frames after the first, each with its own sequence word.
abbrev pub wire_more : List ChannelFrame → List ℕ
wire_more [] = []
wire_more (f ∷ fs) = write_be32 f.seq ++ (own_bytes f ++ wire_more fs)

-- The first frame's word is the packet's outer one and is not in the body.
abbrev pub wire : List ChannelFrame → List ℕ
wire [] = []
wire (f ∷ fs) = own_bytes f ++ wire_more fs

abbrev pub first_seq : ℕ → List ChannelFrame → ℕ
first_seq other [] = other
first_seq other (f ∷ fs) = f.seq

read_be32-drop :
    (bytes : List ℕ)
    → AreBytes bytes
    → 4 ≤ length bytes
    → write_be32 (read_be32 bytes) ++ drop 4 bytes ≡ bytes
read_be32-drop [] h fits = absurd (omega arith)
read_be32-drop (a ∷ []) h fits = absurd (omega arith)
read_be32-drop (a ∷ b ∷ []) h fits = absurd (omega arith)
read_be32-drop (a ∷ b ∷ c ∷ []) h fits = absurd (omega arith)
read_be32-drop (a ∷ b ∷ c ∷ d ∷ rest) h fits =
    ap (λ (w : List ℕ). w ++ rest) (write-read_be32 a b c d rest h.0 h.1.0 h.1.1.0 h.1.1.1.0)

payload_behind_length :
    (rest : List ℕ)
    → AreBytes rest
    → 4 ≤ length rest
    → read_be32 rest ≤ length (drop 4 rest)
    → (write_be32 (length (take (read_be32 rest) (drop 4 rest)))
          ++ take (read_be32 rest) (drop 4 rest))
        ++ drop (read_be32 rest) (drop 4 rest)
      ≡ rest
payload_behind_length rest h enough fits = rw size (
    append_assoc (write_be32 (read_be32 rest)) (take (read_be32 rest) (drop 4 rest)) _
    ∙ ap (λ (w : List ℕ). write_be32 (read_be32 rest) ++ w)
        (take-append-drop (read_be32 rest) (drop 4 rest))
    ∙ read_be32-drop rest h enough)
  where
    size : length (take (read_be32 rest) (drop 4 rest)) ≡ read_be32 rest
    size = omega (arith, fits, length-take (read_be32 rest) (drop 4 rest))

scan_custom-guards :
    (seq : ℕ) (rest more : List ℕ) (f : ChannelFrame)
    → scan_custom seq rest ≡ frame f more
    → (f ≡ make_frame seq content_tag_custom (take (read_be32 rest) (drop 4 rest)))
      × (more ≡ drop (read_be32 rest) (drop 4 rest))
      × (4 ≤ length rest)
      × (read_be32 rest ≤ length (drop 4 rest))
unfolding scan_custom
scan_custom-guards seq rest more f e = ground arith

-- `f` is the frame with the word `seq` that `bytes` begins with, before `more`.
record Reads (seq : ℕ) (bytes : List ℕ) (f : ChannelFrame) (more : List ℕ) : Type 0 where
  word : f.seq ≡ seq
  begins : own_bytes f ++ more ≡ bytes

scan_custom-Reads :
    (seq : ℕ) (rest more : List ℕ) (f : ChannelFrame)
    → AreBytes rest
    → scan_custom seq rest ≡ frame f more
    → Reads seq (content_tag_custom ∷ rest) f more
unfolding make_frame
scan_custom-Reads seq rest more f h e =
    let (same, left, enough, fits) = scan_custom-guards seq rest more f e in
    rw (same, left)
      (record {
        word = refl;
        begins = ap (◌∷◌ content_tag_custom) (payload_behind_length rest h enough fits);
      })

plain-Reads :
    (seq tag : ℕ) (rest : List ℕ)
    → (tag == content_tag_custom) ≡ false
    → Reads seq (tag ∷ rest) (make_frame seq tag []) rest
unfolding make_frame
plain-Reads seq tag rest e = record { word = refl; begins = rw e refl }

scan_frame-kinds :
    (seq tag : ℕ) (rest more : List ℕ) (f : ChannelFrame)
    → scan_frame seq (tag ∷ rest) ≡ frame f more
    → ((f ≡ make_frame seq tag []) × (more ≡ rest) × ((tag == content_tag_custom) ≡ false))
      ⊎ ((tag ≡ content_tag_custom) × (scan_custom seq rest ≡ frame f more))
unfolding scan_frame
scan_frame-kinds seq tag rest more f e = ground arith

scan_frame-Reads :
    (seq : ℕ) (bytes more : List ℕ) (f : ChannelFrame)
    → AreBytes bytes
    → scan_frame seq bytes ≡ frame f more
    → Reads seq bytes f more
scan_frame-Reads seq [] more f h e = unfold scan_frame in cc e
scan_frame-Reads seq (tag ∷ rest) more f h e = elim (scan_frame-kinds seq tag rest more f e) [
  | inl (same, left, plain) ↦ rw (same, left) (plain-Reads seq tag rest plain)
  | inr (custom, scanned) ↦ rw custom (scan_custom-Reads seq rest more f h.1 scanned)
]

scan_frame-last_kind :
    (seq tag : ℕ) (rest : List ℕ) (f : ChannelFrame)
    → scan_frame seq (tag ∷ rest) ≡ last f
    → (f ≡ make_frame seq tag []) × ((tag == content_tag_custom) ≡ false)
unfolding scan_frame
scan_frame-last_kind seq tag rest f e = ground (arith, scan_custom-ne-last seq rest f)

-- A frame of an unknown kind ends the run, whatever is behind it.
last-Reads :
    (seq : ℕ) (bytes : List ℕ) (f : ChannelFrame)
    → scan_frame seq bytes ≡ last f
    → (rest : List ℕ) × Reads seq bytes f rest
last-Reads seq [] f e = unfold scan_frame in cc e
last-Reads seq (tag ∷ rest) f e =
    let (same, plain) = scan_frame-last_kind seq tag rest f e in
    (rest, rw same (plain-Reads seq tag rest plain))

scan_next-Reads :
    (bytes more : List ℕ) (f : ChannelFrame)
    → AreBytes bytes
    → scan_next bytes ≡ frame f more
    → write_be32 f.seq ++ (own_bytes f ++ more) ≡ bytes
unfolding scan_next
scan_next-Reads bytes more f h e =
    let r =
      scan_frame-Reads (read_be32 bytes) (drop 4 bytes) more f (All-drop IsByte 4 bytes h)
        (ground arith) in
    rw (r.word, r.begins) (read_be32-drop bytes h (ground arith))

scan_next-last :
    (bytes : List ℕ) (f : ChannelFrame)
    → AreBytes bytes
    → scan_next bytes ≡ last f
    → (rest : List ℕ) × (write_be32 f.seq ++ (own_bytes f ++ rest) ≡ bytes)
unfolding scan_next
scan_next-last bytes f h e =
    let (rest, r) = last-Reads (read_be32 bytes) (drop 4 bytes) f (ground arith) in
    (rest, rw (r.word, r.begins) (read_be32-drop bytes h (ground arith)))

-- `xs` begins with `ys`.
abbrev Begins : List ℕ → List ℕ → Type 0
Begins xs ys = (rest : List ℕ) × (xs ≡ ys ++ rest)

behind :
    (f : ChannelFrame) (fs : List ChannelFrame) (more rest : List ℕ)
    → more ≡ wire_more fs ++ rest
    → own_bytes f ++ more ≡ wire (f ∷ fs) ++ rest
behind f fs more rest e = rw e (sym (append_assoc (own_bytes f) (wire_more fs) rest))

behind_word :
    (f : ChannelFrame) (fs : List ChannelFrame) (more rest : List ℕ)
    → more ≡ wire_more fs ++ rest
    → write_be32 f.seq ++ (own_bytes f ++ more) ≡ wire_more (f ∷ fs) ++ rest
behind_word f fs more rest e =
    ap (λ (w : List ℕ). write_be32 f.seq ++ w) (behind f fs more rest e)
    ∙ sym (append_assoc (write_be32 f.seq) (own_bytes f ++ wire_more fs) rest)

All-behind : (xs ys : List ℕ) → AreBytes (xs ++ ys) → AreBytes ys
All-behind [] ys h = h
All-behind (x ∷ xs) ys h = All-behind xs ys h.1

bytes_left : (xs more bytes : List ℕ) → xs ++ more ≡ bytes → AreBytes bytes → AreBytes more
bytes_left xs more bytes e h = All-behind xs more (rw e h)

split_more-Begins :
    (fuel : ℕ) (bytes : List ℕ) → AreBytes bytes → Begins bytes (wire_more (split_more fuel bytes))
unfolding split_more
split_more-Begins zero bytes h = (bytes, refl)
split_more-Begins (suc fuel) [] h = ([], refl)
split_more-Begins (suc fuel) (b ∷ rest) h = elim (Scan-cases (scan_next (b ∷ rest))) [
  | inl (f, more, e) ↦
      let r = scan_next-Reads (b ∷ rest) more f h e in
      let (left, ih) = split_more-Begins fuel more (
        bytes_left (own_bytes f) more _ refl
          (bytes_left (write_be32 f.seq) (own_bytes f ++ more) _ r h)) in
      rw (e, split_more) (left, sym r ∙ behind_word f _ more left ih)
  | inr (inl (f, e)) ↦
      let (left, r) = scan_next-last (b ∷ rest) f h e in
      rw (e, split_more) (left, sym r ∙ behind_word f [] left left refl)
  | inr (inr e) ↦ rw (e, split_more) (b ∷ rest, refl)
]

split_after-Begins :
    (seq : ℕ) (bytes : List ℕ) (s : Scan)
    → AreBytes bytes
    → scan_frame seq bytes ≡ s
    → (first_seq seq (split_after s) ≡ seq) × Begins bytes (wire (split_after s))
unfolding split_after
split_after-Begins seq bytes (frame f more) h e =
    let r = scan_frame-Reads seq bytes more f h e in
    let (left, same) =
      split_more-Begins (length more) more (bytes_left (own_bytes f) more bytes r.begins h) in
    (r.word, (left, sym r.begins ∙ behind f _ more left same))
split_after-Begins seq bytes (last f) h e =
    let (rest, r) = last-Reads seq bytes f e in
    (r.word, (rest, sym r.begins ∙ behind f [] rest rest refl))
split_after-Begins seq bytes stop h e = (refl, (bytes, refl))

-- On any body of bytes, well formed or not, the frames are read from its front, in order and without
-- a gap: the body begins with their tags, each custom frame's payload behind its exact length,
-- and in front of all but the first frame their sequence words; the first frame has the outer
-- word. So no frame carries less than its length field announces. Every frame has the flags of
-- its own sequence word, only custom frames carry a payload, of at most 1 MiB, and all payloads
-- together are no longer than the body.
pub split_frames_prefix :
    (outer_seq : ℕ) (body : List ℕ)
    → AreBytes body
    → All IsSane (split_frames outer_seq body)
      × (total_payload (split_frames outer_seq body) ≤ length body)
      × (first_seq outer_seq (split_frames outer_seq body) ≡ outer_seq)
      × ((rest : List ℕ) × (body ≡ wire (split_frames outer_seq body) ++ rest))
unfolding split_frames
split_frames_prefix outer_seq body h =
    let (sane, within) = split_frames_bounds outer_seq body in
    let (first, begins) = split_after-Begins outer_seq body (scan_frame outer_seq body) h refl in
    (sane, within, first, begins)

-- ===== src/SignalingFrames/RoundTrip.antt =====
-- JoinFrames and SplitFrames of src/voip/src/domain/tgcalls_signaling_frames.cpp against one another.
use vianium_voip.Common.{
  ℕ, zero, suc, ◌^◌, ◌≤◌, ◌<◌, ◌≡◌, refl, sym, ap, ap₂, subst, ◌∙◌, ◌⊎◌, inl, inr, List, [], ◌∷◌,
  ◌++◌, All, arith, length, length-append, take-append, drop-append,
}
use vianium_voip.Bytes.{write_be32, u32}
use vianium_voip.Bytes.Laws.{read-write_be32}
use vianium_voip.SignalingFrames.{
  ChannelFrame, frame, content_tag_custom, content_tag_empty, content_tag_ack, make_frame,
  scan_custom, scan_frame, scan_next, split_more, split_after, split_frames, join_frame, join_more,
  join_frames,
}

-- A frame whose flags are those of its sequence word, and which is one of the three kinds that the
-- receiver reads on from: a payload of at most 1 MiB, or an empty or acknowledgement frame.
pub record IsWellFormed (f : ChannelFrame) : Type 0 where
  pub seq_fits : f.seq < 2 ^ 32
  pub flags : f ≡ make_frame f.seq f.content_tag f.payload
  pub kind :
      ((f.content_tag ≡ content_tag_custom) × (length f.payload ≤ 1048576))
      ⊎ (((f.content_tag ≡ content_tag_empty) ⊎ (f.content_tag ≡ content_tag_ack))
          × (f.payload ≡ []))

scan_custom-join :
    (seq : ℕ) (payload rest : List ℕ)
    → length payload ≤ 1048576
    → scan_custom seq (write_be32 (u32 (length payload)) ++ (payload ++ rest))
      ≡ frame (make_frame seq content_tag_custom payload) rest
unfolding scan_custom write_be32
scan_custom-join seq payload rest fits = ground (
  arith,
  read-write_be32 (u32 (length payload)) (payload ++ rest),
  length-append payload rest,
  take-append payload rest,
  drop-append payload rest,
)

join_custom :
    (seq : ℕ) (payload rest : List ℕ)
    → join_frame (make_frame seq content_tag_custom payload) ++ rest
      ≡ content_tag_custom ∷ (write_be32 (u32 (length payload)) ++ (payload ++ rest))
unfolding join_frame make_frame write_be32
join_custom seq payload rest = refl

scan_frame-custom :
    (seq : ℕ) (rest : List ℕ) → scan_frame seq (content_tag_custom ∷ rest) ≡ scan_custom seq rest
unfolding scan_frame
scan_frame-custom seq rest = refl

scan_frame-empty :
    (seq : ℕ) (rest : List ℕ)
    → scan_frame seq (join_frame (make_frame seq content_tag_empty []) ++ rest)
      ≡ frame (make_frame seq content_tag_empty []) rest
unfolding scan_frame join_frame make_frame
scan_frame-empty seq rest = refl

scan_frame-ack :
    (seq : ℕ) (rest : List ℕ)
    → scan_frame seq (join_frame (make_frame seq content_tag_ack []) ++ rest)
      ≡ frame (make_frame seq content_tag_ack []) rest
unfolding scan_frame join_frame make_frame
scan_frame-ack seq rest = refl

abbrev ReadsBack : List ℕ → ChannelFrame → Type 0
ReadsBack rest f = scan_frame f.seq (join_frame f ++ rest) ≡ frame f rest

as_made :
    (f : ChannelFrame) (tag : ℕ) (payload : List ℕ)
    → f ≡ make_frame f.seq f.content_tag f.payload
    → f.content_tag ≡ tag
    → f.payload ≡ payload
    → make_frame f.seq tag payload ≡ f
as_made f tag payload flags e p = sym (flags ∙ ap₂ (make_frame f.seq) e p)

scan_frame-join : (f : ChannelFrame) (rest : List ℕ) → IsWellFormed f → ReadsBack rest f
scan_frame-join f rest w = elim w.kind [
  | inl (custom, fits) ↦
      subst (λ g. scan_frame f.seq (join_frame g ++ rest) ≡ frame g rest)
        (as_made f content_tag_custom f.payload w.flags custom refl)
        (rw (join_custom, scan_frame-custom) (scan_custom-join f.seq f.payload rest fits))
  | inr (inl e, none_left) ↦
      subst (λ g. scan_frame f.seq (join_frame g ++ rest) ≡ frame g rest)
        (as_made f content_tag_empty [] w.flags e none_left) (scan_frame-empty f.seq rest)
  | inr (inr e, none_left) ↦
      subst (λ g. scan_frame f.seq (join_frame g ++ rest) ≡ frame g rest)
        (as_made f content_tag_ack [] w.flags e none_left) (scan_frame-ack f.seq rest)
]

scan_next-join :
    (f : ChannelFrame) (rest : List ℕ)
    → IsWellFormed f
    → scan_next (write_be32 f.seq ++ (join_frame f ++ rest)) ≡ frame f rest
unfolding scan_next write_be32
scan_next-join f rest w =
    ground
      (arith, read-write_be32 f.seq (join_frame f ++ rest) w.seq_fits, scan_frame-join f rest w)

split_more-frame :
    (fuel : ℕ) (bytes more : List ℕ) (f : ChannelFrame)
    → scan_next bytes ≡ frame f more
    → split_more (suc fuel) bytes ≡ f ∷ split_more fuel more
unfolding split_more
split_more-frame fuel [] more f e = unfold scan_next in cc e
split_more-frame fuel (b ∷ rest) more f e = rw (e, split_more)

join_more_shorter :
    (f : ChannelFrame) (fs : List ChannelFrame)
    → length (join_more fs) < length (write_be32 f.seq ++ (join_frame f ++ join_more fs))
unfolding write_be32
join_more_shorter f fs = omega (arith, length-append (join_frame f) (join_more fs))

split_more-join_more :
    (fs : List ChannelFrame) (fuel : ℕ)
    → All IsWellFormed fs
    → length (join_more fs) ≤ fuel
    → split_more fuel (join_more fs) ≡ fs
unfolding split_more join_more
split_more-join_more [] zero w h = refl
split_more-join_more [] (suc fuel) w h = refl
split_more-join_more (f ∷ fs) zero w h = absurd (omega (arith, join_more_shorter f fs))
split_more-join_more (f ∷ fs) (suc fuel) w h =
    split_more-frame fuel _ (join_more fs) f (scan_next-join f (join_more fs) w.0)
    ∙ ap (◌∷◌ f) (split_more-join_more fs fuel w.1 (omega (arith, join_more_shorter f fs)))

-- Splitting what was joined gives back the frames: a packet of well-formed frames, of which the
-- first carries the packet's outer sequence word, is read back whole and in order.
pub split-join_frames :
    (f : ChannelFrame) (fs : List ChannelFrame)
    → All IsWellFormed (f ∷ fs)
    → split_frames f.seq (join_frames (f ∷ fs)) ≡ f ∷ fs
unfolding split_frames join_frames split_after
split-join_frames f fs w =
    rw (scan_frame-join f (join_more fs) w.0)
      (ap (◌∷◌ f) (split_more-join_more fs (length (join_more fs)) w.1 (omega arith)))

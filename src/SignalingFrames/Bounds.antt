-- ===== src/SignalingFrames/Bounds.antt =====
-- SplitFrames of src/voip/src/domain/tgcalls_signaling_frames.cpp on any input, well formed or not: the
-- loop ends, and what it returns is bounded by the packet.
use vianium_voip.Common.{
  ℕ, zero, suc, ◌+◌, ◌≤◌, ◌<◌, ◌≡◌, refl, ap, ◌⊎◌, inl, inr, List, [], ◌∷◌, All, arith, length,
  take, drop, length-take, length-drop,
}
use mathlib.Core.Logic.{◌≢◌}
use vianium_voip.Bytes.{read_be32}
use vianium_voip.SignalingFrames.{
  ChannelFrame, Scan, frame, last, stop, content_tag_custom, make_frame, scan_custom, scan_frame,
  scan_next, split_more, split_after, split_frames,
}

abbrev pub total_payload : List ChannelFrame → ℕ
total_payload [] = 0
total_payload (f ∷ fs) = length f.payload + total_payload fs

-- Only frames of the custom kind carry a payload, of at most 1 MiB, and the flags are those of the
-- sequence word.
pub record IsSane (f : ChannelFrame) : Type 0 where
  pub flags : f ≡ make_frame f.seq f.content_tag f.payload
  pub sized :
      ((f.content_tag ≡ content_tag_custom) × (length f.payload ≤ 1048576)) ⊎ (f.payload ≡ [])

make_frame-IsSane : (seq tag : ℕ) → IsSane (make_frame seq tag [])
unfolding make_frame
make_frame-IsSane seq tag = record { flags = refl; sized = inr refl }

make_custom-IsSane :
    (seq : ℕ) (payload : List ℕ)
    → length payload ≤ 1048576
    → IsSane (make_frame seq content_tag_custom payload)
unfolding make_frame
make_custom-IsSane seq payload h = record { flags = refl; sized = inl (refl, h) }

payload-make_frame :
    (seq tag : ℕ) (payload : List ℕ) → (make_frame seq tag payload).payload ≡ payload
unfolding make_frame
payload-make_frame seq tag payload = refl

scan_custom-eq-frame :
    (seq : ℕ) (rest more : List ℕ) (f : ChannelFrame)
    → scan_custom seq rest ≡ frame f more
    → (f ≡ make_frame seq content_tag_custom (take (read_be32 rest) (drop 4 rest)))
      × (more ≡ drop (read_be32 rest) (drop 4 rest))
      × (read_be32 rest ≤ 1048576)
      × (read_be32 rest ≤ length (drop 4 rest))
unfolding scan_custom
scan_custom-eq-frame seq rest more f e = ground arith

pub scan_custom-ne-last :
    (seq : ℕ) (rest : List ℕ) (f : ChannelFrame) → scan_custom seq rest ≢ last f
unfolding scan_custom
scan_custom-ne-last seq rest f e = ground arith

-- What a round that gives `f` and leaves `more` takes from `bytes`.
record Takes (bytes : List ℕ) (f : ChannelFrame) (more : List ℕ) : Type 0 where
  sane : IsSane f
  taken : length f.payload + length more < length bytes

scan_custom-Takes :
    (seq tag : ℕ) (rest more : List ℕ) (f : ChannelFrame)
    → scan_custom seq rest ≡ frame f more
    → Takes (tag ∷ rest) f more
scan_custom-Takes seq tag rest more f e =
    let (same, left, small, fits) = scan_custom-eq-frame seq rest more f e in
    rw (same, left)
      (record {
        sane = make_custom-IsSane seq _ (omega (arith, length-take (read_be32 rest) (drop 4 rest)));
        taken = rw payload-make_frame (
            omega (
              arith,
              length-take (read_be32 rest) (drop 4 rest),
              length-drop (read_be32 rest) (drop 4 rest),
              length-drop 4 rest,
            ));
      })

plain-Takes :
    (seq tag : ℕ) (rest more : List ℕ) (f : ChannelFrame)
    → f ≡ make_frame seq tag []
    → length more ≤ length rest
    → Takes (tag ∷ rest) f more
plain-Takes seq tag rest more f same h =
    rw same
      (record { sane = make_frame-IsSane seq tag; taken = rw payload-make_frame (omega arith) })

scan_frame-cases :
    (seq tag : ℕ) (rest more : List ℕ) (f : ChannelFrame)
    → scan_frame seq (tag ∷ rest) ≡ frame f more
    → ((f ≡ make_frame seq tag []) × (more ≡ rest)) ⊎ (scan_custom seq rest ≡ frame f more)
unfolding scan_frame
scan_frame-cases seq tag rest more f e = ground arith

scan_frame-Takes :
    (seq : ℕ) (bytes more : List ℕ) (f : ChannelFrame)
    → scan_frame seq bytes ≡ frame f more
    → Takes bytes f more
scan_frame-Takes seq [] more f e = unfold scan_frame in cc e
scan_frame-Takes seq (tag ∷ rest) more f e = elim (scan_frame-cases seq tag rest more f e) [
  | inl (same, left) ↦ plain-Takes seq tag rest more f same (rw left (omega arith))
  | inr custom ↦ scan_custom-Takes seq tag rest more f custom
]

scan_frame-last :
    (seq : ℕ) (bytes : List ℕ) (f : ChannelFrame) → scan_frame seq bytes ≡ last f → Takes bytes f []
unfolding scan_frame
scan_frame-last seq [] f e = cc e
scan_frame-last seq (tag ∷ rest) f e =
    ground (arith, scan_custom-ne-last seq rest f, plain-Takes seq tag rest [] f)

Takes-longer :
    (n : ℕ) (bytes more : List ℕ) (f : ChannelFrame)
    → Takes (drop n bytes) f more
    → Takes bytes f more
Takes-longer n bytes more f t = record {
  sane = t.sane;
  taken = omega (arith, t.taken, length-drop n bytes);
}

scan_next-Takes :
    (bytes more : List ℕ) (f : ChannelFrame) → scan_next bytes ≡ frame f more → Takes bytes f more
unfolding scan_next
scan_next-Takes bytes more f e =
    Takes-longer 4 bytes more f
      (scan_frame-Takes (read_be32 bytes) (drop 4 bytes) more f (ground arith))

scan_next-last : (bytes : List ℕ) (f : ChannelFrame) → scan_next bytes ≡ last f → Takes bytes f []
unfolding scan_next
scan_next-last bytes f e =
    Takes-longer 4 bytes [] f (scan_frame-last (read_be32 bytes) (drop 4 bytes) f (ground arith))

pub Scan-cases :
    (s : Scan)
    → ((f : ChannelFrame) × (more : List ℕ) × (s ≡ frame f more))
      ⊎ (((f : ChannelFrame) × (s ≡ last f)) ⊎ (s ≡ stop))
Scan-cases (frame f more) = inl (f, more, refl)
Scan-cases (last f) = inr (inl (f, refl))
Scan-cases stop = inr (inr refl)

-- Fuel beyond the length of the rest changes nothing.
split_more-fuel :
    (n m : ℕ) (bytes : List ℕ)
    → length bytes ≤ n
    → length bytes ≤ m
    → split_more n bytes ≡ split_more m bytes
unfolding split_more
split_more-fuel zero zero bytes hn hm = refl
split_more-fuel zero (suc m) [] hn hm = refl
split_more-fuel zero (suc m) (b ∷ rest) hn hm = absurd (omega arith)
split_more-fuel (suc n) zero [] hn hm = refl
split_more-fuel (suc n) zero (b ∷ rest) hn hm = absurd (omega arith)
split_more-fuel (suc n) (suc m) [] hn hm = refl
split_more-fuel (suc n) (suc m) (b ∷ rest) hn hm = elim (Scan-cases (scan_next (b ∷ rest))) [
  | inl (f, more, e) ↦
      let t = scan_next-Takes (b ∷ rest) more f e in
      rw (e, split_more)
        (ap (◌∷◌ f) (split_more-fuel n m more (omega (arith, t.taken)) (omega (arith, t.taken))))
  | inr (inl (f, e)) ↦ rw (e, split_more)
  | inr (inr e) ↦ rw (e, split_more)
]

-- All frames are sane, and their payloads together are no longer than `n`.
record IsBounded (fs : List ChannelFrame) (n : ℕ) : Type 0 where
  pub sane : All IsSane fs
  pub within : total_payload fs ≤ n

IsBounded-cons :
    (bytes more : List ℕ) (f : ChannelFrame) (fs : List ChannelFrame)
    → Takes bytes f more
    → IsBounded fs (length more)
    → IsBounded (f ∷ fs) (length bytes)
IsBounded-cons bytes more f fs t b = record {
  sane = (t.sane, b.sane);
  within = omega (arith, t.taken, b.within);
}

IsBounded-nil : (n : ℕ) → IsBounded [] n
IsBounded-nil n = record { sane = tt; within = omega arith }

split_more-IsBounded : (n : ℕ) (bytes : List ℕ) → IsBounded (split_more n bytes) (length bytes)
unfolding split_more
split_more-IsBounded zero bytes = IsBounded-nil (length bytes)
split_more-IsBounded (suc n) [] = IsBounded-nil 0
split_more-IsBounded (suc n) (b ∷ rest) = elim (Scan-cases (scan_next (b ∷ rest))) [
  | inl (f, more, e) ↦
      rw (e, split_more)
        (IsBounded-cons (b ∷ rest) more f _ (scan_next-Takes (b ∷ rest) more f e)
          (split_more-IsBounded n more))
  | inr (inl (f, e)) ↦
      rw (e, split_more)
        (IsBounded-cons (b ∷ rest) [] f [] (scan_next-last (b ∷ rest) f e) (IsBounded-nil 0))
  | inr (inr e) ↦ rw (e, split_more) (IsBounded-nil _)
]

split_after-IsBounded :
    (seq : ℕ) (bytes : List ℕ) (s : Scan)
    → scan_frame seq bytes ≡ s
    → IsBounded (split_after s) (length bytes)
unfolding split_after
split_after-IsBounded seq bytes (frame f more) e =
    IsBounded-cons bytes more f _ (scan_frame-Takes seq bytes more f e)
      (split_more-IsBounded (length more) more)
split_after-IsBounded seq bytes (last f) e =
    IsBounded-cons bytes [] f [] (scan_frame-last seq bytes f e) (IsBounded-nil 0)
split_after-IsBounded seq bytes stop e = IsBounded-nil (length bytes)

-- On any body, well formed or not, every frame has the flags of its own sequence word, only custom
-- frames carry a payload and none carries more than 1 MiB, and all payloads together are no longer
-- than the body.
pub split_frames_bounds :
    (outer_seq : ℕ) (body : List ℕ)
    → All IsSane (split_frames outer_seq body)
      × (total_payload (split_frames outer_seq body) ≤ length body)
unfolding split_frames
split_frames_bounds outer_seq body =
    let b = split_after-IsBounded outer_seq body (scan_frame outer_seq body) refl in
    (b.sane, b.within)

-- The loop ends by its own test on every input: with fuel for one round for each byte that is left,
-- or with any larger fuel, the frames are the same.
pub split_more_total :
    (extra : ℕ) (bytes : List ℕ)
    → split_more (length bytes + extra) bytes ≡ split_more (length bytes) bytes
split_more_total extra bytes =
    split_more-fuel (length bytes + extra) (length bytes) bytes (omega arith) (omega arith)

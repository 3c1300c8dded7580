-- ===== src/JitterBuffer/Playout.antt =====
-- What NextPlayoutFrame of src/voip/src/domain/voip_jitter_buffer.cpp hands out, and when.
use vianium_voip.Common.{
  ℕ, ◌+◌, ◌≡◌, ◌≢◌, refl, sym, ap, ◌∙◌, List, [], ◌∷◌, true, false, Option, none, some, ◌⊎◌, inl,
  inr, ◌==◌, if◌then◌else◌, arith, All, Bool-cases, Option-cases, ==_iff,
}
use vianium_voip.Common.Int.{ℤ, pos, ◌+ℤ◌, ◌*ℤ◌, add_one-mul, +ℤ_assoc, ◌≤ℤ◌, pos_part, neg_part}
use native.Mathlib.Decide.{dec_le}
use vianium_voip.Bytes.{u16}
use vianium_voip.SlotMap.{Slot, find_slot}
use vianium_voip.JitterBuffer.{
  Doubles, VoipJitterBuffer, VoipJitterFrame, no_frame, due_ms, insert, late_drop, accept, advance,
  play, next_playout_frame,
}
use vianium_voip.SlotMap.Laws.{find-erase_slot}
use vianium_voip.JitterBuffer.Invariant.{IsValid, Call, resets, inserts, plays, apply}

module _ (d : Doubles) where
  abbrev pub frame_of : VoipJitterBuffer d → Option Slot → VoipJitterFrame
  frame_of b (some slot) = record {
    ready = true;
    has_packet = true;
    plc = false;
    sequence_number = b.next_sequence;
    timestamp = slot.timestamp;
    payload = slot.payload;
  }
  frame_of b none = record {
    ready = true;
    has_packet = false;
    plc = true;
    sequence_number = b.next_sequence;
    timestamp = b.next_timestamp;
    payload = [];
  }

  play-frame_of :
      (b : VoipJitterBuffer d) (found : Option Slot) → (play d b found).1 ≡ frame_of b found
  unfolding play
  play-frame_of b none = refl
  play-frame_of b (some slot) = refl

  next_due :
      (b : VoipJitterBuffer d) (now : ℤ)
      → b.started ≡ true
      → due_ms d b ≤ℤ now
      → next_playout_frame d b now ≡ (
        advance d (play d b (find_slot b.next_sequence b.slots)).0,
        (play d b (find_slot b.next_sequence b.slots)).1,
      )
  unfolding next_playout_frame
  next_due b now s h = ground arith

  -- Before playout has started, and before the next frame is due, the buffer waits: it hands out no
  -- frame and does not change.
  pub next_waits :
      (b : VoipJitterBuffer d) (now : ℤ)
      → (b.started ≡ false) ⊎ (¬ (due_ms d b ≤ℤ now))
      → next_playout_frame d b now ≡ (b, no_frame)
  unfolding next_playout_frame
  next_waits b now h = ground arith

  after_play :
      (b : VoipJitterBuffer d) (found : Option Slot)
      → ((advance d (play d b found).0).next_sequence ≡ u16 (b.next_sequence + 1))
        × ((advance d (play d b found).0).first_playout_ms ≡ b.first_playout_ms)
        × ((advance d (play d b found).0).playout_index ≡ b.playout_index +ℤ pos 1)
        × ((advance d (play d b found).0).frame_ms ≡ b.frame_ms)
        × ((advance d (play d b found).0).started ≡ b.started)
  unfolding advance play
  after_play b none = (refl, refl, refl, refl, refl)
  after_play b (some slot) = (refl, refl, refl, refl, refl)

  slots-after_play :
      (b : VoipJitterBuffer d) (j : ℕ)
      → IsValid d b
      → find_slot j (advance d (play d b (find_slot b.next_sequence b.slots)).0).slots
        ≡ (if j == b.next_sequence then none else find_slot j b.slots)
  unfolding advance play
  slots-after_play b j v = elim (Option-cases (find_slot b.next_sequence b.slots)) [
    | inl e ↦ rw (e, play) (missing e)
    | inr (slot, e) ↦ rw (e, play) (find-erase_slot j b.next_sequence b.slots v.sorted)
  ]
    where
      missing :
          find_slot b.next_sequence b.slots ≡ none
          → find_slot j b.slots ≡ (if j == b.next_sequence then none else find_slot j b.slots)
      missing e = elim (Bool-cases (j == b.next_sequence)) [
        | inl same ↦
            rw same (ap (λ (k : ℕ). find_slot k b.slots) ((==_iff j b.next_sequence).0 same) ∙ e)
        | inr other ↦ rw other
      ]

  due-advance :
      (b : VoipJitterBuffer d) (found : Option Slot)
      → due_ms d (advance d (play d b found).0) ≡ due_ms d b +ℤ b.frame_ms
  unfolding due_ms
  due-advance b found =
      let (next, first, index, frame, started) = after_play b found in
      rw (first, index, frame, add_one-mul)
        (sym (+ℤ_assoc b.first_playout_ms (b.playout_index *ℤ b.frame_ms) b.frame_ms))

  -- Once playout has started, a call at or after the due time hands out exactly one frame, for the
  -- next sequence number: the buffered packet's timestamp and payload if there is one, a
  -- concealment frame otherwise. The number is then free, all other entries stay, the next number
  -- is one more on 16 bits and falls due one frame length later.
  pub next_plays :
      (b : VoipJitterBuffer d) (now : ℤ)
      → IsValid d b
      → b.started ≡ true
      → due_ms d b ≤ℤ now
      → let b' = (next_playout_frame d b now).0 in
        ((next_playout_frame d b now).1 ≡ frame_of b (find_slot b.next_sequence b.slots))
        × (b'.next_sequence ≡ u16 (b.next_sequence + 1))
        × (due_ms d b' ≡ due_ms d b +ℤ b.frame_ms)
        × ((j : ℕ)
            → find_slot j b'.slots ≡ (if j == b.next_sequence then none else find_slot j b.slots))
  next_plays b now v s h =
      let found = find_slot b.next_sequence b.slots in
      rw (next_due b now s h) (
        play-frame_of b found,
        (after_play b found).0,
        due-advance b found,
        λ j. slots-after_play b j v,
      )

  -- The numbers of the frames that a run of calls hands out.
  abbrev pub handed_out : VoipJitterBuffer d → Call d → List ℕ → List ℕ
  handed_out b resets rest = rest
  handed_out b (inserts seq ts payload arrival) rest = rest
  handed_out b (plays now) rest =
      if (next_playout_frame d b now).1.ready
      then (next_playout_frame d b now).1.sequence_number ∷ rest
      else rest

  unfoldable pub played_numbers : VoipJitterBuffer d → List (Call d) → List ℕ
  played_numbers b [] = []
  played_numbers b (c ∷ cs) = handed_out b c (played_numbers (apply d b c) cs)

  -- `s`, `s + 1`, `s + 2` and so on, on 16 bits.
  abbrev pub Consecutive : ℕ → List ℕ → Type 0
  Consecutive s [] = Unit {0}
  Consecutive s (n ∷ ns) = (n ≡ s) × Consecutive (u16 (s + 1)) ns

  pub insert-started :
      (b : VoipJitterBuffer d) (seq ts : ℕ) (payload : List ℕ) (arrival : ℤ)
      → b.started ≡ true
      → ((insert d b seq ts payload arrival).0.started ≡ true)
        × ((insert d b seq ts payload arrival).0.next_sequence ≡ b.next_sequence)
  unfolding insert late_drop accept
  insert-started b seq ts payload arrival s = ground arith

  pub play-started :
      (b : VoipJitterBuffer d) (now : ℤ)
      → b.started ≡ true
      → (((next_playout_frame d b now).1.ready ≡ false) × ((next_playout_frame d b now).0 ≡ b))
        ⊎ (((next_playout_frame d b now).1.ready ≡ true)
            × ((next_playout_frame d b now).1.sequence_number ≡ b.next_sequence)
            × ((next_playout_frame d b now).0.next_sequence ≡ u16 (b.next_sequence + 1))
            × ((next_playout_frame d b now).0.started ≡ true))
  play-started b now s =
      elim (dec_le (pos_part (due_ms d b) + neg_part now) (pos_part now + neg_part (due_ms d b))) [
        | yes h ↦
            let found = find_slot b.next_sequence b.slots in
            inr (
              rw (next_due b now s h, play-frame_of b found)
                (
                  frame_of-ready found,
                  frame_of-number found,
                  (after_play b found).0,
                  (after_play b found).4 ∙ s,
                ))
        | no h ↦ inl (rw (next_waits b now (inr h)) (refl, refl))
      ]
    where
      frame_of-ready : (found : Option Slot) → (frame_of b found).ready ≡ true
      frame_of-ready none = refl
      frame_of-ready (some slot) = refl

      frame_of-number : (found : Option Slot) → (frame_of b found).sequence_number ≡ b.next_sequence
      frame_of-number none = refl
      frame_of-number (some slot) = refl

  -- Once playout has started, the frames that any run of Insert and NextPlayoutFrame calls hands
  -- out carry consecutive 16-bit numbers from the next expected one on: packets that arrive in
  -- between, early, late or twice, never make playout skip, repeat or reorder a number.
  pub played_numbers-Consecutive :
      (cs : List (Call d)) (b : VoipJitterBuffer d)
      → b.started ≡ true
      → All (λ c. c ≢ resets) cs
      → Consecutive b.next_sequence (played_numbers b cs)
  unfolding played_numbers apply
  played_numbers-Consecutive [] b s h = tt
  played_numbers-Consecutive (resets ∷ cs) b s h = absurd (h.0 refl)
  played_numbers-Consecutive (inserts seq ts payload arrival ∷ cs) b s h =
      let (started, number) = insert-started b (u16 seq) ts payload arrival s in
      rw number at
        (played_numbers-Consecutive cs (insert d b (u16 seq) ts payload arrival).0 started h.1)
  played_numbers-Consecutive (plays now ∷ cs) b s h = elim (play-started b now s) [
    | inl (idle, same) ↦ rw (idle) (rw same (played_numbers-Consecutive cs b s h.1))
    | inr (ready, number, next, started) ↦ rw (ready) (
      number,
      rw next at (played_numbers-Consecutive cs (next_playout_frame d b now).0 started h.1),
    )
  ]

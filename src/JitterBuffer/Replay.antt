-- ===== src/JitterBuffer/Replay.antt =====
-- A packet whose number the buffer of src/voip/src/domain/voip_jitter_buffer.cpp has handed out before.
use vianium_voip.Common.{
  ℕ, ◌+◌, ◌%◌, ◌^◌, ◌<◌, ◌≡◌, ◌≢◌, refl, sym, subst, ap, ◌∙◌, List, [], ◌∷◌, Bool, true, false, ltb,
  if◌then◌else◌, length, arith, All, inl, inr,
}
use vianium_voip.Common.Int.{ℤ}
use vianium_voip.Bytes.{u16, u32}
use vianium_voip.Domain.{VoipError, ok_error}
use vianium_voip.SlotMap.{find_slot, insert_slot, trim}
use vianium_voip.JitterBuffer.{
  Doubles, VoipJitterBuffer, sequence_before, is_late, late_drop, accept, insert,
  next_playout_frame,
}
use vianium_voip.JitterBuffer.Invariant.{
  IsValid, slot_of, slots-accept, Call, resets, inserts, plays, apply, apply_all,
}
use vianium_voip.JitterBuffer.Order.{next_ready, after_play}
use vianium_voip.JitterBuffer.Playout.{played_numbers, insert-started, play-started}

-- A number against the one that is `k + 1` further, also over the wrap.
sequence_before-later :
    (s k : ℕ) → s < 2 ^ 16 → sequence_before s (u16 (u16 (s + 1) + k)) ≡ ltb (k % 2 ^ 16) (2 ^ 15)
unfolding sequence_before
sequence_before-later s k h = ground arith

module _ (d : Doubles) where
  -- A run without Reset moves the next number on by the frames that it hands out.
  run_counts :
      (cs : List (Call d)) (b : VoipJitterBuffer d)
      → b.started ≡ true
      → b.next_sequence < 2 ^ 16
      → All (λ c. c ≢ resets) cs
      → ((apply_all d b cs).started ≡ true)
        × ((apply_all d b cs).next_sequence
            ≡ u16 (b.next_sequence + length (played_numbers d b cs)))
  unfolding played_numbers apply_all apply
  run_counts [] b s fits h = (s, omega (arith, fits))
  run_counts (resets ∷ cs) b s fits h = absurd (h.0 refl)
  run_counts (inserts seq ts payload arrival ∷ cs) b s fits h =
      let (started, number) = insert-started d b (u16 seq) ts payload arrival s in
      rw number at (
        run_counts cs (insert d b (u16 seq) ts payload arrival).0 started
          (omega (arith, number, fits)) h.1)
  run_counts (plays now ∷ cs) b s fits h = elim (play-started d b now s) [
    | inl (idle, same) ↦ rw (idle) (
        subst
          (λ (b' : VoipJitterBuffer d).
            ((apply_all d b' cs).started ≡ true)
            × ((apply_all d b' cs).next_sequence
                ≡ u16 (b.next_sequence + length (played_numbers d b' cs))))
          (sym same) (run_counts cs b s fits h.1))
    | inr (ready, number, next, started) ↦
        let (on, count) =
          run_counts cs (next_playout_frame d b now).0 started (omega (arith, next)) h.1 in
        rw (ready) (on, count ∙ omega (arith, next))
  ]

  -- Insert on a started buffer, by the outcome of its test for a late number.
  insert_by :
      (b : VoipJitterBuffer d) (seq ts : ℕ) (payload : List ℕ) (arrival : ℤ)
      → 0 < length payload
      → b.started ≡ true
      → (late : Bool) → is_late d b seq ≡ late
      → insert d b seq ts payload arrival
        ≡ (if late then late_drop d b else accept d b seq ts payload arrival, ok_error)
  unfolding insert
  insert_by b seq ts payload arrival not_empty started true e = ground arith
  insert_by b seq ts payload arrival not_empty started false e = ground arith

  -- What an Insert of `number` on `b` that counts as late, or as in time, leaves in `r`.
  abbrev pub Outcome :
      VoipJitterBuffer d → ℕ → ℕ → List ℕ → Bool → VoipJitterBuffer d × VoipError → Type 0
  Outcome b number ts payload late r =
      (r.1 ≡ ok_error)
      × (r.0.slots ≡ (
          if late
          then b.slots
          else (trim (insert_slot number (slot_of number ts payload) b.slots)).0))
      × (r.0.stats.late_drops
          ≡ u32 (
              b.stats.late_drops
              + (if late
                  then 1
                  else (trim (insert_slot number (slot_of number ts payload) b.slots)).1)))
      × (r.0.stats.packets_inserted
          ≡ (if late then b.stats.packets_inserted else u32 (b.stats.packets_inserted + 1)))

  insert-Outcome :
      (b : VoipJitterBuffer d) (seq ts : ℕ) (payload : List ℕ) (arrival : ℤ)
      → 0 < length payload
      → b.started ≡ true
      → (late : Bool) → is_late d b seq ≡ late
      → Outcome b seq ts payload late (insert d b seq ts payload arrival)
  unfolding late_drop
  insert-Outcome b seq ts payload arrival not_empty started true e =
      rw (insert_by b seq ts payload arrival not_empty started true e) (refl, refl, refl, refl)
  insert-Outcome b seq ts payload arrival not_empty started false e =
      rw (insert_by b seq ts payload arrival not_empty started false e) (
        refl,
        slots-accept d b seq ts payload arrival,
        unfold accept in ground arith,
        unfold accept in ground arith,
      )

  is_late-by :
      (b : VoipJitterBuffer d) (seq k s : ℕ)
      → s < 2 ^ 16
      → seq ≡ s
      → b.next_sequence ≡ u16 (u16 (s + 1) + k)
      → is_late d b seq ≡ ltb (k % 2 ^ 16) (2 ^ 15)
  unfolding is_late
  is_late-by b seq k s fits same next = rw (same, next) (sequence_before-later s k fits)

  handed_out_number :
      (b : VoipJitterBuffer d) (now : ℤ)
      → (next_playout_frame d b now).1.ready ≡ true
      → ((next_playout_frame d b now).0.started ≡ true)
        × ((next_playout_frame d b now).0.next_sequence ≡ u16 (b.next_sequence + 1))
        × ((next_playout_frame d b now).1.sequence_number ≡ b.next_sequence)
  handed_out_number b now ready =
      let (started, left, frame) = next_ready d b now ready in
      let (next, on, number) = after_play d b (find_slot b.next_sequence b.slots) in
      rw (left, frame) (on ∙ started, next, number)

  module _ (b : VoipJitterBuffer d) (valid : IsValid d b) (now : ℤ)
      (ready : (next_playout_frame d b now).1.ready ≡ true) (cs : List (Call d))
      (kept : All (λ c. c ≢ resets) cs) (ts : ℕ) (payload : List ℕ) (arrival : ℤ)
      (not_empty : 0 < length payload) where
    -- A sequence number that was handed out, with its packet or as lost, comes again after any further
    -- calls but Reset. While fewer than 2^15 more frames have been handed out, the packet is not
    -- buffered: it is counted as a late drop, and the packets that are buffered and the count of
    -- those inserted stay as they are. From then on, up to 2^16 frames, and so on by turns, the
    -- number counts as one to come: the packet is put under it and counted as inserted, and what
    -- the trim then erases counts as late drops. Insert reports success in both cases.
    pub no_replay :
        Outcome
          (apply_all d (next_playout_frame d b now).0 cs)
          (next_playout_frame d b now).1.sequence_number
          ts
          payload
          (ltb (length (played_numbers d (next_playout_frame d b now).0 cs) % 2 ^ 16) (2 ^ 15))
          (insert d
            (apply_all d (next_playout_frame d b now).0 cs)
            (next_playout_frame d b now).1.sequence_number
            ts
            payload
            arrival)
    no_replay =
        let (on, next, number) = handed_out_number b now ready in
        let (started, count) =
          run_counts cs (next_playout_frame d b now).0 on (omega (arith, next)) kept in
        insert-Outcome (apply_all d (next_playout_frame d b now).0 cs)
          (next_playout_frame d b now).1.sequence_number ts payload arrival not_empty started _
          (is_late-by _ _ _ b.next_sequence valid.sequence_fits number (
            count
            ∙ ap (λ (n : ℕ). u16 (n + length (played_numbers d (next_playout_frame d b now).0 cs)))
                next))

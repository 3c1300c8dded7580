-- ===== src/JitterBuffer/Order.antt =====
-- Which packets the buffer of src/voip/src/domain/voip_jitter_buffer.cpp keeps, drops and evicts.
use vianium_voip.Common.{
  ℕ, suc, ◌+◌, ◌-◌, ◌≤◌, ◌<◌, ◌≡◌, refl, ap, ◌∙◌, List, [], ◌∷◌, true, false, ◌&&◌, Option, none,
  some, ◌==◌, if◌then◌else◌, arith, length, drop,
}
use vianium_voip.Common.Int.{ℤ}
use vianium_voip.Bytes.{u16}
use vianium_voip.Domain.{ok_error}
use vianium_voip.SlotMap.{Slot, Slots, insert_slot, find_slot, trim}
use vianium_voip.JitterBuffer.{
  Doubles, VoipJitterBuffer, sequence_before, is_late, late_drop, accept, insert, advance, play,
  next_playout_frame,
}
use vianium_voip.SlotMap.Laws.{Above, find-insert_slot, length-insert_slot, trim-drop, trim_short}
use vianium_voip.JitterBuffer.Invariant.{IsValid, slots-accept, slot_of}

module _ (d : Doubles) (b : VoipJitterBuffer d) where
  pub next_ready :
      (now : ℤ)
      → (next_playout_frame d b now).1.ready ≡ true
      → (b.started ≡ true)
        × ((next_playout_frame d b now).0
            ≡ advance d (play d b (find_slot b.next_sequence b.slots)).0)
        × ((next_playout_frame d b now).1 ≡ (play d b (find_slot b.next_sequence b.slots)).1)
  unfolding next_playout_frame
  next_ready now e = ground arith

  pub after_play :
      (found : Option Slot)
      → ((advance d (play d b found).0).next_sequence ≡ u16 (b.next_sequence + 1))
        × ((advance d (play d b found).0).started ≡ b.started)
        × ((play d b found).1.sequence_number ≡ b.next_sequence)
  unfolding advance play
  after_play none = (refl, refl, refl)
  after_play (some slot) = (refl, refl, refl)

  pub insert_late :
      (seq ts : ℕ) (payload : List ℕ) (arrival : ℤ)
      → 0 < length payload
      → b.started ≡ true
      → sequence_before seq b.next_sequence ≡ true
      → insert d b seq ts payload arrival ≡ (late_drop d b, ok_error)
  unfolding insert
  insert_late seq ts payload arrival h s l = ground arith

  pub accepted :
      (seq ts : ℕ) (payload : List ℕ) (arrival : ℤ)
      → 0 < length payload
      → (b.started && is_late d b seq) ≡ false
      → insert d b seq ts payload arrival ≡ (accept d b seq ts payload arrival, ok_error)
  unfolding insert
  accepted seq ts payload arrival not_empty h = ground arith

module _ (d : Doubles) (b : VoipJitterBuffer d) (seq ts : ℕ) (payload : List ℕ) (arrival : ℤ)
    (valid : IsValid d b) (not_empty : 0 < length payload) where
  -- A packet that is not late is found under its number afterwards, with its timestamp and payload,
  -- and every other number is found as before, as long as the buffer has room for one more.
  pub find-insert :
      (j : ℕ)
      → (b.started && is_late d b seq) ≡ false
      → length b.slots < 64
      → find_slot j (insert d b seq ts payload arrival).0.slots
        ≡ (if j == seq then some (slot_of seq ts payload) else find_slot j b.slots)
  find-insert j h room =
      rw
        (
          accepted d b seq ts payload arrival not_empty h,
          slots-accept,
          trim_short (insert_slot seq (slot_of seq ts payload) b.slots) fits,
        )
        (find-insert_slot j seq (slot_of seq ts payload) b.slots)
    where
      fits : length (insert_slot seq (slot_of seq ts payload) b.slots) ≤ 64
      fits = omega (arith, room, length-insert_slot seq (slot_of seq ts payload) b.slots)

insert_slot-front : (k : ℕ) (s : Slot) (m : Slots) → Above k m → insert_slot k s m ≡ (k, s) ∷ m
unfolding insert_slot
insert_slot-front k s [] a = refl
insert_slot-front k s ((j, t) ∷ m) a = ground arith

trim_full : (e : ℕ × Slot) (m : Slots) → length m ≡ 64 → (trim (e ∷ m)).0 ≡ m
trim_full e m h = rw trim-drop (ap (λ (n : ℕ). drop n (e ∷ m)) one_over)
  where
    one_over : suc (length m) - 64 ≡ 1
    one_over = omega (arith, h)

-- The overflow erases the smallest number, not the oldest packet. In a full buffer a packet that is
-- not late, and whose number is below all that are buffered because the 16-bit numbers have
-- wrapped, is itself the one erased: Insert reports success and the entries are as before.
pub insert_evicts_newest :
    (d : Doubles) (b : VoipJitterBuffer d) (seq ts : ℕ) (payload : List ℕ) (arrival : ℤ)
    → 0 < length payload
    → (b.started && is_late d b seq) ≡ false
    → length b.slots ≡ 64
    → Above seq b.slots
    → ((insert d b seq ts payload arrival).1 ≡ ok_error)
      × ((insert d b seq ts payload arrival).0.slots ≡ b.slots)
insert_evicts_newest d b seq ts payload arrival not_empty h full above =
    rw (accepted d b seq ts payload arrival not_empty h) (refl, kept)
  where
    kept : (accept d b seq ts payload arrival).slots ≡ b.slots
    kept =
        slots-accept d b seq ts payload arrival
        ∙ ap (λ (m : Slots). (trim m).0)
            (insert_slot-front seq (slot_of seq ts payload) b.slots above)
        ∙ trim_full (seq, slot_of seq ts payload) b.slots full

-- ===== src/Srtp/Rollover.antt =====
-- The rollover counter of src/voip/src/infrastructure/srtp/srtp_packet_codec.cpp.
use vianium_voip.Common.{ℕ, ◌+◌, ◌^◌, ◌≤◌, ◌<◌, ◌≡◌, refl, ◌∙◌, ◌⊎◌, List, [], ◌∷◌, true, arith}
use vianium_voip.Bytes.{u16, u32}
use vianium_voip.Srtp.{SrtpEncryptParams, note_sequence}

-- The parameters after the packets of the given numbers.
unfoldable pub note_all : SrtpEncryptParams → List ℕ → SrtpEncryptParams
note_all p [] = p
note_all p (s ∷ ss) = note_all (note_sequence p s) ss

-- The numbers go on from `s` one by one, on 16 bits.
abbrev pub InOrder : ℕ → List ℕ → Type 0
InOrder s [] = Unit {0}
InOrder s (n ∷ ns) = (n ≡ s) × InOrder (u16 (s + 1)) ns

note_next :
    (p : SrtpEncryptParams)
    → p.has_last_sequence_number ≡ true
    → p.last_sequence_number < 2 ^ 16
    → let q = note_sequence p (u16 (p.last_sequence_number + 1)) in
      (q.rollover_counter ≡ p.rollover_counter)
      × (q.last_sequence_number ≡ u16 (p.last_sequence_number + 1))
      × (q.has_last_sequence_number ≡ true)
unfolding note_sequence
note_next p h lt = ground arith

-- The counter counts steps back, not wraps. After a first packet it goes up exactly when the next
-- number is below the last one by less than 2 ^ 15, as when two packets are swapped.
pub note_sequence_rolls :
    (p : SrtpEncryptParams) (s : ℕ)
    → p.has_last_sequence_number ≡ true
    → ((s < p.last_sequence_number)
        × (p.last_sequence_number < s + 0x8000)
        × ((note_sequence p s).rollover_counter ≡ u32 (p.rollover_counter + 1)))
      ⊎ (((p.last_sequence_number ≤ s) ⊎ (s + 0x8000 ≤ p.last_sequence_number))
          × ((note_sequence p s).rollover_counter ≡ p.rollover_counter))
unfolding note_sequence
note_sequence_rolls p s h = ground arith

-- After a first packet, packets sent in order, each with the number after the last on 16 bits, never
-- move the rollover counter, however many they are and however often the numbers wrap.
pub InOrder-never_rolls :
    (ns : List ℕ) (p : SrtpEncryptParams)
    → p.has_last_sequence_number ≡ true
    → p.last_sequence_number < 2 ^ 16
    → InOrder (u16 (p.last_sequence_number + 1)) ns
    → (note_all p ns).rollover_counter ≡ p.rollover_counter
unfolding note_all
InOrder-never_rolls [] p h lt o = refl
InOrder-never_rolls (n ∷ ns) p h lt (same, rest) =
    let (roc, last, has) = note_next p h lt in
    rw same (
      InOrder-never_rolls ns (note_sequence p (u16 (p.last_sequence_number + 1))) has
        (rw last (omega arith)) (rw last rest)
      ∙ roc)

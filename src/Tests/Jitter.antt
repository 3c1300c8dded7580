-- ===== src/Tests/Jitter.antt =====
-- The jitter buffer of src/voip/src/domain/voip_jitter_buffer.cpp on concrete calls.
use vianium_voip.Common.{
  ◌&&◌, ℕ, zero, suc, ◌+◌, ◌*◌, ◌/◌, ◌≡◌, ◌<◌, refl, List, [], ◌∷◌, true, false, ◌==◌, arith,
  length, ltb, ◌%◌, ◌^◌,
}
use vianium_voip.Common.Int.{pos, pos_part, neg_part, ◌≤ℤ◌, ◌+ℤ◌, ◌*ℤ◌}
use vianium_voip.Domain.{ok_error}
use vianium_voip.SlotMap.{Slots, insert_slot, find_slot, erase_slot, trim}
use vianium_voip.JitterBuffer.{
  Doubles, VoipJitterBuffer, clamp_int, sequence_before, make_buffer, reset, is_late, next_jitter,
  recalculate_target, trim_overflow, start_playout, sync_stats, accept, insert, due_ms, advance,
  play, next_playout_frame,
}
use vianium_voip.JitterBuffer.Invariant.{
  IsValid, slot_of, Call, inserts, plays, apply, apply_all, reachable-IsValid,
}
use vianium_voip.JitterBuffer.Order.{insert_evicts_newest}
use vianium_voip.JitterBuffer.Replay.{Outcome, no_replay}
use vianium_voip.JitterBuffer.Playout.{played_numbers, Consecutive, played_numbers-Consecutive}

-- Whole milliseconds in place of the doubles.
abbrev whole : Doubles
whole = record {
  Double = ℕ;
  zero_value = 0;
  is_zero = λ v. v == 0;
  abs_of = λ v. pos_part v + neg_part v;
  smooth = λ old new. (old * 95 + new * 5) / 100;
  times_four = λ v. pos (v * 4);
}

-- Number 65534 arrives, then 0: 65535 is missing.
abbrev arrivals : List (Call whole)
arrivals = inserts 65534 0 (1 ∷ []) (pos 1000) ∷ inserts 0 1920 (3 ∷ []) (pos 1030) ∷ []

abbrev filled : VoipJitterBuffer whole
filled = apply_all whole (make_buffer whole (pos 20)) arrivals

abbrev three_plays : List (Call whole)
three_plays = plays (pos 1060) ∷ plays (pos 1080) ∷ plays (pos 1100) ∷ []

played_three : played_numbers whole filled three_plays ≡ 65534 ∷ 65535 ∷ 0 ∷ []
unfolding played_numbers apply apply_all make_buffer reset insert next_playout_frame due_ms accept
    recalculate_target next_jitter start_playout trim_overflow trim sync_stats is_late
    sequence_before insert_slot find_slot erase_slot play advance clamp_int ◌+ℤ◌ ◌*ℤ◌
played_three = refl

reachable-IsValid_example : IsValid whole filled
reachable-IsValid_example = reachable-IsValid whole (pos 20) arrivals

filled-IsValid : IsValid whole filled
filled-IsValid = reachable-IsValid whole (pos 20) arrivals

filled_started : filled.started ≡ true
unfolding apply apply_all make_buffer reset insert accept recalculate_target start_playout
    trim_overflow trim sync_stats is_late sequence_before insert_slot
filled_started = refl

played_numbers-Consecutive_example :
    Consecutive whole filled.next_sequence (played_numbers whole filled three_plays)
played_numbers-Consecutive_example =
    played_numbers-Consecutive whole three_plays filled filled_started
      ((λ e. cc e), ((λ e. cc e), ((λ e. cc e), tt)))

filled_due : due_ms whole filled ≤ℤ pos 1060
unfolding due_ms apply apply_all make_buffer reset insert accept recalculate_target start_playout
    trim_overflow trim sync_stats is_late sequence_before insert_slot ◌+ℤ◌ ◌*ℤ◌
filled_due = omega arith

first_ready : (next_playout_frame whole filled (pos 1060)).1.ready ≡ true
unfolding next_playout_frame due_ms apply apply_all make_buffer reset insert accept
    recalculate_target start_playout trim_overflow trim sync_stats is_late sequence_before
    insert_slot find_slot erase_slot play advance ◌+ℤ◌ ◌*ℤ◌
first_ready = refl

-- The number 65534 again, behind two more frames.
abbrev later_plays : List (Call whole)
later_plays = plays (pos 1080) ∷ plays (pos 1100) ∷ []

no_replay_example :
    let first = next_playout_frame whole filled (pos 1060) in
    let later = apply_all whole first.0 later_plays in
    Outcome whole later first.1.sequence_number 0
      (1 ∷ [])
      (ltb (length (played_numbers whole first.0 later_plays) % 2 ^ 16) (2 ^ 15))
      (insert whole later first.1.sequence_number 0 (1 ∷ []) (pos 1110))
no_replay_example =
    no_replay whole filled filled-IsValid (pos 1060) first_ready later_plays
      ((λ e. cc e), ((λ e. cc e), tt)) 0 (1 ∷ []) (pos 1110) (omega arith)

filled_in_time : (filled.started && is_late whole filled 65535) ≡ false
unfolding apply apply_all make_buffer reset insert accept recalculate_target start_playout
    trim_overflow trim sync_stats is_late sequence_before insert_slot
filled_in_time = refl

filled_room : length filled.slots < 64
unfolding apply apply_all make_buffer reset insert accept recalculate_target start_playout
    trim_overflow trim sync_stats is_late sequence_before insert_slot
filled_room = omega arith

-- `n` entries from number `k` on.
abbrev entries : ℕ → ℕ → Slots
entries zero k = []
entries (suc n) k = (k, slot_of k (k * 960) (1 ∷ [])) ∷ entries n (suc k)

-- The numbers from 65400 on, before they wrap.
abbrev full_buffer : VoipJitterBuffer whole
full_buffer = record (make_buffer whole (pos 20)) {
  started = true;
  next_sequence = 65400;
  slots = entries 64 65400;
}

insert_evicts_newest_example :
    ((insert whole full_buffer 5 9 (1 ∷ []) (pos 2000)).1 ≡ ok_error)
    × ((insert whole full_buffer 5 9 (1 ∷ []) (pos 2000)).0.slots ≡ full_buffer.slots)
insert_evicts_newest_example =
    insert_evicts_newest whole full_buffer 5 9 (1 ∷ []) (pos 2000) (omega arith)
      (unfold is_late sequence_before in refl) refl (ground arith)

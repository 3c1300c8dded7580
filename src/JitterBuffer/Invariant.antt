-- ===== src/JitterBuffer/Invariant.antt =====
-- The well-formedness of the buffer of src/voip/src/domain/voip_jitter_buffer.cpp, which every
-- operation keeps.
use vianium_voip.Common.{
  ℕ, ◌^◌, ◌≤◌, ◌<◌, ◌≡◌, refl, List, [], ◌∷◌, true, false, Option, none, some, ◌⊎◌, inl, inr, arith,
  length,
}
use vianium_voip.Common.Int.{ℤ, pos, ◌+ℤ◌, ◌≤ℤ◌, +ℤ_parts}
use vianium_voip.Bytes.{u16}
use vianium_voip.SlotMap.{Slot, insert_slot, find_slot, erase_slot, trim}
use vianium_voip.JitterBuffer.{
  Doubles, VoipJitterBuffer, clamp_int, make_buffer, reset, next_jitter, late_drop, accept, insert,
  advance, play, next_playout_frame, min_target_ms, max_target_ms,
}
use vianium_voip.SlotMap.Laws.{
  IsSorted, IsKeyed, insert_slot-IsSorted, insert_slot-IsKeyed, erase_slot-IsSorted,
  erase_slot-IsKeyed, length-erase_slot, length-trim, trim-IsSorted, trim-IsKeyed,
}

pub clamp_int_bounds :
    (v lo hi : ℤ) → lo ≤ℤ hi → (lo ≤ℤ clamp_int v lo hi) × (clamp_int v lo hi ≤ℤ hi)
unfolding clamp_int
clamp_int_bounds v lo hi h = ground arith

abbrev pub slot_of : ℕ → ℕ → List ℕ → Slot
slot_of seq ts payload = record { sequence_number = seq; timestamp = ts; payload = payload }

module _ (d : Doubles) where
  pub record IsValid (b : VoipJitterBuffer d) : Type 0 where
    pub sorted : IsSorted b.slots
    pub keyed : IsKeyed b.slots
    pub bounded : length b.slots ≤ 64
    pub target_low : min_target_ms ≤ℤ b.target_ms
    pub target_high : b.target_ms ≤ℤ max_target_ms
    pub frame_positive : pos 1 ≤ℤ b.frame_ms
    pub sequence_fits : b.next_sequence < 2 ^ 16
    pub index_nonneg : pos 0 ≤ℤ b.playout_index
    pub idle_empty : b.started ≡ false → b.slots ≡ []
    pub depth : b.stats.depth_packets ≡ length b.slots

  -- The constructor gives a valid buffer, whatever frame length it is given.
  pub make_buffer-IsValid : (frame_ms : ℤ) → IsValid (make_buffer d frame_ms)
  unfolding make_buffer
  make_buffer-IsValid frame_ms = ground arith

  pub reset-IsValid : (b : VoipJitterBuffer d) → IsValid b → IsValid (reset d b)
  unfolding reset
  reset-IsValid b v = ground arith

  module _ (b : VoipJitterBuffer d) (seq ts : ℕ) (payload : List ℕ) (arrival : ℤ) where
    pub slots-accept :
        (accept d b seq ts payload arrival).slots
        ≡ (trim (insert_slot seq (slot_of seq ts payload) b.slots)).0
    unfolding accept
    slots-accept = ground arith

    started-accept : (accept d b seq ts payload arrival).started ≡ true
    unfolding accept
    started-accept = ground arith

    depth-accept :
        (accept d b seq ts payload arrival).stats.depth_packets
        ≡ length (accept d b seq ts payload arrival).slots
    unfolding accept
    depth-accept = refl

    target-accept :
        IsValid b
        → (min_target_ms ≤ℤ (accept d b seq ts payload arrival).target_ms)
          × ((accept d b seq ts payload arrival).target_ms ≤ℤ max_target_ms)
    unfolding accept
    target-accept v = ground (
      arith,
      clamp_int_bounds (min_target_ms +ℤ d.times_four (next_jitter d b arrival)) min_target_ms
          max_target_ms,
    )

    sequence-accept :
        IsValid b → seq < 2 ^ 16 → (accept d b seq ts payload arrival).next_sequence < 2 ^ 16
    unfolding accept
    sequence-accept v h = ground arith

    frame-accept : (accept d b seq ts payload arrival).frame_ms ≡ b.frame_ms
    unfolding accept
    frame-accept = ground arith

    index-accept : IsValid b → pos 0 ≤ℤ (accept d b seq ts payload arrival).playout_index
    unfolding accept
    index-accept v = ground arith

    pub accept-IsValid :
        seq < 2 ^ 16 → 0 < length payload → IsValid b → IsValid (accept d b seq ts payload arrival)
    accept-IsValid fits pos_length v = record {
      sorted =
          rw slots-accept
            (trim-IsSorted _ (insert_slot-IsSorted seq (slot_of seq ts payload) b.slots v.sorted));
      keyed = rw slots-accept (
          trim-IsKeyed _
            (insert_slot-IsKeyed (slot_of seq ts payload) b.slots fits pos_length v.keyed));
      bounded = rw slots-accept (length-trim _);
      target_low = (target-accept v).0;
      target_high = (target-accept v).1;
      frame_positive = rw frame-accept v.frame_positive;
      sequence_fits = sequence-accept v fits;
      index_nonneg = index-accept v;
      idle_empty = λ e. cc started-accept;
      depth = depth-accept;
    }

    -- Insert keeps the buffer valid on each of its branches, for a 16-bit sequence number: the
    -- entries stay ordered by key, each under its own number and with a payload, at most 64 of
    -- them, and the target latency stays between 60 and 180 ms.
    pub insert-IsValid : seq < 2 ^ 16 → IsValid b → IsValid (insert d b seq ts payload arrival).0
    unfolding insert late_drop
    insert-IsValid fits v = ground (arith, accept-IsValid fits)

  erase_idle :
      (k : ℕ) (b : VoipJitterBuffer d) → IsValid b → b.started ≡ false → erase_slot k b.slots ≡ []
  erase_idle k b v e = rw (v.idle_empty e) (unfold erase_slot in refl)

  played-IsValid :
      (b : VoipJitterBuffer d) (found : Option Slot)
      → IsValid b
      → IsValid (advance d (play d b found).0)
  unfolding advance play
  played-IsValid b (some slot) v = record {
    sorted = erase_slot-IsSorted b.next_sequence b.slots v.sorted;
    keyed = erase_slot-IsKeyed b.next_sequence b.slots v.keyed;
    bounded = omega (arith, v.bounded, length-erase_slot b.next_sequence b.slots);
    target_low = v.target_low;
    target_high = v.target_high;
    frame_positive = v.frame_positive;
    sequence_fits = omega arith;
    index_nonneg = omega (arith, v.index_nonneg, +ℤ_parts b.playout_index (pos 1));
    idle_empty = erase_idle b.next_sequence b v;
    depth = refl;
  }
  played-IsValid b none v = record {
    sorted = v.sorted;
    keyed = v.keyed;
    bounded = v.bounded;
    target_low = v.target_low;
    target_high = v.target_high;
    frame_positive = v.frame_positive;
    sequence_fits = omega arith;
    index_nonneg = omega (arith, v.index_nonneg, +ℤ_parts b.playout_index (pos 1));
    idle_empty = v.idle_empty;
    depth = refl;
  }

  next_playout_cases :
      (b : VoipJitterBuffer d) (now : ℤ)
      → ((next_playout_frame d b now).0 ≡ b)
        ⊎ ((next_playout_frame d b now).0
            ≡ advance d (play d b (find_slot b.next_sequence b.slots)).0)
  unfolding next_playout_frame
  next_playout_cases b now = ground arith

  -- NextPlayoutFrame keeps the buffer valid, whether it waits, plays a packet or conceals a loss.
  pub next_playout_frame-IsValid :
      (b : VoipJitterBuffer d) (now : ℤ) → IsValid b → IsValid (next_playout_frame d b now).0
  next_playout_frame-IsValid b now v = elim (next_playout_cases b now) [
    | inl e ↦ rw e v
    | inr e ↦ rw e (played-IsValid b (find_slot b.next_sequence b.slots) v)
  ]

  -- One call of a method that changes the buffer.
  pub data Call : Type 0 where
    resets : Call
    inserts : ℕ → ℕ → List ℕ → ℤ → Call
    plays : ℤ → Call

  unfoldable pub apply : VoipJitterBuffer d → Call → VoipJitterBuffer d
  apply b resets = reset d b
  apply b (inserts seq ts payload arrival) = (insert d b (u16 seq) ts payload arrival).0
  apply b (plays now) = (next_playout_frame d b now).0

  unfoldable pub apply_all : VoipJitterBuffer d → List Call → VoipJitterBuffer d
  apply_all b [] = b
  apply_all b (c ∷ cs) = apply_all (apply b c) cs

  apply-IsValid : (b : VoipJitterBuffer d) (c : Call) → IsValid b → IsValid (apply b c)
  unfolding apply
  apply-IsValid b resets v = reset-IsValid b v
  apply-IsValid b (inserts seq ts payload arrival) v =
      insert-IsValid b (u16 seq) ts payload arrival (omega arith) v
  apply-IsValid b (plays now) v = next_playout_frame-IsValid b now v

  apply_all-IsValid :
      (b : VoipJitterBuffer d) (cs : List Call) → IsValid b → IsValid (apply_all b cs)
  unfolding apply_all
  apply_all-IsValid b [] v = v
  apply_all-IsValid b (c ∷ cs) v = apply_all-IsValid (apply b c) cs (apply-IsValid b c v)

  -- Whatever frame length it was made with and whatever calls of Insert, NextPlayoutFrame and Reset
  -- came since, in any order, the buffer is valid: its entries are ordered by key, each under its
  -- own 16-bit number and with a payload, at most 64, none before playout has started; the target
  -- latency is between 60 and 180 ms; the reported depth is the number of entries.
  pub reachable-IsValid :
      (frame_ms : ℤ) (cs : List Call) → IsValid (apply_all (make_buffer d frame_ms) cs)
  reachable-IsValid frame_ms cs = apply_all-IsValid _ cs (make_buffer-IsValid frame_ms)

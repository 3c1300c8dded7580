-- ===== src/JitterBuffer.antt =====
-- src/voip/src/domain/voip_jitter_buffer.{h,cpp}: the jitter buffer between the network and playout.
-- Times are integers (an int64_t that does not overflow), counters wrap at 2 ^ 32, sequence numbers
-- at 2 ^ 16. The double that smooths the jitter is a parameter.
pub mod Invariant
pub mod Order
pub mod Playout
pub mod Replay
use vianium_voip.Common.{
  ℕ, zero, suc, ◌+◌, ◌-◌, ◌%◌, ◌^◌, ◌<◌, List, [], ◌∷◌, Bool, true, false, not, ◌&&◌, Option, none,
  some, ltb, ◌==◌, if◌then◌else◌, length,
}
use vianium_voip.Common.Int.{ℤ, pos, negsuc, ◌+ℤ◌, ◌-ℤ◌, ◌*ℤ◌, pos_part, ltb_ℤ}
use vianium_voip.Bytes.{u16, u32}
use vianium_voip.SlotMap.{Slot, Slots, insert_slot, find_slot, erase_slot, trim}
use vianium_voip.Domain.{VoipError, ok_error, error_of, invalid_argument}

-- What the code does with its double: `std::fabs` of an integer, the test for 0.0, the weighted
-- mean with weights 0.95 and 0.05, and the conversion to an int of the value times 4.0.
pub record Doubles : Type 1 where
  pub Double : Type 0
  pub zero_value : Double
  pub is_zero : Double → Bool
  pub abs_of : ℤ → Double
  pub smooth : Double → Double → Double
  pub times_four : Double → ℤ

pub record VoipJitterFrame : Type 0 where
  pub ready : Bool
  pub has_packet : Bool
  pub plc : Bool
  pub sequence_number : ℕ
  pub timestamp : ℕ
  pub payload : List ℕ

pub record VoipJitterStats : Type 0 where
  pub packets_inserted : ℕ
  pub packets_played : ℕ
  pub packets_lost : ℕ
  pub late_drops : ℕ
  pub target_ms : ℤ
  pub depth_packets : ℕ

abbrev pub min_target_ms : ℤ
min_target_ms = pos 60

abbrev pub max_target_ms : ℤ
max_target_ms = pos 180

abbrev pub initial_stats : VoipJitterStats
initial_stats = record {
  packets_inserted = 0;
  packets_played = 0;
  packets_lost = 0;
  late_drops = 0;
  target_ms = pos 60;
  depth_packets = 0;
}

-- A default VoipJitterFrame.
abbrev pub no_frame : VoipJitterFrame
no_frame = record {
  ready = false;
  has_packet = false;
  plc = false;
  sequence_number = 0;
  timestamp = 0;
  payload = [];
}

unfoldable pub clamp_int : ℤ → ℤ → ℤ → ℤ
clamp_int value lo hi = if ltb_ℤ value lo then lo else if ltb_ℤ hi value then hi else value

-- static_cast<int16_t>(a - b) < 0: the top bit of the difference on 16 bits.
unfoldable pub sequence_before : ℕ → ℕ → Bool
sequence_before a b = not (ltb ((a + 2 ^ 16 - b) % 2 ^ 16) (2 ^ 15))

module _ (d : Doubles) where
  open d use {Double, zero_value, is_zero, abs_of, smooth, times_four}

  pub record VoipJitterBuffer : Type 0 where
    pub frame_ms : ℤ
    pub started : Bool
    pub next_sequence : ℕ
    pub next_timestamp : ℕ
    pub first_playout_ms : ℤ
    pub playout_index : ℤ
    pub last_arrival_ms : ℤ
    pub smoothed_jitter_ms : Double
    pub target_ms : ℤ
    pub slots : Slots
    pub stats : VoipJitterStats

  -- The constructor, which ends by Reset().
  unfoldable pub make_buffer : ℤ → VoipJitterBuffer
  make_buffer frame_ms = record {
    frame_ms = if ltb_ℤ (pos 0) frame_ms then frame_ms else pos 20;
    started = false;
    next_sequence = 0;
    next_timestamp = 0;
    first_playout_ms = pos 0;
    playout_index = pos 0;
    last_arrival_ms = negsuc 0;
    smoothed_jitter_ms = zero_value;
    target_ms = min_target_ms;
    slots = [];
    stats = initial_stats;
  }

  unfoldable pub reset : VoipJitterBuffer → VoipJitterBuffer
  reset b = record b {
    started = false;
    next_sequence = 0;
    next_timestamp = 0;
    first_playout_ms = pos 0;
    playout_index = pos 0;
    last_arrival_ms = negsuc 0;
    smoothed_jitter_ms = zero_value;
    target_ms = min_target_ms;
    slots = [];
    stats = initial_stats;
  }

  unfoldable pub is_late : VoipJitterBuffer → ℕ → Bool
  unfolding sequence_before
  is_late b sequence_number = sequence_before sequence_number b.next_sequence

  -- The value of m_smoothedJitterMs after an arrival, where an earlier one is known.
  unfoldable pub next_jitter : VoipJitterBuffer → ℤ → Double
  next_jitter b arrival =
      let delta = arrival -ℤ b.last_arrival_ms in
      let jitter = abs_of ((if ltb_ℤ delta (pos 0) then pos 0 else delta) -ℤ b.frame_ms) in
      if is_zero b.smoothed_jitter_ms then jitter else smooth b.smoothed_jitter_ms jitter

  unfoldable pub recalculate_target : VoipJitterBuffer → ℤ → VoipJitterBuffer
  unfolding next_jitter
  recalculate_target b arrival =
      let jitter = next_jitter b arrival in
      if ltb_ℤ b.last_arrival_ms (pos 0) then record b { last_arrival_ms = arrival } else record b {
        smoothed_jitter_ms = jitter;
        target_ms = clamp_int (min_target_ms +ℤ times_four jitter) min_target_ms max_target_ms;
        last_arrival_ms = arrival;
      }

  unfoldable pub trim_overflow : VoipJitterBuffer → VoipJitterBuffer
  trim_overflow b = record b {
    slots = (trim b.slots).0;
    stats = record (b.stats) { late_drops = u32 (b.stats.late_drops + (trim b.slots).1) };
  }

  -- `if (!m_started)` of Insert.
  unfoldable pub start_playout : VoipJitterBuffer → ℕ → ℕ → ℤ → VoipJitterBuffer
  start_playout b sequence_number timestamp arrival = if b.started then b else record b {
    started = true;
    next_sequence = sequence_number;
    next_timestamp = timestamp;
    first_playout_ms = arrival +ℤ b.target_ms;
    playout_index = pos 0;
  }

  -- The last two assignments to m_stats, which Insert and NextPlayoutFrame share.
  unfoldable pub sync_stats : VoipJitterBuffer → VoipJitterBuffer
  sync_stats b = record b {
    stats = record (b.stats) { target_ms = b.target_ms; depth_packets = length b.slots };
  }

  unfoldable pub late_drop : VoipJitterBuffer → VoipJitterBuffer
  late_drop b = record b {
    stats = record (b.stats) {
      late_drops = u32 (b.stats.late_drops + 1);
      depth_packets = length b.slots;
    };
  }

  unfoldable pub accept : VoipJitterBuffer → ℕ → ℕ → List ℕ → ℤ → VoipJitterBuffer
  unfolding recalculate_target start_playout trim_overflow sync_stats
  accept b sequence_number timestamp payload arrival =
      let slot : Slot = record {
        sequence_number = sequence_number;
        timestamp = timestamp;
        payload = payload;
      } in
      let b1 = recalculate_target b arrival in
      let b2 = record b1 { slots = insert_slot sequence_number slot b1.slots } in
      let b3 = start_playout b2 sequence_number timestamp arrival in
      let b4 = record b3 {
        stats = record (b3.stats) { packets_inserted = u32 (b3.stats.packets_inserted + 1) };
      } in
      sync_stats (trim_overflow b4)

  unfoldable pub insert : VoipJitterBuffer → ℕ → ℕ → List ℕ → ℤ → VoipJitterBuffer × VoipError
  unfolding is_late
  insert b sequence_number timestamp payload arrival =
      if length payload == 0
      then (b, error_of invalid_argument (pos 0) "jitter buffer payload is empty")
      else if b.started && is_late b sequence_number
      then (late_drop b, ok_error)
      else (accept b sequence_number timestamp payload arrival, ok_error)

  -- When the next frame is due.
  unfoldable pub due_ms : VoipJitterBuffer → ℤ
  due_ms b = b.first_playout_ms +ℤ b.playout_index *ℤ b.frame_ms

  -- The last assignments of NextPlayoutFrame. `static_cast<uint32_t>(m_frameMs)` is the frame
  -- length, which the constructor has made positive.
  unfoldable pub advance : VoipJitterBuffer → VoipJitterBuffer
  unfolding sync_stats
  advance b = sync_stats (record b {
    next_sequence = u16 (b.next_sequence + 1);
    next_timestamp = u32 (b.next_timestamp + pos_part b.frame_ms);
    playout_index = b.playout_index +ℤ pos 1;
  })

  -- The playout of the entry that `find` gave, and of a missing one.
  unfoldable pub play : VoipJitterBuffer → Option Slot → VoipJitterBuffer × VoipJitterFrame
  play b (some slot) = (
    record b {
      slots = erase_slot b.next_sequence b.slots;
      stats = record (b.stats) { packets_played = u32 (b.stats.packets_played + 1) };
    },
    record {
      ready = true;
      has_packet = true;
      plc = false;
      sequence_number = b.next_sequence;
      timestamp = slot.timestamp;
      payload = slot.payload;
    },
  )
  play b none = (
    record b { stats = record (b.stats) { packets_lost = u32 (b.stats.packets_lost + 1) } },
    record {
      ready = true;
      has_packet = false;
      plc = true;
      sequence_number = b.next_sequence;
      timestamp = b.next_timestamp;
      payload = [];
    },
  )

  unfoldable pub next_playout_frame : VoipJitterBuffer → ℤ → VoipJitterBuffer × VoipJitterFrame
  unfolding advance due_ms play
  next_playout_frame b now =
      let (played, frame) = play b (find_slot b.next_sequence b.slots) in
      if not b.started
      then (b, no_frame)
      else if ltb_ℤ now (due_ms b)
      then (b, no_frame)
      else (advance played, frame)

  unfoldable pub current_stats : VoipJitterBuffer → VoipJitterStats
  current_stats b = record (b.stats) { target_ms = b.target_ms; depth_packets = length b.slots }

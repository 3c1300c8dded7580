-- ===== src/SlotMap.antt =====
-- The ordered map m_slots of src/voip/src/domain/voip_jitter_buffer.{h,cpp}, from 16-bit sequence
-- numbers to buffered packets, with the operations that the jitter buffer uses.
pub mod Laws
use vianium_voip.Common.{
  ℕ, suc, List, [], ◌∷◌, Bool, Option, none, some, ltb, ◌==◌, if◌then◌else◌, length,
}

pub record Slot : Type 0 where
  pub sequence_number : ℕ
  pub timestamp : ℕ
  pub payload : List ℕ

abbrev pub max_buffered_packets : ℕ
max_buffered_packets = 64

-- std::map<uint16_t, Slot> as the list of its entries in the order of the keys.
abbrev pub Slots : Type 0
Slots = List (ℕ × Slot)

-- `m_slots[key] = slot`
unfoldable pub insert_slot : ℕ → Slot → Slots → Slots
insert_slot k s [] = (k, s) ∷ []
insert_slot k s ((j, t) ∷ m) =
    if k == j
    then (k, s) ∷ m
    else if ltb k j
    then (k, s) ∷ (j, t) ∷ m
    else (j, t) ∷ insert_slot k s m

-- `m_slots.find(key)`
unfoldable pub find_slot : ℕ → Slots → Option Slot
find_slot k [] = none
find_slot k ((j, t) ∷ m) = if k == j then some t else find_slot k m

-- `m_slots.erase(it)` at the entry of the key.
unfoldable pub erase_slot : ℕ → Slots → Slots
erase_slot k [] = []
erase_slot k ((j, t) ∷ m) = if k == j then m else (j, t) ∷ erase_slot k m

-- TrimOverflow: while there are more than 64 entries, `m_slots.erase(m_slots.begin())`. The result
-- is the entries that stay and the number of entries erased.
unfoldable pub trim : Slots → Slots × ℕ
trim [] = ([], 0)
trim (e ∷ m) =
    let rest = trim m in
    if ltb max_buffered_packets (length (e ∷ m)) then (rest.0, suc rest.1) else (e ∷ m, 0)

-- ===== src/SlotMap/Laws.antt =====
-- The ordered map of src/voip/src/domain/voip_jitter_buffer.cpp: the laws of its three operations and
-- of TrimOverflow.
use vianium_voip.Common.{
  ℕ, zero, suc, ◌-◌, ◌^◌, ◌≤◌, ◌<◌, ◌≡◌, refl, [], ◌∷◌, none, some, ◌==◌, lt→ltb, ltb-false, ap,
  sym, ◌∙◌, if◌then◌else◌, arith, length, drop, length-drop,
}
use native.Mathlib.Decide.{dec_le}
use vianium_voip.SlotMap.{Slot, Slots, insert_slot, find_slot, erase_slot, trim}

-- All keys are above `k`.
abbrev pub Above : ℕ → Slots → Type 0
Above k [] = Unit {0}
Above k ((j, t) ∷ m) = (k < j) × Above k m

abbrev pub IsSorted : Slots → Type 0
IsSorted [] = Unit {0}
IsSorted ((j, t) ∷ m) = Above j m × IsSorted m

-- Each entry stands under its own sequence number, which fits 16 bits, and has a payload.
abbrev pub IsKeyed : Slots → Type 0
IsKeyed [] = Unit {0}
IsKeyed ((j, t) ∷ m) = ((j ≡ t.sequence_number) × (j < 2 ^ 16) × (0 < length t.payload)) × IsKeyed m

Above-trans : (k j : ℕ) (m : Slots) → k < j → Above j m → Above k m
Above-trans k j [] lt a = tt
Above-trans k j ((i, t) ∷ m) lt a = (omega arith, Above-trans k j m lt a.1)

pub find-insert_slot :
    (j k : ℕ) (s : Slot) (m : Slots)
    → find_slot j (insert_slot k s m) ≡ (if j == k then some s else find_slot j m)
unfolding find_slot insert_slot
find-insert_slot j k s [] = refl
find-insert_slot j k s ((i, t) ∷ m) = ground (arith, find-insert_slot j k s m)

pub length-insert_slot :
    (k : ℕ) (s : Slot) (m : Slots) → length (insert_slot k s m) ≤ suc (length m)
unfolding insert_slot
length-insert_slot k s [] = omega arith
length-insert_slot k s ((j, t) ∷ m) = ground (arith, length-insert_slot k s m)

insert_slot-Above :
    (i k : ℕ) (s : Slot) (m : Slots) → i < k → Above i m → Above i (insert_slot k s m)
unfolding insert_slot
insert_slot-Above i k s [] lt a = (lt, tt)
insert_slot-Above i k s ((j, t) ∷ m) lt a = ground (arith, insert_slot-Above i k s m lt a.1)

pub insert_slot-IsSorted :
    (k : ℕ) (s : Slot) (m : Slots) → IsSorted m → IsSorted (insert_slot k s m)
unfolding insert_slot
insert_slot-IsSorted k s [] h = (tt, tt)
insert_slot-IsSorted k s ((j, t) ∷ m) h =
    ground (arith, insert_slot-IsSorted k s m h.1, insert_slot-Above j k s m, Above-trans k j m)

pub insert_slot-IsKeyed :
    (s : Slot) (m : Slots)
    → s.sequence_number < 2 ^ 16
    → 0 < length s.payload
    → IsKeyed m
    → IsKeyed (insert_slot s.sequence_number s m)
unfolding insert_slot
insert_slot-IsKeyed s [] lt pos h = ((refl, lt, pos), tt)
insert_slot-IsKeyed s ((j, t) ∷ m) lt pos h = ground (arith, insert_slot-IsKeyed s m lt pos h.1)

find-Above : (k : ℕ) (m : Slots) → Above k m → find_slot k m ≡ none
unfolding find_slot
find-Above k [] a = refl
find-Above k ((j, t) ∷ m) a = ground (arith, find-Above k m a.1)

-- After an erase the key is gone, and every other key is as before.
pub find-erase_slot :
    (j k : ℕ) (m : Slots)
    → IsSorted m
    → find_slot j (erase_slot k m) ≡ (if j == k then none else find_slot j m)
unfolding find_slot erase_slot
find-erase_slot j k [] h = ground arith
find-erase_slot j k ((i, t) ∷ m) h = ground (arith, find-erase_slot j k m h.1, find-Above k m)

erase_slot-Above : (i k : ℕ) (m : Slots) → Above i m → Above i (erase_slot k m)
unfolding erase_slot
erase_slot-Above i k [] a = tt
erase_slot-Above i k ((j, t) ∷ m) a = ground (arith, erase_slot-Above i k m a.1)

pub erase_slot-IsSorted : (k : ℕ) (m : Slots) → IsSorted m → IsSorted (erase_slot k m)
unfolding erase_slot
erase_slot-IsSorted k [] h = tt
erase_slot-IsSorted k ((j, t) ∷ m) h =
    ground (arith, erase_slot-IsSorted k m h.1, erase_slot-Above j k m h.0)

pub erase_slot-IsKeyed : (k : ℕ) (m : Slots) → IsKeyed m → IsKeyed (erase_slot k m)
unfolding erase_slot
erase_slot-IsKeyed k [] h = tt
erase_slot-IsKeyed k ((j, t) ∷ m) h = ground (arith, erase_slot-IsKeyed k m h.1)

pub length-erase_slot : (k : ℕ) (m : Slots) → length (erase_slot k m) ≤ length m
unfolding erase_slot
length-erase_slot k [] = omega arith
length-erase_slot k ((j, t) ∷ m) = ground (arith, length-erase_slot k m)

trim_long : (e : ℕ × Slot) (m : Slots) → 64 ≤ length m → trim (e ∷ m) ≡ ((trim m).0, suc (trim m).1)
unfolding trim
trim_long e m h = rw (lt→ltb 64 (suc (length m)) (omega arith), trim)

pub trim_short : (m : Slots) → length m ≤ 64 → trim m ≡ (m, 0)
unfolding trim
trim_short [] h = refl
trim_short (e ∷ m) h = rw (ltb-false 64 (suc (length m)) h, trim)

drop_long :
    (e : ℕ × Slot) (m : Slots)
    → 64 ≤ length m
    → drop (suc (length m) - 64) (e ∷ m) ≡ drop (length m - 64) m
drop_long e m h = ap (λ (n : ℕ). drop n (e ∷ m)) one_more
  where
    one_more : suc (length m) - 64 ≡ suc (length m - 64)
    one_more = omega arith

pair_path : {r s : Slots} {n k : ℕ} → r ≡ s → n ≡ k → ◌≡◌ {A = Slots × ℕ} (r, n) (s, k)
pair_path p q = λ i. (p i, q i)

nothing_over : (m : Slots) → ¬ (64 ≤ length m) → 0 ≡ suc (length m) - 64
nothing_over m h = omega arith

-- TrimOverflow keeps the last 64 entries in key order, and counts those that it erased.
pub trim-drop : (m : Slots) → trim m ≡ (drop (length m - 64) m, length m - 64)
trim-drop [] = unfold trim in refl
trim-drop (e ∷ m) = elim (dec_le 64 (length m)) [
  | yes h ↦
      trim_long e m h
      ∙ ap (λ (r : Slots × ℕ). (r.0, suc r.1)) (trim-drop m)
      ∙ pair_path (sym (drop_long e m h)) (omega arith)
  | no h ↦
      trim_short (e ∷ m) (omega arith)
      ∙ pair_path (ap (λ (n : ℕ). drop n (e ∷ m)) (nothing_over m h)) (omega arith)
]

pub drop-IsSorted : (n : ℕ) (m : Slots) → IsSorted m → IsSorted (drop n m)
drop-IsSorted zero m h = h
drop-IsSorted (suc n) [] h = h
drop-IsSorted (suc n) (e ∷ m) h = drop-IsSorted n m h.1

pub drop-IsKeyed : (n : ℕ) (m : Slots) → IsKeyed m → IsKeyed (drop n m)
drop-IsKeyed zero m h = h
drop-IsKeyed (suc n) [] h = h
drop-IsKeyed (suc n) (e ∷ m) h = drop-IsKeyed n m h.1

pub length-trim : (m : Slots) → length (trim m).0 ≤ 64
length-trim m = rw trim-drop (omega (arith, length-drop (length m - 64) m))

pub trim-IsSorted : (m : Slots) → IsSorted m → IsSorted (trim m).0
trim-IsSorted m h = rw trim-drop (drop-IsSorted (length m - 64) m h)

pub trim-IsKeyed : (m : Slots) → IsKeyed m → IsKeyed (trim m).0
trim-IsKeyed m h = rw trim-drop (drop-IsKeyed (length m - 64) m h)

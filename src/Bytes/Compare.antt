-- ===== src/Bytes/Compare.antt =====
-- memcmp and slices, as several codecs use them.
use vianium_voip.Common.{
  ℕ, ◌≡◌, refl, List, [], ◌∷◌, Bool, true, false, ◌&&◌, ◌==◌, ==_iff, take, drop, arith, ◌+◌, ◌≤◌,
  length, length-take, length-drop,
}

-- `count` bytes from `offset` on.
abbrev pub slice : List ℕ → ℕ → ℕ → List ℕ
slice bytes offset count = take count (drop offset bytes)

-- The loop of memcmp, tested for 0.
unfoldable pub bytes_equal : List ℕ → List ℕ → Bool
bytes_equal [] [] = true
bytes_equal [] (y ∷ ys) = false
bytes_equal (x ∷ xs) [] = false
bytes_equal (x ∷ xs) (y ∷ ys) = x == y && bytes_equal xs ys

pub bytes_equal_self : (xs : List ℕ) → bytes_equal xs xs ≡ true
unfolding bytes_equal
bytes_equal_self [] = refl
bytes_equal_self (x ∷ xs) = rw ((==_iff x x).1 refl) (bytes_equal_self xs)

pub bytes_equal-eq : (xs ys : List ℕ) → bytes_equal xs ys ≡ true → xs ≡ ys
unfolding bytes_equal
bytes_equal-eq [] [] e = refl
bytes_equal-eq [] (y ∷ ys) e = cc e
bytes_equal-eq (x ∷ xs) [] e = cc e
bytes_equal-eq (x ∷ xs) (y ∷ ys) e = ground (arith, e, bytes_equal-eq xs ys)

-- A slice that lies within the bytes has its count.
pub length-slice :
    (bytes : List ℕ) (offset count : ℕ)
    → offset + count ≤ length bytes
    → length (slice bytes offset count) ≡ count
length-slice bytes offset count h =
    omega (arith, length-take count (drop offset bytes), length-drop offset bytes)

-- ===== src/AesCtr/Counter.antt =====
-- The counter of the counter mode, read as a big-endian number.
use native.Mathlib.Nat.{mod_self}
use vianium_voip.Common.{
  ℕ, suc, ◌+◌, ◌*◌, ◌%◌, ◌^◌, ◌≤◌, ◌<◌, ◌≡◌, refl, sym, ap, ◌∙◌, ◌⊎◌, inl, inr, List, [], ◌∷◌, true,
  false, ◌==◌, length, arith, ==_iff,
}
use native.Mathlib.Nat.{pow-suc, mod_self, mod-eq_of_lt, add-mul, mul-le-mul_right}
use vianium_voip.Bytes.{u8, AreBytes}
use vianium_voip.AesCtr.{bump, increment_counter}

abbrev pub value : List ℕ → ℕ
value [] = 0
value (b ∷ bs) = b * 256 ^ length bs + value bs

-- What the loop leaves: all bytes zero where every byte has been passed, one more otherwise.
record Bumped (c : List ℕ) : Type 0 where
  pub kept : length (bump c).0 ≡ length c
  pub counted :
      (((bump c).1 ≡ true) × (value (bump c).0 ≡ 0) × (value c + 1 ≡ 256 ^ length c))
      ⊎ (((bump c).1 ≡ false) × (value (bump c).0 ≡ value c + 1) × (value c + 1 < 256 ^ length c))

top : (b p : ℕ) → b < 256 → (b + 1) * p ≤ 256 * p
top b p h = mul-le-mul_right p (omega arith)

-- A byte and the counter behind it, with its size `p`, stepped once, as numbers.
carried : (b p v : ℕ) → b + 1 < 256 → v + 1 ≡ p → (b + 1) * p + 0 ≡ b * p + v + 1
carried b p v h e = omega (arith, add-mul b 1 p, e)

carried_over : (b p v : ℕ) → b + 1 ≡ 256 → v + 1 ≡ p → b * p + v + 1 ≡ 256 * p
carried_over b p v h e = omega (arith, add-mul b 1 p, ap (λ (t : ℕ). t * p) h, e)

below_top : (b p v : ℕ) → b < 256 → v < p → b * p + v < 256 * p
below_top b p v h e = omega (arith, add-mul b 1 p, top b p h, e)

bump-true :
    (b : ℕ) (bs : List ℕ)
    → (bump bs).1 ≡ true
    → bump (b ∷ bs) ≡ (u8 (b + 1) ∷ (bump bs).0, u8 (b + 1) == 0)
unfolding bump
bump-true b bs e = rw e

bump-false : (b : ℕ) (bs : List ℕ) → (bump bs).1 ≡ false → bump (b ∷ bs) ≡ (b ∷ (bump bs).0, false)
unfolding bump
bump-false b bs e = rw e

below_carry : (b p v : ℕ) → b + 1 < 256 → v + 1 ≡ p → b * p + v + 1 < 256 * p
below_carry b p v h e = omega (arith, add-mul b 1 p, add-mul (b + 1) 1 p, top (b + 1) p h, e)

module _ (b : ℕ) (bs : List ℕ) (h : b < 256) (ih : Bumped bs) where
  size : 256 ^ length (bump bs).0 ≡ 256 ^ length bs
  size = ap (λ (n : ℕ). 256 ^ n) ih.kept

  passed :
      (bump bs).1 ≡ true
      → value (bump bs).0 ≡ 0
      → value bs + 1 ≡ 256 ^ length bs
      → u8 (b + 1) ≡ 0
      → Bumped (b ∷ bs)
  passed on zeros full last = record {
    kept = rw (bump-true b bs on) (ap (λ (n : ℕ). suc n) ih.kept);
    counted = inl (
      rw (bump-true b bs on) ((==_iff (u8 (b + 1)) 0).1 last),
      rw (bump-true b bs on, last) (omega (arith, zeros)),
      omega (
        arith,
        carried_over b (256 ^ length bs) (value bs) (omega (arith, last, h)) full,
        pow-suc 256 (length bs),
      ),
    );
  }

  stepped :
      (bump bs).1 ≡ true
      → value (bump bs).0 ≡ 0
      → value bs + 1 ≡ 256 ^ length bs
      → b + 1 < 256
      → Bumped (b ∷ bs)
  stepped on zeros full room = record {
    kept = rw (bump-true b bs on) (ap (λ (n : ℕ). suc n) ih.kept);
    counted = inr (
      rw (bump-true b bs on) (ground (arith, room)),
      rw (bump-true b bs on, next, size, zeros) (carried b (256 ^ length bs) (value bs) room full),
      omega (arith, below_carry b (256 ^ length bs) (value bs) room full, pow-suc 256 (length bs)),
    );
  }
    where
      next : u8 (b + 1) ≡ b + 1
      next = omega (arith, room)

  stopped :
      (bump bs).1 ≡ false
      → value (bump bs).0 ≡ value bs + 1
      → value bs + 1 < 256 ^ length bs
      → Bumped (b ∷ bs)
  stopped off one_more room = record {
    kept = rw (bump-false b bs off) (ap (λ (n : ℕ). suc n) ih.kept);
    counted = inr (
      rw (bump-false b bs off),
      rw (bump-false b bs off, size, one_more) (omega arith),
      omega (arith, below_top b (256 ^ length bs) (value bs + 1) h room, pow-suc 256 (length bs)),
    );
  }

  Bumped-cons : Bumped (b ∷ bs)
  Bumped-cons = elim ih.counted [
    | inl (on, zeros, full) ↦ elim (cut b h) [
      | inl last ↦ passed on zeros full last
      | inr room ↦ stepped on zeros full room
    ]
    | inr (off, one_more, room) ↦ stopped off one_more room
  ]
    where
      cut : (b : ℕ) → b < 256 → (u8 (b + 1) ≡ 0) ⊎ (b + 1 < 256)
      cut b h = ground (arith, h)

bump-Bumped : (c : List ℕ) → AreBytes c → Bumped c
bump-Bumped [] h = unfold bump in record { kept = refl; counted = inl (refl, refl, refl) }
bump-Bumped (b ∷ bs) h = Bumped-cons b bs h.0 (bump-Bumped bs h.1)

-- One more, modulo the counter's size: for 16 bytes, `(n + 1) mod 2 ^ 128`.
pub increment_counter-value :
    (c : List ℕ)
    → AreBytes c
    → (length (increment_counter c) ≡ length c)
      × (value (increment_counter c) ≡ (value c + 1) % 256 ^ length c)
unfolding increment_counter
increment_counter-value c h =
    let b = bump-Bumped c h in
    (b.kept, modulo (value c) (256 ^ length c) (value (bump c).0) (cases b.counted))
  where
    cases :
        (((bump c).1 ≡ true) × (value (bump c).0 ≡ 0) × (value c + 1 ≡ 256 ^ length c))
          ⊎ (((bump c).1 ≡ false)
              × (value (bump c).0 ≡ value c + 1)
              × (value c + 1 < 256 ^ length c))
        → ((value (bump c).0 ≡ 0) × (value c + 1 ≡ 256 ^ length c))
          ⊎ ((value (bump c).0 ≡ value c + 1) × (value c + 1 < 256 ^ length c))
    cases (inl (on, zeros, full)) = inl (zeros, full)
    cases (inr (off, one_more, room)) = inr (one_more, room)

    modulo : (v p w : ℕ) → ((w ≡ 0) × (v + 1 ≡ p)) ⊎ ((w ≡ v + 1) × (v + 1 < p)) → w ≡ (v + 1) % p
    modulo v p w (inl (zero_w, e)) = zero_w ∙ sym (rw e (mod_self p))
    modulo v p w (inr (same, lt)) = same ∙ sym (mod-eq_of_lt lt)

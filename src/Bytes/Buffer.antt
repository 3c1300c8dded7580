-- ===== src/Bytes/Buffer.antt =====
-- Writes into a buffer that has its size already, as concatenations.
use vianium_voip.Common.{
  ℕ, zero, suc, ◌+◌, ◌≤◌, ◌≡◌, refl, ap, List, [], ◌∷◌, ◌++◌, arith, length, drop,
}
use vianium_voip.Bytes.{overlay, write_at}

pub overlay-append :
    (bs out : List ℕ) → length bs ≤ length out → overlay bs out ≡ bs ++ drop (length bs) out
overlay-append [] out h = refl
overlay-append (b ∷ bs) [] h = absurd (omega arith)
overlay-append (b ∷ bs) (o ∷ out) h = ap (◌∷◌ b) (overlay-append bs out (omega arith))

pub write_at-append :
    (n m : ℕ) (bs front out : List ℕ)
    → n ≡ length front + m
    → write_at n bs (front ++ out) ≡ front ++ write_at m bs out
write_at-append n m bs [] out e = ap (λ (k : ℕ). write_at k bs out) (omega (arith, e))
write_at-append zero m bs (x ∷ front) out e = absurd (omega arith)
write_at-append (suc n) m bs (x ∷ front) out e =
    ap (◌∷◌ x) (write_at-append n m bs front out (omega arith))

-- ===== src/Md5/Chunks.antt =====
-- Md5Update of src/voip/src/infrastructure/turn/turn_message.cpp: what a context holds of the bytes that
-- it was given, in whatever pieces they came.
use vianium_voip.Common.{All-append}
use vianium_voip.Common.{take-length}
use vianium_voip.Common.{take-append-drop}
use vianium_voip.Common.{All}
use vianium_voip.Common.{
  ℕ, zero, suc, ◌+◌, ◌-◌, ◌*◌, ◌/◌, ◌%◌, ◌^◌, ◌≤◌, ◌<◌, ◌≡◌, refl, sym, ap, ap₂, ◌∙◌, List, [], ◌∷◌,
  ◌++◌, ltb→lt, take-append-drop, All, ltb, leb, length, take, drop, arith, bit_and, append_assoc,
  length-append, length-take, length-drop, Bool-cases, inl, inr,
}
use vianium_voip.Common.Bits.{bit_and_mask}
use vianium_voip.Bytes.{write_at, overlay}
use vianium_voip.Md5.{
  Md5State, Md5Ctx, md5_transform, initial_state, md5_init, transform_blocks, update_full,
  md5_update,
}

-- The transformation of blocks, one behind the other.
unfoldable pub absorb : Md5State → List (List ℕ) → Md5State
absorb st [] = st
absorb st (b ∷ blocks) = absorb (md5_transform st b) blocks

unfoldable pub joined : List (List ℕ) → List ℕ
joined [] = []
joined (b ∷ blocks) = b ++ joined blocks

abbrev pub AreBlocks : List (List ℕ) → Type 0
AreBlocks = All (λ (b : List ℕ). length b ≡ 64)

absorb-append :
    (st : Md5State) (xs ys : List (List ℕ)) → absorb st (xs ++ ys) ≡ absorb (absorb st xs) ys
unfolding absorb
absorb-append st [] ys = refl
absorb-append st (x ∷ xs) ys = absorb-append (md5_transform st x) xs ys

joined-append : (xs ys : List (List ℕ)) → joined (xs ++ ys) ≡ joined xs ++ joined ys
unfolding joined
joined-append [] ys = refl
joined-append (x ∷ xs) ys =
    ap (λ (l : List ℕ). x ++ l) (joined-append xs ys) ∙ sym (append_assoc x (joined xs) (joined ys))

-- What the loop over whole blocks returns: the state behind the blocks, and fewer bytes than a block.
record Looped (st : Md5State) (bytes : List ℕ) (result : Md5State × List ℕ) : Type 0 where
  blocks : List (List ℕ)
  are_blocks : AreBlocks blocks
  state_is : result.0 ≡ absorb st blocks
  bytes_are : bytes ≡ joined blocks ++ result.1
  left_short : length result.1 < 64

transform_blocks-Looped :
    (fuel : ℕ) (st : Md5State) (bytes : List ℕ)
    → length bytes ≤ fuel
    → Looped st bytes (transform_blocks fuel st bytes)
unfolding transform_blocks absorb joined
transform_blocks-Looped zero st bytes h = record {
  blocks = [];
  are_blocks = tt;
  state_is = refl;
  bytes_are = refl;
  left_short = omega (arith, h);
}
transform_blocks-Looped (suc fuel) st bytes h = elim (Bool-cases (ltb 63 (length bytes))) [
  | inr short ↦ rw short (record {
    blocks = [];
    are_blocks = tt;
    state_is = refl;
    bytes_are = refl;
    left_short = ground (arith, short);
  })
  | inl long ↦
      let ih =
        transform_blocks-Looped fuel (md5_transform st (take 64 bytes)) (drop 64 bytes)
          (omega (arith, ltb→lt 63 (length bytes) long, h, length-drop 64 bytes)) in
      rw long (record {
        blocks = take 64 bytes ∷ ih.blocks;
        are_blocks =
            (omega (arith, ltb→lt 63 (length bytes) long, length-take 64 bytes), ih.are_blocks);
        state_is = ih.state_is;
        bytes_are =
            sym (take-append-drop 64 bytes)
            ∙ ap (λ (l : List ℕ). take 64 bytes ++ l) ih.bytes_are
            ∙ sym (append_assoc (take 64 bytes) (joined ih.blocks) _);
        left_short = ih.left_short;
      })
]

-- What stands in a buffer behind a write.
take-overlay : (bs out : List ℕ) → length bs ≤ length out → take (length bs) (overlay bs out) ≡ bs
take-overlay [] out h = refl
take-overlay (b ∷ bs) [] h = absurd (omega (arith, h))
take-overlay (b ∷ bs) (o ∷ out) h = ap (◌∷◌ b) (take-overlay bs out (omega (arith, h)))

take-write_at :
    (n : ℕ) (bs out : List ℕ)
    → n + length bs ≤ length out
    → take (n + length bs) (write_at n bs out) ≡ take n out ++ bs
take-write_at zero bs out h =
    ap (λ (k : ℕ). take k (overlay bs out)) same ∙ take-overlay bs out (omega (arith, h))
  where
    same : zero + length bs ≡ length bs
    same = omega arith
take-write_at (suc n) bs [] h = absurd (omega (arith, h))
take-write_at (suc n) bs (o ∷ out) h =
    ap (λ (k : ℕ). take k (o ∷ write_at n bs out)) same
    ∙ ap (◌∷◌ o) (take-write_at n bs out (omega (arith, h)))
  where
    same : suc n + length bs ≡ suc (n + length bs)
    same = omega arith

length-overlay : (bs out : List ℕ) → length (overlay bs out) ≡ length out
length-overlay [] out = refl
length-overlay (b ∷ bs) [] = refl
length-overlay (b ∷ bs) (o ∷ out) = ap (λ (k : ℕ). suc k) (length-overlay bs out)

length-write_at : (n : ℕ) (bs out : List ℕ) → length (write_at n bs out) ≡ length out
length-write_at zero bs out = length-overlay bs out
length-write_at (suc n) bs [] = refl
length-write_at (suc n) bs (o ∷ out) = ap (λ (k : ℕ). suc k) (length-write_at n bs out)

-- A context that was given the bytes `msg`: whole blocks are in the state, and the rest in the buffer.
pub record Holds (ctx : Md5Ctx) (msg : List ℕ) : Type 0 where
  pub blocks : List (List ℕ)
  pub tail : List ℕ
  pub are_blocks : AreBlocks blocks
  pub tail_short : length tail < 64
  pub message_is : msg ≡ joined blocks ++ tail
  pub state_is : ctx.state ≡ absorb initial_state blocks
  pub buffer_size : length ctx.buffer ≡ 64
  pub tail_is : take (length tail) ctx.buffer ≡ tail
  pub count_is : ctx.bit_count ≡ length msg * 8 % 2 ^ 64

pub length-joined : (blocks : List (List ℕ)) → AreBlocks blocks → length (joined blocks) % 64 ≡ 0
unfolding joined
length-joined [] h = refl
length-joined (b ∷ blocks) h =
    omega (arith, length-append b (joined blocks), h.0, length-joined blocks h.1)

module _ (ctx : Md5Ctx) (msg bytes : List ℕ) (h : Holds ctx msg) where
  pub index_is : bit_and (ctx.bit_count / 2 ^ 3) 0x3F ≡ length h.tail
  index_is =
      bit_and_mask 6 (ctx.bit_count / 8)
      ∙ omega (
        arith,
        h.count_is,
        ap length h.message_is,
        length-append (joined h.blocks) h.tail,
        length-joined h.blocks h.are_blocks,
        h.tail_short,
      )

  counted : (ctx.bit_count + length bytes * 2 ^ 3) % 2 ^ 64 ≡ length (msg ++ bytes) * 8 % 2 ^ 64
  counted = omega (arith, h.count_is, length-append msg bytes)

  -- Bytes that do not fill the buffer.
  kept :
      length h.tail + length bytes < 64
      → Holds
          (record {
            state = ctx.state;
            bit_count = (ctx.bit_count + length bytes * 2 ^ 3) % 2 ^ 64;
            buffer = write_at (length h.tail) bytes ctx.buffer;
          })
          (msg ++ bytes)
  kept small = record {
    blocks = h.blocks;
    tail = h.tail ++ bytes;
    are_blocks = h.are_blocks;
    tail_short = omega (arith, small, length-append h.tail bytes);
    message_is =
        ap (λ (l : List ℕ). l ++ bytes) h.message_is ∙ append_assoc (joined h.blocks) h.tail bytes;
    state_is = h.state_is;
    buffer_size = length-write_at (length h.tail) bytes ctx.buffer ∙ h.buffer_size;
    tail_is = rw (length-append h.tail bytes) (
        take-write_at (length h.tail) bytes ctx.buffer (omega (arith, small, h.buffer_size))
        ∙ ap (λ (l : List ℕ). l ++ bytes) h.tail_is);
    count_is = counted;
  }

  module _ (large : 64 ≤ length h.tail + length bytes) where
    abbrev part : List ℕ
    part = take (64 - length h.tail) bytes

    abbrev filled : List ℕ
    filled = write_at (length h.tail) part ctx.buffer

    length-part : length part ≡ 64 - length h.tail
    length-part = omega (arith, large, length-take (64 - length h.tail) bytes)

    filled_is : filled ≡ h.tail ++ part
    filled_is =
        sym (take-length filled)
        ∙ ap (λ (k : ℕ). take k filled) size
        ∙ take-write_at (length h.tail) part ctx.buffer
            (omega (arith, length-part, h.buffer_size, h.tail_short))
        ∙ ap (λ (l : List ℕ). l ++ part) h.tail_is
      where
        size : length filled ≡ length h.tail + length part
        size =
            length-write_at (length h.tail) part ctx.buffer
            ∙ omega (arith, h.buffer_size, length-part, h.tail_short)

    length-filled : length filled ≡ 64
    length-filled = length-write_at (length h.tail) part ctx.buffer ∙ h.buffer_size

    abbrev result : Md5State × List ℕ
    result =
        transform_blocks (length bytes) (md5_transform ctx.state filled)
          (drop (64 - length h.tail) bytes)

    loop : Looped (md5_transform ctx.state filled) (drop (64 - length h.tail) bytes) result
    loop =
        transform_blocks-Looped (length bytes) (md5_transform ctx.state filled)
          (drop (64 - length h.tail) bytes) (omega (arith, length-drop (64 - length h.tail) bytes))

    -- Bytes that fill the buffer, and perhaps more blocks.
    full : Holds (update_full (length h.tail) ctx bytes) (msg ++ bytes)
    unfolding update_full absorb joined
    full = record {
      blocks = h.blocks ++ filled ∷ loop.blocks;
      tail = result.1;
      are_blocks =
          All-append (λ (b : List ℕ). length b ≡ 64) h.blocks (filled ∷ loop.blocks) h.are_blocks
            (length-filled, loop.are_blocks);
      tail_short = loop.left_short;
      message_is = message;
      state_is =
          loop.state_is
          ∙ ap (λ (st : Md5State). absorb (md5_transform st filled) loop.blocks) h.state_is
          ∙ sym (absorb-append initial_state h.blocks (filled ∷ loop.blocks));
      buffer_size = length-write_at 0 result.1 filled ∙ length-filled;
      tail_is = take-overlay result.1 filled (omega (arith, loop.left_short, length-filled));
      count_is = counted;
    }
      where
        regroup : (a b c d e : List ℕ) → (a ++ b) ++ (c ++ (d ++ e)) ≡ (a ++ ((b ++ c) ++ d)) ++ e
        regroup a b c d e = simp append_assoc

        message : msg ++ bytes ≡ joined (h.blocks ++ filled ∷ loop.blocks) ++ result.1
        message =
            ap₂ (λ (x y : List ℕ). x ++ y) h.message_is
              (sym (take-append-drop (64 - length h.tail) bytes)
                ∙ ap (λ (l : List ℕ). part ++ l) loop.bytes_are)
            ∙ regroup (joined h.blocks) h.tail part (joined loop.blocks) result.1
            ∙ ap (λ (l : List ℕ). (joined h.blocks ++ (l ++ joined loop.blocks)) ++ result.1)
                (sym filled_is)
            ∙ ap (λ (l : List ℕ). l ++ result.1)
                (sym (joined-append h.blocks (filled ∷ loop.blocks)))

  -- In whatever pieces the bytes come, the context holds all of them.
  pub md5_update-Holds : Holds (md5_update ctx bytes) (msg ++ bytes)
  unfolding md5_update
  md5_update-Holds = rw index_is (elim (Bool-cases (leb (64 - length h.tail) (length bytes))) [
    | inl large ↦ rw large (full (ground (arith, large, h.tail_short)))
    | inr small ↦ rw small (kept (ground (arith, small, h.tail_short)))
  ])

pub md5_init-Holds : Holds md5_init []
unfolding absorb joined
md5_init-Holds = record {
  blocks = [];
  tail = [];
  are_blocks = tt;
  tail_short = omega arith;
  message_is = refl;
  state_is = refl;
  buffer_size = refl;
  tail_is = refl;
  count_is = refl;
}

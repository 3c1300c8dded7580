-- ===== src/Md5/Digest.antt =====
-- Md5Final and DeriveLongTermKey of src/voip/src/infrastructure/turn/turn_message.cpp, against MD5 of a
-- whole message as RFC 1321 describes it.
use vianium_voip.Common.{bit_and}
use vianium_voip.Common.{
  ℕ, zero, suc, ◌-◌, ◌*◌, ◌/◌, ◌%◌, ◌^◌, ◌≤◌, ◌≡◌, refl, sym, ap, ap₂, ◌∙◌, List, [], ◌∷◌, ◌++◌,
  length, take, drop, replicate, arith, append_assoc, append-nil, length-append, take-append_of_eq,
  drop-append_of_eq, subst,
}
use vianium_voip.Md5.{
  Md5Ctx, initial_state, md5_init, md5_update, md5_padding, count_bytes, state_bytes, pad_len,
  md5_final, update_text, derive_long_term_key,
}
use vianium_voip.Md5.Chunks.{
  absorb, joined, AreBlocks, Holds, index_is, length-joined, md5_update-Holds, md5_init-Holds,
}

-- The first `n` blocks of 64 bytes.
unfoldable pub blocks_of : ℕ → List ℕ → List (List ℕ)
blocks_of zero bytes = []
blocks_of (suc n) bytes = take 64 bytes ∷ blocks_of n (drop 64 bytes)

-- A byte 0x80, the fewest zeros and the number of bits, so that the blocks are whole.
unfoldable pub padding : List ℕ → List ℕ
padding message =
    (0x80 ∷ replicate ((119 - length message % 64) % 64) 0)
    ++ count_bytes (length message * 8 % 2 ^ 64)

-- MD5 of a whole message.
unfoldable pub md5 : List ℕ → List ℕ
md5 message =
    let padded = message ++ padding message in
    state_bytes (absorb initial_state (blocks_of (length padded / 64) padded))

take-replicate : (k n : ℕ) → k ≤ n → take {A = ℕ} k (replicate n 0) ≡ replicate k 0
take-replicate zero n h = refl
take-replicate (suc k) zero h = absurd (omega (arith, h))
take-replicate (suc k) (suc n) h = ap (◌∷◌ 0) (take-replicate k n (omega (arith, h)))

-- The padding that Md5Final takes from its table.
taken :
    (len index : ℕ)
    → index ≡ len % 64
    → take (pad_len index) md5_padding ≡ 0x80 ∷ replicate ((119 - len % 64) % 64) 0
taken len index e =
    ap (λ (k : ℕ). take k md5_padding) count
    ∙ ap (◌∷◌ 0x80) (take-replicate ((119 - len % 64) % 64) 63 (omega arith))
  where
    count : pad_len index ≡ suc ((119 - len % 64) % 64)
    count = unfold pad_len in ground (arith, e)

blocks_of-joined :
    (blocks : List (List ℕ)) → AreBlocks blocks → blocks_of (length blocks) (joined blocks) ≡ blocks
unfolding blocks_of joined
blocks_of-joined [] h = refl
blocks_of-joined (b ∷ blocks) h =
    ap₂ (λ (x : List ℕ) (l : List ℕ). x ∷ blocks_of (length blocks) l)
      (take-append_of_eq 64 b (joined blocks) (sym h.0))
      (drop-append_of_eq 64 b (joined blocks) (sym h.0))
    ∙ ap (◌∷◌ b) (blocks_of-joined blocks h.1)

count-joined :
    (blocks : List (List ℕ)) → AreBlocks blocks → length (joined blocks) ≡ 64 * length blocks
unfolding joined
count-joined [] h = refl
count-joined (b ∷ blocks) h =
    omega (arith, length-append b (joined blocks), h.0, count-joined blocks h.1)

-- A context that holds whole blocks only.
whole :
    (ctx : Md5Ctx) (msg : List ℕ)
    → Holds ctx msg
    → length msg % 64 ≡ 0
    → ctx.state ≡ absorb initial_state (blocks_of (length msg / 64) msg)
whole ctx msg h e = h.state_is ∙ ap (absorb initial_state) (sym blocks_are)
  where
    empty : (l : List ℕ) → length l ≡ 0 → l ≡ []
    empty [] p = refl
    empty (x ∷ l) p = absurd (omega (arith, p))

    msg_is : msg ≡ joined h.blocks
    msg_is =
        h.message_is
        ∙ ap (λ (l : List ℕ). joined h.blocks ++ l)
            (empty h.tail (
              omega (
                arith,
                e,
                ap length h.message_is,
                length-append (joined h.blocks) h.tail,
                length-joined h.blocks h.are_blocks,
                h.tail_short,
              )))
        ∙ append-nil (joined h.blocks)

    blocks_are : blocks_of (length msg / 64) msg ≡ h.blocks
    blocks_are =
        ap (λ (l : List ℕ). blocks_of (length l / 64) l) msg_is
        ∙ ap (λ (n : ℕ). blocks_of n (joined h.blocks))
            (omega (arith, count-joined h.blocks h.are_blocks))
        ∙ blocks_of-joined h.blocks h.are_blocks

length-replicate : (n : ℕ) → length (replicate {A = ℕ} n 0) ≡ n
length-replicate zero = refl
length-replicate (suc n) = ap (λ (k : ℕ). suc k) (length-replicate n)

md5_final_lem : (ctx : Md5Ctx) (msg : List ℕ) → Holds ctx msg → md5_final ctx ≡ md5 msg
unfolding md5_final md5 padding
md5_final_lem ctx msg h =
    ap state_bytes (whole (md5_update (md5_update ctx pad) cnt) ((msg ++ pad) ++ cnt) holds aligned)
    ∙ ap (λ (l : List ℕ). state_bytes (absorb initial_state (blocks_of (length l / 64) l))) same
  where
    pad : List ℕ
    pad = take (pad_len (bit_and (ctx.bit_count / 2 ^ 3) 0x3F)) md5_padding

    cnt : List ℕ
    cnt = count_bytes ctx.bit_count

    holds : Holds (md5_update (md5_update ctx pad) cnt) ((msg ++ pad) ++ cnt)
    holds = md5_update-Holds (md5_update ctx pad) (msg ++ pad) cnt (md5_update-Holds ctx msg pad h)

    tail_length : length h.tail ≡ length msg % 64
    tail_length = omega (
      arith,
      ap length h.message_is,
      length-append (joined h.blocks) h.tail,
      length-joined h.blocks h.are_blocks,
      h.tail_short,
    )

    pad_is : pad ≡ 0x80 ∷ replicate ((119 - length msg % 64) % 64) 0
    pad_is =
        taken (length msg) (bit_and (ctx.bit_count / 2 ^ 3) 0x3F)
          (index_is ctx msg pad h ∙ tail_length)

    same : (msg ++ pad) ++ cnt ≡ msg ++ padding msg
    same =
        append_assoc msg pad cnt
        ∙ ap₂ (λ (x y : List ℕ). msg ++ (x ++ y)) pad_is (ap count_bytes h.count_is)

    aligned : length ((msg ++ pad) ++ cnt) % 64 ≡ 0
    aligned =
        unfold count_bytes in
        omega (
          arith,
          length-append (msg ++ pad) cnt,
          length-append msg pad,
          ap length pad_is,
          length-replicate ((119 - length msg % 64) % 64),
        )

update_text-Holds :
    (text : List ℕ) (ctx : Md5Ctx) (msg : List ℕ)
    → Holds ctx msg
    → Holds (update_text text ctx) (msg ++ text)
unfolding update_text
update_text-Holds [] ctx msg h = subst (Holds ctx) (sym (append-nil msg)) h
update_text-Holds (c ∷ cs) ctx msg h =
    subst (λ (ctx' : Md5Ctx). Holds ctx' (msg ++ c ∷ cs)) (sym fed)
      (md5_update-Holds ctx msg (c ∷ cs) h)
  where
    fed : update_text (c ∷ cs) ctx ≡ md5_update ctx (c ∷ cs)
    fed = ground arith

-- DeriveLongTermKey, which feeds the three parts and the colons piece by piece through the buffer of the
-- context, computes MD5, as RFC 1321 describes it on a whole message, of the user name, a colon, the realm,
-- a colon and the password, for all texts, also empty ones and those of more than a block.
pub derive_long_term_key_lem :
    (username realm password : List ℕ)
    → derive_long_term_key username realm password
      ≡ md5 (username ++ b':' ∷ (realm ++ b':' ∷ password))
unfolding derive_long_term_key
derive_long_term_key_lem username realm password =
    md5_final_lem _ _ (
      update_text-Holds password _ _ (
        md5_update-Holds _ _ (b':' ∷ []) (
          update_text-Holds realm _ _ (
            md5_update-Holds _ _ (b':' ∷ [])
              (update_text-Holds username md5_init [] md5_init-Holds)))))
    ∙ ap md5 (simp append_assoc)

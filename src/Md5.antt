-- ===== src/Md5.antt =====
-- The MD5 functions of src/voip/src/infrastructure/turn/turn_message.cpp, and DeriveLongTermKey.
pub mod Chunks
pub mod Digest
use vianium_voip.Common.{◌%◌}
use vianium_voip.Common.{
  ℕ, zero, suc, ◌+◌, ◌-◌, ◌*◌, ◌/◌, ◌^◌, List, [], ◌∷◌, ◌++◌, ltb, leb, ◌==◌, if◌then◌else◌, length,
  take, drop, replicate, bit_and, bit_or, bit_xor, get_or,
}
use vianium_voip.Bytes.{u32, read_le32, write_le32, low_byte, write_at}

-- The four words.
pub record Md5State : Type 0 where
  pub a : ℕ
  pub b : ℕ
  pub c : ℕ
  pub d : ℕ

pub record Md5Ctx : Type 0 where
  pub state : Md5State
  pub bit_count : ℕ
  pub buffer : List ℕ

-- `~x` of 32 bits.
abbrev not32 : ℕ → ℕ
not32 x = 0xffff_ffff - x

unfoldable pub rotl32 : ℕ → ℕ → ℕ
rotl32 x s = bit_or (u32 (x * 2 ^ s)) (x / 2 ^ (32 - s))

abbrev md5_f : ℕ → ℕ → ℕ → ℕ
md5_f x y z = bit_or (bit_and x y) (bit_and (not32 x) z)

abbrev md5_g : ℕ → ℕ → ℕ → ℕ
md5_g x y z = bit_or (bit_and x z) (bit_and y (not32 z))

abbrev md5_h : ℕ → ℕ → ℕ → ℕ
md5_h x y z = bit_xor (bit_xor x y) z

abbrev md5_i : ℕ → ℕ → ℕ → ℕ
md5_i x y z = bit_xor y (bit_or x (not32 z))

-- MD5_FF, MD5_GG, MD5_HH and MD5_II with their function, where the next step takes the words one place
-- further: a step changes `a`, and the next one has the changed word as its `b`.
unfoldable pub md5_step : (ℕ → ℕ → ℕ → ℕ) → ℕ → ℕ → ℕ → Md5State → Md5State
md5_step f x s ac st =
    let added = u32 (st.a + f st.b st.c st.d + x + ac) in
    record { a = st.d; b = u32 (rotl32 added s + st.b); c = st.b; d = st.c }

-- The steps of a round: the word of the block, the shift and the constant of each.
unfoldable pub md5_round : (ℕ → ℕ → ℕ → ℕ) → List (ℕ × ℕ × ℕ) → List ℕ → Md5State → Md5State
md5_round f [] x st = st
md5_round f ((k, s, ac) ∷ steps) x st = md5_round f steps x (md5_step f (get_or x k 0) s ac st)

abbrev round_1 : List (ℕ × ℕ × ℕ)
round_1 =
    (0, 7, 0xd76aa478)
    ∷ (1, 12, 0xe8c7b756)
    ∷ (2, 17, 0x242070db)
    ∷ (3, 22, 0xc1bdceee)
    ∷ (4, 7, 0xf57c0faf)
    ∷ (5, 12, 0x4787c62a)
    ∷ (6, 17, 0xa8304613)
    ∷ (7, 22, 0xfd469501)
    ∷ (8, 7, 0x698098d8)
    ∷ (9, 12, 0x8b44f7af)
    ∷ (10, 17, 0xffff5bb1)
    ∷ (11, 22, 0x895cd7be)
    ∷ (12, 7, 0x6b901122)
    ∷ (13, 12, 0xfd987193)
    ∷ (14, 17, 0xa679438e)
    ∷ (15, 22, 0x49b40821)
    ∷ []

abbrev round_2 : List (ℕ × ℕ × ℕ)
round_2 =
    (1, 5, 0xf61e2562)
    ∷ (6, 9, 0xc040b340)
    ∷ (11, 14, 0x265e5a51)
    ∷ (0, 20, 0xe9b6c7aa)
    ∷ (5, 5, 0xd62f105d)
    ∷ (10, 9, 0x02441453)
    ∷ (15, 14, 0xd8a1e681)
    ∷ (4, 20, 0xe7d3fbc8)
    ∷ (9, 5, 0x21e1cde6)
    ∷ (14, 9, 0xc33707d6)
    ∷ (3, 14, 0xf4d50d87)
    ∷ (8, 20, 0x455a14ed)
    ∷ (13, 5, 0xa9e3e905)
    ∷ (2, 9, 0xfcefa3f8)
    ∷ (7, 14, 0x676f02d9)
    ∷ (12, 20, 0x8d2a4c8a)
    ∷ []

abbrev round_3 : List (ℕ × ℕ × ℕ)
round_3 =
    (5, 4, 0xfffa3942)
    ∷ (8, 11, 0x8771f681)
    ∷ (11, 16, 0x6d9d6122)
    ∷ (14, 23, 0xfde5380c)
    ∷ (1, 4, 0xa4beea44)
    ∷ (4, 11, 0x4bdecfa9)
    ∷ (7, 16, 0xf6bb4b60)
    ∷ (10, 23, 0xbebfbc70)
    ∷ (13, 4, 0x289b7ec6)
    ∷ (0, 11, 0xeaa127fa)
    ∷ (3, 16, 0xd4ef3085)
    ∷ (6, 23, 0x04881d05)
    ∷ (9, 4, 0xd9d4d039)
    ∷ (12, 11, 0xe6db99e5)
    ∷ (15, 16, 0x1fa27cf8)
    ∷ (2, 23, 0xc4ac5665)
    ∷ []

abbrev round_4 : List (ℕ × ℕ × ℕ)
round_4 =
    (0, 6, 0xf4292244)
    ∷ (7, 10, 0x432aff97)
    ∷ (14, 15, 0xab9423a7)
    ∷ (5, 21, 0xfc93a039)
    ∷ (12, 6, 0x655b59c3)
    ∷ (3, 10, 0x8f0ccc92)
    ∷ (10, 15, 0xffeff47d)
    ∷ (1, 21, 0x85845dd1)
    ∷ (8, 6, 0x6fa87e4f)
    ∷ (15, 10, 0xfe2ce6e0)
    ∷ (6, 15, 0xa3014314)
    ∷ (13, 21, 0x4e0811a1)
    ∷ (4, 6, 0xf7537e82)
    ∷ (11, 10, 0xbd3af235)
    ∷ (2, 15, 0x2ad7d2bb)
    ∷ (9, 21, 0xeb86d391)
    ∷ []

-- The 16 words of a block.
unfoldable pub block_words : ℕ → List ℕ → List ℕ
block_words zero block = []
block_words (suc n) block = read_le32 block ∷ block_words n (drop 4 block)

unfoldable pub md5_transform : Md5State → List ℕ → Md5State
md5_transform st block =
    let x = block_words 16 block in
    let last =
      md5_round md5_i round_4 x
        (md5_round md5_h round_3 x (md5_round md5_g round_2 x (md5_round md5_f round_1 x st))) in
    record {
      a = u32 (st.a + last.a);
      b = u32 (st.b + last.b);
      c = u32 (st.c + last.c);
      d = u32 (st.d + last.d);
    }

abbrev pub initial_state : Md5State
initial_state = record { a = 0x67452301; b = 0xefcdab89; c = 0x98badcfe; d = 0x10325476 }

abbrev pub md5_init : Md5Ctx
md5_init = record { state = initial_state; bit_count = 0; buffer = replicate 64 0 }

-- The loop over whole blocks, on fuel: the state, and the bytes that are left.
unfoldable pub transform_blocks : ℕ → Md5State → List ℕ → Md5State × List ℕ
transform_blocks zero st bytes = (st, bytes)
transform_blocks (suc fuel) st bytes =
    let rest = transform_blocks fuel (md5_transform st (take 64 bytes)) (drop 64 bytes) in
    if ltb 63 (length bytes) then rest else (st, bytes)

-- The branch in which the buffer is filled.
unfoldable pub update_full : ℕ → Md5Ctx → List ℕ → Md5Ctx
update_full index ctx bytes =
    let filled = write_at index (take (64 - index) bytes) ctx.buffer in
    let (st, left) =
      transform_blocks (length bytes) (md5_transform ctx.state filled) (drop (64 - index) bytes) in
    record {
      state = st;
      bit_count = (ctx.bit_count + length bytes * 2 ^ 3) % 2 ^ 64;
      buffer = write_at 0 left filled;
    }

unfoldable pub md5_update : Md5Ctx → List ℕ → Md5Ctx
md5_update ctx bytes =
    let index = bit_and (ctx.bit_count / 2 ^ 3) 0x3F in
    if leb (64 - index) (length bytes) then update_full index ctx bytes else (record {
      state = ctx.state;
      bit_count = (ctx.bit_count + length bytes * 2 ^ 3) % 2 ^ 64;
      buffer = write_at index bytes ctx.buffer;
    })

abbrev pub md5_padding : List ℕ
md5_padding = 0x80 ∷ replicate 63 0

-- The eight bytes of the bit count, the lowest first.
unfoldable pub count_bytes : ℕ → List ℕ
count_bytes n =
    low_byte n
    ∷ low_byte (n / 2 ^ 8)
    ∷ low_byte (n / 2 ^ 16)
    ∷ low_byte (n / 2 ^ 24)
    ∷ low_byte (n / 2 ^ 32)
    ∷ low_byte (n / 2 ^ 40)
    ∷ low_byte (n / 2 ^ 48)
    ∷ low_byte (n / 2 ^ 56)
    ∷ []

unfoldable pub state_bytes : Md5State → List ℕ
state_bytes st = write_le32 st.a ++ (write_le32 st.b ++ (write_le32 st.c ++ write_le32 st.d))

unfoldable pub pad_len : ℕ → ℕ
pad_len index = if ltb index 56 then 56 - index else 120 - index

unfoldable pub md5_final : Md5Ctx → List ℕ
md5_final ctx =
    let index = bit_and (ctx.bit_count / 2 ^ 3) 0x3F in
    let padded = md5_update ctx (take (pad_len index) md5_padding) in
    state_bytes (md5_update padded (count_bytes ctx.bit_count)).state

-- `if (!text.empty()) Md5Update(...)`
unfoldable pub update_text : List ℕ → Md5Ctx → Md5Ctx
update_text text ctx = if length text == 0 then ctx else md5_update ctx text

unfoldable pub derive_long_term_key : List ℕ → List ℕ → List ℕ → List ℕ
derive_long_term_key username realm password =
    let named = md5_update (update_text username md5_init) (b':' ∷ []) in
    let placed = md5_update (update_text realm named) (b':' ∷ []) in
    md5_final (update_text password placed)

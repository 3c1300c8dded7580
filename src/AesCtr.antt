-- ===== src/AesCtr.antt =====
-- AES in counter mode: AesCtrXcrypt of src/voip/src/domain/tgcalls_signaling_codec.cpp and
-- SrtpAesCtr::Encrypt of src/voip/src/infrastructure/srtp/srtp_aes_ctr.cpp, which run the same loop.
-- The block cipher with its key set is a parameter.
pub mod Laws
pub mod Counter
use vianium_voip.Common.{
  ℕ, zero, suc, ◌+◌, List, [], ◌∷◌, ◌++◌, Bool, true, false, ◌==◌, if◌then◌else◌, length, take,
  drop, bit_xor,
}
use vianium_voip.Bytes.{u8}

-- The loop from the last byte to the first: the counter after it, and whether it is still to go on,
-- which it is as long as each byte has become zero.
unfoldable pub bump : List ℕ → List ℕ × Bool
bump [] = ([], true)
bump (b ∷ bs) =
    let rest = bump bs in
    let next = u8 (b + 1) in if rest.1 then (next ∷ rest.0, next == 0) else (b ∷ rest.0, false)

unfoldable pub increment_counter : List ℕ → List ℕ
increment_counter counter = (bump counter).0

-- `out[i] = in[i] ^ keystream[i]` for the bytes of a chunk, which has no more bytes than a block.
unfoldable pub xor_bytes : List ℕ → List ℕ → List ℕ
xor_bytes [] ks = []
xor_bytes (b ∷ bs) [] = b ∷ bs
xor_bytes (b ∷ bs) (k ∷ ks) = bit_xor b k ∷ xor_bytes bs ks

-- `while (produced < length)`, on fuel: a round takes a byte at least.
unfoldable pub ctr_loop : (List ℕ → List ℕ) → ℕ → List ℕ → List ℕ → List ℕ
ctr_loop block zero counter bytes = []
ctr_loop block (suc fuel) counter [] = []
ctr_loop block (suc fuel) counter (b ∷ bytes) =
    xor_bytes (take 16 (b ∷ bytes)) (block counter)
    ++ ctr_loop block fuel (increment_counter counter) (drop 16 (b ∷ bytes))

unfoldable pub ctr_xcrypt : (List ℕ → List ℕ) → List ℕ → List ℕ → List ℕ
ctr_xcrypt block iv bytes = ctr_loop block (length bytes) iv bytes

-- ===== src/PacketCrypto/Ige.antt =====
-- EncryptIge and DecryptIge of src/voip/src/domain/voip_packet_crypto.cpp: AES-256 in IGE mode, with
-- the cipher of a block as a parameter.
pub mod Laws
use vianium_voip.Common.{
  ℕ, zero, suc, ◌/◌, ◌%◌, ◌≡◌, List, [], ◌∷◌, ◌++◌, ◌||◌, not, ◌==◌, if◌then◌else◌, length, take,
  drop, Option, none, some, bit_xor,
}
use vianium_voip.Bytes.{AreBytes}

-- AES-256 of a block by key and block, and SHA-256: what the code relies on.
pub record AesSha : Type 0 where
  pub encrypt_block : List ℕ → List ℕ → List ℕ
  pub decrypt_block : List ℕ → List ℕ → List ℕ
  pub sha256 : List ℕ → List ℕ
  pub encrypt_size : (key block : List ℕ) → length (encrypt_block key block) ≡ 16
  pub encrypt_bytes : (key block : List ℕ) → AreBytes (encrypt_block key block)
  pub decrypt_size : (key block : List ℕ) → length (decrypt_block key block) ≡ 16
  pub decrypt-encrypt_block :
      (key block : List ℕ)
      → length block ≡ 16
      → AreBytes block
      → decrypt_block key (encrypt_block key block) ≡ block
  pub sha256_size : (bytes : List ℕ) → length (sha256 bytes) ≡ 32
  pub sha256_bytes : (bytes : List ℕ) → AreBytes (sha256 bytes)

unfoldable pub xor16 : List ℕ → List ℕ → List ℕ
xor16 [] ys = []
xor16 (a ∷ xs) [] = []
xor16 (a ∷ xs) (b ∷ ys) = bit_xor a b ∷ xor16 xs ys

module _ (crypto : AesSha) (key : List ℕ) where
  -- The loop over the blocks, with the previous blocks of ciphertext and of plain text.
  unfoldable pub encrypt_blocks : ℕ → List ℕ → List ℕ → List ℕ → List ℕ
  encrypt_blocks zero prev_c prev_p bytes = []
  encrypt_blocks (suc blocks) prev_c prev_p bytes =
      let cur_p = take 16 bytes in
      let c_block = xor16 (crypto.encrypt_block key (xor16 cur_p prev_c)) prev_p in
      c_block ++ encrypt_blocks blocks c_block cur_p (drop 16 bytes)

  unfoldable pub decrypt_blocks : ℕ → List ℕ → List ℕ → List ℕ → List ℕ
  decrypt_blocks zero prev_c prev_p bytes = []
  decrypt_blocks (suc blocks) prev_c prev_p bytes =
      let cur_c = take 16 bytes in
      let p_block = xor16 (crypto.decrypt_block key (xor16 cur_c prev_p)) prev_c in
      p_block ++ decrypt_blocks blocks cur_c p_block (drop 16 bytes)

  -- `none` where the function returns false.
  unfoldable pub encrypt_ige : List ℕ → List ℕ → Option (List ℕ)
  encrypt_ige iv bytes =
      if length bytes == 0 || not (length bytes % 16 == 0)
      then none
      else some (encrypt_blocks (length bytes / 16) (take 16 iv) (take 16 (drop 16 iv)) bytes)

  unfoldable pub decrypt_ige : List ℕ → List ℕ → Option (List ℕ)
  decrypt_ige iv bytes =
      if length bytes == 0 || not (length bytes % 16 == 0)
      then none
      else some (decrypt_blocks (length bytes / 16) (take 16 iv) (take 16 (drop 16 iv)) bytes)

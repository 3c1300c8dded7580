-- ===== src/Tests/Packet.antt =====
-- The relay packet on concrete inputs, with a complement in the place of the block cipher.
use vianium_voip.Bytes.Compare.{slice, bytes_equal}
use vianium_voip.Common.{
  ◌≤◌, ℕ, zero, suc, ◌+◌, ◌-◌, ◌%◌, ◌<◌, ◌≡◌, refl, sym, ap, ap₂, ◌∙◌, List, [], ◌∷◌, ◌++◌, true,
  false, arith, length, take, replicate, length-append, length-take, take-append_of_eq,
}
use vianium_voip.Bytes.{AreBytes, write_le16, low_byte, read_le16}
use vianium_voip.PacketCrypto.Ige.{
  AesSha, encrypt_ige, decrypt_ige, encrypt_blocks, decrypt_blocks, xor16,
}
use vianium_voip.PacketCrypto.{
  success, pad_len, encrypt_relay_packet, decrypt_relay_packet, message_key, seal, open_decrypted,
  direction_offset, kdf2, same_peer_tag, padded,
}
use vianium_voip.PacketCrypto.RoundTrip.{decrypt-encrypt_relay_packet}
use vianium_voip.PacketCrypto.Authentic.{IsAuthentic, decrypt_accepts_relay_packet}

complement : List ℕ → List ℕ
complement [] = []
complement (b ∷ bs) = (255 - b % 256) ∷ complement bs

length-complement : (bs : List ℕ) → length (complement bs) ≡ length bs
unfolding complement
length-complement [] = refl
length-complement (b ∷ bs) = omega (arith, length-complement bs)

complement-AreBytes : (bs : List ℕ) → AreBytes (complement bs)
unfolding complement
complement-AreBytes [] = tt
complement-AreBytes (b ∷ bs) = (omega arith, complement-AreBytes bs)

complement_twice : (bs : List ℕ) → AreBytes bs → complement (complement bs) ≡ bs
unfolding complement
complement_twice [] h = refl
complement_twice (b ∷ bs) h =
    ap₂ (λ (x : ℕ) (l : List ℕ). x ∷ l) (omega (arith, h.0)) (complement_twice bs h.1)

-- The complement of the first 16 bytes.
toy_block : List ℕ → List ℕ → List ℕ
toy_block key block = complement (take 16 (block ++ replicate 16 0))

length-toy_block : (key block : List ℕ) → length (toy_block key block) ≡ 16
unfolding toy_block
length-toy_block key block =
    length-complement (take 16 (block ++ replicate 16 0))
    ∙ omega (arith, length-take 16 (block ++ replicate 16 0), length-append block (replicate 16 0))

toy_block-AreBytes : (key block : List ℕ) → AreBytes (toy_block key block)
unfolding toy_block
toy_block-AreBytes key block = complement-AreBytes (take 16 (block ++ replicate 16 0))

whole : (block : List ℕ) → length block ≡ 16 → take 16 (block ++ replicate 16 0) ≡ block
whole block size = take-append_of_eq 16 block (replicate 16 0) (sym size)

toy_block_twice :
    (key block : List ℕ)
    → length block ≡ 16
    → AreBytes block
    → toy_block key (toy_block key block) ≡ block
unfolding toy_block
toy_block_twice key block size bytes =
    ap (λ (l : List ℕ). complement (take 16 (complement l ++ replicate 16 0))) (whole block size)
    ∙ ap complement (whole (complement block) (length-complement block ∙ size))
    ∙ complement_twice block bytes

toy_digest : List ℕ → List ℕ
toy_digest bytes = replicate 32 (length bytes % 256)

toy_digest-AreBytes : (n b : ℕ) → b < 256 → AreBytes (replicate n b)
toy_digest-AreBytes zero b h = tt
toy_digest-AreBytes (suc n) b h = (h, toy_digest-AreBytes n b h)

abbrev toy : AesSha
toy = record {
  encrypt_block = toy_block;
  decrypt_block = toy_block;
  sha256 = λ bytes. replicate 32 (length bytes % 256);
  encrypt_size = length-toy_block;
  encrypt_bytes = toy_block-AreBytes;
  decrypt_size = length-toy_block;
  decrypt-encrypt_block = toy_block_twice;
  sha256_size = λ bytes. refl;
  sha256_bytes = λ bytes. toy_digest-AreBytes 32 (length bytes % 256) (omega arith);
}

abbrev key : List ℕ
key = replicate 256 7

abbrev tag : List ℕ
tag = replicate 16 9

decrypt-encrypt_relay_packet_example :
    (packet : List ℕ) × (n : ℕ) × (encrypt_relay_packet toy
        (λ n. replicate n 1)
        key
        true
        tag
        (1 ∷ 2 ∷ 3 ∷ [])
      ≡ success packet (1 ∷ 2 ∷ 3 ∷ []))
    × (decrypt_relay_packet toy key false tag packet ≡ success packet (1 ∷ 2 ∷ 3 ∷ []))
    × (16 ≤ length {A = ℕ} (replicate n 1))
    × (length {A = ℕ} (replicate n 1) ≤ 31)
    × ((2 + 3 + length {A = ℕ} (replicate n 1)) % 16 ≡ 0)
    × (length packet ≡ 34 + 3 + length {A = ℕ} (replicate n 1))
    × (take 16 packet ≡ tag)
    × (slice packet 16 16
        ≡ slice
            (toy.sha256
              (slice key (88 + 0) 32 ++ (write_le16 3 ++ ((1 ∷ 2 ∷ 3 ∷ []) ++ replicate n 1))))
            8
            16)
decrypt-encrypt_relay_packet_example =
    decrypt-encrypt_relay_packet toy (λ n. replicate n 1) length-ones
      (λ n. toy_digest-AreBytes n 1 (omega arith)) key tag (1 ∷ 2 ∷ 3 ∷ []) true refl refl
      (omega arith) (omega arith)
  where
    length-ones : (n : ℕ) → length {A = ℕ} (replicate n 1) ≡ n
    length-ones zero = refl
    length-ones (suc n) = omega (arith, length-ones n)

-- What the caller made of three bytes.
abbrev sent : List ℕ
sent =
    tag ++ (replicate 16 64 ++ (252 ∷ 255 ∷ 254 ∷ 253 ∷ 252 ∷ (replicate 11 254 ++ replicate 16 1)))

sent_lem :
    encrypt_relay_packet toy (λ n. replicate n 1) key true tag (1 ∷ 2 ∷ 3 ∷ [])
    ≡ success sent (1 ∷ 2 ∷ 3 ∷ [])
unfolding encrypt_relay_packet seal message_key kdf2 padded pad_len direction_offset encrypt_ige
    encrypt_blocks xor16 toy_block complement write_le16 low_byte
sent_lem = refl

received_lem : decrypt_relay_packet toy key false tag sent ≡ success sent (1 ∷ 2 ∷ 3 ∷ [])
unfolding decrypt_relay_packet open_decrypted message_key kdf2 same_peer_tag direction_offset
    decrypt_ige decrypt_blocks xor16 toy_block complement bytes_equal read_le16
received_lem = refl

decrypt_accepts_relay_packet_example :
    IsAuthentic toy key false tag sent (1 ∷ 2 ∷ 3 ∷ []) × (sent ≡ sent)
decrypt_accepts_relay_packet_example =
    decrypt_accepts_relay_packet toy key false tag sent sent (1 ∷ 2 ∷ 3 ∷ []) received_lem

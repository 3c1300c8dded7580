-- ===== src/PacketCrypto/RoundTrip.antt =====
-- EncryptRelayPacketMtProto2Short and DecryptRelayPacketMtProto2Short of
-- src/voip/src/domain/voip_packet_crypto.cpp against one another.
use vianium_voip.Common.{
  ℕ, suc, ◌+◌, ◌*◌, ◌/◌, ◌%◌, ◌<◌, ◌≤◌, ◌≡◌, refl, sym, ap, ◌∙◌, List, ◌++◌, Bool, true, false, not,
  ◌||◌, if◌then◌else◌, ltb, ltb-false, ◌==◌, ==_iff, length, take, drop, arith, some, All-append,
  All-take, All-drop, length-append, length-take, take-append_of_eq, drop-append_of_eq,
  drop-append_add,
}
use vianium_voip.Bytes.{IsByte, AreBytes, u16, write_le16, read_le16}
use vianium_voip.Bytes.Laws.{read-write_le16, write_le16-AreBytes}
use vianium_voip.Bytes.Compare.{slice, length-slice, bytes_equal_self}
use vianium_voip.PacketCrypto.Ige.{AesSha, encrypt_ige, decrypt_ige}
use vianium_voip.PacketCrypto.Ige.Laws.{decrypt-encrypt_ige}
use vianium_voip.PacketCrypto.{
  success, same_peer_tag, direction_offset, pad_len, kdf2, message_key, padded, seal,
  open_decrypted, encrypt_relay_packet, decrypt_relay_packet,
}

-- The sender's direction is the one in which the other side receives.
mirrored :
    (local_is_outgoing : Bool)
    → direction_offset (not local_is_outgoing) false ≡ direction_offset local_is_outgoing true
unfolding direction_offset
mirrored true = refl
mirrored false = refl

-- From 16 to 31 bytes, which fill the last block.
pub pad_len_bounds :
    (inner : ℕ) → (16 ≤ pad_len inner) × (pad_len inner < 32) × ((inner + pad_len inner) % 16 ≡ 0)
unfolding pad_len
pad_len_bounds inner = ground arith

module _ (crypto : AesSha) where
  length-kdf2 : (shared key : List ℕ) (x : ℕ) → length (kdf2 crypto shared key x).1 ≡ 32
  unfolding kdf2
  length-kdf2 shared key x = omega (
    arith,
    length-append (take 8 b) (slice a 8 16 ++ slice b 24 8),
    length-append (slice a 8 16) (slice b 24 8),
    length-take 8 b,
    length-slice a 8 16 (omega (arith, crypto.sha256_size (key ++ slice shared x 36))),
    length-slice b 24 8 (omega (arith, size_b)),
    size_b,
  )
    where
      a : List ℕ
      a = crypto.sha256 (key ++ slice shared x 36)

      b : List ℕ
      b = crypto.sha256 (slice shared (40 + x) 36 ++ key)

      size_b : length b ≡ 32
      size_b = crypto.sha256_size (slice shared (40 + x) 36 ++ key)

  slice-AreBytes : (bs : List ℕ) (o n : ℕ) → AreBytes bs → AreBytes (slice bs o n)
  slice-AreBytes bs o n h = All-take IsByte n (drop o bs) (All-drop IsByte o bs h)

  kdf2-AreBytes : (shared key : List ℕ) (x : ℕ) → AreBytes (kdf2 crypto shared key x).1
  unfolding kdf2
  kdf2-AreBytes shared key x =
      All-append IsByte (take 8 b) (slice a 8 16 ++ slice b 24 8)
        (All-take IsByte 8 b (crypto.sha256_bytes _))
        (All-append IsByte (slice a 8 16) (slice b 24 8)
          (slice-AreBytes a 8 16 (crypto.sha256_bytes _))
          (slice-AreBytes b 24 8 (crypto.sha256_bytes _)))
    where
      a : List ℕ
      a = crypto.sha256 (key ++ slice shared x 36)

      b : List ℕ
      b = crypto.sha256 (slice shared (40 + x) 36 ++ key)

  pub length-message_key :
      (shared : List ℕ) (x : ℕ) (inner : List ℕ) → length (message_key crypto shared x inner) ≡ 16
  unfolding message_key
  length-message_key shared x inner =
      length-slice (crypto.sha256 (slice shared (88 + x) 32 ++ inner)) 8 16
        (omega (arith, crypto.sha256_size (slice shared (88 + x) 32 ++ inner)))

  module _ (random : ℕ → List ℕ) (random_size : (n : ℕ) → length (random n) ≡ n)
      (random_bytes : (n : ℕ) → AreBytes (random n)) (shared tag plain : List ℕ) (outgoing : Bool)
      (shared_size : length shared ≡ 256) (tag_size : length tag ≡ 16)
      (plain_size : (0 < length plain) × (length plain ≤ 1200)) (plain_bytes : AreBytes plain) where
    abbrev inner : List ℕ
    inner = padded crypto random plain

    abbrev x : ℕ
    x = direction_offset outgoing true

    abbrev msg_key : List ℕ
    msg_key = message_key crypto shared x inner

    length-inner : length inner ≡ 2 + length plain + pad_len (2 + length plain)
    unfolding padded write_le16
    length-inner = omega (
      arith,
      length-append plain (random (pad_len (2 + length plain))),
      random_size (pad_len (2 + length plain)),
    )

    inner-AreBytes : AreBytes inner
    unfolding padded
    inner-AreBytes =
        All-append IsByte (write_le16 (u16 (length plain)))
          (plain ++ random (pad_len (2 + length plain))) (write_le16-AreBytes (u16 (length plain)))
          (All-append IsByte plain (random (pad_len (2 + length plain))) plain_bytes
            (random_bytes (pad_len (2 + length plain))))

    read-inner : read_le16 inner ≡ length plain
    unfolding padded
    read-inner =
        read-write_le16 (u16 (length plain)) (plain ++ random (pad_len (2 + length plain)))
          (omega arith)
        ∙ omega (arith, plain_size)

    slice-inner : slice inner 2 (length plain) ≡ plain
    unfolding padded write_le16
    slice-inner = take-append_of_eq (length plain) plain (random (pad_len (2 + length plain))) refl

    -- The receiver's checks accept what the sender padded.
    opens :
        (bytes : List ℕ) → open_decrypted crypto shared x bytes msg_key inner ≡ success bytes plain
    unfolding open_decrypted
    opens bytes =
        rw (bytes_equal_self msg_key, read-inner, slice-inner)
          (ground (arith, length-inner, plain_size, pad_len_bounds (2 + length plain)))

    abbrev derived : List ℕ × List ℕ
    derived = kdf2 crypto shared msg_key x

    module _ (coded : List ℕ) (coded_by : encrypt_ige crypto derived.0 derived.1 inner ≡ some coded)
        (coded_back : decrypt_ige crypto derived.0 derived.1 coded ≡ some inner)
        (coded_size : length coded ≡ length inner) where
      abbrev packet : List ℕ
      packet = tag ++ (msg_key ++ coded)

      length-packet : length packet ≡ 34 + length plain + pad_len (2 + length plain)
      length-packet = omega (
        arith,
        tag_size,
        length-append tag (msg_key ++ coded),
        length-append msg_key coded,
        length-message_key shared x inner,
        coded_size,
        length-inner,
      )

      seals : seal crypto shared x tag plain inner ≡ success packet plain
      unfolding seal
      seals = rw (coded_by, seal)

      encrypts : encrypt_relay_packet crypto random shared outgoing tag plain ≡ success packet plain
      unfolding encrypt_relay_packet
      encrypts =
          rw ((==_iff (length shared) 256).1 shared_size, (==_iff (length tag) 16).1 tag_size, fits)
            seals
        where
          fits : (length plain == 0 || ltb 1200 (length plain)) ≡ false
          fits = ground (arith, plain_size)

      same_tag : same_peer_tag packet tag ≡ true
      unfolding same_peer_tag
      same_tag =
          rw (take-append_of_eq 16 tag (msg_key ++ coded) (sym tag_size), bytes_equal_self tag)
            (ground (arith, tag_size))

      key_part : slice packet 16 16 ≡ msg_key
      key_part =
          ap (take 16) (drop-append_of_eq 16 tag (msg_key ++ coded) (sym tag_size))
          ∙ take-append_of_eq 16 msg_key coded (sym (length-message_key shared x inner))

      coded_part : drop 32 packet ≡ coded
      coded_part =
          drop-append_add 32 16 tag (msg_key ++ coded) (omega (arith, tag_size))
          ∙ drop-append_of_eq 16 msg_key coded (sym (length-message_key shared x inner))

      aligned : (length coded % 16 == 0) ≡ true
      aligned =
          (==_iff (length coded % 16) 0).1
            (omega (arith, coded_size, length-inner, pad_len_bounds (2 + length plain)))

      decrypts : decrypt_relay_packet crypto shared (not outgoing) tag packet ≡ success packet plain
      unfolding decrypt_relay_packet
      decrypts =
          rw
            (
              (==_iff (length shared) 256).1 shared_size,
              same_tag,
              ltb-false (length packet) 48
                  (omega (arith, length-packet, plain_size, pad_len_bounds (2 + length plain))),
              key_part,
              coded_part,
              aligned,
              mirrored outgoing,
              coded_back,
            )
            (rw (key_part, mirrored outgoing, opens packet) (ground (arith, tag_size)))

    whole_blocks : length inner ≡ 16 * suc ((1 + length plain + pad_len (2 + length plain)) / 16)
    whole_blocks = omega (arith, length-inner, pad_len_bounds (2 + length plain))

    -- The padding, what was encrypted with it, and the part of the shared key that is hashed.
    abbrev padding : List ℕ
    padding = random (pad_len (2 + length plain))

    padding-bounds :
        (16 ≤ length padding)
        × (length padding ≤ 31)
        × ((2 + length plain + length padding) % 16 ≡ 0)
    padding-bounds =
        omega (arith, random_size (pad_len (2 + length plain)), pad_len_bounds (2 + length plain))

    msg_key_lem :
        msg_key
        ≡ slice
            (crypto.sha256 (
              slice shared (88 + (if outgoing then 0 else 8)) 32
              ++ (write_le16 (length plain) ++ (plain ++ padding))))
            8
            16
    unfolding message_key padded direction_offset
    msg_key_lem =
        ap
          (λ (n : ℕ).
            slice
              (crypto.sha256 (
                slice shared (88 + (if outgoing then 0 else 8)) 32
                ++ (write_le16 n ++ (plain ++ padding))))
              8 16)
          (omega (arith, plain_size))

    -- The peer reads what was sent. With a shared key of 256 bytes, a peer tag of 16 and a plain text of
    -- 1 to 1200 bytes, and with random bytes of the number that was asked for, encryption succeeds, with
    -- 16 to 31 of them as padding, which fill the last block behind the two bytes of the length and the
    -- plain text. The packet is the tag, the message key, which is the middle of the SHA-256 of 32 bytes
    -- of the shared key, from 88 or 96 by the direction, and of length, plain text and padding, and as
    -- many more bytes as those three have. The other side, with the opposite direction flag and the same
    -- tag, decrypts the packet to the plain text.
    pub decrypt-encrypt_relay_packet :
        (packet : List ℕ) × (n : ℕ) × (encrypt_relay_packet crypto random shared outgoing tag plain
          ≡ success packet plain)
        × (decrypt_relay_packet crypto shared (not outgoing) tag packet ≡ success packet plain)
        × (16 ≤ length (random n))
        × (length (random n) ≤ 31)
        × ((2 + length plain + length (random n)) % 16 ≡ 0)
        × (length packet ≡ 34 + length plain + length (random n))
        × (take 16 packet ≡ tag)
        × (slice packet 16 16
            ≡ slice
                (crypto.sha256 (
                  slice shared (88 + (if outgoing then 0 else 8)) 32
                  ++ (write_le16 (length plain) ++ (plain ++ random n))))
                8
                16)
    decrypt-encrypt_relay_packet = (
      packet c.0 c.1 c.2 c.3,
      pad_len (2 + length plain),
      encrypts c.0 c.1 c.2 c.3,
      decrypts c.0 c.1 c.2 c.3,
      padding-bounds.0,
      padding-bounds.1,
      padding-bounds.2,
      length-packet c.0 c.1 c.2 c.3 ∙ omega (arith, random_size (pad_len (2 + length plain))),
      take-append_of_eq 16 tag (msg_key ++ c.0) (sym tag_size),
      key_part c.0 c.1 c.2 c.3 ∙ msg_key_lem,
    )
      where
        c :
            (coded : List ℕ) × (encrypt_ige crypto derived.0 derived.1 inner ≡ some coded)
            × (decrypt_ige crypto derived.0 derived.1 coded ≡ some inner)
            × (length coded ≡ length inner)
        c =
            decrypt-encrypt_ige crypto derived.0 derived.1 inner
              ((1 + length plain + pad_len (2 + length plain)) / 16) (length-kdf2 shared msg_key x)
              (kdf2-AreBytes shared msg_key x) inner-AreBytes whole_blocks

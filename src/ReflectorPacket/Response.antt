-- ===== src/ReflectorPacket/Response.antt =====
-- What ParseSelfInfoResponse of src/voip/src/domain/voip_reflector_packet.cpp reads and refuses.
use vianium_voip.Common.{inr}
use vianium_voip.Common.{ltb-false}
use vianium_voip.Common.{inl}
use vianium_voip.Common.{ltb}
use vianium_voip.ReflectorPacket.{is_empty}
use vianium_voip.Common.{◌⊎◌}
use vianium_voip.Common.{take-append_of_eq}
use vianium_voip.Common.{sym}
use vianium_voip.Common.{length-append}
use vianium_voip.Common.{drop-append_add}
use vianium_voip.Common.{append_assoc}
use vianium_voip.Common.{
  ℕ, ◌+◌, ◌*◌, ◌/◌, ◌%◌, ◌^◌, ◌≤◌, ◌<◌, ◌≡◌, refl, ap, ◌∙◌, List, [], ◌∷◌, ◌++◌, true, false, ◌==◌,
  ==_iff, arith, length, take, drop, bit_and,
}
use vianium_voip.Common.Bits.{bit_and_mask, bit_or_low}
use vianium_voip.Bytes.{u16, u32, write_le32, write_le64, read_le32}
use vianium_voip.Bytes.Laws.{read-write_le32}
use vianium_voip.ReflectorPacket.{
  VoipReflectorSelfInfo, success, read_le64, same_bytes, same_peer_tag, read_self_info, signed32,
  ipv4_to_string, parse_self_info_response, parse_marked, all_bits32, all_bits64, self_info_magic,
  mapped_ipv4_padding,
}

low_word : (v : ℕ) → u32 (bit_and v 0xffff_ffff) ≡ v % 2 ^ 32
low_word v = omega (arith, bit_and_mask 32 v)

read_le64-words :
    (lo hi : ℕ) (rest : List ℕ)
    → lo < 2 ^ 32
    → hi < 2 ^ 32
    → read_le64 (write_le32 lo ++ (write_le32 hi ++ rest)) ≡ lo + hi * 2 ^ 32
unfolding read_le64 write_le32
read_le64-words lo hi rest l h =
    rw (read-write_le32 lo (write_le32 hi ++ rest) l, read-write_le32 hi rest h)
      (bit_or_low 32 hi lo l)

read-write_le64 : (v : ℕ) (rest : List ℕ) → v < 2 ^ 64 → read_le64 (write_le64 v ++ rest) ≡ v
unfolding write_le64
read-write_le64 v rest h = rw append_assoc (
    read_le64-words (u32 (bit_and v 0xffff_ffff)) (u32 (bit_and (v / 2 ^ 32) 0xffff_ffff)) rest
      (omega arith) (omega arith)
    ∙ omega (arith, low_word v, low_word (v / 2 ^ 32)))

-- A response as the reflector lays it out, with any date word, any first half of the mapped
-- address and anything behind the 64 bytes.
abbrev pub body : ℕ → ℕ → ℕ → ℕ → ℕ → List ℕ → List ℕ
body date query_id mapped raw port rest =
    write_le64 all_bits64
    ++ (write_le32 all_bits32
        ++ (write_le32 self_info_magic
            ++ (write_le32 date
                ++ (write_le64 query_id
                    ++ (write_le64 mapped
                        ++ (write_le32 mapped_ipv4_padding
                            ++ (write_le32 raw ++ (write_le32 port ++ rest))))))))

abbrev pub response_of : List ℕ → ℕ → ℕ → ℕ → ℕ → ℕ → List ℕ → List ℕ
response_of tag date query_id mapped raw port rest = tag ++ body date query_id mapped raw port rest

-- What such a response says.
abbrev pub info_of : List ℕ → ℕ → ℕ → ℕ → ℕ → VoipReflectorSelfInfo
info_of tag date query_id raw port = record {
  peer_tag = tag;
  date = signed32 date;
  query_id = query_id;
  raw_ipv4 = raw;
  ipv4 = ipv4_to_string raw;
  port = port;
}

same_bytes_self : (tag more : List ℕ) → same_bytes (tag ++ more) tag ≡ true
unfolding same_bytes
same_bytes_self [] more = refl
same_bytes_self (x ∷ tag) more = rw ((==_iff x x).1 refl) (same_bytes_self tag more)

pub same_bytes-take :
    (bytes expected : List ℕ)
    → same_bytes bytes expected ≡ true
    → take (length expected) bytes ≡ expected
unfolding same_bytes
same_bytes-take bytes [] h = refl
same_bytes-take [] (e ∷ expected) h = cc h
same_bytes-take (b ∷ bytes) (e ∷ expected) h = ground (arith, same_bytes-take bytes expected)

module _ (tag : List ℕ) (date query_id mapped raw port : ℕ) (rest : List ℕ)
    (sixteen : length tag ≡ 16) (date_fits : date < 2 ^ 32) (query_fits : query_id < 2 ^ 64)
    (raw_fits : raw < 2 ^ 32) (port_fits : port < 2 ^ 16) where
  abbrev response : List ℕ
  response = response_of tag date query_id mapped raw port rest

  behind :
      (n m : ℕ) → n ≡ 16 + m → drop n response ≡ drop m (body date query_id mapped raw port rest)
  behind n m e = drop-append_add n m tag (body date query_id mapped raw port rest) (omega arith)

  sentinel1_read : read_le64 (drop 16 response) ≡ all_bits64
  sentinel1_read = rw (behind 16 0 (omega arith)) (read-write_le64 all_bits64 _ (omega arith))

  sentinel2_read : read_le32 (drop 24 response) ≡ all_bits32
  unfolding write_le64 write_le32
  sentinel2_read = rw (behind 24 8 (omega arith)) (read-write_le32 all_bits32 _ (omega arith))

  magic_read : read_le32 (drop 28 response) ≡ self_info_magic
  unfolding write_le64 write_le32
  magic_read = rw (behind 28 12 (omega arith)) (read-write_le32 self_info_magic _ (omega arith))

  date_read : read_le32 (drop 32 response) ≡ date
  unfolding write_le64 write_le32
  date_read = rw (behind 32 16 (omega arith)) (read-write_le32 date _ date_fits)

  query_read : read_le64 (drop 36 response) ≡ query_id
  unfolding write_le64 write_le32
  query_read = rw (behind 36 20 (omega arith)) (read-write_le64 query_id _ query_fits)

  padding_read : read_le32 (drop 52 response) ≡ mapped_ipv4_padding
  unfolding write_le64 write_le32
  padding_read =
      rw (behind 52 36 (omega arith)) (read-write_le32 mapped_ipv4_padding _ (omega arith))

  raw_read : read_le32 (drop 56 response) ≡ raw
  unfolding write_le64 write_le32
  raw_read = rw (behind 56 40 (omega arith)) (read-write_le32 raw _ raw_fits)

  port_read : read_le32 (drop 60 response) ≡ port
  unfolding write_le64 write_le32
  port_read = rw (behind 60 44 (omega arith)) (read-write_le32 port _ (omega arith))

  length-response : 64 ≤ length response
  unfolding write_le64 write_le32
  length-response = omega (arith, length-append tag (body date query_id mapped raw port rest))

  abbrev info : VoipReflectorSelfInfo
  info = info_of tag date query_id raw port

  read_self_info-response : read_self_info response ≡ info
  unfolding read_self_info
  read_self_info-response =
      rw (tag_read, date_read, query_read, raw_read, port_read)
        (ap (λ (w : ℕ). record info { port = w }) port_word)
    where
      tag_read : take 16 response ≡ tag
      tag_read =
          take-append_of_eq 16 tag (body date query_id mapped raw port rest)
            (omega (arith, sixteen))

      port_word : u16 (bit_and port 0xFFFF) ≡ port
      port_word = omega (arith, bit_and_mask 16 port, port_fits)

  same_tag : same_peer_tag response tag ≡ true
  unfolding same_peer_tag
  same_tag = rw ((==_iff (length tag) 16).1 sixteen) (same_bytes_self tag _)

  tagged : (length tag == 16) ≡ true
  tagged = (==_iff (length tag) 16).1 sixteen

  marked : parse_marked response ≡ success info response
  unfolding parse_marked
  marked = rw (
    (==_iff _ all_bits64).1 sentinel1_read,
    (==_iff _ all_bits32).1 sentinel2_read,
    (==_iff _ self_info_magic).1 magic_read,
    (==_iff _ mapped_ipv4_padding).1 padding_read,
    read_self_info-response,
  )

  long : ltb (length response) 64 ≡ false
  long = ltb-false (length response) 64 length-response

  -- A response in the reflector's layout, with the two all-ones markers, the self-info magic and the
  -- IPv4-mapped padding, is accepted with its own peer tag as the expected one or with none
  -- expected, and gives back the tag, the date as a signed 32-bit number, the query id, the address
  -- and the port.
  pub parse_response :
      (parse_self_info_response response tag ≡ success info response)
      × (parse_self_info_response response [] ≡ success info response)
  unfolding parse_self_info_response
  parse_response = (with_tag, without)
    where
      with_tag : parse_self_info_response response tag ≡ success info response
      with_tag = rw (long, same_tag, tagged, marked) (ground arith)

      without : parse_self_info_response response [] ≡ success info response
      without = unfold same_peer_tag in rw (long, marked)

read_self_info-tag : (bytes : List ℕ) → (read_self_info bytes).peer_tag ≡ take 16 bytes
unfolding read_self_info
read_self_info-tag bytes = refl

is_empty-eq : (xs : List ℕ) → is_empty xs ≡ true → xs ≡ []
is_empty-eq [] h = refl
is_empty-eq (x ∷ xs) h = cc h

same_peer_tag-take :
    (bytes expected : List ℕ)
    → length expected ≡ 16
    → same_peer_tag bytes expected ≡ true
    → take 16 bytes ≡ expected
unfolding same_peer_tag
same_peer_tag-take bytes expected h e =
    ap (λ (n : ℕ). take n bytes) (sym h)
    ∙ same_bytes-take bytes expected (rw ((==_iff (length expected) 16).1 h) at e)

parse_marked-accepts :
    (bytes used : List ℕ) (got : VoipReflectorSelfInfo)
    → parse_marked bytes ≡ success got used
    → (read_le64 (drop 16 bytes) ≡ all_bits64)
      × (read_le32 (drop 24 bytes) ≡ all_bits32)
      × (read_le32 (drop 28 bytes) ≡ self_info_magic)
      × (read_le32 (drop 52 bytes) ≡ mapped_ipv4_padding)
      × (got ≡ read_self_info bytes)
unfolding parse_marked
parse_marked-accepts bytes used got e = ground arith

parse_guards :
    (bytes expected used : List ℕ) (got : VoipReflectorSelfInfo)
    → parse_self_info_response bytes expected ≡ success got used
    → (64 ≤ length bytes)
      × ((is_empty expected ≡ true) ⊎ (length expected ≡ 16))
      × (same_peer_tag bytes expected ≡ true)
      × (parse_marked bytes ≡ success got used)
unfolding parse_self_info_response
parse_guards bytes expected used got e = ground arith

-- Whatever is received, a response is accepted only if it has at least 64 bytes and carries the
-- markers, the magic and the IPv4 padding at their places; if a peer tag is expected, it has 16
-- bytes and the response begins with it, and the reported tag is the first 16 bytes.
pub parse_response_accepts :
    (bytes expected used : List ℕ) (got : VoipReflectorSelfInfo)
    → parse_self_info_response bytes expected ≡ success got used
    → (64 ≤ length bytes)
      × (read_le64 (drop 16 bytes) ≡ all_bits64)
      × (read_le32 (drop 24 bytes) ≡ all_bits32)
      × (read_le32 (drop 28 bytes) ≡ self_info_magic)
      × (read_le32 (drop 52 bytes) ≡ mapped_ipv4_padding)
      × (got.peer_tag ≡ take 16 bytes)
      × ((expected ≡ []) ⊎ ((length expected ≡ 16) × (take 16 bytes ≡ expected)))
parse_response_accepts bytes expected used got e =
    let (long, shape, same, marks) = parse_guards bytes expected used got e in
    let (s1, s2, magic, padding, read) = parse_marked-accepts bytes used got marks in
    (
      long,
      s1,
      s2,
      magic,
      padding,
      ap (λ (r : VoipReflectorSelfInfo). r.peer_tag) read ∙ read_self_info-tag bytes,
      elim shape [
        | inl none_expected ↦ inl (is_empty-eq expected none_expected)
        | inr sixteen ↦ inr (sixteen, same_peer_tag-take bytes expected sixteen same)
      ],
    )

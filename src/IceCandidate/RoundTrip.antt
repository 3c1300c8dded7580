-- ===== src/IceCandidate/RoundTrip.antt =====
-- Parse of src/voip/src/domain/ice_candidate.cpp reads the line that Format wrote.
use vianium_voip.Common.{
  ℕ, ◌≡◌, refl, ap, ◌∙◌, List, [], ◌∷◌, ◌++◌, false, ◌==◌, length, some, arith,
}
use vianium_voip.Bytes.Compare.{bytes_equal}
use vianium_voip.IceCandidate.{ParsedIceCandidate, new_candidate}
use vianium_voip.IceCandidate.Tokens.{split_spaces}
use vianium_voip.IceCandidate.Line.{
  parse_pairs, parse_typed, parse_tokens, parse, format, is_positive, text_candidate,
}
use vianium_voip.IceCandidate.Written.{
  spaced, split_spaces-spaced, pair_tokens, transport_text, tokens, format_lem, trim_line, stripped,
}
use vianium_voip.IceCandidate.Fields.{
  IsWritable, shown_type, shown, parse_int-signed, parse_u32-number, type_back, tokens-Tokens,
  related_read, generation_read, ufrag_read, network_id_read, network_cost_read,
}

line_left : (l : List ℕ) → (length (text_candidate ++ l) == 0) ≡ false
line_left l = ground arith

module _ (c : ParsedIceCandidate) (h : IsWritable c) where
  -- What Parse has from the tokens up to the type.
  abbrev front : ParsedIceCandidate
  front = record new_candidate {
    foundation = c.foundation;
    component_id = c.component_id;
    transport = transport_text c;
    priority = c.priority;
    ip = c.ip;
    port = c.port;
    type = shown_type c.type;
  }

  pairs_read : parse_pairs (pair_tokens c) front ≡ shown c
  unfolding pair_tokens
  pairs_read =
      related_read c h _ front refl refl
      ∙ generation_read c h _ _
      ∙ ufrag_read c h _ _ refl
      ∙ network_id_read c h _ _ (is_positive c.network_id) refl
      ∙ network_cost_read c h [] _ (is_positive c.network_cost) refl

  tokens_read : parse_tokens (c.foundation ∷ tokens c) ≡ some (shown c)
  unfolding parse_tokens parse_typed bytes_equal
  tokens_read =
      rw
        (
          parse_int-signed c.component_id h.component_int,
          parse_u32-number c.priority h.priority_fits,
          parse_int-signed c.port h.port_int,
          type_back c.type,
          parse_tokens,
        )
        (ap (λ (m : ParsedIceCandidate). some m) pairs_read)

  -- Parse reads the line that Format wrote. For a candidate whose numbers fit an `int`, whose priority
  -- fits 32 bits, whose texts have no blanks, and whose foundation and address are not empty: all fields
  -- come back, but for an empty transport, which is written as udp, an unknown type, which is written as
  -- host, a related port without a related address, and a network id or cost that is not positive, which
  -- are not written.
  pub parse-format : parse (format c) ≡ some (shown c)
  unfolding parse
  parse-format =
      rw
        (
          format_lem c,
          trim_line c.foundation (tokens c) h.foundation_token (tokens-Tokens c h),
          line_left (c.foundation ++ spaced (tokens c)),
        )
        (ap parse_tokens (
            ap split_spaces (stripped (c.foundation ++ spaced (tokens c)))
            ∙ split_spaces-spaced c.foundation (tokens c) h.foundation_token (tokens-Tokens c h))
          ∙ tokens_read)

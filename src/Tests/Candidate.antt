-- ===== src/Tests/Candidate.antt =====
-- The line of a candidate on a concrete input.
use vianium_voip.Common.{◌≡◌, refl, [], ◌∷◌, some, arith}
use vianium_voip.Common.Int.{pos, negsuc}
use vianium_voip.IceCandidate.{ParsedIceCandidate, new_candidate, relay}
use vianium_voip.IceCandidate.Line.{parse, format}
use vianium_voip.IceCandidate.Fields.{IsWritable, shown}
use vianium_voip.IceCandidate.RoundTrip.{parse-format}

-- A relay with a related address, and no transport.
abbrev candidate : ParsedIceCandidate
candidate = record new_candidate {
  foundation = b'1' ∷ b'7' ∷ [];
  component_id = pos 1;
  priority = 2113937151;
  ip = b'1' ∷ b'.' ∷ b'2' ∷ b'.' ∷ b'3' ∷ b'.' ∷ b'4' ∷ [];
  port = pos 5000;
  type = relay;
  related_address = b'9' ∷ b'.' ∷ b'9' ∷ b'.' ∷ b'9' ∷ b'.' ∷ b'9' ∷ [];
  related_port = pos 70;
  network_cost = negsuc 4;
}

candidate-IsWritable : IsWritable candidate
candidate-IsWritable = record {
  foundation_token = (omega arith, (refl, (refl, tt)));
  component_int = omega arith;
  transport_ink = tt;
  priority_fits = omega arith;
  ip_token = (omega arith, (refl, (refl, (refl, (refl, (refl, (refl, (refl, tt))))))));
  port_int = omega arith;
  ufrag_ink = tt;
  network_id_int = omega arith;
  network_cost_int = omega arith;
  generation_int = omega arith;
  related_ink = (refl, (refl, (refl, (refl, (refl, (refl, (refl, tt)))))));
  related_port_int = omega arith;
}

parse-format_example : parse (format candidate) ≡ some (shown candidate)
parse-format_example = parse-format candidate candidate-IsWritable

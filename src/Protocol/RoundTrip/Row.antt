-- ===== src/Protocol/RoundTrip/Row.antt =====
-- Rows of the text protocol.
use trilogy.Prelude.{
  ℕ, ◌^◌, ◌<◌, ◌≡◌, refl, arith, List, [], ◌∷◌, ◌++◌, length, All, Option, none, some, ok, err,
  null_value, ◌>>=◌, ltb_ge,
}
use trilogy.Wire.{lenenc_str}
use trilogy.Reader.{
  Reader, size_mod, remaining, get_lenenc, get_lenenc_buffer, next_uint8, check, lenenc_tail,
}
use trilogy.Reader.View.{Views, Views-remaining}
use trilogy.Reader.Decode.{Decodes, Decodes-bind, Decodes-done, Decodes-next}
use trilogy.Reader.Lenenc.{Decodes-lenenc_buffer}
use trilogy.Protocol.Rows.{null_as_value, get_value, row_loop, parse_row_fields, parse_row_packet}
use trilogy.Protocol.RoundTrip.{parse_packet-Ends, Ends-finished, Ends-last, Decodes-last}

-- A row of the text protocol: 0xfb for NULL, a length-encoded string for a value.
abbrev pub row_bytes : List (Option (List ℕ)) → List ℕ
row_bytes [] = []
row_bytes (none ∷ vs) = 0xfb ∷ row_bytes vs
row_bytes (some d ∷ vs) = lenenc_str d ++ row_bytes vs

abbrev pub IsValue : Option (List ℕ) → Type 0
IsValue none = Unit
IsValue (some d) = length d < 2 ^ 64

null_lenenc :
    (r : Reader) (ys : List ℕ)
    → Views r (0xfb ∷ ys)
    → get_lenenc r ≡ (err null_value, (next_uint8 r).1)
unfolding get_lenenc lenenc_tail check ◌>>=◌
null_lenenc r ys v =
    rw
      (ltb_ge (remaining r) 1 (omega (arith, Views-remaining v)), ((Decodes-next 0xfb).at r ys v).0)
      refl

Decodes-null : Decodes get_value (0xfb ∷ []) none
unfolding get_value get_lenenc_buffer null_as_value ◌>>=◌
Decodes-null = record {
  at = λ r ys v. rw (null_lenenc r ys v) (refl, ((Decodes-next 0xfb).at r ys v).1);
}

Decodes-some : (d : List ℕ) → length d < 2 ^ 64 → Decodes get_value (lenenc_str d) (some d)
unfolding get_value null_as_value
Decodes-some d h = record {
  at = λ r ys v. let (got, v') = (Decodes-lenenc_buffer d h).at r ys v in rw got (refl, v');
}

Decodes-row_loop :
    (vs : List (Option (List ℕ)))
    → All IsValue vs
    → Decodes (row_loop (length vs)) (row_bytes vs) vs
unfolding row_loop
Decodes-row_loop [] h = Decodes-done []
Decodes-row_loop (none ∷ vs) h =
    Decodes-bind get_value _ Decodes-null
      (Decodes-last _ _ (Decodes-row_loop vs h.1) (Decodes-done (none ∷ vs)))
Decodes-row_loop (some d ∷ vs) h =
    Decodes-bind get_value _ (Decodes-some d h.0)
      (Decodes-last _ _ (Decodes-row_loop vs h.1) (Decodes-done (some d ∷ vs)))

-- A row of the text protocol is parsed to its values, NULL and the empty string told apart, where the column
-- count is the number of values. The values' lengths fit 64 bits, and the packet fits the address space.
pub parse_row_packet-row_bytes :
    (vs : List (Option (List ℕ)))
    → All IsValue vs
    → length (row_bytes vs) < size_mod
    → parse_row_packet (row_bytes vs) (length vs) ≡ ok vs
unfolding parse_row_packet parse_row_fields
parse_row_packet-row_bytes vs h short =
    parse_packet-Ends _ (row_bytes vs) vs (Ends-last _ _ (Decodes-row_loop vs h) (Ends-finished vs))
      short

-- ===== src/Reader/RoundTrip.antt =====
-- The reader on each field of the wire format, with anything behind the field.
use trilogy.Prelude.{ℕ, ◌^◌, ◌<◌, ◌≡◌, List, ◌++◌, length, ok}
use trilogy.Wire.{le, lenenc, lenenc_str, nul_str, NoZero}
use trilogy.Reader.{Reader, get_uint64, get_lenenc, get_lenenc_buffer, get_string}
use trilogy.Reader.View.{Views}
use trilogy.Reader.Decode.{Decodes-uint64}
use trilogy.Reader.Lenenc.{Decodes-lenenc, Decodes-lenenc_buffer, Decodes-string}

-- Eight little-endian bytes are read back as the 64-bit integer they encode, and the cursor is behind them.
pub get_uint64-le :
    (r : Reader) (v : ℕ) (ys : List ℕ)
    → v < 2 ^ 64
    → Views r (le 8 v ++ ys)
    → ((get_uint64 r).0 ≡ ok v) × Views (get_uint64 r).1 ys
get_uint64-le r v ys h w = (Decodes-uint64 v h).at r ys w

-- A length-encoded integer is read back, in each of its four forms, and the cursor is behind it.
pub get_lenenc-lenenc :
    (r : Reader) (v : ℕ) (ys : List ℕ)
    → v < 2 ^ 64
    → Views r (lenenc v ++ ys)
    → ((get_lenenc r).0 ≡ ok v) × Views (get_lenenc r).1 ys
get_lenenc-lenenc r v ys h w = (Decodes-lenenc v h).at r ys w

-- A length-encoded string is read back, and the cursor is behind it.
pub get_lenenc_buffer-lenenc_str :
    (r : Reader) (d ys : List ℕ)
    → length d < 2 ^ 64
    → Views r (lenenc_str d ++ ys)
    → ((get_lenenc_buffer r).0 ≡ ok d) × Views (get_lenenc_buffer r).1 ys
get_lenenc_buffer-lenenc_str r d ys h w = (Decodes-lenenc_buffer d h).at r ys w

-- A string without a NUL, and the NUL that ends it, is read back without it, and the cursor is behind the NUL.
pub get_string-nul_str :
    (r : Reader) (d ys : List ℕ)
    → NoZero d
    → Views r (nul_str d ++ ys)
    → ((get_string r).0 ≡ ok d) × Views (get_string r).1 ys
get_string-nul_str r d ys h w = (Decodes-string d h).at r ys w

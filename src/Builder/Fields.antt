-- ===== src/Builder/Fields.antt =====
-- A packet with a field of every kind, built from end to end.
use trilogy.Prelude.{
  ℕ, ◌+◌, ◌%◌, ◌^◌, ◌<◌, ◌≡◌, Bool, true, List, [], ◌∷◌, ◌++◌, length, Run, ok, ◌>>◌,
}
use trilogy.Wire.{le, lenenc, lenenc_str, nul_str}
use trilogy.Buffer.{Buffer}
use trilogy.Builder.{
  Builder, write_uint8, write_bytes, write_lenenc, write_buffer, write_lenenc_buffer, write_string,
}
use trilogy.Builder.Frames.{frames, IsSplit}
use trilogy.Builder.Framing.{build, build-IsSplit}
use trilogy.Builder.Writes.{Writes-bind, Writes-uint8, Writes-le, Writes-lenenc}
use trilogy.Builder.WriteBuffer.{Writes-buffer, Writes-lenenc_buffer, Writes-string}

-- A byte, an integer of `n` bytes, a length-encoded integer, a length-encoded string, a C string and
-- the rest.
abbrev pub field_bytes : ℕ → ℕ → ℕ → ℕ → List ℕ → List ℕ → List ℕ → List ℕ
field_bytes byte n val len blob text rest =
    byte ∷ [] ++ (le n val ++ (lenenc len ++ (lenenc_str blob ++ (nul_str text ++ rest))))

abbrev pub write_fields :
    (ℕ → Bool) → ℕ → ℕ → ℕ → ℕ → List ℕ → List ℕ → List ℕ → Run Builder (Unit {0})
write_fields grants byte n val len blob text rest =
    write_uint8 grants byte
    >> (write_bytes grants n val
        >> (write_lenenc grants len
            >> (write_lenenc_buffer grants blob
                >> (write_string grants text >> write_buffer grants rest))))

-- Where memory is granted, a packet built of a byte, an integer of any width, a length-encoded integer, a
-- length-encoded string, a C string and a run of bytes is, in the buffer, the wire format of those fields,
-- cut into frames: all but the last of full length, the last shorter and possibly empty, numbered from `seq`
-- modulo 256; and the builder's sequence number is the one behind the last frame's. The fields take less
-- than 2 ^ 60 bytes, and the buffer's capacity is not 0.
pub build-write_fields :
    (grants : ℕ → Bool) (buff : Buffer) (seq byte n val len : ℕ) (blob text rest : List ℕ)
    → ((k : ℕ) → grants k ≡ true)
    → buff.allocated ≡ true
    → 0 < buff.cap
    → seq < 256
    → len < 2 ^ 64
    → length blob < 2 ^ 64
    → length (field_bytes byte n val len blob text rest) < 2 ^ 60
    → (chunks : List (List ℕ)) × (b : Builder) × (build grants buff seq
          (write_fields grants byte n val len blob text rest)
        ≡ (ok tt, b))
      × IsSplit chunks (field_bytes byte n val len blob text rest)
      × (b.buffer.buff ≡ frames seq chunks)
      × (b.seq ≡ (seq + length chunks) % 256)
build-write_fields grants buff seq byte n val len blob text rest granted live pos seq_lt len_lt
      blob_lt short =
    build-IsSplit grants granted buff seq _ (field_bytes byte n val len blob text rest) live pos
      seq_lt short
      (Writes-bind _ _ (Writes-uint8 grants granted byte) (
        Writes-bind _ _ (Writes-le grants granted n val) (
          Writes-bind _ _ (Writes-lenenc grants granted len len_lt) (
            Writes-bind _ _ (Writes-lenenc_buffer grants granted blob blob_lt) (
              Writes-bind _ _ (Writes-string grants granted text)
                (Writes-buffer grants granted rest))))))

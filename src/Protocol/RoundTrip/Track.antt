-- ===== src/Protocol/RoundTrip/Track.antt =====
-- The changes of a session that OK packets track.
use mathlib.Core.Path.{subst}
use trilogy.Prelude.{
  ℕ, zero, suc, ◌+◌, ◌^◌, ◌≤◌, ◌<◌, ◌≡◌, sym, ap, arith, ltb, ltb_ge, lt→ltb, leb, ◌==◌, not, Bool,
  true, false, Bool-cases, inl, inr, List, [], ◌∷◌, ◌++◌, length, length-append, Run, ok, ◌>>=◌,
  All,
}
use trilogy.Wire.{lenenc, lenenc_str}
use trilogy.Reader.{Reader, reader_eof, size_mod, get_uint8, get_lenenc_buffer}
use trilogy.Reader.View.{Views, Views-reader_init}
use trilogy.Reader.Decode.{Decodes, Ends, Ends-bind, Decodes-done, Ends-done, Decodes-uint8}
use trilogy.Reader.Lenenc.{Decodes-lenenc_buffer}
use trilogy.Protocol.Types.{session_track_gtids, max_last_gtid_len}
use trilogy.Protocol.Replies.{at_eof, nested, gtid_entry, track_entry, track_loop}
use trilogy.Protocol.RoundTrip.{Ends-last, Ends-passed}

-- An entry of the session's changes: a GTID, in a string of its own behind a byte, or another one.
pub data Entry : Type 0 where
  gtid : List ℕ → Entry
  change : ℕ → List ℕ → Entry

abbrev pub entry_bytes : Entry → List ℕ
entry_bytes (gtid g) = session_track_gtids ∷ [] ++ lenenc_str (0 ∷ [] ++ lenenc_str g)
entry_bytes (change type d) = type ∷ [] ++ lenenc_str d

abbrev pub entries_bytes : List Entry → List ℕ
entries_bytes [] = []
entries_bytes (e ∷ es) = entry_bytes e ++ entries_bytes es

abbrev pub IsEntry : Entry → Type 0
IsEntry (gtid g) = length g ≤ max_last_gtid_len
IsEntry (change type d) = ((type == session_track_gtids) ≡ false) × (length d < 2 ^ 62)

-- The last GTID counts.
abbrev pub last_gtid : List Entry → List ℕ → List ℕ
last_gtid [] g = g
last_gtid (gtid g' ∷ es) g = last_gtid es g'
last_gtid (change type d ∷ es) g = last_gtid es g

pub Decodes-nested :
    {A : Type 0} (d : List ℕ) (m : Run Reader A) {a : A}
    → Ends m d a
    → length d < size_mod
    → Decodes (nested d m) [] a
unfolding nested
Decodes-nested d m e h = record { at = λ r ys v. (e.at _ (Views-reader_init d h), v) }

-- Whether bytes are left.
Ends-at_eof :
    {A : Type 0} (f : Bool → Run Reader A) {a : A} → Ends (f true) [] a → Ends (at_eof >>= f) [] a
unfolding at_eof ◌>>=◌ reader_eof
Ends-at_eof f {a} e = record {
  at = λ r v. subst (λ b. (f b r).0 ≡ ok a) (sym (eof r v)) (e.at r v);
}
  where
    eof : (r : Reader) → Views r [] → reader_eof r ≡ true
    eof r v = ap not (ltb_ge r.pos r.len (omega (arith, v.count)))

pub Ends-not_eof :
    {A : Type 0} (f : Bool → Run Reader A) {xs : List ℕ} {a : A}
    → 0 < length xs
    → Ends (f false) xs a
    → Ends (at_eof >>= f) xs a
unfolding at_eof ◌>>=◌ reader_eof
Ends-not_eof f {xs} {a} some_ e = record {
  at = λ r v. subst (λ b. (f b r).0 ≡ ok a) (sym (more r v)) (e.at r v);
}
  where
    more : (r : Reader) → Views r xs → reader_eof r ≡ false
    more r v = ap not (lt→ltb r.pos r.len (omega (arith, v.count, some_)))

Ends-gtid : (g : List ℕ) → length g ≤ max_last_gtid_len → Ends gtid_entry (0 ∷ [] ++ lenenc_str g) g
unfolding gtid_entry
Ends-gtid g h = Ends-bind get_uint8 _ (Decodes-uint8 0) (
    Ends-last get_lenenc_buffer _ (Decodes-lenenc_buffer g (omega (arith, h)))
      (rw (ltb_ge max_last_gtid_len (length g) h) (Ends-passed _ _ (Ends-done g))))

pub length-lenenc : (v : ℕ) → (0 < length (lenenc v)) × (length (lenenc v) ≤ 9)
unfolding lenenc
length-lenenc v = elim (Bool-cases (ltb v 251)) [
  | inl a ↦ rw a (omega arith, omega arith)
  | inr a ↦ elim (Bool-cases (leb v 0xffff)) [
    | inl b ↦ rw (a, b) (omega arith, omega arith)
    | inr b ↦ elim (Bool-cases (leb v 0xffffff)) [
      | inl c ↦ rw (a, b, c) (omega arith, omega arith)
      | inr c ↦ rw (a, b, c) (omega arith, omega arith)
    ]
  ]
]

length-gtid_info :
    (g : List ℕ) → length g ≤ max_last_gtid_len → length (0 ∷ [] ++ lenenc_str g) < 2 ^ 62
length-gtid_info g h =
    omega (arith, h, length-append (lenenc (length g)) g, length-lenenc (length g))

Decodes-gtid :
    (g old : List ℕ)
    → length g ≤ max_last_gtid_len
    → Decodes (track_entry session_track_gtids (0 ∷ [] ++ lenenc_str g) old) [] g
unfolding track_entry
Decodes-gtid g old h =
    Decodes-nested (0 ∷ [] ++ lenenc_str g) gtid_entry (Ends-gtid g h)
      (omega (arith, length-gtid_info g h))

Decodes-change :
    (type : ℕ) (d old : List ℕ)
    → (type == session_track_gtids) ≡ false
    → Decodes (track_entry type d old) [] old
unfolding track_entry
Decodes-change type d old h = rw h (Decodes-done old)

pub Ends-track_loop :
    (fuel : ℕ) (es : List Entry) (g : List ℕ)
    → length es < fuel
    → All IsEntry es
    → Ends (track_loop fuel g) (entries_bytes es) (last_gtid es g)
unfolding track_loop
Ends-track_loop zero es g h w = absurd (omega arith)
Ends-track_loop (suc fuel) [] g h w = Ends-at_eof _ (Ends-done g)
Ends-track_loop (suc fuel) (gtid x ∷ es) g h w = Ends-not_eof _ (omega arith) (
    Ends-bind get_uint8 _ (Decodes-uint8 session_track_gtids) (
      Ends-bind get_lenenc_buffer _
        (Decodes-lenenc_buffer (0 ∷ [] ++ lenenc_str x) (omega (arith, length-gtid_info x w.0)))
        (Ends-bind (track_entry session_track_gtids (0 ∷ [] ++ lenenc_str x) g) _
          (Decodes-gtid x g w.0) (Ends-track_loop fuel es x (omega (arith, h)) w.1))))
Ends-track_loop (suc fuel) (change type d ∷ es) g h w = Ends-not_eof _ (omega arith) (
    Ends-bind get_uint8 _ (Decodes-uint8 type) (
      Ends-bind get_lenenc_buffer _ (Decodes-lenenc_buffer d (omega (arith, w.0.1))) (
        Ends-bind (track_entry type d g) _ (Decodes-change type d g w.0.0)
          (Ends-track_loop fuel es g (omega (arith, h)) w.1))))

length-entries_bytes : (es : List Entry) → length es ≤ length (entries_bytes es)
length-entries_bytes [] = omega arith
length-entries_bytes (gtid g ∷ es) =
    omega (arith, length-append (entry_bytes (gtid g)) (entries_bytes es), length-entries_bytes es)
length-entries_bytes (change type d ∷ es) =
    omega (
      arith,
      length-append (entry_bytes (change type d)) (entries_bytes es),
      length-entries_bytes es,
    )

pub Ends-at_any :
    {A : Type 0} (f : Bool → Run Reader A) {xs : List ℕ} {a : A}
    → ((b : Bool) → Ends (f b) xs a)
    → Ends (at_eof >>= f) xs a
unfolding at_eof ◌>>=◌
Ends-at_any f e = record { at = λ r v. (e (reader_eof r)).at r v }

pub Decodes-track_loop :
    (es : List Entry)
    → length (entries_bytes es) < 2 ^ 62
    → All IsEntry es
    → Decodes
        (nested (entries_bytes es) (track_loop (length (entries_bytes es) + 1) []))
        []
        (last_gtid es [])
Decodes-track_loop es short w =
    Decodes-nested (entries_bytes es) _
      (Ends-track_loop (length (entries_bytes es) + 1) es []
        (omega (arith, length-entries_bytes es)) w)
      (omega (arith, short))

-- ===== src/Builder/Frames.antt =====
-- What a built packet looks like on the wire: a payload cut into frames, each with its length in
-- three bytes and its sequence number, all but the last of them full. Stated apart from the code.
use trilogy.Prelude.{
  ℕ, ◌+◌, ◌*◌, ◌%◌, ◌^◌, ◌≤◌, ◌<◌, ◌≡◌, refl, sym, ap, ◌∙◌, arith, List, [], ◌∷◌, ◌++◌, append-nil,
  append_assoc, length, length-append, All,
}
use trilogy.Wire.{le}
use trilogy.Builder.{max_packet_len}

abbrev pub joined : List (List ℕ) → List ℕ
joined [] = []
joined (c ∷ cs) = c ++ joined cs

abbrev pub frame : ℕ → List ℕ → List ℕ
frame seq p = le 3 (length p) ++ seq % 256 ∷ p

abbrev pub frames : ℕ → List (List ℕ) → List ℕ
frames seq [] = []
frames seq (c ∷ cs) = frame seq c ++ frames (seq + 1) cs

abbrev pub AllFull : List (List ℕ) → Type 0
AllFull = All (λ c. length c ≡ max_packet_len)

-- The chunks of a payload: full ones, and a last one that is not full and may be empty.
pub data IsSplit : List (List ℕ) → List ℕ → Type 0 where
  last : {p : List ℕ} → length p < max_packet_len → IsSplit (p ∷ []) p
  more :
      {c p : List ℕ} {cs : List (List ℕ)}
      → length c ≡ max_packet_len
      → IsSplit cs p
      → IsSplit (c ∷ cs) (c ++ p)

pub max_packet_len_small : (4 ≤ max_packet_len) × (max_packet_len < 2 ^ 24)
unfolding max_packet_len
max_packet_len_small = omega arith

pub le_max_packet_len : le 3 max_packet_len ≡ 0xff ∷ 0xff ∷ 0xff ∷ []
unfolding max_packet_len
le_max_packet_len = refl

pub joined-append : (cs ds : List (List ℕ)) → joined (cs ++ ds) ≡ joined cs ++ joined ds
joined-append [] ds = refl
joined-append (c ∷ cs) ds = rw (joined-append cs ds) (sym (append_assoc c (joined cs) (joined ds)))

pub joined_snoc : (cs : List (List ℕ)) (c : List ℕ) → joined (cs ++ c ∷ []) ++ [] ≡ joined cs ++ c
joined_snoc cs c = simp (joined-append, append-nil)

pub frames_snoc :
    (seq : ℕ) (cs : List (List ℕ)) (p : List ℕ)
    → frames seq (cs ++ p ∷ []) ≡ frames seq cs ++ frame (seq + length cs) p
frames_snoc seq [] p = append-nil (frame seq p) ∙ ap (λ k. frame k p) (omega arith)
frames_snoc seq (c ∷ cs) p =
    ap (◌++◌ (frame seq c))
      (frames_snoc (seq + 1) cs p ∙ ap (λ k. frames (seq + 1) cs ++ frame k p) (omega arith))
    ∙ sym (append_assoc (frame seq c) (frames (seq + 1) cs) (frame (seq + length (c ∷ cs)) p))

-- Each frame costs its four bytes of header.
pub length-frames :
    (seq : ℕ) (cs : List (List ℕ)) → length (frames seq cs) ≡ 4 * length cs + length (joined cs)
length-frames seq [] = omega arith
length-frames seq (c ∷ cs) = omega (
  arith,
  length-append (frame seq c) (frames (seq + 1) cs),
  length-append c (joined cs),
  length-frames (seq + 1) cs,
)

pub length-joined : (cs : List (List ℕ)) → AllFull cs → 4 * length cs ≤ length (joined cs)
length-joined [] h = omega arith
length-joined (c ∷ cs) h =
    omega (arith, max_packet_len_small, length-append c (joined cs), length-joined cs h.1)

pub AllFull-IsSplit :
    (cs : List (List ℕ)) (p : List ℕ)
    → AllFull cs
    → length p < max_packet_len
    → IsSplit (cs ++ p ∷ []) (joined cs ++ p)
AllFull-IsSplit [] p h short = last short
AllFull-IsSplit (c ∷ cs) p h short =
    rw (append_assoc c (joined cs) p) (more h.0 (AllFull-IsSplit cs p h.1 short))

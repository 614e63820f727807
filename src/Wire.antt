-- ===== src/Wire.antt =====
-- The wire format of the MySQL protocol as the documents describe it, stated apart from the code that
-- reads and writes it: little-endian integers, length-encoded integers and strings, NUL strings.
use trilogy.Prelude.{
  ℕ, zero, suc, ◌/◌, ◌%◌, ◌<◌, ◌≡◌, refl, ap, List, [], ◌∷◌, ◌++◌, length, All, ltb, leb,
  if◌then◌else◌,
}

abbrev pub IsByte : ℕ → Type 0
IsByte b = b < 256

-- `v` in `n` bytes, the lowest first.
abbrev pub le : ℕ → ℕ → List ℕ
le zero v = []
le (suc n) v = v % 256 ∷ le n (v / 256)

pub length-le : (n v : ℕ) → length (le n v) ≡ n
length-le zero v = refl
length-le (suc n) v = ap suc (length-le n (v / 256))

-- A length-encoded integer.
unfoldable pub lenenc : ℕ → List ℕ
lenenc v =
    if ltb v 251
    then v ∷ []
    else if leb v 0xffff
    then 0xfc ∷ le 2 v
    else if leb v 0xffffff
    then 0xfd ∷ le 3 v
    else 0xfe ∷ le 8 v

-- A length-encoded string.
abbrev pub lenenc_str : List ℕ → List ℕ
lenenc_str d = lenenc (length d) ++ d

-- A string that a zero byte ends, and what can be written so.
abbrev pub nul_str : List ℕ → List ℕ
nul_str d = d ++ 0 ∷ []

abbrev pub NoZero : List ℕ → Type 0
NoZero = All (λ b. 0 < b)

-- ===== src/Client/Escape/Literal.antt =====
-- Escaping a character at a time, and the server's scanner of string literals, as the documents of MySQL describe it.
use trilogy.Prelude.{
  ℕ, zero, suc, ◌==◌, ==_iff, ◌≡◌, refl, sym, ap, ◌∙◌, arith, Bool, true, false, Bool-cases, inl,
  inr, ◌⊎◌, not, ◌&&◌, ◌||◌, if◌then◌else◌, List, [], ◌∷◌, ◌++◌, append_assoc, Option, none, some,
  append-nil,
}
use trilogy.Client.Escape.{escape_lookup_table}

-- By the table's entry for the byte.
abbrev pub escape_as : ℕ → ℕ → List ℕ
escape_as b zero = b ∷ []
escape_as b (suc e) = 92 ∷ suc e ∷ []

-- A quote is doubled where a backslash is a character like any other.
abbrev pub escape_char : Bool → ℕ → List ℕ
escape_char true b = if b == 39 then 39 ∷ 39 ∷ [] else b ∷ []
escape_char false b = escape_as b (escape_lookup_table b)

abbrev pub escaped : Bool → List ℕ → List ℕ
escaped mode [] = []
escaped mode (x ∷ xs) = escape_char mode x ++ escaped mode xs

-- Within a literal: behind a character, behind a backslash, or behind a quote that may be the first of two.
pub data Scan : Type 0 where
  plain backslash quote : Scan

pub data Step : Type 0 where
  stop : Step
  go : List ℕ → Scan → Step

-- What a backslash and the character behind it stand for. `\%` and `\_` stay as they are.
abbrev pub unescape : ℕ → List ℕ
unescape b =
    if b == 48
    then 0 ∷ []
    else if b == 98
    then 8 ∷ []
    else if b == 110
    then 10 ∷ []
    else if b == 114
    then 13 ∷ []
    else if b == 116
    then 9 ∷ []
    else if b == 90
    then 26 ∷ []
    else if b == 37 || b == 95
    then 92 ∷ b ∷ []
    else b ∷ []

-- `q` is the quote that the literal began with.
abbrev pub step : Bool → ℕ → Scan → ℕ → Step
step mode q plain b =
    if b == q
    then go [] quote
    else if not mode && b == 92
    then go [] backslash
    else go (b ∷ []) plain
step mode q backslash b = go (unescape b) plain
step mode q quote b = if b == q then go (q ∷ []) plain else stop

abbrev pub before : List ℕ → Option (List ℕ × List ℕ) → Option (List ℕ × List ℕ)
before xs none = none
before xs (some (ys, rest)) = some (xs ++ ys, rest)

-- Behind a step: `rest` is what is still to come.
abbrev pub resume : (Scan → Option (List ℕ × List ℕ)) → List ℕ → Step → Option (List ℕ × List ℕ)
resume rest bs stop = some ([], bs)
resume rest bs (go xs s) = before xs (rest s)

-- The value of the literal and what stands behind it; `none` where the text ends within it.
abbrev pub scan : Bool → ℕ → Scan → List ℕ → Option (List ℕ × List ℕ)
scan mode q quote [] = some ([], [])
scan mode q plain [] = none
scan mode q backslash [] = none
scan mode q s (b ∷ bs) = resume (λ s'. scan mode q s' bs) (b ∷ bs) (step mode q s b)

-- The quotes that a literal can begin with; a doubled single quote does not help within double quotes.
pub data IsQuote : Bool → ℕ → Type 0 where
  single : (mode : Bool) → IsQuote mode 39
  double : IsQuote false 34

scan_go :
    (mode : Bool) (q : ℕ) (s : Scan) (b : ℕ) (bs : List ℕ) {xs : List ℕ} {s' : Scan}
    → step mode q s b ≡ go xs s'
    → scan mode q s (b ∷ bs) ≡ before xs (scan mode q s' bs)
scan_go mode q plain b bs e = ap (resume (λ s'. scan mode q s' bs) (b ∷ bs)) e
scan_go mode q backslash b bs e = ap (resume (λ s'. scan mode q s' bs) (b ∷ bs)) e
scan_go mode q quote b bs e = ap (resume (λ s'. scan mode q s' bs) (b ∷ bs)) e

scan_stop :
    (mode : Bool) (q b : ℕ) (bs : List ℕ)
    → (b == q) ≡ false
    → scan mode q quote (b ∷ bs) ≡ some ([], b ∷ bs)
scan_stop mode q b bs h =
    ap (resume (λ s'. scan mode q s' bs) (b ∷ bs)) {x = step mode q quote b} {y = stop} (rw h refl)

before_nil : (o : Option (List ℕ × List ℕ)) → before [] o ≡ o
before_nil none = refl
before_nil (some (ys, rest)) = refl

before_cons :
    (x : ℕ) (xs : List ℕ) (o : Option (List ℕ × List ℕ))
    → before (x ∷ []) (before xs o) ≡ before (x ∷ xs) o
before_cons x xs none = refl
before_cons x xs (some (ys, rest)) = refl

-- A byte of the table and what is written for it, or a byte that neither quotes nor escapes.
pub table-cases :
    (b : ℕ)
    → ((escape_lookup_table b ≡ 0)
        × ((b == 34) ≡ false)
        × ((b == 39) ≡ false)
        × ((b == 92) ≡ false))
      ⊎ ((e : ℕ) × (escape_lookup_table b ≡ suc e) × (unescape (suc e) ≡ b ∷ []))
table-cases b = elim (Bool-cases (b == 34)) [
  | inl h ↦ inr (33, rw h refl, known 34 h refl)
  | inr n34 ↦ elim (Bool-cases (b == 0)) [
    | inl h ↦ inr (47, rw (n34, h) refl, known 0 h refl)
    | inr n0 ↦ elim (Bool-cases (b == 39)) [
      | inl h ↦ inr (38, rw (n34, n0, h) refl, known 39 h refl)
      | inr n39 ↦ elim (Bool-cases (b == 92)) [
        | inl h ↦ inr (91, rw (n34, n0, n39, h) refl, known 92 h refl)
        | inr n92 ↦ elim (Bool-cases (b == 10)) [
          | inl h ↦ inr (109, rw (n34, n0, n39, n92, h) refl, known 10 h refl)
          | inr n10 ↦ elim (Bool-cases (b == 13)) [
            | inl h ↦ inr (113, rw (n34, n0, n39, n92, n10, h) refl, known 13 h refl)
            | inr n13 ↦ elim (Bool-cases (b == 26)) [
              | inl h ↦ inr (89, rw (n34, n0, n39, n92, n10, n13, h) refl, known 26 h refl)
              | inr n26 ↦ inl (rw (n34, n0, n39, n92, n10, n13, n26) refl, n34, n39, n92)
            ]
          ]
        ]
      ]
    ]
  ]
]
  where
    known : {xs : List ℕ} (a : ℕ) → (b == a) ≡ true → xs ≡ a ∷ [] → xs ≡ b ∷ []
    known a h e = e ∙ ap (λ t. t ∷ []) (sym ((==_iff _ _).0 h))

-- One character of the string is one character of the literal's value.
scan-escape_char :
    (mode : Bool) (q : ℕ) (x : ℕ) (ys : List ℕ)
    → IsQuote mode q
    → scan mode q plain (escape_char mode x ++ ys) ≡ before (x ∷ []) (scan mode q plain ys)
scan-escape_char true q x ys (single _) = elim (Bool-cases (x == 39)) [
  | inl h ↦
      rw h
        (before_nil _ ∙ ap (λ t. before (t ∷ []) (scan true 39 plain ys)) (sym ((==_iff _ _).0 h)))
  | inr h ↦ rw (h, h) refl
]
scan-escape_char false q x ys w = elim (table-cases x) [
  | inl (t, n34, n39, n92) ↦ by t ∙ quiet q w n34 n39 n92
  | inr (e, t, u) ↦ by t ∙ escaped_by q w e u
]
  where
    by :
        {t : ℕ}
        → escape_lookup_table x ≡ t
        → scan false q plain (escape_char false x ++ ys) ≡ scan false q plain (escape_as x t ++ ys)
    by e = ap (λ t. scan false q plain (escape_as x t ++ ys)) e

    quiet :
        (q : ℕ)
        → IsQuote false q
        → (x == 34) ≡ false
        → (x == 39) ≡ false
        → (x == 92) ≡ false
        → scan false q plain (x ∷ ys) ≡ before (x ∷ []) (scan false q plain ys)
    quiet q (single _) n34 n39 n92 =
        scan_go false 39 plain x ys {xs = x ∷ []} {s' = plain} (rw (n39, n92) refl)
    quiet q double n34 n39 n92 =
        scan_go false 34 plain x ys {xs = x ∷ []} {s' = plain} (rw (n34, n92) refl)

    escaped_by :
        (q : ℕ)
        → IsQuote false q
        → (e : ℕ) → unescape (suc e) ≡ x ∷ []
        → scan false q plain (92 ∷ suc e ∷ ys) ≡ before (x ∷ []) (scan false q plain ys)
    escaped_by q (single _) e u = before_nil _ ∙ ap (λ t. before t (scan false 39 plain ys)) u
    escaped_by q double e u = before_nil _ ∙ ap (λ t. before t (scan false 34 plain ys)) u

scan-escaped :
    (mode : Bool) (q : ℕ) (xs ys : List ℕ)
    → IsQuote mode q
    → scan mode q plain (escaped mode xs ++ ys) ≡ before xs (scan mode q plain ys)
scan-escaped mode q [] ys w = sym (before_nil _)
scan-escaped mode q (x ∷ xs) ys w =
    ap (scan mode q plain) (append_assoc (escape_char mode x) (escaped mode xs) ys)
    ∙ scan-escape_char mode q x (escaped mode xs ++ ys) w
    ∙ ap (before (x ∷ [])) (scan-escaped mode q xs ys w)
    ∙ before_cons x xs (scan mode q plain ys)

-- The end of a literal: a quote with no other behind it.
pub data NotQuote (q : ℕ) : List ℕ → Type 0 where
  at_end : NotQuote q []
  other : (b : ℕ) (bs : List ℕ) → (b == q) ≡ false → NotQuote q (b ∷ bs)

same : (q : ℕ) → (q == q) ≡ true
same q = ground arith

scan_end :
    (mode : Bool) (q : ℕ) (rest : List ℕ)
    → NotQuote q rest
    → scan mode q plain (q ∷ rest) ≡ some ([], rest)
scan_end mode q [] at_end = scan_go mode q plain q [] {xs = []} {s' = quote} (rw (same q) refl)
scan_end mode q (b ∷ bs) (other _ _ h) =
    scan_go mode q plain q (b ∷ bs) {xs = []} {s' = quote} (rw (same q) refl)
    ∙ before_nil _
    ∙ scan_stop mode q b bs h

-- The literal that holds an escaped string has the string as its value, and ends at its own quote.
pub scan-literal :
    (mode : Bool) (q : ℕ) (xs rest : List ℕ)
    → IsQuote mode q
    → NotQuote q rest
    → scan mode q plain (escaped mode xs ++ q ∷ rest) ≡ some (xs, rest)
scan-literal mode q xs rest w n =
    scan-escaped mode q xs (q ∷ rest) w
    ∙ ap (before xs) (scan_end mode q rest n)
    ∙ ap (λ t. some (t, rest)) (append-nil xs)

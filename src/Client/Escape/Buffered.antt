-- ===== src/Client/Escape/Buffered.antt =====
-- The two loops of trilogy_escape and the escaping of a character at a time.
use mathlib.Core.Path.{subst}
use trilogy.Prelude.{
  ℕ, zero, suc, ◌+◌, ◌^◌, ◌≤◌, ◌<◌, ◌==◌, ◌≡◌, refl, sym, ap, ◌∙◌, arith, Bool, true, false,
  Bool-cases, inl, inr, ◌⊎◌, le→leb, List, [], ◌∷◌, ◌++◌, append_assoc, append-nil, length,
  length-append, none, some, Run, ok, done, ◌>>◌, bind_run,
}
use trilogy.Buffer.{Buffer, expand, store, putc, write}
use trilogy.Buffer.Growth.{expand_total}
use trilogy.Client.Escape.{
  escape_lookup_table, memchr, plain_run, run_from, quote_round, escape_next, double_quotes,
  escape_run,
}
use trilogy.Client.Escape.Literal.{escape_as, escaped}

-- `m` appends `xs` to a buffer that there is memory for.
pub record Adds (m : Run Buffer (Unit {0})) (xs : List ℕ) : Type 0 where
  pub at :
      (b : Buffer)
      → b.allocated ≡ true
      → 0 < b.cap
      → length b.buff + length xs ≤ 2 ^ 63
      → (c : ℕ) × (m b ≡ (ok tt, record { allocated = true; cap = c; buff = b.buff ++ xs }))
        × (0 < c)

Adds-bytes : {m : Run Buffer (Unit {0})} {xs ys : List ℕ} → Adds m xs → xs ≡ ys → Adds m ys
Adds-bytes {m} a e = subst (Adds m) e a

Adds-done : Adds (done tt) []
unfolding done
Adds-done = record {
  at = λ b live pos h. (
    b.cap,
    (λ i. (ok tt, record { allocated = live i; cap = b.cap; buff = sym (append-nil b.buff) i })),
    pos,
  );
}

Adds-bind :
    (m k : Run Buffer (Unit {0})) {xs ys : List ℕ}
    → Adds m xs
    → Adds k ys
    → Adds (m >> k) (xs ++ ys)
Adds-bind m k {xs} {ys} f g = record {
  at = λ b live pos h.
      let n = length-append xs ys in
      let (c, e, p) = f.at b live pos (omega (arith, h, n)) in
      let (c', e', p') =
        g.at (record { allocated = true; cap = c; buff = b.buff ++ xs }) refl p
          (omega (arith, h, n, length-append b.buff xs)) in
      (
        c',
        bind_run m (λ _. k) e
            ∙ e'
            ∙ ap (λ l. (ok tt, record { allocated = true; cap = c'; buff = l }))
                (append_assoc b.buff xs ys),
        p',
      );
}

module _ (grants : ℕ → Bool) (granted : (n : ℕ) → grants n ≡ true) where
  Adds-write : (xs : List ℕ) → Adds (write grants xs) xs
  unfolding write store
  Adds-write xs = record {
    at = λ b live pos h.
        let (c, e, room, p) = expand_total grants granted (length xs) b live pos h in
        (
          c,
          bind_run (expand grants (length xs)) _ e
              ∙ rw (le→leb _ _ room)
                  (λ i. (ok tt, record { allocated = live i; cap = c; buff = b.buff ++ xs })),
          p,
        );
  }

  Adds-putc : (x : ℕ) → Adds (putc grants x) (x ∷ [])
  unfolding putc write
  Adds-putc x = Adds-write (x ∷ [])

ℕ-cases : (n : ℕ) → (n ≡ 0) ⊎ ((e : ℕ) × (n ≡ suc e))
ℕ-cases zero = inl refl
ℕ-cases (suc e) = inr (e, refl)

-- A round of either loop: the whole rest, or a run and a byte that is escaped.
record Round (mode : Bool) (xs run ys : List ℕ) (out : List ℕ) : Type 0 where
  written : escaped mode xs ≡ run ++ (out ++ escaped mode ys)
  shorter : length ys < length xs

plain_run-cases :
    (xs : List ℕ)
    → (((plain_run xs).1 ≡ []) × (escaped false xs ≡ (plain_run xs).0))
      ⊎ ((y : ℕ) × (ys : List ℕ) × ((plain_run xs).1 ≡ y ∷ ys)
          × Round false xs (plain_run xs).0 ys (92 ∷ escape_lookup_table y ∷ []))
plain_run-cases [] = inl (refl, refl)
plain_run-cases (x ∷ xs) = elim (ℕ-cases (escape_lookup_table x)) [
  | inr (e, t) ↦ inr (
    x,
    xs,
    ap (λ n. (run_from x xs (plain_run xs) n).1) t,
    record {
      written =
          ap (λ n. escape_as x n ++ escaped false xs) t
          ∙ sym (λ i. (run_from x xs (plain_run xs) (t i)).0 ++ (92 ∷ (t i) ∷ escaped false xs));
      shorter = omega arith;
    },
  )
  | inl t ↦
      let run : plain_run (x ∷ xs) ≡ (x ∷ (plain_run xs).0, (plain_run xs).1) =
        ap (run_from x xs (plain_run xs)) t in
      let char : escaped false (x ∷ xs) ≡ x ∷ escaped false xs =
        ap (λ n. escape_as x n ++ escaped false xs) t in
      elim (plain_run-cases xs) [
        | inl (e, w) ↦ inl (ap (λ o. o.1) run ∙ e, char ∙ ap (◌∷◌ x) w ∙ sym (ap (λ o. o.0) run))
        | inr (y, ys, e, r) ↦ inr (
          y,
          ys,
          ap (λ o. o.1) run ∙ e,
          record {
            written =
                char
                ∙ ap (◌∷◌ x) r.written
                ∙ ap (λ l. l ++ (92 ∷ escape_lookup_table y ∷ escaped false ys))
                    (sym (ap (λ o. o.0) run));
            shorter = omega (arith, r.shorter);
          },
        )
      ]
]

memchr-cases :
    (xs : List ℕ)
    → ((memchr 39 xs ≡ none) × (escaped true xs ≡ xs))
      ⊎ ((run : List ℕ) × (ys : List ℕ) × (memchr 39 xs ≡ some (run, ys))
          × Round true xs run ys (39 ∷ 39 ∷ []))
memchr-cases [] = inl (refl, refl)
memchr-cases (x ∷ xs) = elim (Bool-cases (x == 39)) [
  | inl h ↦ inr ([], xs, rw h refl, record { written = rw h refl; shorter = omega arith })
  | inr h ↦ elim (memchr-cases xs) [
    | inl (e, w) ↦ inl (rw (h, e) refl, rw h (ap (◌∷◌ x) w))
    | inr (run, ys, e, r) ↦ inr (
      x ∷ run,
      ys,
      rw (h, e) refl,
      record { written = rw h (ap (◌∷◌ x) r.written); shorter = omega (arith, r.shorter) },
    )
  ]
]

module _ (grants : ℕ → Bool) (granted : (n : ℕ) → grants n ≡ true) where
  pub Adds-double_quotes :
      (rounds : ℕ) (xs : List ℕ)
      → length xs < rounds
      → Adds (double_quotes grants rounds xs) (escaped true xs)
  unfolding double_quotes quote_round
  Adds-double_quotes zero xs h = absurd (omega arith)
  Adds-double_quotes (suc rounds) [] h = Adds-done
  Adds-double_quotes (suc rounds) (x ∷ xs) h = elim (memchr-cases (x ∷ xs)) [
    | inl (e, w) ↦
        subst
          (λ o.
            Adds (quote_round grants (double_quotes grants rounds) (x ∷ xs) o)
              (escaped true (x ∷ xs)))
          (sym e) (Adds-bytes (Adds-write grants granted (x ∷ xs)) (sym w))
    | inr (run, ys, e, r) ↦
        subst
          (λ o.
            Adds (quote_round grants (double_quotes grants rounds) (x ∷ xs) o)
              (escaped true (x ∷ xs)))
          (sym e)
          (Adds-bytes
            (Adds-bind _ _ (Adds-write grants granted run) (
              Adds-bind _ _ (Adds-write grants granted (39 ∷ 39 ∷ []))
                (Adds-double_quotes rounds ys (omega (arith, h, r.shorter)))))
            (sym r.written))
  ]

  pub Adds-escape_run :
      (rounds : ℕ) (xs : List ℕ)
      → length xs < rounds
      → Adds (escape_run grants rounds xs) (escaped false xs)
  unfolding escape_run escape_next
  Adds-escape_run zero xs h = absurd (omega arith)
  Adds-escape_run (suc rounds) [] h = Adds-done
  Adds-escape_run (suc rounds) (x ∷ xs) h = elim (plain_run-cases (x ∷ xs)) [
    | inl (e, w) ↦
        next rounds x xs e (
          Adds-bytes (Adds-bind _ _ (Adds-write grants granted _) Adds-done) (append-nil _ ∙ sym w))
    | inr (y, ys, e, r) ↦ next rounds x xs e (
        Adds-bytes
          (Adds-bind _ _ (Adds-write grants granted _) (
            Adds-bind _ _ (Adds-putc grants granted 92) (
              Adds-bind _ _ (Adds-putc grants granted (escape_lookup_table y))
                (Adds-escape_run rounds ys (omega (arith, h, r.shorter))))))
          (sym r.written))
  ]
    where
      after : (rounds x : ℕ) (xs rest : List ℕ) → Run Buffer (Unit {0})
      after rounds x xs rest = do
        write grants (plain_run (x ∷ xs)).0
        escape_next grants (escape_run grants rounds) rest

      next :
          (rounds x : ℕ) (xs : List ℕ) {rest : List ℕ}
          → (plain_run (x ∷ xs)).1 ≡ rest
          → Adds (after rounds x xs rest) (escaped false (x ∷ xs))
          → Adds (after rounds x xs (plain_run (x ∷ xs)).1) (escaped false (x ∷ xs))
      next rounds x xs e a =
          subst (λ r. Adds (after rounds x xs r) (escaped false (x ∷ xs))) (sym e) a

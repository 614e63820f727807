-- ===== src/Client/Escape.antt =====
-- src/client.c: trilogy_escape.
pub mod Literal
pub mod Buffered
pub mod Safe
use trilogy.Prelude.{
  ℕ, zero, suc, ◌+◌, ◌==◌, Bool, true, false, if◌then◌else◌, List, [], ◌∷◌, length, Option, none,
  some, Run, fault, done, ok, ◌>>=◌, ◌>>◌,
}
use trilogy.Buffer.{Buffer, expand, putc, write}
use trilogy.Protocol.Types.{has}
use trilogy.Client.Connection.{Connection, asks, on_packet_buffer, packet}

abbrev pub server_status_no_backslash_escapes : ℕ
server_status_no_backslash_escapes = 0x0200

-- escape_lookup_table: 0 where a byte stands for itself.
abbrev pub escape_lookup_table : ℕ → ℕ
escape_lookup_table b =
    if b == 34
    then 34
    else if b == 0
    then 48
    else if b == 39
    then 39
    else if b == 92
    then 92
    else if b == 10
    then 110
    else if b == 13
    then 114
    else if b == 26
    then 90
    else 0

-- memchr: what is before the first byte `q`, and what is behind it.
abbrev pub memchr : ℕ → List ℕ → Option (List ℕ × List ℕ)
memchr q [] = none
memchr q (x ∷ xs) =
    let rest = memchr q xs in
    if x == q
    then some ([], xs)
    else elim rest [ none ↦ none | some (before, after) ↦ some (x ∷ before, after) ]

-- By the table's entry for the next byte, and the rest of the run behind it.
abbrev pub run_from : ℕ → List ℕ → List ℕ × List ℕ → ℕ → List ℕ × List ℕ
run_from x xs rest zero = (x ∷ rest.0, rest.1)
run_from x xs rest (suc e) = ([], x ∷ xs)

-- The run up to a byte of the table, and what is from there on.
abbrev pub plain_run : List ℕ → List ℕ × List ℕ
plain_run [] = ([], [])
plain_run (x ∷ xs) = run_from x xs (plain_run xs) (escape_lookup_table x)

-- `b->len = 0`
unfoldable pub clear : Run Buffer (Unit {0})
clear b = (ok tt, record b { buff = [] })

-- A loop that has run out of rounds, which counts as a fault.
unfoldable pub out_of_rounds : Run Buffer (Unit {0})
out_of_rounds b = (fault, b)

module _ (grants : ℕ → Bool) where
  -- `next_escape`: with a quote the loop goes on behind it, without one it ends.
  unfoldable pub quote_round :
      (List ℕ → Run Buffer (Unit {0})) → List ℕ → Option (List ℕ × List ℕ) → Run Buffer (Unit {0})
  quote_round rest str none = write grants str
  quote_round rest str (some (before, after)) = do
    write grants before
    write grants (39 ∷ 39 ∷ [])
    rest after

  -- Both loops take a byte at least in each round, or end.
  unfoldable pub double_quotes : ℕ → List ℕ → Run Buffer (Unit {0})
  double_quotes zero str = out_of_rounds
  double_quotes (suc rounds) [] = done tt
  double_quotes (suc rounds) (x ∷ xs) =
      quote_round (double_quotes rounds) (x ∷ xs) (memchr 39 (x ∷ xs))

  -- Behind a run: the byte that ended it, if one did.
  unfoldable pub escape_next : (List ℕ → Run Buffer (Unit {0})) → List ℕ → Run Buffer (Unit {0})
  escape_next rest [] = done tt
  escape_next rest (y ∷ ys) = do putc grants 92; putc grants (escape_lookup_table y); rest ys

  unfoldable pub escape_run : ℕ → List ℕ → Run Buffer (Unit {0})
  escape_run zero str = out_of_rounds
  escape_run (suc rounds) [] = done tt
  escape_run (suc rounds) (x ∷ xs) = do
    write grants (plain_run (x ∷ xs)).0
    escape_next (escape_run rounds) (plain_run (x ∷ xs)).1

  unfoldable pub escape_str : Bool → List ℕ → Run Buffer (Unit {0})
  escape_str no_backslash_escapes str = do
    clear
    expand grants (length str)
    if no_backslash_escapes
        then double_quotes (length str + 1) str
        else escape_run (length str + 1) str

  -- The escaped string, which stands in the packet buffer.
  unfoldable pub escape : {W : Type 0} → List ℕ → Run (Connection W) (List ℕ)
  escape str = do
    no_backslash_escapes ← asks (λ c. has c.server_status server_status_no_backslash_escapes)
    on_packet_buffer (escape_str no_backslash_escapes str)
    asks packet

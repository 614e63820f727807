-- ===== src/Client/Escape/Safe.antt =====
-- trilogy_escape as a whole, and the literal that the query has it in.
use trilogy.Prelude.{
  ℕ, zero, suc, ◌+◌, ◌*◌, ◌^◌, ◌≤◌, ◌<◌, ◌≡◌, refl, ap, ◌∙◌, arith, Bool, true, false,
  if◌then◌else◌, List, [], ◌∷◌, ◌++◌, length, length-append, some, ok, bind_run,
}
use trilogy.Buffer.{Buffer, expand}
use trilogy.Buffer.Growth.{expand_total}
use trilogy.Protocol.Types.{has}
use trilogy.Client.Connection.{Connection, asks, on_packet_buffer, packet}
use trilogy.Client.Escape.{
  server_status_no_backslash_escapes, escape_lookup_table, clear, double_quotes, escape_run,
  escape_str, escape,
}
use trilogy.Client.Escape.Literal.{
  escape_as, escape_char, escaped, plain, scan, IsQuote, NotQuote, scan-literal,
}
use trilogy.Client.Escape.Buffered.{Adds, Adds-double_quotes, Adds-escape_run}

length-escape_as : (b e : ℕ) → length (escape_as b e) ≤ 2
length-escape_as b zero = omega arith
length-escape_as b (suc e) = omega arith

length-escape_char : (mode : Bool) (b : ℕ) → length (escape_char mode b) ≤ 2
length-escape_char true b = ground arith
length-escape_char false b = length-escape_as b (escape_lookup_table b)

length-escaped : (mode : Bool) (xs : List ℕ) → length (escaped mode xs) ≤ 2 * length xs
length-escaped mode [] = omega arith
length-escaped mode (x ∷ xs) = omega (
  arith,
  length-append (escape_char mode x) (escaped mode xs),
  length-escape_char mode x,
  length-escaped mode xs,
)

-- The mode that the server's status says.
abbrev pub no_backslash : {W : Type 0} → Connection W → Bool
no_backslash c = has c.server_status server_status_no_backslash_escapes

-- The connection with the bytes `xs` in its packet buffer.
abbrev pub holding : {W : Type 0} → Connection W → ℕ → List ℕ → Connection W
holding c cap xs = record c {
  io = record c.io { packet_buffer = record { allocated = true; cap = cap; buff = xs } };
}

module _ (grants : ℕ → Bool) (granted : (n : ℕ) → grants n ≡ true) where
  Adds-loop :
      (mode : Bool) (str : List ℕ)
      → Adds
          (if mode
            then double_quotes grants (length str + 1) str
            else escape_run grants (length str + 1) str)
          (escaped mode str)
  Adds-loop true str = Adds-double_quotes grants granted (length str + 1) str (omega arith)
  Adds-loop false str = Adds-escape_run grants granted (length str + 1) str (omega arith)

  escape_str_lem :
      (mode : Bool) (str : List ℕ) (b : Buffer)
      → b.allocated ≡ true
      → 0 < b.cap
      → length str ≤ 2 ^ 62
      → (c : ℕ) × (escape_str grants mode str b
          ≡ (ok tt, record { allocated = true; cap = c; buff = escaped mode str }))
  unfolding escape_str clear
  escape_str_lem mode str b live pos small =
      let (c, e, room, p) =
        expand_total grants granted (length str) (record b { buff = [] }) live pos
          (omega (arith, small)) in
      let (c', e', p') =
        (Adds-loop mode str).at (record { allocated = b.allocated; cap = c; buff = [] }) live p
          (omega (arith, small, length-escaped mode str)) in
      (c', bind_run clear _ refl ∙ bind_run (expand grants (length str)) _ e ∙ e')

-- trilogy_escape returns the string escaped a character at a time, in the mode that the server's status says, and leaves
-- it in the packet buffer; nothing else of the connection changes. The buffer has memory, more is granted, and the string
-- has 2 ^ 62 bytes at most.
pub escape-escaped :
    {W : Type 0} (grants : ℕ → Bool) (str : List ℕ) (c : Connection W)
    → ((n : ℕ) → grants n ≡ true)
    → c.io.packet_buffer.allocated ≡ true
    → 0 < c.io.packet_buffer.cap
    → length str ≤ 2 ^ 62
    → (cap : ℕ) × (escape grants str c
        ≡ (ok (escaped (no_backslash c) str), holding c cap (escaped (no_backslash c) str)))
unfolding escape asks on_packet_buffer packet
escape-escaped grants str c granted live pos small =
    let (cap, e) =
      escape_str_lem grants granted (no_backslash c) str c.io.packet_buffer live pos small in
    (
      cap,
      bind_run (asks no_backslash) _ refl
          ∙ bind_run (on_packet_buffer (escape_str grants (no_backslash c) str)) _
              (λ i. ((e i).0, record c { io = record c.io { packet_buffer = (e i).1 } })),
    )

-- What trilogy_escape returns, between single quotes, is to a server that reads literals a byte at a time, as it does in
-- an encoding where no other character has the bytes of a quote or a backslash, a literal whose value is the string, and it
-- ends at its closing quote, whatever the bytes of the string and whatever follows but another quote. Between double quotes
-- it is so where backslashes escape; under NO_BACKSLASH_ESCAPES nothing is said of double quotes. The buffer has memory,
-- more is granted, and the string has 2 ^ 62 bytes at most.
pub escape-scan :
    {W : Type 0} (grants : ℕ → Bool) (str rest : List ℕ) (q : ℕ) (c : Connection W)
    → ((n : ℕ) → grants n ≡ true)
    → c.io.packet_buffer.allocated ≡ true
    → 0 < c.io.packet_buffer.cap
    → length str ≤ 2 ^ 62
    → IsQuote (no_backslash c) q
    → NotQuote q rest
    → (xs : List ℕ) × ((escape grants str c).0 ≡ ok xs)
      × (scan (no_backslash c) q plain (xs ++ q ∷ rest) ≡ some (str, rest))
escape-scan grants str rest q c granted live pos small w n =
    let (cap, e) = escape-escaped grants str c granted live pos small in
    (escaped (no_backslash c) str, ap (λ o. o.0) e, scan-literal (no_backslash c) q str rest w n)

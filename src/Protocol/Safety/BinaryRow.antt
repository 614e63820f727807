-- ===== src/Protocol/Safety/BinaryRow.antt =====
-- Memory safety of the binary row's parser: the NULL bitmap is read within its bounds.
use trilogy.Prelude.{
  ℕ, ◌+◌, ◌*◌, ◌/◌, ◌%◌, ◌≤◌, ◌<◌, ◌≡◌, arith, Bool, List, [], ◌∷◌, length, get_elem?-lt, some,
}
use trilogy.Reader.{size_mod, get_uint8, get_buffer, finish}
use trilogy.Reader.Safety.{
  IsSafe, IsSafe-bind, IsSafe-bind_post, IsSafe-done, IsSafe-fail_if, Stays-here, safe_rules,
  get_uint8-IsSafe, get_buffer-IsSafe, length-get_buffer_eq, finish-IsSafe,
}
use trilogy.Protocol.Types.{ColumnPacket}
use trilogy.Protocol.BinaryValue.{Kind, int8, BinaryValue}
use trilogy.Protocol.BinaryRow.{
  elem_at, is_null, get_day, get_moment, date_body, get_span, time_body, get_as, get_binary_value,
  binary_column, binary_row_loop, parse_stmt_row_fields,
}

elem_at-IsSafe : {A : Type 0} (a : A) → IsSafe (elem_at (some a))
unfolding elem_at
elem_at-IsSafe a = record { at = λ r xs v. Stays-here _ v (λ p. cc) }

is_null-IsSafe :
    (bitmap : List ℕ) (n i : ℕ)
    → length bitmap ≡ n
    → i + 2 < n * 8
    → n * 8 < size_mod
    → IsSafe (is_null bitmap n i)
unfolding is_null
is_null-IsSafe bitmap n i len inside short =
    let (byte, at) = get_elem?-lt bitmap ((i + 2) % size_mod / 8) (omega arith) in
    IsSafe-bind _ _ (IsSafe-fail_if _ _)
      (λ _. rw at (IsSafe-bind _ _ (elem_at-IsSafe byte) (λ b. IsSafe-done _)))

get_day-IsSafe : IsSafe get_day
unfolding get_day
get_day-IsSafe = search safe_rules

get_moment-IsSafe : IsSafe get_moment
unfolding get_moment
get_moment-IsSafe = search (safe_rules, get_day-IsSafe)

date_body-IsSafe : (n : ℕ) → IsSafe (date_body n)
unfolding date_body
date_body-IsSafe n = search (safe_rules, get_day-IsSafe, get_moment-IsSafe) depth 8

get_span-IsSafe : IsSafe get_span
unfolding get_span
get_span-IsSafe = search safe_rules depth 8

time_body-IsSafe : (n : ℕ) → IsSafe (time_body n)
unfolding time_body
time_body-IsSafe n = search (safe_rules, get_span-IsSafe) depth 8

get_as-IsSafe : (k : Kind) → IsSafe (get_as k)
unfolding get_as
get_as-IsSafe int8 = search safe_rules
get_as-IsSafe _ = search (safe_rules, date_body-IsSafe, time_body-IsSafe)

binary_column-IsSafe :
    (b : Bool) (c : ColumnPacket) (old : BinaryValue) → IsSafe (binary_column b c old)
unfolding binary_column get_binary_value
binary_column-IsSafe b c old = search (safe_rules, get_as-IsSafe)

binary_row_loop-IsSafe :
    (bitmap : List ℕ) (n i : ℕ) (columns : List ColumnPacket) (olds : List BinaryValue)
    → length bitmap ≡ n
    → i + length columns + 1 < n * 8
    → n * 8 < size_mod
    → length columns ≤ length olds
    → IsSafe (binary_row_loop bitmap n i columns olds)
unfolding binary_row_loop
binary_row_loop-IsSafe bitmap n i [] olds len inside short room = IsSafe-done []
binary_row_loop-IsSafe bitmap n i (c ∷ cs) [] len inside short room = absurd (omega arith)
binary_row_loop-IsSafe bitmap n i (c ∷ cs) (old ∷ olds) len inside short room =
    IsSafe-bind (is_null bitmap n i) _ (is_null-IsSafe bitmap n i len (omega arith) short) (λ b.
      IsSafe-bind (binary_column b c old) _ (binary_column-IsSafe b c old) (λ v.
        IsSafe-bind (binary_row_loop bitmap n (i + 1) cs olds) _
          (binary_row_loop-IsSafe bitmap n (i + 1) cs olds len (omega arith) short (omega arith))
          (λ vs. IsSafe-done (v ∷ vs))))

pub parse_stmt_row_fields-IsSafe :
    (columns : List ColumnPacket) (olds : List BinaryValue)
    → length columns + 16 < size_mod
    → length columns ≤ length olds
    → IsSafe (parse_stmt_row_fields columns olds)
unfolding parse_stmt_row_fields
parse_stmt_row_fields-IsSafe columns olds few room = IsSafe-bind get_uint8 _ get_uint8-IsSafe (λ _.
    IsSafe-bind_post (get_buffer n) _ (λ d. length d ≡ n) (get_buffer-IsSafe n)
      (length-get_buffer_eq n)
      (λ bitmap len.
        IsSafe-bind (binary_row_loop bitmap n 0 columns olds) _
          (binary_row_loop-IsSafe bitmap n 0 columns olds len (omega arith) (omega arith) room)
          (λ values. IsSafe-bind finish _ finish-IsSafe (λ _. IsSafe-done values))))
  where
    n : ℕ
    n = (length columns + 7 + 2) % size_mod / 8

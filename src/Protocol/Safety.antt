-- ===== src/Protocol/Safety.antt =====
-- Memory safety of the packet parsers, on any bytes whatever.
pub mod Ok
pub mod BinaryRow
use trilogy.Prelude.{
  ℕ, zero, suc, ◌+◌, ◌≤◌, ◌<◌, ◌≡◌, ◌≢◌, refl, ap, arith, Bool, true, false, List, [], ◌∷◌, ◌++◌,
  length, length-append, Option, none, some, Rc, Result, Run, ok, err, fault, null_value, and_then,
  done, ◌>>=◌, ◌>>◌, if◌then◌else◌,
}
use trilogy.Reader.{
  Reader, reader_init, size_mod, get_uint8, get_lenenc_buffer, get_eof_buffer, finish,
}
use trilogy.Reader.View.{Views, Views-reader_init}
use trilogy.Reader.Safety.{
  Stays, IsSafe, IsSafe-bind, IsSafe-done, IsSafe-fail_if, finish-IsSafe, get_eof_buffer-IsSafe,
  safe_rules, get_lenenc_buffer-IsSafe, Stays-here, IsSafe-if, IsSafe-bind_post, IsSafeBelow,
  IsSafeBelow-bind, IsSafeBelow-bind_post, IsSafeBelow-if, IsSafeBelow-step, IsSafe→IsSafeBelow,
  length-get_lenenc_buffer,
}
use trilogy.Protocol.Types.{OkPacket}
use trilogy.Protocol.Replies.{
  at_eof, nested, out_of_fuel, gtid_entry, track_entry, track_loop, state_changes, ok_flags,
  ok_rest, parse_ok_fields, parse_eof_fields, sql_state_fields, parse_err_fields, parse_packet,
}
use trilogy.Protocol.Handshake.{
  get_auth_plugin, parse_auth_switch_request_fields, handshake_head, handshake_flags,
  handshake_scramble, handshake_plugin, parse_handshake_fields,
}
use trilogy.Protocol.Rows.{
  parse_result_fields, null_as_value, get_value, row_loop, parse_row_fields, column_default,
  parse_column_fields, parse_stmt_ok_fields,
}

pub parse_eof_fields-IsSafe : (caps : ℕ) → IsSafe (parse_eof_fields caps)
unfolding parse_eof_fields
parse_eof_fields-IsSafe caps = search safe_rules depth 12

sql_state_fields-IsSafe : (caps : ℕ) → IsSafe (sql_state_fields caps)
unfolding sql_state_fields
sql_state_fields-IsSafe caps = search safe_rules depth 12

pub parse_err_fields-IsSafe : (caps : ℕ) → IsSafe (parse_err_fields caps)
unfolding parse_err_fields
parse_err_fields-IsSafe caps = search (safe_rules, sql_state_fields-IsSafe) depth 12

get_auth_plugin-IsSafe : IsSafe get_auth_plugin
unfolding get_auth_plugin
get_auth_plugin-IsSafe = search safe_rules

pub parse_auth_switch_request_fields-IsSafe :
    (caps : ℕ) → IsSafe (parse_auth_switch_request_fields caps)
unfolding parse_auth_switch_request_fields
parse_auth_switch_request_fields-IsSafe caps = search (safe_rules, get_auth_plugin-IsSafe) depth 12

handshake_head-IsSafe : IsSafe handshake_head
unfolding handshake_head
handshake_head-IsSafe = search safe_rules depth 12

handshake_flags-IsSafe : IsSafe handshake_flags
unfolding handshake_flags
handshake_flags-IsSafe = search safe_rules depth 12

handshake_scramble-IsSafe : (caps : ℕ) → IsSafe (handshake_scramble caps)
unfolding handshake_scramble
handshake_scramble-IsSafe caps = search safe_rules depth 12

handshake_plugin-IsSafe : (caps : ℕ) → IsSafe (handshake_plugin caps)
unfolding handshake_plugin
handshake_plugin-IsSafe caps = search (safe_rules, get_auth_plugin-IsSafe)

pub parse_handshake_fields-IsSafe : IsSafe parse_handshake_fields
unfolding parse_handshake_fields
parse_handshake_fields-IsSafe =
    search
      (
        safe_rules, handshake_head-IsSafe, handshake_flags-IsSafe, handshake_scramble-IsSafe,
        handshake_plugin-IsSafe,
      )
      depth 12

column_default-IsSafe : (field_list : Bool) → IsSafe (column_default field_list)
unfolding column_default
column_default-IsSafe field_list = search safe_rules

pub parse_column_fields-IsSafe : (field_list : Bool) → IsSafe (parse_column_fields field_list)
unfolding parse_column_fields
parse_column_fields-IsSafe field_list = search (safe_rules, column_default-IsSafe) depth 20

pub parse_stmt_ok_fields-IsSafe : IsSafe parse_stmt_ok_fields
unfolding parse_stmt_ok_fields
parse_stmt_ok_fields-IsSafe = search safe_rules depth 12

pub parse_result_fields-IsSafe : IsSafe parse_result_fields
unfolding parse_result_fields
parse_result_fields-IsSafe = search safe_rules

null_as_value-ne-fault : (o : Result (List ℕ)) → o ≢ fault → null_as_value o ≢ fault
unfolding null_as_value
null_as_value-ne-fault o h = ground arith

get_value-IsSafe : IsSafe get_value
unfolding get_value
get_value-IsSafe = record {
  at = λ r xs v.
      let s = get_lenenc_buffer-IsSafe.at r xs v in
      record {
        taken = s.taken;
        rest = s.rest;
        split = s.split;
        views = s.views;
        no_fault = null_as_value-ne-fault (get_lenenc_buffer r).0 s.no_fault;
      };
}

row_loop-IsSafe : (n : ℕ) → IsSafe (row_loop n)
unfolding row_loop
row_loop-IsSafe zero = IsSafe-done []
row_loop-IsSafe (suc n) =
    IsSafe-bind get_value _ get_value-IsSafe
      (λ v. IsSafe-bind (row_loop n) _ (row_loop-IsSafe n) (λ vs. IsSafe-done (v ∷ vs)))

pub parse_row_fields-IsSafe : (n : ℕ) → IsSafe (parse_row_fields n)
unfolding parse_row_fields
parse_row_fields-IsSafe n = search (safe_rules, row_loop-IsSafe)

-- Neither an access out of bounds nor a loop without end, on any packet that fits the memory.
pub parse_packet-ne-fault :
    {A : Type 0} (m : Run Reader A) (buff : List ℕ)
    → IsSafe m
    → length buff < size_mod
    → parse_packet m buff ≢ fault
unfolding parse_packet
parse_packet-ne-fault m buff h short = (h.at _ buff (Views-reader_init buff short)).no_fault

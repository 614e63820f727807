-- ===== src/Prelude.antt =====
-- The names that the other modules share: the libraries', passed on, and those of the children.
mod Tests
mod Lists
mod Status
mod Bits
pub use Tests.*
pub use Lists.*
pub use Status.{
  Rc, Result, Run, ok, err, fault, and_then, ◌>>◌, bind_ok, bind_err, bind-eq-ok, bind_run,
  bind_stop,
}
pub use Status.{
  generic, eof, syserr, unexpected_packet, truncated_packet, protocol_violation,
  auth_plugin_too_long, extra_data_in_packet, invalid_charset, again, closed_connection,
  have_results, null_value, invalid_sequence_id, type_overflow, openssl_err, unsupported, dns_err,
  auth_switch, max_packet_exceeded, unknown_type, timeout, auth_plugin_error, mem_error,
}
pub use Bits.*
unfoldable pub use Status.{done, fail, fail_if, ◌>>=◌}
pub use Prim.Native.Nat.{
  ℕ, zero, suc, ◌+◌, ◌-◌, ◌*◌, ◌/◌, ◌%◌, ◌^◌, ◌≤◌, ◌<◌, min, bit_and, bit_or, bit_xor,
}
pub use mathlib.Core.Path.{◌≡◌, refl, sym, ap, ◌∙◌}
pub use mathlib.Core.Logic.{◌≢◌, ◌↔◌, ◌⊎◌, inl, inr}
pub use mathlib.Core.Bool.{Bool, true, false, not, ◌&&◌, ◌||◌}
pub use mathlib.Core.Option.{Option, none, some}
pub use mathlib.Core.List.{List, [], ◌∷◌, ◌++◌, append-nil, append_assoc}
pub use native.Mathlib.Omega.{arith}

-- ===== src/Protocol/Safety/Ok.antt =====
-- Memory safety of the OK packet's parser: its loop over the session state runs on a second reader.
use trilogy.Prelude.{
  ℕ, zero, suc, ◌+◌, ◌<◌, ◌≡◌, arith, Bool, true, false, List, [], length, Run, ok, done,
}
use trilogy.Reader.{Reader, reader_init, size_mod, get_lenenc_buffer, get_eof_buffer, finish}
use trilogy.Reader.View.{Views, Views-reader_init}
use trilogy.Reader.Safety.{
  IsSafe, IsSafe-bind, IsSafe-done, finish-IsSafe, get_eof_buffer-IsSafe, safe_rules,
  get_lenenc_buffer-IsSafe, Stays-here, IsSafe-if, IsSafe-bind_post, IsSafeBelow, IsSafeBelow-bind,
  IsSafeBelow-bind_post, IsSafeBelow-if, IsSafeBelow-step, IsSafe→IsSafeBelow,
  length-get_lenenc_buffer,
}
use trilogy.Protocol.Types.{OkPacket}
use trilogy.Protocol.Replies.{
  at_eof, nested, gtid_entry, track_entry, track_loop, state_changes, ok_flags, ok_rest,
  parse_ok_fields,
}

-- A second reader, over bytes that are shorter than the address space.
nested-IsSafe :
    {A : Type 0} (d : List ℕ) (m : Run Reader A)
    → length d < size_mod
    → IsSafe m
    → IsSafe (nested d m)
unfolding nested
nested-IsSafe d m h hm = record {
  at = λ r xs v.
      let s = hm.at (reader_init d (length d)) d (Views-reader_init d h) in
      Stays-here _ v s.no_fault;
}

at_eof-IsSafe : IsSafe at_eof
unfolding at_eof
at_eof-IsSafe = record { at = λ r xs v. Stays-here _ v (λ p. cc) }

gtid_entry-IsSafe : IsSafe gtid_entry
unfolding gtid_entry
gtid_entry-IsSafe = search safe_rules

track_entry-IsSafe :
    (type : ℕ) (info gtid : List ℕ) → length info < size_mod → IsSafe (track_entry type info gtid)
unfolding track_entry
track_entry-IsSafe type info gtid h =
    IsSafe-if _ _ _ (nested-IsSafe info gtid_entry h gtid_entry-IsSafe) (IsSafe-done gtid)

-- The fuel suffices: each pass leaves fewer bytes.
track_loop-IsSafeBelow : (fuel : ℕ) (gtid : List ℕ) → IsSafeBelow fuel (track_loop fuel gtid)
unfolding track_loop
track_loop-IsSafeBelow zero gtid = record { at = λ r xs v h. absurd (omega arith) }
track_loop-IsSafeBelow (suc fuel) gtid =
    IsSafeBelow-bind at_eof _ (suc fuel) at_eof-IsSafe (λ ended.
      IsSafeBelow-if ended _ _ (suc fuel) (IsSafe→IsSafeBelow (suc fuel) (IsSafe-done gtid)) (
        IsSafeBelow-step fuel _ (λ type.
          IsSafeBelow-bind_post get_lenenc_buffer _ (λ d. length d < size_mod) fuel
            get_lenenc_buffer-IsSafe length-get_lenenc_buffer
            (λ info short.
              IsSafeBelow-bind (track_entry type info gtid) _ fuel
                (track_entry-IsSafe type info gtid short)
                (λ gtid'. track_loop-IsSafeBelow fuel gtid')))))

ok_flags-IsSafe : (caps : ℕ) → IsSafe (ok_flags caps)
unfolding ok_flags
ok_flags-IsSafe caps = search safe_rules

state_changes-IsSafe : (changed : Bool) → IsSafe (state_changes changed)
unfolding state_changes
state_changes-IsSafe changed = search safe_rules

length-state_changes :
    (changed : Bool) (r : Reader) (d : List ℕ)
    → (state_changes changed r).0 ≡ ok d
    → length d < size_mod
unfolding state_changes done
length-state_changes true r d e = length-get_lenenc_buffer r d e
length-state_changes false r d e = ground arith

track_all-IsSafe :
    (d : List ℕ) → length d < size_mod → IsSafe (nested d (track_loop (length d + 1) []))
unfolding nested
track_all-IsSafe d h = record {
  at = λ r xs v.
      let start : Views (reader_init d (length d)) d = Views-reader_init d h in
      Stays-here _ v
        ((track_loop-IsSafeBelow (length d + 1) []).at _ d start (omega arith)).no_fault;
}

ok_rest-IsSafe : (caps : ℕ) (p : OkPacket) → IsSafe (ok_rest caps p)
unfolding ok_rest
ok_rest-IsSafe caps p = IsSafe-bind at_eof _ at_eof-IsSafe (λ ended.
    IsSafe-if _ _ _
      (IsSafe-bind get_lenenc_buffer _ get_lenenc_buffer-IsSafe (λ status.
        IsSafe-bind_post (state_changes _) _ (λ d. length d < size_mod) (state_changes-IsSafe _)
          (length-state_changes _)
          (λ d short.
            IsSafe-bind _ _ (track_all-IsSafe d short)
              (λ gtid. IsSafe-bind finish _ finish-IsSafe (λ _. IsSafe-done _)))))
      (IsSafe-bind get_eof_buffer _ get_eof_buffer-IsSafe
        (λ info. IsSafe-bind finish _ finish-IsSafe (λ _. IsSafe-done _))))

pub parse_ok_fields-IsSafe : (caps : ℕ) → IsSafe (parse_ok_fields caps)
unfolding parse_ok_fields
parse_ok_fields-IsSafe caps = search (safe_rules, ok_flags-IsSafe, ok_rest-IsSafe)

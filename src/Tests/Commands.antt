-- ===== src/Tests/Commands.antt =====
-- The theorems about packets that the client builds, at concrete inputs.
use trilogy.Prelude.{
  ℕ, ◌%◌, ◌≡◌, refl, arith, Bool, true, false, ◌⊎◌, List, [], ◌∷◌, ◌++◌, length, replicate, none,
  some, ok, err, ◌>>◌, auth_plugin_error,
}
use trilogy.Wire.{lenenc}
use trilogy.Buffer.{Buffer}
use trilogy.Builder.{Builder, builder_init, finalize}
use trilogy.Builder.Packs.{IsPacket, pack}
use trilogy.Reader.{reader_init}
use trilogy.Reader.View.{Views}
use trilogy.Protocol.Commands.Packed.{query, build_command, pack-build_command}
use trilogy.Protocol.BinaryValue.{BinaryValue, kind, Date, as_uint8, as_str, as_date, date}
use trilogy.Protocol.BinaryRow.{get_as, zero_time}
use trilogy.Protocol.BinaryValue.{time, as_time}
use trilogy.Protocol.Execute.{build_stmt_execute_packet, write_as}
use trilogy.Protocol.Execute.Values.{as_bytes, date_bytes, is_int8, is_str, is_date}
use trilogy.Protocol.Execute.Values.RoundTrip.{get_as-write_as, write_as-get_as_days, days_alone}
use trilogy.Protocol.Execute.Packed.{
  execute_bytes, null_bind, value_bind, pack-build_stmt_execute_packet,
}
use trilogy.Protocol.Auth.{
  caching_sha2_password, clear_password, native_hash, sha2_hash, build_auth_packet,
  build_auth_switch_response_packet,
}
use trilogy.Protocol.Auth.Hash.{recovered, recovered-responses}
use trilogy.Protocol.Auth.Packed.{auth_bytes, response_of, pack-build_auth_packet}
use trilogy.Protocol.Auth.Switch.{switch_bytes, pack-build_auth_switch_response_packet}

abbrev grant_all : ℕ → Bool
grant_all n = true

abbrev one_byte : Buffer
one_byte = record { allocated = true; cap = 1; buff = 7 ∷ [] }

pack-build_command_example :
    (b : Builder) × (pack grant_all one_byte 0 (build_command grant_all (query (65 ∷ 66 ∷ [])))
      ≡ (ok tt, b))
    × IsPacket 0 (3 ∷ 65 ∷ 66 ∷ []) b
pack-build_command_example =
    pack-build_command grant_all one_byte 0 (query (65 ∷ 66 ∷ [])) (λ n. refl) refl (omega arith)
      (omega arith) (omega arith)

abbrev small_int : BinaryValue
small_int = record { type = 0x01; is_unsigned = true; is_null = false; value = as_uint8 5 }

abbrev no_value : BinaryValue
no_value = record { type = 0x06; is_unsigned = false; is_null = true; value = as_uint8 0 }

abbrev text : BinaryValue
text = record { type = 0xfd; is_unsigned = false; is_null = false; value = as_str (65 ∷ 66 ∷ []) }

pack-build_stmt_execute_packet_example :
    (b : Builder) × (pack grant_all one_byte 0
        (build_stmt_execute_packet grant_all 9 0 (some (small_int ∷ no_value ∷ text ∷ [])) 3)
      ≡ (ok tt, b))
    × IsPacket 0 (execute_bytes 9 0 (small_int ∷ no_value ∷ text ∷ [])) b
unfolding kind as_bytes lenenc
pack-build_stmt_execute_packet_example =
    pack-build_stmt_execute_packet grant_all one_byte 0 9 0 (small_int ∷ no_value ∷ text ∷ [])
      (λ n. refl) refl (omega arith) (omega arith) (omega arith)
      (
        value_bind refl (is_int8 5 (omega arith)),
        (null_bind refl refl, (value_bind refl (is_str (65 ∷ 66 ∷ []) (omega arith)), tt)),
      )

abbrev day : Date
day = record {
  year = 2024;
  month = 2;
  day = 29;
  hour = 0;
  minute = 0;
  second = 0;
  micro_seconds = 0;
}

get_as-write_as_example :
    ((b : Builder) × (pack grant_all one_byte 0 (write_as grant_all date (as_date day) >> finalize)
        ≡ (ok tt, b))
      × IsPacket 0 (as_bytes date (as_date day)) b)
    × (((get_as date (reader_init (as_bytes date (as_date day) ++ 1 ∷ []) 6)).0 ≡ ok (as_date day))
        × Views (get_as date (reader_init (as_bytes date (as_date day) ++ 1 ∷ []) 6)).1 (1 ∷ []))
unfolding as_bytes date_bytes
get_as-write_as_example =
    get_as-write_as grant_all one_byte 0 date (as_date day) (1 ∷ []) (λ n. refl) refl (omega arith)
      (omega arith) (is_date day (record { year = omega arith; micro_seconds = omega arith }))
      (omega arith) (omega arith)

write_as-get_as_days_example :
    ((b : Builder) × (pack grant_all one_byte 0
          (write_as grant_all time (as_time (days_alone 3 true)) >> finalize)
        ≡ (ok tt, b))
      × IsPacket 0 (0 ∷ []) b)
    × ((get_as time (reader_init (0 ∷ []) 1)).0 ≡ ok (as_time zero_time))
write_as-get_as_days_example =
    write_as-get_as_days grant_all one_byte 0 3 true (λ n. refl) refl (omega arith) (omega arith)

-- A digest of two bytes, as good as any other here.
abbrev digest : List ℕ → List ℕ
digest xs = length xs % 256 ∷ 7 ∷ []

recovered-responses_example :
    (recovered digest
        (native_hash digest (1 ∷ 2 ∷ []) (65 ∷ []))
        (1 ∷ 2 ∷ [] ++ digest (digest (65 ∷ [])))
      ≡ digest (65 ∷ []))
    × (recovered digest
          (sha2_hash digest (1 ∷ 2 ∷ []) (65 ∷ []))
          (digest (digest (65 ∷ [])) ++ (1 ∷ 2 ∷ []))
        ≡ digest (65 ∷ []))
recovered-responses_example =
    recovered-responses digest digest (1 ∷ 2 ∷ []) (65 ∷ []) (λ xs ys. refl) (λ xs ys. refl)

abbrev salt : List ℕ
salt = replicate 20 9

pack-build_auth_packet_example :
    (b : Builder) × (pack grant_all one_byte 1 (
        build_auth_packet digest digest grant_all none
          (65 ∷ [])
          (some (66 ∷ []))
          45
          (some caching_sha2_password)
          salt
          0)
      ≡ (ok tt, b))
    × IsPacket 1
        (auth_bytes none
          (some (66 ∷ []))
          45
          0
          (response_of digest digest (65 ∷ []) caching_sha2_password salt))
        b
unfolding sha2_hash
pack-build_auth_packet_example =
    pack-build_auth_packet digest digest grant_all one_byte 1 none (65 ∷ []) (some (66 ∷ [])) 45
      caching_sha2_password salt 0 (λ n. refl) refl (omega arith) (omega arith) (omega arith)
      (omega arith) (omega arith)

pack-build_auth_switch_response_packet_example :
    ((switch_bytes digest digest (65 ∷ []) clear_password salt false ≡ none)
      × (pack grant_all one_byte 3 (
            build_auth_switch_response_packet digest digest grant_all
              (65 ∷ [])
              (some clear_password)
              salt
              false)
          ≡ (err auth_plugin_error, (builder_init grant_all one_byte 3).1)))
    ⊎ ((sent : List ℕ) × (switch_bytes digest digest (65 ∷ []) clear_password salt false
          ≡ some sent)
        × (b : Builder) × (pack grant_all one_byte 3 (
              build_auth_switch_response_packet digest digest grant_all
                (65 ∷ [])
                (some clear_password)
                salt
                false)
            ≡ (ok tt, b))
        × IsPacket 3 sent b)
pack-build_auth_switch_response_packet_example =
    pack-build_auth_switch_response_packet digest digest grant_all one_byte 3 (65 ∷ [])
      clear_password salt false (λ n. refl) refl (omega arith) (omega arith) (omega arith)
      (omega arith)

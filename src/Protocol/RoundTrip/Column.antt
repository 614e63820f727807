-- ===== src/Protocol/RoundTrip/Column.antt =====
-- Column definition packets.
use trilogy.Prelude.{
  ℕ, ◌^◌, ◌<◌, ◌≡◌, arith, Bool, true, false, List, [], ◌∷◌, ◌++◌, length, ok, if◌then◌else◌,
}
use trilogy.Wire.{le, lenenc, lenenc_str}
use trilogy.Reader.{size_mod}
use trilogy.Reader.Decode.{
  Decodes, Ends, Ends-bind, Decodes-done, Decodes-uint8, Decodes-uint16, Decodes-uint32,
}
use trilogy.Reader.Lenenc.{Decodes-lenenc, Decodes-lenenc_buffer}
use trilogy.Protocol.Types.{ColumnPacket}
use trilogy.Protocol.Rows.{parse_column_packet, parse_column_fields, column_default}
use trilogy.Protocol.RoundTrip.{parse_packet-Ends, Ends-finished, Ends-last}

-- A column definition: six strings, the length 12 of what follows, the fixed fields, and the default
-- value where a field list was asked for.
abbrev pub column_bytes : ColumnPacket → Bool → List ℕ
column_bytes c field_list =
    lenenc_str c.catalog
    ++ (lenenc_str c.schema
        ++ (lenenc_str c.table
            ++ (lenenc_str c.original_table
                ++ (lenenc_str c.name
                    ++ (lenenc_str c.original_name
                        ++ (lenenc 12
                            ++ (le 2 c.charset
                                ++ (le 4 c.len
                                    ++ (c.type ∷ []
                                        ++ (le 2 c.flags
                                            ++ (c.decimals ∷ []
                                                ++ (le 2 0
                                                    ++ (if field_list
                                                        then lenenc_str c.default_value
                                                        else [])))))))))))))

-- Numbers that fit their fields; a default value only in a field list.
pub record IsColumn (c : ColumnPacket) (field_list : Bool) : Type 0 where
  pub catalog : length c.catalog < 2 ^ 64
  pub schema : length c.schema < 2 ^ 64
  pub table : length c.table < 2 ^ 64
  pub original_table : length c.original_table < 2 ^ 64
  pub name : length c.name < 2 ^ 64
  pub original_name : length c.original_name < 2 ^ 64
  pub charset : c.charset < 2 ^ 16
  pub len : c.len < 2 ^ 32
  pub flags : c.flags < 2 ^ 16
  pub default_value : length c.default_value < 2 ^ 64
  pub default_if : c.default_value ≡ (if field_list then c.default_value else [])

column_default-Decodes :
    (field_list : Bool) (d : List ℕ)
    → length d < 2 ^ 64
    → d ≡ (if field_list then d else [])
    → Decodes (column_default field_list) (if field_list then lenenc_str d else []) d
unfolding column_default
column_default-Decodes true d h e = Decodes-lenenc_buffer d h
column_default-Decodes false d h e = rw e (Decodes-done [])

column_fields-Ends :
    (c : ColumnPacket) (field_list : Bool)
    → IsColumn c field_list
    → Ends (parse_column_fields field_list) (column_bytes c field_list) c
unfolding parse_column_fields
column_fields-Ends c f h = Ends-bind _ _ (Decodes-lenenc_buffer c.catalog h.catalog) (
    Ends-bind _ _ (Decodes-lenenc_buffer c.schema h.schema) (
      Ends-bind _ _ (Decodes-lenenc_buffer c.table h.table) (
        Ends-bind _ _ (Decodes-lenenc_buffer c.original_table h.original_table) (
          Ends-bind _ _ (Decodes-lenenc_buffer c.name h.name) (
            Ends-bind _ _ (Decodes-lenenc_buffer c.original_name h.original_name) (
              Ends-bind _ _ (Decodes-lenenc 12 (omega arith)) (
                Ends-bind _ _ (Decodes-uint16 c.charset h.charset) (
                  Ends-bind _ _ (Decodes-uint32 c.len h.len) (
                    Ends-bind _ _ (Decodes-uint8 c.type) (
                      Ends-bind _ _ (Decodes-uint16 c.flags h.flags) (
                        Ends-bind _ _ (Decodes-uint8 c.decimals) (
                          Ends-bind _ _ (Decodes-uint16 0 (omega arith)) (
                            Ends-last (column_default f) _
                              (column_default-Decodes f c.default_value h.default_value
                                h.default_if)
                              (Ends-finished c))))))))))))))

-- A column definition is parsed to the column it describes, with the default value of a field list and
-- without. The numbers fit their fields, and the packet fits the address space.
pub parse_column_packet-column_bytes :
    (c : ColumnPacket) (field_list : Bool)
    → IsColumn c field_list
    → length (column_bytes c field_list) < size_mod
    → parse_column_packet (column_bytes c field_list) field_list ≡ ok c
unfolding parse_column_packet
parse_column_packet-column_bytes c f h short =
    parse_packet-Ends _ (column_bytes c f) c (column_fields-Ends c f h) short

-- ===== src/Tests/Cells.antt =====
-- The rows, values and fields of results of the scripted library.
use amy.Prelude.{◌≡◌, refl, none, some, [], ◌∷◌, arith, ◌+◌, true, false}
use amy.Prelude.Int.{pos, negsuc}
use amy.Client.{FieldDef}
use amy.Client.Scripted.{Stored, delivery, field_delivery, protocol, open_table, row_data, lengths}
use amy.Errors.{success, returned}
use amy.Results.{Field, Row, new_row, fetch_fields, fetch_rows}
use amy.Results.Termination.{assign_result-fuel}
use amy.Results.Access.{got, out_of_range, undefined}
use amy.Results.FieldInfo
use amy.Results.FieldInfo.{FieldFlags}
use amy.Service
use amy.Service.Access.{result_set_at, cell, print_row}
use amy.Values.{sql_tinyint, value_cast_signed, field_as}
use amy.Values.Digits.{print, print_nat}
use amy.Connector.{query_result, query_result_ec}
use amy.Connector.Cells.{query_result-field_as}
use amy.Tests.{lib, session, opened, numbers, names, holding, held_set, stored_table}

-- The value "2" of the second row.
query_result-field_as_example :
    let (rs, ec, c) = query_result_ec lib [] opened in
    let f : Field = record { value_str = some (b'2' ∷ []); length = 1 } in
    (query_result lib [] opened ≡ (returned rs, c))
    × (cell lib c rs (pos 1) (pos 0) ≡ got f)
    × (field_as (value_cast_signed sql_tinyint) f ≡ some (pos 2))
unfolding Service.query Service.run_query Service.free_result print print_nat
query_result-field_as_example =
    query_result-field_as lib (delivery session) (protocol session) [] opened (open_table numbers)
      (none ∷ some (open_table names) ∷ []) 1 0
      (row_data (some (50 ∷ []) ∷ some (120 ∷ 121 ∷ []) ∷ []))
      (lengths (some (50 ∷ []) ∷ some (120 ∷ 121 ∷ []) ∷ [])) sql_tinyint (pos 2) [] refl refl refl
      (omega arith) (omega arith) (omega arith) refl (omega arith) tt

-- A row of a result that is allocated, and one of a result that was freed.
abbrev second_row : Row
second_row = new_row lib 0 stored_table (row_data (some (50 ∷ []) ∷ none ∷ [])) []

print_row_second :
    print_row lib holding second_row ≡ got (b'2' ∷ b' ' ∷ b'n' ∷ b'u' ∷ b'l' ∷ b'l' ∷ b' ' ∷ [])
unfolding print_row new_row
print_row_second = refl

print_row_freed : print_row lib (Service.free_result lib holding) second_row ≡ undefined
unfolding print_row new_row Service.free_result
print_row_freed = refl

-- An index that is negative converts to one that is out of range.
negative_index :
    result_set_at lib holding (record held_set { values = some [] }) (negsuc 0) ≡ out_of_range
unfolding result_set_at
negative_index = refl

-- The flags as in the headers of the library, and the key of a table that counts by itself.
abbrev flags : FieldFlags
flags = record {
  not_null_flag = 1;
  pri_key_flag = 2;
  unique_key_flag = 4;
  multiple_key_flag = 8;
  unsigned_flag = 32;
  zerofill_flag = 64;
  binary_flag = 128;
  auto_increment_flag = 512;
  no_default_value_flag = 4096;
}

abbrev key : FieldDef
key = record {
  name = b'i' ∷ b'd' ∷ 0 ∷ [];
  name_length = 2;
  length = 11;
  max_length = 2;
  flags = 4096 + 512 + 2 + 1;
}

key_info :
    (FieldInfo.name key ≡ b'i' ∷ b'd' ∷ [])
    × (FieldInfo.is_nullable flags key ≡ false)
    × (FieldInfo.is_primary_key flags key ≡ true)
    × (FieldInfo.is_unsigned flags key ≡ false)
    × (FieldInfo.has_default_value flags key ≡ true)
unfolding FieldInfo.name FieldInfo.is_nullable FieldInfo.is_primary_key FieldInfo.is_unsigned
    FieldInfo.has_default_value
key_info = (refl, refl, refl, refl, refl)

-- The table that `key` is the only column of.
abbrev keys : Stored
keys = open_table (record { width = 1; columns = key ∷ []; rows = (some (b'7' ∷ []) ∷ []) ∷ [] })

assign_result-fuel_example :
    let (info, r) = fetch_fields lib 2 keys in
    (fetch_fields lib 5 keys ≡ (info, r))
    × (info ≡ key ∷ [])
    × (fetch_rows lib 4 session 0 info r success ≡ fetch_rows lib 2 session 0 info r success)
assign_result-fuel_example =
    assign_result-fuel lib (delivery session) (field_delivery session) 5 4 session 0 keys success
      refl refl (omega arith) (omega arith)

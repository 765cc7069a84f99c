-- ===== src/Tests/Values.antt =====
-- Conversions of texts to numbers at concrete data.
use amy.Prelude.{◌≡◌, ◌%◌, ◌^◌, refl, some, [], ◌∷◌, arith}
use amy.Prelude.Int.{pos, negsuc}
use amy.Results.{Field}
use amy.Values.{
  strtol, sql_tinyint, sql_smallint_unsigned, sql_bigint, sql_tinyint_unsigned, value_cast_signed,
  value_cast_unsigned, value_cast_int8, value_cast_long, value_cast_uint16, cast_signed, field_as,
}
use amy.Values.Time.{value_cast_time}
use amy.Values.Digits.{print, print_nat}
use amy.Values.RoundTrip.{clamp, field_as-print, field_as-print_nat}
use amy.Values.Saturation.{clamp_unsigned, value_cast-print}

-- "-128" in a field of a TINYINT column.
abbrev minus_128 : Field
minus_128 = record { value_str = some (b'-' ∷ b'1' ∷ b'2' ∷ b'8' ∷ []); length = 4 }

-- "65535" in a field of an unsigned SMALLINT column.
abbrev all_ones : Field
all_ones = record { value_str = some (b'6' ∷ b'5' ∷ b'5' ∷ b'3' ∷ b'5' ∷ []); length = 5 }

field_as-print_example : field_as (value_cast_signed sql_tinyint) minus_128 ≡ some (negsuc 127)
unfolding print print_nat
field_as-print_example = field_as-print sql_tinyint (negsuc 127) [] minus_128 (omega arith) tt refl

field_as-print_nat_example :
    field_as (value_cast_unsigned sql_smallint_unsigned) all_ones ≡ some 65535
unfolding print_nat
field_as-print_nat_example =
    field_as-print_nat sql_smallint_unsigned 65535 [] all_ones (omega arith) tt refl

-- 2 ^ 64 in a signed BIGINT, and in an unsigned TINYINT.
value_cast-print_example :
    (value_cast_signed sql_bigint (print (pos (2 ^ 64)) []) 1
      ≡ cast_signed 64 (2 ^ 63) (clamp (2 ^ 63) (pos (2 ^ 64))))
    × (value_cast_unsigned sql_tinyint_unsigned (print (pos (2 ^ 64)) []) 1
        ≡ clamp_unsigned (2 ^ 64) (pos (2 ^ 64)) % 2 ^ 8)
value_cast-print_example = value_cast-print sql_bigint sql_tinyint_unsigned (pos (2 ^ 64)) [] 1 tt

-- " 300 " is no TINYINT, and wraps around.
wraps_around : value_cast_int8 (b' ' ∷ b'3' ∷ b'0' ∷ b'0' ∷ b' ' ∷ []) 5 ≡ pos 44
unfolding value_cast_int8
wraps_around = refl

-- "-1" as an unsigned SMALLINT.
minus_one_unsigned : value_cast_uint16 (b'-' ∷ b'1' ∷ []) 2 ≡ 65535
unfolding value_cast_uint16
minus_one_unsigned = refl

no_number : value_cast_long (b'a' ∷ b'1' ∷ []) 2 ≡ pos 0
unfolding value_cast_long
no_number = refl

-- A negative TIME, where the stream reads hours alone.
negative_time : value_cast_time (strtol (2 ^ 63)) (b'-' ∷ b'1' ∷ b'2' ∷ []) 3 ≡ some (negsuc 11)
unfolding value_cast_time strtol
negative_time = refl

-- ===== src/Values/RoundTrip.antt =====
-- The integers of each SQL type, read from the text that a server sends for them.
use amy.Prelude.{
  ℕ, suc, ◌-◌, ◌^◌, ◌≡◌, ◌<◌, refl, ap, sym, ◌∙◌, some, arith, ltb, leb, if◌then◌else◌,
}
use amy.Prelude.Int.{ℤ, pos, negsuc}
use amy.Client.{Bytes}
use amy.Results.{Field}
use amy.Values.{
  strtol, strtoul, negate, cast_signed, SignedType, sql_tinyint, sql_smallint, sql_mediumint,
  sql_int, sql_bigint, UnsignedType, sql_tinyint_unsigned, sql_smallint_unsigned,
  sql_mediumint_unsigned, sql_int_unsigned, sql_bigint_unsigned, value_cast_signed,
  value_cast_unsigned, value_cast_int8, value_cast_int16, value_cast_int32, value_cast_long,
  value_cast_uint8, value_cast_uint16, value_cast_uint32, value_cast_unsigned_long, field_as,
}
use amy.Values.Digits.{print, print_nat, DigitsEnd, subject-print_nat, magnitude-print_nat}

-- The integers from -half to half - 1.
abbrev pub Fits : ℕ → ℤ → Type 0
Fits half (pos n) = n < half
Fits half (negsuc n) = n < half

abbrev pub bits : SignedType → ℕ
bits sql_tinyint = 8
bits sql_smallint = 16
bits sql_mediumint = 32
bits sql_int = 32
bits sql_bigint = 64

-- One more than the greatest value of the type.
abbrev pub half : SignedType → ℕ
half sql_tinyint = 2 ^ 7
half sql_smallint = 2 ^ 15
half sql_mediumint = 2 ^ 31
half sql_int = 2 ^ 31
half sql_bigint = 2 ^ 63

abbrev pub bound : UnsignedType → ℕ
bound sql_tinyint_unsigned = 2 ^ 8
bound sql_smallint_unsigned = 2 ^ 16
bound sql_mediumint_unsigned = 2 ^ 32
bound sql_int_unsigned = 2 ^ 32
bound sql_bigint_unsigned = 2 ^ 64

-- The nearest integer from -half to half - 1.
abbrev pub clamp : ℕ → ℤ → ℤ
clamp half (pos n) = if ltb n half then pos n else pos (half - 1)
clamp half (negsuc n) = if ltb n half then negsuc n else negate half

pub strtol-print :
    (top : ℕ) (v : ℤ) (rest : Bytes) → DigitsEnd rest → strtol top (print v rest) ≡ clamp top v
unfolding strtol print
strtol-print top (pos n) rest h = rw (subject-print_nat n rest, magnitude-print_nat n rest h) refl
strtol-print top (negsuc n) rest h = rw (magnitude-print_nat (suc n) rest h) (ground arith)

pub strtoul-print_nat :
    (bound n : ℕ) (rest : Bytes)
    → DigitsEnd rest
    → strtoul bound (print_nat n rest) ≡ (if leb bound n then bound - 1 else n)
unfolding strtoul
strtoul-print_nat bound n rest h = rw (subject-print_nat n rest, magnitude-print_nat n rest h) refl

cast_signed_clamped : (v : ℤ) → cast_signed 64 (2 ^ 63) (clamp (2 ^ 63) v) ≡ clamp (2 ^ 63) v
cast_signed_clamped (pos n) = ground arith
cast_signed_clamped (negsuc n) = ground arith

-- Every integer, however large, is read as the nearest one of 64 bits, cast to the type.
pub value_cast_signed-clamp :
    (t : SignedType) (v : ℤ) (rest : Bytes) (l : ℕ)
    → DigitsEnd rest
    → value_cast_signed t (print v rest) l ≡ cast_signed (bits t) (half t) (clamp (2 ^ 63) v)
unfolding value_cast_signed
value_cast_signed-clamp sql_tinyint v rest l h =
    unfold value_cast_int8 in ap (cast_signed 8 (2 ^ 7)) (strtol-print (2 ^ 63) v rest h)
value_cast_signed-clamp sql_smallint v rest l h =
    unfold value_cast_int16 in ap (cast_signed 16 (2 ^ 15)) (strtol-print (2 ^ 63) v rest h)
value_cast_signed-clamp sql_mediumint v rest l h =
    unfold value_cast_int32 in ap (cast_signed 32 (2 ^ 31)) (strtol-print (2 ^ 63) v rest h)
value_cast_signed-clamp sql_int v rest l h =
    unfold value_cast_int32 in ap (cast_signed 32 (2 ^ 31)) (strtol-print (2 ^ 63) v rest h)
value_cast_signed-clamp sql_bigint v rest l h =
    unfold value_cast_long in strtol-print (2 ^ 63) v rest h ∙ sym (cast_signed_clamped v)

cast_signed-clamp :
    (t : SignedType) (v : ℤ)
    → Fits (half t) v
    → cast_signed (bits t) (half t) (clamp (2 ^ 63) v) ≡ v
cast_signed-clamp sql_tinyint (pos n) h = ground arith
cast_signed-clamp sql_tinyint (negsuc n) h = ground arith
cast_signed-clamp sql_smallint (pos n) h = ground arith
cast_signed-clamp sql_smallint (negsuc n) h = ground arith
cast_signed-clamp sql_mediumint (pos n) h = ground arith
cast_signed-clamp sql_mediumint (negsuc n) h = ground arith
cast_signed-clamp sql_int (pos n) h = ground arith
cast_signed-clamp sql_int (negsuc n) h = ground arith
cast_signed-clamp sql_bigint (pos n) h = ground arith
cast_signed-clamp sql_bigint (negsuc n) h = ground arith

value_cast_signed-print :
    (t : SignedType) (v : ℤ) (rest : Bytes) (l : ℕ)
    → Fits (half t) v
    → DigitsEnd rest
    → value_cast_signed t (print v rest) l ≡ v
value_cast_signed-print t v rest l fits h =
    value_cast_signed-clamp t v rest l h ∙ cast_signed-clamp t v fits

value_cast_unsigned-print_nat :
    (t : UnsignedType) (n : ℕ) (rest : Bytes) (l : ℕ)
    → n < bound t
    → DigitsEnd rest
    → value_cast_unsigned t (print_nat n rest) l ≡ n
unfolding value_cast_unsigned
value_cast_unsigned-print_nat sql_tinyint_unsigned n rest l fits h =
    unfold value_cast_uint8 in ground (arith, strtoul-print_nat (2 ^ 64) n rest h)
value_cast_unsigned-print_nat sql_smallint_unsigned n rest l fits h =
    unfold value_cast_uint16 in ground (arith, strtoul-print_nat (2 ^ 64) n rest h)
value_cast_unsigned-print_nat sql_mediumint_unsigned n rest l fits h =
    unfold value_cast_uint32 in ground (arith, strtoul-print_nat (2 ^ 64) n rest h)
value_cast_unsigned-print_nat sql_int_unsigned n rest l fits h =
    unfold value_cast_uint32 in ground (arith, strtoul-print_nat (2 ^ 64) n rest h)
value_cast_unsigned-print_nat sql_bigint_unsigned n rest l fits h =
    unfold value_cast_unsigned_long in ground (arith, strtoul-print_nat (2 ^ 64) n rest h)

-- A field that holds the decimal text of an integer that its type has is cast to that integer, for
-- each of the signed types, whatever stands behind the digits and whatever length the field has.
pub field_as-print :
    (t : SignedType) (v : ℤ) (rest : Bytes) (f : Field)
    → Fits (half t) v
    → DigitsEnd rest
    → f.value_str ≡ some (print v rest)
    → field_as (value_cast_signed t) f ≡ some v
unfolding field_as
field_as-print t v rest f fits h e =
    rw e (ap some (value_cast_signed-print t v rest f.length fits h))

-- A field that holds the decimal text of a natural number below the bound of an unsigned type is cast
-- to that number, for each of these types, among them the one whose cast goes through `int16_t`.
pub field_as-print_nat :
    (t : UnsignedType) (n : ℕ) (rest : Bytes) (f : Field)
    → n < bound t
    → DigitsEnd rest
    → f.value_str ≡ some (print_nat n rest)
    → field_as (value_cast_unsigned t) f ≡ some n
unfolding field_as
field_as-print_nat t n rest f fits h e =
    rw e (ap some (value_cast_unsigned-print_nat t n rest f.length fits h))

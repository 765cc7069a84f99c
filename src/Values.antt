-- ===== src/Values.antt =====
-- include/amy/detail/value_cast.hpp, with the integer types of include/amy/sql_types.hpp: from the text
-- of a value to a number. A `char const*` is the bytes at its address, where a terminator ends a number
-- as any other byte does that is no digit. The functions strtol, strtoll, strtoul and strtoull of the C
-- library are written out as the C standard gives them for base 10; `long` has 64 bits.
pub mod Digits
pub mod RoundTrip
pub mod Saturation
pub mod Time
use amy.Prelude.{
  ℕ, zero, suc, ◌+◌, ◌-◌, ◌*◌, ◌/◌, ◌%◌, ◌^◌, Bool, true, false, not, ◌&&◌, ◌||◌, Option, none,
  some, List, [], ◌∷◌, ltb, leb, take, ◌==◌, if◌then◌else◌,
}
use amy.Prelude.Int.{ℤ, pos, negsuc, ==ℤ, to_unsigned, to_signed}
use amy.Client.{Bytes}
use amy.Results.{Field}

-- `isspace` in the C locale.
abbrev pub is_space : ℕ → Bool
is_space c = c == b' ' || (leb 9 c && leb c 13)

abbrev pub is_digit : ℕ → Bool
is_digit c = leb b'0' c && leb c b'9'

unfoldable pub skip_spaces : Bytes → Bytes
skip_spaces [] = []
skip_spaces (c ∷ s) = if is_space c then skip_spaces s else c ∷ s

-- An optional sign: whether it is a minus, and what follows.
unfoldable pub read_sign : Bytes → Bool × Bytes
read_sign [] = (false, [])
read_sign (c ∷ s) =
    if c == b'-' then (true, s) else if c == b'+' then (false, s) else (false, c ∷ s)

-- The number that the digits at the front spell behind n, with no bound.
unfoldable pub magnitude : ℕ → Bytes → ℕ
magnitude n [] = n
magnitude n (c ∷ s) = if is_digit c then magnitude (n * 10 + (c - b'0')) s else n

abbrev pub negate : ℕ → ℤ
negate zero = pos 0
negate (suc n) = negsuc n

-- `strtol` and `strtoll` where the result type has the greatest value half - 1.
unfoldable pub strtol : ℕ → Bytes → ℤ
unfolding skip_spaces read_sign magnitude
strtol half s =
    let (minus, digits) = read_sign (skip_spaces s) in
    let n = magnitude 0 digits in
    if minus
    then (if ltb half n then negate half else negate n)
    else if ltb n half
    then pos n
    else pos (half - 1)

-- `strtoul` and `strtoull` where the result type has the values below `bound`. A minus negates within
-- that type.
unfoldable pub strtoul : ℕ → Bytes → ℕ
unfolding skip_spaces read_sign magnitude
strtoul bound s =
    let (minus, digits) = read_sign (skip_spaces s) in
    let n = magnitude 0 digits in
    if leb bound n then bound - 1 else if minus then (bound - n) % bound else n

-- `static_cast` to a signed type of w bits, where `half` is 2 ^ (w - 1).
abbrev pub cast_signed : ℕ → ℕ → ℤ → ℤ
cast_signed w half v = to_signed half (to_unsigned w v)

-- The specializations of `value_cast` for the signed types.
unfoldable pub value_cast_long_long : Bytes → ℕ → ℤ
unfolding strtol
value_cast_long_long s l = strtol (2 ^ 63) s

unfoldable pub value_cast_long : Bytes → ℕ → ℤ
unfolding strtol
value_cast_long s l = strtol (2 ^ 63) s

unfoldable pub value_cast_int32 : Bytes → ℕ → ℤ
unfolding strtol
value_cast_int32 s l = cast_signed 32 (2 ^ 31) (strtol (2 ^ 63) s)

unfoldable pub value_cast_int16 : Bytes → ℕ → ℤ
unfolding strtol
value_cast_int16 s l = cast_signed 16 (2 ^ 15) (strtol (2 ^ 63) s)

unfoldable pub value_cast_int8 : Bytes → ℕ → ℤ
unfolding strtol
value_cast_int8 s l = cast_signed 8 (2 ^ 7) (strtol (2 ^ 63) s)

unfoldable pub value_cast_bool : Bytes → ℕ → Bool
unfolding strtol
value_cast_bool s l = not (==ℤ (strtol (2 ^ 63) s) (pos 0))

-- Those for the unsigned types.
unfoldable pub value_cast_unsigned_long_long : Bytes → ℕ → ℕ
unfolding strtoul
value_cast_unsigned_long_long s l = strtoul (2 ^ 64) s

unfoldable pub value_cast_unsigned_long : Bytes → ℕ → ℕ
unfolding strtoul
value_cast_unsigned_long s l = strtoul (2 ^ 64) s

unfoldable pub value_cast_uint32 : Bytes → ℕ → ℕ
unfolding strtoul
value_cast_uint32 s l = strtoul (2 ^ 64) s % 2 ^ 32

-- The source casts to `int16_t`, and the return converts that to `uint16_t`.
unfoldable pub value_cast_uint16 : Bytes → ℕ → ℕ
unfolding strtoul
value_cast_uint16 s l = to_unsigned 16 (cast_signed 16 (2 ^ 15) (pos (strtoul (2 ^ 64) s)))

unfoldable pub value_cast_uint8 : Bytes → ℕ → ℕ
unfolding strtoul
value_cast_uint8 s l = strtoul (2 ^ 64) s % 2 ^ 8

-- The integer types of sql_types.hpp. `int64_t` is `long`, and so is `uint64_t` unsigned.
pub data SignedType : Type 0 where
  sql_tinyint sql_smallint sql_mediumint sql_int sql_bigint : SignedType

pub data UnsignedType : Type 0 where
  sql_tinyint_unsigned sql_smallint_unsigned : UnsignedType
  sql_mediumint_unsigned sql_int_unsigned sql_bigint_unsigned : UnsignedType

unfoldable pub value_cast_signed : SignedType → Bytes → ℕ → ℤ
unfolding value_cast_int8 value_cast_int16 value_cast_int32 value_cast_long
value_cast_signed sql_tinyint = value_cast_int8
value_cast_signed sql_smallint = value_cast_int16
value_cast_signed sql_mediumint = value_cast_int32
value_cast_signed sql_int = value_cast_int32
value_cast_signed sql_bigint = value_cast_long

unfoldable pub value_cast_unsigned : UnsignedType → Bytes → ℕ → ℕ
unfolding value_cast_uint8 value_cast_uint16 value_cast_uint32 value_cast_unsigned_long
value_cast_unsigned sql_tinyint_unsigned = value_cast_uint8
value_cast_unsigned sql_smallint_unsigned = value_cast_uint16
value_cast_unsigned sql_mediumint_unsigned = value_cast_uint32
value_cast_unsigned sql_int_unsigned = value_cast_uint32
value_cast_unsigned sql_bigint_unsigned = value_cast_unsigned_long

-- The specialization for `std::string`, which takes the given length; to read beyond the bytes at the
-- address is undefined, and stops here.
unfoldable pub value_cast_string : Bytes → ℕ → Bytes
value_cast_string s l = take l s

-- `field::as`; `none` is the failed assertion on a null value.
unfoldable pub field_as : {A : Type 0} → (Bytes → ℕ → A) → Field → Option A
field_as value_cast f = elim f.value_str [ none ↦ none | some s ↦ some (value_cast s f.length) ]

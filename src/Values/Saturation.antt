-- ===== src/Values/Saturation.antt =====
-- What the conversions make of the text of an integer that their type may not have.
use amy.Prelude.{ℕ, suc, ◌-◌, ◌%◌, ◌^◌, ◌≡◌, refl, ◌∙◌, arith, leb, if◌then◌else◌}
use amy.Prelude.Int.{ℤ, pos, negsuc, to_unsigned}
use amy.Client.{Bytes}
use amy.Values.{
  strtoul, cast_signed, SignedType, UnsignedType, sql_tinyint_unsigned, sql_smallint_unsigned,
  sql_mediumint_unsigned, sql_int_unsigned, sql_bigint_unsigned, value_cast_signed,
  value_cast_unsigned, value_cast_uint8, value_cast_uint16, value_cast_uint32,
  value_cast_unsigned_long,
}
use amy.Values.Digits.{print, DigitsEnd, magnitude-print_nat}
use amy.Values.RoundTrip.{bits, half, bound, clamp, value_cast_signed-clamp, strtoul-print_nat}

-- The natural number below `top` that an integer is read as where there is no sign: what it is modulo
-- `top`, or the greatest where its absolute value is not below `top`.
abbrev pub clamp_unsigned : ℕ → ℤ → ℕ
clamp_unsigned top (pos n) = if leb top n then top - 1 else n
clamp_unsigned top (negsuc n) = if leb top (suc n) then top - 1 else top - suc n

strtoul-print :
    (v : ℤ) (rest : Bytes)
    → DigitsEnd rest
    → strtoul (2 ^ 64) (print v rest) ≡ clamp_unsigned (2 ^ 64) v
unfolding print
strtoul-print (pos n) rest h = strtoul-print_nat (2 ^ 64) n rest h
strtoul-print (negsuc n) rest h =
    unfold strtoul in rw (magnitude-print_nat (suc n) rest h) (ground arith)

clamp_unsigned_mod : (v : ℤ) → clamp_unsigned (2 ^ 64) v ≡ clamp_unsigned (2 ^ 64) v % 2 ^ 64
clamp_unsigned_mod (pos n) = ground arith
clamp_unsigned_mod (negsuc n) = ground arith

cast_to_int16 : (n : ℕ) → to_unsigned 16 (cast_signed 16 (2 ^ 15) (pos n)) ≡ n % 2 ^ 16
cast_to_int16 n = ground arith

value_cast_unsigned-clamp :
    (u : UnsignedType) (v : ℤ) (rest : Bytes) (l : ℕ)
    → DigitsEnd rest
    → value_cast_unsigned u (print v rest) l ≡ clamp_unsigned (2 ^ 64) v % bound u
unfolding value_cast_unsigned
value_cast_unsigned-clamp sql_tinyint_unsigned v rest l h =
    unfold value_cast_uint8 in rw (strtoul-print v rest h) refl
value_cast_unsigned-clamp sql_smallint_unsigned v rest l h =
    unfold value_cast_uint16 in
    cast_to_int16 (strtoul (2 ^ 64) (print v rest)) ∙ rw (strtoul-print v rest h) refl
value_cast_unsigned-clamp sql_mediumint_unsigned v rest l h =
    unfold value_cast_uint32 in rw (strtoul-print v rest h) refl
value_cast_unsigned-clamp sql_int_unsigned v rest l h =
    unfold value_cast_uint32 in rw (strtoul-print v rest h) refl
value_cast_unsigned-clamp sql_bigint_unsigned v rest l h =
    unfold value_cast_unsigned_long in strtoul-print v rest h ∙ clamp_unsigned_mod v

-- The text of any integer, however large, with no further digit behind it: the conversions to the
-- signed types read the nearest integer of 64 bits; those to the unsigned types read a number below 2 ^ 64 as it is, negate that of
-- a negative text modulo 2 ^ 64, and read 2 ^ 64 - 1 where the absolute value is not below 2 ^ 64. Both
-- are then cast to the type.
pub value_cast-print :
    (t : SignedType) (u : UnsignedType) (v : ℤ) (rest : Bytes) (l : ℕ)
    → DigitsEnd rest
    → (value_cast_signed t (print v rest) l ≡ cast_signed (bits t) (half t) (clamp (2 ^ 63) v))
      × (value_cast_unsigned u (print v rest) l ≡ clamp_unsigned (2 ^ 64) v % bound u)
value_cast-print t u v rest l h =
    (value_cast_signed-clamp t v rest l h, value_cast_unsigned-clamp u v rest l h)

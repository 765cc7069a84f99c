-- ===== src/Values/Time.antt =====
-- The specializations of `value_cast` in include/amy/detail/value_cast.hpp that hand the text to another
-- library. What that library reads is a parameter.
use amy.Prelude.{
  ℕ, zero, suc, ◌≡◌, refl, false, Option, none, some, [], ◌∷◌, ◌==◌, if◌then◌else◌, take, length,
  take-length,
}
use amy.Prelude.Int.{ℤ, pos, negsuc}
use amy.Client.{Bytes}

-- `strtod` and `strtof`, which read to the terminator.
unfoldable pub value_cast_double : {A : Type 0} → (Bytes → A) → Bytes → ℕ → A
value_cast_double strtod s l = strtod s

unfoldable pub value_cast_float : {A : Type 0} → (Bytes → A) → Bytes → ℕ → A
value_cast_float strtof s l = strtof s

-- The template and the one for `sql_datetime`, which read from a stream of the given length: `read` is
-- what `in >> v` leaves in a fresh `v`.
unfoldable pub value_cast_stream : {A : Type 0} → (Bytes → A) → Bytes → ℕ → A
value_cast_stream read s l = read (take l s)

unfoldable pub value_cast_datetime : {A : Type 0} → (Bytes → A) → Bytes → ℕ → A
value_cast_datetime read s l = read (take l s)

abbrev pub minus : ℤ → ℤ
minus (pos zero) = pos zero
minus (pos (suc n)) = negsuc n
minus (negsuc n) = pos (suc n)

-- The one for `sql_time`, a number of ticks: a sign is read here, and the rest by the stream. `none` is
-- the failed assertion on an empty text.
unfoldable pub value_cast_time : (Bytes → ℤ) → Bytes → ℕ → Option ℤ
value_cast_time read [] l = none
value_cast_time read (c ∷ s) zero = none
value_cast_time read (c ∷ s) (suc l) =
    if c == b'-' then some (minus (read (take l s))) else some (read (c ∷ take l s))

-- A duration as a server writes it, where `write` gives the text without the sign.
abbrev pub write_time : (ℕ → Bytes) → ℤ → Bytes
write_time write (pos n) = write n
write_time write (negsuc n) = b'-' ∷ write (suc n)

abbrev pub Unsigned : Bytes → Type 0
Unsigned [] = ⊥
Unsigned (c ∷ s) = (c == b'-') ≡ false

value_cast_time-Unsigned :
    (read : Bytes → ℤ) (s : Bytes) → Unsigned s → value_cast_time read s (length s) ≡ some (read s)
unfolding value_cast_time
value_cast_time-Unsigned read [] h = absurd h
value_cast_time-Unsigned read (c ∷ s) h = rw (h, take-length s) refl

-- Where the stream reads a duration without a sign as it was written, `value_cast` reads negative ones
-- as well.
pub value_cast_time-write_time :
    (read : Bytes → ℤ) (write : ℕ → Bytes) (v : ℤ)
    → ((n : ℕ) → Unsigned (write n))
    → ((n : ℕ) → read (write n) ≡ pos n)
    → value_cast_time read (write_time write v) (length (write_time write v)) ≡ some v
unfolding value_cast_time
value_cast_time-write_time read write (pos n) no_sign reads =
    rw (value_cast_time-Unsigned read (write n) (no_sign n), reads n) refl
value_cast_time-write_time read write (negsuc n) no_sign reads =
    rw (take-length (write (suc n)), reads (suc n)) refl

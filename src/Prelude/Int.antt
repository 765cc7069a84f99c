-- ===== src/Prelude/Int.antt =====
-- Signed integers over the native numbers, and the conversions between `int` and `unsigned int`
-- of the 32-bit words that error codes pass through.
use Prim.Native.Nat.{ℕ, ◌+◌, ◌-◌, ◌^◌, ◌%◌, ◌<◌}
use mathlib.Core.Path.{◌≡◌}
use mathlib.Core.Logic.{◌↔◌}
use mathlib.Core.Bool.{Bool, true, false}
use native.Mathlib.Omega.{arith}
use amy.Prelude.Tests.{ltb, ◌==◌, if◌then◌else◌}

-- `negsuc n` is -(n + 1).
pub data ℤ : Type 0 where
  pos : ℕ → ℤ
  negsuc : ℕ → ℤ

pub ℤ-discrete : Discrete ℤ
ℤ-discrete = hlevel native.Mathlib.Decide.ℕ_discrete

abbrev pub ==ℤ : ℤ → ℤ → Bool
==ℤ (pos a) (pos b) = a == b
==ℤ (negsuc a) (negsuc b) = a == b
==ℤ _ _ = false

pub ==ℤ_iff : (a b : ℤ) → (==ℤ a b ≡ true) ↔ (a ≡ b)
==ℤ_iff (pos a) (pos b) = ground arith
==ℤ_iff (pos a) (negsuc b) = ground arith
==ℤ_iff (negsuc a) (pos b) = ground arith
==ℤ_iff (negsuc a) (negsuc b) = ground arith

-- The value modulo 2 ^ w, as a conversion to a w-bit unsigned type has it.
abbrev pub to_unsigned : ℕ → ℤ → ℕ
to_unsigned w (pos n) = n % 2 ^ w
to_unsigned w (negsuc n) = 2 ^ w - 1 - n % 2 ^ w

-- The w-bit pattern n read in two's complement (`half` is 2 ^ (w - 1)).
abbrev pub to_signed : ℕ → ℕ → ℤ
to_signed half n = if ltb n half then pos n else negsuc (half + half - 1 - n)

abbrev pub int_of_uint : ℕ → ℤ
int_of_uint n = to_signed (2 ^ 31) n

abbrev pub uint_of_int : ℤ → ℕ
uint_of_int = to_unsigned 32

pub uint_of_int-int_of_uint : (n : ℕ) → n < 2 ^ 32 → uint_of_int (int_of_uint n) ≡ n
uint_of_int-int_of_uint n h = ground arith

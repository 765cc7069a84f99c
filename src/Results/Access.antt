-- ===== src/Results/Access.antt =====
-- The accessors of include/amy/field.hpp and row.hpp, and printing a field.
use amy.Prelude.{ℕ, Option, length, none, some, List, [], ◌∷◌, ◌==◌, if◌then◌else◌, get_elem?}
use amy.Prelude.Int.{ℤ, to_unsigned}
use amy.Client.{Bytes}
use amy.Results.{Field, Row}

-- What an access to a vector or to a result does: `out_of_range` is the exception, `undefined` a
-- failed assertion or a pointer that no longer points at anything.
pub data Access (A : Type 0) : Type 0 where
  got : A → Access A
  out_of_range undefined : Access A

unfoldable pub then_access : {A B : Type 0} → Access A → (A → Access B) → Access B
then_access (got a) next = next a
then_access out_of_range next = out_of_range
then_access undefined next = undefined

-- `std::vector::at`, where a signed index is converted to `size_t`.
unfoldable pub vector_at : {A : Type 0} → List A → ℤ → Access A
vector_at xs i = elim (get_elem? xs (to_unsigned 64 i)) [ none ↦ out_of_range | some x ↦ got x ]

-- `row::at`, and `row::operator[]`, which does the same.
unfoldable pub row_at : Row → ℤ → Access Field
unfolding vector_at
row_at r index = vector_at r.fields index

-- The bytes before the terminator.
abbrev pub c_string : Bytes → Bytes
c_string [] = []
c_string (c ∷ s) = if c == 0 then [] else c ∷ c_string s

-- `operator<<` on a field.
unfoldable pub print_field : Field → Bytes
print_field f = elim f.value_str [ none ↦ b'n' ∷ b'u' ∷ b'l' ∷ b'l' ∷ [] | some s ↦ c_string s ]

-- The constructor of a field from a pointer alone, which measures the text with `strlen`.
abbrev pub of_c_string : Option Bytes → Field
of_c_string none = record { value_str = none; length = 0 }
of_c_string (some s) = record { value_str = some s; length = length (c_string s) }

-- `data()` and `size()` of a field.
abbrev pub data_of : Field → Option Bytes
data_of f = f.value_str

abbrev pub size_of : Field → ℕ
size_of f = f.length

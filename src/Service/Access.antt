-- ===== src/Service/Access.antt =====
-- The accessors of include/amy/result_set.hpp, and those of row.hpp that ask the client library, while
-- the connection has the value `c`.
use amy.Prelude.{ℕ, zero, suc, Option, none, some, List, [], ◌∷◌, ◌++◌, if◌then◌else◌}
use amy.Prelude.Int.{ℤ, int_of_uint}
use amy.Client.{ClientLib, Bytes, FieldDef}
use amy.Results.{Field, Row, ResultSet}
use amy.Results.Access.{Access, got, undefined, then_access, vector_at, row_at, print_field}
use amy.Service.{Conn, expired}

module _ (L : ClientLib) where
  -- `result_set::at`, and `result_set::operator[]`, which does the same.
  unfoldable pub result_set_at : Conn L → ResultSet → ℤ → Access Row
  unfolding expired vector_at
  result_set_at c s index =
      if expired L c s
      then undefined
      else elim s.values [ none ↦ undefined | some rows ↦ vector_at rows index ]

  -- `rs.at(i).at(k)`.
  unfoldable pub cell : Conn L → ResultSet → ℤ → ℤ → Access Field
  unfolding result_set_at then_access row_at
  cell c s i k = then_access (result_set_at c s i) (λ r. row_at r k)

  -- `result_set::fields_info`.
  unfoldable pub fields_info : Conn L → ResultSet → Access (List FieldDef)
  unfolding expired
  fields_info c s =
      if expired L c s
      then undefined
      else elim s.fields_info [ none ↦ undefined | some info ↦ got info ]

  -- `result_set::native`; `none` is a null pointer.
  unfoldable pub native : Conn L → ResultSet → Option ℕ
  unfolding expired
  native c s = if expired L c s then none else s.result_set

  -- `result_set::field_count` and `result_set::affected_rows` ask the connection.
  unfoldable pub field_count : Conn L → ResultSet → Access ℕ
  field_count c s = if s.mysql then got (L.field_count c.mysql) else undefined

  unfoldable pub set_affected_rows : Conn L → ResultSet → Access ℕ
  set_affected_rows c s = if s.mysql then got (L.affected_rows c.mysql) else undefined

  -- `row::size`, through a plain pointer to the result.
  unfoldable pub row_size : Conn L → Row → Access ℕ
  row_size c r = elim (c.results r.result_set) [ none ↦ undefined | some x ↦ got (L.num_fields x) ]

  -- The loop of `operator<<` on a row, with the rounds that are left and the index.
  unfoldable pub print_fields : ℕ → ℕ → Row → Access Bytes
  unfolding then_access row_at print_field
  print_fields zero i r = got []
  print_fields (suc n) i r =
      then_access (row_at r (int_of_uint i))
        (λ f. then_access (print_fields n (suc i) r) (λ text. got (print_field f ++ (b' ' ∷ text))))

  -- `operator<<` on a row. Its size does not change between the rounds.
  unfoldable pub print_row : Conn L → Row → Access Bytes
  unfolding then_access row_size print_fields
  print_row c r = then_access (row_size c r) (λ n. print_fields n 0 r)

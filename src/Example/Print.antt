-- ===== src/Example/Print.antt =====
-- What the programs print of a result set, while the connection has the value `c`.
use amy.Prelude.{Option, none, some, List, [], ◌∷◌}
use amy.Prelude.Int.{ℤ, pos}
use amy.Client.{ClientLib, Bytes, FieldDef}
use amy.Results.{Row, ResultSet}
use amy.Results.Access.{Access, got, undefined, then_access, vector_at, row_at}
use amy.Results.FieldInfo
use amy.Service
use amy.Service.{Conn}
use amy.Service.Access.{set_affected_rows, field_count, fields_info, print_row}
use amy.Values.{value_cast_string, value_cast_long, field_as}
use amy.Example.{Line, counts, row_line, pairs, undefined_behaviour, Printed, followed, line}

-- `as`, where a null value fails an assertion.
abbrev pub cast : {A : Type 0} → Option A → Access A
cast none = undefined
cast (some a) = got a

module _ (L : ClientLib) where
  -- The line of counts.
  unfoldable pub print_counts : Conn L → ResultSet → Printed
  unfolding set_affected_rows field_count
  print_counts c rs =
      line (λ (l : Line). l)
        (then_access (set_affected_rows L c rs) (λ rows.
          then_access (field_count L c rs)
            (λ fields. got (counts rows fields (Service.size L c rs)))))

  unfoldable pub print_rows : Conn L → List Row → Printed
  print_rows c [] = ([], none)
  print_rows c (r ∷ rs) = followed (line row_line (print_row L c r)) (print_rows c rs)

  -- From `begin()` to `end()`, which a set without rows after an error does not have.
  abbrev pub each_row : (List Row → Printed) → ResultSet → Printed
  each_row f rs = elim rs.values [ none ↦ ([], some undefined_behaviour) | some rows ↦ f rows ]

  -- The body of the loop of blocking_multi_query.cpp, and the start of `handle_store_result` of
  -- async_multi_query.cpp.
  unfoldable pub print_result_set : Conn L → ResultSet → Printed
  unfolding print_counts print_rows
  print_result_set c rs = followed (print_counts c rs) (each_row (print_rows c) rs)

  -- The body of the loop over rows of blocking_single_query.cpp and async_single_query.cpp. An access
  -- to `fields_info` beyond its end is undefined.
  unfoldable pub print_pair : List FieldDef → Row → Printed
  unfolding row_at field_as
  print_pair info r =
      let name = λ (i : ℤ). elim (vector_at info i) as (λ _. Access Bytes) [
        | got d ↦ got (FieldInfo.name d)
        | _ ↦ undefined
      ] in
      line (λ (l : Line). l)
        (then_access (name (pos 0)) (λ first. then_access (row_at r (pos 0)) (λ f.
          then_access (cast (field_as value_cast_string f)) (λ text.
            then_access (name (pos 1)) (λ second. then_access (row_at r (pos 1)) (λ g.
              then_access (cast (field_as value_cast_long g))
                (λ v. got (pairs first text second v))))))))

  unfoldable pub print_pair_rows : List FieldDef → List Row → Printed
  unfolding print_pair
  print_pair_rows info [] = ([], none)
  print_pair_rows info (r ∷ rs) = followed (print_pair info r) (print_pair_rows info rs)

  -- What blocking_single_query.cpp prints after it has stored the result, and `handle_store_result` of
  -- async_single_query.cpp.
  unfoldable pub print_pairs : Conn L → ResultSet → Printed
  unfolding print_counts print_pair_rows fields_info
  print_pairs c rs = followed (print_counts c rs) (elim (fields_info L c rs) [
    | got info ↦ each_row (print_pair_rows info) rs
    | _ ↦ ([], some undefined_behaviour)
  ])

-- ===== src/Example/Text.antt =====
-- What is printed of a result set that `store_result` has returned.
use amy.Prelude.{
  ℕ, suc, ◌+◌, ◌≡◌, ◌≤◌, ◌<◌, ◌^◌, refl, ap, subst, none, some, List, [], ◌∷◌, ◌++◌, length,
  get_elem?, arith,
}
use amy.Prelude.Int.{pos, int_of_uint}
use amy.Client.{ClientLib, Bytes}
use amy.Results.{Field, Row, ResultSet}
use amy.Results.Access.{got, row_at, then_access, print_field}
use amy.Results.Fetch.{view, rows_fields}
use amy.Service.{Conn}
use amy.Service.Access.{row_size, print_fields, print_row}
use amy.Service.Cells.{vector_at-got}
use amy.Service.Printing.{Sized, Printable, length-rows_fields}
use amy.Example.{Line, counts, row_line}
use amy.Example.Print.{print_counts, print_rows, print_result_set}

-- The text of a row: each field and a blank.
abbrev pub row_text : List Field → Bytes
row_text [] = []
row_text (f ∷ fs) = print_field f ++ (b' ' ∷ row_text fs)

abbrev pub row_lines : List (List Field) → List Line
row_lines [] = []
row_lines (r ∷ rs) = row_line (row_text r) ∷ row_lines rs

row_at-got :
    (r : Row) (i : ℕ) (f : Field)
    → get_elem? r.fields i ≡ some f
    → i < 2 ^ 31
    → row_at r (int_of_uint i) ≡ got f
unfolding row_at
row_at-got r i f e h =
    let same : int_of_uint i ≡ pos i = ground arith in
    rw same (vector_at-got r.fields i f e (omega arith))

module _ (L : ClientLib) where
  print_fields-from :
      (fs : List Field) (i : ℕ) (r : Row)
      → ((k : ℕ) → get_elem? r.fields (i + k) ≡ get_elem? fs k)
      → i + length fs ≤ 2 ^ 31
      → print_fields L (length fs) i r ≡ got (row_text fs)
  unfolding print_fields then_access
  print_fields-from [] i r at h = refl
  print_fields-from (f ∷ fs) i r at h =
      let here : get_elem? r.fields i ≡ some f =
        subst (λ n. get_elem? r.fields n ≡ some f) (omega arith) (at 0) in
      let later : (k : ℕ) → get_elem? r.fields (suc i + k) ≡ get_elem? fs k =
        λ k. subst (λ n. get_elem? r.fields n ≡ get_elem? fs k) (omega arith) (at (suc k)) in
      rw (row_at-got r i f here (omega arith), print_fields-from fs (suc i) r later (omega arith))
        refl

  print_row-row_text :
      (c : Conn L) (r : Row)
      → row_size L c r ≡ got (length r.fields)
      → length r.fields < 2 ^ 31
      → print_row L c r ≡ got (row_text r.fields)
  unfolding print_row then_access
  print_row-row_text c r sized small =
      rw sized
        (print_fields-from r.fields 0 r (λ k. ap (get_elem? r.fields) (omega arith)) (omega arith))

  print_rows-row_lines :
      (c : Conn L) (rows : List Row)
      → Sized L c rows
      → print_rows L c rows ≡ (row_lines (rows_fields rows), none)
  unfolding print_rows
  print_rows-row_lines c [] sized = refl
  print_rows-row_lines c (r ∷ rs) (sized, small, rest) =
      rw (print_row-row_text c r sized small, print_rows-row_lines c rs rest) refl

  -- Every row is printed, below the counts of the connection and of the set.
  pub print_result_set-row_lines :
      (c : Conn L) (rs : ResultSet)
      → Printable L c rs
      → print_result_set L c rs ≡ (
        counts (L.affected_rows c.mysql) (L.field_count c.mysql) (length (view rs))
            ∷ row_lines (view rs),
        none,
      )
  unfolding print_result_set print_counts then_access amy.Service.size
  print_result_set-row_lines c rs (linked, (rows, values, counted, sized)) =
      rw (values, linked, counted, print_rows-row_lines c rows sized, length-rows_fields rows) refl

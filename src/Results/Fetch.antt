-- ===== src/Results/Fetch.antt =====
-- The loops of `result_set::assign` over a stored result.
use amy.Prelude.{
  ℕ, zero, suc, ◌+◌, ◌≡◌, ◌<◌, refl, subst, false, none, some, List, [], ◌∷◌, arith, length,
  get_elem?,
}
use native.Mathlib.Nat.{add-zero}
use amy.Errors.{ErrorCode, success, client_error, is_error, is_error-client_error}
use amy.Client.{ClientLib, RowData, FieldDef}
use amy.Client.Protocol.{Delivery, IsFresh}
use amy.Results.{
  Field, Row, ResultSet, new_result_set, build_from, build_fields, fetch_fields, fetch_rows,
  assign_result,
}

-- The fields of each row of a result set.
abbrev pub rows_fields : List Row → List (List Field)
rows_fields [] = []
rows_fields (r ∷ rs) = r.fields ∷ rows_fields rs

abbrev pub view : ResultSet → List (List Field)
view s = elim s.values [ none ↦ [] | some rows ↦ rows_fields rows ]

-- The fields that rows of the given width stand for.
abbrev pub table_rows : ℕ → List (RowData × (ℕ → ℕ)) → List (List Field)
table_rows width [] = []
table_rows width ((row, lengths) ∷ rest) = build_fields width row lengths ∷ table_rows width rest

module _ (L : ClientLib) (D : Delivery L) where
  pub fetch_fields-rows : (fuel : ℕ) (r : L.Res) → D.rows (fetch_fields L fuel r).1 ≡ D.rows r
  unfolding fetch_fields
  fetch_fields-rows zero r = refl
  fetch_fields-rows (suc fuel) r =
      ground (arith, D.field_rows r, fetch_fields-rows fuel (L.fetch_field r).1)

  pub fetch_fields-width :
      (fuel : ℕ) (r : L.Res) → L.num_fields (fetch_fields L fuel r).1 ≡ L.num_fields r
  unfolding fetch_fields
  fetch_fields-width zero r = refl
  fetch_fields-width (suc fuel) r =
      ground (arith, D.field_width r, fetch_fields-width fuel (L.fetch_field r).1)

  -- With more fuel than rows the loop ends at the null pointer, and has pushed every row in order.
  pub fetch_rows-all :
      (fuel : ℕ) (rows : List (RowData × (ℕ → ℕ))) (m : L.Handle) (address : ℕ)
      (info : List FieldDef) (r : L.Res) (ec : ErrorCode)
      → D.rows r ≡ rows
      → length rows < fuel
      → (rows_fields (fetch_rows L fuel m address info r ec).0 ≡ table_rows (L.num_fields r) rows)
        × ((fetch_rows L fuel m address info r ec).1 ≡ client_error (L.errno m))
  unfolding fetch_rows
  fetch_rows-all zero rows m address info r ec e h = absurd (omega arith)
  fetch_rows-all (suc fuel) [] m address info r ec e h = ground (arith, D.row_end r e)
  fetch_rows-all (suc fuel) ((row, lengths) ∷ rest) m address info r ec e h = ground (
    arith,
    D.row_next r row lengths rest e,
    D.row_width r,
    fetch_rows-all fuel rest m address info (L.fetch_row r).1 success,
  )

  assign_result_rows :
      (rows : List (RowData × (ℕ → ℕ))) (m : L.Handle) (address : ℕ) (r : L.Res) (ec : ErrorCode)
      → D.rows r ≡ rows
      → L.num_rows r ≡ length rows
      → L.errno m ≡ 0
      → is_error ec ≡ false
      → let (s, ec', _) = assign_result L m address r new_result_set ec in
        (view s ≡ table_rows (L.num_fields r) rows)
        × (s.result_set ≡ some address)
        × (is_error ec' ≡ false)
  unfolding assign_result
  assign_result_rows [] m address r ec e n no_error clean = ground arith
  assign_result_rows (x ∷ xs) m address r ec e n no_error clean = ground (
    arith,
    fetch_fields-rows (suc (L.num_fields r)) r,
    fetch_fields-width (suc (L.num_fields r)) r,
    fetch_rows-all (suc (L.num_rows r)) (x ∷ xs) m address
        (fetch_fields L (suc (L.num_fields r)) r).0 (fetch_fields L (suc (L.num_fields r)) r).1 ec,
    is_error-client_error (L.errno m),
  )

  -- On a fresh stored result, with no error pending on the connection and in `ec`, `assign` fetches
  -- every row in order with all of its values, binds the result set to the result, and leaves no
  -- error in `ec`.
  pub assign_result_complete :
      (m : L.Handle) (address : ℕ) (r : L.Res) (ec : ErrorCode)
      → IsFresh L D r
      → L.errno m ≡ 0
      → is_error ec ≡ false
      → let (s, ec', _) = assign_result L m address r new_result_set ec in
        (view s ≡ table_rows (L.num_fields r) (D.rows r))
        × (s.result_set ≡ some address)
        × (is_error ec' ≡ false)
  assign_result_complete m address r ec fresh no_error clean =
      assign_result_rows (D.rows r) m address r ec refl fresh no_error clean

  -- With an error pending on the connection a result with rows is read in vain: `assign` reports that
  -- error and drops rows, fields and the link to the result.
  pub assign_result_failed :
      (m : L.Handle) (address : ℕ) (r : L.Res) (ec : ErrorCode)
      → IsFresh L D r
      → 0 < L.num_rows r
      → 0 < L.errno m
      → let (s, ec', _) = assign_result L m address r new_result_set ec in
        (ec' ≡ client_error (L.errno m))
        × (s.values ≡ none)
        × (s.fields_info ≡ none)
        × (s.result_set ≡ none)
  unfolding assign_result
  assign_result_failed m address r ec fresh some_rows failed = ground (
    arith,
    fetch_fields-rows (suc (L.num_fields r)) r,
    fetch_rows-all (suc (L.num_rows r)) (D.rows r) m address
        (fetch_fields L (suc (L.num_fields r)) r).0 (fetch_fields L (suc (L.num_fields r)) r).1 ec,
    is_error-client_error (L.errno m),
  )

-- `build_fields` at each index: the value and the length that the row has there.
get_elem?-build_from :
    (n i k : ℕ) (row : RowData) (lengths : ℕ → ℕ)
    → k < n
    → get_elem? (build_from n i row lengths) k
      ≡ some (record { value_str = row (i + k); length = lengths (i + k) })
unfolding build_from
get_elem?-build_from zero i k row lengths h = elim h [ ]
get_elem?-build_from (suc n) i zero row lengths h = rw add-zero
get_elem?-build_from (suc n) i (suc k) row lengths h =
    let shift : i + suc k ≡ suc i + k = omega arith in
    rw shift (get_elem?-build_from n (suc i) k row lengths (omega arith))

pub get_elem?-build_fields :
    (width k : ℕ) (row : RowData) (lengths : ℕ → ℕ)
    → k < width
    → get_elem? (build_fields width row lengths) k
      ≡ some (record { value_str = row k; length = lengths k })
unfolding build_fields
get_elem?-build_fields width k row lengths h =
    subst
      (λ n.
        get_elem? (build_from width 0 row lengths) k
        ≡ some (record { value_str = row n; length = lengths n }))
      (omega arith) (get_elem?-build_from width 0 k row lengths h)

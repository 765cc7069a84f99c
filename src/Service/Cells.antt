-- ===== src/Service/Cells.antt =====
-- Reading the values of a result set that `store_result` has returned.
use amy.Prelude.{
  ℕ, zero, suc, ◌≡◌, ◌<◌, refl, sym, subst, Bool, true, false, Option, none, some, List, [], ◌∷◌,
  ◌^◌, ◌%◌, arith, get_elem?, if◌then◌else◌, ==_iff,
}
use amy.Prelude.Int.{pos}
use amy.Errors.{ErrorCode, success, is_error}
use amy.Client.{ClientLib, RowData}
use amy.Client.Protocol.{Delivery, Protocol}
use amy.Ops.{mysql_store_result}
use amy.Results.{Field, Row, ResultSet, build_fields, empty_set, assign_result}
use amy.Results.Access.{got, out_of_range, then_access, vector_at, row_at}
use amy.Results.Fetch.{view, rows_fields, table_rows, get_elem?-build_fields}
use amy.Service.{
  Conn, advance, retrieve, allocate, reset_result, assign_last, store_result, expired,
}
use amy.Service.Access.{result_set_at, cell}
use amy.Service.MoreResults.{store_result_first}

pub vector_at-got :
    {A : Type 0} (xs : List A) (i : ℕ) (x : A)
    → get_elem? xs i ≡ some x
    → i < 2 ^ 63
    → vector_at xs (pos i) ≡ got x
unfolding vector_at
vector_at-got xs i x e h =
    let same : i % 2 ^ 64 ≡ i = ground arith in
    subst (λ n. elim (get_elem? xs n) [ none ↦ out_of_range | some y ↦ got y ] ≡ got x) (sym same)
      (rw e refl)

get_elem?-table_rows :
    (width : ℕ) (rows : List (RowData × (ℕ → ℕ))) (i : ℕ) (row : RowData) (lengths : ℕ → ℕ)
    → get_elem? rows i ≡ some (row, lengths)
    → get_elem? (table_rows width rows) i ≡ some (build_fields width row lengths)
get_elem?-table_rows width [] i row lengths e = absurd (ground arith)
get_elem?-table_rows width (x ∷ xs) zero row lengths e = ground arith
get_elem?-table_rows width (x ∷ xs) (suc i) row lengths e =
    get_elem?-table_rows width xs i row lengths e

-- The row behind an entry of `rows_fields`.
get_elem?-rows_fields :
    (rows : List Row) (i : ℕ) (fields : List Field)
    → get_elem? (rows_fields rows) i ≡ some fields
    → (r : Row) × (get_elem? rows i ≡ some r) × (r.fields ≡ fields)
get_elem?-rows_fields [] i fields e = absurd (ground arith)
get_elem?-rows_fields (r ∷ rs) zero fields e = (r, refl, ground arith)
get_elem?-rows_fields (r ∷ rs) (suc i) fields e = get_elem?-rows_fields rs i fields e

module _ (L : ClientLib) where
  -- An entry of what a result set shows is reached through its accessors.
  cell-view :
      (c : Conn L) (s : ResultSet) (rows : Option (List Row)) (i k : ℕ) (fields : List Field)
      (f : Field)
      → s.values ≡ rows
      → expired L c s ≡ false
      → get_elem? (view s) i ≡ some fields
      → get_elem? fields k ≡ some f
      → i < 2 ^ 63
      → k < 2 ^ 63
      → cell L c s (pos i) (pos k) ≡ got f
  unfolding cell result_set_at then_access row_at
  cell-view c s none i k fields f v live e₁ e₂ hi hk = absurd (ground arith)
  cell-view c s (some rows) i k fields f v live e₁ e₂ hi hk =
      let (r, at_i, same) = get_elem?-rows_fields rows i fields (ground arith) in
      ground (arith, vector_at-got rows i r at_i hi, vector_at-got r.fields k f (ground arith) hk)

  assign_last-live :
      (ec : ErrorCode) (c : Conn L) (last : Option ℕ) (i : ℕ) (fields : List Field)
      → c.last_result ≡ last
      → get_elem? (view (assign_last L ec c).0) i ≡ some fields
      → expired L (assign_last L ec c).2 (assign_last L ec c).0 ≡ false
  unfolding assign_last assign_result expired
  assign_last-live ec c none i fields link e = absurd (ground arith)
  assign_last-live ec c (some a) i fields link e = ground (arith, ==_iff a a)

  retrieve-live :
      (c : Conn L) (i : ℕ) (fields : List Field)
      → get_elem? (view (retrieve L c).0) i ≡ some fields
      → expired L (retrieve L c).2 (retrieve L c).0 ≡ false
  unfolding retrieve
  retrieve-live c i fields e =
      let (r, ec, m) = mysql_store_result L c.mysql in
      let c' : Conn L =
        reset_result L (allocate L r (record c { mysql = m })).0
          (allocate L r (record c { mysql = m })).1 in
      assign_last-live ec c' c'.last_result i fields refl e

  -- A result set that shows a row is linked to a result that is allocated.
  store_result-live :
      (ec : ErrorCode) (c : Conn L) (i : ℕ) (fields : List Field)
      → get_elem? (view (store_result L ec c).0) i ≡ some fields
      → expired L (store_result L ec c).2 (store_result L ec c).0 ≡ false
  unfolding store_result
  store_result-live ec c i fields e = by_error (is_error (advance L ec c).0) e
    where
      outcome : Bool → ResultSet × ErrorCode × Conn L
      outcome b =
          if b
          then (empty_set, (advance L ec c).0, (advance L ec c).1)
          else retrieve L (advance L ec c).1

      by_error :
          (b : Bool)
          → get_elem? (view (outcome b).0) i ≡ some fields
          → expired L (outcome b).2 (outcome b).0 ≡ false
      by_error true e = absurd (ground arith)
      by_error false e = retrieve-live (advance L ec c).1 i fields e

module _ (L : ClientLib) (D : Delivery L) (P : Protocol L D) where
  -- After a query, `store_result` returns a set in which `at(i).at(k)` is the value k of the row i that
  -- the server delivers, with its length.
  pub store_result-cell :
      (c : Conn L) (r : L.Res) (rest : List (Option L.Res)) (i k : ℕ) (row : RowData)
      (lengths : ℕ → ℕ)
      → P.pending c.mysql ≡ some r ∷ rest
      → c.first_result_stored ≡ false
      → get_elem? (D.rows r) i ≡ some (row, lengths)
      → k < L.num_fields r
      → i < 2 ^ 63
      → k < 2 ^ 63
      → let (rs, ec, c') = store_result L success c in
        (is_error ec ≡ false)
        × (cell L c' rs (pos i) (pos k) ≡ got (record { value_str = row k; length = lengths k }))
  store_result-cell c r rest i k row lengths e first at_i in_row hi hk =
      let (rs, ec, c') = store_result L success c in
      let (shown, clean, _, _) = store_result_first L D P (some r) rest c e first in
      let fields = build_fields (L.num_fields r) row lengths in
      let entry : get_elem? (view rs) i ≡ some fields =
        rw shown (get_elem?-table_rows (L.num_fields r) (D.rows r) i row lengths at_i) in
      let value = get_elem?-build_fields (L.num_fields r) k row lengths in_row in
      (
        clean,
        cell-view L c' rs rs.values i k fields _ refl (store_result-live L success c i fields entry)
            entry value hi hk,
      )

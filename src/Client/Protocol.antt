-- ===== src/Client/Protocol.antt =====
-- What the manual of the client library says of stored results and of multiple results, as far as
-- the theorems about reading them rely on it.
use amy.Prelude.{ℕ, ◌≡◌, Option, none, some, List, [], ◌∷◌, length, leb}
use amy.Prelude.Int.{pos}
use amy.Client.{ClientLib, RowData, FieldDef}

-- `mysql_fetch_row` returns the rows of a stored result in their order and then a null pointer, and
-- `mysql_fetch_lengths` the lengths of the row that was fetched last. Fetching a row or a field changes
-- neither the number of fields nor that of rows, and a field not the rows that are still to come.
pub record Delivery (L : ClientLib) : Type 0 where
  -- The rows that are still to be fetched, with the lengths of their values.
  pub rows : L.Res → List (RowData × (ℕ → ℕ))
  pub row_end : (r : L.Res) → rows r ≡ [] → (L.fetch_row r).0 ≡ none
  pub row_next :
      (r : L.Res) (row : RowData) (lengths : ℕ → ℕ) (rest : List (RowData × (ℕ → ℕ)))
      → rows r ≡ (row, lengths) ∷ rest
      → ((L.fetch_row r).0 ≡ some row)
        × (L.fetch_lengths (L.fetch_row r).1 ≡ lengths)
        × (rows (L.fetch_row r).1 ≡ rest)
  pub row_width : (r : L.Res) → L.num_fields (L.fetch_row r).1 ≡ L.num_fields r
  pub field_rows : (r : L.Res) → rows (L.fetch_field r).1 ≡ rows r
  pub field_width : (r : L.Res) → L.num_fields (L.fetch_field r).1 ≡ L.num_fields r
  pub row_count : (r : L.Res) → L.num_rows (L.fetch_row r).1 ≡ L.num_rows r
  pub field_rows_count : (r : L.Res) → L.num_rows (L.fetch_field r).1 ≡ L.num_rows r

-- `mysql_fetch_field` returns the definitions of the columns in their order and then a null pointer.
pub record FieldDelivery (L : ClientLib) : Type 0 where
  -- The definitions that are still to be fetched.
  pub fields : L.Res → List FieldDef
  pub field_end : (r : L.Res) → fields r ≡ [] → (L.fetch_field r).0 ≡ none
  pub field_next :
      (r : L.Res) (d : FieldDef) (rest : List FieldDef)
      → fields r ≡ d ∷ rest
      → ((L.fetch_field r).0 ≡ some d) × (fields (L.fetch_field r).1 ≡ rest)

-- A result that `mysql_store_result` has just returned: nothing of it is fetched, so
-- `mysql_num_rows` counts what is to come.
abbrev pub IsFresh : (L : ClientLib) → Delivery L → L.Res → Type 0
IsFresh L D r = L.num_rows r ≡ length (D.rows r)

-- The results of the statements of one query, the one that the connection stands at first; `none`
-- is a statement that returns no rows. `mysql_more_results` asks for one after it,
-- `mysql_next_result` moves to that with the value 0, and `mysql_store_result` reads the one at
-- hand, without an error, and stays at it. The source reads each result once, since it moves on before
-- it reads again.
pub record Protocol (L : ClientLib) (D : Delivery L) : Type 0 where
  pub pending : L.Handle → List (Option L.Res)
  pub more : (m : L.Handle) → L.more_results m ≡ leb 2 (length (pending m))
  pub next :
      (m : L.Handle) (x y : Option L.Res) (rest : List (Option L.Res))
      → pending m ≡ x ∷ y ∷ rest
      → ((L.next_result m).0 ≡ pos 0) × (pending (L.next_result m).1 ≡ y ∷ rest)
  pub store :
      (m : L.Handle) (x : Option L.Res) (rest : List (Option L.Res))
      → pending m ≡ x ∷ rest
      → ((L.store_result m).0 ≡ x)
        × (pending (L.store_result m).1 ≡ x ∷ rest)
        × (L.errno (L.store_result m).1 ≡ 0)
  pub fresh :
      (m : L.Handle) (r : L.Res) (rest : List (Option L.Res))
      → pending m ≡ some r ∷ rest
      → IsFresh L D r

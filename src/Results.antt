-- ===== src/Results.antt =====
-- include/amy/field.hpp, row.hpp and result_set.hpp. A pointer to a MYSQL_RES is an address; a weak
-- pointer is an address that may no longer be allocated. The member `lengths_` of a row is read in
-- its constructor alone, and is not kept.
pub mod Access
pub mod Fetch
pub mod FieldInfo
pub mod Shape
pub mod Termination
use amy.Prelude.{
  ℕ, zero, suc, Bool, true, false, Option, none, some, List, [], ◌∷◌, ◌++◌, ◌==◌, ◌||◌, not,
  if◌then◌else◌, get_elem?,
}
use amy.Errors.{ErrorCode, success, is_error, Outcome, throw_error}
use amy.Client.{ClientLib, Bytes, RowData, FieldDef}
use amy.Ops.{mysql_fetch_row}

pub record Field : Type 0 where
  pub value_str : Option Bytes
  pub length : ℕ

abbrev pub is_null : Field → Bool
is_null f = elim f.value_str [ none ↦ true | some _ ↦ false ]

pub record Row : Type 0 where
  pub result_set : ℕ
  pub row : RowData
  pub fields : List Field
  pub fields_info : List FieldDef

-- The loop of `row::build_fields`, with the rounds that are left and the index.
unfoldable pub build_from : ℕ → ℕ → RowData → (ℕ → ℕ) → List Field
build_from zero i row lengths = []
build_from (suc n) i row lengths =
    record { value_str = row i; length = lengths i } ∷ build_from n (suc i) row lengths

-- `row::build_fields`.
unfoldable pub build_fields : ℕ → RowData → (ℕ → ℕ) → List Field
unfolding build_from
build_fields field_count row lengths = build_from field_count 0 row lengths

-- A result set. `mysql` says whether `mysql_` is set; `values` and `fields_info` are `none` after
-- `reset()`. Copies share their vectors, which only `assign` changes.
pub record ResultSet : Type 0 where
  pub mysql : Bool
  pub result_set : Option ℕ
  pub values : Option (List Row)
  pub fields_info : Option (List FieldDef)

-- The default constructor.
abbrev pub new_result_set : ResultSet
new_result_set = record {
  mysql = false;
  result_set = none;
  values = some [];
  fields_info = some [];
}

-- `result_set::empty_set(mysql)`.
abbrev pub empty_set : ResultSet
empty_set = record { mysql = true; result_set = none; values = some []; fields_info = some [] }

-- `push_back` at the end of the vector behind a `shared_ptr`.
abbrev pub append_values : Option (List Row) → List Row → Option (List Row)
append_values none rows = none
append_values (some old) rows = some (old ++ rows)

module _ (L : ClientLib) where
  -- The constructor of a row over the result `r` at `address`, after the row was fetched.
  unfoldable pub new_row : ℕ → L.Res → RowData → List FieldDef → Row
  unfolding build_fields
  new_row address r row fields_info = record {
    result_set = address;
    row = row;
    fields = build_fields (L.num_fields r) row (L.fetch_lengths r);
    fields_info = fields_info;
  }

  -- `while ((f = mysql_fetch_field(rs)))`, with fuel: the fields pushed, and the result's new cursor.
  unfoldable pub fetch_fields : ℕ → L.Res → List FieldDef × L.Res
  fetch_fields zero r = ([], r)
  fetch_fields (suc fuel) r =
      let (f, r') = L.fetch_field r in
      elim f [ none ↦ ([], r') | some d ↦ let (ds, r'') = fetch_fields fuel r' in (d ∷ ds, r'') ]

  -- `while ((r = mysql_fetch_row(mysql_, rs, ec)))`, with fuel.
  unfoldable pub fetch_rows :
      ℕ → L.Handle → ℕ → List FieldDef → L.Res → ErrorCode → List Row × ErrorCode × L.Res
  unfolding mysql_fetch_row new_row
  fetch_rows zero m address info r ec = ([], ec, r)
  fetch_rows (suc fuel) m address info r ec =
      let (row, ec', r') = mysql_fetch_row L m r in
      elim row [
        | none ↦ ([], ec', r')
        | some d ↦
            let (rows, ec'', r'') = fetch_rows fuel m address info r' ec' in
            (new_row address r' d info ∷ rows, ec'', r'')
      ]

  -- `result_set::assign(mysql, rs, ec)` on a result that is not null: the result set, `ec`, and the
  -- result with its cursors moved. One more round than the library announces is fuel enough.
  unfoldable pub assign_result :
      L.Handle → ℕ → L.Res → ResultSet → ErrorCode → ResultSet × ErrorCode × L.Res
  assign_result m address r s ec =
      let bound : ResultSet = record s { mysql = true; result_set = some address } in
      let (info, r₁) = fetch_fields (suc (L.num_fields r)) r in
      let (rows, ec', r₂) = fetch_rows (suc (L.num_rows r)) m address info r₁ ec in
      if L.num_rows r == 0
      then (bound, ec, r)
      else if is_error ec'
      then (record bound { result_set = none; values = none; fields_info = none }, ec', r₂)
      else (record bound { values = append_values s.values rows; fields_info = some info }, ec', r₂)

  -- `assign(mysql, rs)`, which throws the error: whether it does, and what it leaves.
  unfoldable pub assign_throwing :
      L.Handle → ℕ → L.Res → ResultSet → Outcome (Unit {0}) × ResultSet × L.Res
  unfolding throw_error
  assign_throwing m address r s =
      let (s', ec, r') = assign_result m address r s success in
      (throw_error ec (L.error m) tt, s', r')

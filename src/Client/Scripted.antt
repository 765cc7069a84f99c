-- ===== src/Client/Scripted.antt =====
-- A client library whose server answers from a script: it meets the assumptions on the library, and
-- the runs and examples use it.
use amy.Prelude.{
  ℕ, zero, suc, ◌+◌, ◌≡◌, refl, subst, Bool, true, false, Option, none, some, List, [], ◌∷◌, ◌++◌,
  arith, length, leb, if◌then◌else◌,
}
use amy.Prelude.Int.{ℤ, pos, negsuc}
use amy.Client.{Bytes, RowData, FieldDef, ClientLib}
use amy.Client.Protocol.{Delivery, FieldDelivery, IsFresh, Protocol}
use amy.Errors.Messages.{position}

-- The rows of a statement's answer, each a list of values.
abbrev pub Cells : Type 0
Cells = List (Option Bytes)

pub record Table : Type 0 where
  pub width : ℕ
  pub columns : List FieldDef
  pub rows : List Cells

abbrev pub row_data : Cells → RowData
row_data [] i = none
row_data (c ∷ cs) zero = c
row_data (c ∷ cs) (suc i) = row_data cs i

abbrev pub lengths : Cells → ℕ → ℕ
lengths [] i = 0
lengths (none ∷ cs) zero = 0
lengths (some b ∷ cs) zero = length b
lengths (c ∷ cs) (suc i) = lengths cs i

abbrev pub fetchable : List Cells → List (RowData × (ℕ → ℕ))
fetchable [] = []
fetchable (c ∷ cs) = (row_data c, lengths c) ∷ fetchable cs

-- A stored result: what is left to fetch, and the lengths of the row fetched last.
pub record Stored : Type 0 where
  pub width : ℕ
  pub count : ℕ
  pub columns_left : List FieldDef
  pub rows_left : List (RowData × (ℕ → ℕ))
  pub current : ℕ → ℕ

abbrev pub open_table : Table → Stored
open_table t = record {
  width = t.width;
  count = length (fetchable t.rows);
  columns_left = t.columns;
  rows_left = fetchable t.rows;
  current = λ _. 0;
}

abbrev pub open_option : Option Table → Option Stored
open_option none = none
open_option (some t) = some (open_table t)

abbrev pub open_tables : List (Option Table) → List (Option Stored)
open_tables [] = []
open_tables (t ∷ ts) = open_option t ∷ open_tables ts

-- What the server does with a query: an error number, or the answers to its statements.
pub data Reply : Type 0 where
  refuses : ℕ → Reply
  answers : List (Option Table) → Reply

-- A transaction statement that reached the server.
pub data Event : Type 0 where
  autocommit_on autocommit_off committed rolled_back : Event

-- `failing` makes the transaction calls fail.
pub record Session : Type 0 where
  pub replies : List Reply
  pub tables : List (Option Table)
  pub last_errno : ℕ
  pub failing : Bool
  pub events : List Event

abbrev pub answer : List Reply → Session → ℤ × Session
answer [] m = (pos 1, record m { tables = []; last_errno = 2013 })
answer (refuses n ∷ rs) m = (pos 1, record m { replies = rs; tables = []; last_errno = n })
answer (answers ts ∷ rs) m = (pos 0, record m { replies = rs; tables = ts; last_errno = 0 })

abbrev pub move_on : List (Option Table) → Session → ℤ × Session
move_on (t ∷ u ∷ ts) m = (pos 0, record m { tables = u ∷ ts })
move_on _ m = (negsuc 0, m)

abbrev pub read_table : List (Option Table) → Option Stored
read_table (some t ∷ ts) = some (open_table t)
read_table _ = none

abbrev pub take_column : List FieldDef → Stored → Option FieldDef × Stored
take_column [] r = (none, r)
take_column (d ∷ ds) r = (some d, record r { columns_left = ds })

abbrev pub take_row : List (RowData × (ℕ → ℕ)) → Stored → Option RowData × Stored
take_row [] r = (none, r)
take_row ((row, ls) ∷ rest) r = (some row, record r { rows_left = rest; current = ls })

abbrev pub statement : Event → Session → Bool × Session
statement e m = if m.failing then (true, m) else (false, record m { events = m.events ++ (e ∷ []) })

abbrev pub scripted : Session → ClientLib
scripted start = record {
  Handle = Session;
  Res = Stored;
  blank = start;
  errno = λ m. m.last_errno;
  error = λ m. "scripted";
  init = λ m. (true, m);
  close = λ m. record m { tables = [] };
  options = λ option arg m. (pos 0, m);
  real_connect = λ args m. (true, m);
  real_query = λ stmt m. answer m.replies m;
  field_count = λ m. length (open_tables m.tables);
  affected_rows = λ m. 7;
  more_results = λ m. leb 2 (length (open_tables m.tables));
  next_result = λ m. move_on m.tables m;
  store_result = λ m. (read_table m.tables, record m { last_errno = 0 });
  autocommit = λ mode m. statement (if mode then autocommit_on else autocommit_off) m;
  commit = λ m. statement committed m;
  rollback = λ m. statement rolled_back m;
  num_rows = λ r. r.count;
  num_fields = λ r. r.width;
  fetch_field = λ r. take_column r.columns_left r;
  fetch_row = λ r. take_row r.rows_left r;
  fetch_lengths = λ r. r.current;
  client_multi_results = 131072;
  client_multi_statements = 65536;
  code = λ e. pos (2000 + position e);
  system_message = λ v. "system";
}

pub take_row_end : (l : List (RowData × (ℕ → ℕ))) (r : Stored) → l ≡ [] → (take_row l r).0 ≡ none
take_row_end l r e = ground arith

pub take_row_next :
    (l : List (RowData × (ℕ → ℕ))) (r : Stored) (row : RowData) (ls : ℕ → ℕ)
    (rest : List (RowData × (ℕ → ℕ)))
    → l ≡ (row, ls) ∷ rest
    → ((take_row l r).0 ≡ some row)
      × ((take_row l r).1.current ≡ ls)
      × ((take_row l r).1.rows_left ≡ rest)
take_row_next l r row ls rest e = ground arith

pub take_row_keeps :
    (l : List (RowData × (ℕ → ℕ))) (r : Stored)
    → ((take_row l r).1.width ≡ r.width) × ((take_row l r).1.count ≡ r.count)
take_row_keeps [] r = (refl, refl)
take_row_keeps (x ∷ l) r = (refl, refl)

pub take_column_keeps :
    (l : List FieldDef) (r : Stored)
    → ((take_column l r).1.rows_left ≡ r.rows_left)
      × ((take_column l r).1.width ≡ r.width)
      × ((take_column l r).1.count ≡ r.count)
take_column_keeps [] r = (refl, refl, refl)
take_column_keeps (x ∷ l) r = (refl, refl, refl)

abbrev pub delivery : (start : Session) → Delivery (scripted start)
delivery start = record {
  rows = λ r. r.rows_left;
  row_end = λ r e. take_row_end r.rows_left r e;
  row_next = λ r row ls rest e. take_row_next r.rows_left r row ls rest e;
  row_width = λ r. (take_row_keeps r.rows_left r).0;
  field_rows = λ r. (take_column_keeps r.columns_left r).0;
  field_width = λ r. (take_column_keeps r.columns_left r).1;
  row_count = λ r. (take_row_keeps r.rows_left r).1;
  field_rows_count = λ r. (take_column_keeps r.columns_left r).2;
}

pub take_column_end : (l : List FieldDef) (r : Stored) → l ≡ [] → (take_column l r).0 ≡ none
take_column_end l r e = ground arith

pub take_column_next :
    (l : List FieldDef) (r : Stored) (d : FieldDef) (rest : List FieldDef)
    → l ≡ d ∷ rest
    → ((take_column l r).0 ≡ some d) × ((take_column l r).1.columns_left ≡ rest)
take_column_next l r d rest e = ground arith

abbrev pub field_delivery : (start : Session) → FieldDelivery (scripted start)
field_delivery start = record {
  fields = λ r. r.columns_left;
  field_end = λ r e. take_column_end r.columns_left r e;
  field_next = λ r d rest e. take_column_next r.columns_left r d rest e;
}

pub move_on_lem :
    (ts : List (Option Table)) (m : Session) (x y : Option Stored) (rest : List (Option Stored))
    → open_tables ts ≡ x ∷ y ∷ rest
    → ((move_on ts m).0 ≡ pos 0) × (open_tables (move_on ts m).1.tables ≡ y ∷ rest)
move_on_lem [] m x y rest e = cc
move_on_lem (t ∷ []) m x y rest e = cc
move_on_lem (t ∷ u ∷ ts) m x y rest e = (refl, cc)

pub read_table_lem :
    (ts : List (Option Table)) (x : Option Stored) (rest : List (Option Stored))
    → open_tables ts ≡ x ∷ rest
    → read_table ts ≡ x
read_table_lem [] x rest e = cc
read_table_lem (none ∷ ts) x rest e = cc
read_table_lem (some t ∷ ts) x rest e = cc

pub open_tables-IsFresh :
    (start : Session) (ts : List (Option Table)) (r : Stored) (rest : List (Option Stored))
    → open_tables ts ≡ some r ∷ rest
    → IsFresh (scripted start) (delivery start) r
open_tables-IsFresh start [] r rest e = cc
open_tables-IsFresh start (none ∷ ts) r rest e = cc
open_tables-IsFresh start (some t ∷ ts) r rest e =
    let same : open_table t ≡ r = cc in subst (IsFresh (scripted start) (delivery start)) same refl

abbrev pub protocol : (start : Session) → Protocol (scripted start) (delivery start)
protocol start = record {
  pending = λ m. open_tables m.tables;
  more = λ m. refl;
  next = λ m x y rest e. move_on_lem m.tables m x y rest e;
  store = λ m x rest e. (read_table_lem m.tables x rest e, e, refl);
  fresh = λ m r rest e. open_tables-IsFresh start m.tables r rest e;
}

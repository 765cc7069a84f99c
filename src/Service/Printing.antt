-- ===== src/Service/Printing.antt =====
-- What printing relies on, of a result set that `store_result` has returned.
use amy.Prelude.{
  ℕ, zero, suc, ◌≡◌, ◌<◌, refl, sym, subst, ap, true, false, Option, none, some, List, [], ◌∷◌,
  length, ◌^◌, arith, ==_iff,
}
use amy.Errors.{ErrorCode, success}
use amy.Client.{ClientLib, RowData}
use amy.Client.Protocol.{Delivery, Protocol, IsFresh}
use amy.Results.{Row, ResultSet, new_result_set, empty_set, assign_result, build_from, build_fields}
use amy.Results.Access.{got}
use amy.Results.Fetch.{view, rows_fields, table_rows, assign_result_complete}
use amy.Results.Shape.{PointTo, Filled, assign_result-Filled}
use amy.Service
use amy.Service.{Conn, advance, retrieve}
use amy.Service.Access.{row_size}
use amy.Service.MoreResults.{free_result_keeps}

length-build_from :
    (n i : ℕ) (row : RowData) (lengths : ℕ → ℕ) → length (build_from n i row lengths) ≡ n
unfolding build_from
length-build_from zero i row lengths = refl
length-build_from (suc n) i row lengths = ap suc (length-build_from n (suc i) row lengths)

length-build_fields :
    (n : ℕ) (row : RowData) (lengths : ℕ → ℕ) → length (build_fields n row lengths) ≡ n
unfolding build_fields
length-build_fields n row lengths = length-build_from n 0 row lengths

length-table_rows :
    (width : ℕ) (server : List (RowData × (ℕ → ℕ)))
    → length (table_rows width server) ≡ length server
length-table_rows width [] = refl
length-table_rows width ((row, ls) ∷ rest) = ap suc (length-table_rows width rest)

pub length-rows_fields : (rows : List Row) → length (rows_fields rows) ≡ length rows
length-rows_fields [] = refl
length-rows_fields (r ∷ rs) = ap suc (length-rows_fields rs)

module _ (L : ClientLib) where
  -- Each row has as many fields as its result announces, and an `int` can count them.
  abbrev pub Sized : Conn L → List Row → Type 0
  Sized c [] = Unit
  Sized c (r ∷ rs) =
      (row_size L c r ≡ got (length r.fields)) × (length r.fields < 2 ^ 31) × Sized c rs

  -- A result set of which everything can be printed.
  abbrev pub Printable : Conn L → ResultSet → Type 0
  Printable c s =
      (s.mysql ≡ true)
      × ((rows : List Row) × (s.values ≡ some rows)
          × (Service.size L c s ≡ length rows)
          × Sized c rows)

  rows-Sized :
      (c : Conn L) (address width : ℕ) (x : L.Res) (rows : List Row)
      (server : List (RowData × (ℕ → ℕ)))
      → rows_fields rows ≡ table_rows width server
      → PointTo address rows
      → c.results address ≡ some x
      → L.num_fields x ≡ width
      → width < 2 ^ 31
      → Sized c rows
  unfolding row_size
  rows-Sized c address width x [] server e points held w small = tt
  rows-Sized c address width x (r ∷ rs) [] e points held w small = absurd (ground arith)
  rows-Sized c address width x (r ∷ rs) ((row, ls) ∷ rest) e points held w small =
      let wide : length r.fields ≡ width = ground (arith, length-build_fields width row ls) in
      (
        ground (arith, wide),
        ground (arith, wide),
        rows-Sized c address width x rs rest (ground arith) points.1 held w small,
      )

module _ (L : ClientLib) (D : Delivery L) (P : Protocol L D) where
  abbrev pub Narrow : Option L.Res → Type 0
  Narrow none = Unit
  Narrow (some r) = L.num_fields r < 2 ^ 31

  retrieve-none :
      (rest : List (Option L.Res)) (c : Conn L)
      → P.pending c.mysql ≡ none ∷ rest
      → (retrieve L c).0 ≡ empty_set
  unfolding retrieve
  retrieve-none rest c e = ground (arith, P.store c.mysql none rest e)

  -- The set and the result that `retrieve` leaves.
  retrieve-some :
      (r : L.Res) (rest : List (Option L.Res)) (c : Conn L)
      → P.pending c.mysql ≡ some r ∷ rest
      → let (rs, _, c') = retrieve L c in
        let (s, _, r') =
          assign_result L (L.store_result c.mysql).1 c.next_result r new_result_set success in
        (rs ≡ s) × (c'.results c.next_result ≡ some r')
  unfolding retrieve
  retrieve-some r rest c e =
      ground (arith, P.store c.mysql (some r) rest e, ==_iff c.next_result c.next_result)

  Filled-Printable :
      (c : Conn L) (s : ResultSet) (ec : ErrorCode) (address : ℕ) (r r' : L.Res)
      → IsFresh L D r
      → Filled L D address r (s, ec, r')
      → view s ≡ table_rows (L.num_fields r) (D.rows r)
      → c.results address ≡ some r'
      → L.num_fields r < 2 ^ 31
      → Printable L c s
  unfolding Service.size
  Filled-Printable c s ec address r r' fresh (counted, width, linked, bound, (rows, values, points))
        shown held small =
      let table : rows_fields rows ≡ table_rows (L.num_fields r) (D.rows r) =
        ground (arith, shown) in
      let counts : length rows ≡ L.num_rows r = ground (
        arith,
        length-rows_fields rows,
        length-table_rows (L.num_fields r) (D.rows r),
        ap length table,
      ) in
      (
        linked,
        (
          rows,
          values,
          ground (arith, counts),
          rows-Sized L c address (L.num_fields r) r' rows (D.rows r) table points held width small,
        ),
      )

  retrieve-Printable :
      (x : Option L.Res) (rest : List (Option L.Res)) (c : Conn L)
      → P.pending c.mysql ≡ x ∷ rest
      → Narrow x
      → let (rs, _, c') = retrieve L c in Printable L c' rs
  unfolding Service.size
  retrieve-Printable none rest c e narrow =
      subst (Printable L (retrieve L c).2) (sym (retrieve-none rest c e))
        (refl, ([], refl, refl, tt))
  retrieve-Printable (some r) rest c e narrow =
      let (stored, _, no_error) = P.store c.mysql (some r) rest e in
      let m = (L.store_result c.mysql).1 in
      let fresh = P.fresh c.mysql r rest e in
      let (shown, _, _) =
        assign_result_complete L D m c.next_result r success fresh no_error refl in
      let (s, ec, r') = assign_result L m c.next_result r new_result_set success in
      let (same, held) = retrieve-some r rest c e in
      subst (Printable L (retrieve L c).2) (sym same) (
        Filled-Printable (retrieve L c).2 s ec c.next_result r r' fresh
          (assign_result-Filled L D m c.next_result r success fresh no_error) shown held narrow)

  -- A set that `store_result` has read of a query can be printed.
  pub store_result_first-Printable :
      (x : Option L.Res) (rest : List (Option L.Res)) (c : Conn L)
      → P.pending c.mysql ≡ x ∷ rest
      → c.first_result_stored ≡ false
      → Narrow x
      → let (rs, _, c') = Service.store_result L success c in Printable L c' rs
  unfolding Service.store_result advance
  store_result_first-Printable x rest c e first narrow =
      rw first (retrieve-Printable x rest (record c { first_result_stored = true }) e narrow)

  -- The connection from which a further result is retrieved.
  abbrev next_result : Conn L → Conn L
  next_result c = record (Service.free_result L c) {
    mysql = (L.next_result (Service.free_result L c).mysql).1;
  }

  store_result_retrieves :
      (x y : Option L.Res) (rest : List (Option L.Res)) (c : Conn L)
      → P.pending c.mysql ≡ x ∷ y ∷ rest
      → c.initialized ≡ true
      → Service.multi_results L c.flags ≡ true
      → c.first_result_stored ≡ true
      → (Service.store_result L success c ≡ retrieve L (next_result c))
        × (P.pending (next_result c).mysql ≡ y ∷ rest)
  unfolding Service.store_result advance Service.has_more_results
  store_result_retrieves x y rest c e opened multi stored =
      ground (arith, free_result_keeps L D P c, P.more c.mysql, P.next c.mysql x y rest e)

  pub store_result_next-Printable :
      (x y : Option L.Res) (rest : List (Option L.Res)) (c : Conn L)
      → P.pending c.mysql ≡ x ∷ y ∷ rest
      → c.initialized ≡ true
      → Service.multi_results L c.flags ≡ true
      → c.first_result_stored ≡ true
      → Narrow y
      → let (rs, _, c') = Service.store_result L success c in Printable L c' rs
  store_result_next-Printable x y rest c e opened multi stored narrow =
      let (same, at) = store_result_retrieves x y rest c e opened multi stored in
      subst (λ o. Printable L o.2 o.0) (sym same)
        (retrieve-Printable y rest (next_result c) at narrow)

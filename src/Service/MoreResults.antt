-- ===== src/Service/MoreResults.antt =====
-- Reading the results of a query one after the other.
use amy.Prelude.{◌⊎◌, ◌≡◌, true, false, Option, none, some, List, [], ◌∷◌, arith, ==_iff}
use amy.Errors.{success, misc_error, no_more_results, is_error, is_error-client_error}
use amy.Client.{ClientLib}
use amy.Client.Protocol.{Delivery, Protocol}
use amy.Results.{Field, empty_set}
use amy.Results.Fetch.{view, table_rows, assign_result_complete}
use amy.Service.{
  Conn, multi_results, has_more_results, free_result, advance, retrieve, store_result,
}

module _ (L : ClientLib) (D : Delivery L) where
  -- What a result says: the fields of its rows, and none for a statement without rows.
  abbrev pub table : Option L.Res → List (List Field)
  table none = []
  table (some r) = table_rows (L.num_fields r) (D.rows r)

module _ (L : ClientLib) (D : Delivery L) (P : Protocol L D) where
  -- What reading leaves alone.
  abbrev pub Unchanged : Conn L → Conn L → Type 0
  Unchanged c c' =
      (c'.initialized ≡ c.initialized)
      × (c'.flags ≡ c.flags)
      × (c'.first_result_stored ≡ c.first_result_stored)

  retrieve_lem :
      (x : Option L.Res) (rest : List (Option L.Res)) (c : Conn L)
      → P.pending c.mysql ≡ x ∷ rest
      → let (rs, ec, c') = retrieve L c in
        (view rs ≡ table L D x)
        × (is_error ec ≡ false)
        × (P.pending c'.mysql ≡ x ∷ rest)
        × Unchanged c c'
  unfolding retrieve
  retrieve_lem none rest c e = ground (
    arith,
    P.store c.mysql none rest e,
    is_error-client_error (L.errno (L.store_result c.mysql).1),
  )
  retrieve_lem (some r) rest c e = ground (
    arith,
    P.store c.mysql (some r) rest e,
    ==_iff c.next_result c.next_result,
    assign_result_complete L D (L.store_result c.mysql).1 c.next_result r success
        (P.fresh c.mysql r rest e),
  )

  -- After a query, the first call reads the first result. A caller's `ec` that holds no error is
  -- left without one.
  pub store_result_first :
      (x : Option L.Res) (rest : List (Option L.Res)) (c : Conn L)
      → P.pending c.mysql ≡ x ∷ rest
      → c.first_result_stored ≡ false
      → let (rs, ec, c') = store_result L success c in
        (view rs ≡ table L D x)
        × (is_error ec ≡ false)
        × (P.pending c'.mysql ≡ x ∷ rest)
        × Unchanged (record c { first_result_stored = true }) c'
  unfolding store_result advance
  store_result_first x rest c e first =
      ground (arith, retrieve_lem x rest (record c { first_result_stored = true }))

  pub free_result_keeps :
      (c : Conn L) → ((free_result L c).mysql ≡ c.mysql) × Unchanged c (free_result L c)
  unfolding free_result
  free_result_keeps c = ground arith

  pub store_result_next :
      (x y : Option L.Res) (rest : List (Option L.Res)) (c : Conn L)
      → P.pending c.mysql ≡ x ∷ y ∷ rest
      → c.initialized ≡ true
      → multi_results L c.flags ≡ true
      → c.first_result_stored ≡ true
      → let (rs, ec, c') = store_result L success c in
        (view rs ≡ table L D y)
        × (is_error ec ≡ false)
        × (P.pending c'.mysql ≡ y ∷ rest)
        × Unchanged c c'
  unfolding store_result advance has_more_results
  store_result_next x y rest c e opened multi stored = ground (
    arith,
    free_result_keeps c,
    P.more c.mysql,
    P.next c.mysql x y rest e,
    retrieve_lem y rest
        (record (free_result L c) { mysql = (L.next_result (free_result L c).mysql).1 }),
  )

  -- When the connection stands at the last result, or when a connection without the multi-result
  -- flags has read its only one, a further call returns `no_more_results` and an empty set.
  pub store_result_exhausted :
      (x : Option L.Res) (c : Conn L)
      → (P.pending c.mysql ≡ x ∷ []) ⊎ (multi_results L c.flags ≡ false)
      → c.first_result_stored ≡ true
      → let (rs, ec, c') = store_result L success c in
        (rs ≡ empty_set) × (ec ≡ misc_error no_more_results) × (c' ≡ free_result L c)
  unfolding store_result advance has_more_results
  store_result_exhausted x c last stored = ground (arith, free_result_keeps c, P.more c.mysql)

-- ===== src/Service/Expiry.antt =====
-- When a result set that a caller holds expires.
use amy.Prelude.{
  ℕ, ◌≡◌, ◌<◌, refl, Bool, true, false, Option, none, some, arith, if◌then◌else◌, ==_iff,
}
use amy.Errors.{ErrorCode, is_error}
use amy.Client.{ClientLib, Bytes}
use amy.Ops.{mysql_store_result}
use amy.Results.{ResultSet, empty_set, assign_result}
use amy.Service.{
  Conn, free_result, allocate, reset_result, close, run_query, query, advance, assign_last,
  retrieve, store_result, expired, close_impl, end_session, cancel,
}
use amy.Service.Ownership.{IsOwned, free_result-empty, free_result-IsOwned, SameResults-IsOwned}

module _ (L : ClientLib) where
  expired-empty :
      (c : Conn L) (rs : ResultSet) → ((a : ℕ) → c.results a ≡ none) → expired L c rs ≡ true
  unfolding expired
  expired-empty c rs h = by_link rs.result_set
    where
      by_link :
          (o : Option ℕ)
          → elim o [ none ↦ true | some a ↦ elim (c.results a) [ none ↦ true | some _ ↦ false ] ]
            ≡ true
      by_link none = refl
      by_link (some a) = ground (arith, h a)

  -- A query on an open connection expires every result set.
  pub expired-query :
      (stmt : Bytes) (c : Conn L) (rs : ResultSet)
      → IsOwned L c
      → c.initialized ≡ true
      → expired L (query L stmt c).1 rs ≡ true
  unfolding query run_query
  expired-query stmt c rs o opened =
      expired-empty _ rs (λ a. ground (arith, (free_result-empty L c o).1 a))

  -- And so does closing it.
  pub expired-close :
      (c : Conn L) (rs : ResultSet)
      → IsOwned L c
      → c.initialized ≡ true
      → expired L (close L c) rs ≡ true
  unfolding close close_impl cancel
  expired-close c rs o opened = expired-empty _ rs (λ a. ground (
    arith,
    (free_result-empty L (end_session L c)
          (unfold end_session in SameResults-IsOwned L {c = c} (refl, refl, refl) o)).1
        a,
  ))

  free_result_next : (c : Conn L) → (free_result L c).next_result ≡ c.next_result
  unfolding free_result
  free_result_next c = ground arith

  retrieve_frees :
      (c : Conn L) (a : ℕ) → IsOwned L c → a < c.next_result → (retrieve L c).2.results a ≡ none
  unfolding retrieve reset_result assign_last
  retrieve_frees c a o h =
      let cm : Conn L = record c { mysql = (L.store_result c.mysql).1 } in
      let e = free_result-empty L cm (SameResults-IsOwned L {c = c} (refl, refl, refl) o) in
      ground (arith, e.0, e.1 a, ==_iff a c.next_result, free_result_next cm)

  -- Once a first result was stored, each further `store_result` expires the result sets that were
  -- handed out before, also when it fails.
  pub expired-store_result :
      (ec : ErrorCode) (c : Conn L) (rs : ResultSet) (a : ℕ)
      → IsOwned L c
      → c.first_result_stored ≡ true
      → rs.result_set ≡ some a
      → a < c.next_result
      → expired L (store_result L ec c).2 rs ≡ true
  unfolding store_result advance expired
  expired-store_result ec c rs a o stored link old =
      let f = free_result-IsOwned L c o in
      let m : L.Handle = (L.next_result (free_result L c).mysql).1 in
      let cm : Conn L = record (free_result L c) { mysql = m } in
      ground (
        arith,
        free_result_next c,
        (free_result-empty L c o).1 a,
        retrieve_frees cm a (SameResults-IsOwned L {c = free_result L c} (refl, refl, refl) f),
      )

  assign_last_self :
      (ec : ErrorCode) (c : Conn L) (a : ℕ)
      → (assign_last L ec c).0.result_set ≡ some a
      → expired L (assign_last L ec c).2 (assign_last L ec c).0 ≡ false
  unfolding assign_last assign_result expired
  assign_last_self ec c a link = ground (arith, ==_iff a a)

  retrieve_self :
      (c : Conn L) (a : ℕ)
      → (retrieve L c).0.result_set ≡ some a
      → expired L (retrieve L c).2 (retrieve L c).0 ≡ false
  unfolding retrieve
  retrieve_self c a link =
      let (r, ec, m) = mysql_store_result L c.mysql in
      let (p, stored) = allocate L r (record c { mysql = m }) in
      assign_last_self ec (reset_result L p stored) a link

  -- A result set that `store_result` has filled, so that it is linked to a result, is not expired.
  pub expired-store_result_self :
      (ec : ErrorCode) (c : Conn L) (a : ℕ)
      → (store_result L ec c).0.result_set ≡ some a
      → expired L (store_result L ec c).2 (store_result L ec c).0 ≡ false
  unfolding store_result expired
  expired-store_result_self ec c a link = by_error (is_error (advance L ec c).0) link
    where
      by_error :
          (b : Bool)
          → (if b
              then (empty_set, (advance L ec c).0, (advance L ec c).1)
              else retrieve L (advance L ec c).1).0.result_set
            ≡ some a
          → expired L
              (if b
                then (empty_set, (advance L ec c).0, (advance L ec c).1)
                else retrieve L (advance L ec c).1).2
              (if b
                then (empty_set, (advance L ec c).0, (advance L ec c).1)
                else retrieve L (advance L ec c).1).0
            ≡ false
      by_error true e = cc
      by_error false e = retrieve_self (advance L ec c).1 a e

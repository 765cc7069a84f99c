-- ===== src/Connector/Cells.antt =====
-- A statement run with `query_result`, and an integer read from its result.
use amy.Prelude.{ℕ, ◌≡◌, ◌<◌, ◌^◌, refl, false, Option, some, List, ◌∷◌, arith, get_elem?}
use amy.Prelude.Int.{ℤ, pos}
use amy.Errors.{success, is_error, returned, throw_error}
use amy.Client.{ClientLib, Bytes, RowData}
use amy.Client.Protocol.{Delivery, Protocol}
use amy.Results.{Field}
use amy.Results.Access.{got}
use amy.Service
use amy.Service.{Conn}
use amy.Service.Access.{cell}
use amy.Service.Cells.{store_result-cell}
use amy.Values.{SignedType, value_cast_signed, field_as}
use amy.Values.Digits.{print, DigitsEnd}
use amy.Values.RoundTrip.{Fits, half, field_as-print}
use amy.Connector.{
  query_result, query_result_ec, query_first, store_result_clean, query_result-query_result_ec,
}

module _ (L : ClientLib) (D : Delivery L) (P : Protocol L D) where
  query_result_ec-clean :
      (stmt : Bytes) (c : Conn L)
      → is_error (Service.query L stmt c).0 ≡ false
      → query_result_ec L stmt c ≡ Service.store_result L success (Service.query L stmt c).1
  unfolding query_result_ec
  query_result_ec-clean stmt c clean =
      let (ec, c') = Service.query L stmt c in
      let first = query_first L stmt c clean in
      ground
        (arith, store_result_clean L ec c' first clean, store_result_clean L success c' first refl)

  query_result-returned :
      (stmt : Bytes) (c : Conn L)
      → is_error (query_result_ec L stmt c).1 ≡ false
      → query_result L stmt c
        ≡ (returned (query_result_ec L stmt c).0, (query_result_ec L stmt c).2)
  unfolding throw_error
  query_result-returned stmt c clean = ground (arith, query_result-query_result_ec L stmt c)

  -- Where a statement succeeds and its first result has rows, `query_result` throws nothing, and in the
  -- set that it returns `at(i).at(k)` is the value k of the row i that the server delivers; if that is
  -- the decimal text of an integer which a signed SQL type has, `as` for the type gives the integer.
  pub query_result-field_as :
      (stmt : Bytes) (c : Conn L) (r : L.Res) (rest : List (Option L.Res)) (i k : ℕ) (row : RowData)
      (lengths : ℕ → ℕ) (t : SignedType) (v : ℤ) (tail : Bytes)
      → is_error (Service.query L stmt c).0 ≡ false
      → P.pending (Service.query L stmt c).1.mysql ≡ some r ∷ rest
      → get_elem? (D.rows r) i ≡ some (row, lengths)
      → k < L.num_fields r
      → i < 2 ^ 63
      → k < 2 ^ 63
      → row k ≡ some (print v tail)
      → Fits (half t) v
      → DigitsEnd tail
      → let (rs, ec, c') = query_result_ec L stmt c in
        let f : Field = record { value_str = row k; length = lengths k } in
        (query_result L stmt c ≡ (returned rs, c'))
        × (cell L c' rs (pos i) (pos k) ≡ got f)
        × (field_as (value_cast_signed t) f ≡ some v)
  query_result-field_as stmt c r rest i k row lengths t v tail clean e at_i in_row hi hk text fits
        ends =
      let same = query_result_ec-clean stmt c clean in
      let (ok, shown) =
        store_result-cell L D P (Service.query L stmt c).1 r rest i k row lengths e
          (query_first L stmt c clean) at_i in_row hi hk in
      let f : Field = record { value_str = row k; length = lengths k } in
      (
        query_result-returned stmt c (rw same ok),
        rw same shown,
        field_as-print t v tail f fits ends text,
      )

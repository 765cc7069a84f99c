-- ===== src/Results/Shape.antt =====
-- What the loops of `result_set::assign` leave of a stored result, and where its rows point.
use amy.Prelude.{
  ℕ, zero, suc, ◌≡◌, refl, true, false, some, List, [], ◌∷◌, arith, ◌∙◌, inl, inr, Bool-cases, ◌==◌,
}
use amy.Errors.{ErrorCode, success, is_error, is_error-client_error}
use amy.Client.{ClientLib, FieldDef}
use amy.Client.Protocol.{Delivery, IsFresh}
use amy.Results.Fetch.{fetch_fields-rows, fetch_fields-width, fetch_rows-all}
use amy.Results.{Row, ResultSet, new_result_set, fetch_fields, fetch_rows, assign_result}

-- Every row points to the result at the address.
abbrev pub PointTo : ℕ → List Row → Type 0
PointTo address [] = Unit
PointTo address (r ∷ rs) = (r.result_set ≡ address) × PointTo address rs

module _ (L : ClientLib) where
  pub fetch_rows-PointTo :
      (fuel : ℕ) (m : L.Handle) (address : ℕ) (info : List FieldDef) (r : L.Res) (ec : ErrorCode)
      → PointTo address (fetch_rows L fuel m address info r ec).0
  unfolding fetch_rows
  fetch_rows-PointTo zero m address info r ec = tt
  fetch_rows-PointTo (suc fuel) m address info r ec =
      ground (arith, fetch_rows-PointTo fuel m address info (L.fetch_row r).1 success)

module _ (L : ClientLib) (D : Delivery L) where
  fetch_fields-count : (fuel : ℕ) (r : L.Res) → L.num_rows (fetch_fields L fuel r).1 ≡ L.num_rows r
  unfolding fetch_fields
  fetch_fields-count zero r = refl
  fetch_fields-count (suc fuel) r =
      ground (arith, D.field_rows_count r, fetch_fields-count fuel (L.fetch_field r).1)

  fetch_rows-keeps :
      (fuel : ℕ) (m : L.Handle) (address : ℕ) (info : List FieldDef) (r : L.Res) (ec : ErrorCode)
      → let r' = (fetch_rows L fuel m address info r ec).2 in
        (L.num_rows r' ≡ L.num_rows r) × (L.num_fields r' ≡ L.num_fields r)
  unfolding fetch_rows
  fetch_rows-keeps zero m address info r ec = (refl, refl)
  fetch_rows-keeps (suc fuel) m address info r ec = ground (
    arith,
    D.row_count r,
    D.row_width r,
    fetch_rows-keeps fuel m address info (L.fetch_row r).1 success,
  )

  -- The set that `assign` leaves where no error is pending.
  abbrev pub Filled : ℕ → L.Res → ResultSet × ErrorCode × L.Res → Type 0
  Filled address r (s, ec, r') =
      (L.num_rows r' ≡ L.num_rows r)
      × (L.num_fields r' ≡ L.num_fields r)
      × (s.mysql ≡ true)
      × (s.result_set ≡ some address)
      × ((rows : List Row) × (s.values ≡ some rows) × PointTo address rows)

  -- Of a fresh result `assign` keeps the numbers of rows and fields, and the rows it makes point to it.
  pub assign_result-Filled :
      (m : L.Handle) (address : ℕ) (r : L.Res) (ec : ErrorCode)
      → IsFresh L D r
      → L.errno m ≡ 0
      → Filled address r (assign_result L m address r new_result_set ec)
  unfolding assign_result
  assign_result-Filled m address r ec fresh no_error =
      let n = suc (L.num_fields r) in
      let (info, r₁) = fetch_fields L n r in
      let (rows, ec', r₂) = fetch_rows L (suc (L.num_rows r)) m address info r₁ ec in
      let points = fetch_rows-PointTo L (suc (L.num_rows r)) m address info r₁ ec in
      let (rows_kept, width_kept) = fetch_rows-keeps (suc (L.num_rows r)) m address info r₁ ec in
      let failed =
        (fetch_rows-all L D (suc (L.num_rows r)) (D.rows r) m address info r₁ ec
          (fetch_fields-rows L D n r) (omega arith)).1 in
      let clean : is_error ec' ≡ false =
        ground (arith, failed, is_error-client_error (L.errno m)) in
      elim (Bool-cases (L.num_rows r == 0)) [
        | inl no_rows ↦ rw no_rows (refl, refl, refl, refl, ([], refl, tt))
        | inr with_rows ↦
            rw (with_rows, clean)
              (
                rows_kept ∙ fetch_fields-count n r,
                width_kept ∙ fetch_fields-width L D n r,
                refl,
                refl,
                (rows, refl, points),
              )
      ]

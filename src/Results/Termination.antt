-- ===== src/Results/Termination.antt =====
-- The loops of `result_set::assign` end, so that their fuel does not matter.
use amy.Prelude.{ℕ, zero, suc, ◌≡◌, ◌<◌, refl, List, [], ◌∷◌, arith, length}
use amy.Errors.{ErrorCode, success}
use amy.Client.{ClientLib, RowData, FieldDef}
use amy.Client.Protocol.{Delivery, FieldDelivery, IsFresh}
use amy.Results.{fetch_fields, fetch_rows}
use amy.Results.Fetch.{fetch_fields-rows}

module _ (L : ClientLib) (D : Delivery L) where
  fetch_rows-fuel :
      (f g : ℕ) (rows : List (RowData × (ℕ → ℕ))) (m : L.Handle) (address : ℕ)
      (info : List FieldDef) (r : L.Res) (ec : ErrorCode)
      → D.rows r ≡ rows
      → length rows < f
      → length rows < g
      → fetch_rows L f m address info r ec ≡ fetch_rows L g m address info r ec
  unfolding fetch_rows
  fetch_rows-fuel zero g rows m address info r ec e hf hg = absurd (omega arith)
  fetch_rows-fuel (suc f) zero rows m address info r ec e hf hg = absurd (omega arith)
  fetch_rows-fuel (suc f) (suc g) [] m address info r ec e hf hg = ground (arith, D.row_end r e)
  fetch_rows-fuel (suc f) (suc g) ((row, lengths) ∷ rest) m address info r ec e hf hg =
      let next = D.row_next r row lengths rest e in
      ground (
        arith,
        next,
        fetch_rows-fuel f g rest m address info (L.fetch_row r).1 success next.2 (omega arith)
            (omega arith),
      )

module _ (L : ClientLib) (F : FieldDelivery L) where
  fetch_fields-fuel :
      (f g : ℕ) (fields : List FieldDef) (r : L.Res)
      → F.fields r ≡ fields
      → length fields < f
      → length fields < g
      → (fetch_fields L f r ≡ fetch_fields L g r) × ((fetch_fields L f r).0 ≡ fields)
  unfolding fetch_fields
  fetch_fields-fuel zero g fields r e hf hg = absurd (omega arith)
  fetch_fields-fuel (suc f) zero fields r e hf hg = absurd (omega arith)
  fetch_fields-fuel (suc f) (suc g) [] r e hf hg = ground (arith, F.field_end r e)
  fetch_fields-fuel (suc f) (suc g) (d ∷ rest) r e hf hg =
      let next = F.field_next r d rest e in
      ground (
        arith,
        next,
        fetch_fields-fuel f g rest (L.fetch_field r).1 next.1 (omega arith) (omega arith),
      )

module _ (L : ClientLib) (D : Delivery L) (F : FieldDelivery L) where
  -- On a fresh stored result both loops of `assign` end by themselves, after as many rounds as the
  -- library announces fields and rows and one more: with any fuel above these numbers they return what
  -- they return with the fuel that `assign_result` gives, and the first has then pushed the definition
  -- of every column in order.
  pub assign_result-fuel :
      (f g : ℕ) (m : L.Handle) (address : ℕ) (r : L.Res) (ec : ErrorCode)
      → IsFresh L D r
      → L.num_fields r ≡ length (F.fields r)
      → L.num_fields r < f
      → L.num_rows r < g
      → let (info, r₁) = fetch_fields L (suc (L.num_fields r)) r in
        (fetch_fields L f r ≡ (info, r₁))
        × (info ≡ F.fields r)
        × (fetch_rows L g m address info r₁ ec
            ≡ fetch_rows L (suc (L.num_rows r)) m address info r₁ ec)
  assign_result-fuel f g m address r ec fresh width hf hg =
      let n = suc (L.num_fields r) in
      let (info, r₁) = fetch_fields L n r in
      (
        (fetch_fields-fuel L F f n (F.fields r) r refl (omega arith) (omega arith)).0,
        (fetch_fields-fuel L F n n (F.fields r) r refl (omega arith) (omega arith)).1,
        fetch_rows-fuel L D g (suc (L.num_rows r)) (D.rows r) m address info r₁ ec
            (fetch_fields-rows L D n r) (omega arith) (omega arith),
      )

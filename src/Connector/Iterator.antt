-- ===== src/Connector/Iterator.antt =====
-- include/amy/basic_results_iterator.hpp: iterating over the results of a query.
use amy.Prelude.{
  ℕ, zero, suc, ◌≡◌, ◌<◌, refl, ap, ◌∙◌, Bool, true, false, not, ◌&&◌, ◌||◌, Option, List, [], ◌∷◌,
  map, arith, length, leb, if◌then◌else◌,
}
use amy.Errors.{
  success, is_error, misc_error, not_initialized, Outcome, returned, thrown, throw_error,
}
use amy.Client.{ClientLib}
use amy.Client.Protocol.{Delivery, Protocol}
use amy.Results.{Field, ResultSet, new_result_set}
use amy.Results.Fetch.{view}
use amy.Service
use amy.Service.{Conn, has_more_results, is_open, multi_results}
use amy.Service.MoreResults.{table, store_result_first, store_result_next}
use amy.Connector.{store_result}

-- `connector` says whether the pointer is set.
pub record Iterator : Type 0 where
  pub connector : Bool
  pub result_set : ResultSet
  pub end : Bool

-- The default constructor, the end of every iteration.
abbrev pub end_iterator : Iterator
end_iterator = record { connector = false; result_set = new_result_set; end = true }

abbrev pub same : Bool → Bool → Bool
same true b = b
same false b = not b

-- `equal`, for iterators over one connector.
abbrev pub equal : Iterator → Iterator → Bool
equal a b = same a.end b.end && (a.end || same a.connector b.connector)

module _ (L : ClientLib) where
  unfoldable pub increment : Iterator → Conn L → Outcome Iterator × Conn L
  unfolding store_result
  increment it c =
      let (stored, c') = store_result L c in
      if has_more_results L c
      then (elim stored [
        | returned rs ↦ (returned (record it { result_set = rs }), c')
        | thrown ec text ↦ (thrown ec text, c')
      ])
      else (returned (record it { end = true }), c)

  -- The constructor over a connector.
  unfoldable pub begin : Conn L → Outcome Iterator × Conn L
  begin c =
      let it : Iterator = record { connector = true; result_set = new_result_set; end = false } in
      if is_open L c
      then increment it c
      else (throw_error (misc_error not_initialized) (L.error c.mysql) it, c)

  -- A result set that was passed to f before the others.
  abbrev pub passed :
      ResultSet → Outcome (List ResultSet) × Conn L → Outcome (List ResultSet) × Conn L
  passed s (returned sets, c) = (returned (s ∷ sets), c)
  passed s (thrown ec text, c) = (thrown ec text, c)

  -- `std::for_each(it, end, f)`, with fuel: the result sets that are passed to f.
  unfoldable pub for_each : ℕ → Outcome Iterator → Conn L → Outcome (List ResultSet) × Conn L
  for_each fuel (thrown ec text) c = (thrown ec text, c)
  for_each zero (returned it) c = (returned [], c)
  for_each (suc fuel) (returned it) c =
      let (next, c') = increment it c in
      let rest = passed it.result_set (for_each fuel next c') in
      if equal it end_iterator then (returned [], c) else rest

  pub begin_open :
      (c : Conn L)
      → c.initialized ≡ true
      → begin c
        ≡ increment (record { connector = true; result_set = new_result_set; end = false }) c
  unfolding begin
  begin_open c opened = ground arith

  pub increment_end :
      (it : Iterator) (c : Conn L)
      → has_more_results L c ≡ false
      → increment it c ≡ (returned (record it { end = true }), c)
  unfolding increment
  increment_end it c h = rw h

  pub increment_stored :
      (it : Iterator) (c : Conn L)
      → has_more_results L c ≡ true
      → is_error (Service.store_result L success c).1 ≡ false
      → increment it c ≡ (
        returned (record it { result_set = (Service.store_result L success c).0 }),
        (Service.store_result L success c).2,
      )
  unfolding increment store_result throw_error
  increment_stored it c more clean = rw (more, clean)

  for_each_step :
      (fuel : ℕ) (it it' : Iterator) (c c' : Conn L)
      → it.end ≡ false
      → increment it c ≡ (returned it', c')
      → for_each (suc fuel) (returned it) c ≡ passed it.result_set (for_each fuel (returned it') c')
  unfolding for_each
  for_each_step fuel it it' c c' live e = rw (e, live)

  for_each_end :
      (fuel : ℕ) (it : Iterator) (c : Conn L)
      → it.end ≡ true
      → for_each (suc fuel) (returned it) c ≡ (returned [], c)
  unfolding for_each
  for_each_end fuel it c end = rw end

module _ (L : ClientLib) (D : Delivery L) (P : Protocol L D) where
  -- The iteration ends without an exception, has passed on result sets with these rows, and leaves
  -- no more results.
  abbrev pub Visits : List (List (List Field)) → Outcome (List ResultSet) × Conn L → Type 0
  Visits ts (returned sets, c) = (map view sets ≡ ts) × (has_more_results L c ≡ false)
  Visits ts (thrown ec text, c) = ⊥

  pub has_more_results_at :
      (x : Option L.Res) (rest : List (Option L.Res)) (c : Conn L)
      → P.pending c.mysql ≡ x ∷ rest
      → c.initialized ≡ true
      → multi_results L c.flags ≡ true
      → has_more_results L c ≡ (not c.first_result_stored || leb 1 (length rest))
  unfolding has_more_results
  has_more_results_at x rest c e opened multi = ground (arith, P.more c.mysql)

  Visits-passed :
      (ts : List (List (List Field))) (s : ResultSet) (t : List (List Field))
      (o : Outcome (List ResultSet) × Conn L)
      → view s ≡ t
      → Visits ts o
      → Visits (t ∷ ts) (passed L s o)
  Visits-passed ts s t (returned sets, c) e (v, over) = (cc, over)
  Visits-passed ts s t (thrown ec text, c) e v = v

  for_each_from :
      (fuel : ℕ) (x : Option L.Res) (rest : List (Option L.Res)) (it : Iterator) (c : Conn L)
      → P.pending c.mysql ≡ x ∷ rest
      → c.initialized ≡ true
      → multi_results L c.flags ≡ true
      → c.first_result_stored ≡ true
      → it.end ≡ false
      → view it.result_set ≡ table L D x
      → suc (length rest) < fuel
      → Visits (map (table L D) (x ∷ rest)) (for_each L fuel (returned it) c)
  for_each_from zero x rest it c e opened multi stored live seen h = absurd (omega arith)
  for_each_from (suc zero) x rest it c e opened multi stored live seen h = absurd (omega arith)
  for_each_from (suc (suc fuel)) x [] it c e opened multi stored live seen h =
      let over : has_more_results L c ≡ false =
        ground (arith, has_more_results_at x [] c e opened multi) in
      let last : Iterator = record it { end = true } in
      rw
        (
          for_each_step L (suc fuel) it last c c live (increment_end L it c over),
          for_each_end L fuel last c refl,
        )
        (cc, over)
  for_each_from (suc (suc fuel)) x (y ∷ rest) it c e opened multi stored live seen h =
      let (sees, clean, at, kept) = store_result_next L D P x y rest c e opened multi stored in
      let (rs, _, c') = Service.store_result L success c in
      let it' : Iterator = record it { result_set = rs } in
      let more : has_more_results L c ≡ true =
        ground (arith, has_more_results_at x (y ∷ rest) c e opened multi) in
      let ih =
        for_each_from (suc fuel) y rest it' c' at (kept.0 ∙ opened)
          (ap (multi_results L) kept.1 ∙ multi) (kept.2 ∙ stored) live sees (omega arith) in
      rw (for_each_step L (suc fuel) it it' c c' live (increment_stored L it c more clean)) (
        Visits-passed (map (table L D) (y ∷ rest)) it.result_set (table L D x)
          (for_each L (suc fuel) (returned it') c') seen ih)

  -- On an open connection with a multi-result flag, right after a query, iterating from
  -- `basic_results_iterator(connector)` to the end passes on every result of the query once, in the
  -- server's order and with all of its rows, raises no exception, and leaves no more results. Fuel
  -- above the number of results by one is enough.
  pub for_each-begin :
      (fuel : ℕ) (x : Option L.Res) (rest : List (Option L.Res)) (c : Conn L)
      → P.pending c.mysql ≡ x ∷ rest
      → c.initialized ≡ true
      → multi_results L c.flags ≡ true
      → c.first_result_stored ≡ false
      → suc (length rest) < fuel
      → let (it, c') = begin L c in Visits (map (table L D) (x ∷ rest)) (for_each L fuel it c')
  for_each-begin fuel x rest c e opened multi first h =
      let (sees, clean, at, kept) = store_result_first L D P x rest c e first in
      let (rs, _, c') = Service.store_result L success c in
      let it : Iterator = record { connector = true; result_set = new_result_set; end = false } in
      let it' : Iterator = record it { result_set = rs } in
      let more : has_more_results L c ≡ true =
        ground (arith, has_more_results_at x rest c e opened multi) in
      rw (begin_open L c opened, increment_stored L it c more clean)
        (for_each_from fuel x rest it' c' at (kept.0 ∙ opened) (ap (multi_results L) kept.1 ∙ multi)
          kept.2 refl sees h)

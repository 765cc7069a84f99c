-- ===== src/Example/Results.antt =====
-- blocking_multi_query.cpp and async_multi_query.cpp over a server that answers.
use amy.Prelude.{
  ℕ, zero, suc, ◌≡◌, ◌<◌, refl, ap, ◌∙◌, true, false, Option, none, some, List, [], ◌∷◌, ◌++◌,
  length, map, arith,
}
use amy.Errors.{success, Outcome, returned}
use amy.Client.{ClientLib}
use amy.Client.Protocol.{Delivery, Protocol}
use amy.Results.{Field, new_result_set}
use amy.Results.Fetch.{view}
use amy.Service
use amy.Service.{Conn}
use amy.Service.MoreResults.{table, store_result_first, store_result_next}
use amy.Service.Printing.{
  Narrow, Printable, store_result_first-Printable, store_result_next-Printable,
}
use amy.Connector.Iterator.{
  Iterator, increment, begin, increment_stored, increment_end, begin_open, has_more_results_at,
}
use amy.Example.{
  Line, counts, row_line, pairs, affected, connected_line, Ending, finished, failed, range_error,
  uncaught, undefined_behaviour, Ran, prepend, without_text, drop_text,
}
use amy.Example.Print.{print_result_set}
use amy.Example.Text.{row_text, row_lines, print_result_set-row_lines}
use amy.Example.Blocking.{visit}
use amy.Example.Agreement.{visit_step}

-- A line without what the connection counts.
abbrev pub without_counts : Line → Line
without_counts (counts rows fields n) = counts 0 0 n
without_counts (row_line t) = row_line t
without_counts (pairs a b c v) = pairs a b c v
without_counts (affected n) = affected n
without_counts connected_line = connected_line

-- The lines for result sets with these rows: how many they are, and each of them.
abbrev pub set_lines : List (List (List Field)) → List Line
set_lines [] = []
set_lines (t ∷ ts) = counts 0 0 (length t) ∷ (row_lines t ++ set_lines ts)

without_counts-row_lines :
    (t : List (List Field)) (ls : List Line)
    → map without_counts (row_lines t ++ ls) ≡ row_lines t ++ map without_counts ls
without_counts-row_lines [] ls = refl
without_counts-row_lines (r ∷ rs) ls =
    ap (λ l. row_line (row_text r) ∷ l) (without_counts-row_lines rs ls)

module _ (L : ClientLib) where
  -- The run ends without an exception, has printed the lines for result sets with these rows, and
  -- leaves no more results.
  abbrev pub Prints : List (List (List Field)) → Ran L → Type 0
  Prints ts none = ⊥
  Prints ts (some (ls, e, c)) =
      (map without_counts ls ≡ set_lines ts)
      × (e ≡ finished)
      × (Service.has_more_results L c ≡ false)

  Prints-prepend :
      (t : List (List Field)) (ts : List (List (List Field))) (a f : ℕ) (r : Ran L)
      → Prints ts r
      → Prints (t ∷ ts) (prepend L (counts a f (length t) ∷ row_lines t) r)
  Prints-prepend t ts a f none p = p
  Prints-prepend t ts a f (some (ls, e, c)) (lines, ends, over) = (
    ap (λ l. counts 0 0 (length t) ∷ l)
        (without_counts-row_lines t ls ∙ ap (λ l. row_lines t ++ l) lines),
    ends,
    over,
  )

  drop_text-finished : (e : Ending) → drop_text L e ≡ finished → e ≡ finished
  drop_text-finished finished h = refl
  drop_text-finished (failed ec t) h = cc
  drop_text-finished range_error h = cc
  drop_text-finished uncaught h = cc
  drop_text-finished undefined_behaviour h = cc

  pub Prints-without_text :
      (ts : List (List (List Field))) (r r' : Ran L)
      → without_text L r ≡ without_text L r'
      → Prints ts r
      → Prints ts r'
  Prints-without_text ts none r' same p = elim p [ ]
  Prints-without_text ts (some x) none same p = absurd (ground arith)
  Prints-without_text ts (some (ls, e, c)) (some (ls', e', c')) same (lines, ends, over) =
      (ground arith, drop_text-finished e' (ground arith), ground arith)

module _ (L : ClientLib) (D : Delivery L) (P : Protocol L D) where
  -- No result has more columns than an `int` counts.
  abbrev pub AllNarrow : List (Option L.Res) → Type 0
  AllNarrow [] = Unit
  AllNarrow (x ∷ xs) = Narrow L D P x × AllNarrow xs

  abbrev visiting : ℕ → Outcome Iterator × Conn L → Ran L
  visiting = visit L (print_result_set L)

  visit_over :
      (fuel : ℕ) (it : Iterator) (c : Conn L)
      → visiting (suc fuel) (returned (record it { end = true }), c) ≡ some ([], finished, c)
  unfolding visit
  visit_over fuel it c = refl

  visit-shown :
      (fuel : ℕ) (x : Option L.Res) (ts : List (List (List Field))) (it : Iterator) (c : Conn L)
      → it.end ≡ false
      → view it.result_set ≡ table L D x
      → Printable L c it.result_set
      → Prints L ts (visiting fuel (increment L it c))
      → Prints L (table L D x ∷ ts) (visiting (suc fuel) (returned it, c))
  visit-shown fuel x ts it c live seen printable p =
      rw
        (
          visit_step L (print_result_set L) fuel it c live,
          print_result_set-row_lines L c it.result_set printable,
          seen,
        )
        (Prints-prepend L (table L D x) ts (L.affected_rows c.mysql) (L.field_count c.mysql)
          (visiting fuel (increment L it c)) p)

  visit_from :
      (fuel : ℕ) (x : Option L.Res) (rest : List (Option L.Res)) (it : Iterator) (c : Conn L)
      → P.pending c.mysql ≡ x ∷ rest
      → c.initialized ≡ true
      → Service.multi_results L c.flags ≡ true
      → c.first_result_stored ≡ true
      → it.end ≡ false
      → view it.result_set ≡ table L D x
      → Printable L c it.result_set
      → AllNarrow rest
      → suc (length rest) < fuel
      → Prints L (map (table L D) (x ∷ rest)) (visiting fuel (returned it, c))
  visit_from zero x rest it c e opened multi stored live seen printable narrow h =
      absurd (omega arith)
  visit_from (suc zero) x rest it c e opened multi stored live seen printable narrow h =
      absurd (omega arith)
  visit_from (suc (suc fuel)) x [] it c e opened multi stored live seen printable narrow h =
      let over : Service.has_more_results L c ≡ false =
        ground (arith, has_more_results_at L D P x [] c e opened multi) in
      visit-shown (suc fuel) x [] it c live seen printable
        (rw (increment_end L it c over, visit_over fuel it c) (refl, refl, over))
  visit_from (suc (suc fuel)) x (y ∷ rest) it c e opened multi stored live seen printable narrow h =
      let (sees, clean, at, kept) = store_result_next L D P x y rest c e opened multi stored in
      let (rs, _, c') = Service.store_result L success c in
      let it' : Iterator = record it { result_set = rs } in
      let more : Service.has_more_results L c ≡ true =
        ground (arith, has_more_results_at L D P x (y ∷ rest) c e opened multi) in
      visit-shown (suc fuel) x (map (table L D) (y ∷ rest)) it c live seen printable (
        rw (increment_stored L it c more clean) (
          visit_from (suc fuel) y rest it' c' at (kept.0 ∙ opened)
            (ap (Service.multi_results L) kept.1 ∙ multi) (kept.2 ∙ stored) live sees
            (store_result_next-Printable L D P x y rest c e opened multi stored narrow.0) narrow.1
            (omega arith)))

  -- The loop over the results right after a statement.
  pub visit_begin :
      (fuel : ℕ) (x : Option L.Res) (rest : List (Option L.Res)) (c : Conn L)
      → P.pending c.mysql ≡ x ∷ rest
      → c.initialized ≡ true
      → Service.multi_results L c.flags ≡ true
      → c.first_result_stored ≡ false
      → AllNarrow (x ∷ rest)
      → suc (length rest) < fuel
      → Prints L (map (table L D) (x ∷ rest)) (visiting fuel (begin L c))
  visit_begin fuel x rest c e opened multi first narrow h =
      let (sees, clean, at, kept) = store_result_first L D P x rest c e first in
      let (rs, _, c') = Service.store_result L success c in
      let it : Iterator = record { connector = true; result_set = new_result_set; end = false } in
      let it' : Iterator = record it { result_set = rs } in
      let more : Service.has_more_results L c ≡ true =
        ground (arith, has_more_results_at L D P x rest c e opened multi) in
      rw (begin_open L c opened, increment_stored L it c more clean)
        (visit_from fuel x rest it' c' at (kept.0 ∙ opened)
          (ap (Service.multi_results L) kept.1 ∙ multi) kept.2 refl sees
          (store_result_first-Printable L D P x rest c e first narrow.0) narrow.1 h)

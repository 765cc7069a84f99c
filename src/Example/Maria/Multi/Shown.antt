-- ===== src/Example/Maria/Multi/Shown.antt =====
-- The handlers of mariadb_async_multi_query.cpp, and what they do with a stored result against the loop
-- of blocking_multi_query.cpp.
use mathlib.Core.List.{append-nil}
use amy.Prelude.{
  ℕ, zero, suc, ◌≡◌, refl, inl, inr, true, false, none, some, List, Bool-cases, if◌then◌else◌,
}
use amy.Errors.{ErrorCode, is_error, returned}
use amy.Client.{ClientLib, Bytes}
use amy.Results.{ResultSet}
use amy.Service
use amy.Service.{Conn}
use amy.Connector.Iterator.{Iterator, increment, increment_end}
use amy.Maria.{NonBlocking, MariaConn}
use amy.Maria.Blocking.Agreement.{has_more_results-agrees}
use amy.Maria.Store.{async_store_result}
use amy.Maria.Reactor.{storing}
use amy.Example.{Line, finished, Ran, prepend, printed, Printed}
use amy.Example.Print.{print_result_set}
use amy.Example.Blocking.{Options, visit}
use amy.Example.Async.{handle_store_result}
use amy.Example.Agreement.{Matches, prepend-Matches}
use amy.Example.Maria.{
  Handlers, Then, over, starts, lift, shown, start_store_result, multi_handlers,
}
use amy.Example.Maria.Steps.{run, after}
use amy.Example.Maria.Start.{StartsWith}

module _ (L : ClientLib) (N : NonBlocking L) (operation_aborted : ErrorCode) (nonblock : ℕ)
    (opts : Options) (stmt : Bytes) where
  abbrev pub handlers : Handlers L
  handlers = multi_handlers L N operation_aborted nonblock opts stmt

  pub multi_starts : StartsWith L N operation_aborted nonblock stmt handlers
  unfolding multi_handlers
  multi_starts = record {
    fails = λ h ec rs c e. rw e refl;
    connected = λ ec c clean. rw clean refl;
    queried = λ ec c clean. rw clean refl;
  }

  abbrev pub print : Conn L → ResultSet → Printed
  print = print_result_set L

  abbrev pub again : MariaConn L → Then L
  again c =
      if Service.has_more_results L c.conn
      then starts (start_store_result L N operation_aborted nonblock c)
      else over

  pub handlers-stored :
      (ec : ErrorCode) (rs : ResultSet) (c : MariaConn L)
      → is_error ec ≡ false
      → handlers handle_store_result ec (some rs) c
        ≡ shown L N operation_aborted nonblock (print c.conn rs) (again c)
  unfolding multi_handlers
  handlers-stored ec rs c clean = rw (clean, has_more_results-agrees L N c) refl

  abbrev pub runs : ℕ → MariaConn L → Ran L
  runs fuel c =
      run L N operation_aborted nonblock handlers fuel true handle_store_result
        (lift storing (async_store_result L N operation_aborted c))

  -- What remains after a result set, where the agreement on all that follows is given.
  abbrev pub Agrees : ℕ → ℕ → Iterator → Type 0
  Agrees n fuel it =
      (c : MariaConn L)
      → Service.has_more_results L c.conn ≡ true
      → Matches L (visit L print n (increment L it c.conn)) (runs fuel c)

  pub over-Matches :
      (n : ℕ) (it : Iterator) (ls : List Line) (c : Conn L)
      → Matches L
          (prepend L ls (visit L print n (returned (record it { end = true }), c)))
          (some (ls, finished, c))
  unfolding visit
  over-Matches zero it ls c = tt
  over-Matches (suc n) it ls c = rw (append-nil ls) refl

  again-Matches :
      (n fuel : ℕ) (it : Iterator) (ls : List Line) (c : MariaConn L)
      → Agrees n fuel it
      → Matches L
          (prepend L ls (visit L print n (increment L it c.conn)))
          (after L N operation_aborted nonblock handlers fuel true c.conn (ls, again c))
  unfolding start_store_result
  again-Matches n fuel it ls c ih = elim (Bool-cases (Service.has_more_results L c.conn)) [
    | inl more ↦
        rw more
          (prepend-Matches L ls (visit L print n (increment L it c.conn)) (runs fuel c) (ih c more))
    | inr done ↦ rw (done, increment_end L it c.conn done) (over-Matches n it ls c.conn)
  ]

  pub shown-Matches :
      (n fuel : ℕ) (it : Iterator) (p : Printed) (c : MariaConn L)
      → Agrees n fuel it
      → Matches L (printed L p c.conn (visit L print n (increment L it c.conn))) (
          after L N operation_aborted nonblock handlers fuel true c.conn
            (shown L N operation_aborted nonblock p (again c)))
  shown-Matches n fuel it (ls, some e) c ih = refl
  shown-Matches n fuel it (ls, none) c ih = again-Matches n fuel it ls c ih

-- ===== src/Example/Agreement/Multi.antt =====
-- async_multi_query.cpp against blocking_multi_query.cpp.
use amy.Prelude.{
  ℕ, zero, suc, ◌≡◌, refl, sym, ap, ◌∙◌, inl, inr, true, false, Option, none, some, [], arith,
  Bool-cases, if◌then◌else◌,
}
use amy.Errors.{ErrorCode, success, is_error, returned, throw_error}
use amy.Client.{ClientLib, Bytes}
use amy.Results.{ResultSet, new_result_set}
use amy.Service
use amy.Service.{Conn}
use amy.Async
use amy.Async.{System, stores, async_query}
use amy.Async.Blocking.{perform_stores}
use amy.Connector
use amy.Connector.Iterator.{Iterator, increment, begin, increment_stored, increment_end, begin_open}
use amy.Example.{failed, printed, without_text, Printed}
use amy.Example.Print.{print_result_set}
use amy.Example.Blocking.{Options, visit, blocking_multi_query}
use amy.Example.Async.{Handlers, io_run, multi_handlers, handle_store_result, async_multi_query}
use amy.Example.Async.Steps.{idle, storing, after, io_run-running}
use amy.Example.Agreement.{twice, prepend-agrees, visit_step}
use amy.Example.Agreement.Start.{StartsWith, Ready, connect_query-agrees}

module _ (L : ClientLib) where
  pub has_more_results-initialized :
      (c : Conn L) → Service.has_more_results L c ≡ true → c.initialized ≡ true
  unfolding Service.has_more_results
  has_more_results-initialized c h = ground arith

  pub increment_failed :
      (it : Iterator) (c : Conn L)
      → Service.has_more_results L c ≡ true
      → let (rs, ec, c') = Service.store_result L success c in
        is_error ec ≡ true → increment L it c ≡ (throw_error ec (L.error c'.mysql) it, c')
  unfolding increment Connector.store_result throw_error
  increment_failed it c more e = ground arith

module _ (L : ClientLib) (operation_aborted : ErrorCode) (opts : Options) (stmt : Bytes) where
  abbrev pub handlers : Handlers L
  handlers = multi_handlers L operation_aborted opts stmt

  store_again : (c : Conn L) → System L
  store_again c =
      if Service.has_more_results L c
      then Async.async_store_result L operation_aborted handle_store_result
          (idle L operation_aborted c)
      else idle L operation_aborted c

  store_again-conn : (c : Conn L) → (store_again c).conn ≡ c
  unfolding store_again Async.async_store_result
  store_again-conn c = ground arith

  store_again-storing :
      (c : Conn L)
      → Service.has_more_results L c ≡ true
      → store_again c ≡ storing L operation_aborted c
  unfolding store_again Async.async_store_result
  store_again-storing c more = ground (arith, has_more_results-initialized L c more)

  -- What the handler of a stored result does.
  handlers-stored :
      (ec : ErrorCode) (rs : ResultSet) (c : Conn L)
      → is_error ec ≡ false
      → let (ls, over) = print_result_set L c rs in
        handlers handle_store_result ec (some rs) (idle L operation_aborted c)
        ≡ (ls, over, store_again c)
  unfolding multi_handlers store_again
  handlers-stored ec rs c clean = rw clean refl

  pub handlers-failed :
      (h : ℕ) (ec : ErrorCode) (rs : Option ResultSet) (s : System L)
      → is_error ec ≡ true
      → handlers h ec rs s ≡ ([], some (failed ec (Service.message L ec)), s)
  unfolding multi_handlers
  handlers-failed h ec rs s e = rw e refl

  -- What follows a result set, where the agreement on all that follows is given.
  abbrev pub print : Conn L → ResultSet → Printed
  print = print_result_set L

  abbrev pub Agrees : ℕ → Iterator → Conn L → Type 0
  Agrees fuel it c =
      Service.has_more_results L c ≡ true
      → without_text L (visit L print fuel (increment L it c))
        ≡ without_text L
            (io_run L operation_aborted handlers (twice fuel) (storing L operation_aborted c))

  visit_end :
      (fuel : ℕ) (it : Iterator) (c : Conn L)
      → without_text L (visit L print fuel (returned (record it { end = true }), c))
        ≡ without_text L
            (io_run L operation_aborted handlers (twice fuel) (idle L operation_aborted c))
  unfolding visit io_run
  visit_end zero it c = refl
  visit_end (suc fuel) it c = refl

  rest-Agrees :
      (fuel : ℕ) (it : Iterator) (c : Conn L)
      → Agrees fuel it c
      → without_text L (visit L print fuel (increment L it c))
        ≡ without_text L (io_run L operation_aborted handlers (twice fuel) (store_again c))
  unfolding store_again
  rest-Agrees fuel it c ih = elim (Bool-cases (Service.has_more_results L c)) [
    | inl more ↦
        ih more
        ∙ ap (λ s. without_text L (io_run L operation_aborted handlers (twice fuel) s))
            (sym (store_again-storing c more))
    | inr over ↦ rw (increment_end L it c over, over) (visit_end fuel it c)
  ]

  printed-Agrees :
      (fuel : ℕ) (it : Iterator) (c : Conn L) (p : Printed)
      → Agrees fuel it c
      → without_text L (printed L p c (visit L print fuel (increment L it c)))
        ≡ without_text L (after L operation_aborted handlers (twice fuel) (p.0, p.1, store_again c))
  printed-Agrees fuel it c (ls, some e) ih =
      ap (λ x. without_text L (some (ls, e, x))) (sym (store_again-conn c))
  printed-Agrees fuel it c (ls, none) ih =
      prepend-agrees L ls (visit L print fuel (increment L it c))
        (io_run L operation_aborted handlers (twice fuel) (store_again c))
        (rest-Agrees fuel it c ih)

  pub visit_failed :
      (fuel : ℕ) (it : Iterator) (ec : ErrorCode) (text : _) (c : Conn L)
      → is_error ec ≡ true
      → without_text L (visit L print (suc fuel) (throw_error ec text it, c))
        ≡ some ([], failed ec none, c)
  unfolding visit throw_error
  visit_failed fuel it ec text c e = ground arith

  -- From a stored result on.
  pub visit-Agrees : (fuel : ℕ) (it : Iterator) (c : Conn L) → it.end ≡ false → Agrees fuel it c
  unfolding visit io_run
  visit-Agrees zero it c live more = refl
  visit-Agrees (suc fuel) it c live more =
      let (rs, ec, c') = Service.store_result L success c in
      let it' : Iterator = record it { result_set = rs } in
      let stored =
        io_run-running L operation_aborted handlers (twice fuel) handle_store_result stores c
          (ec, some rs, c') (perform_stores L operation_aborted c) in
      elim (Bool-cases (is_error ec)) [
        | inl e ↦
            rw
              (
                increment_failed L it c more e,
                stored,
                handlers-failed handle_store_result ec (some rs) (idle L operation_aborted c') e,
              )
              (visit_failed fuel it ec (L.error c'.mysql) c' e)
        | inr clean ↦
            rw
              (
                increment_stored L it c more clean,
                stored,
                handlers-stored ec rs c' clean,
                visit_step L print fuel it' c' live,
              )
              (printed-Agrees fuel it' c' (print c' rs) (visit-Agrees fuel it' c' live))
      ]

  multi_starts : StartsWith L operation_aborted stmt handlers
  unfolding multi_handlers
  multi_starts = record {
    fails = handlers-failed;
    connected = λ ec c clean opened. ground arith;
    queried = λ ec c clean opened. ground arith;
  }

  pub Ready-more :
      (c : Conn L)
      → Ready L operation_aborted opts stmt L.client_multi_statements c
      → Service.multi_results L L.client_multi_statements ≡ true
      → Service.has_more_results L c ≡ true
  unfolding Service.has_more_results
  Ready-more c (opened, flagged, first) multi = ground (arith, ap (Service.multi_results L) flagged)

  visit_agrees :
      (fuel : ℕ) (c : Conn L)
      → Service.multi_results L L.client_multi_statements ≡ true
      → Ready L operation_aborted opts stmt L.client_multi_statements c
      → without_text L (visit L print fuel (begin L c))
        ≡ without_text L
            (io_run L operation_aborted handlers (twice fuel) (storing L operation_aborted c))
  visit_agrees fuel c multi ready = rw (begin_open L c ready.0) (
      visit-Agrees fuel (record { connector = true; result_set = new_result_set; end = false }) c
        refl (Ready-more c ready multi))

  -- On a connection that is not open yet, and with the flag under which the client library returns
  -- several results, async_multi_query prints what blocking_multi_query prints, ends as that ends but
  -- for the text of an exception, and leaves the connection as that does, whatever the client library
  -- answers; four more steps than twice the fuel of the one are enough for the other.
  pub async_multi_query-blocking_multi_query :
      (fuel : ℕ) (c : Conn L)
      → c.initialized ≡ false
      → Service.multi_results L L.client_multi_statements ≡ true
      → without_text L (blocking_multi_query L opts stmt fuel c)
        ≡ without_text L
            (async_multi_query L operation_aborted opts stmt (twice (suc (suc fuel))) c)
  unfolding blocking_multi_query async_multi_query
  async_multi_query-blocking_multi_query fuel c closed multi =
      connect_query-agrees L operation_aborted opts stmt L.client_multi_statements handlers
        multi_starts (λ c'. visit L print fuel (begin L c')) fuel (λ c'. visit_agrees fuel c' multi)
        c closed

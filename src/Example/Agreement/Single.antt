-- ===== src/Example/Agreement/Single.antt =====
-- async_single_query.cpp against blocking_single_query.cpp.
use amy.Prelude.{ℕ, suc, ◌≡◌, refl, ◌∙◌, inl, inr, true, false, none, some, [], arith, Bool-cases}
use amy.Errors.{ErrorCode, success, is_error, throw_error}
use amy.Client.{ClientLib, Bytes}
use amy.Results.{ResultSet}
use amy.Service
use amy.Service.{Conn, default_flags}
use amy.Async.{stores}
use amy.Async.Blocking.{perform_stores}
use amy.Connector
use amy.Example.{finished, failed, Ran, printed, without_text, Printed}
use amy.Example.Print.{print_pairs}
use amy.Example.Blocking.{Options, try, blocking_single_query}
use amy.Example.Async.{Handlers, io_run, single_handlers, handle_store_result, async_single_query}
use amy.Example.Async.Steps.{idle, storing, after, io_run-running, io_run-idle}
use amy.Example.Agreement.{twice}
use amy.Example.Agreement.Start.{StartsWith, connect_query-agrees}

module _ (L : ClientLib) (operation_aborted : ErrorCode) (opts : Options) (stmt : Bytes) where
  abbrev handlers : Handlers L
  handlers = single_handlers L operation_aborted opts stmt

  single_starts : StartsWith L operation_aborted stmt handlers
  unfolding single_handlers
  single_starts = record {
    fails = λ h ec rs s e. rw e refl;
    connected = λ ec c clean opened. ground arith;
    queried = λ ec c clean opened. ground arith;
  }

  handlers-stored :
      (ec : ErrorCode) (rs : ResultSet) (c : Conn L)
      → is_error ec ≡ false
      → let (ls, over) = print_pairs L c rs in
        handlers handle_store_result ec (some rs) (idle L operation_aborted c)
        ≡ (ls, over, idle L operation_aborted c)
  unfolding single_handlers
  handlers-stored ec rs c clean = rw clean refl

  -- `main` from the stored result on.
  abbrev pub stored : Conn L → Ran L
  stored c =
      try L (Connector.store_result L c)
        (λ rs c'. printed L (print_pairs L c' rs) c' (some ([], finished, c')))

  pub stored_failed :
      (c : Conn L)
      → let (_, ec, c') = Service.store_result L success c in
        is_error ec ≡ true → without_text L (stored c) ≡ some ([], failed ec none, c')
  unfolding Connector.store_result throw_error
  stored_failed c e = ground arith

  pub stored-printed :
      (c : Conn L)
      → let (rs, ec, c') = Service.store_result L success c in
        is_error ec ≡ false
        → stored c ≡ printed L (print_pairs L c' rs) c' (some ([], finished, c'))
  unfolding Connector.store_result throw_error
  stored-printed c clean = ground arith

  printed-agrees :
      (fuel : ℕ) (p : Printed) (c : Conn L)
      → without_text L (printed L p c (some ([], finished, c)))
        ≡ without_text L
            (after L operation_aborted handlers (suc fuel) (p.0, p.1, idle L operation_aborted c))
  printed-agrees fuel (ls, some e) c = refl
  printed-agrees fuel (ls, none) c = rw (io_run-idle L operation_aborted handlers fuel c) refl

  stored_agrees :
      (fuel : ℕ) (c : Conn L)
      → without_text L (stored c)
        ≡ without_text L (
            io_run L operation_aborted handlers
              (suc (suc (suc fuel)))
              (storing L operation_aborted c))
  stored_agrees fuel c =
      let (rs, ec, c') = Service.store_result L success c in
      let ran =
        io_run-running L operation_aborted handlers (suc fuel) handle_store_result stores c
          (ec, some rs, c') (perform_stores L operation_aborted c) in
      elim (Bool-cases (is_error ec)) [
        | inl e ↦
            stored_failed c e
            ∙ rw
                (
                  ran,
                  single_starts.fails handle_store_result ec (some rs) (idle L operation_aborted c')
                      e,
                )
                refl
        | inr clean ↦
            rw (stored-printed c clean, ran, handlers-stored ec rs c' clean)
              (printed-agrees fuel (print_pairs L c' rs) c')
      ]

  -- On a connection that is not open yet, async_single_query prints what blocking_single_query prints,
  -- ends as that ends but for the text of an exception, and leaves the connection as that does,
  -- whatever the client library answers. Eight steps are enough for it.
  pub async_single_query-blocking_single_query :
      (fuel : ℕ) (c : Conn L)
      → c.initialized ≡ false
      → without_text L (blocking_single_query L opts stmt c)
        ≡ without_text L (
            async_single_query L operation_aborted opts stmt (twice (suc (suc (suc (suc fuel))))) c)
  unfolding blocking_single_query async_single_query
  async_single_query-blocking_single_query fuel c closed =
      connect_query-agrees L operation_aborted opts stmt default_flags handlers single_starts stored
        (suc (suc fuel)) (λ c' _. stored_agrees (suc (twice fuel)) c') c closed

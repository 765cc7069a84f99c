-- ===== src/Example/Async/Steps.antt =====
-- The steps of `io_service.run()` where one call is under way.
use amy.Prelude.{ℕ, suc, ◌≡◌, refl, subst, true, Option, none, some, [], ◌∷◌, arith, ==_iff}
use amy.Errors.{ErrorCode}
use amy.Client.{ClientLib}
use amy.Results.{ResultSet}
use amy.Service.{Conn}
use amy.Async
use amy.Async.{
  System, Completion, Job, Task, queries, stores, async_query, async_store_result, work_step,
  run_job,
}
use amy.Example.{finished, Ran, prepend}
use amy.Example.Async.{Handlers, Handled, io_run, handle_store_result}

module _ (L : ClientLib) (operation_aborted : ErrorCode) where
  -- Nothing is queued, and one task is.
  abbrev pub idle : Conn L → System L
  idle c = record { conn = c; work_io_service = true; work_thread = true; work = []; posted = [] }

  abbrev pub running : ℕ → Task → Conn L → System L
  running handler task c = record (idle c) {
    work = record { handler = handler; cancelation_token = c.cancelation_token; task = task } ∷ [];
  }

  -- A result is about to be stored.
  abbrev pub storing : Conn L → System L
  storing = running handle_store_result stores

  -- The rest of a run, from what a handler has done.
  abbrev pub after : Handlers L → ℕ → Handled L → Ran L
  after handlers fuel (ls, some e, s) = some (ls, e, s.conn)
  after handlers fuel (ls, none, s) = prepend L ls (io_run L operation_aborted handlers fuel s)

  pub io_run-idle :
      (handlers : Handlers L) (fuel : ℕ) (c : Conn L)
      → io_run L operation_aborted handlers (suc fuel) (idle c) ≡ some ([], finished, c)
  unfolding io_run
  io_run-idle handlers fuel c = refl

  perform_step :
      (handlers : Handlers L) (fuel handler : ℕ) (task : Task) (c : Conn L)
      → let (ec, rs, c') = Async.perform L operation_aborted task c in
        io_run L operation_aborted handlers (suc (suc fuel)) (running handler task c)
        ≡ after handlers fuel (handlers handler ec rs (idle c'))
  unfolding io_run run_job
  perform_step handlers fuel handler task c =
      let same = (==_iff c.cancelation_token c.cancelation_token).1 refl in ground (arith, same)

  -- The work thread runs the task, and the completion calls its handler.
  pub io_run-running :
      (handlers : Handlers L) (fuel handler : ℕ) (task : Task) (c : Conn L)
      (done : ErrorCode × Option ResultSet × Conn L)
      → Async.perform L operation_aborted task c ≡ done
      → io_run L operation_aborted handlers (suc (suc fuel)) (running handler task c)
        ≡ after handlers fuel (handlers handler done.0 done.1 (idle done.2))
  io_run-running handlers fuel handler task c done e =
      subst
        (λ d.
          io_run L operation_aborted handlers (suc (suc fuel)) (running handler task c)
          ≡ after handlers fuel (handlers handler d.0 d.1 (idle d.2)))
        e (perform_step handlers fuel handler task c)

  -- A completion that waits calls its handler.
  pub io_run-posted :
      (handlers : Handlers L) (fuel : ℕ) (k : Completion) (s : System L)
      → io_run L operation_aborted handlers (suc fuel) (record s { posted = k ∷ [] })
        ≡ after handlers fuel (handlers k.handler k.ec k.result (record s { posted = [] }))
  unfolding io_run
  io_run-posted handlers fuel k s = ground arith

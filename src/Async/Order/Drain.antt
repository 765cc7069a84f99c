-- ===== src/Async/Order/Drain.antt =====
-- Any interleaving of asynchronous calls with the work thread.
use mathlib.Core.List.{append-nil, append_assoc}
use amy.Prelude.{◌≡◌, refl, sym, subst, ap, ◌∙◌, inr, true, List, [], ◌∷◌, ◌++◌}
use amy.Errors.{ErrorCode}
use amy.Client.{ClientLib}
use amy.Async.{System, Completion, drain}
use amy.Async.Completions.{Action, step, run}
use amy.Async.Order.{blocking, blocking_run, AdmitsAll, Runs, Yields}
use amy.Async.Order.Yields.{drain_idle, step-Yields}
use amy.Async.Order.Runs.{step-Runs}

module _ (L : ClientLib) (operation_aborted : ErrorCode) where
  run-Yields :
      (s : System L) (actions : List Action)
      → Runs L operation_aborted s
      → AdmitsAll L operation_aborted (drain L operation_aborted s).conn actions
      → Yields L operation_aborted s
          (blocking_run L operation_aborted (drain L operation_aborted s).conn actions)
          (run L operation_aborted s actions)
  unfolding run blocking_run AdmitsAll
  run-Yields s [] runs _ = (sym (append-nil (drain L operation_aborted s).posted), refl)
  run-Yields s (a ∷ rest) runs (admits, admits_rest) =
      let d = drain L operation_aborted s in
      let s' = step L operation_aborted s a in
      let (posts, conn) = step-Yields L operation_aborted s a runs admits in
      let later =
        run-Yields s' rest (step-Runs L operation_aborted s a runs admits)
          (subst (λ c. AdmitsAll L operation_aborted c rest) (sym conn) admits_rest) in
      let (posted, last) =
        subst
          (λ c.
            Yields L operation_aborted s' (blocking_run L operation_aborted c rest)
              (run L operation_aborted s' rest))
          conn later in
      let (ks, c) = blocking L operation_aborted d.conn a in
      (
        posted
            ∙ ap (λ (l : List Completion). l ++ (blocking_run L operation_aborted c rest).0) posts
            ∙ append_assoc d.posted ks (blocking_run L operation_aborted c rest).0,
        last,
      )

  -- However the user's calls of `async_connect`, `async_query` and `async_store_result` interleave
  -- with the work thread, once that has run all that is queued, the handlers are called once each,
  -- in the order of the calls, with the codes and the result sets that the blocking functions
  -- return when they are called one after the other, and the connection is as these leave it,
  -- whatever the client library answers, on a connection that is open at first or not. The service
  -- starts with an empty queue, is not shut down, and nothing is canceled or closed; a result is
  -- stored on an open connection.
  pub drain-run-blocking_run :
      (s : System L) (actions : List Action)
      → s.work_io_service ≡ true
      → s.work ≡ []
      → AdmitsAll L operation_aborted s.conn actions
      → let d = drain L operation_aborted (run L operation_aborted s actions) in
        let (ks, c) = blocking_run L operation_aborted s.conn actions in
        (d.posted ≡ s.posted ++ ks) × (d.conn ≡ c)
  drain-run-blocking_run s actions live idle admits =
      let same = drain_idle L operation_aborted s idle in
      subst
        (λ (d : System L).
          ((drain L operation_aborted (run L operation_aborted s actions)).posted
            ≡ d.posted ++ (blocking_run L operation_aborted d.conn actions).0)
          × ((drain L operation_aborted (run L operation_aborted s actions)).conn
              ≡ (blocking_run L operation_aborted d.conn actions).1))
        same
        (run-Yields s actions (live, inr idle)
          (subst (λ (d : System L). AdmitsAll L operation_aborted d.conn actions) (sym same)
            admits))

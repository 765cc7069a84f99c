-- ===== src/Async/Order/Runs.antt =====
-- The service keeps running: a queue that is not empty belongs to an open connection.
use amy.Prelude.{ℕ, ◌≡◌, subst, ap, ◌∙◌, inl, inr, true, false, [], arith, Bool-cases}
use amy.Errors.{ErrorCode, is_error}
use amy.Client.{ClientLib, Bytes}
use amy.Auth.{AuthInfo, Endpoint}
use amy.Ops.{mysql_init}
use amy.Service
use amy.Service.{Conn}
use amy.Async.{System, drain, async_connect, async_query}
use amy.Async.Completions.{
  Action, connects_async, queries_async, stores_async, cancels, closes, works, step,
}
use amy.Async.Jobs.{work_step-keeps, work_step_idle}
use amy.Async.Order.{Admits, Runs}
use amy.Async.Order.Yields.{
  async_query_opened, async_store_result_opened, async_connect_opened, drain_idle,
}

module _ (L : ClientLib) (operation_aborted : ErrorCode) where
  -- A clear code of `open_conn` comes with an open connection.
  open_conn-opens :
      (c : Conn L)
      → is_error (Service.open_conn L c).0 ≡ false
      → (Service.open_conn L c).1.initialized ≡ true
  unfolding Service.open_conn mysql_init
  open_conn-opens c clean = ground arith

  connect_failed :
      (endpoint : Endpoint) (auth : AuthInfo) (database : Bytes) (flags handler : ℕ) (s : System L)
      → s.conn.initialized ≡ false
      → is_error (Service.open_conn L s.conn).0 ≡ true
      → let s' = async_connect L operation_aborted endpoint auth database flags handler s in
        (s'.work_io_service ≡ s.work_io_service) × (s'.work ≡ s.work)
  unfolding async_connect
  connect_failed endpoint auth database flags handler s closed failed = ground arith

  connect_queued :
      (endpoint : Endpoint) (auth : AuthInfo) (database : Bytes) (flags handler : ℕ) (s : System L)
      → s.work_io_service ≡ true
      → s.conn.initialized ≡ false
      → is_error (Service.open_conn L s.conn).0 ≡ false
      → let s' = async_connect L operation_aborted endpoint auth database flags handler s in
        (s'.work_io_service ≡ true) × (s'.conn ≡ (Service.open_conn L s.conn).1)
  unfolding async_connect
  connect_queued endpoint auth database flags handler s live closed clean = ground arith

  opened-Runs :
      (s : System L) (a : Action)
      → s.work_io_service ≡ true
      → s.conn.initialized ≡ true
      → Admits L operation_aborted (drain L operation_aborted s).conn a
      → Runs L operation_aborted (step L operation_aborted s a)
  unfolding step
  opened-Runs s (connects_async endpoint auth database flags handler) live opened _ =
      rw
        (async_connect_opened L operation_aborted endpoint auth database flags handler s opened
          live)
        (live, inl opened)
  opened-Runs s (queries_async stmt handler) live opened _ =
      rw (async_query_opened L operation_aborted stmt handler s opened live) (live, inl opened)
  opened-Runs s (stores_async handler) live opened _ =
      rw (async_store_result_opened L operation_aborted handler s opened live) (live, inl opened)
  opened-Runs s cancels live opened admits = elim admits [ ]
  opened-Runs s closes live opened admits = elim admits [ ]
  opened-Runs s works live opened _ =
      let (still, same) = work_step-keeps L operation_aborted s in
      (same ∙ live, inl (still ∙ opened))

  idle-Runs :
      (s : System L) (a : Action)
      → s.work_io_service ≡ true
      → s.work ≡ []
      → s.conn.initialized ≡ false
      → Admits L operation_aborted s.conn a
      → Runs L operation_aborted (step L operation_aborted s a)
  unfolding step
  idle-Runs s (connects_async endpoint auth database flags handler) live idle closed _ =
      elim (Bool-cases (is_error (Service.open_conn L s.conn).0)) [
        | inl failed ↦
            let (same, still) =
              connect_failed endpoint auth database flags handler s closed failed in
            (same ∙ live, inr (still ∙ idle))
        | inr clean ↦
            let (lives, conn) =
              connect_queued endpoint auth database flags handler s live closed clean in
            (lives, inl (ap (λ (c : Conn L). c.initialized) conn ∙ open_conn-opens s.conn clean))
      ]
  idle-Runs s (queries_async stmt handler) live idle closed _ =
      unfold async_query in rw closed (live, inr idle)
  idle-Runs s (stores_async handler) live idle closed opened = absurd (ground arith)
  idle-Runs s cancels live idle closed admits = elim admits [ ]
  idle-Runs s closes live idle closed admits = elim admits [ ]
  idle-Runs s works live idle closed _ = (
    (work_step-keeps L operation_aborted s).1 ∙ live,
    inr (work_step_idle L operation_aborted s idle),
  )

  pub step-Runs :
      (s : System L) (a : Action)
      → Runs L operation_aborted s
      → Admits L operation_aborted (drain L operation_aborted s).conn a
      → Runs L operation_aborted (step L operation_aborted s a)
  step-Runs s a (live, inl opened) admits = opened-Runs s a live opened admits
  step-Runs s a (live, inr idle) admits = elim (Bool-cases s.conn.initialized) [
    | inl opened ↦ opened-Runs s a live opened admits
    | inr closed ↦ idle-Runs s a live idle closed (
        subst (λ (d : System L). Admits L operation_aborted d.conn a)
          (drain_idle L operation_aborted s idle) admits)
  ]

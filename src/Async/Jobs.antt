-- ===== src/Async/Jobs.antt =====
-- The queue of the work thread of include/amy/impl/mysql_service.ipp as a list of handlers that
-- is still to be run.
use amy.Prelude.{Bool, ◌≡◌, refl, ap, ◌∙◌, true, List, [], ◌∷◌, ◌++◌, arith}
use amy.Errors.{ErrorCode}
use amy.Client.{ClientLib}
use amy.Service
use amy.Service.{Conn}
use amy.Async.{
  System, Job, Task, connects, queries, stores, Completion, perform, run_job, run_jobs,
  run_store_result, drain, work_step, enqueue, post,
}
use amy.Async.Cancel.{perform-token}

module _ (L : ClientLib) (operation_aborted : ErrorCode) where
  -- The system after the handler has run at the end of the queue.
  abbrev pub then_run : Job → System L → System L
  then_run j s =
      let (k, c) = run_job L operation_aborted j s.conn in
      post L operation_aborted k (record s { conn = c })

  run_jobs-then_run :
      (js : List Job) (j : Job) (s : System L)
      → run_jobs L operation_aborted (js ++ (j ∷ [])) s
        ≡ then_run j (run_jobs L operation_aborted js s)
  unfolding run_jobs
  run_jobs-then_run [] j s = refl
  run_jobs-then_run (i ∷ js) j s = run_jobs-then_run js j (then_run i s)

  drain-step :
      (js : List Job) (conn : Conn L) (live thread : Bool) (posted : List Completion)
      → let s : System L = record {
        conn = conn;
        work_io_service = live;
        work_thread = thread;
        work = js;
        posted = posted;
      } in
        drain L operation_aborted (work_step L operation_aborted s) ≡ drain L operation_aborted s
  unfolding drain work_step
  drain-step [] conn live thread posted = refl
  drain-step (j ∷ js) conn live thread posted = refl

  -- A step of the work thread does not change what the queue comes to.
  pub drain-work_step :
      (s : System L)
      → drain L operation_aborted (work_step L operation_aborted s) ≡ drain L operation_aborted s
  drain-work_step s = drain-step s.work s.conn s.work_io_service s.work_thread s.posted

  run_jobs-started :
      (js : List Job) (s : System L)
      → run_jobs L operation_aborted js (record s { work_thread = true })
        ≡ record (run_jobs L operation_aborted js s) { work_thread = true }
  unfolding run_jobs
  run_jobs-started [] s = refl
  run_jobs-started (j ∷ js) s = run_jobs-started js (then_run j s)

  -- A handler that is queued runs after the others.
  pub drain-enqueue :
      (j : Job) (s : System L)
      → drain L operation_aborted (enqueue L operation_aborted j s)
        ≡ record (then_run j (drain L operation_aborted s)) { work_thread = true }
  unfolding drain
  drain-enqueue j s =
      let queue : System L = record s { work = [] } in
      run_jobs-then_run s.work j (record queue { work_thread = true })
      ∙ ap (then_run j) (run_jobs-started s.work queue)

  run_store_result-initialized :
      (c : Conn L) → (run_store_result L operation_aborted c).2.initialized ≡ c.initialized
  unfolding run_store_result Service.advance Service.retrieve Service.reset_result
      Service.assign_last Service.free_result
  run_store_result-initialized c = ground arith

  perform-initialized :
      (t : Task) (c : Conn L) → (perform L operation_aborted t c).2.initialized ≡ c.initialized
  unfolding perform Service.connect_open Service.run_query Service.free_result
  perform-initialized (connects endpoint auth database flags) c = refl
  perform-initialized (queries stmt) c = ground arith
  perform-initialized stores c = ground (arith, run_store_result-initialized c)

  pub run_job-keeps :
      (j : Job) (c : Conn L)
      → ((run_job L operation_aborted j c).1.cancelation_token ≡ c.cancelation_token)
        × ((run_job L operation_aborted j c).1.initialized ≡ c.initialized)
  unfolding run_job
  run_job-keeps j c =
      ground (arith, perform-token L operation_aborted j.task c, perform-initialized j.task c)

  run_jobs-keeps :
      (js : List Job) (s : System L)
      → ((run_jobs L operation_aborted js s).conn.cancelation_token ≡ s.conn.cancelation_token)
        × ((run_jobs L operation_aborted js s).conn.initialized ≡ s.conn.initialized)
  unfolding run_jobs
  run_jobs-keeps [] s = (refl, refl)
  run_jobs-keeps (j ∷ js) s =
      let (token, opened) = run_job-keeps j s.conn in
      let (tokens, still) = run_jobs-keeps js (then_run j s) in (tokens ∙ token, still ∙ opened)

  pub drain-keeps :
      (s : System L)
      → ((drain L operation_aborted s).conn.cancelation_token ≡ s.conn.cancelation_token)
        × ((drain L operation_aborted s).conn.initialized ≡ s.conn.initialized)
  unfolding drain
  drain-keeps s = run_jobs-keeps s.work (record s { work = [] })

  work_step_first :
      (js : List Job) (conn : Conn L) (live thread : Bool) (posted : List Completion)
      → let s : System L = record {
        conn = conn;
        work_io_service = live;
        work_thread = thread;
        work = js;
        posted = posted;
      } in
        ((work_step L operation_aborted s).conn.initialized ≡ conn.initialized)
        × ((work_step L operation_aborted s).work_io_service ≡ live)
  unfolding work_step
  work_step_first [] conn live thread posted = (refl, refl)
  work_step_first (j ∷ js) conn live thread posted = ((run_job-keeps j conn).1, refl)

  pub work_step-keeps :
      (s : System L)
      → ((work_step L operation_aborted s).conn.initialized ≡ s.conn.initialized)
        × ((work_step L operation_aborted s).work_io_service ≡ s.work_io_service)
  work_step-keeps s = work_step_first s.work s.conn s.work_io_service s.work_thread s.posted

  pub work_step_idle : (s : System L) → s.work ≡ [] → (work_step L operation_aborted s).work ≡ []
  unfolding work_step
  work_step_idle s idle = rw (idle, work_step) idle

-- ===== src/Async/Completions.antt =====
-- Interleavings of the user's calls with the work thread: which handlers are called, and what holds
-- throughout.
use amy.Prelude.{ℕ, ◌+◌, ◌≡◌, refl, true, List, [], ◌∷◌, ◌++◌, arith, ◌==◌, if◌then◌else◌}
use amy.Errors.{ErrorCode}
use amy.Client.{ClientLib, Bytes}
use amy.Auth.{AuthInfo, Endpoint}
use amy.Service.{Conn}
use amy.Async.{
  System, Job, Completion, async_connect, async_query, async_store_result, run_job, run_jobs, drain,
  work_step, cancel, close,
}

-- What may happen next, short of a shutdown.
pub data Action : Type 0 where
  connects_async : Endpoint → AuthInfo → Bytes → ℕ → ℕ → Action
  queries_async : Bytes → ℕ → Action
  stores_async : ℕ → Action
  cancels : Action
  closes : Action
  works : Action

abbrev pub tick : ℕ → ℕ → ℕ
tick a b = if a == b then 1 else 0

-- How often the action issues the handler h.
abbrev pub issues : ℕ → Action → ℕ
issues h (connects_async endpoint auth database flags handler) = tick handler h
issues h (queries_async stmt handler) = tick handler h
issues h (stores_async handler) = tick handler h
issues h _ = 0

abbrev pub issued : ℕ → List Action → ℕ
issued h [] = 0
issued h (a ∷ rest) = issues h a + issued h rest

-- How often the handler h is called by what is posted, and is queued.
abbrev pub posted_count : ℕ → List Completion → ℕ
posted_count h [] = 0
posted_count h (k ∷ ks) = tick k.handler h + posted_count h ks

abbrev pub queued_count : ℕ → List Job → ℕ
queued_count h [] = 0
queued_count h (j ∷ js) = tick j.handler h + queued_count h js

posted_count-append :
    (h : ℕ) (xs ys : List Completion)
    → posted_count h (xs ++ ys) ≡ posted_count h xs + posted_count h ys
posted_count-append h [] ys = omega arith
posted_count-append h (x ∷ xs) ys = omega (arith, posted_count-append h xs ys)

queued_count-append :
    (h : ℕ) (xs ys : List Job) → queued_count h (xs ++ ys) ≡ queued_count h xs + queued_count h ys
queued_count-append h [] ys = omega arith
queued_count-append h (x ∷ xs) ys = omega (arith, queued_count-append h xs ys)

module _ (L : ClientLib) (operation_aborted : ErrorCode) where
  unfoldable pub step : System L → Action → System L
  step s (connects_async endpoint auth database flags handler) =
      async_connect L operation_aborted endpoint auth database flags handler s
  step s (queries_async stmt handler) = async_query L operation_aborted stmt handler s
  step s (stores_async handler) = async_store_result L operation_aborted handler s
  step s cancels = cancel L operation_aborted s
  step s closes = close L operation_aborted s
  step s works = work_step L operation_aborted s

  unfoldable pub run : System L → List Action → System L
  run s [] = s
  run s (a ∷ rest) = run (step s a) rest

  run_job-handler : (j : Job) (c : Conn L) → (run_job L operation_aborted j c).0.handler ≡ j.handler
  unfolding run_job
  run_job-handler j c = ground arith

  work_step-count :
      (h : ℕ) (js : List Job) (s : System L)
      → s.work ≡ js
      → posted_count h (work_step L operation_aborted s).posted
          + queued_count h (work_step L operation_aborted s).work
        ≡ posted_count h s.posted + queued_count h s.work
  unfolding work_step
  work_step-count h [] s e = ground arith
  work_step-count h (j ∷ js) s e =
      let k : Completion = (run_job L operation_aborted j s.conn).0 in
      ground (arith, posted_count-append h s.posted (k ∷ []), run_job-handler j s.conn)

  async_query-count :
      (h : ℕ) (stmt : Bytes) (handler : ℕ) (s : System L)
      → s.work_io_service ≡ true
      → let s' = async_query L operation_aborted stmt handler s in
        (posted_count h s'.posted + queued_count h s'.work
          ≡ tick handler h + (posted_count h s.posted + queued_count h s.work))
        × (s'.work_io_service ≡ true)
  unfolding async_query
  async_query-count h stmt handler s live =
      grind (arith, posted_count-append h s.posted, queued_count-append h s.work)

  async_store_result-count :
      (h handler : ℕ) (s : System L)
      → s.work_io_service ≡ true
      → let s' = async_store_result L operation_aborted handler s in
        (posted_count h s'.posted + queued_count h s'.work
          ≡ tick handler h + (posted_count h s.posted + queued_count h s.work))
        × (s'.work_io_service ≡ true)
  unfolding async_store_result
  async_store_result-count h handler s live =
      grind (arith, posted_count-append h s.posted, queued_count-append h s.work)

  async_connect-count :
      (h : ℕ) (endpoint : Endpoint) (auth : AuthInfo) (database : Bytes) (flags handler : ℕ)
      (s : System L)
      → s.work_io_service ≡ true
      → let s' = async_connect L operation_aborted endpoint auth database flags handler s in
        (posted_count h s'.posted + queued_count h s'.work
          ≡ tick handler h + (posted_count h s.posted + queued_count h s.work))
        × (s'.work_io_service ≡ true)
  unfolding async_connect
  async_connect-count h endpoint auth database flags handler s live =
      grind (arith, posted_count-append h s.posted, queued_count-append h s.work)

  step-count :
      (h : ℕ) (s : System L) (a : Action)
      → s.work_io_service ≡ true
      → (posted_count h (step s a).posted + queued_count h (step s a).work
          ≡ issues h a + (posted_count h s.posted + queued_count h s.work))
        × ((step s a).work_io_service ≡ true)
  unfolding step cancel close
  step-count h s (connects_async endpoint auth database flags handler) live =
      async_connect-count h endpoint auth database flags handler s live
  step-count h s (queries_async stmt handler) live = async_query-count h stmt handler s live
  step-count h s (stores_async handler) live = async_store_result-count h handler s live
  step-count h s cancels live = (omega arith, live)
  step-count h s closes live = (omega arith, live)
  step-count h s works live =
      (ground (arith, work_step-count h s.work s refl), unfold work_step in ground arith)

  run-count :
      (h : ℕ) (s : System L) (actions : List Action)
      → s.work_io_service ≡ true
      → posted_count h (run s actions).posted + queued_count h (run s actions).work
        ≡ issued h actions + (posted_count h s.posted + queued_count h s.work)
  unfolding run
  run-count h s [] live = omega arith
  run-count h s (a ∷ rest) live =
      let (one, still) = step-count h s a live in
      omega (arith, one, run-count h (step s a) rest still)

  run_jobs-count :
      (h : ℕ) (js : List Job) (s : System L)
      → posted_count h (run_jobs L operation_aborted js s).posted
        ≡ posted_count h s.posted + queued_count h js
  unfolding run_jobs
  run_jobs-count h [] s = omega arith
  run_jobs-count h (j ∷ js) s =
      let (k, c) = run_job L operation_aborted j s.conn in
      ground (
        arith,
        posted_count-append h s.posted (k ∷ []),
        run_job-handler j s.conn,
        run_jobs-count h js (record s { conn = c; posted = s.posted ++ (k ∷ []) }),
      )

  -- However the user's calls, cancelations and closes interleave with the work thread, once that has
  -- run all that is queued, every handler was called exactly as often as it was issued: none is lost
  -- and none is called twice. The service starts with empty queues and is not shut down.
  pub posted_count-drain :
      (h : ℕ) (s : System L) (actions : List Action)
      → s.work_io_service ≡ true
      → s.work ≡ []
      → s.posted ≡ []
      → posted_count h (drain L operation_aborted (run s actions)).posted ≡ issued h actions
  unfolding drain
  posted_count-drain h s actions live idle none_posted =
      let end = run s actions in
      ground
        (arith, run-count h s actions live, run_jobs-count h end.work (record end { work = [] }))

-- ===== src/Async.antt =====
-- The asynchronous functions of include/amy/impl/mysql_service.ipp: a work queue that one internal
-- thread serves, and the queue of completions of the user's io_service. A handler is a number. The
-- worker runs one queued handler at a time; its reads and writes of the connection are one step.
pub mod Blocking
pub mod Cancel
pub mod Completions
pub mod Ownership
pub mod Tokens
pub mod Jobs
pub mod Order
use amy.Prelude.{
  ℕ, suc, ◌≡◌, Bool, true, false, not, ◌&&◌, ◌||◌, Option, none, some, List, [], ◌∷◌, ◌++◌, ◌==◌,
  if◌then◌else◌,
}
use amy.Errors.{ErrorCode, success, is_error, misc_error, not_initialized}
use amy.Client.{ClientLib, Bytes}
use amy.Auth.{AuthInfo, Endpoint, copy}
use amy.Results.{ResultSet, empty_set}
use amy.Service
use amy.Service.{Conn, connect_open, run_query, advance, retrieve, open_conn, is_open}

-- What `connect_handler`, `query_handler` and `store_result_handler` carry.
pub data Task : Type 0 where
  connects : Endpoint → AuthInfo → Bytes → ℕ → Task
  queries : Bytes → Task
  stores : Task

-- A queued handler: `handler_base` with its weak pointer to the cancelation token.
pub record Job : Type 0 where
  pub handler : ℕ
  pub cancelation_token : ℕ
  pub task : Task

-- A call of the user's handler; the handlers of `async_store_result` also take a result set.
pub record Completion : Type 0 where
  pub handler : ℕ
  pub ec : ErrorCode
  pub result : Option ResultSet

-- `work_io_service` says whether that pointer is set, and `work` is its queue; `posted` is the queue
-- of the user's io_service.
pub record System (L : ClientLib) : Type 0 where
  pub conn : Conn L
  pub work_io_service : Bool
  pub work_thread : Bool
  pub work : List Job
  pub posted : List Completion

abbrev pub no_result : Task → Option ResultSet
no_result stores = some empty_set
no_result _ = none

-- `asio::error::operation_aborted` is a constant of Asio.
module _ (L : ClientLib) (operation_aborted : ErrorCode) where
  abbrev pub post : Completion → System L → System L
  post k s = record s { posted = s.posted ++ (k ∷ []) }

  -- `start_work_thread` and `work_io_service_->post`.
  abbrev pub enqueue : Job → System L → System L
  enqueue j s = record s { work_thread = true; work = s.work ++ (j ∷ []) }

  -- `mysql_service::async_connect`. The handler copies the authentication.
  unfoldable pub async_connect : Endpoint → AuthInfo → Bytes → ℕ → ℕ → System L → System L
  async_connect endpoint auth database flags handler s =
      let (ec, c) = open_conn L s.conn in
      let job : Conn L → Job = λ c. record {
        handler = handler;
        cancelation_token = c.cancelation_token;
        task = connects endpoint (copy auth) database flags;
      } in
      let start : Conn L → System L = λ c.
        if s.work_io_service
        then enqueue (job c) (record s { conn = c })
        else record s { conn = c } in
      if is_open L s.conn
      then start s.conn
      else if is_error ec
      then post (record { handler = handler; ec = ec; result = none }) (record s { conn = c })
      else start c

  -- `mysql_service::async_query`.
  unfoldable pub async_query : Bytes → ℕ → System L → System L
  async_query stmt handler s =
      if not (is_open L s.conn)
      then post (record { handler = handler; ec = misc_error not_initialized; result = none }) s
      else if s.work_io_service
      then enqueue
          (record {
            handler = handler;
            cancelation_token = s.conn.cancelation_token;
            task = queries stmt;
          })
          s
      else s

  -- `mysql_service::async_store_result`.
  unfoldable pub async_store_result : ℕ → System L → System L
  async_store_result handler s =
      if not (is_open L s.conn)
      then post
          (record { handler = handler; ec = misc_error not_initialized; result = some empty_set }) s
      else if s.work_io_service
      then enqueue
          (record {
            handler = handler;
            cancelation_token = s.conn.cancelation_token;
            task = stores;
          })
          s
      else s

  -- `store_result_handler::operator()` after its test of the token.
  unfoldable pub run_store_result : Conn L → ResultSet × ErrorCode × Conn L
  run_store_result c =
      let (ec, c') = advance L success c in
      if is_error ec then (empty_set, ec, c') else retrieve L c'

  -- The three `operator()` after that test: what is posted, and the connection.
  unfoldable pub perform : Task → Conn L → ErrorCode × Option ResultSet × Conn L
  unfolding run_store_result
  perform (connects endpoint auth database flags) c =
      let (ec, c') = connect_open L endpoint auth database flags c in (ec, none, c')
  perform (queries stmt) c = let (ec, c') = run_query L stmt c in (ec, none, c')
  perform stores c = let (rs, ec, c') = run_store_result c in (ec, some rs, c')

  -- `operator()`: a handler whose token has expired posts `operation_aborted`.
  unfoldable pub run_job : Job → Conn L → Completion × Conn L
  unfolding perform
  run_job j c =
      let (ec, rs, c') = perform j.task c in
      if j.cancelation_token == c.cancelation_token
      then (record { handler = j.handler; ec = ec; result = rs }, c')
      else (record { handler = j.handler; ec = operation_aborted; result = no_result j.task }, c)

  -- The work thread runs the handlers in `jobs`, in order.
  unfoldable pub run_jobs : List Job → System L → System L
  run_jobs [] s = s
  run_jobs (j ∷ js) s =
      let (k, c) = run_job j s.conn in run_jobs js (post k (record s { conn = c }))

  -- The work thread runs all that is queued.
  unfoldable pub drain : System L → System L
  unfolding run_jobs
  drain s = run_jobs s.work (record s { work = [] })

  -- The work thread runs the first handler.
  unfoldable pub work_step : System L → System L
  unfolding run_job
  work_step s = elim s.work [
    | [] ↦ s
    | j ∷ js ↦ let (k, c) = run_job j s.conn in post k (record s { conn = c; work = js })
  ]

  -- `mysql_service::cancel`.
  unfoldable pub cancel : System L → System L
  unfolding Service.cancel
  cancel s = record s { conn = Service.cancel L s.conn }

  -- `mysql_service::close`.
  unfoldable pub close : System L → System L
  close s = record s { conn = Service.close L s.conn }

  -- `mysql_service::shutdown_service`: the queue goes with the io_service.
  unfoldable pub shutdown_service : System L → System L
  shutdown_service s = record s { work_io_service = false; work_thread = false; work = [] }

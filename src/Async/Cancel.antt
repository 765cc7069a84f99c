-- ===== src/Async/Cancel.antt =====
-- What `cancel` does to the handlers that are queued, and which tokens those carry.
use amy.Prelude.{ℕ, suc, ◌≡◌, ◌≤◌, ◌<◌, refl, ap, ◌∙◌, List, [], ◌∷◌, ◌++◌, map, arith}
use mathlib.Core.List.{append-nil, append_assoc}
use amy.Errors.{ErrorCode, success}
use amy.Client.{ClientLib}
use amy.Service
use amy.Service.{Conn}
use amy.Async.{
  System, Job, Task, connects, queries, stores, Completion, no_result, run_job, run_jobs, drain,
  work_step, run_store_result, cancel, perform,
}

-- Every queued handler carries a token up to n.
abbrev pub TokensUpTo : ℕ → List Job → Type 0
TokensUpTo n [] = Unit {0}
TokensUpTo n (j ∷ js) = (j.cancelation_token ≤ n) × TokensUpTo n js

-- The completion of a handler that was canceled.
abbrev pub aborted : ErrorCode → Job → Completion
aborted ec j = record { handler = j.handler; ec = ec; result = no_result j.task }

module _ (L : ClientLib) (operation_aborted : ErrorCode) where
  run_job-aborted :
      (j : Job) (c : Conn L)
      → j.cancelation_token < c.cancelation_token
      → run_job L operation_aborted j c ≡ (aborted operation_aborted j, c)
  unfolding run_job
  run_job-aborted j c old = ground arith

  run_jobs-aborted :
      (n : ℕ) (js : List Job) (s : System L)
      → TokensUpTo n js
      → s.conn.cancelation_token ≡ suc n
      → run_jobs L operation_aborted js s
        ≡ record s { posted = s.posted ++ map (aborted operation_aborted) js }
  unfolding run_jobs
  run_jobs-aborted n [] s old new = rw append-nil
  run_jobs-aborted n (j ∷ js) s (o, old) new =
      let k : Completion = aborted operation_aborted j in
      let ih = run_jobs-aborted n js (record s { posted = s.posted ++ (k ∷ []) }) old new in
      rw (run_job-aborted j s.conn (omega arith)) (
        ih
        ∙ ap (λ ks. record s { posted = ks })
            (append_assoc s.posted (k ∷ []) (map (aborted operation_aborted) js)))

  -- After `cancel` the work thread completes every handler that was queued before with
  -- `operation_aborted` and, for `async_store_result`, an empty set, in order, and the connection
  -- stays as it was but for the token.
  pub drain-cancel :
      (s : System L)
      → TokensUpTo s.conn.cancelation_token s.work
      → drain L operation_aborted (cancel L operation_aborted s) ≡ record s {
        conn = Service.cancel L s.conn;
        work = [];
        posted = s.posted ++ map (aborted operation_aborted) s.work;
      }
  unfolding drain cancel
  drain-cancel s old =
      run_jobs-aborted s.conn.cancelation_token s.work
        (record s { conn = Service.cancel L s.conn; work = [] }) old refl

  retrieve-token : (c : Conn L) → (Service.retrieve L c).2.cancelation_token ≡ c.cancelation_token
  unfolding Service.retrieve Service.reset_result Service.assign_last
  retrieve-token c = ground arith

  advance-token :
      (ec : ErrorCode) (c : Conn L)
      → (Service.advance L ec c).1.cancelation_token ≡ c.cancelation_token
  unfolding Service.advance Service.free_result
  advance-token ec c = ground arith

  run_store_result-token :
      (c : Conn L)
      → (run_store_result L operation_aborted c).2.cancelation_token ≡ c.cancelation_token
  unfolding run_store_result
  run_store_result-token c =
      ground (arith, advance-token success c, retrieve-token (Service.advance L success c).1)

  pub perform-token :
      (t : Task) (c : Conn L)
      → (perform L operation_aborted t c).2.cancelation_token ≡ c.cancelation_token
  unfolding perform Service.connect_open Service.run_query Service.free_result
  perform-token (connects endpoint auth database flags) c = refl
  perform-token (queries stmt) c = ground arith
  perform-token stores c = ground (arith, run_store_result-token c)

  pub work_step-tokens :
      (js : List Job) (s : System L)
      → s.work ≡ js
      → TokensUpTo s.conn.cancelation_token s.work
      → TokensUpTo
          (work_step L operation_aborted s).conn.cancelation_token
          (work_step L operation_aborted s).work
  unfolding work_step run_job
  work_step-tokens [] s e old = ground arith
  work_step-tokens (j ∷ js) s e old = ground (arith, perform-token j.task s.conn)

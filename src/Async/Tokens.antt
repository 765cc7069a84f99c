-- ===== src/Async/Tokens.antt =====
-- The tokens of queued handlers throughout any interleaving, and cancelation after any.
use amy.Prelude.{ℕ, suc, ◌≡◌, ◌≤◌, refl, List, [], ◌∷◌, ◌++◌, map, arith}
use amy.Errors.{ErrorCode}
use amy.Client.{ClientLib, Bytes}
use amy.Auth.{AuthInfo, Endpoint}
use amy.Service
use amy.Service.{Conn}
use amy.Async.{System, Job, async_connect, async_query, async_store_result, drain, cancel, close}
use amy.Async.Cancel.{TokensUpTo, aborted, drain-cancel, work_step-tokens}
use amy.Async.Completions.{
  Action, connects_async, queries_async, stores_async, cancels, closes, works, step, run,
}

TokensUpTo-append :
    (n : ℕ) (js : List Job) (j : Job)
    → TokensUpTo n js
    → j.cancelation_token ≤ n
    → TokensUpTo n (js ++ (j ∷ []))
TokensUpTo-append n [] j h k = (k, tt)
TokensUpTo-append n (x ∷ js) j (h, r) k = (h, TokensUpTo-append n js j r k)

TokensUpTo-mono : (m n : ℕ) (js : List Job) → m ≤ n → TokensUpTo m js → TokensUpTo n js
TokensUpTo-mono m n [] h t = tt
TokensUpTo-mono m n (j ∷ js) h (o, t) = (omega arith, TokensUpTo-mono m n js h t)

module _ (L : ClientLib) (operation_aborted : ErrorCode) where
  abbrev Tokens : System L → Type 0
  Tokens s = TokensUpTo s.conn.cancelation_token s.work

  close-token : (c : Conn L) → c.cancelation_token ≤ (Service.close L c).cancelation_token
  unfolding Service.close Service.free_result
  close-token c = ground arith

  open_conn-token : (c : Conn L) → (Service.open_conn L c).1.cancelation_token ≡ c.cancelation_token
  unfolding Service.open_conn
  open_conn-token c = ground arith

  async_connect-Tokens :
      (endpoint : Endpoint) (auth : AuthInfo) (database : Bytes) (flags handler : ℕ) (s : System L)
      → Tokens s
      → Tokens (async_connect L operation_aborted endpoint auth database flags handler s)
  unfolding async_connect
  async_connect-Tokens endpoint auth database flags handler s t =
      grind (arith, open_conn-token s.conn, TokensUpTo-append)

  step-Tokens : (s : System L) (a : Action) → Tokens s → Tokens (step L operation_aborted s a)
  unfolding step async_query async_store_result cancel close
  step-Tokens s (connects_async endpoint auth database flags handler) t =
      async_connect-Tokens endpoint auth database flags handler s t
  step-Tokens s (queries_async stmt handler) t = grind (arith, TokensUpTo-append)
  step-Tokens s (stores_async handler) t = grind (arith, TokensUpTo-append)
  step-Tokens s cancels t =
      TokensUpTo-mono s.conn.cancelation_token (suc s.conn.cancelation_token) s.work (omega arith) t
  step-Tokens s closes t =
      TokensUpTo-mono s.conn.cancelation_token (Service.close L s.conn).cancelation_token s.work
        (close-token s.conn) t
  step-Tokens s works t = work_step-tokens L operation_aborted s.work s refl t

  run-Tokens :
      (s : System L) (actions : List Action) → Tokens s → Tokens (run L operation_aborted s actions)
  unfolding run
  run-Tokens s [] t = t
  run-Tokens s (a ∷ rest) t = run-Tokens (step L operation_aborted s a) rest (step-Tokens s a t)

  -- After any interleaving, `cancel` aborts all that is queued: the work thread then completes every
  -- queued handler with `operation_aborted` and, for `async_store_result`, an empty set, in order, and
  -- the connection stays as it was but for the token.
  pub drain-cancel-run :
      (s : System L) (actions : List Action)
      → s.work ≡ []
      → let now = run L operation_aborted s actions in
        drain L operation_aborted (cancel L operation_aborted now) ≡ record now {
          conn = Service.cancel L now.conn;
          work = [];
          posted = now.posted ++ map (aborted operation_aborted) now.work;
        }
  drain-cancel-run s actions idle =
      drain-cancel L operation_aborted (run L operation_aborted s actions)
        (run-Tokens s actions (rw idle tt))

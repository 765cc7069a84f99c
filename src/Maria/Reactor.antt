-- ===== src/Maria/Reactor.antt =====
-- One connection of include/amy/impl/mariadb_service.ipp with all its composed operations: the user's
-- calls and the events of the io_service in any order. A handler of the user is a number. The code of
-- an event is free: `async_wait_mysql` cancels the waits of the other operations, whose events then
-- carry an error.
pub mod Ownership
pub mod Asks
pub mod Dropped
pub mod Completions
pub mod Waiting
pub mod Sequence
use amy.Prelude.{
  ℕ, zero, suc, Bool, true, false, Option, none, some, List, [], ◌∷◌, ◌++◌, if◌then◌else◌,
}
use amy.Errors.{ErrorCode}
use amy.Client.{ClientLib, Bytes}
use amy.Auth.{AuthInfo, Endpoint}
use amy.Results.{ResultSet}
use amy.Service
use amy.Maria.{
  NonBlocking, MariaConn, Wait, read, write, timeout, nothing, Next, invokes, waits, event_status,
  close,
}
use amy.Maria.Blocking.{cancel}
use amy.Maria.Connect.{ConnectOp, connect_resume, async_connect}
use amy.Maria.Query.{QueryOp, query_resume, async_query}
use amy.Maria.Store.{StoreOp, store_resume, async_store_result}
use amy.Maria.QueryResult.{ResultOp, result_resume, async_query_result}

-- A composed operation that waits.
pub data Operation (L : ClientLib) : Type 0 where
  connecting : ConnectOp → Operation L
  querying : QueryOp → Operation L
  storing : StoreOp L → Operation L
  reading : ResultOp L → Operation L

pub record Pending (L : ClientLib) : Type 0 where
  pub handler : ℕ
  pub wait : Wait
  pub operation : Operation L

-- A call of the user's handler.
pub record Called : Type 0 where
  pub handler : ℕ
  pub ec : ErrorCode
  pub result : Option ResultSet

pub record Reactor (L : ClientLib) : Type 0 where
  pub conn : MariaConn L
  pub pending : List (Pending L)
  pub called : List Called

-- What may happen next: a call of the user, or the end of the wait of the operation at that place, with
-- its error code.
pub data Happening : Type 0 where
  connects : Endpoint → AuthInfo → Bytes → ℕ → ℕ → Happening
  queries : Bytes → ℕ → Happening
  stores : ℕ → Happening
  queries_result : Bytes → ℕ → Happening
  cancels : Happening
  closes : Happening
  happens : ℕ → ErrorCode → Happening

abbrev pub beside : {A : Type 0} → A → Option (A × List A) → Option (A × List A)
beside x none = none
beside x (some (y, rest)) = some (y, x ∷ rest)

-- The operation at a place, and the others.
abbrev pub taken : {A : Type 0} → List A → ℕ → Option (A × List A)
taken [] i = none
taken (x ∷ xs) zero = some (x, xs)
taken (x ∷ xs) (suc i) = beside x (taken xs i)

module _ (L : ClientLib) (N : NonBlocking L) (operation_aborted : ErrorCode) (nonblock : ℕ) where
  -- The rest of a call of `operator()`: the user's handler is called, or the operation waits. Where
  -- `async_wait_mysql` waits for nothing, nobody keeps the operation, which goes with its handler.
  unfoldable pub settle : {S : Type 0} → (S → Operation L) → ℕ → Next L S → Reactor L → Reactor L
  settle operation handler (invokes ec rs c) s = record s {
    conn = c;
    called = s.called ++ (record { handler = handler; ec = ec; result = rs } ∷ []);
  }
  settle operation handler (waits nothing op c) s = record s { conn = c }
  settle operation handler (waits w op c) s = record s {
    conn = c;
    pending = s.pending ++ (record { handler = handler; wait = w; operation = operation op } ∷ []);
  }

  -- `operator()` when the wait has ended with `ec`.
  unfoldable pub resume : Pending L → ErrorCode → Reactor L → Reactor L
  unfolding settle
  resume p ec s =
      let status = event_status L N p.wait in
      elim p.operation [
        | connecting op ↦
            settle connecting p.handler
              (connect_resume L N operation_aborted nonblock op ec status s.conn) s
        | querying op ↦
            settle querying p.handler (query_resume L N operation_aborted op ec status s.conn) s
        | storing op ↦
            settle storing p.handler (store_resume L N operation_aborted op ec status s.conn) s
        | reading op ↦
            settle reading p.handler (result_resume L N operation_aborted op ec status s.conn) s
      ]

  unfoldable pub happened :
      Option (Pending L × List (Pending L)) → ErrorCode → Reactor L → Reactor L
  unfolding resume
  happened none ec s = s
  happened (some (p, rest)) ec s = resume p ec (record s { pending = rest })

  unfoldable pub step : Reactor L → Happening → Reactor L
  unfolding settle happened
  step s (connects endpoint auth database flags handler) =
      settle connecting handler
        (async_connect L N operation_aborted nonblock endpoint auth database flags s.conn) s
  step s (queries stmt handler) =
      settle querying handler (async_query L N operation_aborted stmt s.conn) s
  step s (stores handler) =
      settle storing handler (async_store_result L N operation_aborted s.conn) s
  step s (queries_result stmt handler) =
      settle reading handler (async_query_result L N operation_aborted stmt s.conn) s
  step s cancels = record s { conn = cancel L N s.conn }
  step s closes = record s { conn = close L N s.conn }
  step s (happens i ec) = happened (taken s.pending i) ec s

  unfoldable pub run : Reactor L → List Happening → Reactor L
  unfolding step
  run s [] = s
  run s (h ∷ hs) = run (step s h) hs

-- A connection on which nothing was called.
abbrev pub new_reactor : (L : ClientLib) → MariaConn L → Reactor L
new_reactor L c = record { conn = c; pending = []; called = [] }

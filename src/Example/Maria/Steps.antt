-- ===== src/Example/Maria/Steps.antt =====
-- The steps of `io_service.run()` of the programs over mariadb_service, on one composed operation.
use amy.Prelude.{
  ℕ, zero, suc, ◌+◌, ◌≤◌, ◌≡◌, ◌≢◌, refl, subst, Bool, true, ◌||◌, Option, some, List, arith,
}
use amy.Errors.{ErrorCode, success}
use amy.Client.{ClientLib}
use amy.Results.{ResultSet}
use amy.Service.{Conn}
use amy.Maria.{
  NonBlocking, MariaConn, Next, invokes, waits, Wait, read, write, timeout, nothing, drive,
  event_status,
}
use amy.Maria.Chain.{Ends, suspends, drive_invokes}
use amy.Maria.Reactor.{Operation, connecting, querying, storing}
use amy.Maria.Connect.{ConnectOp, connect_resume}
use amy.Maria.Query.{QueryOp, query_resume}
use amy.Maria.Store.{StoreOp, store_resume}
use amy.Example.{Line, Ran, prepend, finished}
use amy.Example.Maria.{Handlers, Then, throws, over, starts, leaves, lift, resume, io_run}

module _ (L : ClientLib) (N : NonBlocking L) (operation_aborted : ErrorCode) (nonblock : ℕ)
    (handlers : Handlers L) where
  abbrev pub run : ℕ → Bool → ℕ → Next L (Operation L) → Ran L
  run = io_run L N operation_aborted nonblock handlers

  -- The rest of a run, from what a handler has done on the connection `c`.
  abbrev pub after : ℕ → Bool → Conn L → List Line × Then L → Ran L
  after fuel inside c (ls, throws e) = some (ls, leaves inside e, c)
  after fuel inside c (ls, over) = some (ls, finished, c)
  after fuel inside c (ls, starts s) = prepend L ls (run fuel (inside || s.posted) s.handler s.call)

  pub run-invokes :
      (fuel : ℕ) (inside : Bool) (h : ℕ) (ec : ErrorCode) (rs : Option ResultSet) (c : MariaConn L)
      → run (suc fuel) inside h (invokes ec rs c) ≡ after fuel inside c.conn (handlers h ec rs c)
  unfolding io_run
  run-invokes fuel inside h ec rs c = ground arith

  module _ {S : Type 0} (operation : S → Operation L)
      (resumes : S → ErrorCode → ℕ → MariaConn L → Next L S)
      (same : (s : S) (ec : ErrorCode) (status : ℕ) (c : MariaConn L)
        → resume L N operation_aborted nonblock (operation s) ec status c
          ≡ lift operation (resumes s ec status c)) where
    run-waits :
        (fuel : ℕ) (inside : Bool) (h : ℕ) (w : Wait) (s : S) (c : MariaConn L)
        → w ≢ nothing
        → run (suc fuel) inside h (waits w (operation s) c)
          ≡ run fuel true h (lift operation (resumes s success (event_status L N w) c))
    unfolding io_run
    run-waits fuel inside h read s c _ = rw (← same s success N.wait_read c) refl
    run-waits fuel inside h write s c _ = rw (← same s success N.wait_write c) refl
    run-waits fuel inside h timeout s c _ = rw (← same s success N.wait_timeout c) refl
    run-waits fuel inside h nothing s c some_event = absurd (some_event refl)

    -- What holds of the run from where the operation calls its handler, with the fuel that is left,
    -- holds of it from the operation on.
    pub run-drive :
        (P : Ran L → Type 0) (h more : ℕ) (ec : ErrorCode) (rs : Option ResultSet) (c' : Conn L)
        (n fuel : ℕ) (next : Next L S)
        → Ends L N ec rs c' (drive L N resumes n next)
        → n + more ≤ fuel
        → ((left : ℕ) (c : MariaConn L)
            → more ≤ left
            → c.conn ≡ c'
            → P (run left true h (invokes ec rs c)))
        → P (run fuel true h (lift operation next))
    unfolding drive
    run-drive P h more ec rs c' n fuel (invokes ec₁ rs₁ c) ended bound k =
        let (same_ec, same_rs, same_conn) =
          subst (Ends L N ec rs c') (drive_invokes L N resumes n ec₁ rs₁ c) ended in
        rw (same_ec, same_rs) (k fuel c (omega arith) same_conn)
    run-drive P h more ec rs c' zero fuel (waits w s c) ended bound k = elim ended [ ]
    run-drive P h more ec rs c' (suc n) zero (waits w s c) ended bound k = absurd (omega arith)
    run-drive P h more ec rs c' (suc n) (suc fuel) (waits nothing s c) ended bound k =
        elim ended [ ]
    run-drive P h more ec rs c' (suc n) (suc fuel) (waits read s c) ended bound k =
        rw (run-waits fuel true h read s c (λ e. cc)) (
          run-drive P h more ec rs c' n fuel (resumes s success N.wait_read c) ended (omega arith)
            k)
    run-drive P h more ec rs c' (suc n) (suc fuel) (waits write s c) ended bound k =
        rw (run-waits fuel true h write s c (λ e. cc)) (
          run-drive P h more ec rs c' n fuel (resumes s success N.wait_write c) ended (omega arith)
            k)
    run-drive P h more ec rs c' (suc n) (suc fuel) (waits timeout s c) ended bound k =
        rw (run-waits fuel true h timeout s c (λ e. cc)) (
          run-drive P h more ec rs c' n fuel (resumes s success N.wait_timeout c) ended
            (omega arith) k)

  -- A wait is over within `io_service.run()`.
  pub run-suspended :
      {S : Type 0} (operation : S → Operation L) (fuel : ℕ) (inside : Bool) (h : ℕ)
      (next : Next L S)
      → suspends next ≡ true
      → run fuel inside h (lift operation next) ≡ run fuel true h (lift operation next)
  unfolding io_run
  run-suspended operation fuel inside h (invokes ec rs c) e = cc
  run-suspended operation zero inside h (waits w s c) e = refl
  run-suspended operation (suc fuel) inside h (waits read s c) e = refl
  run-suspended operation (suc fuel) inside h (waits write s c) e = refl
  run-suspended operation (suc fuel) inside h (waits timeout s c) e = refl
  run-suspended operation (suc fuel) inside h (waits nothing s c) e = refl

  pub resume-connecting :
      (op : ConnectOp) (ec : ErrorCode) (status : ℕ) (c : MariaConn L)
      → resume L N operation_aborted nonblock (connecting op) ec status c
        ≡ lift connecting (connect_resume L N operation_aborted nonblock op ec status c)
  unfolding resume
  resume-connecting op ec status c = refl

  pub resume-querying :
      (op : QueryOp) (ec : ErrorCode) (status : ℕ) (c : MariaConn L)
      → resume L N operation_aborted nonblock (querying op) ec status c
        ≡ lift querying (query_resume L N operation_aborted op ec status c)
  unfolding resume
  resume-querying op ec status c = refl

  pub resume-storing :
      (op : StoreOp L) (ec : ErrorCode) (status : ℕ) (c : MariaConn L)
      → resume L N operation_aborted nonblock (storing op) ec status c
        ≡ lift storing (store_resume L N operation_aborted op ec status c)
  unfolding resume
  resume-storing op ec status c = refl

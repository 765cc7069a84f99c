-- ===== src/Maria/Reactor/Waiting.antt =====
-- One composed operation of include/amy/impl/mariadb_service.ipp on a connection where nothing else
-- waits, up to the call of its handler.
use amy.Prelude.{ℕ, zero, suc, ◌≤◌, ◌≡◌, ◌≢◌, refl, subst, ap, Option, List, [], ◌∷◌, ◌++◌, arith}
use amy.Errors.{ErrorCode, success}
use amy.Client.{ClientLib}
use amy.Results.{ResultSet}
use amy.Service.{Conn}
use amy.Maria.{
  NonBlocking, MariaConn, Wait, read, write, timeout, nothing, Next, invokes, waits, drive,
  event_status,
}
use amy.Maria.Chain.{Ends, drive_invokes}
use amy.Maria.Reactor.{
  Operation, Called, Reactor, happens, settle, resume, happened, step, connecting, querying,
  storing, reading,
}
use amy.Maria.Connect.{ConnectOp, connect_resume}
use amy.Maria.Query.{QueryOp, query_resume}
use amy.Maria.Store.{StoreOp, store_resume}
use amy.Maria.QueryResult.{ResultOp, result_resume}

module _ (L : ClientLib) (N : NonBlocking L) (operation_aborted : ErrorCode) (nonblock : ℕ) where
  -- The events of the first operation that waits, one after the other and without an error, while
  -- there is one, with fuel.
  unfoldable pub wait_all : ℕ → Reactor L → Reactor L
  wait_all zero s = s
  wait_all (suc fuel) s = elim s.pending [
    | [] ↦ s
    | _ ∷ _ ↦ wait_all fuel (step L N operation_aborted nonblock s (happens 0 success))
  ]

  -- No operation waits, this handler has been called after the others, and the connection is `c`.
  abbrev pub Done : List Called → Called → Conn L → Reactor L → Type 0
  Done before k c s = (s.pending ≡ []) × (s.called ≡ before ++ (k ∷ [])) × (s.conn.conn ≡ c)

  abbrev pub quiet : MariaConn L → List Called → Reactor L
  quiet c before = record { conn = c; pending = []; called = before }

  abbrev pub waiting_for : ℕ → Wait → Operation L → MariaConn L → List Called → Reactor L
  waiting_for handler w op c before = record {
    conn = c;
    pending = record { handler = handler; wait = w; operation = op } ∷ [];
    called = before;
  }

  pub wait_all-quiet :
      (fuel : ℕ) (c : MariaConn L) (before : List Called)
      → wait_all fuel (quiet c before) ≡ quiet c before
  unfolding wait_all
  wait_all-quiet zero c before = refl
  wait_all-quiet (suc fuel) c before = refl

  module _ {S : Type 0} (operation : S → Operation L)
      (resumes : S → ErrorCode → ℕ → MariaConn L → Next L S)
      (same : (handler : ℕ) (w : Wait) (op : S) (ec : ErrorCode) (s : Reactor L)
        → resume L N operation_aborted nonblock
            (record { handler = handler; wait = w; operation = operation op })
            ec
            s
          ≡ settle L N operation_aborted nonblock operation handler
              (resumes op ec (event_status L N w) s.conn)
              s) where
    wait_all-event :
        (fuel handler : ℕ) (w : Wait) (op : S) (c : MariaConn L) (before : List Called)
        → w ≢ nothing
        → wait_all (suc fuel) (waiting_for handler w (operation op) c before)
          ≡ wait_all fuel (
              settle L N operation_aborted nonblock operation handler
                (resumes op success (event_status L N w) c)
                (quiet c before))
    unfolding wait_all step happened
    wait_all-event fuel handler nothing op c before h = absurd (h refl)
    wait_all-event fuel handler read op c before h =
        ap (wait_all fuel) (same handler read op success (quiet c before))
    wait_all-event fuel handler write op c before h =
        ap (wait_all fuel) (same handler write op success (quiet c before))
    wait_all-event fuel handler timeout op c before h =
        ap (wait_all fuel) (same handler timeout op success (quiet c before))

    -- An operation that ends when it is driven calls its handler, once.
    pub wait_all-Done :
        (handler : ℕ) (before : List Called) (ec : ErrorCode) (rs : Option ResultSet) (c' : Conn L)
        (n fuel : ℕ) (next : Next L S) (c : MariaConn L)
        → Ends L N ec rs c' (drive L N resumes n next)
        → n ≤ fuel
        → Done before
            (record { handler = handler; ec = ec; result = rs })
            c'
            (wait_all fuel
              (settle L N operation_aborted nonblock operation handler next (quiet c before)))
    unfolding drive settle
    wait_all-Done handler before ec rs c' n fuel (invokes ec₁ rs₁ c₁) c ended bound =
        let (same_ec, same_rs, same_conn) =
          subst (Ends L N ec rs c') (drive_invokes L N resumes n ec₁ rs₁ c₁) ended in
        let calls = before ++ (record { handler = handler; ec = ec; result = rs } ∷ []) in
        rw (same_ec, same_rs, wait_all-quiet fuel c₁ calls) (refl, refl, same_conn)
    wait_all-Done handler before ec rs c' zero fuel (waits w op c₁) c ended bound = elim ended [ ]
    wait_all-Done handler before ec rs c' (suc n) zero (waits w op c₁) c ended bound =
        absurd (omega arith)
    wait_all-Done handler before ec rs c' (suc n) (suc fuel) (waits nothing op c₁) c ended bound =
        elim ended [ ]
    wait_all-Done handler before ec rs c' (suc n) (suc fuel) (waits read op c₁) c ended bound =
        rw (wait_all-event fuel handler read op c₁ before (λ e. cc)) (
          wait_all-Done handler before ec rs c' n fuel (resumes op success N.wait_read c₁) c₁ ended
            (omega arith))
    wait_all-Done handler before ec rs c' (suc n) (suc fuel) (waits write op c₁) c ended bound =
        rw (wait_all-event fuel handler write op c₁ before (λ e. cc)) (
          wait_all-Done handler before ec rs c' n fuel (resumes op success N.wait_write c₁) c₁ ended
            (omega arith))
    wait_all-Done handler before ec rs c' (suc n) (suc fuel) (waits timeout op c₁) c ended bound =
        rw (wait_all-event fuel handler timeout op c₁ before (λ e. cc)) (
          wait_all-Done handler before ec rs c' n fuel (resumes op success N.wait_timeout c₁) c₁
            ended (omega arith))

  pub resume-connecting :
      (handler : ℕ) (w : Wait) (op : ConnectOp) (ec : ErrorCode) (s : Reactor L)
      → resume L N operation_aborted nonblock
          (record { handler = handler; wait = w; operation = connecting op })
          ec
          s
        ≡ settle L N operation_aborted nonblock connecting handler
            (connect_resume L N operation_aborted nonblock op ec (event_status L N w) s.conn)
            s
  unfolding resume
  resume-connecting handler w op ec s = refl

  pub resume-querying :
      (handler : ℕ) (w : Wait) (op : QueryOp) (ec : ErrorCode) (s : Reactor L)
      → resume L N operation_aborted nonblock
          (record { handler = handler; wait = w; operation = querying op })
          ec
          s
        ≡ settle L N operation_aborted nonblock querying handler
            (query_resume L N operation_aborted op ec (event_status L N w) s.conn)
            s
  unfolding resume
  resume-querying handler w op ec s = refl

  pub resume-storing :
      (handler : ℕ) (w : Wait) (op : StoreOp L) (ec : ErrorCode) (s : Reactor L)
      → resume L N operation_aborted nonblock
          (record { handler = handler; wait = w; operation = storing op })
          ec
          s
        ≡ settle L N operation_aborted nonblock storing handler
            (store_resume L N operation_aborted op ec (event_status L N w) s.conn)
            s
  unfolding resume
  resume-storing handler w op ec s = refl

  pub resume-reading :
      (handler : ℕ) (w : Wait) (op : ResultOp L) (ec : ErrorCode) (s : Reactor L)
      → resume L N operation_aborted nonblock
          (record { handler = handler; wait = w; operation = reading op })
          ec
          s
        ≡ settle L N operation_aborted nonblock reading handler
            (result_resume L N operation_aborted op ec (event_status L N w) s.conn)
            s
  unfolding resume
  resume-reading handler w op ec s = refl

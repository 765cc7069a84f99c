-- ===== src/Maria/Chain.antt =====
-- How a suspended call of the client library goes on, and what amy makes of its error codes meanwhile.
use amy.Prelude.{
  ℕ, zero, suc, ◌≡◌, ◌≢◌, ◌<◌, ◌+◌, refl, Bool, true, false, Option, none, some, arith, ◌==◌,
}
use amy.Errors.{ErrorCode, success, is_error, is_error-client_error}
use amy.Client.{ClientLib}
use amy.Results.{ResultSet}
use amy.Service
use amy.Service.{Conn}
use amy.Maria.{
  MariaConn, Next, invokes, waits, after_call, drive, async_wait_mysql, NonBlocking, Wait, nothing,
  wrap, call_error, wait_for, event_status,
}

-- Whether an initiating function returns before its operation is done.
abbrev pub suspends : {L : ClientLib} {S : Type 0} → Next L S → Bool
suspends (invokes ec rs c) = false
suspends (waits w s c) = true

module _ (L : ClientLib) (N : NonBlocking L) where
  -- A call whose first part returned `(status, r, m)` ends with the value `r'` and the connection m'
  -- after at most n suspensions. While it is suspended it asks for an event, has not written to `ret`,
  -- which still holds a value that reads as a failure, and reports no error through `mysql_errno`.
  pub data Completes {R : Type 0} (failed : R → Bool) (cont : ℕ → R → L.Handle → ℕ × R × L.Handle)
      (r' : R) (m' : L.Handle) : ℕ → ℕ → R → L.Handle → Type 0 where
    done :
        {n status : ℕ} {r : R} {m : L.Handle}
        → status ≡ 0
        → r ≡ r'
        → m ≡ m'
        → Completes failed cont r' m' n status r m
    suspended :
        {n status : ℕ} {r : R} {m : L.Handle}
        → status ≢ 0
        → wait_for L N status ≢ nothing
        → failed r ≡ true
        → L.errno m ≡ 0
        → Completes failed cont r' m' n
            (cont (event_status L N (wait_for L N status)) r m).0
            (cont (event_status L N (wait_for L N status)) r m).1
            (cont (event_status L N (wait_for L N status)) r m).2
        → Completes failed cont r' m' (suc n) status r m

  -- A suspended call leaves no error in `ec`, though `status | except` is always set: `error_wrapper`
  -- replaces the code `unknown` by the connection's, which is 0.
  pub call_error_suspended :
      (status : ℕ) (failed : Bool) (m : L.Handle)
      → status ≢ 0
      → failed ≡ true
      → L.errno m ≡ 0
      → is_error (call_error L N status failed m) ≡ false
  unfolding call_error
  call_error_suspended status failed m waiting fails quiet =
      ground (arith, is_error-client_error (L.errno m))

  -- A call that is suspended at first leaves no error in `ec`.
  pub Completes-clean :
      {R : Type 0} {failed : R → Bool} {cont : ℕ → R → L.Handle → ℕ × R × L.Handle} {r' : R}
      {m' : L.Handle} {n status : ℕ} {r : R} {m : L.Handle}
      → Completes failed cont r' m' n status r m
      → status ≢ 0
      → is_error (call_error L N status (failed r) m) ≡ false
  Completes-clean (done z er em) waiting = absurd (waiting z)
  Completes-clean {failed} {status} {r} {m} (suspended _ _ fails quiet _) waiting =
      call_error_suspended status (failed r) m waiting fails quiet

  -- The operation has ended with this code, result set and connection.
  abbrev pub Ends :
      ErrorCode
      → Option ResultSet
      → Conn L
      → Option (ErrorCode × Option ResultSet × MariaConn L)
      → Type 0
  Ends ec rs c none = ⊥
  Ends ec rs c (some (ec', rs', c')) = (ec' ≡ ec) × (rs' ≡ rs) × (c'.conn ≡ c)

  abbrev pub set_mysql : L.Handle → MariaConn L → MariaConn L
  set_mysql m c = record c { conn = record (c.conn) { mysql = m } }

  pub free_result-token :
      (c : Conn L) → (Service.free_result L c).cancelation_token ≡ c.cancelation_token
  unfolding Service.free_result
  free_result-token c = ground arith

  pub drive_waits :
      {S : Type 0} (resume : S → ErrorCode → ℕ → MariaConn L → Next L S) (fuel : ℕ) (w : Wait)
      (s : S) (c : MariaConn L)
      → w ≢ nothing
      → drive L N resume (suc fuel) (waits w s c)
        ≡ drive L N resume fuel (resume s success (event_status L N w) c)
  unfolding drive
  drive_waits resume fuel nothing s c h = absurd (h refl)
  drive_waits resume fuel _ s c h = refl

  pub after_call_done :
      {S : Type 0} (s : S) (status : ℕ) (ec : ErrorCode) (c : MariaConn L)
      → status ≡ 0
      → after_call L N s status ec c ≡ invokes ec none c
  unfolding after_call
  after_call_done s status ec c z = rw z

  pub after_call_waits :
      {S : Type 0} (s : S) (status : ℕ) (ec : ErrorCode) (c : MariaConn L)
      → status ≢ 0
      → is_error ec ≡ false
      → after_call L N s status ec c
        ≡ waits (wait_for L N status) s (async_wait_mysql L N status c).1
  unfolding after_call async_wait_mysql
  after_call_waits s status ec c waiting clean =
      let moves : (status == 0) ≡ false = ground arith in rw (moves, clean)

  pub drive_invokes :
      {S : Type 0} (resume : S → ErrorCode → ℕ → MariaConn L → Next L S) (fuel : ℕ) (ec : ErrorCode)
      (rs : Option ResultSet) (c : MariaConn L)
      → drive L N resume fuel (invokes ec rs c) ≡ some (ec, rs, c)
  unfolding drive
  drive_invokes resume zero ec rs c = refl
  drive_invokes resume (suc fuel) ec rs c = refl

  pub call_error_done :
      (status : ℕ) (failed : Bool) (m : L.Handle)
      → status ≡ 0
      → call_error L N status failed m ≡ wrap L N failed m success
  unfolding call_error
  call_error_done status failed m z = rw z

  -- The state of an operation is `op r` while its call is suspended, and `operator()` then continues
  -- the call if the cancelation token is still t. The operation goes on with `ending` once the call is
  -- done: what holds of the event loop from there, with the fuel that is left, holds of it from here.
  module _ {S R : Type 0} (resume : S → ErrorCode → ℕ → MariaConn L → Next L S) (op : R → S)
      (failed : R → Bool) (cont : ℕ → R → L.Handle → ℕ × R × L.Handle) (t : ℕ)
      (after : ℕ → R → L.Handle → MariaConn L → Next L S)
      (ending : R → ErrorCode → MariaConn L → Next L S)
      (continues : (r : R) (status : ℕ) (c : MariaConn L)
        → c.conn.cancelation_token ≡ t
        → let (status', r', m') = cont status r c.conn.mysql in
          resume (op r) success status c ≡ after status' r' m' c)
      (finishes : (status : ℕ) (r : R) (m : L.Handle) (c : MariaConn L)
        → status ≡ 0
        → after status r m c ≡ ending r (wrap L N (failed r) m success) (set_mysql m c))
      (goes_on : (status : ℕ) (r : R) (m : L.Handle) (c : MariaConn L)
        → status ≢ 0
        → is_error (call_error L N status (failed r) m) ≡ false
        → after status r m c
          ≡ waits
              (wait_for L N status)
              (op r)
              (async_wait_mysql L N status (set_mysql m c)).1) where
    pub drive_through :
        {r' : R} {m' : L.Handle} {n status : ℕ} {r : R} {m : L.Handle}
        (P : Option (ErrorCode × Option ResultSet × MariaConn L) → Type 0) (more fuel : ℕ)
        (c : MariaConn L)
        → Completes failed cont r' m' n status r m
        → c.conn.cancelation_token ≡ t
        → n + more < fuel
        → ((left : ℕ) (c' : MariaConn L)
            → more < left
            → c'.conn ≡ record (c.conn) { mysql = m' }
            → P (drive L N resume left (ending r' (wrap L N (failed r') m' success) c')))
        → P (drive L N resume fuel (after status r m c))
    unfolding async_wait_mysql
    drive_through {status} {r} {m} P more fuel c (done z er em) fresh h k =
        rw (finishes status r m c z, er, em) (k fuel (set_mysql _ c) (omega arith) refl)
    drive_through P more zero c (suspended waiting some_event fails quiet rest) fresh h k =
        absurd (omega arith)
    drive_through {status} {r} {m} P more (suc fuel) c
          (suspended waiting some_event fails quiet rest) fresh h k =
        let clean = call_error_suspended status (failed r) m waiting fails quiet in
        let w = wait_for L N status in
        let c' = (async_wait_mysql L N status (set_mysql m c)).1 in
        rw
          (
            goes_on status r m c waiting clean,
            drive_waits resume fuel w (op r) c' some_event,
            continues r (event_status L N w) c' fresh,
          )
          (drive_through P more fuel c' rest fresh (omega arith) k)

  -- The same for an operation of one call, which then only calls the user's handler.
  module _ {S R : Type 0} (resume : S → ErrorCode → ℕ → MariaConn L → Next L S) (op : R → S)
      (failed : R → Bool) (cont : ℕ → R → L.Handle → ℕ × R × L.Handle) (t : ℕ)
      (continues : (r : R) (status : ℕ) (c : MariaConn L)
        → c.conn.cancelation_token ≡ t
        → let (status', r', m') = cont status r c.conn.mysql in
          resume (op r) success status c
          ≡ after_call L N
              (op r')
              status'
              (call_error L N status' (failed r') m')
              (set_mysql m' c)) where
    call_finishes :
        (status : ℕ) (r : R) (m : L.Handle) (c : MariaConn L)
        → status ≡ 0
        → after_call L N (op r) status (call_error L N status (failed r) m) (set_mysql m c)
          ≡ invokes (wrap L N (failed r) m success) none (set_mysql m c)
    call_finishes status r m c z =
        rw (← call_error_done status (failed r) m z)
          (after_call_done (op r) status (call_error L N status (failed r) m) (set_mysql m c) z)

    pub drive_call :
        {r' : R} {m' : L.Handle} {n status : ℕ} {r : R} {m : L.Handle} (fuel : ℕ) (c : MariaConn L)
        → Completes failed cont r' m' n status r m
        → c.conn.cancelation_token ≡ t
        → n < fuel
        → Ends
            (wrap L N (failed r') m' success)
            none
            (record (c.conn) { mysql = m' })
            (drive L N resume fuel
              (after_call L N (op r) status (call_error L N status (failed r) m) (set_mysql m c)))
    drive_call {r'} {m'} fuel c completes fresh h =
        let ec = wrap L N (failed r') m' success in
        drive_through resume op failed cont t
          (λ status r m c.
            after_call L N (op r) status (call_error L N status (failed r) m) (set_mysql m c))
          (λ r ec c. invokes ec none c) continues call_finishes
          (λ status r m c.
            after_call_waits (op r) status (call_error L N status (failed r) m) (set_mysql m c))
          (Ends ec none (record (c.conn) { mysql = m' })) 0 fuel c completes fresh (omega arith)
          (λ left c' _ same. rw (drive_invokes resume left ec none c') (refl, refl, same))
